-- ===== src/Indexing/Worker/Claim.antt =====
-- What a claim of talap/indexing/worker.py takes, and what it writes.
use talap_ml.Common.{
  ℕ, ◌≤◌, ◌≡◌, refl, ◌⊎◌, inl, inr, Bool, true, ◌&&◌, leb, Bool-cases, none, some, List, map, arith,
  All, All-weaken, All-both, All-take, All-select, All-select_self, All-of_select, length,
  length-take, select, take, ok, err,
}
use talap_ml.Common.Int.{ℤ}
use talap_ml.Common.Table.{Uuid, found_of_HasUniqueKeys}
use talap_ml.Common.Sorting.{order_by, All-order_by, All-of_order_by, order_by-IsSorted}
use talap_ml.Common.Columns.{precedes-IsTotalOrder}
use talap_ml.Common.Batch.{
  IsServed, take-IsServed, select-HasUniqueKeys, take-HasUniqueKeys, order_by-HasUniqueKeys,
  find_row-update_all, update_all,
}
use talap_ml.Indexing.Worker.{
  Task, invalid_value, task_key, HasTaskKeys, find_task, can_claim, claims_before, claim_columns,
  next_tasks, claimed_row, snapshot, claim_indexing_tasks,
}

module _ (locked : Uuid → Bool) (limit : ℕ) (stale_after now : ℤ) (tasks : List Task) where
  -- A batch is distinct claimable tasks of the table, at most `limit`, and serves the tasks in
  -- order: a claimable task is left out only where `limit` tasks that come before it are taken.
  pub record IsNextBatch (batch : List Task) : Type 0 where
    pub bounded : length batch ≤ limit
    pub distinct : HasTaskKeys batch
    pub taken :
        All
          (λ t. (find_task t.id tasks ≡ some t) × (can_claim locked now stale_after t ≡ true))
          batch
    pub in_order :
        All
          (λ r.
            can_claim locked now stale_after r ≡ true
            → IsServed task_key claims_before limit batch r)
          tasks

  module _ (keys : HasTaskKeys tasks) where
    next_tasks-IsNextBatch : IsNextBatch (next_tasks locked now stale_after limit tasks)
    unfolding next_tasks
    next_tasks-IsNextBatch =
        let able : Task → Bool = can_claim locked now stale_after in
        let ordered : List Task = order_by claims_before (select able tasks) in
        let total = precedes-IsTotalOrder claim_columns in
        let unique : HasTaskKeys ordered =
          order_by-HasUniqueKeys task_key claims_before (select able tasks)
            (select-HasUniqueKeys task_key able tasks keys) in
        record {
          bounded = length-take limit ordered;
          distinct = take-HasUniqueKeys task_key limit ordered unique;
          taken =
              All-take (λ t. (find_task t.id tasks ≡ some t) × (able t ≡ true)) limit ordered
                (All-order_by claims_before (λ t. (find_task t.id tasks ≡ some t) × (able t ≡ true))
                  (select able tasks)
                  (All-both (λ t. find_task t.id tasks ≡ some t) (λ t. able t ≡ true)
                    (select able tasks)
                    (All-select (λ t. find_task t.id tasks ≡ some t) able tasks
                      (found_of_HasUniqueKeys task_key tasks keys))
                    (All-select_self able tasks)));
          in_order =
              All-of_select (IsServed task_key claims_before limit (take limit ordered)) able tasks
                (All-of_order_by claims_before
                  (IsServed task_key claims_before limit (take limit ordered)) (select able tasks)
                  (take-IsServed task_key claims_before total limit ordered
                    (order_by-IsSorted claims_before total (select able tasks)) unique));
        }

    abbrev pub ClaimsBatch : Type 0
    ClaimsBatch =
        ((1 ≤ limit)
          × (limit ≤ 100)
          × ((batch : List Task) × IsNextBatch batch
              × ((table : List Task) × (claim_indexing_tasks locked limit stale_after now tasks
                    ≡ ok (map (snapshot now) batch, table))
                  × ((k : Uuid)
                      → find_task k table ≡ (elim (find_task k batch) [
                        | none ↦ find_task k tasks
                        | some t ↦ some (claimed_row now t)
                      ])))))
        ⊎ (¬ ((1 ≤ limit) × (limit ≤ 100))
            × (claim_indexing_tasks locked limit stale_after now tasks ≡ err invalid_value))

    -- With unique keys and a limit from 1 to 100, a claim takes the next batch of distinct
    -- claimable tasks, at most the limit and served in order, returns their snapshots and writes
    -- their rows alone; with another limit it raises ValueError.
    pub claim_indexing_tasks_lem : ClaimsBatch
    unfolding claim_indexing_tasks
    claim_indexing_tasks_lem = elim (Bool-cases (leb 1 limit && leb limit 100)) [
      | inl valid ↦
          let batch : List Task = next_tasks locked now stale_after limit tasks in
          inl (
            ground arith,
            ground arith,
            (
              batch,
              next_tasks-IsNextBatch,
              (
                update_all task_key (claimed_row now) batch tasks,
                rw valid,
                find_row-update_all task_key (claimed_row now) (λ t. refl) batch tasks
                    next_tasks-IsNextBatch.distinct
                    (All-weaken
                      (λ t.
                        (find_task t.id tasks ≡ some t)
                        × (can_claim locked now stale_after t ≡ true))
                      (λ t. find_task t.id tasks ≡ some t) (λ t h. h.0) batch
                      next_tasks-IsNextBatch.taken),
              ),
            ),
          )
      | inr invalid ↦ inr (λ within. absurd (ground arith), rw invalid)
    ]
