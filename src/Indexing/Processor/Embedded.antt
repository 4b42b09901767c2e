-- ===== src/Indexing/Processor/Embedded.antt =====
-- What talap/indexing/processor.py stores when it reports an embedding.
use talap_ml.Common.{
  ◌≡◌, refl, sym, inl, inr, Bool, true, ◌==◌, if◌then◌else◌, none, some, List, [], ◌∷◌, arith,
  Result, ok, err, length, select, All, All-select, All-select_self, Bool-cases, Result-cases,
  Option-cases,
}
use talap_ml.Common.Text.{Text, text_eq, text_eq_iff}
use talap_ml.Common.Table.{
  Uuid, find_row, HasUniqueKeys, found_of_HasUniqueKeys, find_row-append_fresh, find_row-update_row,
}
use talap_ml.Indexing.Worker.{
  Task, TaskStatus, TaskError, check_claim, find_task, mark_indexing_task_completed,
  mark_indexing_task_failed, not_found, invalid_transition, stale_claim, invalid_value,
}
use talap_ml.Indexing.Rows.{Database, EmbeddingResult, ProductEmbedding, Product, ProductVariant}
use talap_ml.Indexing.Processor.Results.{
  ProcessError, ProcessResult, ProcessStatus, embedded, task_error, effective_max_attempts,
  failure_result, catch_stale, product_missing_message, variant_missing_message,
  document_changed_message, scalar_one_or_none,
}
use talap_ml.Indexing.Processor.Read.{
  find_embedding, find_embedding-raises, is_embedding_of, find_product, find_variant, index_text,
}
use talap_ml.Indexing.Processor.Write.{
  ProcessCall, embedding_key, fail_in_session, fail_task_and_result, new_embedding,
  updated_embedding, store_and_complete, write_for_product, write_embedding_atomically,
}
use talap_ml.Indexing.Processor.{skip, process_claimed_indexing_task}
use talap_ml.Indexing.Processor.Paths.{process_paths}

module _ {F : Type 0} (sha256 : Text → Text) (call : ProcessCall F) (after : Database F) where
  -- `e` is an embedding of the document that `p` and `v` have now, made by the call's client.
  pub record IsCurrent (p : Product) (v : ProductVariant) (e : ProductEmbedding F) : Type 0 where
    pub of_product : e.product_id ≡ call.claimed.product_id
    pub of_merchant : e.merchant_id ≡ call.claimed.merchant_id
    pub of_document : e.document_sha256 ≡ sha256 (index_text p v)
    pub of_text : e.document_sha256 ≡ sha256 e.document_text
    pub by_provider : e.provider ≡ call.client.provider
    pub by_model : e.model ≡ call.client.model
    pub declared_size : e.dimensions ≡ call.client.dimensions
    pub actual_size : length e.embedding ≡ call.client.dimensions
    -- the vector is the answer of the client for the stored text
    pub of_answer :
        (result : EmbeddingResult F) × (call.client.embed_document e.document_text ≡ ok result)
        × (e.embedding ≡ result.vector)

  -- The row of `id` is current, and no other embedding changed.
  abbrev pub Stores : Uuid → Database F → Type 0
  Stores id db =
      (p : Product) × (v : ProductVariant) × (e : ProductEmbedding F) × (find_product call.claimed
          after
        ≡ some p)
      × (find_variant call.claimed after ≡ some v)
      × ((k : Uuid)
          → find_row embedding_key k db.embeddings
            ≡ (if id == k then some e else find_row embedding_key k after.embeddings))
      × IsCurrent p v e

  abbrev pub StoresIfEmbedded : ProcessResult → ProcessStatus → Database F → Type 0
  StoresIfEmbedded r embedded db = (id : Uuid) × (r.embedding_id ≡ some id) × Stores id db
  StoresIfEmbedded r _ db = db.embeddings ≡ after.embeddings

  -- A call that raises commits nothing.
  abbrev pub HasStored : Result ProcessError (ProcessResult × Database F) → Type 0
  HasStored (ok (r, db)) = StoresIfEmbedded r r.status db
  HasStored (err e) = Unit

  raised-HasStored :
      (e : TaskError) → HasStored (catch_stale call.claimed after (err (task_error e)))
  raised-HasStored not_found = tt
  raised-HasStored invalid_transition = tt
  raised-HasStored stale_claim = refl
  raised-HasStored invalid_value = tt

  failed-HasStored :
      (outcome : TaskStatus) (message : Text) (tasks : List Task)
      → HasStored (ok (failure_result outcome call.claimed message, record after { tasks = tasks }))
  failed-HasStored TaskStatus.pending message tasks = refl
  failed-HasStored _ message tasks = refl

  fail-HasStored :
      (force : Bool) (message : Text) → HasStored (fail_task_and_result call force message after)
  unfolding fail_task_and_result
  fail-HasStored force message =
      elim (Result-cases (
        mark_indexing_task_failed call.claimed.task_id call.claimed.attempts message
          (effective_max_attempts force call.max_attempts) call.retry_delay call.process_time
          after.tasks)) [
            | inl (r, e) ↦ rw e (failed-HasStored r.0 message r.1)
            | inr (x, e) ↦ rw e (raised-HasStored x)
          ]

  skip-HasStored : HasStored (skip sha256 call after)
  unfolding skip
  skip-HasStored =
      elim (Result-cases (
        mark_indexing_task_completed call.claimed.task_id call.claimed.attempts call.process_time
          after.tasks)) [ inl (r, e) ↦ rw e refl | inr (x, e) ↦ rw e (raised-HasStored x) ]

  module _ (keys : HasUniqueKeys embedding_key after.embeddings) where
    -- The embedding that is found is a row of the claimed product.
    found_embedding :
        (rows : List (ProductEmbedding F))
        → All (λ e. find_row embedding_key e.id after.embeddings ≡ some e) rows
        → All (λ e. is_embedding_of call.claimed e ≡ true) rows
        → (e : ProductEmbedding F) → scalar_one_or_none rows ≡ ok (some e)
        → (find_row embedding_key e.id after.embeddings ≡ some e)
          × (e.product_id ≡ call.claimed.product_id)
          × (e.merchant_id ≡ call.claimed.merchant_id)
    found_embedding [] h g e one = cc
    found_embedding (x ∷ []) h g e one =
        let same : x ≡ e = cc one in rw (← same) (h.0, ground (arith, g.0), ground (arith, g.0))
    found_embedding (x ∷ y ∷ rows) h g e one = cc

    find_embedding-found :
        (e : ProductEmbedding F)
        → find_embedding call.claimed after ≡ ok (some e)
        → (find_row embedding_key e.id after.embeddings ≡ some e)
          × (e.product_id ≡ call.claimed.product_id)
          × (e.merchant_id ≡ call.claimed.merchant_id)
    unfolding find_embedding
    find_embedding-found e one =
        let mine = is_embedding_of call.claimed in
        let rows = after.embeddings in
        found_embedding (select mine rows)
          (All-select (λ x. find_row embedding_key x.id rows ≡ some x) mine rows
            (found_of_HasUniqueKeys embedding_key rows keys))
          (All-select_self mine rows) e one

    module _ (fresh : find_row embedding_key call.new_id after.embeddings ≡ none)
        (result : EmbeddingResult F) (document : Text)
        (answered : call.client.embed_document document ≡ ok result)
        (declared : result.dimensions ≡ call.client.dimensions)
        (actual : length result.vector ≡ call.client.dimensions) (p : Product) (v : ProductVariant)
        (at_product : find_product call.claimed after ≡ some p)
        (at_variant : find_variant call.claimed after ≡ some v)
        (unchanged : sha256 (index_text p v) ≡ sha256 document) where
      inserted-IsCurrent : IsCurrent p v (new_embedding call document (sha256 document) result)
      unfolding new_embedding
      inserted-IsCurrent = record {
        of_product = refl;
        of_merchant = refl;
        of_document = sym unchanged;
        of_text = refl;
        by_provider = refl;
        by_model = refl;
        declared_size = refl;
        actual_size = actual;
        of_answer = (result, answered, refl);
      }

      updated-IsCurrent :
          (e : ProductEmbedding F)
          → e.product_id ≡ call.claimed.product_id
          → e.merchant_id ≡ call.claimed.merchant_id
          → IsCurrent p v (updated_embedding call document (sha256 document) result e)
      unfolding updated_embedding
      updated-IsCurrent e of_product of_merchant = record {
        of_product = of_product;
        of_merchant = of_merchant;
        of_document = sym unchanged;
        of_text = refl;
        by_provider = refl;
        by_model = refl;
        declared_size = refl;
        actual_size = actual;
        of_answer = (result, answered, refl);
      }

      store-HasStored : HasStored (
          catch_stale call.claimed after
            (store_and_complete call sha256 result document (sha256 document) after))
      unfolding store_and_complete
      store-HasStored = elim (Result-cases (find_embedding call.claimed after)) [
        | inl (none, read) ↦
            let e = new_embedding call document (sha256 document) result in
            rw read (
              call.new_id,
              refl,
              (
                p,
                v,
                e,
                at_product,
                at_variant,
                (λ k.
                    unfold new_embedding in
                    find_row-append_fresh embedding_key k after.embeddings e fresh),
                inserted-IsCurrent,
              ),
            )
        | inl (some e, read) ↦
            let (found, of_product, of_merchant) = find_embedding-found e read in
            let write = updated_embedding call document (sha256 document) result in
            rw read (
              e.id,
              refl,
              (
                p,
                v,
                write e,
                at_product,
                at_variant,
                (λ k.
                    unfold updated_embedding in
                    ground (
                      arith,
                      found,
                      find_row-update_row embedding_key write (λ x. refl) e.id k after.embeddings,
                    )),
                updated-IsCurrent e of_product of_merchant,
              ),
            )
        | inr (x, read) ↦ rw (read, find_embedding-raises call.claimed after x read) tt
      ]

    module _ (fresh : find_row embedding_key call.new_id after.embeddings ≡ none) (document : Text)
        (result : EmbeddingResult F) (answered : call.client.embed_document document ≡ ok result)
        (declared : result.dimensions ≡ call.client.dimensions)
        (actual : length result.vector ≡ call.client.dimensions) where
      write_for_product-HasStored :
          (t : Task)
          → HasStored (
              catch_stale call.claimed after (
                write_for_product call sha256 result document
                  (sha256 document)
                  t
                  after
                  (find_product call.claimed after)))
      unfolding write_for_product fail_in_session
      write_for_product-HasStored t = elim (Option-cases (find_product call.claimed after)) [
        | inl gone ↦ rw gone (failed-HasStored _ product_missing_message _)
        | inr (p, at_product) ↦ elim (Option-cases (find_variant call.claimed after)) [
          | inl gone ↦ rw (at_product, gone) (failed-HasStored _ variant_missing_message _)
          | inr (v, at_variant) ↦
              elim (Bool-cases (text_eq (sha256 (index_text p v)) (sha256 document))) [
                | inl same ↦
                    rw (at_product, at_variant, same)
                      (store-HasStored fresh result document answered declared actual p v at_product
                        at_variant ((text_eq_iff _ _).0 same))
                | inr changed ↦
                    rw (at_product, at_variant, changed)
                      (failed-HasStored _ document_changed_message _)
              ]
        ]
      ]

      write-HasStored : HasStored (
          catch_stale call.claimed after
            (write_embedding_atomically call sha256 result document (sha256 document) after))
      unfolding write_embedding_atomically
      write-HasStored =
          elim (Result-cases
            (check_claim call.claimed.attempts (find_task call.claimed.task_id after.tasks))) [
              | inl (t, loaded) ↦ rw loaded (write_for_product-HasStored t)
              | inr (e, refused) ↦ rw refused (raised-HasStored e)
            ]

    -- A call that reports an embedding has stored, in the row it reports, a document with the
    -- hash of the one that the product has in the database it commits to, the vector that the
    -- client answered for that stored document, and the labels of the client, and changed no
    -- other embedding; any other call has changed no embedding. This holds for any change of the
    -- database since the first read, where embedding ids are unique and the new id is unused.
    pub process_stores_current :
        (before : Database F)
        → find_row embedding_key call.new_id after.embeddings ≡ none
        → HasStored (process_claimed_indexing_task sha256 call before after)
    process_stores_current before fresh =
        process_paths sha256 call before after HasStored (λ e many. tt) fail-HasStored
          skip-HasStored
          (λ document result answered declared actual.
            write-HasStored fresh document result answered declared actual)
