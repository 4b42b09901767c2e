-- ===== src/Recommendations/Demand.antt =====
-- Unmet demand, in talap/recommendations/service.py.
use talap_ml.Common.{
  ◌≡◌, refl, inl, inr, Bool, false, ◌||◌, List, [], ◌∷◌, ◌++◌, any, arith, ◌==◌, ==_iff, Bool-cases,
}
use talap_ml.Common.Text.{Text}
use talap_ml.Common.Table.{Uuid}
use talap_ml.Recommendations.{CustomerRequest, UnmetDemand, persist_unmet_demand}

abbrev pub is_of_message : Uuid → UnmetDemand → Bool
is_of_message message_id d = d.source_message_id == message_id

-- The unique constraint of the table: no two rows have one source message.
abbrev pub HasUniqueSources : List UnmetDemand → Type 0
HasUniqueSources [] = Unit
HasUniqueSources (d ∷ rows) =
    (any (is_of_message d.source_message_id) rows ≡ false) × HasUniqueSources rows

any-append_of :
    (k : Uuid) (d : UnmetDemand) (rows : List UnmetDemand)
    → any (is_of_message k) (rows ++ d ∷ []) ≡ (any (is_of_message k) rows || is_of_message k d)
any-append_of k d [] = ground arith
any-append_of k d (r ∷ rows) = ground (arith, any-append_of k d rows)

append-HasUniqueSources :
    (d : UnmetDemand) (rows : List UnmetDemand)
    → any (is_of_message d.source_message_id) rows ≡ false
    → HasUniqueSources rows
    → HasUniqueSources (rows ++ d ∷ [])
append-HasUniqueSources d [] new unique = (refl, tt)
append-HasUniqueSources d (r ∷ rows) new unique = (
  ground (arith, any-append_of r.source_message_id d rows, unique.0),
  append-HasUniqueSources d rows (ground arith) unique.1,
)

module _ (channel user : Text) (message_id : Uuid) (request : CustomerRequest)
    (rows : List UnmetDemand) where
  -- Unmet demand is stored at most once for a message: storing it again returns False and changes
  -- nothing, and the source messages stay unique.
  pub persist_unmet_demand-once :
      (channel' user' : Text) (request' : CustomerRequest)
      → HasUniqueSources rows
      → let once = (persist_unmet_demand channel user message_id request rows).1 in
        HasUniqueSources once
        × (persist_unmet_demand channel' user' message_id request' once ≡ (false, once))
  unfolding persist_unmet_demand
  persist_unmet_demand-once channel' user' request' unique =
      elim (Bool-cases (any (is_of_message message_id) rows)) [
        | inl e ↦ rw (e, persist_unmet_demand) (unique, rw e refl)
        | inr e ↦
            rw (e, persist_unmet_demand)
              (
                append-HasUniqueSources _ rows e unique,
                rw (any-append_of message_id _ rows, e, (==_iff message_id message_id).1 refl) refl,
              )
      ]
