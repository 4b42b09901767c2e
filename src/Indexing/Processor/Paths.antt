-- ===== src/Indexing/Processor/Paths.antt =====
-- The ways in which talap/indexing/processor.py ends: what holds of each holds of the call.
use talap_ml.Common.{
  ◌≡◌, refl, inl, inr, Bool, true, false, arith, ◌==◌, length, Result, ok, err, Result-cases,
  Option-cases, Bool-cases,
}
use talap_ml.Common.Text.{Text}
use talap_ml.Indexing.Rows.{Database, EmbeddingResult, ProviderError}
use talap_ml.Indexing.Processor.Results.{ProcessResult, ProcessError, catch_stale}
use talap_ml.Indexing.Processor.Read.{
  find_product, find_variant, find_embedding, read_catalog_state, embedding_identical, index_text,
}
use talap_ml.Indexing.Processor.Write.{
  ProcessCall, fail_task_and_result, write_embedding_atomically,
}
use talap_ml.Indexing.Processor.{skip, use_result, process_claimed_indexing_task}

module _ {F : Type 0} (sha256 : Text → Text) (call : ProcessCall F) (before after : Database F)
    (P : Result ProcessError (ProcessResult × Database F) → Type 0)
    (raising : (e : ProcessError) → find_embedding call.claimed before ≡ err e → P (err e))
    (failing : (force : Bool) (message : Text) → P (fail_task_and_result call force message after))
    (skipping : P (skip sha256 call after))
    (writing : (document : Text) (result : EmbeddingResult F)
      → call.client.embed_document document ≡ ok result
      → result.dimensions ≡ call.client.dimensions
      → length result.vector ≡ call.client.dimensions
      → P (
          catch_stale call.claimed after
            (write_embedding_atomically call sha256 result document (sha256 document) after))) where
  use_result_path :
      (document : Text) (answer : Result ProviderError (EmbeddingResult F))
      → call.client.embed_document document ≡ answer
      → P (use_result sha256 call document (sha256 document) after answer)
  unfolding use_result
  use_result_path document (err e) answered = failing false _
  use_result_path document (ok result) answered =
      elim (Bool-cases (result.dimensions == call.client.dimensions)) [
        | inl d ↦ elim (Bool-cases (length result.vector == call.client.dimensions)) [
          | inl n ↦ rw (d, n) (writing document result answered (ground arith) (ground arith))
          | inr n ↦ rw (d, n) (failing false _)
        ]
        | inr d ↦ rw d (failing false _)
      ]

  pub process_paths : P (process_claimed_indexing_task sha256 call before after)
  unfolding process_claimed_indexing_task read_catalog_state
  process_paths = elim (Option-cases (find_product call.claimed before)) [
    | inl gone ↦ rw gone (failing true _)
    | inr (p, found) ↦ elim (Result-cases (find_embedding call.claimed before)) [
      | inr (e, many) ↦ rw (found, many) (raising e many)
      | inl (existing, read) ↦ elim (Option-cases (find_variant call.claimed before)) [
        | inl gone ↦ rw (found, read, gone) (failing false _)
        | inr (v, at_variant) ↦
            elim (Bool-cases (embedding_identical existing call.client (sha256 (index_text p v)))) [
              | inl same ↦ rw (found, read, at_variant, same) skipping
              | inr differs ↦
                  rw (found, read, at_variant, differs)
                    (use_result_path (index_text p v) (call.client.embed_document (index_text p v))
                      refl)
            ]
      ]
    ]
  ]
