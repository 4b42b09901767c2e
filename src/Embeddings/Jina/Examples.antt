-- ===== src/Embeddings/Jina/Examples.antt =====
-- A provider that is busy once and then answers, for talap/embeddings/jina.py.
use talap_ml.Common.{
  ℕ, zero, suc, ◌≡◌, refl, true, none, some, [], ◌∷◌, ltb, ◌==◌, All, length, ◌+◌, ◌≤◌,
}
use talap_ml.Common.Int.{pos, pos_part}
use talap_ml.Common.Text.{text, strip, text_eq}
use talap_ml.Common.Json.{Json, integer, object, array, nil, cons, end, field}
use talap_ml.Indexing.Rows.{EmbeddingResult}
use talap_ml.Embeddings.Jina.{
  Floats, Exchange, responded, ClientSettings, Payload, embed_from, embed_document, embed,
  embed_once, read_response, parse_embedding_response, parse_data, parse_item, parse_vector,
  finite_floats, finite_float, retry_after_seconds, as_client,
}
use talap_ml.Embeddings.Jina.Retries.{IsRetried, IsEnd, IsWithin, embed_from_lem}
use talap_ml.Embeddings.Jina.Vectors.{as_client-IsFaithful}

-- whole numbers in place of floating point
abbrev floats : Floats ℕ
floats = record {
  lt = ltb;
  zero = 0;
  of_text = λ t. some (length t);
  of_integer = λ n. some (pos_part n);
  of_real = λ t. 0;
  is_finite = λ n. true;
  is_zero = λ n. n == 0;
  default_retry_delay = 1;
  max_retry_after = 30;
}

abbrev settings : ClientSettings
settings = record { model = text "jina-embeddings-v5-text-small"; dimensions = 2; max_retries = 2 }

abbrev vector_response : Json
vector_response = object (
    field (text "data")
      (array (
        cons
          (object (
            field (text "embedding") (array (cons (integer (pos 3)) (cons (integer (pos 4)) nil)))
              end))
          nil))
      end)

-- busy for the first request
abbrev answers : ℕ → Exchange
answers zero = responded (record { status_code = 429; retry_after = some (text "12"); body = none })
answers (suc i) =
    responded (record { status_code = 200; retry_after = none; body = some vector_response })

abbrev post : Payload → ℕ → Exchange
post payload = answers

abbrev embedding : EmbeddingResult ℕ
embedding = record {
  vector = 3 ∷ 4 ∷ [];
  provider = text "jina";
  model = text "jina-embeddings-v5-text-small";
  dimensions = 2;
}

embed_from_lem_example :
    let run = embed_from floats settings 2 answers in
    (n : ℕ) × (run.requests ≡ n + 1)
    × (n ≤ 2)
    × (length run.delays ≡ n)
    × All (IsWithin floats settings) run.delays
    × IsRetried floats settings n answers
    × IsEnd floats settings 2 n answers run.result
embed_from_lem_example = embed_from_lem floats settings refl 2 answers

as_client-IsFaithful_example :
    (embedding.provider ≡ text "jina")
    × (embedding.model ≡ settings.model)
    × (embedding.dimensions ≡ 2)
    × (length embedding.vector ≡ 2)
    × All (λ x. floats.is_finite x ≡ true) embedding.vector
unfolding as_client embed_document embed embed_from embed_once read_response
    parse_embedding_response parse_data parse_item parse_vector finite_floats finite_float strip
    text_eq
as_client-IsFaithful_example =
    as_client-IsFaithful floats settings post (text "desk") embedding refl

-- two requests, one delay
test_requests : (embed_document floats settings post (text "desk")).requests ≡ 2
unfolding embed_document embed embed_from embed_once read_response retry_after_seconds strip
test_requests = refl
