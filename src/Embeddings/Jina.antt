-- ===== src/Embeddings/Jina.antt =====
-- talap/embeddings/jina.py: the requests to the provider, with retries, and the reading of a response.
-- `F` is the type of floating point numbers.
pub mod Retries
pub mod Vectors
mod Examples
use talap_ml.Common.{
  ℕ, zero, suc, ◌+◌, Bool, true, false, ◌&&◌, ◌||◌, not, Option, none, some, List, [], ◌∷◌, ◌++◌,
  any, length, leb, ◌==◌, if◌then◌else◌, Result, ok, err, ◌>>=◌,
}
use talap_ml.Common.Int.{ℤ, pos, negsuc}
use talap_ml.Common.Text.{Text, text, is_empty, strip}
use talap_ml.Common.Decimal.{show}
use talap_ml.Common.Json.{
  Json, boolean, integer, real, object, Fields, find_field, get, as_object, as_list,
}
use talap_ml.Indexing.Rows.{
  EmbeddingResult, EmbeddingClient, ProviderError, jina_error, other_error,
}

-- what the program uses of floating point numbers
pub record Floats (F : Type 0) : Type 0 where
  -- `a < b`
  pub lt : F → F → Bool
  pub zero : F
  -- `float(text)`, none is ValueError
  pub of_text : Text → Option F
  -- `float(n)`, none is OverflowError
  pub of_integer : ℤ → Option F
  -- the number that a JSON real is read as
  pub of_real : Text → F
  pub is_finite : F → Bool
  -- `x == 0`
  pub is_zero : F → Bool
  pub default_retry_delay : F
  pub max_retry_after : F

-- JinaEmbeddingError with its message, JinaEmbeddingDimensionError, and an error that is not caught
pub data JinaError : Type 0 where
  embedding_error : Text → JinaError
  dimension_error : Text → JinaError
  overflow_error : JinaError

-- a response: its status, its Retry-After header, and its body, none where it is not JSON
pub record Response : Type 0 where
  pub status_code : ℕ
  pub retry_after : Option Text
  pub body : Option Json

-- what a POST comes to
pub data Exchange : Type 0 where
  timed_out transport_error : Exchange
  responded : Response → Exchange

-- one request returns, fails for good, or may be tried again after a delay
pub data Attempt (F : Type 0) : Type 0 where
  done : Result JinaError (EmbeddingResult F) → Attempt F
  retryable : Text → F → Attempt F

abbrev pub is_retryable_status : ℕ → Bool
is_retryable_status code =
    code == 408 || code == 429 || code == 500 || code == 502 || code == 503 || code == 504

abbrev pub http_error : ℕ → Text
http_error code = text "Jina embedding request failed with HTTP " ++ show code ++ text "."

module _ {F : Type 0} (floats : Floats F) where
  -- Python's `min(a, b)`
  abbrev pub minimum : F → F → F
  minimum a b = if floats.lt b a then b else a

  unfoldable pub retry_after_seconds : Option Text → F
  retry_after_seconds none = floats.default_retry_delay
  retry_after_seconds (some raw) = elim (floats.of_text raw) [
    | none ↦ floats.default_retry_delay
    | some seconds ↦
        if floats.lt seconds floats.zero
        then floats.default_retry_delay
        else minimum seconds floats.max_retry_after
  ]

  abbrev pub finite : F → Result JinaError F
  finite x =
      if floats.is_finite x
      then ok x
      else err (embedding_error (text "Jina embedding vector contains a non-finite value."))

  unfoldable pub finite_float : Json → Result JinaError F
  finite_float (integer n) = elim (floats.of_integer n) [
    | none ↦ err overflow_error
    | some x ↦ finite x
  ]
  finite_float (real r) = finite (floats.of_real r)
  finite_float _ =
      err (embedding_error (text "Jina embedding vector contains a non-numeric value."))

  unfoldable pub finite_floats : List Json → Result JinaError (List F)
  finite_floats [] = ok []
  finite_floats (v ∷ vs) = do x ← finite_float v; xs ← finite_floats vs; ok (x ∷ xs)

  -- `item.get("index", 0) == 0`, which a 0.0 or False also is
  abbrev pub is_first : Option Json → Bool
  is_first none = true
  is_first (some (integer (pos n))) = n == 0
  is_first (some (integer (negsuc n))) = false
  is_first (some (real r)) = floats.is_zero (floats.of_real r)
  is_first (some (boolean b)) = not b
  is_first (some _) = false

  abbrev pub fail : {A : Type 0} → Text → Result JinaError A
  fail message = err (embedding_error message)

  unfoldable pub parse_vector : Text → ℕ → List Json → Result JinaError (EmbeddingResult F)
  parse_vector model expected_dimension [] =
      fail (text "Jina embedding response vector is missing.")
  parse_vector model expected_dimension (v ∷ vs) = do
    values ← finite_floats (v ∷ vs)
    if length values == expected_dimension
        then ok (record {
          vector = values;
          provider = text "jina";
          model = model;
          dimensions = expected_dimension;
        })
        else err (
            dimension_error (
              text "Jina embedding dimension "
              ++ show (length values)
              ++ text " does not match expected "
              ++ show expected_dimension
              ++ text "."))

  -- the message of an unexpected index is without its `repr`
  unfoldable pub parse_item : Text → ℕ → Json → Result JinaError (EmbeddingResult F)
  parse_item model expected_dimension value = do
    item ← as_object (embedding_error (text "Jina embedding response item is malformed.")) value
    if not (is_first (find_field (text "index") item))
        then fail (text "Jina embedding response index is unexpected.")
        else (do
          vector ←
              as_list (embedding_error (text "Jina embedding response vector is missing."))
                (get (text "embedding") item)
          parse_vector model expected_dimension vector)

  unfoldable pub parse_data : Text → ℕ → List Json → Result JinaError (EmbeddingResult F)
  parse_data model expected_dimension (item ∷ []) = parse_item model expected_dimension item
  parse_data model expected_dimension items = fail (
      text "Jina embedding response must contain exactly one embedding, got "
      ++ show (length items)
      ++ text ".")

  unfoldable pub parse_embedding_response : Text → ℕ → Json → Result JinaError (EmbeddingResult F)
  parse_embedding_response model expected_dimension payload = do
    response ←
        as_object (embedding_error (text "Jina embedding response is not an object.")) payload
    items ←
        as_list (embedding_error (text "Jina embedding response has no data list."))
          (get (text "data") response)
    parse_data model expected_dimension items

  -- the response of one request
  unfoldable pub read_response : Text → ℕ → Response → Attempt F
  read_response model expected_dimension response =
      if is_retryable_status response.status_code
      then retryable (http_error response.status_code) (retry_after_seconds response.retry_after)
      else if leb 400 response.status_code
      then done (fail (http_error response.status_code))
      else elim response.body [
        | none ↦ done (fail (text "Jina embedding response is not valid JSON."))
        | some payload ↦ done (parse_embedding_response model expected_dimension payload)
      ]

  unfoldable pub embed_once : Text → ℕ → Exchange → Attempt F
  embed_once model expected_dimension timed_out =
      retryable (text "Jina embedding request timed out.") floats.default_retry_delay
  embed_once model expected_dimension transport_error =
      retryable (text "Jina embedding request failed due to a transport error.")
        floats.default_retry_delay
  embed_once model expected_dimension (responded response) =
      read_response model expected_dimension response

-- what a call comes to: its result, the number of its requests, and the delays between them
pub record Embedded (F : Type 0) : Type 0 where
  pub result : Result JinaError (EmbeddingResult F)
  pub requests : ℕ
  pub delays : List F

pub record ClientSettings : Type 0 where
  pub model : Text
  pub dimensions : ℕ
  pub max_retries : ℕ

-- the body of a request
pub record Payload : Type 0 where
  pub model : Text
  pub input : Text
  pub task : Text
  pub dimensions : ℕ

abbrev pub after_delay : {F : Type 0} → F → Embedded F → Embedded F
after_delay delay rest = record {
  result = rest.result;
  requests = rest.requests + 1;
  delays = delay ∷ rest.delays;
}

abbrev pub one_request : {F : Type 0} → Result JinaError (EmbeddingResult F) → Embedded F
one_request result = record { result = result; requests = 1; delays = [] }

module _ {F : Type 0} (floats : Floats F) (settings : ClientSettings) where
  -- the loop from the attempt with `retries` more to come; `answers` are the provider's from there on
  unfoldable pub embed_from : ℕ → (ℕ → Exchange) → Embedded F
  embed_from zero answers =
      elim (embed_once floats settings.model settings.dimensions (answers 0)) [
        | done result ↦ one_request result
        | retryable message delay ↦ one_request (err (embedding_error message))
      ]
  embed_from (suc retries) answers =
      let rest = embed_from retries (λ i. answers (suc i)) in
      elim (embed_once floats settings.model settings.dimensions (answers 0)) [
        | done result ↦ one_request result
        | retryable message delay ↦ after_delay (minimum floats delay floats.max_retry_after) rest
      ]

  module _ (post : Payload → ℕ → Exchange) where
    unfoldable pub embed : Text → Text → Embedded F
    embed task input = embed_from settings.max_retries (
        post (record {
          model = settings.model;
          input = input;
          task = task;
          dimensions = settings.dimensions;
        }))

    abbrev pub no_request : Text → Embedded F
    no_request message = record {
      result = err (embedding_error message);
      requests = 0;
      delays = [];
    }

    unfoldable pub embed_document : Text → Embedded F
    embed_document input =
        if is_empty (strip input)
        then no_request (text "Cannot embed an empty document.")
        else embed (text "retrieval.passage") input

    unfoldable pub embed_query : Text → Embedded F
    embed_query input =
        if is_empty (strip input)
        then no_request (text "Cannot embed an empty query.")
        else embed (text "retrieval.query") input

    abbrev pub provider_error : JinaError → ProviderError
    provider_error (embedding_error message) = jina_error message
    provider_error (dimension_error message) = jina_error message
    provider_error overflow_error = other_error

    abbrev pub provider_result :
        Result JinaError (EmbeddingResult F) → Result ProviderError (EmbeddingResult F)
    provider_result (ok r) = ok r
    provider_result (err e) = err (provider_error e)

    -- the client as the indexing processor uses it
    unfoldable pub as_client : EmbeddingClient F
    as_client = record {
      provider = text "jina";
      model = settings.model;
      dimensions = settings.dimensions;
      embed_document = λ document. provider_result (embed_document document).result;
    }
