-- ===== src/Embeddings/Jina/Vectors.antt =====
-- What the embeddings that talap/embeddings/jina.py returns are like.
use talap_ml.Common.{
  ℕ, zero, suc, ◌≡◌, refl, ap, ◌∙◌, true, not, List, [], ◌∷◌, length, arith, All, Result, ok, err,
  >>=-eq-ok, ok-subst, ok-injective, Bool-cases, Option-cases, inl, inr, if-cases, leb, ◌==◌,
  ==_iff,
}
use talap_ml.Common.Text.{Text, text, is_empty, strip}
use talap_ml.Common.Json.{
  Json, null, boolean, integer, real, string, array, object, find_field, get, as_object, as_list,
}
use talap_ml.Indexing.Rows.{EmbeddingResult, EmbeddingClient}
use talap_ml.Embeddings.Jina.{
  Floats, JinaError, embedding_error, Exchange, timed_out, transport_error, responded, Response,
  Attempt, done, is_first, is_retryable_status, finite, finite_float, finite_floats, parse_vector,
  parse_item, parse_data, parse_embedding_response, read_response, embed_once, ClientSettings,
  Payload, embed_from, embed, embed_document, provider_result, as_client,
}
use talap_ml.Embeddings.Jina.Retries.{Attempt-cases}

done-injective :
    {F : Type 0} {a b : Result JinaError (EmbeddingResult F)}
    → ◌≡◌ {A = Attempt F} (done a) (done b)
    → a ≡ b
done-injective h = cc

module _ {F : Type 0} (floats : Floats F) where
  abbrev IsFinite : F → Type 0
  IsFinite x = floats.is_finite x ≡ true

  -- The embedding of the model with the dimension, of finite numbers.
  abbrev pub IsEmbedding : Text → ℕ → EmbeddingResult F → Type 0
  IsEmbedding model dimension r =
      (length r.vector ≡ dimension)
      × (r.dimensions ≡ dimension)
      × (r.provider ≡ text "jina")
      × (r.model ≡ model)
      × All IsFinite r.vector

  finite-IsFinite : (x y : F) → finite floats x ≡ ok y → IsFinite y
  finite-IsFinite x y h = elim (if-cases (floats.is_finite x) _ _ h) [
    | inl (e, k) ↦ ok-subst IsFinite k e
    | inr (e, k) ↦ absurd cc
  ]

  finite_float-IsFinite : (v : Json) (x : F) → finite_float floats v ≡ ok x → IsFinite x
  unfolding finite_float
  finite_float-IsFinite (integer n) x h = elim (Option-cases (floats.of_integer n)) [
    | inl e ↦ absurd (ground (arith, e))
    | inr (y, e) ↦ finite-IsFinite y x (rw (e, finite_float) at h)
  ]
  finite_float-IsFinite (real r) x h = finite-IsFinite (floats.of_real r) x h
  finite_float-IsFinite null x h = absurd cc
  finite_float-IsFinite (boolean b) x h = absurd cc
  finite_float-IsFinite (string s) x h = absurd cc
  finite_float-IsFinite (array a) x h = absurd cc
  finite_float-IsFinite (object o) x h = absurd cc

  finite_floats-IsFinite :
      (vs : List Json) (xs : List F) → finite_floats floats vs ≡ ok xs → All IsFinite xs
  unfolding finite_floats
  finite_floats-IsFinite [] xs h = ok-subst (All IsFinite) h tt
  finite_floats-IsFinite (v ∷ vs) xs h =
      let (y, ey, h1) = >>=-eq-ok (finite_float floats v) _ h in
      let (ys, es, h2) = >>=-eq-ok (finite_floats floats vs) _ h1 in
      ok-subst (All IsFinite) h2 (finite_float-IsFinite v y ey, finite_floats-IsFinite vs ys es)

  parse_vector-IsEmbedding :
      (model : Text) (d : ℕ) (vs : List Json) (r : EmbeddingResult F)
      → parse_vector floats model d vs ≡ ok r
      → IsEmbedding model d r
  unfolding parse_vector
  parse_vector-IsEmbedding model d [] r h = absurd cc
  parse_vector-IsEmbedding model d (v ∷ vs) r h =
      let (xs, e, h1) = >>=-eq-ok (finite_floats floats (v ∷ vs)) _ h in
      elim (if-cases (length xs == d) _ _ h1) [
        | inl (f, k) ↦
            ok-subst (IsEmbedding model d) k
              ((==_iff (length xs) d).0 f, refl, refl, refl, finite_floats-IsFinite (v ∷ vs) xs e)
        | inr (f, k) ↦ absurd cc
      ]

  parse_item-IsEmbedding :
      (model : Text) (d : ℕ) (v : Json) (r : EmbeddingResult F)
      → parse_item floats model d v ≡ ok r
      → IsEmbedding model d r
  unfolding parse_item
  parse_item-IsEmbedding model d v r h =
      let (item, e, h1) =
        >>=-eq-ok
          (as_object (embedding_error (text "Jina embedding response item is malformed.")) v) _ h in
      elim (if-cases (not (is_first floats (find_field (text "index") item))) _ _ h1) [
        | inl (f, k) ↦ absurd cc
        | inr (f, k) ↦
            let (vs, g, k1) =
              >>=-eq-ok
                (as_list (embedding_error (text "Jina embedding response vector is missing."))
                  (get (text "embedding") item))
                _ k in
            parse_vector-IsEmbedding model d vs r k1
      ]

  parse_data-IsEmbedding :
      (model : Text) (d : ℕ) (items : List Json) (r : EmbeddingResult F)
      → parse_data floats model d items ≡ ok r
      → IsEmbedding model d r
  unfolding parse_data
  parse_data-IsEmbedding model d [] r h = absurd cc
  parse_data-IsEmbedding model d (item ∷ []) r h = parse_item-IsEmbedding model d item r h
  parse_data-IsEmbedding model d (a ∷ b ∷ items) r h = absurd cc

  parse_embedding_response-IsEmbedding :
      (model : Text) (d : ℕ) (payload : Json) (r : EmbeddingResult F)
      → parse_embedding_response floats model d payload ≡ ok r
      → IsEmbedding model d r
  unfolding parse_embedding_response
  parse_embedding_response-IsEmbedding model d payload r h =
      let (response, e, h1) =
        >>=-eq-ok
          (as_object (embedding_error (text "Jina embedding response is not an object.")) payload) _
          h in
      let (items, f, h2) =
        >>=-eq-ok
          (as_list (embedding_error (text "Jina embedding response has no data list."))
            (get (text "data") response))
          _ h1 in
      parse_data-IsEmbedding model d items r h2

  read_response-IsEmbedding :
      (model : Text) (d : ℕ) (response : Response) (r : EmbeddingResult F)
      → read_response floats model d response ≡ done (ok r)
      → IsEmbedding model d r
  unfolding read_response
  read_response-IsEmbedding model d response r h =
      elim (if-cases (is_retryable_status response.status_code) _ _ h) [
        | inl (e, k) ↦ absurd cc
        | inr (e, k) ↦ elim (if-cases (leb 400 response.status_code) _ _ k) [
          | inl (f, l) ↦ absurd cc
          | inr (f, l) ↦ elim (Option-cases response.body) [
            | inl g ↦ absurd (ground (arith, g))
            | inr (payload, g) ↦
                parse_embedding_response-IsEmbedding model d payload r
                  (done-injective (ground (arith, g)))
          ]
        ]
      ]

  embed_once-IsEmbedding :
      (model : Text) (d : ℕ) (answer : Exchange) (r : EmbeddingResult F)
      → embed_once floats model d answer ≡ done (ok r)
      → IsEmbedding model d r
  unfolding embed_once
  embed_once-IsEmbedding model d timed_out r h = absurd cc
  embed_once-IsEmbedding model d transport_error r h = absurd cc
  embed_once-IsEmbedding model d (responded response) r h =
      read_response-IsEmbedding model d response r h

  module _ (settings : ClientSettings) where
    -- Every result that is returned is an embedding of the client's model and dimension.
    abbrev OnlyEmbeddings : Result JinaError (EmbeddingResult F) → Type 0
    OnlyEmbeddings result =
        (r : EmbeddingResult F) → result ≡ ok r → IsEmbedding settings.model settings.dimensions r

    embed_from-OnlyEmbeddings :
        (retries : ℕ) (answers : ℕ → Exchange)
        → OnlyEmbeddings (embed_from floats settings retries answers).result
    unfolding embed_from
    embed_from-OnlyEmbeddings zero answers =
        elim (Attempt-cases (embed_once floats settings.model settings.dimensions (answers 0))) [
          | inl (result, e) ↦
              rw (e, embed_from)
                (λ r h.
                  embed_once-IsEmbedding settings.model settings.dimensions (answers 0) r
                    (e ∙ ap done h))
          | inr (m, d, e) ↦ rw (e, embed_from) (λ r h. absurd cc)
        ]
    embed_from-OnlyEmbeddings (suc retries) answers =
        elim (Attempt-cases (embed_once floats settings.model settings.dimensions (answers 0))) [
          | inl (result, e) ↦
              rw (e, embed_from)
                (λ r h.
                  embed_once-IsEmbedding settings.model settings.dimensions (answers 0) r
                    (e ∙ ap done h))
          | inr (m, d, e) ↦
              rw (e, embed_from) (embed_from-OnlyEmbeddings retries (λ i. answers (suc i)))
        ]

    embed_document-OnlyEmbeddings :
        (post : Payload → ℕ → Exchange) (document : Text)
        → OnlyEmbeddings (embed_document floats settings post document).result
    unfolding embed_document embed
    embed_document-OnlyEmbeddings post document = elim (Bool-cases (is_empty (strip document))) [
      | inl e ↦ rw (e, embed_document) (λ r h. absurd cc)
      | inr e ↦ rw (e, embed_document) (embed_from-OnlyEmbeddings settings.max_retries _)
    ]

    -- What the processor asks of a client: a result names the client's provider and model, and has the
    -- client's number of dimensions, all of them finite.
    abbrev pub IsFaithful : EmbeddingClient F → Type 0
    IsFaithful client =
        (document : Text) (r : EmbeddingResult F)
        → client.embed_document document ≡ ok r
        → (r.provider ≡ client.provider)
          × (r.model ≡ client.model)
          × (r.dimensions ≡ client.dimensions)
          × (length r.vector ≡ client.dimensions)
          × All IsFinite r.vector

    provider_result-ok :
        (post : Payload → ℕ → Exchange) (result : Result JinaError (EmbeddingResult F))
        (r : EmbeddingResult F)
        → provider_result floats settings post result ≡ ok r
        → result ≡ ok r
    provider_result-ok post (ok x) r h = ap ok (ok-injective h)
    provider_result-ok post (err e) r h = absurd cc

    -- The Jina client is a client as the indexing processor asks for it, whatever the provider
    -- answers: a result names the provider and model of the client and has its number of
    -- dimensions, all finite.
    pub as_client-IsFaithful :
        (post : Payload → ℕ → Exchange) → IsFaithful (as_client floats settings post)
    unfolding as_client
    as_client-IsFaithful post document r h =
        let (lengths, dimensions, provider, model, are_finite) =
          embed_document-OnlyEmbeddings post document r (provider_result-ok post _ r h) in
        (provider, model, dimensions, lengths, are_finite)
