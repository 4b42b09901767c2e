-- ===== src/Extraction/Requests.antt =====
-- What talap/ai/customer_request.py returns, and how many requests it makes.
use talap_ml.Common.{
  ℕ, ◌≤◌, ◌≡◌, refl, ap, ◌∙◌, false, Option, none, some, List, [], arith, leb, leb→le, any, length,
  if◌then◌else◌, ok, err, >>=-eq-ok, ok-subst, ok-injective, Bool-cases, Option-cases, Result-cases,
  if-cases, inl, inr,
}
use talap_ml.Common.Int.{ℤ, pos, negsuc}
use talap_ml.Common.Text.{Text, text, is_empty, strip}
use talap_ml.Common.Pydantic.{Validated, str_value, IsText, str_value-IsText, is_empty-str_value}
use talap_ml.Common.Json.{
  Json, null, boolean, integer, real, string, array, object, Fields, find_field, as_object,
}
use talap_ml.Recommendations.{CustomerRequest}
use talap_ml.Extraction.{
  Extracted, Run, Services, Keys, extraction_messages, repair_messages, fetch_content, resolved_key,
  parse_and_validate, repaired, request_and_repair, extract_customer_request,
}
use talap_ml.Extraction.Validation.{
  has_known_keys, intent_of, language_of, optional_text, non_blank_text, is_blank_item,
  attributes_onto, attributes_of, optional_number, customer_request,
}

abbrev pub IsOptionalText : Option Text → Type 0
IsOptionalText none = Unit
IsOptionalText (some s) = IsText s

abbrev pub IsAtLeast : ℕ → Option ℕ → Type 0
IsAtLeast least none = Unit
IsAtLeast least (some n) = least ≤ n

pub record IsRequest (r : CustomerRequest) : Type 0 where
  pub query : IsText r.query_text
  pub category : IsOptionalText r.category
  pub missing : IsOptionalText r.missing_field
  pub attributes : any is_blank_item r.attributes ≡ false
  pub quantity : IsAtLeast 1 r.quantity

non_blank_text-IsText : (v : Option Json) (t : Text) → non_blank_text v ≡ ok t → IsText t
unfolding non_blank_text
non_blank_text-IsText (some (string s)) t h =
    let (value, v, h1) = >>=-eq-ok (str_value s) _ h in
    elim (if-cases (is_empty (strip value)) _ _ h1) [
      | inl (e, k) ↦ absurd cc
      | inr (e, k) ↦ ok-subst IsText k (str_value-IsText s value v e)
    ]
non_blank_text-IsText none t h = absurd cc
non_blank_text-IsText (some null) t h = absurd cc
non_blank_text-IsText (some (boolean b)) t h = absurd cc
non_blank_text-IsText (some (integer n)) t h = absurd cc
non_blank_text-IsText (some (real r)) t h = absurd cc
non_blank_text-IsText (some (array a)) t h = absurd cc
non_blank_text-IsText (some (object o)) t h = absurd cc

optional_text-IsOptionalText :
    (v : Option Json) (t : Option Text) → optional_text v ≡ ok t → IsOptionalText t
unfolding optional_text
optional_text-IsOptionalText (some (string s)) t h = elim (if-cases (is_empty (strip s)) _ _ h) [
  | inl (e, k) ↦ ok-subst IsOptionalText k tt
  | inr (e, k) ↦
      let (value, v, k1) = >>=-eq-ok (str_value s) _ k in
      ok-subst IsOptionalText k1 (str_value-IsText s value v (is_empty-str_value s value v ∙ e))
]
optional_text-IsOptionalText none t h = ok-subst IsOptionalText h tt
optional_text-IsOptionalText (some null) t h = ok-subst IsOptionalText h tt
optional_text-IsOptionalText (some (boolean b)) t h = absurd cc
optional_text-IsOptionalText (some (integer n)) t h = absurd cc
optional_text-IsOptionalText (some (real r)) t h = absurd cc
optional_text-IsOptionalText (some (array a)) t h = absurd cc
optional_text-IsOptionalText (some (object o)) t h = absurd cc

attributes_of-all :
    (v : Option Json) (items : List (Text × Text))
    → attributes_of v ≡ ok items
    → any is_blank_item items ≡ false
unfolding attributes_of
attributes_of-all none items h = ok-subst (λ xs. any is_blank_item xs ≡ false) h refl
attributes_of-all (some v) items h =
    let (fields, e, h1) = >>=-eq-ok (as_object tt v) _ h in
    let (found, f, h2) = >>=-eq-ok (attributes_onto [] fields) _ h1 in
    elim (if-cases (any is_blank_item found) _ _ h2) [
      | inl (b, k) ↦ absurd cc
      | inr (b, k) ↦ ok-subst (λ xs. any is_blank_item xs ≡ false) k b
    ]

module _ (lax_int : Json → Option ℤ) where
  number_in_range :
      (least : ℕ) (value : Option ℤ) (n : Option ℕ)
      → ◌≡◌ {A = Validated (Option ℕ)}
          (elim value [ some (pos k) ↦ if leb least k then ok (some k) else err tt | _ ↦ err tt ])
          (ok n)
      → IsAtLeast least n
  number_in_range least (some (pos k)) n h = elim (if-cases (leb least k) _ _ h) [
    | inl (e, i) ↦ ok-subst (IsAtLeast least) i (leb→le least k e)
    | inr (e, i) ↦ absurd cc
  ]
  number_in_range least none n h = absurd cc
  number_in_range least (some (negsuc k)) n h = absurd cc

  optional_number-IsAtLeast :
      (least : ℕ) (v : Option Json) (n : Option ℕ)
      → optional_number lax_int least v ≡ ok n
      → IsAtLeast least n
  unfolding optional_number
  optional_number-IsAtLeast least none n h = ok-subst (IsAtLeast least) h tt
  optional_number-IsAtLeast least (some null) n h = ok-subst (IsAtLeast least) h tt
  optional_number-IsAtLeast least (some (string s)) n h =
      number_in_range least (lax_int (string s)) n h
  optional_number-IsAtLeast least (some (boolean b)) n h =
      number_in_range least (lax_int (boolean b)) n h
  optional_number-IsAtLeast least (some (integer i)) n h =
      number_in_range least (lax_int (integer i)) n h
  optional_number-IsAtLeast least (some (real r)) n h = number_in_range least (lax_int (real r)) n h
  optional_number-IsAtLeast least (some (array a)) n h =
      number_in_range least (lax_int (array a)) n h
  optional_number-IsAtLeast least (some (object o)) n h =
      number_in_range least (lax_int (object o)) n h

  customer_request-IsRequest :
      (fields : Fields) (r : CustomerRequest) → customer_request lax_int fields ≡ ok r → IsRequest r
  unfolding customer_request
  customer_request-IsRequest fields r h =
      let (i, ei, h1) = >>=-eq-ok (intent_of (find_field (text "intent") fields)) _ h in
      let (l, el, h2) = >>=-eq-ok (language_of (find_field (text "language") fields)) _ h1 in
      let (c, ec, h3) = >>=-eq-ok (optional_text (find_field (text "category") fields)) _ h2 in
      let (q, eq, h4) = >>=-eq-ok (non_blank_text (find_field (text "query_text") fields)) _ h3 in
      let (a, ea, h5) = >>=-eq-ok (attributes_of (find_field (text "attributes") fields)) _ h4 in
      let (b, eb, h6) =
        >>=-eq-ok (optional_number lax_int 0 (find_field (text "budget_max_kzt") fields)) _ h5 in
      let (n, en, h7) =
        >>=-eq-ok (optional_number lax_int 1 (find_field (text "quantity") fields)) _ h6 in
      let (m, em, h8) = >>=-eq-ok (optional_text (find_field (text "missing_field") fields)) _ h7 in
      elim (if-cases (has_known_keys fields) _ _ h8) [
        | inr (e, k) ↦ absurd cc
        | inl (e, k) ↦ ok-subst IsRequest k (record {
          query = non_blank_text-IsText _ q eq;
          category = optional_text-IsOptionalText _ c ec;
          missing = optional_text-IsOptionalText _ m em;
          attributes = attributes_of-all _ a ea;
          quantity = optional_number-IsAtLeast 1 _ n en;
        })
      ]

module _ (services : Services) where
  parse_and_validate-IsRequest :
      (content : Text) (r : CustomerRequest)
      → parse_and_validate services content ≡ ok r
      → IsRequest r
  unfolding parse_and_validate
  parse_and_validate-IsRequest content r h = elim (Option-cases (services.loads content)) [
    | inl e ↦ absurd (ground (arith, e))
    | inr (object fields, e) ↦
        customer_request-IsRequest services.lax_int fields r (rw (e, parse_and_validate) at h)
    | inr (null, e) ↦ absurd (ground (arith, e))
    | inr (boolean b, e) ↦ absurd (ground (arith, e))
    | inr (integer n, e) ↦ absurd (ground (arith, e))
    | inr (real x, e) ↦ absurd (ground (arith, e))
    | inr (string s, e) ↦ absurd (ground (arith, e))
    | inr (array xs, e) ↦ absurd (ground (arith, e))
  ]

  repaired-IsRequest :
      (answer : Extracted Text) (r : CustomerRequest)
      → repaired services answer ≡ ok r
      → IsRequest r
  unfolding repaired
  repaired-IsRequest (err e) r h = absurd cc
  repaired-IsRequest (ok content) r h = elim (Result-cases (parse_and_validate services content)) [
    | inl (x, e) ↦
        parse_and_validate-IsRequest content r (e ∙ ap ok (ok-injective (rw (e, repaired) at h)))
    | inr (x, e) ↦ absurd (ground (arith, e))
  ]

  -- At most two requests, and a result is a valid customer request.
  abbrev pub IsExtraction : Run → Type 0
  IsExtraction run = (length run.1 ≤ 2) × ((r : CustomerRequest) → run.0 ≡ ok r → IsRequest r)

  request_and_repair-IsExtraction : (t : Text) → IsExtraction (request_and_repair services t)
  unfolding request_and_repair
  request_and_repair-IsExtraction t =
      elim (Result-cases (fetch_content (services.chat (extraction_messages t)))) [
        | inr (x, e) ↦ rw (e, request_and_repair) (omega arith, λ r h. absurd cc)
        | inl (content, e) ↦ elim (Result-cases (parse_and_validate services content)) [
          | inl (r, f) ↦
              rw (e, request_and_repair, f)
                (
                  omega arith,
                  λ s h. parse_and_validate-IsRequest content s (f ∙ ap ok (ok-injective h)),
                )
          | inr (x, f) ↦
              rw (e, request_and_repair, f)
                (
                  omega arith,
                  repaired-IsRequest (fetch_content (services.chat (repair_messages t content))),
                )
        ]
      ]

  -- An extraction makes at most two requests, and what it returns is a valid customer request,
  -- whatever the model answers: its texts are trimmed of white space as pydantic does, without
  -- lone surrogates and not blank for str.strip, no attribute is blank, and a quantity is at
  -- least 1.
  pub extract_customer_request-IsExtraction :
      (keys : Keys) (customer_text : Text)
      → IsExtraction (extract_customer_request services keys customer_text)
  unfolding extract_customer_request
  extract_customer_request-IsExtraction keys t = elim (Bool-cases (is_empty (strip t))) [
    | inl e ↦ rw (e, extract_customer_request) (omega arith, λ r h. absurd cc)
    | inr e ↦ elim (Option-cases (resolved_key keys)) [
      | inl f ↦ rw (e, extract_customer_request, f) (omega arith, λ r h. absurd cc)
      | inr (key, f) ↦ rw (e, extract_customer_request, f) (request_and_repair-IsExtraction t)
    ]
  ]
