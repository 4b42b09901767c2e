-- ===== src/Recommendations/Active.antt =====
-- The active set of a customer, in talap/recommendations/service.py.
use talap_ml.Common.{
  ℕ, ◌≤◌, ◌≡◌, refl, ◌⊎◌, inl, inr, Bool, false, Option, none, some, List, [], ◌∷◌, ◌++◌, arith,
  sym, select, first, length, Bool-cases,
}
use mathlib.Core.List.{append-nil}
use talap_ml.Common.Int.{ℤ}
use talap_ml.Common.Text.{Text, text_eq, text_eq_iff}
use talap_ml.Common.Table.{Uuid, update_row}
use talap_ml.Recommendations.{
  ActiveRecommendation, RecommendationState, DisplayedProduct, active, is_active_of, supersede,
  store_recommendation_set, load_active_recommendation, mark_recommendation_selected, selected_row,
  snapshot_of,
}

abbrev pub actives : Text → Text → List RecommendationState → List RecommendationState
actives channel user rows = select (is_active_of channel user) rows

-- The partial unique index of the table: each customer has at most one active row.
abbrev pub HasOneActive : List RecommendationState → Type 0
HasOneActive rows = (channel user : Text) → length (actives channel user rows) ≤ 1

select-append :
    {A : Type 0} (p : A → Bool) (xs ys : List A) → select p (xs ++ ys) ≡ select p xs ++ select p ys
select-append p [] ys = refl
select-append p (x ∷ xs) ys = ground (arith, select-append p xs ys)

actives-supersede_self :
    (channel user : Text) (t : ℤ) (rows : List RecommendationState)
    → actives channel user (supersede channel user t rows) ≡ []
unfolding supersede
actives-supersede_self channel user t [] = refl
actives-supersede_self channel user t (s ∷ rows) =
    ground (arith, actives-supersede_self channel user t rows)

actives-supersede_other :
    (channel user c u : Text) (t : ℤ) (rows : List RecommendationState)
    → ¬ ((channel ≡ c) × (user ≡ u))
    → actives c u (supersede channel user t rows) ≡ actives c u rows
unfolding supersede
actives-supersede_other channel user c u t [] other = refl
actives-supersede_other channel user c u t (s ∷ rows) other = ground (
  arith,
  actives-supersede_other channel user c u t rows other,
  text_eq_iff s.channel channel,
  text_eq_iff s.channel c,
  text_eq_iff s.external_user_id user,
  text_eq_iff s.external_user_id u,
)

module _ (new_id : Uuid) (created : ℤ) (channel user : Text) (displayed : List DisplayedProduct)
    (message_id : Uuid) (now : ℤ) (rows : List RecommendationState) where
  abbrev new_row : RecommendationState
  new_row = record {
    id = new_id;
    channel = channel;
    external_user_id = user;
    displayed_products = displayed;
    status = active;
    selected_product_id = none;
    selected_index = none;
    source_message_id = some message_id;
    updated_at = created;
  }

  abbrev stored : List RecommendationState
  stored = (store_recommendation_set new_id created channel user displayed message_id now rows).1

  is_active_of-other :
      (c u : Text) → ¬ ((channel ≡ c) × (user ≡ u)) → select (is_active_of c u) (new_row ∷ []) ≡ []
  is_active_of-other c u other = ground (arith, text_eq_iff channel c, text_eq_iff user u)

  length_single : length (select (is_active_of channel user) (new_row ∷ [])) ≤ 1
  length_single = ground (arith, text_eq_iff channel channel, text_eq_iff user user)

  same_customer : (c u : Text) → ((channel ≡ c) × (user ≡ u)) ⊎ ¬ ((channel ≡ c) × (user ≡ u))
  same_customer c u = elim (Bool-cases (text_eq channel c)) [
    | inr e ↦ inr (λ p. ground (arith, text_eq_iff channel c))
    | inl e ↦ elim (Bool-cases (text_eq user u)) [
      | inr f ↦ inr (λ p. ground (arith, text_eq_iff user u))
      | inl f ↦ inl (ground (arith, text_eq_iff channel c), ground (arith, text_eq_iff user u))
    ]
  ]

  -- The set that was stored is the active set that is loaded for its customer.
  pub load-store_self :
      load_active_recommendation channel user stored
      ≡ some (record { state_id = new_id; displayed_products = displayed })
  unfolding store_recommendation_set load_active_recommendation
  load-store_self =
      rw
        (
          select-append (is_active_of channel user) (supersede channel user now rows)
              (new_row ∷ []),
          actives-supersede_self channel user now rows,
        )
        (ground (arith, text_eq_iff channel channel, text_eq_iff user user))

  -- Storing a set for one customer leaves the active set of any other channel or customer.
  pub load-store_other :
      (c u : Text)
      → ¬ ((channel ≡ c) × (user ≡ u))
      → load_active_recommendation c u stored ≡ load_active_recommendation c u rows
  unfolding store_recommendation_set load_active_recommendation
  load-store_other c u other =
      rw
        (
          select-append (is_active_of c u) (supersede channel user now rows) (new_row ∷ []),
          actives-supersede_other channel user c u now rows other,
          is_active_of-other c u other,
          append-nil (actives c u rows),
        )
        refl

  one_of_same : (c u : Text) → channel ≡ c → user ≡ u → length (actives c u stored) ≤ 1
  unfolding store_recommendation_set
  one_of_same c u e f =
      rw
        (
          sym e,
          sym f,
          select-append (is_active_of channel user) (supersede channel user now rows)
              (new_row ∷ []),
          actives-supersede_self channel user now rows,
        )
        length_single

  -- Storing a displayed set keeps at most one active set of each customer.
  pub store-HasOneActive : HasOneActive rows → HasOneActive stored
  unfolding store_recommendation_set
  store-HasOneActive one c u = elim (same_customer c u) [
    | inl same ↦ one_of_same c u same.0 same.1
    | inr other ↦
        rw
          (
            select-append (is_active_of c u) (supersede channel user now rows) (new_row ∷ []),
            actives-supersede_other channel user c u now rows other,
            is_active_of-other c u other,
            append-nil (actives c u rows),
          )
          (one c u)
  ]

mark-adds_none :
    (c u : Text) (state_id : Uuid) (index : ℕ) (product_id : Option Uuid) (now : ℤ)
    (rows : List RecommendationState)
    → length (actives c u (mark_recommendation_selected state_id index product_id now rows))
      ≤ length (actives c u rows)
unfolding mark_recommendation_selected update_row selected_row
mark-adds_none c u state_id index product_id now [] = omega arith
mark-adds_none c u state_id index product_id now (s ∷ rows) =
    ground (arith, mark-adds_none c u state_id index product_id now rows)

-- Marking a set as selected keeps the index.
pub mark-HasOneActive :
    (state_id : Uuid) (index : ℕ) (product_id : Option Uuid) (now : ℤ)
    (rows : List RecommendationState)
    → HasOneActive rows
    → HasOneActive (mark_recommendation_selected state_id index product_id now rows)
mark-HasOneActive state_id index product_id now rows one c u =
    let fewer = mark-adds_none c u state_id index product_id now rows in
    let at_most = one c u in omega arith

empty_of_length : (rows : List RecommendationState) → length rows ≤ 0 → rows ≡ []
empty_of_length [] h = refl
empty_of_length (r ∷ rows) h = absurd (omega arith)

selected-inactive :
    (c u : Text) (index : ℕ) (product_id : Option Uuid) (now : ℤ) (r : RecommendationState)
    → is_active_of c u (selected_row index product_id now r) ≡ false
unfolding selected_row
selected-inactive c u index product_id now r = ground arith

-- The first active row is marked, wherever it stands, and there is no second one.
actives-mark :
    (c u : Text) (index : ℕ) (product_id : Option Uuid) (now : ℤ) (rows : List RecommendationState)
    → length (actives c u rows) ≤ 1
    → (s : RecommendationState) → first (actives c u rows) ≡ some s
    → actives c u (mark_recommendation_selected s.id index product_id now rows) ≡ []
unfolding mark_recommendation_selected update_row
actives-mark c u index product_id now [] one s found = refl
actives-mark c u index product_id now (r ∷ rows) one s found =
    elim (Bool-cases (is_active_of c u r)) [
      | inl e ↦ ground (
        arith,
        selected-inactive c u index product_id now r,
        mark-adds_none c u s.id index product_id now rows,
        empty_of_length (actives c u (mark_recommendation_selected s.id index product_id now rows)),
      )
      | inr e ↦ ground (
        arith,
        selected-inactive c u index product_id now r,
        actives-mark c u index product_id now rows (rw e at one) s (rw e at found),
      )
    ]

-- Once the active set of a customer is marked as selected, the customer has no active set, where
-- there was at most one.
pub load-mark :
    (c u : Text) (shown : ActiveRecommendation) (index : ℕ) (product_id : Option Uuid) (now : ℤ)
    (rows : List RecommendationState)
    → HasOneActive rows
    → load_active_recommendation c u rows ≡ some shown
    → load_active_recommendation c u
        (mark_recommendation_selected shown.state_id index product_id now rows)
      ≡ none
unfolding load_active_recommendation snapshot_of
load-mark c u shown index product_id now rows one loaded =
    of_first (first (actives c u rows)) refl loaded
  where
    of_first :
        (head : Option RecommendationState)
        → first (actives c u rows) ≡ head
        → snapshot_of head ≡ some shown
        → snapshot_of (
            first
              (actives c u (mark_recommendation_selected shown.state_id index product_id now rows)))
          ≡ none
    of_first none e h = absurd (ground arith)
    of_first (some s) e h =
        let same : s.id ≡ shown.state_id = ground arith in
        rw (sym same, actives-mark c u index product_id now rows (one c u) s e) refl
