-- ===== src/Echo/Paths.antt =====
-- The ways a run of apps/worker/jobs/whatsapp_echo.py goes once it has claimed a job.
use talap_ml.Common.{
  ℕ, ◌≡◌, inl, inr, Bool-cases, arith, ok, Bool, true, false, Option, none, some, List, [], ◌∷◌,
  Option-cases, Result-cases, err, if◌then◌else◌,
}
use talap_ml.Common.Text.{Text, text, text_eq, text_eq_iff, strip}
use talap_ml.Common.Decimal.{int_of, isdigit}
use talap_ml.Common.Table.{Uuid}
use talap_ml.Jobs.{ClaimedJob}
use talap_ml.Recommendations.{
  CustomerRequest, DisplayedProduct, ActiveRecommendation, is_numeric_selection,
  store_recommendation_set, mark_recommendation_selected, persist_unmet_demand,
}
use talap_ml.Echo.{
  ProductSearchResult, SearchReply, replied, search_error, search_raises, selected_product,
  EchoResult, recommendation_limit,
}
use talap_ml.Echo.World.{
  InboundMessage, Extraction, extracted, extraction_error, extractor_raises, EchoRaise, value_error,
  other_error, World, Surroundings, Run,
}
use talap_ml.Echo.Worker.{
  body_of, complete_as, release_as, fail_job, send_and_complete, answer_selection, handle_number,
  handle_selection, answer_results, is_search, answer_directly, answer_search, answer_extraction,
  answer_text, unanswered, put_back, process_message,
}

-- What a run commits to the recommendations before it sends its answer.
pub data Records (w : Surroundings) (world : World) : World → Type 0 where
  nothing : Records w world world
  selection :
      (state_id : Uuid) (index : ℕ) (product : Option Uuid)
      → Records w world (record world {
        recommendations =
            mark_recommendation_selected state_id index product w.state_time world.recommendations;
      })
  displayed_set :
      (channel user : Text) (displayed : List DisplayedProduct) (message_id : Uuid)
      → Records w world (record world {
        recommendations =
            (store_recommendation_set w.new_state_id w.new_state_time channel user displayed
              message_id w.state_time world.recommendations).1;
      })
  demand :
      (channel user : Text) (message_id : Uuid) (request : CustomerRequest)
      → Records w world (record world {
        demands = (persist_unmet_demand channel user message_id request world.demands).1;
      })

-- The message is a WhatsApp text whose digits `int` does not convert.
pub record IsUnreadable (w : Surroundings) (message : InboundMessage) : Type 0 where
  pub whatsapp : message.channel ≡ text "whatsapp"
  pub is_text : message.message_type ≡ text "text"
  pub digits : isdigit w.unicode (strip (body_of message.text)) ≡ true
  pub unreadable : int_of w.unicode (strip (body_of message.text)) ≡ none

-- `Unreadable` is what a ValueError shows.
pub data PathOf (w : Surroundings) (claimed : ClaimedJob) (Unreadable : Type 0) (world : World)
    : Run EchoResult → Type 0 where
  raises :
      (e : EchoRaise)
      → (e ≡ value_error → Unreadable)
      → PathOf w claimed Unreadable world (err e, world)
  completes : PathOf w claimed Unreadable world (complete_as w (unanswered w claimed) claimed world)
  releases : PathOf w claimed Unreadable world (release_as w (put_back w claimed) claimed world)
  fails : (message : Text) → PathOf w claimed Unreadable world (fail_job w message claimed world)
  answers :
      (message : InboundMessage) (response_text : Text) (recorded : World)
      → Records w world recorded
      → PathOf w claimed Unreadable world
          (send_and_complete w claimed message response_text recorded)

-- A selection may be none.
abbrev HasPath :
    (w : Surroundings) (claimed : ClaimedJob) (Unreadable : Type 0) (world : World)
    → Option (Run EchoResult)
    → Type 0
HasPath w claimed U world none = Unit
HasPath w claimed U world (some run) = PathOf w claimed U world run

both_branches :
    {A : Type 0} (P : A → Type 0) (b : Bool) (x y : A) → P x → P y → P (if b then x else y)
both_branches P true x y p q = p
both_branches P false x y p q = q

module _ (w : Surroundings) (claimed : ClaimedJob) (message : InboundMessage) (U : Type 0)
    (world : World) where
  answer_selection-path :
      (shown : ActiveRecommendation) (index : ℕ)
      → PathOf w claimed U world (answer_selection w claimed message shown index world)
  unfolding answer_selection
  answer_selection-path shown index =
      elim (Option-cases (selected_product index shown.displayed_products)) [
        | inl e ↦ rw (e, answer_selection) (answers message _ world nothing)
        | inr (displayed, e) ↦
            rw (e, answer_selection)
              (both_branches (PathOf w claimed U world) w.mark_raises _ _ (fails _)
                (answers message _ _ (selection shown.state_id index _)))
      ]

  -- `shown` is the set that was loaded.
  loaded_path :
      (trimmed : Text) (shown : Option ActiveRecommendation)
      → (int_of w.unicode trimmed ≡ none → U)
      → HasPath w claimed U world (elim shown [
        | none ↦ none
        | some set ↦ elim (int_of w.unicode trimmed) [
          | none ↦ some (err value_error, world)
          | some index ↦ some (answer_selection w claimed message set index world)
        ]
      ])
  loaded_path trimmed none converts = tt
  loaded_path trimmed (some set) converts = elim (Option-cases (int_of w.unicode trimmed)) [
    | inl g ↦ rw g (raises value_error (λ e. converts g))
    | inr (index, g) ↦ rw g (answer_selection-path set index)
  ]

  handle_number-path :
      (trimmed : Text)
      → (int_of w.unicode trimmed ≡ none → U)
      → HasPath w claimed U world (handle_number w claimed message trimmed world)
  unfolding handle_number
  handle_number-path trimmed converts =
      both_branches (HasPath w claimed U world) w.load_raises _ _ (fails _)
        (loaded_path trimmed _ converts)

  numeric_converts :
      (trimmed : Text)
      → is_numeric_selection w.unicode trimmed ≡ ok true
      → int_of w.unicode trimmed ≡ none
      → U
  unfolding is_numeric_selection
  numeric_converts trimmed numeric invalid = absurd (ground (arith, numeric, invalid))

  numeric_raises :
      (trimmed : Text) (u : Unit {0})
      → is_numeric_selection w.unicode trimmed ≡ err u
      → (isdigit w.unicode trimmed ≡ true) × (int_of w.unicode trimmed ≡ none)
  unfolding is_numeric_selection
  numeric_raises trimmed u raised = elim (Bool-cases (isdigit w.unicode trimmed)) [
    | inr d ↦ absurd (ground (arith, raised, d))
    | inl d ↦ elim (Option-cases (int_of w.unicode trimmed)) [
      | inl i ↦ (d, i)
      | inr (n, i) ↦ absurd (ground (arith, raised, d, i))
    ]
  ]

  handle_selection-path :
      (trimmed : Text)
      → (isdigit w.unicode trimmed ≡ true → int_of w.unicode trimmed ≡ none → U)
      → HasPath w claimed U world (handle_selection w claimed message trimmed world)
  unfolding handle_selection
  handle_selection-path trimmed unreadable =
      elim (Result-cases (is_numeric_selection w.unicode trimmed)) [
        | inr (u, e) ↦
            let (digits, invalid) = numeric_raises trimmed u e in
            rw (e, handle_selection) (raises value_error (λ same. unreadable digits invalid))
        | inl (true, e) ↦
            rw (e, handle_selection) (handle_number-path trimmed (numeric_converts trimmed e))
        | inl (false, e) ↦ rw (e, handle_selection) tt
      ]

  answer_results-path :
      (request : CustomerRequest) (results : List ProductSearchResult)
      → PathOf w claimed U world (answer_results w claimed message request results world)
  unfolding answer_results
  answer_results-path request [] =
      both_branches (PathOf w claimed U world) w.demand_raises _ _ (fails _)
        (answers message _ _ (demand _ _ _ request))
  answer_results-path request (r ∷ rs) =
      both_branches (PathOf w claimed U world) w.store_raises _ _ (fails _)
        (answers message _ _ (displayed_set _ _ _ _))

  answer_search-path :
      (request : CustomerRequest) (reply : SearchReply (List ProductSearchResult))
      → PathOf w claimed U world (answer_search w claimed message request reply world)
  unfolding answer_search
  answer_search-path request (replied results) = answer_results-path request results
  answer_search-path request search_error = fails _
  answer_search-path request search_raises = raises other_error (λ e. absurd cc)

  answer_directly-path :
      (reply : SearchReply Text)
      → PathOf w claimed U world (answer_directly w claimed message reply world)
  unfolding answer_directly
  answer_directly-path (replied response) = answers message response world nothing
  answer_directly-path search_error = raises other_error (λ e. absurd cc)
  answer_directly-path search_raises = raises other_error (λ e. absurd cc)

  answer_extraction-path :
      (extraction : Extraction)
      → PathOf w claimed U world (answer_extraction w claimed message extraction world)
  unfolding answer_extraction
  answer_extraction-path (extracted request) =
      both_branches (PathOf w claimed U world) (is_search w request.intent request.missing_field) _
        _ (answer_search-path request (w.search request recommendation_limit))
        (answer_directly-path _)
  answer_extraction-path extraction_error = fails _
  answer_extraction-path extractor_raises = raises other_error (λ e. absurd cc)

  answer_text-path :
      (isdigit w.unicode (strip (body_of message.text)) ≡ true
        → int_of w.unicode (strip (body_of message.text)) ≡ none
        → U)
      → PathOf w claimed U world (answer_text w claimed message world)
  unfolding answer_text
  answer_text-path unreadable =
      let trimmed = strip (body_of message.text) in
      let selected = handle_selection-path trimmed unreadable in
      elim (Option-cases (handle_selection w claimed message trimmed world)) [
        | inl e ↦ rw (e, answer_text) (answer_extraction-path (w.extractor (body_of message.text)))
        | inr (run, e) ↦ rw (e, answer_text) (rw e at selected)
      ]

-- What a ValueError shows of the message that was found.
abbrev pub FoundUnreadable : Surroundings → Option InboundMessage → Type 0
FoundUnreadable w none = ⊥
FoundUnreadable w (some message) = IsUnreadable w message

pub process_message-PathOf :
    (w : Surroundings) (claimed : ClaimedJob) (world : World) (found : Option InboundMessage)
    → PathOf w claimed (FoundUnreadable w found) world (process_message w claimed found world)
unfolding process_message
process_message-PathOf w claimed world none = completes
process_message-PathOf w claimed world (some message) =
    elim (Bool-cases (text_eq message.channel (text "whatsapp"))) [
      | inr c ↦ rw c releases
      | inl c ↦ elim (Bool-cases (text_eq message.message_type (text "text"))) [
        | inr t ↦ rw (c, t) completes
        | inl t ↦
            rw (c, t)
              (answer_text-path w claimed message (IsUnreadable w message) world (λ digits invalid.
                record {
                  whatsapp = (text_eq_iff _ _).0 c;
                  is_text = (text_eq_iff _ _).0 t;
                  digits = digits;
                  unreadable = invalid;
                }))
      ]
    ]
