-- ===== src/Echo/Selection.antt =====
-- Numeric replies in a run of apps/worker/jobs/whatsapp_echo.py.
use talap_ml.Common.{
  ℕ, ◌-◌, ◌≡◌, ◌≤◌, refl, ◌∙◌, Bool, true, false, none, some, List, length, get_elem?, arith, err,
  if◌then◌else◌,
}
use talap_ml.Common.Text.{text, text_eq_iff, strip}
use talap_ml.Common.Decimal.{show, isdigit, int_of, max_str_digits}
use talap_ml.Jobs.{ClaimedJob}
use talap_ml.Recommendations.{
  ActiveRecommendation, DisplayedProduct, is_numeric_selection, load_active_recommendation,
  mark_recommendation_selected, manager_whatsapp_link,
}
use talap_ml.Recommendations.Numeric.{show→numeric, int_of-show}
use talap_ml.Echo.{product_uuid, format_selection_response, selected_product}
use talap_ml.Echo.World.{World, Surroundings, InboundMessage, value_error}
use talap_ml.Echo.Worker.{
  body_of, send_and_complete, answer_selection, handle_number, handle_selection, answer_text,
  process_message,
}

selected_product_lem :
    (index : ℕ) (products : List DisplayedProduct) (displayed : DisplayedProduct)
    → 1 ≤ index
    → index ≤ length products
    → get_elem? products (index - 1) ≡ some displayed
    → selected_product index products ≡ some displayed
unfolding selected_product
selected_product_lem index products displayed low high at = ground (arith, at)

if_false : {A : Type 0} (b : Bool) (x y : A) → b ≡ false → (if b then x else y) ≡ y
if_false true x y e = absurd (ground arith)
if_false false x y e = refl

module _ (w : Surroundings) (claimed : ClaimedJob) (message : InboundMessage) (world : World) where
  selection_run :
      (index : ℕ)
      → length (show index) ≤ max_str_digits
      → handle_selection w claimed message (show index) world
        ≡ handle_number w claimed message (show index) world
  unfolding handle_selection
  selection_run index fits = rw (show→numeric w.unicode index fits, handle_selection) refl

  number_run :
      (shown : ActiveRecommendation) (index : ℕ)
      → load_active_recommendation message.channel message.external_user_id world.recommendations
        ≡ some shown
      → length (show index) ≤ max_str_digits
      → w.load_raises ≡ false
      → handle_number w claimed message (show index) world
        ≡ some (answer_selection w claimed message shown index world)
  unfolding handle_number
  number_run shown index loaded fits loads =
      if_false w.load_raises _ _ loads ∙ rw (loaded, int_of-show w.unicode index fits) refl

  answered_run :
      (shown : ActiveRecommendation) (index : ℕ) (displayed : DisplayedProduct)
      → 1 ≤ index
      → index ≤ length shown.displayed_products
      → get_elem? shown.displayed_products (index - 1) ≡ some displayed
      → w.mark_raises ≡ false
      → answer_selection w claimed message shown index world
        ≡ send_and_complete w claimed message
            (format_selection_response displayed (manager_whatsapp_link w.manager_setting))
            (record world {
              recommendations =
                  mark_recommendation_selected shown.state_id index
                    (product_uuid w.uuid_of displayed)
                    w.state_time
                    world.recommendations;
            })
  unfolding answer_selection
  answered_run shown index displayed low high at marks =
      rw
        (
          answer_selection,
          selected_product_lem index shown.displayed_products displayed low high at,
        )
        (if_false w.mark_raises _ _ marks)

module _ (w : Surroundings) (claimed : ClaimedJob) (message : InboundMessage) (world : World)
    (whatsapp : message.channel ≡ text "whatsapp")
    (is_text : message.message_type ≡ text "text") where
  process_text :
      process_message w claimed (some message) world ≡ answer_text w claimed message world
  unfolding process_message
  process_text =
      rw
        (
          (text_eq_iff message.channel (text "whatsapp")).1 whatsapp,
          (text_eq_iff message.message_type (text "text")).1 is_text,
        )
        refl

  -- A WhatsApp text reply that is the number of a displayed product, from 1 on, marks the active
  -- set with it and sends the confirmation of that product, whatever the extractor and the search
  -- would reply, where the recommendation tables work and the number is short enough for int.
  pub selection_resolves :
      (shown : ActiveRecommendation) (index : ℕ) (displayed : DisplayedProduct)
      → load_active_recommendation message.channel message.external_user_id world.recommendations
        ≡ some shown
      → strip (body_of message.text) ≡ show index
      → length (show index) ≤ max_str_digits
      → 1 ≤ index
      → index ≤ length shown.displayed_products
      → get_elem? shown.displayed_products (index - 1) ≡ some displayed
      → w.load_raises ≡ false
      → w.mark_raises ≡ false
      → process_message w claimed (some message) world
        ≡ send_and_complete w claimed message
            (format_selection_response displayed (manager_whatsapp_link w.manager_setting))
            (record world {
              recommendations =
                  mark_recommendation_selected shown.state_id index
                    (product_uuid w.uuid_of displayed)
                    w.state_time
                    world.recommendations;
            })
  unfolding answer_text
  selection_resolves shown index displayed loaded trimmed fits low high at loads marks =
      rw
        (
          process_text,
          answer_text,
          trimmed,
          selection_run w claimed message world index fits,
          number_run w claimed message world shown index loaded fits loads,
          answered_run w claimed message world shown index displayed low high at marks,
        )
        refl

  -- digits that int does not convert
  pub unreadable_digits_raise :
      isdigit w.unicode (strip (body_of message.text)) ≡ true
      → int_of w.unicode (strip (body_of message.text)) ≡ none
      → process_message w claimed (some message) world ≡ (err value_error, world)
  unfolding answer_text handle_selection is_numeric_selection
  unreadable_digits_raise digits unreadable =
      rw (process_text, answer_text, handle_selection, is_numeric_selection, digits, unreadable)
        refl
