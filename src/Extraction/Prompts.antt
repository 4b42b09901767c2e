-- ===== src/Extraction/Prompts.antt =====
-- The prompts of talap/ai/customer_request.py.
use talap_ml.Common.{◌++◌}
use talap_ml.Common.Text.{Text, text}

abbrev pub system_prompt : Text
system_prompt =
    text "You extract structured customer requests. Respond ONLY with JSON, no explanation"
    ++ text "s and no Markdown. The customer message may be in Russian (ru), Kazakh (kk), or "
    ++ text "mixed. Output exactly these fields: intent: \"product_search\"|\"handoff\"|\"unknown\""
    ++ text
        "; language: \"kk\"|\"ru\"|\"mixed\"|\"unknown\"; category: string|null; query_text: stri"
    ++ text "ng; attributes: object with string keys and string values; budget_max_kzt: integ"
    ++ text "er>=0|null; quantity: integer>=1|null; missing_field: string|null. Example: {\"in"
    ++ text
        "tent\":\"product_search\",\"language\":\"ru\",\"category\":\"sneakers\",\"query_text\":\"синие"
    ++ text
        " кроссовки\",\"attributes\":{},\"budget_max_kzt\":null,\"quantity\":null,\"missing_field"
    ++ text "\":null}"

abbrev pub repair_system_prompt : Text
repair_system_prompt =
    text "Return only valid JSON matching the original extraction schema. No explanations,"
    ++ text " no Markdown."
