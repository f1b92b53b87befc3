-- ===== src/Content/Tests.antt =====
-- Two languages are generated, and the ceiling stops the third.
use aeo_geo_optimization.Common.{
  ◌+◌, ◌≤◌, ◌≡◌, refl, String, true, false, none, some, List, [], ◌∷◌, text_eq, arith,
}
use aeo_geo_optimization.Common.Int.{pos}
use aeo_geo_optimization.Common.OrderedMap.{push, group_from}
use aeo_geo_optimization.Cost.Qgen.{QgenRunBudget, create_qgen_budget, record_usage}
use aeo_geo_optimization.Content.Multilingual.{
  ContentCell, GeneratedContentItem, GenOptions, generate_languages, generate_multilingual_content,
  on_language, on_result,
}
use aeo_geo_optimization.Content.Multilingual.Spending.{
  AtMost, Accounted, generate_multilingual_content-spent,
}

abbrev cell : String → ContentCell
cell language = record {
  content_type = "faq";
  format = "qa";
  language = language;
  channel_class = "web2";
  target_variants = 2;
  phrasing_group_seed = "s";
}

abbrev item : String → GeneratedContentItem
item language = record {
  format = "qa";
  language = language;
  channel_class = "web2";
  phrasing_group_id = "g";
  body = "text";
}

-- 0.30 dollars for each language.
abbrev opts : GenOptions
opts = record {
  generate = λ language cells.
      some record { items = item language ∷ []; raw_count = 2; usd = pos 300_000 };
  model_id = none;
  low_resource_languages = none;
}

abbrev budget : QgenRunBudget
budget =
    create_qgen_budget 50_000_000 150_000_000
      record { run_ceiling_usd = none; global_weekly_usd_cap = none; global_monthly_usd_cap = none }

abbrev matrix : List ContentCell
matrix = cell "ko" ∷ cell "th" ∷ cell "ko" ∷ cell "en" ∷ []

-- The second language of 0.60 dollars is kept and marked for review, and the third not asked for.
kept :
    (generate_multilingual_content opts matrix budget).1.items
    ≡ (record { item = item "ko"; needs_native_review = false })
      ∷ (record { item = item "th"; needs_native_review = true })
      ∷ []
unfolding generate_multilingual_content group_from push text_eq generate_languages on_language
    on_result record_usage
kept = refl

each-AtMost :
    (language : String) (cells : List ContentCell) → AtMost 300_000 (opts.generate language cells)
each-AtMost language cells = omega arith

generate_multilingual_content-spent_example :
    Accounted 0
      (generate_multilingual_content opts matrix budget).0
      (generate_multilingual_content opts matrix budget).1
    × ((generate_multilingual_content opts matrix budget).1.budget.accumulated_usd
        ≤ 500_000 + 300_000)
generate_multilingual_content-spent_example =
    generate_multilingual_content-spent opts matrix budget 300_000 each-AtMost (omega arith)
