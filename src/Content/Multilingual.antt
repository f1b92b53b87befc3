-- ===== src/Content/Multilingual.antt =====
-- The loop that generates content for each language of a matrix: `generateMultilingualContent` of
-- src/content/multilingualContent.ts. The generation for one language is passed. The ledger is what is asked of it: its writes are not awaited, and one that
-- fails is only logged.
pub mod Spending
use aeo_geo_optimization.Common.{
  ℕ, ◌+◌, String, Bool, true, false, Option, none, some, List, [], ◌∷◌, ◌++◌, map, any, text_eq,
  if◌then◌else◌,
}
use aeo_geo_optimization.Common.Int.{ℤ}
use aeo_geo_optimization.Common.OrderedMap.{group_from}
use aeo_geo_optimization.Cost.Qgen.{
  QgenRunBudget, Recorded, recorded, range_error, budget_exceeded, record_usage, is_within_ceiling,
}

-- A row that the ledger is asked for; its other columns are constants or counts of tokens.
pub record LedgerCall : Type 0 where
  pub model_id : String
  pub usd : ℤ

abbrev pub default_gen_model : String
default_gen_model = "gemini-2.5-flash"

abbrev pub default_low_resource_languages : List String
default_low_resource_languages = "tl" ∷ "vi" ∷ "th" ∷ []

-- `??`
abbrev pub or_default {ℓ} : {A : Type ℓ} → Option A → A → A
or_default none d = d
or_default (some a) d = a

-- Enumerations are texts here.
pub record ContentCell : Type 0 where
  pub content_type : String
  pub format : String
  pub language : String
  pub channel_class : String
  pub target_variants : ℕ
  pub phrasing_group_seed : String

-- The body is the text that is stored; the candidate claims are empty here.
pub record GeneratedContentItem : Type 0 where
  pub format : String
  pub language : String
  pub channel_class : String
  pub phrasing_group_id : String
  pub body : String

-- What one generation gives where it does not fail.
pub record LangResult : Type 0 where
  pub items : List GeneratedContentItem
  pub raw_count : ℕ
  pub usd : ℤ

pub record GeneratedContentItemWithReview : Type 0 where
  pub item : GeneratedContentItem
  pub needs_native_review : Bool

pub record GenOptions : Type 0 where
  pub generate : String → List ContentCell → Option LangResult
  pub model_id : Option String
  pub low_resource_languages : Option (List String)

pub record GenRun : Type 0 where
  pub items : List GeneratedContentItemWithReview
  pub generated_total : ℕ
  pub ledger : List LedgerCall
  pub budget : QgenRunBudget

-- How the body of the loop ends: `continue` or its end, `break`, or an exception.
pub data Turn : Type 0 where
  goes_on breaks throws : GenRun → Turn

abbrev pub is_low_resource : GenOptions → String → Bool
is_low_resource opts language =
    any (text_eq language) (or_default opts.low_resource_languages default_low_resource_languages)

abbrev pub reviewed : GenOptions → String → GeneratedContentItem → GeneratedContentItemWithReview
reviewed opts language item = record {
  item = item;
  needs_native_review = is_low_resource opts language;
}

-- The items are kept, whether or not the ceiling is now exceeded.
abbrev pub keep_items : GenOptions → String → LangResult → GenRun → GenRun
keep_items opts language result run = record run {
  items = run.items ++ map (reviewed opts language) result.items;
  generated_total = run.generated_total + result.raw_count;
}

abbrev pub on_recorded : GenOptions → String → LangResult → GenRun → Recorded × QgenRunBudget → Turn
on_recorded opts language result run (recorded, b) =
    goes_on (keep_items opts language result (record run { budget = b }))
on_recorded opts language result run (budget_exceeded, b) =
    breaks (keep_items opts language result (record run { budget = b }))
on_recorded opts language result run (range_error, b) = throws (record run { budget = b })

unfoldable pub on_result : GenOptions → String → GenRun → Option LangResult → Turn
on_result opts language run none = goes_on run
on_result opts language run (some result) =
    let asked = record run {
      ledger =
          (record { model_id = or_default opts.model_id default_gen_model; usd = result.usd })
          ∷ run.ledger;
    } in
    on_recorded opts language result asked (record_usage result.usd run.budget)

unfoldable pub on_language : GenOptions → String → List ContentCell → GenRun → Turn
unfolding on_result
on_language opts language cells run =
    if is_within_ceiling run.budget
    then on_result opts language run (opts.generate language cells)
    else breaks run

-- False where an exception leaves the loop.
abbrev pub proceed : (GenRun → Bool × GenRun) → Turn → Bool × GenRun
proceed rest (goes_on run) = rest run
proceed rest (breaks run) = (true, run)
proceed rest (throws run) = (false, run)

unfoldable pub generate_languages :
    GenOptions → List (String × List ContentCell) → GenRun → Bool × GenRun
generate_languages opts [] run = (true, run)
generate_languages opts ((language, cells) ∷ groups) run =
    proceed (generate_languages opts groups) (on_language opts language cells run)

abbrev pub group_cells_by_language : List ContentCell → List (String × List ContentCell)
group_cells_by_language matrix = group_from text_eq (λ (c : ContentCell). c.language) matrix []

unfoldable pub generate_multilingual_content :
    GenOptions → List ContentCell → QgenRunBudget → Bool × GenRun
unfolding generate_languages
generate_multilingual_content opts matrix budget =
    generate_languages opts (group_cells_by_language matrix)
      (record { items = []; generated_total = 0; ledger = []; budget = budget })
