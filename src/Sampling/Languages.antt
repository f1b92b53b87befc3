-- ===== src/Sampling/Languages.antt =====
-- The languages of a run, by weight: src/sampling/languageWeight.ts. `localeCompare` is the
-- runtime's, and is passed.
pub mod Selection
use aeo_geo_optimization.Common.{
  ℕ, ◌-◌, String, Bool, List, [], ◌∷◌, map, Ordering, compare, leb, ◌==◌, if◌then◌else◌, take,
  length, keep, max, last_or,
}
use aeo_geo_optimization.Common.Sort.{sort}
use aeo_geo_optimization.Domain.{CustomerLanguage}

module _ (locale_compare : String → String → Ordering) where
  -- Heavier first, then by code.
  abbrev pub by_weight : CustomerLanguage → CustomerLanguage → Ordering
  by_weight a b =
      if b.weight == a.weight
      then locale_compare a.language b.language
      else compare b.weight a.weight

  abbrev pub sort_by_weight : List CustomerLanguage → List CustomerLanguage
  sort_by_weight languages = sort by_weight languages

  unfoldable pub select_languages : List CustomerLanguage → ℕ → List String
  select_languages languages max_languages =
      let sorted = sort_by_weight languages in
      let selected = take max_languages sorted in map (λ l. l.language) selected

-- The weight 1.0, in thousandths.
abbrev pub priority_threshold : ℕ
priority_threshold = 1000

-- What `selectBaselineLanguages` does with the sorted languages.
unfoldable pub baseline_of_sorted : List CustomerLanguage → ℕ → List String
baseline_of_sorted [] max_languages = []
baseline_of_sorted (first ∷ rest) max_languages =
    let sorted : List CustomerLanguage = first ∷ rest in
    let max_weight : ℕ = first.weight in
    let min_weight : ℕ = (last_or first rest).weight in
    let priority = keep (λ (l : CustomerLanguage). leb priority_threshold l.weight) sorted in
    if max_weight == min_weight
    then map (λ l. l.language) (take (max max_languages 1) sorted)
    else (if length priority == 0 then first.language ∷ [] else map (λ l. l.language) priority)

pub record WeightedLanguageSelection : Type 0 where
  pub selected : List String
  pub trimmed_count : ℕ

module _ (locale_compare : String → String → Ordering) where
  unfoldable pub select_baseline_languages : List CustomerLanguage → ℕ → List String
  unfolding baseline_of_sorted
  select_baseline_languages languages max_languages =
      if length languages == 0
      then []
      else baseline_of_sorted (sort_by_weight locale_compare languages) max_languages

  -- `Math.max(0, a - b)` is the subtraction of ℕ.
  unfoldable pub select_languages_with_meta :
      List CustomerLanguage → ℕ → Bool → WeightedLanguageSelection
  unfolding select_languages select_baseline_languages
  select_languages_with_meta languages max_languages is_baseline =
      let selected =
        if is_baseline
        then select_baseline_languages languages max_languages
        else select_languages locale_compare languages max_languages in
      record { selected = selected; trimmed_count = length languages - length selected }
