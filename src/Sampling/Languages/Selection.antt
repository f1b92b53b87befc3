-- ===== src/Sampling/Languages/Selection.antt =====
-- What the selection of languages keeps and what it trims.
use mathlib.Core.List.{Memᴰ}
use mathlib.Core.List.Memᴰ
use native.Mathlib.Nat.{le_refl}
use aeo_geo_optimization.Common.{
  All-mem, mem-keep, le→leb, last_or, ℕ, ◌≤◌, ◌<◌, min, ◌≡◌, refl, String, false, List, [], ◌∷◌,
  map, arith, Ordering, leb, ◌==◌, take, drop, length, All, length-take, length-map,
}
use aeo_geo_optimization.Common.Sort.{mem-sort, Decides, Pairs, Pairs-sort, Pairs-take, length-sort}
use aeo_geo_optimization.Domain.{CustomerLanguage}
use aeo_geo_optimization.Sampling.Languages.{
  by_weight, sort_by_weight, select_languages, priority_threshold, baseline_of_sorted,
  select_baseline_languages,
}

abbrev pub IsHeavier : CustomerLanguage → CustomerLanguage → Type 0
IsHeavier a b = b.weight ≤ a.weight

-- In a list from the heaviest down, all lie between the first and the last.
last-lightest :
    (first : CustomerLanguage) (rest : List CustomerLanguage)
    → Pairs IsHeavier (first ∷ rest)
    → All (λ l. (last_or first rest).weight ≤ l.weight) (first ∷ rest)
last-lightest first [] _ = (omega arith, tt)
last-lightest first (next ∷ rest) ((h, _), hs) =
    let (least, later) = last-lightest next rest hs in (omega arith, (least, later))

mem-positive {ℓ} : {A : Type ℓ} {x : A} (xs : List A) → Memᴰ x xs → (length xs == 0) ≡ false
mem-positive [] m = absurd (Memᴰ.not-nil m)
mem-positive (x ∷ xs) m = ground arith

baseline_of_sorted_priority :
    (sorted : List CustomerLanguage) (n : ℕ) {a b c : CustomerLanguage}
    → Pairs IsHeavier sorted
    → Memᴰ a sorted
    → Memᴰ b sorted
    → a.weight < b.weight
    → Memᴰ c sorted
    → priority_threshold ≤ c.weight
    → Memᴰ c.language (baseline_of_sorted sorted n)
unfolding baseline_of_sorted
baseline_of_sorted_priority [] n p ma mb lt mc heavy = absurd (Memᴰ.not-nil ma)
baseline_of_sorted_priority (first ∷ rest) n {a} {b} {c} p ma mb lt mc heavy =
    let sorted : List CustomerLanguage = first ∷ rest in
    let top : b.weight ≤ first.weight =
      All-mem (λ l. l.weight ≤ first.weight) sorted (le_refl _, p.0) mb in
    let bottom =
      All-mem (λ l. (last_or first rest).weight ≤ l.weight) sorted (last-lightest first rest p)
        ma in
    let differ : (first.weight == (last_or first rest).weight) ≡ false = ground arith in
    let found =
      mem-keep (λ (l : CustomerLanguage). leb priority_threshold l.weight) sorted (le→leb _ _ heavy)
        mc in
    rw (differ, mem-positive _ found) (Memᴰ.map (λ l. l.language) found)

module _ (locale_compare : String → String → Ordering) where
  by_weight-Decides : Decides IsHeavier (by_weight locale_compare)
  by_weight-Decides = record {
    before = λ x y h. ground arith;
    after = λ x y h. ground arith;
    trans = λ x y z h k. omega arith;
  }

  -- The selection of an operating run is a prefix of the languages, each by its code, in an order
  -- in which each language that is selected weighs at least as much as each one that is trimmed;
  -- it has the cap's length, or that of the languages if they are fewer.
  pub select_languages_heaviest :
      (languages : List CustomerLanguage) (max_languages : ℕ)
      → let sorted = sort_by_weight locale_compare languages in
        (select_languages locale_compare languages max_languages
          ≡ map (λ l. l.language) (take max_languages sorted))
        × All (λ x. All (IsHeavier x) (drop max_languages sorted)) (take max_languages sorted)
        × (length (select_languages locale_compare languages max_languages)
            ≡ min max_languages (length languages))
  unfolding select_languages
  select_languages_heaviest languages max_languages = (
    refl,
    Pairs-take IsHeavier max_languages _ (Pairs-sort by_weight-Decides languages),
    omega (
      arith,
      length-map (λ (l : CustomerLanguage). l.language)
          (take max_languages (sort_by_weight locale_compare languages)),
      length-take max_languages (sort_by_weight locale_compare languages),
      length-sort (by_weight locale_compare) languages,
    ),
  )

  -- As soon as not all weights are equal, that is, one language weighs less than another, a baseline
  -- run selects the code of each language of weight 1.0 or more, whatever the cap is.
  pub baseline_priority :
      (languages : List CustomerLanguage) (max_languages : ℕ) {a b c : CustomerLanguage}
      → Memᴰ a languages
      → Memᴰ b languages
      → a.weight < b.weight
      → Memᴰ c languages
      → priority_threshold ≤ c.weight
      → Memᴰ c.language (select_baseline_languages locale_compare languages max_languages)
  unfolding select_baseline_languages
  baseline_priority languages max_languages ma mb lt mc heavy =
      let cmp = by_weight locale_compare in
      rw (mem-positive languages ma) (
        baseline_of_sorted_priority _ max_languages (Pairs-sort by_weight-Decides languages)
          (mem-sort cmp languages ma) (mem-sort cmp languages mb) lt (mem-sort cmp languages mc)
          heavy)
