-- ===== src/Content/Multilingual/Spending.antt =====
-- What a run of generations spends: src/content/multilingualContent.ts.
use aeo_geo_optimization.Common.{
  ℕ, ◌+◌, ◌≤◌, ◌≡◌, refl, String, Bool, true, false, Option, none, some, List, [], ◌∷◌, ltb,
  Bool-cases, inl, inr, arith,
}
use aeo_geo_optimization.Common.Int.{ℤ, pos, negsuc, pos_part}
use aeo_geo_optimization.Cost.Qgen.{QgenRunBudget, record_usage, is_within_ceiling}
use aeo_geo_optimization.Content.Multilingual.{
  ContentCell, LedgerCall, LangResult, GenOptions, GenRun, Turn, goes_on, breaks, throws,
  on_recorded, on_result, on_language, proceed, generate_languages, generate_multilingual_content,
  group_cells_by_language,
}

-- The sum of what was spent before and the costs that the ledger was asked to store; none where one of
-- them is negative.
abbrev pub add_usd : ℤ → Option ℕ → Option ℕ
add_usd (pos usd) (some total) = some (total + usd)
add_usd (pos usd) none = none
add_usd (negsuc usd) total = none

abbrev pub total_usd : ℕ → List LedgerCall → Option ℕ
total_usd before [] = some before
total_usd before (c ∷ calls) = add_usd c.usd (total_usd before calls)

abbrev pub IsNegative : ℤ → Type 0
IsNegative (pos n) = ⊥
IsNegative (negsuc n) = Unit

-- The last call, and the first of the list, is of a negative cost, and the others add up to the total.
abbrev pub Refused : ℕ → ℕ → List LedgerCall → Type 0
Refused before total [] = ⊥
Refused before total (c ∷ calls) = IsNegative c.usd × (total_usd before calls ≡ some total)

-- What the ledger was asked to store, where the run returns and where an exception ends it.
abbrev pub Accounted : ℕ → Bool → GenRun → Type 0
Accounted before true run = total_usd before run.ledger ≡ some run.budget.accumulated_usd
Accounted before false run = Refused before run.budget.accumulated_usd run.ledger

-- No generation costs more than m.
abbrev pub AtMost : ℕ → Option LangResult → Type 0
AtMost m none = Unit
AtMost m (some result) = pos_part result.usd ≤ m

module _ (opts : GenOptions) (start ceiling m : ℕ) where
  abbrev Spent : Bool → GenRun → Type 0
  Spent returned run =
      Accounted start returned run
      × (run.budget.accumulated_usd ≤ ceiling + m)
      × (run.budget.ceiling_usd ≡ ceiling)

  abbrev TurnSpent : Turn → Type 0
  TurnSpent (goes_on run) = Spent true run
  TurnSpent (breaks run) = Spent true run
  TurnSpent (throws run) = Spent false run

  -- The call is asked of the ledger before its usage is recorded.
  recorded-Spent :
      (language model_id : String) (result : LangResult) (run : GenRun) (usd : ℤ)
      → pos_part usd ≤ m
      → Spent true run
      → run.budget.accumulated_usd ≤ ceiling
      → TurnSpent (
          on_recorded opts language result
            (record run { ledger = (record { model_id = model_id; usd = usd }) ∷ run.ledger })
            (record_usage usd run.budget))
  unfolding record_usage
  recorded-Spent language model_id result run (negsuc n) most (old, bound, same) within =
      ((tt, old), bound, same)
  recorded-Spent language model_id result run (pos k) most (old, bound, same) within =
      elim (Bool-cases (ltb run.budget.ceiling_usd (run.budget.accumulated_usd + k))) [
        | inl over ↦ rw over (rw old refl, omega arith, same)
        | inr under ↦ rw under (rw old refl, omega arith, same)
      ]

  on_result-Spent :
      (language : String) (run : GenRun) (result : Option LangResult)
      → AtMost m result
      → run.budget.accumulated_usd ≤ run.budget.ceiling_usd
      → Spent true run
      → TurnSpent (on_result opts language run result)
  unfolding on_result
  on_result-Spent language run none most within h = h
  on_result-Spent language run (some result) most within (old, bound, same) =
      recorded-Spent language _ result run result.usd most (old, bound, same) (omega arith)

  on_language-Spent :
      (language : String) (cells : List ContentCell) (run : GenRun)
      → AtMost m (opts.generate language cells)
      → Spent true run
      → TurnSpent (on_language opts language cells run)
  unfolding on_language
  on_language-Spent language cells run most h = elim (Bool-cases (is_within_ceiling run.budget)) [
    | inl within ↦ rw within (on_result-Spent language run _ most (ground arith) h)
    | inr over ↦ rw over h
  ]

  proceed-Spent :
      (rest : GenRun → Bool × GenRun) (turn : Turn)
      → ((run : GenRun) → Spent true run → Spent (rest run).0 (rest run).1)
      → TurnSpent turn
      → Spent (proceed rest turn).0 (proceed rest turn).1
  proceed-Spent rest (goes_on run) ok h = ok run h
  proceed-Spent rest (breaks run) ok h = h
  proceed-Spent rest (throws run) ok h = h

  generate_languages-Spent :
      (groups : List (String × List ContentCell)) (run : GenRun)
      → ((language : String) (cells : List ContentCell) → AtMost m (opts.generate language cells))
      → Spent true run
      → Spent (generate_languages opts groups run).0 (generate_languages opts groups run).1
  unfolding generate_languages
  generate_languages-Spent [] run most h = h
  generate_languages-Spent ((language, cells) ∷ groups) run most h =
      proceed-Spent (generate_languages opts groups) (on_language opts language cells run)
        (λ later g. generate_languages-Spent groups later most g)
        (on_language-Spent language cells run (most language cells) h)

-- Where no generation costs more than m and the budget starts within its ceiling, a run over any matrix
-- ends at most m above the ceiling. If it returns, no cost that the ledger was asked to store is negative,
-- and what was spent before and these costs add up to what the budget has accumulated. If an exception ends
-- it, the cost asked last is negative, and the others add up so.
pub generate_multilingual_content-spent :
    (opts : GenOptions) (matrix : List ContentCell) (budget : QgenRunBudget) (m : ℕ)
    → ((language : String) (cells : List ContentCell) → AtMost m (opts.generate language cells))
    → budget.accumulated_usd ≤ budget.ceiling_usd
    → Accounted budget.accumulated_usd
        (generate_multilingual_content opts matrix budget).0
        (generate_multilingual_content opts matrix budget).1
      × ((generate_multilingual_content opts matrix budget).1.budget.accumulated_usd
          ≤ budget.ceiling_usd + m)
unfolding generate_multilingual_content
generate_multilingual_content-spent opts matrix budget m most within =
    let spent =
      generate_languages-Spent opts budget.accumulated_usd budget.ceiling_usd m
        (group_cells_by_language matrix)
        (record { items = []; generated_total = 0; ledger = []; budget = budget }) most
        (refl, omega arith, refl) in
    (spent.0, spent.1)
