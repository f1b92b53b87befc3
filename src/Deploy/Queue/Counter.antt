-- ===== src/Deploy/Queue/Counter.antt =====
-- A counter of a window, which starts again in a later window, keeps every window's total within
-- its cap. The claims of a batch count by the day and by the week in this way.
use native.Mathlib.Decide.{dec_lt}
use aeo_geo_optimization.Common.{
  ℕ, ◌+◌, ◌-◌, ◌≤◌, ◌<◌, ◌≡◌, refl, false, Option, none, some, List, [], ◌∷◌, arith, leb, ◌==◌,
  if◌then◌else◌, ◌⊎◌, inl, inr,
}

-- The window and its count.
abbrev pub Counter : Type 0
Counter = Option (ℕ × ℕ)

abbrev pub counted : Counter → ℕ → ℕ
counted none k = 0
counted (some (start, n)) k = if leb k start then n else 0

abbrev pub bump : Counter → ℕ → ℕ → Counter
bump none k n = some (k, n)
bump (some (start, m)) k n = some (k, if start == k then m + n else n)

abbrev pub advance : Counter → ℕ → ℕ → Counter
advance v k n = if n == 0 then v else bump v k n

-- Each event of `n` units in window `k` finds room for them.
abbrev pub Fits : ℕ → Counter → List (ℕ × ℕ) → Type 0
Fits most v [] = Unit
Fits most v ((k, n) ∷ es) = (n ≤ most - counted v k) × Fits most (advance v k n) es

-- Windows come in their order.
abbrev pub InOrder : ℕ → List (ℕ × ℕ) → Type 0
InOrder from [] = Unit
InOrder from ((k, n) ∷ es) = (from ≤ k) × InOrder k es

abbrev pub total_in : ℕ → List (ℕ × ℕ) → ℕ
total_in w [] = 0
total_in w ((k, n) ∷ es) = (if k == w then n else 0) + total_in w es

abbrev StartsBy : ℕ → Counter → Type 0
StartsBy k none = Unit
StartsBy k (some (start, n)) = start ≤ k

-- What the counter holds for window `w`.
abbrev held : ℕ → Counter → ℕ
held w none = 0
held w (some (start, n)) = if start == w then n else 0

passed : (w k : ℕ) (es : List (ℕ × ℕ)) → w < k → InOrder k es → total_in w es ≡ 0
passed w k [] h o = refl
passed w k ((j, n) ∷ es) h (kj, o) = ground (arith, passed w j es)

-- One event: its window is still counted exactly, or the window `w` is over.
record Advances (most w j n : ℕ) (v : Counter) : Type 0 where
  within : held w (advance v j n) ≤ most
  starts : StartsBy j (advance v j n)
  exact : (held w v + (if j == w then n else 0) ≡ held w (advance v j n)) ⊎ (w < j)

held-advance :
    (most w k j n : ℕ) (v : Counter)
    → StartsBy k v
    → k ≤ j
    → n ≤ most - counted v j
    → held w v ≤ most
    → Advances most w j n v
held-advance most w k j n none s kj room h = record {
  within = ground arith;
  starts = ground arith;
  exact = inl (ground arith);
}
held-advance most w k j n (some (start, m)) s kj room h = record {
  within = ground arith;
  starts = ground arith;
  exact = later (dec_lt w j);
}
  where
    later :
        Dec (w < j)
        → (held w (some (start, m)) + (if j == w then n else 0)
            ≡ held w (advance (some (start, m)) j n))
          ⊎ (w < j)
    later (yes over) = inr over
    later (no here) = inl (ground arith)

held-within :
    (most w k : ℕ) (v : Counter) (es : List (ℕ × ℕ))
    → StartsBy k v
    → InOrder k es
    → held w v ≤ most
    → Fits most v es
    → held w v + total_in w es ≤ most
held-within most w k v [] s o h f = omega arith
held-within most w k v ((j, n) ∷ es) s (kj, o) h (room, f) =
    let step = held-advance most w k j n v s kj room h in
    let rest = held-within most w j (advance v j n) es step.starts o step.within f in
    elim step.exact [
      | inl same ↦ omega (arith, same, rest)
      | inr over ↦
          let later = passed w j es over o in
          let apart : (j == w) ≡ false = ground arith in rw apart (omega (arith, later))
    ]

-- From an empty counter on, the events of any one window stay within the cap.
pub total_in_bounded :
    (most w : ℕ) (es : List (ℕ × ℕ)) → InOrder 0 es → Fits most none es → total_in w es ≤ most
total_in_bounded most w es o f = omega (arith, held-within most w 0 none es tt o (omega arith) f)
