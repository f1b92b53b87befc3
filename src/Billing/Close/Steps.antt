-- ===== src/Billing/Close/Steps.antt =====
-- Rules for what holds after the queries of a close, run in sequence, whichever of them fail:
-- src/billing/close.ts.
use aeo_geo_optimization.Common.{Bool, Option, none, some, List, Bool-cases, inl, inr}
use aeo_geo_optimization.Billing.Close.{Books, Step, and_then, next_fault, ◌>>=◌, ◌>>◌, query}

-- What holds before, and then of the result and the books after.
abbrev pub Runs {ℓ κ μ} :
    {A : Type ℓ} → (Books → Type κ) → Step A → (Option A → Books → Type μ) → Type (κ ⊔ μ)
Runs P m Q = (books : Books) → P books → Q (m books).0 (m books).1

abbrev pub Keeps {ℓ κ} : {A : Type ℓ} → (Books → Type κ) → Step A → Type κ
Keeps P m = Runs P m (λ _ books. P books)

abbrev pub AnyFaults {κ} : (Books → Type κ) → Type κ
AnyFaults P = (books : Books) (fs : List Bool) → P books → P (record books { faults = fs })

pub query-Runs {ℓ κ μ} :
    {A : Type ℓ} (P : Books → Type κ) (Q : Option A → Books → Type μ) (run : Books → A × Books)
    → AnyFaults P
    → ((books : Books) → P books → Q none books)
    → ((books : Books) → P books → Q (some (run books).0) (run books).1)
    → Runs P (query run) Q
unfolding query
query-Runs P Q run any_faults fails works books p =
    let rest = record books { faults = (next_fault books.faults).1 } in
    let h = any_faults books (next_fault books.faults).1 p in
    elim (Bool-cases (next_fault books.faults).0) [
      | inl bad ↦ rw bad (fails rest h)
      | inr good ↦ rw good (works rest h)
    ]

and_then-Runs {ℓ ι κ μ} :
    {A : Type ℓ} {B : Type ι} (R : Option A → Books → Type κ) (Q : Option B → Books → Type μ)
    (f : A → Step B) (ran : Option A × Books)
    → ((a : A) → Runs (R (some a)) (f a) Q)
    → ((books : Books) → R none books → Q none books)
    → R ran.0 ran.1
    → Q (and_then f ran).0 (and_then f ran).1
and_then-Runs R Q f (some a, books) ok bad r = ok a books r
and_then-Runs R Q f (none, books) ok bad r = bad books r

pub bind-Runs {ℓ ι κ ν μ} :
    {A : Type ℓ} {B : Type ι} (P : Books → Type ν) (R : Option A → Books → Type κ)
    (Q : Option B → Books → Type μ) (m : Step A) (f : A → Step B)
    → Runs P m R
    → ((a : A) → Runs (R (some a)) (f a) Q)
    → ((books : Books) → R none books → Q none books)
    → Runs P (m >>= f) Q
unfolding ◌>>=◌
bind-Runs P R Q m f first ok bad books p = and_then-Runs R Q f (m books) ok bad (first books p)

pub bind-Keeps {ℓ ι κ} :
    {A : Type ℓ} {B : Type ι} (P : Books → Type κ) (m : Step A) (f : A → Step B)
    → Keeps P m
    → ((a : A) → Keeps P (f a))
    → Keeps P (m >>= f)
bind-Keeps P m f first ok =
    bind-Runs P (λ _ books. P books) (λ _ books. P books) m f first ok (λ books h. h)

pub next-Keeps {ℓ κ} :
    {B : Type ℓ} (P : Books → Type κ) (m : Step (Unit {0})) (k : Step B)
    → Keeps P m
    → Keeps P k
    → Keeps P (m >> k)
unfolding ◌>>◌
next-Keeps P m k first ok = bind-Keeps P m (λ _. k) first (λ _. ok)

pub query-Keeps {ℓ κ} :
    {A : Type ℓ} (P : Books → Type κ) (run : Books → A × Books)
    → AnyFaults P
    → ((books : Books) → P books → P (run books).1)
    → Keeps P (query run)
query-Keeps P run any_faults works =
    query-Runs P (λ _ books. P books) run any_faults (λ books p. p) works
