-- ===== src/Pipeline/Store/Runs.antt =====
-- Rules for what holds after the queries of src/db/repo.ts, run in sequence, whichever of them fail.
use aeo_geo_optimization.Common.{
  ◌≡◌, refl, Bool, true, false, List, [], arith, Bool-cases, inl, inr,
}
use aeo_geo_optimization.Pipeline.Store.{
  Failure, query_failed, no_executor, over_cap, retryable_job, Db, Result, returned, threw, M,
  and_then, ◌>>=◌, ◌>>◌, query, fault, other_faults,
}

-- What holds before, and then of the result and the tables after.
abbrev pub Runs {ℓ κ μ} :
    {A : Type ℓ} → (Db → Type κ) → M A → (Result A → Db → Type μ) → Type (κ ⊔ μ)
Runs P m Q = (db : Db) → P db → Q (m db).0 (m db).1

-- A condition on the tables that is kept.
abbrev pub Keeps {ℓ κ} : {A : Type ℓ} → (Db → Type κ) → M A → Type κ
Keeps P m = Runs P m (λ _ db. P db)

-- A condition that does not depend on which queries fail.
abbrev pub AnyFaults {κ} : (Db → Type κ) → Type κ
AnyFaults P = (db : Db) (fs : List Bool) → P db → P (record db { faults = fs })

and_then-Runs {ℓ ι κ μ} :
    {A : Type ℓ} {B : Type ι} (R : Result A → Db → Type κ) (Q : Result B → Db → Type μ)
    (f : A → M B) (ran : Result A × Db)
    → ((a : A) → Runs (R (returned a)) (f a) Q)
    → ((e : Failure) (db : Db) → R (threw e) db → Q (threw e) db)
    → R ran.0 ran.1
    → Q (and_then f ran).0 (and_then f ran).1
and_then-Runs R Q f (returned a, db) ok bad r = ok a db r
and_then-Runs R Q f (threw e, db) ok bad r = bad e db r

pub bind-Runs {ℓ ι κ ν μ} :
    {A : Type ℓ} {B : Type ι} (P : Db → Type ν) (R : Result A → Db → Type κ)
    (Q : Result B → Db → Type μ) (m : M A) (f : A → M B)
    → Runs P m R
    → ((a : A) → Runs (R (returned a)) (f a) Q)
    → ((e : Failure) (db : Db) → R (threw e) db → Q (threw e) db)
    → Runs P (m >>= f) Q
unfolding ◌>>=◌
bind-Runs P R Q m f first ok bad db p = and_then-Runs R Q f (m db) ok bad (first db p)

pub next-Runs {ℓ κ ν μ} :
    {B : Type ℓ} (P : Db → Type ν) (R : Result (Unit {0}) → Db → Type κ)
    (Q : Result B → Db → Type μ) (m : M (Unit {0})) (k : M B)
    → Runs P m R
    → Runs (R (returned tt)) k Q
    → ((e : Failure) (db : Db) → R (threw e) db → Q (threw e) db)
    → Runs P (m >> k) Q
unfolding ◌>>◌
next-Runs P R Q m k first ok bad = bind-Runs P R Q m (λ _. k) first (λ _. ok) bad

pub bind-Keeps {ℓ ι κ} :
    {A : Type ℓ} {B : Type ι} (P : Db → Type κ) (m : M A) (f : A → M B)
    → Keeps P m
    → ((a : A) → Keeps P (f a))
    → Keeps P (m >>= f)
bind-Keeps P m f first ok = bind-Runs P (λ _ db. P db) (λ _ db. P db) m f first ok (λ e db h. h)

pub next-Keeps {ℓ κ} :
    {B : Type ℓ} (P : Db → Type κ) (m : M (Unit {0})) (k : M B)
    → Keeps P m
    → Keeps P k
    → Keeps P (m >> k)
unfolding ◌>>◌
next-Keeps P m k first ok = bind-Keeps P m (λ _. k) first (λ _. ok)

-- One query: it fails and the tables stay, or it runs.
pub query-Runs {ℓ κ μ} :
    {A : Type ℓ} (P : Db → Type κ) (Q : Result A → Db → Type μ) (run : Db → A × Db)
    → AnyFaults P
    → ((db : Db) → P db → Q (threw query_failed) db)
    → ((db : Db) → P db → Q (returned (run db).0) (run db).1)
    → Runs P (query run) Q
unfolding query
query-Runs P Q run any_faults bad ok db p =
    let later = record db { faults = other_faults db.faults } in
    let h = any_faults db (other_faults db.faults) p in
    elim (Bool-cases (fault db.faults)) [
      | inl fails ↦ rw fails (bad later h)
      | inr works ↦ rw works (ok later h)
    ]

pub query-Keeps {ℓ κ} :
    {A : Type ℓ} (P : Db → Type κ) (run : Db → A × Db)
    → AnyFaults P
    → ((db : Db) → P db → P (run db).1)
    → Keeps P (query run)
query-Keeps P run any_faults ok = query-Runs P (λ _ db. P db) run any_faults (λ db p. p) ok

-- What holds of a result and the tables, and of the tables after an exception of the code's own:
-- nothing is said once a query has failed.
abbrev pub Outcome {ℓ κ} : {A : Type ℓ} → (A → Db → Type κ) → (Db → Type κ) → Result A → Db → Type κ
Outcome X P (returned a) db = X a db
Outcome X P (threw query_failed) db = Unit
Outcome X P (threw no_executor) db = P db
Outcome X P (threw (over_cap check)) db = P db
Outcome X P (threw (retryable_job code)) db = P db

threw-Outcome {ℓ ι κ} :
    {A : Type ℓ} {B : Type ι} (X : A → Db → Type κ) (Y : B → Db → Type κ) (P : Db → Type κ)
    (e : Failure) (db : Db)
    → Outcome X P (threw e) db
    → Outcome Y P (threw e) db
threw-Outcome X Y P query_failed db h = h
threw-Outcome X Y P no_executor db h = h
threw-Outcome X Y P (over_cap check) db h = h
threw-Outcome X Y P (retryable_job code) db h = h

pub bind-Outcome {ℓ ι κ ν} :
    {A : Type ℓ} {B : Type ι} (P : Db → Type ν) (X : A → Db → Type κ) (Y : B → Db → Type κ)
    (Q : Db → Type κ) (m : M A) (f : A → M B)
    → Runs P m (Outcome X Q)
    → ((a : A) → Runs (X a) (f a) (Outcome Y Q))
    → Runs P (m >>= f) (Outcome Y Q)
bind-Outcome P X Y Q m f first ok =
    bind-Runs P (Outcome X Q) (Outcome Y Q) m f first ok (threw-Outcome X Y Q)

pub next-Outcome {ι κ ν} :
    {B : Type ι} (P : Db → Type ν) (X : Db → Type κ) (Y : B → Db → Type κ) (Q : Db → Type κ)
    (m : M (Unit {0})) (k : M B)
    → Runs P m (Outcome (λ _. X) Q)
    → Runs X k (Outcome Y Q)
    → Runs P (m >> k) (Outcome Y Q)
unfolding ◌>>◌
next-Outcome P X Y Q m k first ok = bind-Outcome P (λ _. X) Y Q m (λ _. k) first (λ _. ok)

pub query-Outcome {ℓ κ ν} :
    {A : Type ℓ} (P : Db → Type ν) (X : A → Db → Type κ) (Q : Db → Type κ) (run : Db → A × Db)
    → AnyFaults P
    → ((db : Db) → P db → X (run db).0 (run db).1)
    → Runs P (query run) (Outcome X Q)
query-Outcome P X Q run any_faults ok = query-Runs P (Outcome X Q) run any_faults (λ db p. tt) ok

-- Without failing queries an operation returns or throws an exception of the code's own.
abbrev pub own_failure : Failure → Bool
own_failure query_failed = false
own_failure no_executor = true
own_failure (over_cap check) = true
own_failure (retryable_job code) = true

abbrev pub own_result {ℓ} : {A : Type ℓ} → Result A → Bool
own_result (returned a) = true
own_result (threw e) = own_failure e

abbrev pub NoFaults : Db → Type 0
NoFaults db = db.faults ≡ []

abbrev pub OwnResult {ℓ} : {A : Type ℓ} → Result A → Db → Type 0
OwnResult r db = (own_result r ≡ true) × NoFaults db

abbrev pub Resolves {ℓ} : {A : Type ℓ} → M A → Type 0
Resolves m = Runs NoFaults m OwnResult

pub bind-Resolves {ℓ ι} :
    {A : Type ℓ} {B : Type ι} (m : M A) (f : A → M B)
    → Resolves m
    → ((a : A) → Resolves (f a))
    → Resolves (m >>= f)
bind-Resolves m f first ok =
    bind-Runs NoFaults OwnResult OwnResult m f first (λ a db h. ok a db h.1) (λ e db h. h)

pub next-Resolves {ι} :
    {B : Type ι} (m : M (Unit {0})) (k : M B) → Resolves m → Resolves k → Resolves (m >> k)
unfolding ◌>>◌
next-Resolves m k first ok = bind-Resolves m (λ _. k) first (λ _. ok)

pub query-Resolves {ℓ} :
    {A : Type ℓ} (run : Db → A × Db)
    → ((db : Db) → (run db).1.faults ≡ db.faults)
    → Resolves (query run)
unfolding query
query-Resolves run same db none_fails =
    rw (none_fails, same (record db { faults = [] })) (refl, refl)

-- What an outcome says when no query failed.
pub own_result-Outcome {ℓ κ} :
    {A : Type ℓ} (P : Db → Type κ) (r : Result A) (db : Db)
    → own_result r ≡ true
    → Outcome (λ _. P) P r db
    → P db
own_result-Outcome P (returned a) db own h = h
own_result-Outcome P (threw query_failed) db own h = ground arith
own_result-Outcome P (threw no_executor) db own h = h
own_result-Outcome P (threw (over_cap check)) db own h = h
own_result-Outcome P (threw (retryable_job code)) db own h = h

-- What an operation that resolves and has the outcome leaves, whatever its result.
pub settle-Runs {ℓ κ ν} :
    {A : Type ℓ} (P : Db → Type ν) (Q : Db → Type κ) (m : M A)
    → Resolves m
    → Runs P m (Outcome (λ _. Q) Q)
    → Runs (λ db. NoFaults db × P db) m (λ _ db. Q db)
settle-Runs P Q m resolves outcome db (clean, p) =
    own_result-Outcome Q (m db).0 (m db).1 (resolves db clean).0 (outcome db p)

abbrev pub is_returned {ℓ} : {A : Type ℓ} → Result A → Bool
is_returned (returned a) = true
is_returned (threw e) = false

-- Without failing queries the operation returns.
abbrev pub Returned {ℓ} : {A : Type ℓ} → Result A → Db → Type 0
Returned r db = (is_returned r ≡ true) × NoFaults db

abbrev pub Returns {ℓ} : {A : Type ℓ} → M A → Type 0
Returns m = Runs NoFaults m Returned

pub bind-Returns {ℓ ι} :
    {A : Type ℓ} {B : Type ι} (m : M A) (f : A → M B)
    → Returns m
    → ((a : A) → Returns (f a))
    → Returns (m >>= f)
bind-Returns m f first ok =
    bind-Runs NoFaults Returned Returned m f first (λ a db h. ok a db h.1) (λ e db h. h)

pub next-Returns {ι} :
    {B : Type ι} (m : M (Unit {0})) (k : M B) → Returns m → Returns k → Returns (m >> k)
unfolding ◌>>◌
next-Returns m k first ok = bind-Returns m (λ _. k) first (λ _. ok)

pub query-Returns {ℓ} :
    {A : Type ℓ} (run : Db → A × Db)
    → ((db : Db) → (run db).1.faults ≡ db.faults)
    → Returns (query run)
unfolding query
query-Returns run same db none_fails =
    rw (none_fails, same (record db { faults = [] })) (refl, refl)
