-- ===== src/Pipeline/Loop/Rows.antt =====
-- The rows of the units that the loop has come to: src/pipeline/runCycle.ts.
use aeo_geo_optimization.Common.{
  ◌≡◌, refl, Bool, true, false, Option, none, some, List, [], ◌∷◌, any, Bool-cases, inl, inr, arith,
}
use aeo_geo_optimization.Domain.{WorkUnitStatus}
use aeo_geo_optimization.Pipeline.Store.{
  Db, UnitKey, WorkUnitRow, same_unit, find_unit, update_unit, not_pending,
}
use aeo_geo_optimization.Pipeline.Response.Settled.{is_settled, settled_row, HasUnit}
use aeo_geo_optimization.Pipeline.Loop.{RunCycleDeps, payload_of}
use aeo_geo_optimization.Pipeline.Loop.Writes.{LoopKept}

-- The row that was found is done, skipped or error.
abbrev pub ended_row : Option WorkUnitRow → Bool
ended_row none = false
ended_row (some u) = not_pending u.status

abbrev pub IsOver : UnitKey → List WorkUnitRow → Type 0
IsOver k units = ended_row (find_unit k units) ≡ true

-- The unit's row is done, skipped or error.
abbrev pub Over : UnitKey → Db → Type 0
Over k db = IsOver k db.units

is_settled-not_pending : (s : WorkUnitStatus) → is_settled s ≡ true → not_pending s ≡ true
is_settled-not_pending s h = ground arith

pub settled_row-ended_row :
    (found : Option WorkUnitRow) → settled_row found ≡ true → ended_row found ≡ true
settled_row-ended_row none h = h
settled_row-ended_row (some u) h = is_settled-not_pending u.status h

pub update_unit-IsOver :
    (k j : UnitKey) (f : WorkUnitRow → WorkUnitRow) (units : List WorkUnitRow)
    → ((u : WorkUnitRow) → (f u).key ≡ u.key)
    → ((u : WorkUnitRow) → not_pending (f u).status ≡ true)
    → IsOver k units
    → IsOver k (update_unit j f units)
unfolding find_unit
update_unit-IsOver k j f [] same over h = h
update_unit-IsOver k j f (u ∷ units) same over h = elim (Bool-cases (same_unit u.key j)) [
  | inl hit ↦ elim (Bool-cases (same_unit u.key k)) [
    | inl own ↦ simp (hit, same u, own, over u) refl
    | inr other ↦
        simp (hit, same u, other) (update_unit-IsOver k j f units same over (rw other at h))
  ]
  | inr miss ↦ elim (Bool-cases (same_unit u.key k)) [
    | inl own ↦ rw (miss, own) (rw own at h)
    | inr other ↦ rw (miss, other) (update_unit-IsOver k j f units same over (rw other at h))
  ]
]

-- An update leaves each unit its row.
update_unit-any :
    (k j : UnitKey) (f : WorkUnitRow → WorkUnitRow) (units : List WorkUnitRow)
    → ((u : WorkUnitRow) → (f u).key ≡ u.key)
    → any (λ (u : WorkUnitRow). same_unit u.key k) (update_unit j f units)
      ≡ any (λ (u : WorkUnitRow). same_unit u.key k) units
update_unit-any k j f [] same = refl
update_unit-any k j f (u ∷ units) same = elim (Bool-cases (same_unit u.key j)) [
  | inl hit ↦ rw (hit, same u, update_unit-any k j f units same) refl
  | inr miss ↦ rw (miss, update_unit-any k j f units same) refl
]

-- A condition on the units that each update of the loop keeps.
units_kept :
    {Report : Type 0} (d : RunCycleDeps Report) (Q : List WorkUnitRow → Type 0)
    → ((us : List WorkUnitRow) (k : UnitKey) (f : WorkUnitRow → WorkUnitRow)
        → ((u : WorkUnitRow) → (f u).key ≡ u.key)
        → ((u : WorkUnitRow) → not_pending (f u).status ≡ true)
        → Q us
        → Q (update_unit k f us))
    → LoopKept d (λ _. Unit {0}) (λ db. Q db.units)
units_kept d Q closed = record {
  response = λ adapter run_id wu. record {
    faults = λ db fs g. g;
    units = λ db f same over g. closed db.units (payload_of d run_id wu).key f same over g;
    raws = λ ok db r n g. g;
    calls = λ ok db c g. g;
    judgments = λ ok db s raw_id g. g;
    requests = λ ok db req g. g;
    cache = λ ok e db es g. g;
    seen = λ ok e db ss g. g;
  };
  no_prior = tt;
  prior = λ find hash run_id db e h. tt;
  faults = λ db fs g. g;
  units = λ db k f same over g. closed db.units k f same over g;
  raws = λ db r n g. g;
  calls = λ db c g. g;
  carried = λ db k j raw_id good g. g;
  seen = λ db ss g. g;
}

module _ {Report : Type 0} (d : RunCycleDeps Report) where
  pub Over-LoopKept : (k : UnitKey) → LoopKept d (λ _. Unit {0}) (Over k)
  Over-LoopKept k =
      units_kept d (IsOver k) (λ us j f same over h. update_unit-IsOver k j f us same over h)

  pub has-LoopKept : (k : UnitKey) → LoopKept d (λ _. Unit {0}) (HasUnit k)
  has-LoopKept k =
      units_kept d (λ us. any (λ (u : WorkUnitRow). same_unit u.key k) us ≡ true)
        (λ us j f same over h. rw (update_unit-any k j f us same) h)

-- An update of the unit's own row ends it.
pub update_unit-own :
    (k : UnitKey) (f : WorkUnitRow → WorkUnitRow) (units : List WorkUnitRow)
    → ((u : WorkUnitRow) → (f u).key ≡ u.key)
    → ((u : WorkUnitRow) → not_pending (f u).status ≡ true)
    → any (λ (u : WorkUnitRow). same_unit u.key k) units ≡ true
    → IsOver k (update_unit k f units)
unfolding find_unit
update_unit-own k f [] same over h = ground arith
update_unit-own k f (u ∷ units) same over h = elim (Bool-cases (same_unit u.key k)) [
  | inl own ↦ simp (own, same u, over u) refl
  | inr other ↦ rw (other, other) (update_unit-own k f units same over (rw other at h))
]
