-- ===== src/Pipeline/Store/Cycles.antt =====
-- The queries of a cycle on the tables of runs, cursors and jobs: src/db/repo.ts.
use aeo_geo_optimization.Common.{
  ℕ, ◌+◌, String, Bool, true, false, not, ◌&&◌, Option, none, some, List, [], ◌∷◌, map, keep, ltb,
  text_eq, if◌then◌else◌,
}
use aeo_geo_optimization.Domain.{WorkUnitStatus, RunKind, baseline, operating, DensityTier, tier_eq}
use aeo_geo_optimization.Pipeline.Store.{
  M, query, UnitKey, WorkUnitRow, RunStatus, planned, running, RunRow, CursorRow, Job, not_pending,
}

abbrev pub same_kind : RunKind → RunKind → Bool
same_kind baseline baseline = true
same_kind operating operating = true
same_kind _ _ = false

-- The id is the one that the database gives the row.
unfoldable pub create_run : (ℕ → String) → String → RunKind → ℕ → ℕ → M String
create_run uuid customer kind n_samples temperature = query λ db. (
  uuid db.next_id,
  record db {
    next_id = db.next_id + 1;
    runs =
        (record {
          id = uuid db.next_id;
          customer_id = customer;
          kind = kind;
          status = planned;
          n_samples = n_samples;
          temperature = temperature;
          n_total = none;
          started_at = none;
          finished_at = none;
        })
        ∷ db.runs;
  },
)

abbrev pub update_run : String → (RunRow → RunRow) → List RunRow → List RunRow
update_run id f runs = map (λ (r : RunRow). if text_eq r.id id then f r else r) runs

abbrev pub with_n_total : ℕ → RunRow → RunRow
with_n_total n r = record r { n_total = some n }

abbrev pub to_running : ℕ → RunRow → RunRow
to_running now r = record r { status = running; started_at = some now }

abbrev pub to_finished : RunStatus → ℕ → RunRow → RunRow
to_finished status now r = record r { status = status; finished_at = some now }

unfoldable pub snapshot_n_total : String → ℕ → M (Unit {0})
snapshot_n_total id n =
    query λ db. (tt, record db { runs = update_run id (with_n_total n) db.runs })

unfoldable pub start_run : String → M (Unit {0})
start_run id = query λ db. (tt, record db { runs = update_run id (to_running db.clock) db.runs })

unfoldable pub finish_run : String → RunStatus → M (Unit {0})
finish_run id status =
    query λ db. (tt, record db { runs = update_run id (to_finished status db.clock) db.runs })

pub record Resumable : Type 0 where
  pub id : String
  pub n_total : ℕ

-- 2 hours.
abbrev pub stale_ms : ℕ
stale_ms = 7_200_000

abbrev pub is_running : RunStatus → Bool
is_running running = true
is_running _ = false

abbrev pub is_pending : WorkUnitStatus → Bool
is_pending s = not (not_pending s)

abbrev pub positive_total : Option ℕ → Bool
positive_total none = false
positive_total (some n) = ltb 0 n

-- `started_at < cutoff`, false where it is null.
abbrev pub is_stale : ℕ → Option ℕ → Bool
is_stale now none = false
is_stale now (some t) = ltb (t + stale_ms) now

abbrev pub pending_of : String → List WorkUnitRow → List WorkUnitRow
pending_of id units =
    keep (λ (u : WorkUnitRow). text_eq u.key.run_id id && is_pending u.status) units

abbrev pub has_any {ℓ} : {A : Type ℓ} → List A → Bool
has_any [] = false
has_any (x ∷ xs) = true

abbrev pub can_resume : String → RunKind → ℕ → List WorkUnitRow → RunRow → Bool
can_resume customer kind now units r =
    text_eq r.customer_id customer
    && same_kind r.kind kind
    && is_running r.status
    && positive_total r.n_total
    && is_stale now r.started_at
    && has_any (pending_of r.id units)

-- `ORDER BY started_at DESC LIMIT 1`
abbrev pub later_start : Option ℕ → Option ℕ → Bool
later_start (some a) (some b) = ltb b a
later_start _ _ = false

abbrev pub newest : RunRow → List RunRow → RunRow
newest r [] = r
newest r (s ∷ runs) = newest (if later_start s.started_at r.started_at then s else r) runs

abbrev pub newest_of : List RunRow → Option RunRow
newest_of [] = none
newest_of (r ∷ runs) = some (newest r runs)

abbrev pub as_resumable : RunRow → Option ℕ → Option Resumable
as_resumable r none = none
as_resumable r (some n) = some (record { id = r.id; n_total = n })

abbrev pub resumable_of : Option RunRow → Option Resumable
resumable_of none = none
resumable_of (some r) = as_resumable r r.n_total

unfoldable pub find_resumable_run : String → RunKind → M (Option Resumable)
find_resumable_run customer kind =
    query λ db.
      (resumable_of (newest_of (keep (can_resume customer kind db.clock db.units) db.runs)), db)

unfoldable pub find_pending_work_unit_keys : String → M (List UnitKey)
find_pending_work_unit_keys id =
    query λ db. (map (λ (u : WorkUnitRow). u.key) (pending_of id db.units), db)

-- The cursor of a customer and tier, 0 if there is none.
abbrev pub find_cursor : String → DensityTier → List CursorRow → ℕ
find_cursor customer tier [] = 0
find_cursor customer tier (c ∷ cursors) =
    let rest = find_cursor customer tier cursors in
    if text_eq c.customer_id customer && tier_eq c.density_tier tier
    then c.last_cycle_index
    else rest

unfoldable pub read_rotation_state : String → DensityTier → M ℕ
read_rotation_state customer tier = query λ db. (find_cursor customer tier db.cursors, db)

-- The upsert of a cursor.
abbrev pub set_cursor : String → DensityTier → ℕ → List CursorRow → List CursorRow
set_cursor customer tier n [] =
    (record { customer_id = customer; density_tier = tier; last_cycle_index = n }) ∷ []
set_cursor customer tier n (c ∷ cursors) =
    let rest = set_cursor customer tier n cursors in
    if text_eq c.customer_id customer && tier_eq c.density_tier tier
    then record c { last_cycle_index = n } ∷ cursors
    else c ∷ rest

unfoldable pub advance_rotation_state : String → DensityTier → ℕ → M (Unit {0})
advance_rotation_state customer tier n =
    query λ db. (tt, record db { cursors = set_cursor customer tier n db.cursors })

unfoldable pub enqueue : Job → M (Unit {0})
enqueue job = query λ db. (tt, record db { jobs = job ∷ db.jobs })
