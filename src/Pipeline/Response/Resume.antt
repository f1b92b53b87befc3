-- ===== src/Pipeline/Response/Resume.antt =====
-- A unit that is run again: src/pipeline/runResponse.ts.
use aeo_geo_optimization.Common.{◌≡◌, refl, true, false, []}
use aeo_geo_optimization.Cost.Budget.{CapCheck, within, budget_exceeded, cost_data_missing}
use aeo_geo_optimization.Pipeline.Store.{
  Payload, Db, returned, threw, over_cap, query, ◌>>=◌, ◌>>◌, find_unit, find_work_unit,
  update_unit, to_status, mark_work_unit_error,
}
use aeo_geo_optimization.Domain.{WorkUnitStatus}
use aeo_geo_optimization.Pipeline.Response.{
  RunResponseDeps, cap_check, is_done, guarded, unless_done, run_response,
}

-- What the guard throws where it lets no call through.
abbrev pub Blocked : CapCheck → Type 0
Blocked within = ⊥
Blocked (budget_exceeded type) = Unit
Blocked (cost_data_missing customer) = Unit

-- A unit that is done is left alone: it returns at once and no table changes, whatever the budget says,
-- when no query fails.
pub run_response-is_done :
    (p : Payload) (d : RunResponseDeps) (db : Db)
    → is_done (find_unit p.key db.units) ≡ true
    → run_response p d (record db { faults = [] }) ≡ (returned tt, record db { faults = [] })
unfolding run_response find_work_unit unless_done query ◌>>=◌
run_response-is_done p d db finished = rw finished refl

guarded-Blocked :
    (p : Payload) (d : RunResponseDeps) (db : Db) (check : CapCheck)
    → Blocked check
    → guarded p d check (record db { faults = [] }) ≡ (
      threw (over_cap check),
      record db {
        faults = [];
        units = update_unit p.key (to_status WorkUnitStatus.error) db.units;
      },
    )
unfolding guarded mark_work_unit_error query ◌>>=◌ ◌>>◌
guarded-Blocked p d db within blocked = elim blocked [ ]
guarded-Blocked p d db (budget_exceeded type) blocked = refl
guarded-Blocked p d db (cost_data_missing customer) blocked = refl

-- A unit that is not done and that the budget guard blocks is marked error and throws what the guard
-- says, and nothing else changes, when no query fails.
pub run_response-Blocked :
    (p : Payload) (d : RunResponseDeps) (db : Db)
    → is_done (find_unit p.key db.units) ≡ false
    → Blocked (cap_check p d)
    → run_response p d (record db { faults = [] }) ≡ (
      threw (over_cap (cap_check p d)),
      record db {
        faults = [];
        units = update_unit p.key (to_status WorkUnitStatus.error) db.units;
      },
    )
unfolding run_response find_work_unit unless_done query ◌>>=◌
run_response-Blocked p d db open_unit blocked =
    rw open_unit (guarded-Blocked p d db (cap_check p d) blocked)
