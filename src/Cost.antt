-- ===== src/Cost.antt =====
-- What a run may spend: src/cost.
pub mod Budget
pub mod Qgen
mod Tests
