-- ===== src/Pipeline.antt =====
-- How a cycle's units of work are answered, judged and stored: src/pipeline, with the queries of
-- src/db/repo.ts and the ledger and cache of src/cost that it stands on.
pub mod Store
mod Tests
pub mod Response
pub mod Loop
pub mod Cycle
pub mod Aggregate
