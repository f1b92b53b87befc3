-- ===== src/Deploy/Publish.antt =====
-- One publish job, and the tables that it writes: src/deploy/publishUnit.ts, with the queries of
-- src/db/repo.ts. Logging is left out.
pub mod Store
pub mod Unit
