-- ===== src/Deploy.antt =====
-- Publishing content off-site, under approval, disclosure and rate limits: src/deploy, with the
-- queries of src/db/repo.ts that it stands on.
pub mod Throttle
pub mod Rules
pub mod Queue
pub mod Publish
pub mod Dispatch
pub mod Verify
mod Tests
