-- ===== src/Sampling.antt =====
-- Which questions a cycle asks, in which languages, of which models: src/sampling.
pub mod Density
pub mod Rotation
pub mod Languages
pub mod Plan
mod Tests
