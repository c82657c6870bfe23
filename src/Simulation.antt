-- ===== src/Simulation.antt =====
-- The services in memory: a state, and a list that says which of the coming calls fail. It shows
-- that the laws of Services can hold together, and the tests run on it.
pub mod World
pub mod Tables
pub mod Memory
pub mod Differs
pub mod Services
pub mod Cache
pub mod Samples
