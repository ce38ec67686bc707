-- ===== src/Mining.antt =====
-- The SAT solver for mining: include/mining/solver.hpp and src/mining/sat_solver.cpp.
pub mod State
pub mod Propagate
pub mod Conflict
pub mod Search
pub mod Pool
mod Examples
