-- ===== src/Ponw.antt =====
-- The Proof-of-NP-Witness engine: include/consensus/ponw_engine.hpp and
-- src/consensus/ponw_engine.cpp.
pub mod Sat
pub mod SubsetSum
pub mod GraphColor
pub mod Hamiltonian
pub mod Witness
pub mod Generator
pub mod Adjuster
pub mod Finality
pub mod Engine
pub mod Shuffle
pub mod Problem
pub mod SatGenerator
pub mod SubsetGenerator
pub mod ColorGenerator
pub mod PathGenerator
mod Examples
