-- ===== src/Crypto.antt =====
-- src/crypto/hash.cpp: the Keccak sponge and the hashes, Merkle trees, the deterministic generator
-- and the utilities.
pub mod Agility
pub mod Commitment
pub mod Kyber
pub mod Keccak
pub mod Hash
pub mod Merkle
pub mod Rng
pub mod Hex
pub mod Address
pub mod Signature
mod Examples
