-- ===== src/Testnet/Examples.antt =====
-- The theorems about the test network's node at concrete inputs.
pub mod Genesis
mod Blocks
mod Civic
mod Turns
mod Services
mod Network
