-- ===== src/Testnet.antt =====
-- src/testnet_node.cpp and src/p2p.hpp: the test network's node.
pub mod Block
pub mod Instance
pub mod Chain
pub mod Disk
pub mod Governance
pub mod Market
pub mod Loop
pub mod Migration
pub mod RateLimiter
pub mod Solver
pub mod Miner
pub mod Peers
pub mod Node
pub mod Examples
