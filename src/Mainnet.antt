-- ===== src/Mainnet.antt =====
-- The node of the main network: src/mainnet_node.cpp.
pub mod Chain
pub mod Node
mod Examples
