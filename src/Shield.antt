-- ===== src/Shield.antt =====
-- The proxy shield: deploy/shield/proxy.cpp. One binary is any of eight layers, each with its filter.
pub mod Bucket
pub mod Behavior
pub mod Breaker
pub mod Filters
pub mod Proxy
mod Examples
