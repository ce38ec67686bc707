-- ===== src/Shield/Breaker/Tripped.antt =====
-- When the breaker stays tripped.
