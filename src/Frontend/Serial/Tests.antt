-- ===== src/Frontend/Serial/Tests.antt =====
-- The terminal at concrete keys.
