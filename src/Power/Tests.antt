-- ===== src/Power/Tests.antt =====
-- Instances of the theorems on crates/lodger-virt/src/power.rs.
