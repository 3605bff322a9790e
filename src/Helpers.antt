-- ===== src/Helpers.antt =====
-- The functions of lib/charms/mongodb/v0/helpers.py.
pub mod Args
pub mod Status
pub mod Pbm
pub mod Random
