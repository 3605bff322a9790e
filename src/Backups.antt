-- ===== src/Backups.antt =====
-- `class MongoDBBackups` (lib/charms/mongodb/v0/mongodb_backups.py).
pub mod Options
pub mod Pbm
pub mod Actions
