-- ===== src/Tls.antt =====
-- `class MongoDBTLS` (lib/charms/mongodb/v0/mongodb_tls.py).
pub mod Files
pub mod Pem
pub mod Events
pub mod Calls
