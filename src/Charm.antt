-- ===== src/Charm.antt =====
-- `class MongoDBCharm` (src/charm.py), by the parts of its code.
pub mod PeerData
pub mod Secrets
pub mod SecretIds
pub mod Configs
pub mod Services
pub mod Users
pub mod Reconcile
pub mod Workload
pub mod Lifecycle
pub mod Actions
pub mod Dispatch
