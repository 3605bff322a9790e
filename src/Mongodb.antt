-- ===== src/Mongodb.antt =====
-- Interactions with MongoDB (lib/charms/mongodb/v0/mongodb.py).
pub mod Quote
pub mod Configuration
pub mod Connection
pub mod Hosts
pub mod Replset
pub mod Names
pub mod Accounts
pub mod Calls
pub mod UserStore
pub mod MemberStore
