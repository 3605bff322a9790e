-- ===== src/Provider.antt =====
-- `class MongoDBProvider` (lib/charms/mongodb/v0/mongodb_provider.py): the users and the databases of
-- the client relations.
pub mod Relations
pub mod Users
pub mod Safety
