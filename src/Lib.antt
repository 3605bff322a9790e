-- ===== src/Lib.antt =====
-- The MongoDB charm for Kubernetes: a Juju operator that runs a replica set of mongod, one member in
-- each unit of the application.
--
-- The parts and how they interact
--
-- src/charm.py handles Juju's events for one unit. lib/charms/mongodb/v0/mongodb.py talks to mongod:
-- the replica set, users and databases. mongodb_provider.py there keeps MongoDB's users in line with
-- the client relations, mongodb_tls.py asks for certificates and puts them in place, mongodb_backups.py
-- configures Percona's backup agent, users.py names the charm's own users, and helpers.py makes
-- passwords, the arguments of mongod and statuses. The parts share the charm's secrets (Juju secrets
-- with a cache in memory, or entries of the peer databags for an older Juju), the databags of
-- relations, and one mongod.
--
-- What stands where
--
-- Core: code that makes calls and may raise, as a function of the state: the calls made so far, the
-- latest first, and the charm's memory of its secrets. `Core.World.World` is what answers the calls:
-- mongod, Juju, Pebble, tenacity, and what Python leaves open (the order of a set, random choices,
-- JSON); each answer may depend on all calls so far. `Core.Safe` has the rules that say which calls
-- code makes, `Core.Ensures` those that say what holds of the calls before and after code that
-- returns, `Core.Retry` what retries promise.
-- Text: the operations of Python's `str` that the code uses.
-- Mongodb: lib/charms/mongodb/v0/mongodb.py. Configuration and Connection are MongoDBConfiguration and
-- MongoDBConnection, Accounts has create_user, update_user, drop_user, get_users, get_databases,
-- drop_database and the roles, Replset has init_replset, add_replset_member, remove_replset_member and
-- the statuses, Hosts the names of hosts (with get_hostname_for_unit of src/charm.py), Names the names
-- of relation users, Quote is Python's `quote_plus`. UserStore and MemberStore say which users and
-- members mongod has after a trace of calls: the abstract state that the code is to bring about.
-- Provider: lib/charms/mongodb/v0/mongodb_provider.py. Relations reads the relations and their
-- databags, Users has oversee_users and _on_relation_event.
-- Charm: src/charm.py. PeerData and Secrets are the databags and get_secret, set_secret and
-- remove_secret; SecretIds is _compare_secret_ids; Configs has mongodb_config and the like; Services
-- the layers and services of the container; Users the creation of the charm's users and secrets;
-- Reconcile is _relation_changes_handler; Lifecycle has _on_start, _on_stop and _on_update_status;
-- Workload is _on_mongod_pebble_ready; Actions has the password actions and _on_secret_changed;
-- Dispatch is __init__: which handler runs on which event, and the states that events lead to.
-- Tls: lib/charms/mongodb/v0/mongodb_tls.py. Backups: lib/charms/mongodb/v0/mongodb_backups.py.
-- Helpers: lib/charms/mongodb/v0/helpers.py. Users: lib/charms/mongodb/v0/users.py. Config: the
-- constants of src/config.py. Samples has two units with worlds that answer them, and Tests the
-- theorems on those.
--
-- Functions keep their names, without a leading underscore. A handler takes from its event what it
-- reads of it. An exception is a value of `Core.Error.Error`, and what was called before it stays
-- called. A `with` block makes its last call, `close`, also when its body raises. A retry by tenacity
-- is the operation `retry` of the world, and what the code relies on is `Core.Retry.Retries`: the
-- outcome is that of attempts of the body, each after the one before it raised, and it returns
-- exactly if the last one does.
--
-- Bounds and fuel
--
-- Python's integers have no bound, and those of the model are natural numbers: ids, versions, and the
-- rounds of a wait, none of which goes below zero. `show` of a number n has n + 1 steps of fuel, and a
-- number has at most that many digits; the removal of matches in a secret's id has the length of the
-- text for its fuel, as every match that is removed is not empty. The loops are over lists, but for
-- the wait in `on_stop`, which recurs on its timeout of 1000.
--
-- What is not modelled
--
-- Logging. The libraries of other projects under lib/ (S3, certificates, snap, Prometheus, Grafana,
-- Loki), ops, pymongo, tenacity and Pebble: their answers are parameters. copy_licenses_to_unit, which
-- this charm does not call. The permissions and owners of pushed files. Two units at work at one time:
-- the answers of the world may change with every call, which covers what others do to the database.
pub mod Prelude
pub mod Text
pub mod Core
pub mod Users
pub mod Mongodb
pub mod Helpers
pub mod Config
pub mod Charm
pub mod Tls
pub mod Provider
pub mod Backups
pub mod Samples
pub mod Tests
