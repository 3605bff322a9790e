-- ===== src/Mongodb/Replset.antt =====
-- The replica set: its status, and adding and removing members.
pub mod Members
pub mod Views
pub mod Changes
pub mod Calls
use mongodb_k8s_operator.Prelude.{
  ℕ, ◌+◌, String, Bool, true, false, ◌&&◌, ◌||◌, Option, none, some, List, [], ◌∷◌, ◌++◌, map, eqb,
  ltb, ◌==◌, if◌then◌else◌,
}
use mongodb_k8s_operator.Core.Error.{Error, not_ready, value_error, operation_failure}
use mongodb_k8s_operator.Core.Call.{
  MemberStatus, Member, RsConfig, Connection, initiate, get_config, get_status, reconfig, step_down,
  mongo,
}
use mongodb_k8s_operator.Core.World.{World, Exec, after_attempt}
use mongodb_k8s_operator.Core.Exec.{⊤, pure, raise, catch, call, when, or_raise, ◌>>=◌, ◌>>◌}
use mongodb_k8s_operator.Core.Dict.{insert}
use mongodb_k8s_operator.Core.Sets.{to_set}
use mongodb_k8s_operator.Mongodb.Configuration.{MongodbConfiguration}
use mongodb_k8s_operator.Mongodb.Connection.{command}
use mongodb_k8s_operator.Mongodb.Hosts.{hostname_from_hostport}

-- `_is_any_sync`
abbrev pub is_syncing : String → Bool
is_syncing state =
    state == "STARTUP" || state == "STARTUP2" || state == "ROLLBACK" || state == "RECOVERING"

unfoldable pub is_any_sync : List MemberStatus → Bool
is_any_sync [] = false
is_any_sync (m ∷ members) = is_syncing m.state_str || is_any_sync members

unfoldable pub is_any_removing : List MemberStatus → Bool
is_any_removing [] = false
is_any_removing (m ∷ members) = m.state_str == "REMOVED" || is_any_removing members

unfoldable pub is_primary : List MemberStatus → String → Bool
is_primary [] hostname = false
is_primary (m ∷ members) hostname =
    hostname == hostname_from_hostport m.name && m.state_str == "PRIMARY"
    || is_primary members hostname

-- `enumerate(hosts)`, as the members of a new replica set.
unfoldable pub enumerate : ℕ → List String → List Member
enumerate i [] = []
enumerate i (h ∷ hosts) = record { id = i; host = h; options = "" } ∷ enumerate (i + 1) hosts

-- `max([member["_id"] …])`
unfoldable pub max_id : List Member → Option ℕ
max_id [] = none
max_id (m ∷ members) = elim (max_id members) [
  | none ↦ some m.id
  | some i ↦ some (if ltb i m.id then m.id else i)
]

-- The members whose host is another one.
unfoldable pub others : String → List Member → List Member
others hostname [] = []
others hostname (m ∷ members) =
    let rest = others hostname members in
    if hostname == hostname_from_hostport m.host then rest else m ∷ rest

-- The new configurations that are sent.
abbrev pub with_member : RsConfig → ℕ → String → RsConfig
with_member cfg max_id hostname = record cfg {
  version = cfg.version + 1;
  members = cfg.members ++ record { id = max_id + 1; host = hostname; options = "" } ∷ [];
}

abbrev pub without_member : RsConfig → String → RsConfig
without_member cfg hostname = record cfg {
  version = cfg.version + 1;
  members = others hostname cfg.members;
}

-- Unauthorized and AlreadyInitialized.
abbrev pub already_initiated : Error → Exec ⊤
already_initiated (operation_failure (some c)) =
    if eqb c 13 || eqb c 23 then pure tt else raise (operation_failure (some c))
already_initiated e = raise e

unfoldable pub status_dict : List MemberStatus → List (String × String) → List (String × String)
status_dict [] d = d
status_dict (m ∷ members) d =
    status_dict members (insert (hostname_from_hostport m.name) m.state_str d)

-- The last primary of the list, as the loop leaves it.
unfoldable pub last_primary : Option String → List MemberStatus → Option String
last_primary found [] = found
last_primary found (m ∷ members) =
    last_primary (if m.state_str == "PRIMARY" then some (hostname_from_hostport m.name) else found)
      members

module _ (w : World) (conn : Connection) where
  abbrev pub rs_get_status : Exec (List MemberStatus)
  rs_get_status = call (mongo conn get_status) w.rs_status

  abbrev pub rs_get_config : Exec RsConfig
  rs_get_config = call (mongo conn get_config) w.rs_config

  unfoldable pub init_replset : MongodbConfiguration → Exec ⊤
  init_replset config =
      w.retry (after_attempt 3) true (λ _. true)
        (catch (command w conn (initiate config.replset (enumerate 0 (w.set_order config.hosts))))
          already_initiated)

  unfoldable pub get_replset_status : Exec (List (String × String))
  get_replset_status = do members ← rs_get_status; pure (status_dict members [])

  unfoldable pub get_replset_members : Exec (List String)
  get_replset_members = do
    members ← rs_get_status
    pure (to_set (map (λ m. hostname_from_hostport m.name) members))

  unfoldable pub primary : Exec (Option String)
  primary = do members ← rs_get_status; pure (last_primary none members)

  unfoldable pub add_replset_member : String → Exec ⊤
  add_replset_member hostname = do
    cfg ← rs_get_config
    members ← rs_get_status
    when (is_any_sync members) (raise not_ready)
    i ← or_raise (max_id cfg.members) value_error
    command w conn (reconfig (with_member cfg i hostname))

  -- One attempt of `remove_replset_member`.
  unfoldable pub remove_attempt : String → Exec ⊤
  remove_attempt hostname = do
    cfg ← rs_get_config
    members ← rs_get_status
    when (is_any_removing members) (raise not_ready)
    when (is_primary members hostname) (command w conn (step_down "60"))
    command w conn (reconfig (without_member cfg hostname))

  unfoldable pub remove_replset_member : String → Exec ⊤
  unfolding remove_attempt
  remove_replset_member hostname =
      w.retry (after_attempt 20) true (λ _. true) (remove_attempt hostname)
