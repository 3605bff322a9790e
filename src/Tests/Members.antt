-- ===== src/Tests/Members.antt =====
-- The theorem on what reconciling reaches, on an application whose mongod keeps its members.
use mongodb_k8s_operator.Prelude.{some, List, [], ◌∷◌, map, false, ◌==◌}
use mongodb_k8s_operator.Core.Error.{ok}
use mongodb_k8s_operator.Core.Call.{Call, Command, Member, MemberStatus, mongo, reconfig, initiate}
use mongodb_k8s_operator.Core.World.{World}
use mongodb_k8s_operator.Core.Event.{Event, peer_departed}
use mongodb_k8s_operator.Charm.Reconcile.Deferred.{Deferred}
use mongodb_k8s_operator.Samples.{old_world, host_0}

abbrev first_member : Member
first_member = record { id = 0; host = host_0; options = "" }

abbrev members_by_command : Command → List Member → List Member
members_by_command (initiate replset members) before = members
members_by_command (reconfig cfg) before = cfg.members
members_by_command command before = before

abbrev kept_members : List Call → List Member
kept_members [] = first_member ∷ []
kept_members (mongo conn command ∷ t) = members_by_command command (kept_members t)
kept_members (c ∷ t) = kept_members t

abbrev status_of : Member → MemberStatus
status_of m = record { name = m.host; state_str = "SECONDARY" }

abbrev mongod : World
mongod = record old_world {
  rs_config = λ t. ok (record { version = 1; members = kept_members t; settings = "" });
  rs_status = λ t. ok (map status_of (kept_members t));
  has_relation = λ t name. name == "database-peers";
  peer_data = λ t scope.
      ("db_initialised", "True")
      ∷ ("operator-password", "operator-secret")
      ∷ ("monitor-password", "monitor-secret")
      ∷ ("keyfile", "key")
      ∷ [];
  relations = λ t. [];
  answers = λ t. false;
}

-- Juju still shows the unit, which is no member yet.
abbrev unit_1_departs : Event
unit_1_departs = peer_departed "mongodb-k8s/1" (some "mongodb-k8s/1")
