-- ===== src/Charm/Dispatch/Work.antt =====
-- The calls that a unit makes for itself, whether it is the leader or not.
use mongodb_k8s_operator.Prelude.{Bool, true, false, ◌≡◌, ◌⊎◌, List, [], ◌∷◌, inl, inr, Bool-cases}
use mongodb_k8s_operator.Core.Call.{
  Call, app, unit, mongo, ping, get_status, peer_set, peer_delete, relation_set, secret_add, exec,
}
use mongodb_k8s_operator.Core.World.{World, Exec}
use mongodb_k8s_operator.Core.Exec.{asks, ◌>>=◌}
use mongodb_k8s_operator.Core.Safe.{Emits, Safe-bind, Safe-asks}
use mongodb_k8s_operator.Charm.Secrets.Calls.{AllowsSecrets}
use mongodb_k8s_operator.Charm.Services.Calls.{AllowsLayers}

-- To mongod: pings and questions for the status. To Juju: the unit's own data and secrets, but
-- neither the application's nor a client relation's. Juju writes a secret by its id alone. In the
-- container: the program of PBM, and chown.
abbrev pub UnitMay : Call → Type 0
UnitMay (mongo conn ping) = Unit
UnitMay (mongo conn get_status) = Unit
UnitMay (mongo conn command) = ⊥
UnitMay (peer_set app key value) = ⊥
UnitMay (peer_delete app key) = ⊥
UnitMay (secret_add app content) = ⊥
UnitMay (relation_set relation key value) = ⊥
UnitMay (exec [] environment stdin) = ⊥
UnitMay (exec (program ∷ args) environment stdin) = (program ≡ "/usr/bin/pbm") ⊎ (program ≡ "chown")
UnitMay c = Unit

-- Code of every unit, in which a leader may do more.
pub record Works (w : World) (Leads : Type 0) (P : Call → Type 0) : Type 0 where
  pub may : (c : Call) → UnitMay c → P c
  pub leading : (t : List Call) → w.is_leader t ≡ true → Leads

module _ {P : Call → Type 0} (may : (c : Call) → UnitMay c → P c) where
  pub layers : AllowsLayers P
  layers = record {
    asks_container = may _ tt;
    reads_plan = λ name. may _ tt;
    adds = λ label name service. may _ tt;
    replans = may _ tt;
  }

  pub unit_secrets : AllowsSecrets P unit
  unit_secrets = record {
    adds = λ c. may _ tt;
    writes = λ id c. may _ tt;
    keeps = λ k v. may _ tt;
    deletes = λ k. may _ tt;
  }

-- What follows the test for the leader.
pub Emits-leader :
    {A : Type 0} {P : Call → Type 0} {Leads : Type 0} (w : World) (k : Bool → Exec A)
    → Works w Leads P
    → (Leads → Emits P (k true))
    → Emits P (k false)
    → Emits P (asks w.is_leader >>= k)
Emits-leader {Leads} w k works leader follower =
    Safe-bind {Q = λ b. b ≡ true → Leads} _ _ (Safe-asks _ works.leading)
      λ b known. elim (Bool-cases b) [ inl e ↦ rw e (leader (known e)) | inr e ↦ rw e follower ]
