-- ===== src/Mongodb/MemberStore.antt =====
-- The members that the replica set has, as the configurations that mongod accepted leave them.
pub mod Steps
use mongodb_k8s_operator.Prelude.{
  String, Bool, true, false, not, ◌&&◌, ◌||◌, ◌==◌, ◌≡◌, refl, ◌∙◌, List, [], ◌∷◌, ◌++◌, map, arith,
  eq_iff, if◌then◌else◌,
}
use mongodb_k8s_operator.Core.Error.{Result, ok, err}
use mongodb_k8s_operator.Core.Call.{
  Call, Command, MemberStatus, Member, RsConfig, mongo, initiate, reconfig,
}
use mongodb_k8s_operator.Core.World.{World}
use mongodb_k8s_operator.Core.Sets.{contains}
use mongodb_k8s_operator.Core.Safe.{Extends, same, more}
use mongodb_k8s_operator.Mongodb.Hosts.{hostname_from_hostport}
use mongodb_k8s_operator.Mongodb.Replset.{others}
use mongodb_k8s_operator.Mongodb.UserStore.{is_ok}

abbrev pub changes_members : Command → Bool
changes_members (initiate replset members) = true
changes_members (reconfig cfg) = true
changes_members command = false

abbrev pub members_by : Command → List Member → List Member
members_by (initiate replset members) before = members
members_by (reconfig cfg) before = cfg.members
members_by command before = before

-- The members after the calls, from those before the first of them.
unfoldable pub members_after : World → List Member → List Call → List Member
members_after w base [] = base
members_after w base (mongo conn command ∷ t) =
    let rest = members_after w base t in
    if changes_members command && is_ok (w.run (mongo conn command ∷ t))
    then members_by command rest
    else rest
members_after w base (c ∷ t) = members_after w base t

-- A member with that host.
unfoldable pub has_host : List Member → String → Bool
has_host [] h = false
has_host (m ∷ members) h = hostname_from_hostport m.host == h || has_host members h

-- What the charm relies on in mongod: the configuration is the one that was accepted last, and the
-- status lists its members.
pub record ReportsMembers (w : World) (base : List Member) : Type 0 where
  pub configured :
      (t : List Call) (cfg : RsConfig)
      → w.rs_config t ≡ ok cfg
      → cfg.members ≡ members_after w base t
  pub listed :
      (t : List Call) (statuses : List MemberStatus) (h : String)
      → w.rs_status t ≡ ok statuses
      → contains (map (λ m. hostname_from_hostport m.name) statuses) h
        ≡ has_host (members_after w base t) h

abbrev pub LeavesMembers : Call → Type 0
LeavesMembers (mongo conn command) = changes_members command ≡ false
LeavesMembers c = Unit

module _ (w : World) (base : List Member) where
  members_after-leaves :
      (c : Call) (t : List Call)
      → LeavesMembers c
      → members_after w base (c ∷ t) ≡ members_after w base t
  unfolding members_after
  members_after-leaves (mongo conn command) t h = rw h
  members_after-leaves c t h = refl

  pub members_after-Extends :
      (t t' : List Call)
      → Extends LeavesMembers t t'
      → members_after w base t' ≡ members_after w base t
  members_after-Extends t t' same = refl
  members_after-Extends t t' (more {c} {u = s} h x) =
      members_after-leaves c s h ∙ members_after-Extends t s x

-- What adding a member, and taking one away, does to the hosts.
pub has_host-append :
    (members : List Member) (m : Member) (x : String)
    → has_host (members ++ m ∷ []) x ≡ (has_host members x || hostname_from_hostport m.host == x)
unfolding has_host
has_host-append [] m x = ground arith
has_host-append (n ∷ members) m x = ground (arith, has_host-append members m x)

pub has_host-others :
    (h : String) (members : List Member) (x : String)
    → has_host (others h members) x ≡ (has_host members x && not (h == x))
unfolding has_host others
has_host-others h [] x = refl
has_host-others h (n ∷ members) x = ground (
  arith,
  has_host-others h members x,
  eq_iff h (hostname_from_hostport n.host),
  eq_iff (hostname_from_hostport n.host) x,
  eq_iff h x,
)
