-- ===== src/Mongodb/Replset/Changes.antt =====
-- Which commands `add_replset_member` and one attempt of `remove_replset_member` send.
use mongodb_k8s_operator.Prelude.{
  ℕ, ◌+◌, String, ◌≡◌, ◌≢◌, ◌↔◌, refl, [], ◌++◌, inl, inr, Bool, true, false, List, ◌∷◌, arith,
  Bool-cases, Option-cases,
}
use mongodb_k8s_operator.Core.Error.{ok, Result-cases}
use mongodb_k8s_operator.Core.Call.{
  MemberStatus, Member, RsConfig, Connection, get_config, get_status, reconfig, step_down, mongo,
  Call,
}
use mongodb_k8s_operator.Core.Exec.{◌>>=◌}
use mongodb_k8s_operator.Core.World.{World, State}
use mongodb_k8s_operator.Mongodb.Replset.{
  is_any_sync, is_any_removing, is_primary, max_id, with_member, without_member, add_replset_member,
  remove_attempt,
}
use mongodb_k8s_operator.Mongodb.Hosts.{hostname_from_hostport}
use mongodb_k8s_operator.Mongodb.Replset.Members.{In, In-others, AllBelow, max_id-AllBelow}

-- The calls once the configuration and the status are read.
abbrev pub asked : Connection → List Call → List Call
asked conn trace = mongo conn get_status ∷ mongo conn get_config ∷ trace

-- What a successful addition has done.
pub record Added (w : World) (conn : Connection) (hostname : String) (before after : List Call)
    : Type 0 where
  pub cfg : RsConfig
  pub members : List MemberStatus
  pub id : ℕ
  pub read_config : w.rs_config (mongo conn get_config ∷ before) ≡ ok cfg
  pub read_status : w.rs_status (asked conn before) ≡ ok members
  pub settled : is_any_sync members ≡ false
  pub fresh : AllBelow (id + 1) cfg.members
  pub new : RsConfig
  pub next_version : new.version ≡ cfg.version + 1
  pub one_more :
      new.members ≡ cfg.members ++ record { id = id + 1; host = hostname; options = "" } ∷ []
  pub same_settings : new.settings ≡ cfg.settings
  pub sent : after ≡ mongo conn (reconfig new) ∷ asked conn before

-- The step-down, if the member is the primary, stands before the new configuration.
abbrev pub stepped_down : Connection → Bool → List Call → List Call
stepped_down conn true trace = mongo conn (step_down "60") ∷ trace
stepped_down conn false trace = trace

-- What a successful attempt of a removal has done.
pub record Removed (w : World) (conn : Connection) (hostname : String) (before after : List Call)
    : Type 0 where
  pub cfg : RsConfig
  pub members : List MemberStatus
  pub read_config : w.rs_config (mongo conn get_config ∷ before) ≡ ok cfg
  pub read_status : w.rs_status (asked conn before) ≡ ok members
  pub settled : is_any_removing members ≡ false
  pub new : RsConfig
  pub next_version : new.version ≡ cfg.version + 1
  pub others_stay :
      (m : Member)
      → In m new.members ↔ (In m cfg.members × (hostname ≢ hostname_from_hostport m.host))
  pub same_settings : new.settings ≡ cfg.settings
  pub sent :
      after
      ≡ mongo conn (reconfig new)
        ∷ stepped_down conn (is_primary members hostname) (asked conn before)

module _ (w : World) (conn : Connection) (hostname : String) (s : State) where
  -- An addition that succeeds has read the configuration and the status, in which no member syncs, and
  -- has then sent one configuration and nothing else: the next version, with the settings and the
  -- members that were read, in their order, and after them the host as a member, whose id is above
  -- all that are in use.
  pub add-Added :
      (add_replset_member w conn hostname s).0 ≡ ok tt
      → Added w conn hostname s.trace (add_replset_member w conn hostname s).1.trace
  unfolding add_replset_member ◌>>=◌
  add-Added h = elim (Result-cases (w.rs_config (mongo conn get_config ∷ s.trace))) [
    | inl (e, ec) ↦ ground arith
    | inr (cfg, ec) ↦ elim (Result-cases (w.rs_status (asked conn s.trace))) [
      | inl (e, em) ↦ ground arith
      | inr (members, em) ↦ elim (Bool-cases (is_any_sync members)) [
        | inl syncing ↦ ground arith
        | inr settled ↦ elim (Option-cases (max_id cfg.members)) [
          | inl empty ↦ ground arith
          | inr (i, top) ↦ record {
            cfg = cfg;
            members = members;
            id = i;
            read_config = ec;
            read_status = em;
            settled = settled;
            fresh = max_id-AllBelow cfg.members i top;
            new = with_member cfg i hostname;
            next_version = refl;
            one_more = refl;
            same_settings = refl;
            sent = ground arith;
          }
        ]
      ]
    ]
  ]

  -- An attempt of a removal that succeeds has read the configuration and the status, in which no member
  -- is being removed, has told the member to step down exactly if it is the primary, and has then sent
  -- one configuration and nothing else: the next version, with the settings that were read, and with
  -- exactly the members that are not on the host.
  pub remove-Removed :
      (remove_attempt w conn hostname s).0 ≡ ok tt
      → Removed w conn hostname s.trace (remove_attempt w conn hostname s).1.trace
  unfolding remove_attempt ◌>>=◌
  remove-Removed h = elim (Result-cases (w.rs_config (mongo conn get_config ∷ s.trace))) [
    | inl (e, ec) ↦ ground arith
    | inr (cfg, ec) ↦ elim (Result-cases (w.rs_status (asked conn s.trace))) [
      | inl (e, em) ↦ ground arith
      | inr (members, em) ↦ elim (Bool-cases (is_any_removing members)) [
        | inl removing ↦ ground arith
        | inr settled ↦ record {
          cfg = cfg;
          members = members;
          read_config = ec;
          read_status = em;
          settled = settled;
          new = without_member cfg hostname;
          next_version = refl;
          others_stay = λ m. In-others hostname cfg.members m;
          same_settings = refl;
          sent = elim (Bool-cases (is_primary members hostname)) [
            | inl p ↦ ground arith
            | inr p ↦ ground arith
          ];
        }
      ]
    ]
  ]
