-- ===== src/Mongodb/Replset/Views.antt =====
-- The three readings of one status: `get_replset_status`, `get_replset_members` and the primary.
use mongodb_k8s_operator.Prelude.{
  String, Bool, true, false, not, ◌||◌, ◌==◌, ◌≡◌, refl, sym, ◌∙◌, ap, ◌⊎◌, inl, inr, Option, none,
  some, List, [], ◌∷◌, map, arith, eq_iff, if◌then◌else◌, Bool-cases,
}
use mongodb_k8s_operator.Core.Error.{ok}
use mongodb_k8s_operator.Core.World.{World, State}
use mongodb_k8s_operator.Core.Exec.{◌>>=◌}
use mongodb_k8s_operator.Core.Call.{MemberStatus, Connection, mongo, get_status}
use mongodb_k8s_operator.Core.Dict.{lookup, insert, is_some, has_key, lookup-insert}
use mongodb_k8s_operator.Core.Sets.{contains, to_set, contains-to_set}
use mongodb_k8s_operator.Mongodb.Hosts.{hostname_from_hostport}
use mongodb_k8s_operator.Mongodb.Replset.{
  status_dict, is_primary, last_primary, get_replset_status, get_replset_members, primary,
}

abbrev pub host_of : MemberStatus → String
host_of m = hostname_from_hostport m.name

abbrev pub has_text : String → Option String → Bool
has_text text none = false
has_text text (some other) = other == text

-- No two members are on one host.
abbrev pub HasDistinctHosts : List MemberStatus → Type 0
HasDistinctHosts [] = Unit
HasDistinctHosts (m ∷ members) =
    (contains (map host_of members) (host_of m) ≡ false) × HasDistinctHosts members

-- The state of the last member on a host.
unfoldable state_of : Option String → String → List MemberStatus → Option String
state_of found h [] = found
state_of found h (m ∷ members) =
    state_of (if host_of m == h then some m.state_str else found) h members

lookup-status_dict :
    (members : List MemberStatus) (d : List (String × String)) (h : String)
    → lookup h (status_dict members d) ≡ state_of (lookup h d) h members
unfolding status_dict state_of
lookup-status_dict [] d h = refl
lookup-status_dict (m ∷ members) d h =
    lookup-status_dict members (insert (host_of m) m.state_str d) h
    ∙ ap (λ found. state_of found h members) (lookup-insert (host_of m) h m.state_str d)

is_some-state_of :
    (found : Option String) (h : String) (members : List MemberStatus)
    → is_some (state_of found h members) ≡ (is_some found || contains (map host_of members) h)
unfolding state_of contains
is_some-state_of found h [] = ground arith
is_some-state_of found h (m ∷ members) = elim (Bool-cases (host_of m == h)) [
  | inl e ↦ rw (e, is_some-state_of (some m.state_str) h members) (ground arith)
  | inr e ↦ rw (e, is_some-state_of found h members) (ground arith)
]

same_text : (a b : String) → (a == b) ≡ (b == a)
same_text a b = ground (arith, eq_iff a b, eq_iff b a)

-- A host without a member is not the primary.
is_primary-elsewhere :
    (members : List MemberStatus) (h : String)
    → contains (map host_of members) h ≡ false
    → is_primary members h ≡ false
unfolding is_primary contains
is_primary-elsewhere [] h out = refl
is_primary-elsewhere (m ∷ members) h out =
    ground (arith, is_primary-elsewhere members h, eq_iff (host_of m) h, eq_iff h (host_of m))

state_of-elsewhere :
    (found : Option String) (h : String) (members : List MemberStatus)
    → contains (map host_of members) h ≡ false
    → state_of found h members ≡ found
unfolding state_of contains
state_of-elsewhere found h [] out = refl
state_of-elsewhere found h (m ∷ members) out = elim (Bool-cases (host_of m == h)) [
  | inl e ↦ ground (arith, out, e)
  | inr e ↦ rw e (state_of-elsewhere found h members (ground (arith, out, e)))
]

is_primary-state_of :
    (h : String) (members : List MemberStatus)
    → HasDistinctHosts members
    → is_primary members h ≡ has_text "PRIMARY" (state_of none h members)
unfolding is_primary state_of
is_primary-state_of h [] distinct = refl
is_primary-state_of h (m ∷ members) distinct = elim (Bool-cases (host_of m == h)) [
  | inl e ↦
      let out : contains (map host_of members) h ≡ false =
        rw ((eq_iff (host_of m) h).0 e) at distinct.0 in
      rw
        (
          same_text h (host_of m),
          e,
          state_of-elsewhere (some m.state_str) h members out,
          is_primary-elsewhere members h out,
        )
        (ground arith)
  | inr e ↦ rw (same_text h (host_of m), e) (is_primary-state_of h members distinct.1)
]

has_text-some :
    (text : String) (found : Option String) → has_text text found ≡ true → found ≡ some text
has_text-some text none e = cc
has_text-some text (some other) e = ap some ((eq_iff other text).0 e)

last_primary-is_primary :
    (found : Option String) (members : List MemberStatus) (h : String)
    → last_primary found members ≡ some h
    → (found ≡ some h) ⊎ (is_primary members h ≡ true)
unfolding last_primary is_primary
last_primary-is_primary found [] h e = inl e
last_primary-is_primary found (m ∷ members) h e =
    elim (last_primary-is_primary (if m.state_str == "PRIMARY" then some (host_of m) else found)
      members h e) [
        | inl first ↦ elim (Bool-cases (m.state_str == "PRIMARY")) [
          | inl p ↦
              let same : some (host_of m) ≡ some h = rw p at first in
              let here : (h == host_of m) ≡ true = (eq_iff h (host_of m)).1 cc in
              inr (rw (here, p) refl)
          | inr p ↦ inl (rw p at first)
        ]
        | inr rest ↦ inr (rw rest (ground arith))
      ]

found_primary :
    (members : List MemberStatus) (h : String)
    → (not (has_text h (last_primary none members)) || is_primary members h) ≡ true
found_primary members h = elim (Bool-cases (has_text h (last_primary none members))) [
  | inr e ↦ rw e refl
  | inl e ↦
      elim (last_primary-is_primary none members h
        (has_text-some h (last_primary none members) e)) [
          | inl first ↦ cc
          | inr found ↦ rw (e, found) refl
        ]
]

-- Asked in one state, `get_replset_status` has in its dictionary the hosts that
-- `get_replset_members` lists; a host is a primary for `remove_replset_member` exactly if the
-- dictionary has the state PRIMARY for it; and what `primary` finds is one of them. The condition:
-- mongod answers with a status in which no two members are on one host.
pub status_views :
    (w : World) (conn : Connection) (s : State) (members : List MemberStatus)
    (states : List (String × String)) (hosts : List String) (found : Option String) (h : String)
    → w.rs_status (mongo conn get_status ∷ s.trace) ≡ ok members
    → HasDistinctHosts members
    → (get_replset_status w conn s).0 ≡ ok states
    → (get_replset_members w conn s).0 ≡ ok hosts
    → (primary w conn s).0 ≡ ok found
    → (has_key h states ≡ contains hosts h)
      × (is_primary members h ≡ has_text "PRIMARY" (lookup h states))
      × ((not (has_text h found) || is_primary members h) ≡ true)
unfolding get_replset_status get_replset_members primary ◌>>=◌
status_views w conn s members states hosts found h answered distinct had listed first =
    let dict : status_dict members [] ≡ states = ground (arith, answered, had) in
    let names : to_set (map host_of members) ≡ hosts = ground (arith, answered, listed) in
    let one : last_primary none members ≡ found = ground (arith, answered, first) in
    (
      ap (has_key h) (sym dict)
          ∙ ap is_some (lookup-status_dict members [] h)
          ∙ is_some-state_of none h members
          ∙ sym (contains-to_set (map host_of members) h)
          ∙ ap (λ names. contains names h) names,
      is_primary-state_of h members distinct
          ∙ ap (has_text "PRIMARY") (sym (lookup-status_dict members [] h))
          ∙ ap (λ d. has_text "PRIMARY" (lookup h d)) dict,
      ap (λ f. not (has_text h f) || is_primary members h) (sym one) ∙ found_primary members h,
    )
