-- ===== src/Mongodb/Replset/Members.antt =====
-- The member lists that `add_replset_member`, `remove_replset_member` and `init_replset` send.
use mongodb_k8s_operator.Prelude.{
  ℕ, ◌+◌, ◌≤◌, ◌<◌, String, ◌≡◌, ◌≢◌, ◌↔◌, ◌⊎◌, inl, inr, ap, ◌∙◌, sym, some, none, List, [], ◌∷◌,
  ◌++◌, arith, ◌==◌, eq_iff, eq_refl, Bool-cases, Option-cases,
}
use mongodb_k8s_operator.Core.Call.{Member, RsConfig}
use mongodb_k8s_operator.Mongodb.Hosts.{hostname_from_hostport}
use mongodb_k8s_operator.Mongodb.Replset.{max_id, others, with_member, without_member}

abbrev pub In : {A : Type 0} → A → List A → Type 0
In a [] = ⊥
In a (x ∷ xs) = (a ≡ x) ⊎ In a xs

-- Every id in the list is below a number.
abbrev pub AllBelow : ℕ → List Member → Type 0
AllBelow n [] = Unit
AllBelow n (m ∷ members) = (m.id < n) × AllBelow n members

abbrev pub NoId : ℕ → List Member → Type 0
NoId i [] = Unit
NoId i (m ∷ members) = (m.id ≢ i) × NoId i members

-- No two members have one id.
abbrev pub HasDistinctIds : List Member → Type 0
HasDistinctIds [] = Unit
HasDistinctIds (m ∷ members) = NoId m.id members × HasDistinctIds members

AllBelow_mono : (n k : ℕ) (members : List Member) → n ≤ k → AllBelow n members → AllBelow k members
AllBelow_mono n k [] h b = b
AllBelow_mono n k (m ∷ members) h b = (omega arith, AllBelow_mono n k members h b.1)

AllBelow_of_none : (n : ℕ) (members : List Member) → max_id members ≡ none → AllBelow n members
unfolding max_id
AllBelow_of_none n [] h = tt
AllBelow_of_none n (m ∷ members) h = ground arith

-- The id that is given out is above all that are in use.
pub max_id-AllBelow :
    (members : List Member) (i : ℕ) → max_id members ≡ some i → AllBelow (i + 1) members
unfolding max_id
max_id-AllBelow [] i h = cc
max_id-AllBelow (m ∷ members) i h = elim (Option-cases (max_id members)) [
  | inl empty ↦ (ground arith, AllBelow_of_none (i + 1) members empty)
  | inr (j, e) ↦ (
    ground arith,
    AllBelow_mono (j + 1) (i + 1) members (ground arith) (max_id-AllBelow members j e),
  )
]

NoId-of_AllBelow : (i : ℕ) (members : List Member) → AllBelow i members → NoId i members
NoId-of_AllBelow i [] h = tt
NoId-of_AllBelow i (m ∷ members) h = (omega arith, NoId-of_AllBelow i members h.1)

NoId-append : (i : ℕ) (xs : List Member) (m : Member) → NoId i xs → m.id ≢ i → NoId i (xs ++ m ∷ [])
NoId-append i [] m h ne = (ne, tt)
NoId-append i (x ∷ xs) m h ne = (h.0, NoId-append i xs m h.1 ne)

HasDistinctIds-append :
    (xs : List Member) (m : Member)
    → HasDistinctIds xs
    → NoId m.id xs
    → HasDistinctIds (xs ++ m ∷ [])
HasDistinctIds-append [] m d h = (tt, tt)
HasDistinctIds-append (x ∷ xs) m d h =
    (NoId-append x.id xs m d.0 (λ e. h.0 (sym e)), HasDistinctIds-append xs m d.1 h.1)

NoId-others :
    (hostname : String) (i : ℕ) (xs : List Member) → NoId i xs → NoId i (others hostname xs)
unfolding others
NoId-others hostname i [] h = h
NoId-others hostname i (x ∷ xs) h = elim (Bool-cases (hostname == hostname_from_hostport x.host)) [
  | inl same ↦ rw same (NoId-others hostname i xs h.1)
  | inr other ↦ rw other (h.0, NoId-others hostname i xs h.1)
]

pub HasDistinctIds-others :
    (hostname : String) (xs : List Member) → HasDistinctIds xs → HasDistinctIds (others hostname xs)
unfolding others
HasDistinctIds-others hostname [] h = h
HasDistinctIds-others hostname (x ∷ xs) h =
    elim (Bool-cases (hostname == hostname_from_hostport x.host)) [
      | inl same ↦ rw same (HasDistinctIds-others hostname xs h.1)
      | inr other ↦
          rw other (NoId-others hostname x.id xs h.0, HasDistinctIds-others hostname xs h.1)
    ]

-- If the ids of a configuration are distinct, they are so once a member is added after the id that
-- `max` gives, and once one is removed.
pub reconfig-HasDistinctIds :
    (cfg : RsConfig) (i : ℕ) (hostname : String)
    → HasDistinctIds cfg.members
    → max_id cfg.members ≡ some i
    → HasDistinctIds (with_member cfg i hostname).members
      × HasDistinctIds (without_member cfg hostname).members
reconfig-HasDistinctIds cfg i hostname d h = (
  HasDistinctIds-append cfg.members _ d
      (NoId-of_AllBelow (i + 1) cfg.members (max_id-AllBelow cfg.members i h)),
  HasDistinctIds-others hostname cfg.members d,
)

-- `others` keeps exactly the members whose host is another one.
pub In-others :
    (hostname : String) (xs : List Member) (m : Member)
    → In m (others hostname xs) ↔ (In m xs × (hostname ≢ hostname_from_hostport m.host))
unfolding others
In-others hostname [] m = ((λ h. absurd h), (λ h. h.0))
In-others hostname (x ∷ xs) m = (
  elim (Bool-cases (hostname == hostname_from_hostport x.host)) [
    | inl same ↦ rw same (λ h. let r = (In-others hostname xs m).0 h in (inr r.0, r.1))
    | inr other ↦ rw other (λ h. elim h [
      | inl e ↦ (
        inl e,
        λ p. cc (
            (eq_iff hostname (hostname_from_hostport x.host)).1
              (p ∙ ap (λ (y : Member). hostname_from_hostport y.host) e)),
      )
      | inr r ↦ let q = (In-others hostname xs m).0 r in (inr q.0, q.1)
    ])
  ],
  elim (Bool-cases (hostname == hostname_from_hostport x.host)) [
    | inl same ↦ rw same (λ h. elim h.0 [
      | inl e ↦ absurd (
          h.1 (
            (eq_iff hostname (hostname_from_hostport x.host)).0 same
            ∙ ap (λ (y : Member). hostname_from_hostport y.host) (sym e)))
      | inr r ↦ (In-others hostname xs m).1 (r, h.1)
    ])
    | inr other ↦
        rw other
          (λ h. elim h.0 [ inl e ↦ inl e | inr r ↦ inr ((In-others hostname xs m).1 (r, h.1)) ])
  ],
)

-- A member that was added under a host that no member had is all that its removal takes away.
others-append :
    (hostname : String) (xs : List Member) (m : Member)
    → hostname_from_hostport m.host ≡ hostname
    → others hostname (xs ++ m ∷ []) ≡ others hostname xs
unfolding others
others-append hostname [] m h = rw h (rw (eq_refl hostname))
others-append hostname (x ∷ xs) m h = ground (arith, others-append hostname xs m h)
