-- ===== src/Backups/Options/Keys.antt =====
-- The options in the configuration of PBM are those of the relation, each under its own name.
use mongodb_k8s_operator.Prelude.{
  String, ◌≡◌, ◌≢◌, refl, sym, ap, ◌∙◌, false, Option, none, some, [], ◌∷◌, arith, ◌==◌, eq_iff,
  eq_refl, Bool-cases, Option-cases, inl, inr, if◌then◌else◌,
}
use mongodb_k8s_operator.Core.Call.{Content}
use mongodb_k8s_operator.Core.Dict.{HasDistinctKeys, has_key, lookup, lookup-insert}
use mongodb_k8s_operator.Backups.Options.{s3_pbm_option, insert_if, add_options, get_pbm_configs}

-- The option of the relation that stands behind an option of PBM.
unfoldable pub source_of : String → Option String
source_of key =
    if key == "storage.s3.region"
    then some "region"
    else if key == "storage.s3.bucket"
    then some "bucket"
    else if key == "storage.s3.prefix"
    then some "path"
    else if key == "storage.s3.credentials.access-key-id"
    then some "access-key"
    else if key == "storage.s3.credentials.secret-access-key"
    then some "secret-key"
    else if key == "storage.s3.endpointUrl"
    then some "endpoint"
    else if key == "storage.s3.storageClass"
    then some "storage-class"
    else none

-- What PBM is to be told of an option.
unfoldable pub wanted_value : String → Content → Option String
unfolding source_of
wanted_value key credentials =
    if key == "storage.type"
    then some "s3"
    else elim (source_of key) [ none ↦ none | some option ↦ lookup option credentials ]

has_key-none : (k : String) (d : Content) → has_key k d ≡ false → lookup k d ≡ none
has_key-none k d h = ground arith

-- One test of the chain of options.
test_step :
    (Q : String → Type 0) (a option key target : String) (rest : Option String)
    → (a ≡ option → Q target)
    → (rest ≡ some key → Q key)
    → (if a == option then some target else rest) ≡ some key
    → Q key
test_step Q a option key target rest q k h = elim (Bool-cases (a == option)) [
  | inl same ↦
      let found : some target ≡ some key = rw same at h in
      let there : target ≡ key = cc in rw (← there) (q ((eq_iff a option).0 same))
  | inr other ↦ k (rw other at h)
]

-- The names of PBM: each belongs to one option, and none is that of the storage's type.
abbrev IsNameFor : String → String → Type 0
IsNameFor a key = (source_of key ≡ some a) × ((key == "storage.type") ≡ false)

s3_pbm_option-IsNameFor : (a key : String) → s3_pbm_option a ≡ some key → IsNameFor a key
unfolding s3_pbm_option source_of
s3_pbm_option-IsNameFor a key =
    test_step (IsNameFor a) a "region" key _ _ (λ e. (ap some (sym e), refl))
      (test_step (IsNameFor a) a "bucket" key _ _ (λ e. (ap some (sym e), refl))
        (test_step (IsNameFor a) a "path" key _ _ (λ e. (ap some (sym e), refl))
          (test_step (IsNameFor a) a "access-key" key _ _ (λ e. (ap some (sym e), refl))
            (test_step (IsNameFor a) a "secret-key" key _ _ (λ e. (ap some (sym e), refl))
              (test_step (IsNameFor a) a "endpoint" key _ _ (λ e. (ap some (sym e), refl))
                (test_step (IsNameFor a) a "storage-class" key _ _ (λ e. (ap some (sym e), refl))
                  (λ h. cc)))))))

lookup-insert_if_other :
    (mapped : Option String) (value key : String) (configs : Content)
    → mapped ≢ some key
    → lookup key (insert_if mapped value configs) ≡ lookup key configs
lookup-insert_if_other none value key configs h = refl
lookup-insert_if_other (some m) value key configs h = elim (Bool-cases (m == key)) [
  | inl same ↦ absurd (h (ap some ((eq_iff m key).0 same)))
  | inr other ↦ rw lookup-insert (rw other)
]

-- An option that the information lacks is not touched.
add_options-absent :
    (option key : String) (credentials configs : Content)
    → s3_pbm_option option ≡ some key
    → lookup option credentials ≡ none
    → lookup key (add_options credentials configs) ≡ lookup key configs
unfolding add_options
add_options-absent option key [] configs e h = refl
add_options-absent option key ((o, v) ∷ credentials) configs e h =
    add_options-absent option key credentials _ e (ground (arith, eq_iff o option, h))
    ∙ lookup-insert_if_other (s3_pbm_option o) v key configs (λ p. not_here (
        let same : some o ≡ some option =
          sym (s3_pbm_option-IsNameFor o key p).0 ∙ (s3_pbm_option-IsNameFor option key e).0 in
        cc))
  where
    not_here : o ≡ option → ⊥
    not_here same = cc (h, (eq_iff o option).1 same)

add_options-present :
    (option key value : String) (credentials configs : Content)
    → HasDistinctKeys credentials
    → s3_pbm_option option ≡ some key
    → lookup option credentials ≡ some value
    → lookup key (add_options credentials configs) ≡ some value
unfolding add_options
add_options-present option key value [] configs d e h = cc
add_options-present option key value ((o, v) ∷ credentials) configs d e h =
    elim (Bool-cases (o == option)) [
      | inl same ↦
          let p : o ≡ option = (eq_iff o option).0 same in
          let first : v ≡ value = cc (rw same at h) in
          add_options-absent option key credentials _ e (rw (← p) (has_key-none o credentials d.0))
          ∙ rw (p, e) (rw lookup-insert (rw (eq_refl key) (ap some first)))
      | inr other ↦
          add_options-present option key value credentials _ d.1 e (ground (arith, other, h))
    ]

add_options-type :
    (credentials configs : Content)
    → lookup "storage.type" configs ≡ some "s3"
    → lookup "storage.type" (add_options credentials configs) ≡ some "s3"
unfolding add_options
add_options-type [] configs h = h
add_options-type ((o, v) ∷ credentials) configs h = add_options-type credentials _ (
    lookup-insert_if_other (s3_pbm_option o) v "storage.type" configs
      (λ p. cc (s3_pbm_option-IsNameFor o "storage.type" p).1)
    ∙ h)

-- A name that stands for an option is the name that is sent for it.
source_of-option :
    (key option : String) → source_of key ≡ some option → s3_pbm_option option ≡ some key
unfolding s3_pbm_option source_of
source_of-option key option =
    test_step (λ o. s3_pbm_option o ≡ some key) key "storage.s3.region" option _ _
      (λ e. ap some (sym e))
      (test_step (λ o. s3_pbm_option o ≡ some key) key "storage.s3.bucket" option _ _
        (λ e. ap some (sym e))
        (test_step (λ o. s3_pbm_option o ≡ some key) key "storage.s3.prefix" option _ _
          (λ e. ap some (sym e))
          (test_step (λ o. s3_pbm_option o ≡ some key) key "storage.s3.credentials.access-key-id"
            option _ _ (λ e. ap some (sym e))
            (test_step (λ o. s3_pbm_option o ≡ some key) key
              "storage.s3.credentials.secret-access-key" option _ _ (λ e. ap some (sym e))
              (test_step (λ o. s3_pbm_option o ≡ some key) key "storage.s3.endpointUrl" option _ _
                (λ e. ap some (sym e))
                (test_step (λ o. s3_pbm_option o ≡ some key) key "storage.s3.storageClass" option _
                  _ (λ e. ap some (sym e)) (λ h. cc)))))))

-- A name that stands for no option is not touched.
add_options-unknown :
    (key : String) (credentials configs : Content)
    → source_of key ≡ none
    → lookup key (add_options credentials configs) ≡ lookup key configs
unfolding add_options
add_options-unknown key [] configs unknown = refl
add_options-unknown key ((o, v) ∷ credentials) configs unknown =
    add_options-unknown key credentials _ unknown
    ∙ lookup-insert_if_other (s3_pbm_option o) v key configs
        (λ p. cc (s3_pbm_option-IsNameFor o key p).0)

-- A name that stands for an option has the option's value, or none.
add_options-known :
    (key option : String) (credentials : Content)
    → HasDistinctKeys credentials
    → s3_pbm_option option ≡ some key
    → lookup key (get_pbm_configs credentials) ≡ lookup option credentials
unfolding get_pbm_configs
add_options-known key option credentials d e = elim (Option-cases (lookup option credentials)) [
  | inl lacks ↦ rw lacks (
      add_options-absent option key credentials _ e lacks
      ∙ ground (
        arith,
        (s3_pbm_option-IsNameFor option key e).1,
        eq_iff "storage.type" key,
        eq_iff key "storage.type",
      ))
  | inr (value, has) ↦ rw has (add_options-present option key value credentials _ d e has)
]

-- The configuration of PBM has, under each of PBM's seven names for an S3 option, the value that the
-- relation gives for that option (nothing if it gives none), the storage type S3, and no other
-- name. The keys of the information are distinct.
pub get_pbm_configs-values :
    (key : String) (credentials : Content)
    → HasDistinctKeys credentials
    → lookup key (get_pbm_configs credentials) ≡ wanted_value key credentials
unfolding get_pbm_configs wanted_value
get_pbm_configs-values key credentials d = elim (Bool-cases (key == "storage.type")) [
  | inl type ↦
      let e : key ≡ "storage.type" = (eq_iff key "storage.type").0 type in
      rw e (add_options-type credentials _ refl)
  | inr other ↦ elim (Option-cases (source_of key)) [
    | inl unknown ↦
        add_options-unknown key credentials _ unknown
        ∙ ground (arith, other, unknown, eq_iff "storage.type" key, eq_iff key "storage.type")
    | inr (option, known) ↦
        rw (other, known)
          (add_options-known key option credentials d (source_of-option key option known))
  ]
]
