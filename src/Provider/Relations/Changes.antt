-- ===== src/Provider/Relations/Changes.antt =====
-- The difference of two databags.
use mongodb_k8s_operator.Prelude.{
  String, ◌≡◌, refl, Bool, false, ◌&&◌, not, none, [], ◌∷◌, arith, ◌==◌, eq_iff, Bool-cases, inl,
  inr,
}
use mongodb_k8s_operator.Core.Call.{Content}
use mongodb_k8s_operator.Core.Dict.{lookup, has_key, HasDistinctKeys}
use mongodb_k8s_operator.Core.Sets.{contains, contains-difference}
use mongodb_k8s_operator.Provider.Relations.{keys, changed_keys, same_value, diff_of}

contains-keys : (d : Content) (k : String) → contains (keys d) k ≡ has_key k d
unfolding contains keys
contains-keys [] k = refl
contains-keys ((j, v) ∷ d) k = ground (arith, contains-keys d k)

-- The values of a key differ.
abbrev pub differs : String → Content → Content → Bool
differs k old new = has_key k old && has_key k new && not (same_value (lookup k old) (lookup k new))

contains-changed_keys :
    (old new : Content) (k : String)
    → HasDistinctKeys old
    → contains (changed_keys old new) k ≡ differs k old new
unfolding contains changed_keys
contains-changed_keys [] new k h = refl
contains-changed_keys ((j, v) ∷ old) new k h = elim (Bool-cases (j == k)) [
  | inl same ↦
      let e : j ≡ k = (eq_iff j k).0 same in
      rw e (
        ground
          (arith, contains-changed_keys old new k h.1, eq_iff k k, has_no_key k old (rw e at h.0)))
  | inr other ↦ ground (arith, other, contains-changed_keys old new k h.1)
]
  where
    has_no_key : (k : String) (d : Content) → has_key k d ≡ false → lookup k d ≡ none
    has_no_key k d h = ground arith

-- A key is added, deleted or changed exactly as the two databags say, at every key. The old databag
-- has distinct keys.
pub diff_of-keys :
    (old new : Content) (k : String)
    → HasDistinctKeys old
    → (contains (diff_of old new).added k ≡ (has_key k new && not (has_key k old)))
      × (contains (diff_of old new).deleted k ≡ (has_key k old && not (has_key k new)))
      × (contains (diff_of old new).changed k ≡ differs k old new)
unfolding diff_of
diff_of-keys old new k h = (
  rw (contains-difference, contains-keys, contains-keys),
  rw (contains-difference, contains-keys, contains-keys),
  contains-changed_keys old new k h,
)
