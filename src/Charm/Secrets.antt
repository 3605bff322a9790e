-- ===== src/Charm/Secrets.antt =====
-- Secrets, kept by Juju if it has secrets, and else in the databags of the peer relation.
pub mod Calls
pub mod Held
pub mod Backed
pub mod Writes
pub mod RoundTrip
pub mod Store
use mongodb_k8s_operator.Prelude.{
  String, Bool, true, false, not, ◌&&◌, ◌||◌, Option, none, some, List, [], ◌∷◌, ◌==◌,
  if◌then◌else◌,
}
use mongodb_k8s_operator.Core.Error.{
  Error, Result, ok, err, key_error, os_error, secret_not_added, secret_not_found,
}
use mongodb_k8s_operator.Core.Call.{
  Scope, app, unit, Content, peer_set, peer_delete, secret_add, secret_set,
}
use mongodb_k8s_operator.Core.World.{World, State, SecretSlot, Exec}
use mongodb_k8s_operator.Core.Exec.{
  ⊤, gets, modify, pure, raise, lift, catch, asks, tell, call, or_raise, ◌>>=◌, ◌>>◌,
}
use mongodb_k8s_operator.Core.Dict.{lookup, insert, has_key}
use mongodb_k8s_operator.Config.{secret_internal_label, secret_deleted_label}
use mongodb_k8s_operator.Charm.PeerData.{peer_data}

-- `self.secrets[scope]`
abbrev pub slot_of : Scope → State → SecretSlot
slot_of app s = s.app_slot
slot_of unit s = s.unit_slot

abbrev pub get_slot : Scope → Exec SecretSlot
get_slot scope = gets (slot_of scope)

abbrev pub put_slot : Scope → SecretSlot → State → State
put_slot scope slot s = record s {
  app_slot = elim scope [ app ↦ slot | unit ↦ s.app_slot ];
  unit_slot = elim scope [ app ↦ s.unit_slot | unit ↦ slot ];
}

abbrev pub set_slot : Scope → SecretSlot → Exec ⊤
set_slot scope slot = modify (put_slot scope slot)

abbrev pub is_filled : Option Content → Bool
is_filled none = false
is_filled (some []) = false
is_filled (some (entry ∷ content)) = true

-- `if secret_data and secret_data != SECRET_DELETED_LABEL`
abbrev pub live : Option String → Option String
live none = none
live (some value) = if value == "" || value == secret_deleted_label then none else some value

abbrev pub from_cache : String → Option Content → Option String
from_cache key none = none
from_cache key (some content) = live (lookup key content)

-- `except SecretNotFoundError`
abbrev pub not_found : Error → Exec (Option String)
not_found secret_not_found = pure none
not_found e = raise e

-- `except OSError`
abbrev pub not_written : Error → Exec ⊤
not_written os_error = pure tt
not_written e = raise e

-- `peer_data.get(SECRET_INTERNAL_LABEL)`, if it is not empty.
abbrev pub label_of : Content → Option String
label_of bag = elim (lookup secret_internal_label bag) [
  | none ↦ none
  | some id ↦ if id == "" then none else some id
]

abbrev pub same_value : Option String → String → Bool
same_value none value = false
same_value (some old) value = old == value

module _ (w : World) where
  module _ (scope : Scope) where
    -- The secret object is kept first, then its content.
    keep_secret : Option String → Exec Bool
    keep_secret none = pure false
    keep_secret (some id) = do
      slot ← get_slot scope
      set_slot scope (record slot { secret = some id })
      trace ← asks (λ t. w.secret_content t id)
      content ← lift trace
      set_slot scope (record { secret = some id; cache = some content })
      pure (is_filled (some content))

    download : String → Exec Bool
    unfolding keep_secret
    download label = do
      answer ← asks (λ t. w.secret_id t label)
      found ← catch (do id ← lift answer; pure (some id)) not_found
      keep_secret found

    cached_or_download : String → Option Content → Exec Bool
    unfolding download
    cached_or_download label none = download label
    cached_or_download label (some content) = pure (is_filled (some content))

    labelled : Option String → Exec Bool
    unfolding cached_or_download
    labelled none = pure false
    labelled (some label) = do slot ← get_slot scope; cached_or_download label slot.cache

    -- `_juju_secrets_get`; `None` and `False` are one to its callers.
    unfoldable pub juju_secrets_get : Exec Bool
    unfolding labelled peer_data
    juju_secrets_get = do bag ← peer_data w scope; labelled (label_of bag)

    unfoldable pub juju_secret_get_key : String → Exec (Option String)
    unfolding juju_secrets_get
    juju_secret_get_key key = if key == "" then pure none else do
      available ← juju_secrets_get
      slot ← get_slot scope
      pure (if available then from_cache key slot.cache else none)

    unfoldable pub get_secret : String → Exec (Option String)
    unfolding juju_secret_get_key peer_data
    get_secret key = do
      bag ← peer_data w scope
      if w.has_secrets then juju_secret_get_key key else pure (lookup key bag)

    -- A secret that is there gets one more key, if the value is new.
    unfoldable pub update_secret : String → String → String → Content → Exec String
    update_secret key value id content =
        if same_value (lookup key content) value then pure id else do
          set_slot scope (record { secret = some id; cache = some (insert key value content) })
          catch (call (secret_set id (insert key value content)) w.secret_written) not_written
          pure id

    unfoldable pub create_secret : String → String → Exec String
    create_secret key value = do
      added ← call (secret_add scope ((key, value) ∷ [])) (λ t. ok (w.secret_added t))
      id ← or_raise added secret_not_added
      set_slot scope (record { secret = some id; cache = some ((key, value) ∷ []) })
      tell (peer_set scope secret_internal_label id)
      pure id

    unfoldable pub set_in_slot : String → String → SecretSlot → Exec String
    unfolding update_secret create_secret
    set_in_slot key value slot = elim slot.secret [
      | none ↦ create_secret key value
      | some id ↦ do content ← or_raise slot.cache key_error; update_secret key value id content
    ]

    unfoldable pub juju_secret_set : String → String → Exec String
    juju_secret_set key value = do
      peer_data w scope
      juju_secrets_get
      slot ← get_slot scope
      set_in_slot key value slot

    unfoldable pub mark_deleted : String → String → Content → Exec ⊤
    mark_deleted key id content = do
      set_slot scope
          (record { secret = some id; cache = some (insert key secret_deleted_label content) })
      call (secret_set id (insert key secret_deleted_label content)) w.secret_written

    unfoldable pub remove_from_slot : String → SecretSlot → Exec ⊤
    unfolding mark_deleted
    remove_from_slot key slot = elim slot.secret [
      | none ↦ pure tt
      | some id ↦ elim slot.cache [
        | none ↦ pure tt
        | some content ↦ if has_key key content then mark_deleted key id content else pure tt
      ]
    ]

    unfoldable pub juju_secret_remove : String → Exec ⊤
    juju_secret_remove key = do juju_secrets_get; slot ← get_slot scope; remove_from_slot key slot

    unfoldable pub remove_secret : String → Exec ⊤
    remove_secret key =
        if w.has_secrets
        then juju_secret_remove key
        else peer_data w scope >> tell (peer_delete scope key)

    unfoldable pub set_value : String → String → Exec (Option String)
    set_value key value =
        if w.has_secrets
        then (do id ← juju_secret_set key value; pure (some id))
        else (do peer_data w scope; tell (peer_set scope key value); pure none)

    -- `set_secret`: an empty value, or none, removes the secret.
    unfoldable pub set_secret : String → Option String → Exec (Option String)
    set_secret key none = do remove_secret key; pure none
    set_secret key (some value) =
        if value == "" then (do remove_secret key; pure none) else set_value key value
