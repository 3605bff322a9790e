-- ===== src/Core/Error.antt =====
-- The exceptions of exceptions.py and of the libraries, as far as some handler tells them apart.
use mongodb_k8s_operator.Prelude.{ℕ, String, Bool, true, false, Option, ◌≡◌, refl, ◌⊎◌, inl, inr}

-- `MissingSecretError`, `SecretNotAddedError` and `AdminUserCreationError` are src/exceptions.py's.
-- `not_ready` is `NotReadyError` of mongodb.py, a `PyMongoError`. `ServerSelectionTimeoutError`
-- is a subclass of `AutoReconnect`, as the text of that class in pymongo says.
pub data Error : Type 0 where
  admin_user_creation missing_secret secret_not_added : Error
  not_ready server_selection_timeout auto_reconnect : Error
  operation_failure : Option ℕ → Error
  pymongo : String → Error
  retry_error : Error
  exec_error : Option String → Error
  called_process_error : Option String → Error
  change_error path_error protocol_error model_error secret_not_found os_error snap_error : Error
  file_exists : Error
  resync set_pbm_config pbm_busy : Error
  value_error key_error index_error attribute_error type_error assertion_error : Error
  exception : String → Error

pub data Result {ℓ} (A : Type ℓ) : Type ℓ where
  ok : A → Result A
  err : Error → Result A

-- `except PyMongoError` catches it.
abbrev pub is_pymongo : Error → Bool
is_pymongo not_ready = true
is_pymongo server_selection_timeout = true
is_pymongo auto_reconnect = true
is_pymongo (operation_failure _) = true
is_pymongo (pymongo _) = true
is_pymongo _ = false

pub Result-cases {ℓ} :
    {A : Type ℓ} (r : Result A) → ((e : Error) × (r ≡ err e)) ⊎ ((a : A) × (r ≡ ok a))
Result-cases (ok a) = inr (a, refl)
Result-cases (err e) = inl (e, refl)
