-- ===== src/Backups/Options.antt =====
-- `_get_pbm_configs`: the options of PBM, from the connection information of the S3 relation.
pub mod Keys
use mongodb_k8s_operator.Prelude.{String, Option, none, some, List, [], ◌∷◌, ◌==◌, if◌then◌else◌}
use mongodb_k8s_operator.Core.Call.{Content}
use mongodb_k8s_operator.Core.Dict.{insert}

-- `S3_PBM_OPTION_MAP`
unfoldable pub s3_pbm_option : String → Option String
s3_pbm_option option =
    if option == "region"
    then some "storage.s3.region"
    else if option == "bucket"
    then some "storage.s3.bucket"
    else if option == "path"
    then some "storage.s3.prefix"
    else if option == "access-key"
    then some "storage.s3.credentials.access-key-id"
    else if option == "secret-key"
    then some "storage.s3.credentials.secret-access-key"
    else if option == "endpoint"
    then some "storage.s3.endpointUrl"
    else if option == "storage-class"
    then some "storage.s3.storageClass"
    else none

abbrev pub insert_if : Option String → String → Content → Content
insert_if none value configs = configs
insert_if (some key) value configs = insert key value configs

-- The loop over the items.
unfoldable pub add_options : Content → Content → Content
add_options [] configs = configs
add_options ((option, value) ∷ credentials) configs =
    add_options credentials (insert_if (s3_pbm_option option) value configs)

-- `_get_pbm_configs`, from the connection information.
unfoldable pub get_pbm_configs : Content → Content
unfolding add_options
get_pbm_configs credentials = add_options credentials (("storage.type", "s3") ∷ [])
