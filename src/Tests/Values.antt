-- ===== src/Tests/Values.antt =====
-- The theorems on names, texts and options, and on a follower, at concrete values.
use mongodb_k8s_operator.Prelude.{String, ◌≡◌, refl, true, false, none, some, [], ◌∷◌, arith}
use mongodb_k8s_operator.Text.{append, split, first}
use mongodb_k8s_operator.Core.Error.{ok}
use mongodb_k8s_operator.Core.Call.{Content}
use mongodb_k8s_operator.Core.World.{World}
use mongodb_k8s_operator.Core.Event.{peer_departed}
use mongodb_k8s_operator.Core.Safe.{Emits}
use mongodb_k8s_operator.Core.Dict.{lookup}
use mongodb_k8s_operator.Core.Sets.{contains}
use mongodb_k8s_operator.Samples.{
  world, fresh, operator_config, ascii_digit, ascii_digit-ReadsAscii,
}
use mongodb_k8s_operator.Charm.Reconcile.{relation_changes_handler}
use mongodb_k8s_operator.Charm.Reconcile.Follower.{
  FollowerMay, RefreshMay, relation_changes-follower, on_secret_changed-Emits,
}
use mongodb_k8s_operator.Charm.Actions.{on_secret_changed}
use mongodb_k8s_operator.Config.{secret_internal_label}
use mongodb_k8s_operator.Core.Call.{Scope, app, unit}
use mongodb_k8s_operator.Charm.SecretIds.{compare_secret_ids}
use mongodb_k8s_operator.Charm.SecretIds.Forms.{IsPlain, bare, short, compare_secret_ids-forms}
use mongodb_k8s_operator.Provider.Relations.{diff_of}
use mongodb_k8s_operator.Provider.Relations.Changes.{diff_of-keys}
use mongodb_k8s_operator.Mongodb.Configuration.{MongodbConfiguration, uri, userinfo}
use mongodb_k8s_operator.Mongodb.Configuration.Uri.{uri_credentials}
use mongodb_k8s_operator.Mongodb.Quote.{quote_plus}
use mongodb_k8s_operator.Mongodb.Names.{
  relation_id_of, get_username_from_relation_id, relation_id_of-username,
}
use mongodb_k8s_operator.Mongodb.Hosts.{get_hostname_for_unit, hostname_from_hostport}
use mongodb_k8s_operator.Mongodb.Hosts.Members.{hostname_of_unit}
use mongodb_k8s_operator.Helpers.Random.{generate_password, generate_keyfile}
use mongodb_k8s_operator.Helpers.Random.Passwords.{length_of, generated_texts}
use mongodb_k8s_operator.Helpers.Args.{mongod_cmd, cluster_auth_mode}
use mongodb_k8s_operator.Backups.Options.{get_pbm_configs}
use mongodb_k8s_operator.Backups.Options.Keys.{get_pbm_configs-values, wanted_value, source_of}

abbrev follower : World
follower = record world { is_leader = λ t. false }

relation_changes-follower_example :
    Emits FollowerMay (relation_changes_handler follower (peer_departed "mongodb-k8s/0" none))
relation_changes-follower_example =
    relation_changes-follower follower (peer_departed "mongodb-k8s/0" none) (λ t. refl)

abc-IsPlain : IsPlain "abc"
abc-IsPlain = record { no_slash = refl; no_colon = refl; one_line = refl }

compare_secret_ids-forms_example : compare_secret_ids "secret:abc" (some "abc") ≡ true
compare_secret_ids-forms_example =
    compare_secret_ids-forms {id1 = "abc"} {id2 = "abc"} {t1 = "secret:abc"} {t2 = "abc"} short bare
      abc-IsPlain abc-IsPlain (λ h. cc) (λ h. cc)

abbrev old_bag : Content
old_bag = ("database", "shop") ∷ ("gone", "x") ∷ []

abbrev new_bag : Content
new_bag = ("database", "store") ∷ ("roles", "admin") ∷ []

diff_of-keys_example :
    (contains (diff_of old_bag new_bag).added "roles" ≡ true)
    × (contains (diff_of old_bag new_bag).deleted "roles" ≡ false)
    × (contains (diff_of old_bag new_bag).changed "roles" ≡ false)
diff_of-keys_example = diff_of-keys old_bag new_bag "roles" (refl, (refl, tt))

uri_credentials_example :
    (text : String) × (uri world operator_config ≡ ok text)
    × (first (split b'@' text) ≡ append "mongodb://" (userinfo operator_config))
    × (first (split b':' (userinfo operator_config)) ≡ quote_plus "operator")
uri_credentials_example = uri_credentials world operator_config "admin" refl

relation_id_of-username_example :
    relation_id_of ascii_digit (get_username_from_relation_id 12) ≡ some 12
relation_id_of-username_example = relation_id_of-username ascii_digit 12 ascii_digit-ReadsAscii

hostname_of_unit_example :
    (host : String) × (get_hostname_for_unit "mongodb-k8s" "mongodb-k8s/1" ≡ ok host)
    × (hostname_from_hostport (append host ":27017") ≡ host)
hostname_of_unit_example = hostname_of_unit "mongodb-k8s" "1" "27017" refl refl refl refl

generated_texts_example :
    ((p : String) × ((generate_password world fresh).0 ≡ ok p)
      × (length_of p ≡ 32)
      × (quote_plus p ≡ p))
    × ((k : String) × ((generate_keyfile world fresh).0 ≡ ok k)
        × (length_of k ≡ 1024)
        × (quote_plus k ≡ k))
generated_texts_example = generated_texts world fresh (λ t i. omega arith)

abbrev internal_only : MongodbConfiguration
internal_only = record operator_config { tls_internal = true }

cluster_auth_mode_example :
    (contains (mongod_cmd internal_only true false) "--clusterAuthMode=keyFile" ≡ false)
    × (contains (mongod_cmd internal_only true false) "--clusterAuthMode=x509" ≡ false)
cluster_auth_mode_example = cluster_auth_mode internal_only false

abbrev s3_credentials : Content
s3_credentials = ("bucket", "backups") ∷ ("unknown", "x") ∷ ("region", "here") ∷ []

get_pbm_configs-values_example :
    lookup "storage.s3.region" (get_pbm_configs s3_credentials) ≡ some "here"
unfolding wanted_value source_of
get_pbm_configs-values_example =
    get_pbm_configs-values "storage.s3.region" s3_credentials (refl, (refl, (refl, tt)))

-- The application's secret is known, and the databags stay as they are.
abbrev labelled : Scope → Content
labelled app = (secret_internal_label, "secret:abc") ∷ []
labelled unit = []

abbrev labelled_world : World
labelled_world = record world { peer_data = λ t. labelled }

on_secret_changed-Emits_example :
    Emits (RefreshMay labelled "secret:abc") (on_secret_changed labelled_world "secret:abc")
on_secret_changed-Emits_example =
    on_secret_changed-Emits labelled_world labelled "secret:abc" (λ t. refl) (λ t scope. refl)
