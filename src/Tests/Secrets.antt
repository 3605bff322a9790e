-- ===== src/Tests/Secrets.antt =====
-- The theorems on secrets, on a Juju that keeps what is written to it.
use mongodb_k8s_operator.Prelude.{
  String, ◌≡◌, refl, some, inl, List, [], ◌∷◌, ◌==◌, eq_refl, if◌then◌else◌,
}
use mongodb_k8s_operator.Core.Error.{Result, ok}
use mongodb_k8s_operator.Core.Call.{Call, Content, app, secret_set, secret_add}
use mongodb_k8s_operator.Core.World.{World}
use mongodb_k8s_operator.Core.Exec.{◌>>=◌}
use mongodb_k8s_operator.Charm.PeerData.{peer_data}
use mongodb_k8s_operator.Charm.Secrets.{
  get_secret, set_secret, remove_secret, set_value, juju_secret_set, juju_secrets_get, set_in_slot,
  create_secret, update_secret,
}
use mongodb_k8s_operator.Charm.Secrets.Held.{KeepsPeerData}
use mongodb_k8s_operator.Charm.Secrets.Backed.{KeepsSecrets, Backed, ReadsAs}
use mongodb_k8s_operator.Charm.Secrets.RoundTrip.{set-get, remove-get, set-get-others}
use mongodb_k8s_operator.Samples.{world, fresh, stored, holding, world-KeepsPeerData}

abbrev content_after : List Call → String → Result Content
content_after [] id = ok stored
content_after (secret_set other c ∷ t) id =
    let rest = content_after t id in if other == id then ok c else rest
content_after (secret_add scope c ∷ t) id =
    let rest = content_after t id in if "secret:abc" == id then ok c else rest
content_after (c ∷ t) id = content_after t id

abbrev juju : World
juju = record world { secret_content = content_after }

juju-KeepsPeerData : KeepsPeerData juju
juju-KeepsPeerData = record {
  written = world-KeepsPeerData.written;
  after_secret_set = world-KeepsPeerData.after_secret_set;
  after_draw = world-KeepsPeerData.after_draw;
  relation_stays = world-KeepsPeerData.relation_stays;
  added_named = world-KeepsPeerData.added_named;
}

juju-KeepsSecrets : KeepsSecrets juju
juju-KeepsSecrets = record {
  accepts = λ t. refl;
  written = λ id c t e. rw (eq_refl id) refl;
  added = λ scope c t id e. let same : "secret:abc" ≡ id = cc in rw (← same) refl;
  found = λ scope c t id e. refl;
  content_stays = λ scope k v id t. refl;
  name_stays = λ scope k v label t. refl;
  name_kept = λ id c label t. refl;
}

holding-Backed : Backed juju app stored holding
holding-Backed = record {
  id = "secret:abc";
  label = "secret:abc";
  slot = refl;
  labelled = refl;
  related = refl;
  named = refl;
  there = refl;
}

set-get_example :
    ReadsAs juju app "keyfile"
      (set_secret juju app "keyfile" (some "abc") fresh).1
      (ok (some "abc"))
unfolding set_secret set_value juju_secret_set juju_secrets_get set_in_slot create_secret peer_data
    ◌>>=◌
set-get_example =
    set-get juju juju-KeepsPeerData juju-KeepsSecrets app "keyfile" "abc" fresh (some "secret:abc")
      refl refl (inl refl) (λ h. cc) (λ h. cc) refl

remove-get_example :
    ReadsAs juju app "operator-password"
      (remove_secret juju app "keyfile" holding).1
      (get_secret juju app "operator-password" holding).0
remove-get_example =
    remove-get juju juju-KeepsPeerData juju-KeepsSecrets app "keyfile" stored holding
      "operator-password" refl holding-Backed (λ h. cc)

set-get-others_example :
    ReadsAs juju app "operator-password"
      (set_secret juju app "keyfile" (some "new") holding).1
      (get_secret juju app "operator-password" holding).0
unfolding set_secret set_value juju_secret_set juju_secrets_get set_in_slot update_secret peer_data
    ◌>>=◌
set-get-others_example =
    set-get-others juju juju-KeepsPeerData juju-KeepsSecrets app "keyfile" stored holding "new"
      "operator-password" (some "secret:abc") refl holding-Backed (λ h. cc) (λ h. cc) refl
