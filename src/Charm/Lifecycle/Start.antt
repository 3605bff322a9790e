-- ===== src/Charm/Lifecycle/Start.antt =====
-- Updating the user of a relation on the start event.
use mongodb_k8s_operator.Prelude.{String, ◌≢◌, none}
use mongodb_k8s_operator.Core.Error.{ok}
use mongodb_k8s_operator.Core.Call.{Connection}
use mongodb_k8s_operator.Core.Event.{plain}
use mongodb_k8s_operator.Core.World.{World, State}
use mongodb_k8s_operator.Core.Exec.{bind-ne-ok, pure, ◌>>=◌, ◌>>◌}
use mongodb_k8s_operator.Mongodb.Accounts.{update_user}
use mongodb_k8s_operator.Provider.Relations.{diff}
use mongodb_k8s_operator.Provider.Users.{get_config, update_relation_user}

diff_at_start-ne-ok :
    (w : World) (t : State) → ((diff w plain >> pure {A = Unit {0}} tt) t).0 ≢ ok tt
unfolding diff ◌>>=◌
diff_at_start-ne-ok w t = λ h. cc

-- The start event has no relation: updating the user of a relation on it never succeeds, whatever
-- the world answers.
pub update_at_start :
    (w : World) (conn : Connection) (username : String) (s : State)
    → (update_relation_user w conn plain username s).0 ≢ ok tt
unfolding update_relation_user
update_at_start w conn username =
    bind-ne-ok (get_config w username none) _ tt
      λ config. bind-ne-ok (update_user w conn config) _ tt λ _. diff_at_start-ne-ok w
