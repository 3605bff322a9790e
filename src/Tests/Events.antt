-- ===== src/Tests/Events.antt =====
-- The theorems on sequences of events, on the small application.
use mongodb_k8s_operator.Prelude.{some, none, refl, false}
use mongodb_k8s_operator.Core.World.{World, State}
use mongodb_k8s_operator.Core.Safe.{Extends}
use mongodb_k8s_operator.Core.Retry.{Retries, Attempts}
use mongodb_k8s_operator.Charm.Dispatch.{
  process_event, start_of, after, start, certificates_joined, client_broken, update_status,
  set_password_action,
}
use mongodb_k8s_operator.Charm.Dispatch.Work.{UnitMay}
use mongodb_k8s_operator.Charm.Dispatch.Followers.{followers_only_read}
use mongodb_k8s_operator.Charm.Dispatch.Harmless.{CharmMay}
use mongodb_k8s_operator.Charm.Dispatch.Invariant.{events-Harmless}
use mongodb_k8s_operator.Samples.{
  world, fresh, world-Retries, world-ReportsDistinctIds, world-Orders, ascii_digit-ReadsAscii,
}

abbrev follower : World
follower = record world { is_leader = λ t. false }

follower-Retries : Retries follower
follower-Retries = record {
  attempts =
      λ stop reraise retried body s. (body s, Attempts.last refl, refl, λ done. done, λ done. done);
}

abbrev follower_state : State
follower_state =
    process_event follower certificates_joined
      (process_event follower (client_broken 7) (process_event follower start fresh))

followers_only_read_example : Extends UnitMay fresh.trace follower_state.trace
followers_only_read_example =
    followers_only_read follower (λ t. refl) fresh follower_state follower-Retries
      (after certificates_joined (after (client_broken 7) (after start start_of)))

abbrev leader_state : State
leader_state =
    process_event world (set_password_action (some "monitor") none)
      (process_event world update_status (process_event world (client_broken 7) fresh))

events-Harmless_example : Extends (CharmMay world) fresh.trace leader_state.trace
events-Harmless_example =
    events-Harmless world fresh leader_state world-Retries world-ReportsDistinctIds world-Orders
      ascii_digit-ReadsAscii
      (after (set_password_action (some "monitor") none)
        (after update_status (after (client_broken 7) start_of)))
