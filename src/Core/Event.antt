-- ===== src/Core/Event.antt =====
-- The events that the handlers receive, by what the handlers read of them.
use mongodb_k8s_operator.Prelude.{ℕ, String, Option}

pub data Event : Type 0 where
  -- an event of a client relation, by the relation's id
  relation_joined relation_changed relation_broken : ℕ → Event
  -- a unit leaves the peer relation: the unit that departs, and `event.unit`
  peer_departed : String → Option String → Event
  -- start, leader-elected, update-status, peers joined and changed
  plain : Event
