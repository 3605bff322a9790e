-- ===== src/Charm/Lifecycle/Stop.antt =====
-- The wait of a unit that stops.
use mongodb_k8s_operator.Prelude.{
  ℕ, zero, suc, ◌≡◌, refl, ap, Bool, true, false, some, List, ◌∷◌, arith, Bool-cases, inl, inr,
}
use mongodb_k8s_operator.Core.Error.{Error, Result, ok, err, Result-cases}
use mongodb_k8s_operator.Core.Call.{Call, unit, peer_set, sleep}
use mongodb_k8s_operator.Core.World.{World, State}
use mongodb_k8s_operator.Core.Exec.{⊤, ◌>>=◌}
use mongodb_k8s_operator.Core.Dict.{lookup}
use mongodb_k8s_operator.Config.{peers}
use mongodb_k8s_operator.Charm.PeerData.{peer_data_or_empty, write_peer_data}
use mongodb_k8s_operator.Charm.Lifecycle.{
  is_unit_in_replica_set, wait_for_removal, on_stop, unit_removal_timeout,
}

-- The state after one round: the question, and a second of sleep.
abbrev pub rested : State → State
rested s = record s { trace = sleep 1 ∷ s.trace }

abbrev result : Result ⊤ × State → Result ⊤
result out = out.0

module _ (w : World) where
  wait_step :
      (timeout : ℕ) (s : State) (member : Bool)
      → (is_unit_in_replica_set w s).0 ≡ ok member
      → (member ≡ true
          → wait_for_removal w (suc timeout) s
            ≡ wait_for_removal w timeout (rested (is_unit_in_replica_set w s).1))
        × (member ≡ false
            → wait_for_removal w (suc timeout) s ≡ (ok tt, rested (is_unit_in_replica_set w s).1))
  unfolding wait_for_removal ◌>>=◌
  wait_step timeout s member e = (λ h. ground arith, λ h. ground arith)

  wait_for_removal-err :
      (timeout : ℕ) (s : State) (e : Error)
      → (wait_for_removal w timeout s).0 ≡ err e
      → (t : State) × ((is_unit_in_replica_set w t).0 ≡ err e)
  unfolding wait_for_removal ◌>>=◌
  wait_for_removal-err zero s e h = cc
  wait_for_removal-err (suc timeout) s e h = elim (Result-cases (is_unit_in_replica_set w s).0) [
    | inl (e', failed) ↦ (s, ground arith)
    | inr (member, answered) ↦ elim (Bool-cases member) [
      | inl stays ↦
          wait_for_removal-err timeout (rested (is_unit_in_replica_set w s).1) e
            (rw ((wait_step timeout s member answered).0 stays) at h)
      | inr gone ↦ let ends = (wait_step timeout s member answered).1 gone in cc (ap result ends)
    ]
  ]

  -- In the states that a property marks out, mongod reports the unit as a member, and the next round
  -- begins in such a state too.
  pub record StaysMember (During : State → Type 0) : Type 0 where
    pub reported : (t : State) → During t → (is_unit_in_replica_set w t).0 ≡ ok true
    pub next : (t : State) → During t → During (rested (is_unit_in_replica_set w t).1)

  wait_still_member :
      {During : State → Type 0} (stays : StaysMember During) (timeout : ℕ) (s : State)
      → During s
      → (wait_for_removal w timeout s).0 ≡ ok tt
  wait_still_member stays zero s d = unfold wait_for_removal ◌>>=◌ in refl
  wait_still_member stays (suc timeout) s d =
      rw ((wait_step timeout s true (stays.reported s d)).0 refl)
        (wait_still_member stays timeout _ (stays.next s d))

  -- A unit that stops raises no error of its own: if `on_stop` raises, then a question whether the
  -- unit is a member raised that error. So the wait never ends in a timeout error.
  pub on_stop-err :
      (s : State) (e : Error)
      → (on_stop w s).0 ≡ err e
      → (t : State) × ((is_unit_in_replica_set w t).0 ≡ err e)
  unfolding on_stop peer_data_or_empty write_peer_data ◌>>=◌
  on_stop-err s e h = elim (Result-cases (wait_for_removal w unit_removal_timeout s).0) [
    | inl (e', failed) ↦
        let (t, asked) = wait_for_removal-err unit_removal_timeout s e' failed in
        (t, ground (arith, asked, failed, h))
    | inr (done, waited) ↦ ground (arith, waited, h)
  ]

  -- A departed unit that mongod reports as a member in each round stops all the same, and takes its
  -- mark back with its last call. The conditions: the rounds go through states in which the question
  -- is answered so, with what the charm has in memory there, the peer relation stays, and the mark
  -- is there.
  pub on_stop_still_member :
      (During : State → Type 0) (s : State)
      → StaysMember During
      → During s
      → ((t : List Call) → w.has_relation t peers ≡ true)
      → lookup "unit_departed" (w.peer_data s.trace unit) ≡ some "True"
      → ((on_stop w s).0 ≡ ok tt)
        × ((on_stop w s).1.trace
            ≡ peer_set unit "unit_departed" ""
              ∷ (wait_for_removal w unit_removal_timeout s).1.trace)
  unfolding on_stop peer_data_or_empty write_peer_data ◌>>=◌
  on_stop_still_member During s stays first related marked = ground (
    arith,
    wait_still_member stays unit_removal_timeout s first,
    related s.trace,
    related (wait_for_removal w unit_removal_timeout s).1.trace,
  )
