-- ===== src/Election/Events.antt =====
-- What can happen to a group's election at one agent, and what it does.
use tdns_mp.Prelude.{Bool, List, Option, Str, [], is_some, ltb, not, true, ℕ, ◌&&◌, ◌+◌, ◌∷◌}
use tdns_mp.Names.{Names}
use tdns_mp.Gossip.Model.{GroupElectionState}
use tdns_mp.Election.Model.{Effect, ElectMsg, ElectionManager, GroupNow, entry_of, two_64}
use tdns_mp.Election.Manager.{
  determine_and_confirm_group, handle_group_message, invalidate_group_leader,
  on_group_confirm_timeout, on_group_vote_timeout, renewal_fired, retry_fired, start_group_election,
}
use tdns_mp.Election.Heard.{apply_gossip_election, is_observer}

pub data ElectionEvent : Type 0 where
  called : Option GroupNow → Option ℕ → ℕ → ℕ → ElectionEvent
  renewal : Option GroupNow → ℕ → ℕ → ℕ → ElectionEvent
  retry : Option GroupNow → ℕ → ℕ → ℕ → ElectionEvent
  received : Option GroupNow → Str → ElectMsg → ℕ → ℕ → ElectionEvent
  determined : Option GroupNow → ℕ → List Str → List Str → ℕ → ElectionEvent
  vote_timeout : Option GroupNow → ℕ → List Str → List Str → ℕ → ElectionEvent
  confirm_timeout : Option GroupNow → ℕ → List Str → List Str → ℕ → ElectionEvent
  gossiped : Option GroupNow → GroupElectionState → ℕ → ElectionEvent
  invalidated : ℕ → ElectionEvent

unfoldable pub after_event : Names → ElectionManager → ElectionEvent → ElectionManager × List Effect
after_event n m (called g armed vote now) = start_group_election n m g armed vote now
after_event n m (renewal g armed vote now) = renewal_fired n m g armed vote now
after_event n m (retry g armed vote now) = retry_fired n m g armed vote now
after_event n m (received g from msg vote now) = handle_group_message n m g from msg vote now
after_event n m (determined g term members zones now) =
    determine_and_confirm_group n m g term members zones now
after_event n m (vote_timeout g term members zones now) =
    on_group_vote_timeout n m g term members zones now
after_event n m (confirm_timeout g term members zones now) =
    on_group_confirm_timeout n m g term members zones now
after_event n m (gossiped g state now) = apply_gossip_election n m g state now
after_event n m (invalidated now) = invalidate_group_leader m now

unfoldable pub after_events : Names → ElectionManager → List ElectionEvent → ElectionManager
unfolding after_event
after_events n m [] = m
after_events n m (ev ∷ evs) = after_events n (after_event n m ev).0 evs

-- The group is not gone, and what is heard by gossip is heard as a voting member. (A retry whose
-- group is gone drops the entry, and with it the terms.)
unfoldable pub as_voter : Names → ElectionManager → ElectionEvent → Bool
unfolding is_observer
as_voter n m (gossiped g state now) = not (is_observer n m g)
as_voter n m (renewal g armed vote now) = is_some g
as_voter n m (retry g armed vote now) = is_some g
as_voter n m _ = true

-- So for each event of a sequence.
unfoldable pub all_as_voter : Names → ElectionManager → List ElectionEvent → Bool
unfolding as_voter after_event
all_as_voter n m [] = true
all_as_voter n m (ev ∷ evs) = as_voter n m ev && all_as_voter n (after_event n m ev).0 evs

-- An event that may start an election does not find the last term of a uint64, from which the next
-- one would be 0.
unfoldable pub leaves_term : ElectionManager → ElectionEvent → Bool
unfolding entry_of
leaves_term m (called g armed vote now) = ltb ((entry_of m).term + 1) two_64
leaves_term m (renewal g armed vote now) = ltb ((entry_of m).term + 1) two_64
leaves_term m (retry g armed vote now) = ltb ((entry_of m).term + 1) two_64
leaves_term m _ = true

-- So for each event of a sequence.
unfoldable pub all_leave_term : Names → ElectionManager → List ElectionEvent → Bool
unfolding leaves_term after_event
all_leave_term n m [] = true
all_leave_term n m (ev ∷ evs) = leaves_term m ev && all_leave_term n (after_event n m ev).0 evs
