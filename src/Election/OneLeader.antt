-- ===== src/Election/OneLeader.antt =====
-- One member over any sequence of events: no term is lower than one before, and a term has one leader.
use tdns_mp.Prelude.{List, [], arith, none, refl, some, true, ◌++◌, ◌<◌, ◌∷◌, ◌≡◌, ◌≤◌, ◌⊎◌}
use tdns_mp.Names.{Names}
use tdns_mp.Election.Model.{ElectionManager, LeaderElection, entry_of}
use tdns_mp.Election.Events.{
  ElectionEvent, after_event, after_events, all_as_voter, all_leave_term, as_voter, called,
  confirm_timeout, determined, gossiped, invalidated, leaves_term, received, renewal, retry,
  vote_timeout,
}
use tdns_mp.Election.Terms.{
  ComesAfter, ComesAfter-same, TermsFit, apply_gossip_election-after,
  determine_and_confirm_group-after, handle_group_message-after, invalidate_group_leader-after,
  on_group_confirm_timeout-after, on_group_vote_timeout-after, renewal_fired-after,
  retry_fired-after, start_group_election-after,
}

ComesAfter-trans : (e f g : LeaderElection) → ComesAfter e f → ComesAfter f g → ComesAfter e g
ComesAfter-trans e f g h k = ground (arith, h, k)

after_event-ComesAfter :
    (n : Names) (m : ElectionManager) (ev : ElectionEvent)
    → as_voter n m ev ≡ true
    → leaves_term m ev ≡ true
    → TermsFit (entry_of m)
    → ComesAfter (entry_of m) (entry_of (after_event n m ev).0)
unfolding after_event as_voter leaves_term
after_event-ComesAfter n m (called g armed vote now) a t h =
    start_group_election-after n m g armed vote now (ground (arith, t)) h
after_event-ComesAfter n m (renewal none armed vote now) a t h = ground (arith, a)
after_event-ComesAfter n m (renewal (some g) armed vote now) a t h =
    renewal_fired-after n m g armed vote now (ground (arith, t)) h
after_event-ComesAfter n m (retry none armed vote now) a t h = ground (arith, a)
after_event-ComesAfter n m (retry (some g) armed vote now) a t h =
    retry_fired-after n m g armed vote now (ground (arith, t)) h
after_event-ComesAfter n m (received g from msg vote now) a t h =
    handle_group_message-after n m g from msg vote now h
after_event-ComesAfter n m (determined g term members zones now) a t h =
    determine_and_confirm_group-after n m g term members zones now h
after_event-ComesAfter n m (vote_timeout g term members zones now) a t h =
    on_group_vote_timeout-after n m g term members zones now h
after_event-ComesAfter n m (confirm_timeout g term members zones now) a t h =
    on_group_confirm_timeout-after n m g term members zones now h
after_event-ComesAfter n m (gossiped g state now) a t h =
    apply_gossip_election-after n m g state now (ground (arith, a)) h
after_event-ComesAfter n m (invalidated now) a t h = invalidate_group_leader-after n m now h

after_events-ComesAfter :
    (n : Names) (m : ElectionManager) (evs : List ElectionEvent)
    → all_as_voter n m evs ≡ true
    → all_leave_term n m evs ≡ true
    → TermsFit (entry_of m)
    → ComesAfter (entry_of m) (entry_of (after_events n m evs))
unfolding after_events all_as_voter all_leave_term
after_events-ComesAfter n m [] a t h = ComesAfter-same (entry_of m) h
after_events-ComesAfter n m (ev ∷ evs) a t h =
    let step = after_event-ComesAfter n m ev (ground (arith, a)) (ground (arith, t)) h in
    let next = (after_event n m ev).0 in
    ComesAfter-trans (entry_of m) (entry_of next) (entry_of (after_events n next evs)) step
      (after_events-ComesAfter n next evs (ground (arith, a)) (ground (arith, t)) step.fits)

after_events-append :
    (n : Names) (m : ElectionManager) (before later : List ElectionEvent)
    → after_events n m (before ++ later) ≡ after_events n (after_events n m before) later
unfolding after_events
after_events-append n m [] later = refl
after_events-append n m (ev ∷ before) later =
    after_events-append n (after_event n m ev).0 before later

-- A member that has no entry for the group at first: whatever calls, votes and confirms it receives
-- from whomever, whatever timers fire and in whatever order, and whatever it hears by gossip as a
-- voting member, as long as the group is not gone and no election is started from the last term of
-- a uint64, 2 ^ 64 - 1 (a call may bring it there, and the next term would be 0): its term never
-- falls; and of its leader's terms at two times, the later is higher, or the same with the same
-- leader or none.
pub one_leader_lem :
    (n : Names) (m : ElectionManager) (before later : List ElectionEvent)
    → m.entry ≡ none
    → all_as_voter n m before ≡ true
    → all_as_voter n (after_events n m before) later ≡ true
    → all_leave_term n m before ≡ true
    → all_leave_term n (after_events n m before) later ≡ true
    → let e = entry_of (after_events n m before) in
      let f = entry_of (after_events n m (before ++ later)) in
      (e.term ≤ f.term)
      × ((e.leader_term < f.leader_term)
          ⊎ ((e.leader_term ≡ f.leader_term) × ((f.leader ≡ e.leader) ⊎ (f.leader ≡ []))))
unfolding entry_of
one_leader_lem n m before later none_yet a b t u =
    let fit : TermsFit (entry_of m) = ground (arith, none_yet) in
    let first = after_events-ComesAfter n m before a t fit in
    let second = after_events-ComesAfter n (after_events n m before) later b u first.fits in
    rw (after_events-append n m before later) (ground (arith, second))
