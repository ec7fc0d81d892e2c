-- ===== src/Election/Manager.antt =====
-- v2/parentsync_leader.go: the election manager's operations for one group: starting an election, a
-- message of a peer and the timers. `group` is the group as the group manager has it, `none` when
-- it is gone; its voters are those that the gate counts.
use tdns_mp.Prelude.{
  Bool, List, Option, Str, [], false, if◌then◌else◌, is_empty, is_none, leb, length, ltb, none, not,
  put, some, true, ℕ, ◌++◌, ◌+◌, ◌==◌, ◌||◌,
}
use tdns_mp.Names.{Names}
use tdns_mp.Instructions.Sets.{is_among, members}
use tdns_mp.Gossip.Model.{GroupElectionState, no_election}
use tdns_mp.Election.Model.{
  Effect, ElectMsg, ElectionManager, GroupNow, LeaderElection, determine_winner, elect_call,
  elect_confirm, elect_vote, entry_of, read_msg, send, uint32, with_entry,
}
use tdns_mp.Election.Lead.{note_leader, retry_group_election}
use tdns_mp.Election.Rounds.{
  begin_election, finalize_group_election, handle_group_call, handle_group_vote, moved_on,
  self_elect,
}

unfoldable pub group_gone : ElectionManager → ElectionManager
group_gone m = record m { entry = none }

unfoldable pub invalidate_group_leader : ElectionManager → ℕ → ElectionManager × List Effect
unfolding note_leader
invalidate_group_leader m now = elim (m.entry) [
  | none ↦ (m, [])
  | some e ↦
      if is_empty e.leader
      then (m, [])
      else (let (noted, leads, effects) = note_leader m.local_id m.leads e [] now in
          (
            record m {
              leads = leads;
              entry = some (record noted { leader = []; reelect_timer = none });
            },
            effects,
          ))
]

-- What the election is told to the peers as: the record, whether it is decided, and whether it is
-- this member's own.
unfoldable pub group_election_for_gossip : ElectionManager → GroupElectionState × Bool × Bool
group_election_for_gossip m = elim (m.entry) [
  | none ↦ (no_election, false, false)
  | some e ↦
      if e.term == 0
      then (no_election, false, false)
      else if e.active || is_empty e.leader || not (e.leader_term == e.term)
      then (no_election, false, true)
      else (
        record { leader = e.leader; term = uint32 e.term; leader_expiry = e.leader_expiry },
        true,
        true,
      )
]

unfoldable pub determine_with :
    ElectionManager → LeaderElection → ℕ → List Str → ElectionManager × Bool × List Effect
unfolding determine_winner put send
determine_with m e term zones =
    let winner = determine_winner e.votes in
    let confirms = put m.local_id winner e.confirms in
    let complete = leb (e.expected_peers + 1) (length confirms) in
    (
      with_entry m
          (record e { confirms = confirms; confirm_timer = if complete then none else some term }),
      complete,
      send zones (elect_confirm term winner),
    )

module _ (n : Names) where
  unfoldable pub start_group_election :
      ElectionManager → Option GroupNow → Option ℕ → ℕ → ℕ → ElectionManager × List Effect
  unfolding is_among entry_of moved_on self_elect begin_election
  start_group_election m group armed vote now = elim group [
    | none ↦ (m, [])
    | some g ↦
        let e = entry_of m in
        if not (is_among n g.voting_members m.local_id)
        then (m, [])
        else if moved_on armed e
        then (with_entry m e, [])
        else if length g.voting_members == 1
        then self_elect m e g.voting_members g.zones now
        else begin_election m e g.voting_members g.zones vote
  ]

  -- The retry's timer has fired (groupForTimer). An entry that was dropped is gone, and its timers
  -- do nothing.
  unfoldable pub retry_fired :
      ElectionManager → Option GroupNow → ℕ → ℕ → ℕ → ElectionManager × List Effect
  unfolding is_among entry_of start_group_election group_gone
  retry_fired m group armed vote now = elim group [
    | none ↦ (if is_none (m.entry) || (entry_of m).gone then m else group_gone m, [])
    | some g ↦
        if is_none (m.entry) || (entry_of m).gone || not (is_among n g.voting_members m.local_id)
        then (m, [])
        else start_group_election m (some g) (some armed) vote now
  ]

  -- The timer of a lease's renewal has fired.
  unfoldable pub renewal_fired :
      ElectionManager → Option GroupNow → ℕ → ℕ → ℕ → ElectionManager × List Effect
  unfolding entry_of moved_on retry_fired
  renewal_fired m group armed vote now =
      if moved_on (some armed) (entry_of m) then (m, []) else retry_fired m group armed vote now

  unfoldable pub handle_group_confirm :
      ElectionManager
      → LeaderElection
      → Option GroupNow
      → Str
      → ℕ
      → Str
      → List Str
      → List Str
      → ℕ
      → ElectionManager × List Effect
  unfolding put finalize_group_election
  handle_group_confirm m e group sender term winner members zones now =
      if not e.active || not (e.term == term)
      then (with_entry m e, [])
      else (let confirms = put sender winner e.confirms in
          if leb (e.expected_peers + 1) (length confirms)
          then finalize_group_election n
              (with_entry m (record e { confirms = confirms; confirm_timer = none })) group term
              members zones now
          else (with_entry m (record e { confirms = confirms }), []))

  unfoldable pub handle_message :
      ElectionManager → GroupNow → Str → ElectMsg → ℕ → ℕ → ElectionManager × List Effect
  unfolding entry_of handle_group_call handle_group_vote handle_group_confirm
  handle_message m g sender (elect_call term sent) vote now =
      handle_group_call m (entry_of m) sender term sent g.voting_members g.zones vote
  handle_message m g sender (elect_vote term sent) vote now =
      handle_group_vote m (entry_of m) sender term sent
  handle_message m g sender (elect_confirm term winner) vote now =
      handle_group_confirm m (entry_of m) (some g) sender term winner g.voting_members g.zones now

  unfoldable pub handle_group_message :
      ElectionManager → Option GroupNow → Str → ElectMsg → ℕ → ℕ → ElectionManager × List Effect
  unfolding is_among handle_message read_msg
  handle_group_message m group sender msg vote now = elim group [
    | none ↦ (m, [])
    | some g ↦
        if is_empty g.voting_members
          || not (is_among n g.voting_members sender)
          || not (is_among n g.voting_members m.local_id)
        then (m, [])
        else handle_message m g sender (read_msg msg) vote now
  ]

  unfoldable pub determine_and_confirm_group :
      ElectionManager
      → Option GroupNow
      → ℕ
      → List Str
      → List Str
      → ℕ
      → ElectionManager × List Effect
  unfolding determine_with finalize_group_election
  determine_and_confirm_group m group term members zones now = elim (m.entry) [
    | none ↦ (m, [])
    | some e ↦
        if not e.active || not (e.term == term)
        then (m, [])
        else (let (noted, complete, sent) = determine_with m e term zones in
            let (ended, effects) = finalize_group_election n noted group term members zones now in
            if complete then (ended, sent ++ effects) else (noted, sent))
  ]

  unfoldable pub on_group_vote_timeout :
      ElectionManager
      → Option GroupNow
      → ℕ
      → List Str
      → List Str
      → ℕ
      → ElectionManager × List Effect
  unfolding determine_and_confirm_group retry_group_election
  on_group_vote_timeout m group term members zones now = elim (m.entry) [
    | none ↦ (m, [])
    | some e ↦
        if not e.active || not (e.term == term)
        then (m, [])
        else if ltb (length e.votes) (e.expected_peers + 1)
        then (with_entry m (retry_group_election term (record e { active = false })), [])
        else determine_and_confirm_group m group term members zones now
  ]

  unfoldable pub on_group_confirm_timeout :
      ElectionManager
      → Option GroupNow
      → ℕ
      → List Str
      → List Str
      → ℕ
      → ElectionManager × List Effect
  unfolding finalize_group_election retry_group_election
  on_group_confirm_timeout m group term members zones now = elim (m.entry) [
    | none ↦ (m, [])
    | some e ↦
        if not e.active || not (e.term == term)
        then (m, [])
        else if ltb (length e.confirms) (e.expected_peers + 1)
        then (with_entry m (retry_group_election term (record e { active = false })), [])
        else finalize_group_election n m group term members zones now
  ]
