-- ===== src/Election/Heard.antt =====
-- v2/parentsync_leader.go: what is heard of an election by gossip (ApplyGossipElection). `group` is
-- the group as the group manager has it, `none` when it is gone.
use tdns_mp.Prelude.{
  Bool, List, Option, [], false, if◌then◌else◌, is_empty, ltb, map, none, not, some, str_eq, ℕ,
  ◌&&◌, ◌++◌, ◌==◌, ◌||◌,
}
use tdns_mp.Names.{Names}
use tdns_mp.Instructions.Sets.{is_among}
use tdns_mp.Gossip.Model.{GroupElectionState}
use tdns_mp.Gossip.Merge.{observer_takes}
use tdns_mp.Election.Model.{
  Effect, ElectionManager, GroupNow, LeaderElection, entry_of, leader_elected, with_entry,
}
use tdns_mp.Election.Lead.{note_leader, schedule_group_reelection}

module _ (n : Names) where
  unfoldable pub is_observer : ElectionManager → Option GroupNow → Bool
  unfolding is_among
  is_observer m group = elim group [
    | none ↦ false
    | some g ↦ not (is_among n g.voting_members m.local_id)
  ]

  -- The record that the election holds, as observerTakes compares it.
  abbrev held_record : LeaderElection → GroupElectionState
  held_record e = record { leader = e.leader; term = e.term; leader_expiry = e.leader_expiry }

  unfoldable pub is_news : ElectionManager → Option GroupNow → GroupElectionState → ℕ → Bool
  unfolding entry_of is_observer observer_takes
  is_news m group state now =
      let e = entry_of m in
      ltb e.term state.term || observer_takes (is_observer m group) state (held_record e) now

  unfoldable pub take_news :
      ElectionManager → GroupElectionState → ℕ → ElectionManager × List Effect
  unfolding entry_of note_leader
  take_news m state now =
      let (noted, leads, effects) =
        note_leader m.local_id m.leads (record (entry_of m) { term = state.term }) state.leader
          now in
      (
        record m {
          leads = leads;
          entry = some (record noted {
            leader = state.leader;
            leader_term = state.term;
            leader_expiry = state.leader_expiry;
            active = false;
          });
        },
        effects,
      )

  -- A leader that learns that it leads asks once per term, for the zones the group has.
  unfoldable pub ask_in_term : ElectionManager → Option GroupNow → ElectionManager × List Effect
  unfolding entry_of
  ask_in_term m group =
      let e = entry_of m in
      elim group [
        | none ↦ (m, [])
        | some g ↦
            if str_eq e.leader m.local_id && not (e.asked_term == e.term)
            then (with_entry m (record e { asked_term = e.term }), map leader_elected g.zones)
            else (m, [])
      ]

  unfoldable pub rearm : ElectionManager → Option GroupNow → ElectionManager
  unfolding entry_of is_among schedule_group_reelection
  rearm m group =
      let stopped = record (entry_of m) { reelect_timer = none } in
      elim group [
        | none ↦ with_entry m stopped
        | some g ↦
            if is_among n g.voting_members m.local_id
            then with_entry m
                (schedule_group_reelection m.local_id m.leader_ttl g.voting_members stopped)
            else with_entry m stopped
      ]

  unfoldable pub apply_gossip_election :
      ElectionManager → Option GroupNow → GroupElectionState → ℕ → ElectionManager × List Effect
  unfolding entry_of is_news take_news ask_in_term rearm
  apply_gossip_election m group state now =
      let news = is_news m group state now in
      let (taken, effects) =
        if news then take_news m state now else (with_entry m (entry_of m), []) in
      let (asked, asks) = ask_in_term taken group in
      if is_empty state.leader || state.term == 0
      then (m, [])
      else if not news && ltb state.term (entry_of m).term
      then (with_entry m (entry_of m), [])
      else (if news then rearm asked group else asked, effects ++ asks)
