-- ===== src/Election/Rounds.antt =====
-- v2/parentsync_leader.go: the rounds of a group's election. The group's voters and zones, a drawn
-- vote and the time are arguments.
use tdns_mp.Prelude.{
  Bool, List, Option, Str, [], contains, false, if◌then◌else◌, is_empty, leb, length, map, none,
  not, put, some, str_eq, true, ℕ, ◌&&◌, ◌++◌, ◌+◌, ◌-◌, ◌==◌, ◌||◌, ◌∷◌,
}
use tdns_mp.Names.{Names}
use tdns_mp.Instructions.Sets.{is_among, members}
use tdns_mp.Election.Model.{
  Effect, ElectionManager, GroupNow, LeaderElection, determine, elect_call, elect_vote,
  leader_elected, next_term, send, uint32, with_entry, zone_joined,
}
use tdns_mp.Election.Lead.{
  keep_early_vote, note_leader, retry_group_election, schedule_group_reelection, take_early_votes,
}

-- The leader is set, and leads until the lease ends.
unfoldable pub set_leader : Str → ℕ → ℕ → LeaderElection → LeaderElection
set_leader leader ttl now e = record e {
  leader = leader;
  leader_term = e.term;
  leader_expiry = now + ttl;
  active = false;
}

-- The end of a single agent's election: it elects itself, at the next term.
unfoldable pub self_elect :
    ElectionManager → LeaderElection → List Str → List Str → ℕ → ElectionManager × List Effect
unfolding note_leader set_leader schedule_group_reelection next_term
self_elect m e members zones now =
    let (noted, leads, effects) =
      note_leader m.local_id m.leads (record e { term = next_term e }) m.local_id now in
    let led =
      schedule_group_reelection m.local_id m.leader_ttl members
        (set_leader m.local_id m.leader_ttl now noted) in
    (
      record m { leads = leads; entry = some (record led { asked_term = led.term }) },
      effects ++ map leader_elected zones,
    )

-- The start of an election with peers.
unfoldable pub begin_election :
    ElectionManager → LeaderElection → List Str → List Str → ℕ → ElectionManager × List Effect
unfolding take_early_votes send next_term
begin_election m e members zones vote =
    let started = take_early_votes (next_term e) false (record e {
      active = true;
      start_zones = zones;
      term = next_term e;
      my_vote = vote;
      votes = (m.local_id, vote) ∷ [];
      confirms = [];
      expected_peers = length members - 1;
      vote_timer = some (next_term e);
      confirm_timer = none;
    }) in
    (with_entry m started, send zones (elect_call (next_term e) vote))

-- Whether a timer was armed in another term than the election is in, or it is running.
unfoldable pub moved_on : Option ℕ → LeaderElection → Bool
moved_on none e = false
moved_on (some t) e = e.active || not (e.term == t)

unfoldable pub join_call :
    ElectionManager
    → LeaderElection
    → Str
    → ℕ
    → ℕ
    → List Str
    → List Str
    → ℕ
    → ElectionManager × List Effect
unfolding take_early_votes send put
join_call m e sender term sent members zones vote =
    let own = (m.local_id, vote) ∷ [] in
    let votes = if uint32 sent == 0 then own else put sender (uint32 sent) own in
    let joined = take_early_votes term true (record e {
      active = true;
      start_zones = zones;
      term = term;
      my_vote = vote;
      votes = votes;
      confirms = [];
      expected_peers = length members - 1;
    }) in
    let all_votes = leb (joined.expected_peers + 1) (length joined.votes) in
    (
      with_entry m (record joined { vote_timer = if all_votes then none else some term }),
      send zones (elect_vote term vote) ++ (if all_votes then determine term ∷ [] else []),
    )

unfoldable pub handle_group_call :
    ElectionManager
    → LeaderElection
    → Str
    → ℕ
    → ℕ
    → List Str
    → List Str
    → ℕ
    → ElectionManager × List Effect
unfolding join_call
handle_group_call m e sender term sent members zones vote =
    if leb term e.term
    then (with_entry m e, [])
    else join_call m e sender term sent members zones vote

unfoldable pub handle_group_vote :
    ElectionManager → LeaderElection → Str → ℕ → ℕ → ElectionManager × List Effect
unfolding keep_early_vote put
handle_group_vote m e sender term sent =
    if not e.active || not (e.term == term)
    then (with_entry m (keep_early_vote term sender (uint32 sent) e), [])
    else (let votes = put sender (uint32 sent) e.votes in
        if leb (e.expected_peers + 1) (length votes)
        then (with_entry m (record e { votes = votes; vote_timer = none }), determine term ∷ [])
        else (with_entry m (record e { votes = votes }), []))

-- The winner that every confirm names, if there is one: the loop of finalizeGroupElection.
unfoldable pub agreed_from : Str → List (Str × Str) → Option Str
agreed_from agreed [] = some agreed
agreed_from agreed (c ∷ cs) =
    let rest = agreed_from (if is_empty agreed then c.1 else agreed) cs in
    if is_empty agreed || str_eq c.1 agreed then rest else none

-- The zones that the winner asks for: those that arrived during the election, and the others. No
-- zones at the start stands for nil: a group has a zone.
unfoldable pub ask_zones : List Str → List Str → List Effect
unfolding contains
ask_zones started [] = []
ask_zones started (z ∷ zs) =
    (if not (is_empty started) && not (contains started z) then zone_joined z else leader_elected z)
    ∷ ask_zones started zs

module _ (n : Names) where
  -- `group` is the group as it is now; `members` and `zones` are those of the election.
  unfoldable pub finalize_with :
      ElectionManager
      → LeaderElection
      → Option GroupNow
      → List Str
      → List Str
      → ℕ
      → ElectionManager × List Effect
  unfolding agreed_from is_among note_leader set_leader schedule_group_reelection
      retry_group_election ask_zones
  finalize_with m e group members zones now =
      let taken = λ (w : Str).
        not (is_empty w) && elim group [ none ↦ true | some g ↦ is_among n g.voting_members w ] in
      elim (agreed_from [] e.confirms) [
        | none ↦ (with_entry m (retry_group_election e.term (record e { active = false })), [])
        | some w ↦
            if taken w
            then (let (noted, leads, effects) = note_leader m.local_id m.leads e w now in
                let led = set_leader w m.leader_ttl now noted in
                let asked =
                  if str_eq w m.local_id then record led { asked_term = led.term } else led in
                (
                  record m {
                    leads = leads;
                    entry = some (schedule_group_reelection m.local_id m.leader_ttl members asked);
                  },
                  effects
                      ++ (if str_eq w m.local_id
                          then ask_zones e.start_zones
                              (elim group [ none ↦ zones | some g ↦ g.zones ])
                          else []),
                ))
            else (with_entry m (retry_group_election e.term (record e { active = false })), [])
      ]

  unfoldable pub finalize_group_election :
      ElectionManager
      → Option GroupNow
      → ℕ
      → List Str
      → List Str
      → ℕ
      → ElectionManager × List Effect
  unfolding finalize_with
  finalize_group_election m group term members zones now = elim (m.entry) [
    | none ↦ (m, [])
    | some e ↦
        if not (e.term == term) || not e.active
        then (m, [])
        else finalize_with m e group members zones now
  ]
