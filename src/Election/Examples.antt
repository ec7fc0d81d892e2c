-- ===== src/Election/Examples.antt =====
-- Tests and witnesses of the election: two voters, of which the second draws the higher votes.
use native.Mathlib.Omega.{arith}
use tdns_mp.Election.Winner.{HasVote, determine_winner-best}
use tdns_mp.Election.Renewal.{renewal_delay_bounds}
use tdns_mp.Election.Ends.{Ended, refused_message_lem, timeouts_end_lem}
use tdns_mp.Election.OneLeader.{one_leader_lem}
use tdns_mp.Election.Events.{
  ElectionEvent, after_events, all_as_voter, all_leave_term, as_voter, determined, leaves_term,
  received, renewal,
}
use tdns_mp.Prelude.{
  All, List, Memᴰ, Str, [], contains, here, if◌then◌else◌, inr, lookup, none, put, refl, some, sort,
  str, str_eq, str_leb, true, ℕ, ◌*◌, ◌++◌, ◌+◌, ◌/◌, ◌<◌, ◌∷◌, ◌≡◌, ◌≤◌, ◌⊎◌,
}
use tdns_mp.Names.{ascii_names}
use tdns_mp.Election.Model.{
  ElectMsg, ElectionManager, GroupNow, better, determine_winner, elect_call, elect_confirm,
  elect_vote, entry_of, next_term, parse_uint64, read_msg, send, winner_from, winner_step,
}
use tdns_mp.Election.Network.{Network, Reached, after_op, begun, calls, determines, receives}
use tdns_mp.Election.Agreed.{agreement_lem, held_leader_lem}
use tdns_mp.Election.Full.{draws}
use tdns_mp.Election.Honest.{messages, spawns, vote_of}
use tdns_mp.Election.Lead.{
  keep_early_vote, note_leader, put_all, renewal_delay, renewal_rank, schedule_group_reelection,
  take_early_votes,
}
use tdns_mp.Election.Manager.{
  determine_and_confirm_group, determine_with, handle_group_confirm, handle_group_message,
  handle_message, on_group_confirm_timeout, on_group_vote_timeout, start_group_election,
}
use tdns_mp.Election.Rounds.{
  agreed_from, ask_zones, begin_election, finalize_group_election, finalize_with, handle_group_call,
  handle_group_vote, join_call, moved_on, set_leader,
}
use tdns_mp.Election.Voting.{msg_term}
use tdns_mp.Instructions.Sets.{is_among}

abbrev a : Str
a = str "a."

abbrev b : Str
b = str "b."

abbrev zones : List Str
zones = str "z." ∷ []

abbrev two : List Str
two = a ∷ b ∷ []

abbrev group : GroupNow
group = record { voting_members = two; zones = zones }

abbrev draw : ℕ → Str → ℕ
draw term x = if str_eq x (str "a.") then 7 else 9

abbrev idle : Str → ElectionManager
idle x = record { local_id = x; leader_ttl = 1000; leads = 0; entry = none }

abbrev ReachedByTwo : Network → Type 0
ReachedByTwo net = Reached two draw ascii_names net

-- `a.` calls an election and `b.` joins it; each has both votes then, determines the winner and
-- confirms it, and gets the other's confirm.
abbrev begun_net : Network
begun_net = record { agents = idle; sent = []; spawned = []; told = [] }

abbrev receive : Network → Str → Str → ElectMsg → Network
receive net x from msg =
    let m = net.agents x in
    after_op net x (
      handle_group_message ascii_names m (some group) from msg
        (vote_of two draw (msg_term msg) m.local_id) 0)

abbrev determine_at : Network → Str → Network
determine_at net x =
    after_op net x
      (determine_and_confirm_group ascii_names (net.agents x) (some group) 1 two zones 0)

abbrev called_net : Network
called_net =
    let m = begun_net.agents a in
    after_op begun_net a (
      start_group_election ascii_names m (some group) none
        (vote_of two draw ((entry_of m).term + 1) m.local_id) 0)

abbrev joined_net : Network
joined_net = receive called_net b a (elect_call 1 7)

abbrev voted_net : Network
voted_net = receive joined_net a b (elect_vote 1 9)

abbrev confirmed_net : Network
confirmed_net = determine_at (determine_at voted_net a) b

abbrev decided_net : Network
decided_net = receive (receive confirmed_net b a (elect_confirm 1 b)) a b (elect_confirm 1 b)

called_net-Reached : Reached two draw ascii_names called_net
unfolding next_term read_msg parse_uint64 after_op start_group_election entry_of moved_on
    begin_election take_early_votes send messages spawns contains str_eq is_among
    handle_group_message handle_message handle_group_call join_call handle_group_vote
    handle_group_confirm keep_early_vote put put_all lookup determine_and_confirm_group
    determine_with determine_winner winner_from winner_step better finalize_group_election
    finalize_with agreed_from note_leader set_leader ask_zones schedule_group_reelection
    renewal_delay renewal_rank sort msg_term ascii_names str_leb
called_net-Reached =
    calls begun_net a zones none 0 (begun idle (λ x. (refl, refl))) refl (omega arith)

voted_net-Reached : Reached two draw ascii_names voted_net
unfolding next_term read_msg parse_uint64 after_op start_group_election entry_of moved_on
    begin_election take_early_votes send messages spawns contains str_eq is_among
    handle_group_message handle_message handle_group_call join_call handle_group_vote
    handle_group_confirm keep_early_vote put put_all lookup determine_and_confirm_group
    determine_with determine_winner winner_from winner_step better finalize_group_election
    finalize_with agreed_from note_leader set_leader ask_zones schedule_group_reelection
    renewal_delay renewal_rank sort msg_term ascii_names str_leb
voted_net-Reached =
    receives joined_net a zones b (elect_vote 1 9) 0
      (receives called_net b zones a (elect_call 1 7) 0 called_net-Reached refl (Memᴰ.head refl))
      refl (Memᴰ.head refl)

confirmed_net-Reached : Reached two draw ascii_names confirmed_net
unfolding next_term read_msg parse_uint64 after_op start_group_election entry_of moved_on
    begin_election take_early_votes send messages spawns contains str_eq is_among
    handle_group_message handle_message handle_group_call join_call handle_group_vote
    handle_group_confirm keep_early_vote put put_all lookup determine_and_confirm_group
    determine_with determine_winner winner_from winner_step better finalize_group_election
    finalize_with agreed_from note_leader set_leader ask_zones schedule_group_reelection
    renewal_delay renewal_rank sort msg_term ascii_names str_leb
confirmed_net-Reached =
    determines (determine_at voted_net a) b (some group) 1 two zones 0
      (determines voted_net a (some group) 1 two zones 0 voted_net-Reached (Memᴰ.head refl))
      (Memᴰ.tail (Memᴰ.head refl))

decided_net-Reached : Reached two draw ascii_names decided_net
unfolding next_term read_msg parse_uint64 after_op start_group_election entry_of moved_on
    begin_election take_early_votes send messages spawns contains str_eq is_among
    handle_group_message handle_message handle_group_call join_call handle_group_vote
    handle_group_confirm keep_early_vote put put_all lookup determine_and_confirm_group
    determine_with determine_winner winner_from winner_step better finalize_group_election
    finalize_with agreed_from note_leader set_leader ask_zones schedule_group_reelection
    renewal_delay renewal_rank sort msg_term ascii_names str_leb
decided_net-Reached =
    receives (receive confirmed_net b a (elect_confirm 1 b)) a zones b (elect_confirm 1 b) 0
      (receives confirmed_net b zones a (elect_confirm 1 b) 0 confirmed_net-Reached refl
        (Memᴰ.tail (Memᴰ.head refl)))
      refl (Memᴰ.head refl)

held_leader_lem_example :
    (entry_of (decided_net.agents a)).leader
    ≡ determine_winner (draws two (vote_of two draw (entry_of (decided_net.agents a)).leader_term))
unfolding next_term read_msg parse_uint64 after_op start_group_election entry_of moved_on
    begin_election take_early_votes send messages spawns contains str_eq is_among
    handle_group_message handle_message handle_group_call join_call handle_group_vote
    handle_group_confirm keep_early_vote put put_all lookup determine_and_confirm_group
    determine_with determine_winner winner_from winner_step better finalize_group_election
    finalize_with agreed_from note_leader set_leader ask_zones schedule_group_reelection
    renewal_delay renewal_rank sort msg_term ascii_names str_leb
held_leader_lem_example =
    held_leader_lem two draw ascii_names decided_net a (omega arith) decided_net-Reached refl

agreement_lem_example :
    (entry_of (decided_net.agents a)).leader ≡ (entry_of (decided_net.agents b)).leader
unfolding next_term read_msg parse_uint64 after_op start_group_election entry_of moved_on
    begin_election take_early_votes send messages spawns contains str_eq is_among
    handle_group_message handle_message handle_group_call join_call handle_group_vote
    handle_group_confirm keep_early_vote put put_all lookup determine_and_confirm_group
    determine_with determine_winner winner_from winner_step better finalize_group_election
    finalize_with agreed_from note_leader set_leader ask_zones schedule_group_reelection
    renewal_delay renewal_rank sort msg_term ascii_names str_leb
agreement_lem_example =
    agreement_lem two draw ascii_names decided_net a b (omega arith) decided_net-Reached refl refl
      refl

abbrev both : List (Str × ℕ)
both = (a, 7) ∷ (b, 9) ∷ []

determine_winner-best_example :
    (top : ℕ) × HasVote both (determine_winner both, top)
    × All (λ x. (x.1 < top) ⊎ ((x.1 ≡ top) × (str_leb (determine_winner both) x.0 ≡ true))) both
determine_winner-best_example = determine_winner-best both a 7 (here refl) (omega arith)

renewal_delay_bounds_example :
    (renewal_delay a 100 a two ≡ 90)
    × (100 * 9 / 10 + 2 ≤ renewal_delay b 100 a two)
    × (renewal_delay b 100 a two < 100)
unfolding next_term read_msg parse_uint64 after_op start_group_election entry_of moved_on
    begin_election take_early_votes send messages spawns contains str_eq is_among
    handle_group_message handle_message handle_group_call join_call handle_group_vote
    handle_group_confirm keep_early_vote put put_all lookup determine_and_confirm_group
    determine_with determine_winner winner_from winner_step better finalize_group_election
    finalize_with agreed_from note_leader set_leader ask_zones schedule_group_reelection
    renewal_delay renewal_rank sort msg_term ascii_names str_leb
renewal_delay_bounds_example = renewal_delay_bounds b 100 a two (omega arith)

timeouts_end_lem_example :
    let waited =
      (on_group_vote_timeout ascii_names (called_net.agents a) (some group) 1 two zones 5).0 in
    Ended 1 (entry_of (on_group_confirm_timeout ascii_names waited (some group) 1 two zones 9).0)
unfolding next_term read_msg parse_uint64 after_op start_group_election entry_of moved_on
    begin_election take_early_votes send messages spawns contains str_eq is_among
    handle_group_message handle_message handle_group_call join_call handle_group_vote
    handle_group_confirm keep_early_vote put put_all lookup determine_and_confirm_group
    determine_with determine_winner winner_from winner_step better finalize_group_election
    finalize_with agreed_from note_leader set_leader ask_zones schedule_group_reelection
    renewal_delay renewal_rank sort msg_term ascii_names str_leb
timeouts_end_lem_example =
    timeouts_end_lem ascii_names (called_net.agents a) (entry_of (called_net.agents a)) (some group)
      (some group) two zones 5 9 refl refl

refused_message_lem_example :
    let r =
      handle_group_message ascii_names (called_net.agents a) (some group) b (elect_vote 0 5) 7 0 in
    (entry_of r.0 ≡ entry_of (called_net.agents a)) × (r.1 ≡ [])
unfolding next_term read_msg parse_uint64 after_op start_group_election entry_of moved_on
    begin_election take_early_votes send messages spawns contains str_eq is_among
    handle_group_message handle_message handle_group_call join_call handle_group_vote
    handle_group_confirm keep_early_vote put put_all lookup determine_and_confirm_group
    determine_with determine_winner winner_from winner_step better finalize_group_election
    finalize_with agreed_from note_leader set_leader ask_zones schedule_group_reelection
    renewal_delay renewal_rank sort msg_term ascii_names str_leb
refused_message_lem_example =
    refused_message_lem ascii_names (called_net.agents a) (some group) b (elect_vote 0 5) 7 0
      (inr (omega arith))

abbrev joining : List ElectionEvent
joining =
    received (some group) a (elect_call 1 7) 9 0
    ∷ determined (some group) 1 two zones 0
    ∷ received (some group) a (elect_confirm 1 b) 0 1
    ∷ []

abbrev renewing : List ElectionEvent
renewing = renewal (some group) 1 3 900 ∷ received (some group) a (elect_vote 2 8) 0 901 ∷ []

one_leader_lem_example :
    let e = entry_of (after_events ascii_names (idle b) joining) in
    let f = entry_of (after_events ascii_names (idle b) (joining ++ renewing)) in
    (e.term ≤ f.term)
    × ((e.leader_term < f.leader_term)
        ⊎ ((e.leader_term ≡ f.leader_term) × ((f.leader ≡ e.leader) ⊎ (f.leader ≡ []))))
unfolding all_as_voter as_voter all_leave_term leaves_term after_events handle_group_message
    ascii_names str_eq determine_and_confirm_group better
one_leader_lem_example =
    one_leader_lem ascii_names (idle b) joining renewing refl refl refl refl refl
