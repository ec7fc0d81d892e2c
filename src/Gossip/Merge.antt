-- ===== src/Gossip/Merge.antt =====
-- v2/gossip.go: merging gossip into the table (MergeGossip, mergeGossipAs, observerTakes) and
-- forgetting a group.
use tdns_mp.Prelude.{
  Bool, List, Option, Str, [], delete, false, if◌then◌else◌, is_empty, keep, lookup, ltb, none, not,
  put, some, str_eq, true, ℕ, ◌&&◌, ◌==◌, ◌||◌, ◌∷◌,
}
use tdns_mp.Names.{Names}
use tdns_mp.Gossip.Model.{
  GossipMessage, GossipStateTable, GroupElectionState, GroupNameProposal, MemberState,
  ProviderGroup, Rows, no_election, no_name,
}
use tdns_mp.Instructions.Sets.{is_among}

-- The copy leaves out what only the stamp entry's row carries.
unfoldable pub deep_copy_member_state : MemberState → MemberState
deep_copy_member_state m = record m {
  instr = [];
  epoch = 0;
  seq = 0;
  nameservers = [];
  crypto = false;
  only_part = false;
}

unfoldable pub observer_takes : Bool → GroupElectionState → GroupElectionState → ℕ → Bool
observer_takes observer r held now =
    if not observer || not (ltb held.leader_expiry now)
    then false
    else if ltb r.term held.term
    then true
    else if r.term == held.term
    then not (str_eq r.leader held.leader) || ltb held.leader_expiry r.leader_expiry
    else false

-- The rows of a group; a group that has none yet reads as empty.
unfoldable pub rows_of : GossipStateTable → Str → Rows
rows_of t hash = elim (lookup hash t.states) [ none ↦ [] | some rows ↦ rows ]

unfoldable pub newer : Option MemberState → MemberState → Bool
newer none remote = true
newer (some local) remote = ltb local.timestamp remote.timestamp

unfoldable pub merge_row : Rows → Str × Option MemberState → Rows
unfolding newer deep_copy_member_state
merge_row rows (id, none) = rows
merge_row rows (id, some remote) =
    if newer (lookup id rows) remote then put id (deep_copy_member_state remote) rows else rows

unfoldable pub merge_rows : Rows → List (Str × Option MemberState) → Rows
merge_rows rows [] = rows
merge_rows rows (m ∷ ms) = merge_rows (merge_row rows m) ms

-- Whether the record of a message replaces the one that is held.
unfoldable pub takes_election : Bool → GroupElectionState → Option GroupElectionState → ℕ → Bool
unfolding observer_takes
takes_election observer r held now =
    if ltb 0 r.term && not (is_empty r.leader)
    then elim held [ none ↦ true | some e ↦ ltb e.term r.term || observer_takes observer r e now ]
    else false

unfoldable pub takes_name : GroupNameProposal → Option GroupNameProposal → Bool
takes_name p held =
    if is_empty p.name
    then false
    else elim held [ none ↦ true | some n ↦ ltb p.proposed_at n.proposed_at ]

-- The table after the merge, and what onElectionUpdate is called with, if it is.
unfoldable pub merge_gossip_as :
    GossipStateTable
    → GossipMessage
    → Bool
    → ℕ
    → GossipStateTable × Option (Str × GroupElectionState)
unfolding rows_of takes_election takes_name
merge_gossip_as t msg observer now =
    let hash = msg.group_hash in
    let rows = merge_rows (rows_of t hash) msg.members in
    let taken = takes_election observer msg.election (lookup hash t.elections) now in
    let elections = if taken then put hash msg.election t.elections else t.elections in
    let names =
      if takes_name msg.group_name (lookup hash t.names)
      then put hash msg.group_name t.names
      else t.names in
    (
      record t { states = put hash rows t.states; elections = elections; names = names },
      if taken then some (hash, msg.election) else none,
    )

unfoldable pub forget_group : GossipStateTable → Str → GossipStateTable
forget_group t hash = record t {
  operational_groups = delete hash t.operational_groups;
  elections = delete hash t.elections;
}

module _ (N : Names) where
  -- The test of MergeGossip that the gossip is to be taken at all.
  unfoldable pub group_takes : GossipMessage → Str → ProviderGroup → Bool
  unfolding is_among
  group_takes msg from g = str_eq g.group_hash msg.group_hash && is_among N g.members from

  -- The part of a message that is taken from its sender.
  unfoldable pub taken_part : GossipMessage → Str → ProviderGroup → Bool → GossipMessage
  unfolding is_among
  taken_part msg from g from_answer =
      if not (is_among N g.voting_members from)
      then record msg {
        members = keep (λ m. is_among N (m.0 ∷ []) from) msg.members;
        election = no_election;
        group_name = no_name;
      }
      else if from_answer
      then record msg { election = no_election; group_name = no_name }
      else msg

  unfoldable pub merge_gossip :
      GossipStateTable
      → Option GossipMessage
      → Str
      → Option ProviderGroup
      → Bool
      → ℕ
      → GossipStateTable × Option (Str × GroupElectionState)
  unfolding group_takes taken_part merge_gossip_as is_among
  merge_gossip t none from group from_answer now = (t, none)
  merge_gossip t (some msg) from none from_answer now = (t, none)
  merge_gossip t (some msg) from (some g) from_answer now =
      if group_takes msg from g
      then merge_gossip_as t (taken_part msg from g from_answer)
          (not (is_among N g.voting_members t.local_id)) now
      else (t, none)
