-- ===== src/Gossip/Build.antt =====
-- v2/gossip.go: the gossip for a peer (BuildGossipForPeer).
use tdns_mp.Prelude.{
  Bool, List, Option, Str, [], contains, if◌then◌else◌, lookup, map, none, some, ◌&&◌, ◌∷◌,
}
use tdns_mp.Gossip.Model.{
  GossipMessage, GossipStateTable, GroupElectionState, GroupNameProposal, MemberState,
  ProviderGroup, Rows, no_election, no_name,
}
use tdns_mp.Gossip.Merge.{deep_copy_member_state, rows_of}

-- GroupElectionForGossip, of the election manager, when there is one: the record of a group, and
-- whether its term is decided, and whether the agent has an election of its own there.
pub record OwnWord : Type 0 where
  pub record_of : GroupElectionState
  pub decided : Bool
  pub known : Bool

unfoldable pub copy_rows : Rows → List (Str × Option MemberState)
unfolding deep_copy_member_state
copy_rows rows = map (λ r. (r.0, some (deep_copy_member_state r.1))) rows

-- The election record that goes into a message.
unfoldable pub told_election : Option OwnWord → Option GroupElectionState → GroupElectionState
told_election none heard = elim heard [ none ↦ no_election | some e ↦ e ]
told_election (some w) heard =
    if w.known
    then (if w.decided then w.record_of else no_election)
    else elim heard [ none ↦ (if w.decided then w.record_of else no_election) | some e ↦ e ]

-- The name proposal that goes into a message.
unfoldable pub told_name : Option GroupNameProposal → Option GroupNameProposal → GroupNameProposal
told_name (some n) own = n
told_name none none = no_name
told_name none (some n) = n

unfoldable pub message_for :
    GossipStateTable → (Str → Option OwnWord) → ProviderGroup → GossipMessage
unfolding copy_rows told_election told_name rows_of
message_for t word g = record {
  group_hash = g.group_hash;
  group_name = told_name (lookup g.group_hash t.names) g.name_proposal;
  members = copy_rows (rows_of t g.group_hash);
  election = told_election (word g.group_hash) (lookup g.group_hash t.elections);
}

unfoldable pub shares : GossipStateTable → Str → ProviderGroup → Bool
unfolding contains
shares t peer g = contains g.members t.local_id && contains g.members peer

unfoldable pub build_gossip_for_peer :
    GossipStateTable → Str → (Str → Option OwnWord) → List ProviderGroup → List GossipMessage
unfolding message_for shares
build_gossip_for_peer t peer word [] = []
build_gossip_for_peer t peer word (g ∷ gs) =
    let rest = build_gossip_for_peer t peer word gs in
    if shares t peer g then message_for t word g ∷ rest else rest
