-- ===== src/Gossip/Terms.antt =====
-- What merging does to the election records, whatever order the beats come in.
use tdns_mp.Prelude.{
  Bool-cases, Str, arith, false, inl, inr, is_empty, lookup, lookup-put, lookup-put_other, some,
  str_eq, str_eq→eq, ℕ, ◌<◌, ◌≡◌, ◌⊎◌, Bool, [], none, not, true, ◌&&◌, ◌∷◌, All, List, Option,
  keep, put, put-lookup,
}
use tdns_mp.Gossip.Model.{
  GossipMessage, GossipStateTable, GroupElectionState, ProviderGroup, MemberState,
}
use tdns_mp.Gossip.Merge.{
  merge_gossip_as, observer_takes, takes_election, group_takes, merge_gossip, rows_of, taken_part,
  takes_name, merge_rows,
}
use tdns_mp.Instructions.Sets.{is_among}
use tdns_mp.Names.{Names}
use tdns_mp.Gossip.Newest.{All-covers, lookup-merge_rows_other, merge_rows_covered}

-- A merge by a voting member leaves each group's election record as it is, or puts in one of a
-- higher term, which names a leader and which it reports; it never lowers a term and never replaces
-- the leader of a term.
pub merge_gossip_as-term :
    (t : GossipStateTable) (msg : GossipMessage) (now : ℕ) (group : Str) (e : GroupElectionState)
    → lookup group t.elections ≡ some e
    → let r = merge_gossip_as t msg false now in
      (lookup group r.0.elections ≡ some e)
      ⊎ ((lookup group r.0.elections ≡ some msg.election)
          × (r.1 ≡ some (group, msg.election))
          × (e.term < msg.election.term)
          × (is_empty msg.election.leader ≡ false))
unfolding merge_gossip_as takes_election observer_takes
merge_gossip_as-term t msg now group e h = elim (Bool-cases (str_eq group msg.group_hash)) [
  | inl x ↦ ground (
    arith,
    str_eq→eq group msg.group_hash x,
    lookup-put group msg.election t.elections,
    Bool-cases (is_empty msg.election.leader),
  )
  | inr x ↦ ground (arith, lookup-put_other group msg.group_hash msg.election t.elections x)
]

-- An observer takes a record at or below the term it holds only when the lease it holds has run out.
merge_gossip_as-observer :
    (t : GossipStateTable) (msg : GossipMessage) (now : ℕ) (group : Str) (e : GroupElectionState)
    → lookup group t.elections ≡ some e
    → let r = merge_gossip_as t msg true now in
      (lookup group r.0.elections ≡ some e)
      ⊎ ((lookup group r.0.elections ≡ some msg.election)
          × ((e.term < msg.election.term) ⊎ (e.leader_expiry < now)))
unfolding merge_gossip_as takes_election observer_takes
merge_gossip_as-observer t msg now group e h = elim (Bool-cases (str_eq group msg.group_hash)) [
  | inl x ↦ ground (
    arith,
    str_eq→eq group msg.group_hash x,
    lookup-put group msg.election t.elections,
    Bool-cases (is_empty msg.election.leader),
  )
  | inr x ↦ ground (arith, lookup-put_other group msg.group_hash msg.election t.elections x)
]

own_entries :
    (N : Names) (from id : Str) (ms : List (Str × Option MemberState))
    → is_among N (id ∷ []) from ≡ false
    → All (λ m. str_eq id m.0 ≡ false) (keep (λ m. is_among N (m.0 ∷ []) from) ms)
own_entries N from id [] h = tt
own_entries N from id (m ∷ ms) h =
    ground (arith, str_eq→eq id m.0, own_entries N from id ms h, Bool-cases (str_eq id m.0))

-- Gossip is taken for a group that the agent has, from a member of it, and otherwise changes
-- nothing. A member that does not vote, and an answer to a beat, change no election record and no
-- group name and report no election; from a member that does not vote no row is taken but its own.
pub merge_gossip-sender :
    (N : Names) (t : GossipStateTable) (msg : GossipMessage) (from : Str) (g : ProviderGroup)
    (from_answer : Bool) (now : ℕ)
    → let r = merge_gossip N t (some msg) from (some g) from_answer now in
      (str_eq g.group_hash msg.group_hash && is_among N g.members from ≡ false → r ≡ (t, none))
      × (is_among N g.voting_members from && not from_answer ≡ false
          → (r.0.elections ≡ t.elections) × (r.0.names ≡ t.names) × (r.1 ≡ none))
      × (is_among N g.voting_members from ≡ false
          → (id : Str) → is_among N (id ∷ []) from ≡ false
          → lookup id (rows_of r.0 msg.group_hash) ≡ lookup id (rows_of t msg.group_hash))
unfolding merge_gossip taken_part group_takes merge_gossip_as takes_election takes_name
merge_gossip-sender N t msg from g from_answer now = (
  λ h. ground (arith, h),
  λ h. ground (arith, h),
  λ h id k.
      let kept = keep (λ m. is_among N (m.0 ∷ []) from) msg.members in
      let rows = rows_of t msg.group_hash in
      ground (
        arith,
        h,
        lookup-put msg.group_hash (merge_rows rows kept) t.states,
        lookup-merge_rows_other rows kept id (own_entries N from id msg.members k),
      ),
)

-- A voting member that merges the same gossip twice has what it has after merging it once, and
-- reports no election the second time.
merge_gossip_as-twice :
    (t : GossipStateTable) (msg : GossipMessage) (now later : ℕ)
    → let r = merge_gossip_as t msg false now in merge_gossip_as r.0 msg false later ≡ (r.0, none)
unfolding merge_gossip_as rows_of takes_election takes_name observer_takes
merge_gossip_as-twice t msg now later =
    let rows = rows_of t msg.group_hash in
    ground (
      arith,
      lookup-put msg.group_hash (merge_rows rows msg.members) t.states,
      merge_rows_covered (merge_rows rows msg.members) msg.members (All-covers rows msg.members),
      put-lookup msg.group_hash (merge_rows rows msg.members)
          (put msg.group_hash (merge_rows rows msg.members) t.states),
      lookup-put msg.group_hash msg.election t.elections,
      lookup-put msg.group_hash msg.group_name t.names,
    )
