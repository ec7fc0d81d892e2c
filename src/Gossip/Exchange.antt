-- ===== src/Gossip/Exchange.antt =====
-- From one agent's table to another's: what a beat's gossip does at the agent that takes it.
use tdns_mp.Prelude.{
  All, All-map, Any, Bool, Bool-cases, List, Option, Str, [], ap, arith, contains, false, here,
  if◌then◌else◌, inl, inr, keep, lookup, lookup-put, refl, some, str_eq, sym, there, true, ℕ, ◌∙◌,
  ◌∷◌, ◌≡◌, ◌⊎◌,
}
use mathlib.Core.Path.{subst}
use tdns_mp.Names.{Names}
use tdns_mp.Instructions.Sets.{is_among}
use tdns_mp.Gossip.Model.{GossipMessage, GossipStateTable, MemberState, ProviderGroup, no_election}
use tdns_mp.Gossip.Merge.{
  group_takes, merge_gossip, merge_gossip_as, merge_rows, rows_of, taken_part,
}
use tdns_mp.Gossip.Newest.{All-covers, is_since}
use tdns_mp.Gossip.Build.{
  OwnWord, build_gossip_for_peer, copy_rows, message_for, shares, told_election,
}
use tdns_mp.Gossip.Copied.{
  Any-keep, IsCopied, IsTold-copy_rows, lookup-copy_rows, lookup-kept_rows, merge_rows_cases,
}

taken_rows :
    (N : Names) (sender : GossipStateTable) (word : Str → Option OwnWord) (g own : ProviderGroup)
    (from : Str) (from_answer : Bool)
    → let told = copy_rows (rows_of sender g.group_hash) in
      ((is_among N own.voting_members from ≡ true)
        × ((taken_part N (message_for sender word g) from own from_answer).members ≡ told))
      ⊎ ((is_among N own.voting_members from ≡ false)
          × ((taken_part N (message_for sender word g) from own from_answer).members
              ≡ keep (λ m. is_among N (m.0 ∷ []) from) told))
unfolding taken_part message_for
taken_rows N sender word g own from from_answer =
    ground (arith, Bool-cases (is_among N own.voting_members from))

merge_gossip-rows :
    (N : Names) (sender receiver : GossipStateTable) (word : Str → Option OwnWord)
    (g own : ProviderGroup) (from_answer : Bool) (now : ℕ)
    → str_eq own.group_hash g.group_hash ≡ true
    → is_among N own.members sender.local_id ≡ true
    → let msg = message_for sender word g in
      rows_of
        (merge_gossip N receiver (some msg) sender.local_id (some own) from_answer now).0
        g.group_hash
      ≡ merge_rows
          (rows_of receiver g.group_hash)
          (taken_part N msg sender.local_id own from_answer).members
unfolding merge_gossip group_takes message_for merge_gossip_as rows_of taken_part
merge_gossip-rows N sender receiver word g own from_answer now h k =
    let rows =
      merge_rows (rows_of receiver g.group_hash)
        (taken_part N (message_for sender word g) sender.local_id own from_answer).members in
    ground (arith, h, k, lookup-put g.group_hash rows receiver.states)

-- An agent that has the group, with the sender as a member, merges the gossip that the sender built
-- for it; the sender is a voting member, or the row is that of the sender itself. Of the member that
-- the sender has a row of, the agent then has a row that is no older; and this row is the one it
-- had, or a copy of the sender's. From a member that does not vote this is shown of that member's
-- own row alone.
pub message_for-merge_gossip :
    (N : Names) (sender receiver : GossipStateTable) (word : Str → Option OwnWord)
    (g own : ProviderGroup) (from_answer : Bool) (now : ℕ) (id : Str) (row : MemberState)
    → str_eq own.group_hash g.group_hash ≡ true
    → is_among N own.members sender.local_id ≡ true
    → (is_among N own.voting_members sender.local_id ≡ true)
      ⊎ (is_among N (id ∷ []) sender.local_id ≡ true)
    → lookup id (rows_of sender g.group_hash) ≡ some row
    → let msg = message_for sender word g in
      let r = merge_gossip N receiver (some msg) sender.local_id (some own) from_answer now in
      let held = lookup id (rows_of r.0 g.group_hash) in
      (is_since held row.timestamp ≡ true)
      × ((held ≡ lookup id (rows_of receiver g.group_hash))
          ⊎ Any (IsCopied id held) (rows_of sender g.group_hash))
message_for-merge_gossip N sender receiver word g own from_answer now id row h k voter e =
    let had = rows_of receiver g.group_hash in
    let rows = rows_of sender g.group_hash in
    let from = sender.local_id in
    let f = λ (a : Str). is_among N (a ∷ []) from in
    let whole = merge_gossip-rows N sender receiver word g own from_answer now h k in
    elim (taken_rows N sender word g own from from_answer) [
      | inl (votes, all_told) ↦
          subst
            (λ t.
              (is_since (lookup id t) row.timestamp ≡ true)
              × ((lookup id t ≡ lookup id had) ⊎ Any (IsCopied id (lookup id t)) rows))
            (sym (whole ∙ ap (merge_rows had) all_told))
            (
              lookup-copy_rows rows (merge_rows had (copy_rows rows)) id row e
                  (All-covers had (copy_rows rows)),
              elim (merge_rows_cases had id (copy_rows rows)) [
                | inl x ↦ inl x
                | inr a ↦ inr (IsTold-copy_rows id _ rows a)
              ],
            )
      | inr (silent, own_told) ↦
          let kept = keep (λ (m : Str × Option MemberState). f m.0) (copy_rows rows) in
          subst
            (λ t.
              (is_since (lookup id t) row.timestamp ≡ true)
              × ((lookup id t ≡ lookup id had) ⊎ Any (IsCopied id (lookup id t)) rows))
            (sym (whole ∙ ap (merge_rows had) own_told))
            (
              lookup-kept_rows f rows (merge_rows had kept) id row (ground (arith, silent, voter)) e
                  (All-covers had kept),
              elim (merge_rows_cases had id kept) [
                | inl x ↦ inl x
                | inr a ↦ inr (IsTold-copy_rows id _ rows (Any-keep _ _ (copy_rows rows) a))
              ],
            )
    ]

-- What a message tells a peer of the group it is about.
abbrev pub IsShared :
    GossipStateTable → Str → (Str → Option OwnWord) → List ProviderGroup → GossipMessage → Type 0
IsShared t peer word gs msg =
    Any
      (λ g.
        (g.group_hash ≡ msg.group_hash)
        × (contains g.members t.local_id ≡ true)
        × (contains g.members peer ≡ true))
      gs
    × ((w : OwnWord)
        → word msg.group_hash ≡ some w
        → w.known ≡ true
        → w.decided ≡ false
        → msg.election ≡ no_election)

message_for-IsShared :
    (t : GossipStateTable) (peer : Str) (word : Str → Option OwnWord) (g : ProviderGroup)
    (gs : List ProviderGroup)
    → shares t peer g ≡ true
    → IsShared t peer word (g ∷ gs) (message_for t word g)
unfolding message_for shares told_election
message_for-IsShared t peer word g gs h =
    (here (refl, ground (arith, h), ground (arith, h)), λ w e k d. ground (arith, e, k, d))

IsShared-there :
    (t : GossipStateTable) (peer : Str) (word : Str → Option OwnWord) (g : ProviderGroup)
    (gs : List ProviderGroup) (msgs : List GossipMessage)
    → All (IsShared t peer word gs) msgs
    → All (IsShared t peer word (g ∷ gs)) msgs
IsShared-there t peer word g gs msgs h = All-map msgs (λ msg s. (there s.0, s.1)) h

All-if :
    (P : GossipMessage → Type 0) (b : Bool) (m : GossipMessage) (ms : List GossipMessage)
    → (b ≡ true → P m)
    → All P ms
    → All P (if b then m ∷ ms else ms)
All-if P true m ms h k = (h refl, k)
All-if P false m ms h k = k

-- Gossip for a peer is about the groups that have both this agent and that peer as members; and for
-- a group where the agent has an election of its own that is not decided it tells no record, not
-- even one heard from a peer.
pub build_gossip_for_peer-IsShared :
    (t : GossipStateTable) (peer : Str) (word : Str → Option OwnWord) (gs : List ProviderGroup)
    → All (IsShared t peer word gs) (build_gossip_for_peer t peer word gs)
unfolding build_gossip_for_peer
build_gossip_for_peer-IsShared t peer word [] = tt
build_gossip_for_peer-IsShared t peer word (g ∷ gs) =
    All-if (IsShared t peer word (g ∷ gs)) (shares t peer g) (message_for t word g)
      (build_gossip_for_peer t peer word gs) (message_for-IsShared t peer word g gs)
      (IsShared-there t peer word g gs (build_gossip_for_peer t peer word gs)
        (build_gossip_for_peer-IsShared t peer word gs))
