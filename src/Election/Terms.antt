-- ===== src/Election/Terms.antt =====
-- One member's terms: they never fall, and a term has one leader, whatever messages come.
use tdns_mp.Prelude.{
  List, Option, Option-cases, Str, [], arith, false, inl, inr, none, put, some, true, ℕ, ◌+◌, ◌<◌,
  ◌≡◌, ◌≤◌, ◌⊎◌,
}
use tdns_mp.Names.{Names}
use tdns_mp.Instructions.Sets.{members}
use tdns_mp.Election.Model.{
  ElectMsg, ElectionManager, GroupNow, LeaderElection, elect_call, elect_confirm, elect_vote,
  entry_of, next_term, read_msg, two_64, with_entry,
}
use tdns_mp.Election.Wraps.{next_term_lem}
use tdns_mp.Election.Lead.{
  keep_early_vote, note_leader, retry_group_election, schedule_group_reelection, take_early_votes,
}
use tdns_mp.Election.Rounds.{
  agreed_from, begin_election, finalize_group_election, finalize_with, handle_group_call,
  handle_group_vote, join_call, self_elect, set_leader,
}
use tdns_mp.Election.Manager.{
  determine_and_confirm_group, determine_with, handle_group_confirm, handle_group_message,
  handle_message, invalidate_group_leader, on_group_confirm_timeout, on_group_vote_timeout,
  renewal_fired, retry_fired, start_group_election,
}
use tdns_mp.Election.Heard.{
  apply_gossip_election, ask_in_term, is_news, is_observer, rearm, take_news,
}
use tdns_mp.Gossip.Merge.{observer_takes}
use tdns_mp.Gossip.Model.{GroupElectionState}

-- The leader's term is not past the election's, and is before that of an election that runs.
pub record TermsFit (e : LeaderElection) : Type 0 where
  pub known : e.leader_term ≤ e.term
  pub running : e.active ≡ true → e.leader_term < e.term

-- The second comes after the first: no term is lower, and the leader of a term is not replaced.
pub record ComesAfter (e f : LeaderElection) : Type 0 where
  pub fits : TermsFit f
  pub term : e.term ≤ f.term
  pub leader :
      (e.leader_term < f.leader_term)
      ⊎ ((e.leader_term ≡ f.leader_term) × ((f.leader ≡ e.leader) ⊎ (f.leader ≡ [])))

-- Naming a leader changes the numbers of the lead alone.
abbrev pub SameRound : LeaderElection → LeaderElection → Type 0
SameRound e f =
    (f.term ≡ e.term)
    × (f.leader ≡ e.leader)
    × (f.leader_term ≡ e.leader_term)
    × (f.active ≡ e.active)
    × (f.votes ≡ e.votes)
    × (f.confirms ≡ e.confirms)
    × (f.expected_peers ≡ e.expected_peers)
    × (f.early_term ≡ e.early_term)
    × (f.early_votes ≡ e.early_votes)
    × (f.gone ≡ e.gone)

pub note_leader-same :
    (local : Str) (leads : ℕ) (e : LeaderElection) (leader : Str) (now : ℕ)
    → SameRound e (note_leader local leads e leader now).0
unfolding note_leader
note_leader-same local leads e leader now = ground arith

finalize_with-after :
    (n : Names) (m : ElectionManager) (e : LeaderElection) (g : Option GroupNow)
    (members zones : List Str) (now : ℕ)
    → TermsFit e
    → e.active ≡ true
    → ComesAfter e (entry_of (finalize_with n m e g members zones now).0)
unfolding finalize_with entry_of set_leader schedule_group_reelection retry_group_election
finalize_with-after n m e g members zones now h a =
    elim (Option-cases (agreed_from [] e.confirms)) [
      | inl k ↦ ground (arith, k, h, a)
      | inr (w, k) ↦ ground (arith, k, h, a, note_leader-same m.local_id m.leads e w now)
    ]

-- Nothing happened.
pub ComesAfter-same : (e : LeaderElection) → TermsFit e → ComesAfter e e
ComesAfter-same e h = ground (arith, h)

module _ (n : Names) where
  pub start_group_election-after :
      (m : ElectionManager) (g : Option GroupNow) (armed : Option ℕ) (vote now : ℕ)
      → (entry_of m).term + 1 < two_64
      → TermsFit (entry_of m)
      → ComesAfter (entry_of m) (entry_of (start_group_election n m g armed vote now).0)
  unfolding start_group_election entry_of self_elect begin_election set_leader take_early_votes
      schedule_group_reelection
  start_group_election-after m g armed vote now t h = ground (
    arith,
    h,
    next_term_lem (entry_of m) t,
    note_leader-same m.local_id m.leads (record (entry_of m) { term = next_term (entry_of m) })
        m.local_id now,
  )

  finalize_group_election-after :
      (m : ElectionManager) (g : Option GroupNow) (term : ℕ) (members zones : List Str) (now : ℕ)
      → TermsFit (entry_of m)
      → ComesAfter (entry_of m) (entry_of (finalize_group_election n m g term members zones now).0)
  unfolding finalize_group_election entry_of
  finalize_group_election-after m g term members zones now h = elim (Option-cases (m.entry)) [
    | inl k ↦ ground (arith, k, h)
    | inr (e, k) ↦ ground (arith, k, h, finalize_with-after n m e g members zones now)
  ]

  pub determine_and_confirm_group-after :
      (m : ElectionManager) (g : Option GroupNow) (term : ℕ) (members zones : List Str) (now : ℕ)
      → TermsFit (entry_of m)
      → ComesAfter
          (entry_of m)
          (entry_of (determine_and_confirm_group n m g term members zones now).0)
  unfolding determine_and_confirm_group entry_of determine_with
  determine_and_confirm_group-after m g term members zones now h = elim (Option-cases (m.entry)) [
    | inl k ↦ ground (arith, k, h)
    | inr (e, k) ↦ ground (
      arith,
      k,
      h,
      finalize_group_election-after (determine_with m e term zones).0 g term members zones now,
    )
  ]

  pub on_group_confirm_timeout-after :
      (m : ElectionManager) (g : Option GroupNow) (term : ℕ) (members zones : List Str) (now : ℕ)
      → TermsFit (entry_of m)
      → ComesAfter (entry_of m) (entry_of (on_group_confirm_timeout n m g term members zones now).0)
  unfolding on_group_confirm_timeout entry_of retry_group_election
  on_group_confirm_timeout-after m g term members zones now h = elim (Option-cases (m.entry)) [
    | inl k ↦ ground (arith, k, h)
    | inr (e, k) ↦ ground (arith, k, h, finalize_group_election-after m g term members zones now)
  ]

  pub on_group_vote_timeout-after :
      (m : ElectionManager) (g : Option GroupNow) (term : ℕ) (members zones : List Str) (now : ℕ)
      → TermsFit (entry_of m)
      → ComesAfter (entry_of m) (entry_of (on_group_vote_timeout n m g term members zones now).0)
  unfolding on_group_vote_timeout entry_of retry_group_election
  on_group_vote_timeout-after m g term members zones now h = elim (Option-cases (m.entry)) [
    | inl k ↦ ground (arith, k, h)
    | inr (e, k) ↦
        ground (arith, k, h, determine_and_confirm_group-after m g term members zones now)
  ]

  handle_message-after :
      (m : ElectionManager) (g : GroupNow) (from : Str) (msg : ElectMsg) (vote now : ℕ)
      → TermsFit (entry_of m)
      → ComesAfter (entry_of m) (entry_of (handle_message n m g from msg vote now).0)
  unfolding handle_message handle_group_call join_call handle_group_vote handle_group_confirm
      keep_early_vote take_early_votes entry_of
  handle_message-after m g from (elect_call term sent) vote now h = ground (arith, h)
  handle_message-after m g from (elect_vote term sent) vote now h = ground (arith, h)
  handle_message-after m g from (elect_confirm term winner) vote now h =
      let e = entry_of m in
      let noted =
        with_entry m (record e { confirms = put from winner e.confirms; confirm_timer = none }) in
      ground
        (arith, h, finalize_group_election-after noted (some g) term g.voting_members g.zones now)

  pub handle_group_message-after :
      (m : ElectionManager) (g : Option GroupNow) (from : Str) (msg : ElectMsg) (vote now : ℕ)
      → TermsFit (entry_of m)
      → ComesAfter (entry_of m) (entry_of (handle_group_message n m g from msg vote now).0)
  unfolding handle_group_message
  handle_group_message-after m none from msg vote now h = ComesAfter-same (entry_of m) h
  handle_group_message-after m (some g) from msg vote now h = ground (
    arith,
    h,
    ComesAfter-same (entry_of m) h,
    handle_message-after m g from (read_msg msg) vote now h,
  )

  pub retry_fired-after :
      (m : ElectionManager) (g : GroupNow) (armed vote now : ℕ)
      → (entry_of m).term + 1 < two_64
      → TermsFit (entry_of m)
      → ComesAfter (entry_of m) (entry_of (retry_fired n m (some g) armed vote now).0)
  unfolding retry_fired
  retry_fired-after m g armed vote now t h = ground (
    arith,
    h,
    ComesAfter-same (entry_of m) h,
    start_group_election-after m (some g) (some armed) vote now t h,
  )

  pub renewal_fired-after :
      (m : ElectionManager) (g : GroupNow) (armed vote now : ℕ)
      → (entry_of m).term + 1 < two_64
      → TermsFit (entry_of m)
      → ComesAfter (entry_of m) (entry_of (renewal_fired n m (some g) armed vote now).0)
  unfolding renewal_fired
  renewal_fired-after m g armed vote now t h =
      ground (arith, h, ComesAfter-same (entry_of m) h, retry_fired-after m g armed vote now t h)

  pub invalidate_group_leader-after :
      (m : ElectionManager) (now : ℕ)
      → TermsFit (entry_of m)
      → ComesAfter (entry_of m) (entry_of (invalidate_group_leader m now).0)
  unfolding invalidate_group_leader entry_of
  invalidate_group_leader-after m now h = elim (Option-cases (m.entry)) [
    | inl k ↦ ground (arith, k, h)
    | inr (e, k) ↦ ground (arith, k, h, note_leader-same m.local_id m.leads e [] now)
  ]

  pub apply_gossip_election-after :
      (m : ElectionManager) (g : Option GroupNow) (state : GroupElectionState) (now : ℕ)
      → is_observer n m g ≡ false
      → TermsFit (entry_of m)
      → ComesAfter (entry_of m) (entry_of (apply_gossip_election n m g state now).0)
  unfolding apply_gossip_election is_news observer_takes take_news ask_in_term rearm
      schedule_group_reelection entry_of
  apply_gossip_election-after m g state now o h = ground (
    arith,
    h,
    o,
    note_leader-same m.local_id m.leads (record (entry_of m) { term = state.term }) state.leader
        now,
  )
