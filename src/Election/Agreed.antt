-- ===== src/Election/Agreed.antt =====
-- The voters agree: whatever order things come in, a term has one leader in the whole group.
use tdns_mp.Prelude.{
  List, Str, ap, arith, contains, false, is_empty, length, none, refl, str_eq→eq, sym, true, ℕ, ◌<◌,
  ◌∙◌, ◌≡◌,
}
use tdns_mp.Names.{Names}
use tdns_mp.Election.Model.{ElectionManager, determine_winner, entry_of}
use tdns_mp.Election.Manager.{group_election_for_gossip}
use tdns_mp.Election.Honest.{Sound, honest, honest_record, vote_of, winner_of}
use tdns_mp.Election.Voting.{
  handle_group_message-Keeps, invalidate_group_leader-Keeps, renewal_fired-Keeps, retry_fired-Keeps,
  start_group_election-Keeps,
}
use tdns_mp.Election.Deciding.{
  determine_and_confirm_group-Keeps, on_group_confirm_timeout-Keeps, on_group_vote_timeout-Keeps,
}
use tdns_mp.Election.Hearing.{apply_gossip_election-Keeps, group_election_for_gossip-honest}
use tdns_mp.Election.Network.{
  Network, Reached, after_tell, begun, calls, confirm_timer_fires, determines, hears, invalidates,
  receives, renews, retries, tells, vote_timer_fires,
}
use tdns_mp.Election.Full.{draws}
use tdns_mp.Election.Agreement.{Holds, after_op-Holds, all-Mem, fits_at}

module _ (vs : List Str) (draw : ℕ → Str → ℕ) where
  begun-Sound : (m : ElectionManager) → m.entry ≡ none → Sound vs draw (entry_of m)
  unfolding entry_of
  begun-Sound m k = ground (arith, k)

  voter :
      (net : Network) (a : Str)
      → Holds vs draw net
      → contains vs a ≡ true
      → contains vs (net.agents a).local_id ≡ true
  voter net a h c = rw (h.local a) c

  after_tell-Holds :
      (n : Names) (net : Network) (a : Str)
      → Holds vs draw net
      → (group_election_for_gossip (net.agents a)).1 ≡ true
      → (entry_of (net.agents a)).term < 4294967296
      → Holds vs draw (after_tell net a)
  after_tell-Holds n net a h k t = record {
    local = h.local;
    sound = h.sound;
    said = h.said;
    started = h.started;
    told =
        ground (
          arith,
          h.told,
          group_election_for_gossip-honest vs draw n (net.agents a) (h.sound a) t k,
        );
  }

  module _ (n : Names) (several : 1 < length vs) where
    Reached-Holds : (net : Network) → Reached vs draw n net → Holds vs draw net
    Reached-Holds _ (begun agents h) = record {
      local = λ a. (h a).0;
      sound = λ a. begun-Sound (agents a) (h a).1;
      said = refl;
      started = refl;
      told = refl;
    }
    Reached-Holds _ (calls net a zones armed now r c t) =
        let h = Reached-Holds net r in
        after_op-Holds vs draw net a _ h c (
          start_group_election-Keeps vs draw n (net.agents a) zones armed now t several
            (voter net a h c) (h.sound a))
    Reached-Holds _ (renews net a zones armed now r c t) =
        let h = Reached-Holds net r in
        after_op-Holds vs draw net a _ h c (
          renewal_fired-Keeps vs draw n (net.agents a) zones armed now t several (voter net a h c)
            (h.sound a))
    Reached-Holds _ (retries net a zones armed now r c t) =
        let h = Reached-Holds net r in
        after_op-Holds vs draw net a _ h c (
          retry_fired-Keeps vs draw n (net.agents a) zones armed now t several (voter net a h c)
            (h.sound a))
    Reached-Holds _ (receives net a zones from msg now r c m) =
        let h = Reached-Holds net r in
        after_op-Holds vs draw net a _ h c (
          handle_group_message-Keeps vs draw n (net.agents a) zones from msg now several
            (voter net a h c) (all-Mem (honest vs draw) (from, msg) net.sent h.said m) (h.sound a))
    Reached-Holds _ (determines net a g term members zones now r m) =
        let h = Reached-Holds net r in
        let fits = all-Mem (fits_at vs draw net.agents) (a, term) net.spawned h.started m in
        let c : contains vs a ≡ true = ground (arith, fits) in
        after_op-Holds vs draw net a _ h c (
          determine_and_confirm_group-Keeps vs draw n (net.agents a) g term members zones now
            (voter net a h c) (ground (arith, fits)) (h.sound a))
    Reached-Holds _ (vote_timer_fires net a g term members zones now r c) =
        let h = Reached-Holds net r in
        after_op-Holds vs draw net a _ h c (
          on_group_vote_timeout-Keeps vs draw n (net.agents a) g term members zones now
            (voter net a h c) (h.sound a))
    Reached-Holds _ (confirm_timer_fires net a g term members zones now r c) =
        let h = Reached-Holds net r in
        after_op-Holds vs draw net a _ h c (
          on_group_confirm_timeout-Keeps vs draw n (net.agents a) g term members zones now
            (h.sound a))
    Reached-Holds _ (tells net a r k t) = after_tell-Holds n net a (Reached-Holds net r) k t
    Reached-Holds _ (hears net a g state now r c m o) =
        let h = Reached-Holds net r in
        after_op-Holds vs draw net a _ h c (
          apply_gossip_election-Keeps vs draw n (net.agents a) g state now o
            (all-Mem (honest_record vs draw) state net.told h.told m) (h.sound a))
    Reached-Holds _ (invalidates net a now r c) =
        let h = Reached-Holds net r in
        after_op-Holds vs draw net a _ h c
          (invalidate_group_leader-Keeps vs draw n (net.agents a) now (h.sound a))

  held-winner :
      (net : Network) (a : Str)
      → Holds vs draw net
      → let e = entry_of (net.agents a) in
        is_empty e.leader ≡ false
        → e.leader ≡ determine_winner (draws vs (vote_of vs draw e.leader_term))
  unfolding winner_of
  held-winner net a h k =
      let e = entry_of (net.agents a) in
      str_eq→eq e.leader (winner_of vs draw e.leader_term) ((h.sound a).leader k)

-- Two or more voters, none of which holds an election at first, and whose group keeps its voters:
-- whatever calls, renewals, retries, timeouts, messages (late, repeated, lost or in any order),
-- goroutines and gossip come, in whatever order, a leader that an agent holds is the winner of the
-- votes that all the voters drew for its term. No agent restarts, no election is called from
-- the last term of a uint64, and a term that is told by gossip is below 2 ^ 32.
pub held_leader_lem :
    (vs : List Str) (draw : ℕ → Str → ℕ) (n : Names) (net : Network) (a : Str)
    → 1 < length vs
    → Reached vs draw n net
    → is_empty (entry_of (net.agents a)).leader ≡ false
    → (entry_of (net.agents a)).leader
      ≡ determine_winner (draws vs (vote_of vs draw (entry_of (net.agents a)).leader_term))
held_leader_lem vs draw n net a several r k =
    held-winner vs draw net a (Reached-Holds vs draw n several net r) k

-- Two or more voters, none of which holds an election at first, and whose group keeps its voters:
-- whatever calls, renewals, retries, timeouts, messages (late, repeated, lost or in any order),
-- goroutines and gossip come, in whatever order, two agents that hold leaders of the same term hold
-- the same leader. No agent restarts, no election is called from the
-- last term of a uint64, and a term that is told by gossip is below 2 ^ 32.
pub agreement_lem :
    (vs : List Str) (draw : ℕ → Str → ℕ) (n : Names) (net : Network) (a b : Str)
    → 1 < length vs
    → Reached vs draw n net
    → is_empty (entry_of (net.agents a)).leader ≡ false
    → is_empty (entry_of (net.agents b)).leader ≡ false
    → (entry_of (net.agents a)).leader_term ≡ (entry_of (net.agents b)).leader_term
    → (entry_of (net.agents a)).leader ≡ (entry_of (net.agents b)).leader
agreement_lem vs draw n net a b several r k l t =
    held_leader_lem vs draw n net a several r k
    ∙ ap (λ term. determine_winner (draws vs (vote_of vs draw term))) t
    ∙ sym (held_leader_lem vs draw n net b several r l)
