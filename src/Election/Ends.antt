-- ===== src/Election/Ends.antt =====
-- An election ends: its two timers end it, decided or to be tried again; and what is stale or of a
-- stranger does nothing.
use tdns_mp.Prelude.{
  Bool, List, Option, Option-cases, Str, [], ap, arith, by_test, false, inl, inr, is_empty, length,
  ltb, none, not, refl, some, true, ℕ, ◌&&◌, ◌+◌, ◌<◌, ◌==◌, ◌||◌, ◌≡◌, ◌⊎◌,
}
use tdns_mp.Election.Deciding.{by_entry}
use tdns_mp.Names.{Names}
use tdns_mp.Instructions.Sets.{is_among, members}
use tdns_mp.Election.Wraps.{parse_uint64_le}
use tdns_mp.Election.Model.{
  Effect, ElectMsg, ElectionManager, GroupNow, LeaderElection, elect_call, elect_confirm,
  elect_vote, entry_of, read_msg, with_entry,
}
use tdns_mp.Election.Lead.{keep_early_vote, retry_group_election, schedule_group_reelection}
use tdns_mp.Election.Rounds.{
  agreed_from, finalize_group_election, finalize_with, handle_group_call, handle_group_vote,
  set_leader,
}
use tdns_mp.Election.Terms.{note_leader-same}
use tdns_mp.Election.Manager.{
  determine_and_confirm_group, determine_with, handle_group_confirm, handle_group_message,
  handle_message, on_group_confirm_timeout, on_group_vote_timeout,
}
use tdns_mp.Election.Voting.{msg_term}

-- The election of a term has ended: with a leader of the term, or with a retry, unless its group is
-- gone.
abbrev pub Ended : ℕ → LeaderElection → Type 0
Ended term e =
    (e.active ≡ false)
    × (((e.leader_term ≡ term) × (is_empty e.leader ≡ false))
        ⊎ ((e.retry_timer ≡ some term) ⊎ (e.gone ≡ true)))

-- Whether the agent is a voter of the group.
unfoldable pub is_voters : Names → Option GroupNow → Str → Bool
is_voters n none a = false
is_voters n (some g) a = is_among n g.voting_members a

module _ (n : Names) where
  finalize_with-Ended :
      (m : ElectionManager) (e : LeaderElection) (g : Option GroupNow) (members zones : List Str)
      (now : ℕ)
      → Ended e.term (entry_of (finalize_with n m e g members zones now).0)
  unfolding finalize_with entry_of set_leader schedule_group_reelection retry_group_election
  finalize_with-Ended m e g members zones now = elim (Option-cases (agreed_from [] e.confirms)) [
    | inl k ↦ ground (arith, k)
    | inr (w, k) ↦ ground (arith, k, note_leader-same m.local_id m.leads e w now)
  ]

  finalize_noted-Ended :
      (m : ElectionManager) (e : LeaderElection) (g : Option GroupNow) (term : ℕ)
      (members zones : List Str) (now : ℕ)
      → e.active ≡ true
      → e.term ≡ term
      → Ended term
          (entry_of (finalize_group_election n (with_entry m e) g term members zones now).0)
  unfolding finalize_group_election
  finalize_noted-Ended m e g term members zones now a t =
      let ended = finalize_with-Ended (with_entry m e) e g members zones now in
      ground (arith, a, t, ended)

  -- After the vote timer the election has ended, or it runs and waits for confirms.
  abbrev Ends : ℕ → ElectionManager × List Effect → Type 0
  Ends term r = Ended term (entry_of r.0)

  abbrev EndedOrRuns : ℕ → ElectionManager × List Effect → Type 0
  EndedOrRuns term r =
      Ended term (entry_of r.0) ⊎ (((entry_of r.0).active ≡ true) × ((entry_of r.0).term ≡ term))

  determine_noted-Ended :
      (m : ElectionManager) (e : LeaderElection) (g : Option GroupNow) (members zones : List Str)
      (now : ℕ)
      → e.active ≡ true
      → EndedOrRuns e.term
          (determine_and_confirm_group n (with_entry m e) g e.term members zones now)
  unfolding determine_and_confirm_group determine_with entry_of
  determine_noted-Ended m e g members zones now a =
      let (noted, complete, sent) = determine_with (with_entry m e) e e.term zones in
      by_test (EndedOrRuns e.term) (not e.active || not (e.term == e.term)) _ _
        (λ x. absurd (ground (arith, a, x)))
        (λ x.
          by_test (EndedOrRuns e.term) complete _ _
            (λ y. inl (finalize_noted-Ended m _ g e.term members zones now a refl))
            (λ y. inr (a, refl)))

  on_group_vote_timeout-Ended :
      (m : ElectionManager) (e : LeaderElection) (g : Option GroupNow) (members zones : List Str)
      (now : ℕ)
      → e.active ≡ true
      → EndedOrRuns e.term (on_group_vote_timeout n (with_entry m e) g e.term members zones now)
  unfolding on_group_vote_timeout retry_group_election entry_of
  on_group_vote_timeout-Ended m e g members zones now a =
      by_test (EndedOrRuns e.term) (not e.active || not (e.term == e.term)) _ _
        (λ x. absurd (ground (arith, a, x)))
        (λ x.
          by_test (EndedOrRuns e.term) (ltb (length e.votes) (e.expected_peers + 1)) _ _
            (λ y. inl (ground arith)) (λ y. determine_noted-Ended m e g members zones now a))

  -- The confirm timer ends what runs, and leaves alone what does not.
  on_group_confirm_timeout-Ended :
      (m : ElectionManager) (g : Option GroupNow) (term : ℕ) (members zones : List Str) (now : ℕ)
      → EndedOrRuns term (m, [])
      → Ended term (entry_of (on_group_confirm_timeout n m g term members zones now).0)
  unfolding on_group_confirm_timeout retry_group_election entry_of
  on_group_confirm_timeout-Ended m g term members zones now =
      by_entry
        (λ m.
          EndedOrRuns term (m, [])
          → Ended term (entry_of (on_group_confirm_timeout n m g term members zones now).0))
        m (λ h. ground (arith, h))
        (λ e h.
          by_test (Ends term) (not e.active || not (e.term == term)) _ _ (λ x. ground (arith, x, h))
            (λ x.
              by_test (Ends term) (ltb (length e.confirms) (e.expected_peers + 1)) _ _
                (λ y. ground arith)
                (λ y.
                  finalize_noted-Ended m e g term members zones now (ground (arith, x))
                    (ground (arith, x)))))

-- An election that runs, with any votes and confirms: when the vote timer of its term fires, and then
-- the confirm timer, it runs no longer. It has a leader for the term, or it is tried again, unless
-- the group has gone.
pub timeouts_end_lem :
    (n : Names) (m : ElectionManager) (e : LeaderElection) (g h : Option GroupNow)
    (voters zones : List Str) (now later : ℕ)
    → m.entry ≡ some e
    → e.active ≡ true
    → let waited = (on_group_vote_timeout n m g e.term voters zones now).0 in
      Ended e.term (entry_of (on_group_confirm_timeout n waited h e.term voters zones later).0)
timeouts_end_lem n m e g h voters zones now later k a =
    let same : m ≡ with_entry m e = ap (λ o. record m { entry = o }) k in
    rw same (
      on_group_confirm_timeout-Ended n _ h e.term voters zones later
        (on_group_vote_timeout-Ended n m e g voters zones now a))

-- What a message does not change: nothing when the group is gone, or its sender or this agent is not
-- a voter; and when its term is below the election's, the election stays. Neither says anything.
pub refused_message_lem :
    (n : Names) (m : ElectionManager) (g : Option GroupNow) (from : Str) (msg : ElectMsg)
    (vote now : ℕ)
    → (is_voters n g from && is_voters n g m.local_id ≡ false) ⊎ (msg_term msg < (entry_of m).term)
    → (entry_of (handle_group_message n m g from msg vote now).0 ≡ entry_of m)
      × ((handle_group_message n m g from msg vote now).1 ≡ [])
unfolding is_voters handle_group_message handle_message handle_group_call handle_group_vote
    handle_group_confirm keep_early_vote msg_term entry_of read_msg
refused_message_lem n m none from msg vote now h = (refl, refl)
refused_message_lem n m (some g) from (elect_call t v) vote now h =
    ground (arith, h, parse_uint64_le t)
refused_message_lem n m (some g) from (elect_vote t v) vote now h =
    ground (arith, h, parse_uint64_le t)
refused_message_lem n m (some g) from (elect_confirm t v) vote now h =
    ground (arith, h, parse_uint64_le t)
