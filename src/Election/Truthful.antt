-- ===== src/Election/Truthful.antt =====
-- The answers of a voter to calls, votes and confirms keep its election sound and say nothing but
-- the truth (Honest).
use tdns_mp.Prelude.{
  Bool-cases, List, Str, ap, arith, contains, inl, inr, leb, length, not, true, ℕ, ◌<◌, ◌==◌, ◌||◌,
  ◌∙◌, ◌≡◌,
}
use tdns_mp.Election.Terms.{SameRound}
use tdns_mp.Election.Model.{Effect, ElectionManager, LeaderElection, entry_of, two_64, uint32}
use tdns_mp.Election.Lead.{keep_early_vote}
use tdns_mp.Election.Rounds.{handle_group_call, handle_group_vote}
use tdns_mp.Election.Full.{all-put_entry, distinct-put, length-put}
use tdns_mp.Election.Honest.{Carries, Keeps, Sound, messages, spawn_fits, spawns, vote_of}
use tdns_mp.Election.Keeping.{
  Keeps-with_entry, from_drawn, is_vote, join_call-Keeps, keep_early_vote-early,
}

pub Carries-trans : (e f g : LeaderElection) → Carries e f → Carries f g → Carries e g
Carries-trans e f g h k = ground (arith, h, k)

keep_early_vote-same :
    (term : ℕ) (from : Str) (vote : ℕ) (e : LeaderElection)
    → SameRound e (record (keep_early_vote term from vote e) {
      early_term = e.early_term;
      early_votes = e.early_votes;
    })
unfolding keep_early_vote
keep_early_vote-same term from vote e = ground arith

module _ (vs : List Str) (draw : ℕ → Str → ℕ) where
  pub Keeps-Carries :
      (a : Str) (e f : LeaderElection) (r : ElectionManager × List Effect)
      → Carries e f
      → Keeps vs draw a f r
      → Keeps vs draw a e r
  Keeps-Carries a e f r h k = record {
    local = k.local;
    sound = k.sound;
    carries = Carries-trans e f (entry_of r.0) h k.carries;
    says = k.says;
    starts = k.starts;
  }

  pub handle_group_call-Keeps :
      (m : ElectionManager) (from : Str) (term sent : ℕ) (zones : List Str)
      → 1 < length vs
      → contains vs m.local_id ≡ true
      → contains vs from ≡ true
      → sent ≡ vote_of vs draw term from
      → term < two_64
      → Sound vs draw (entry_of m)
      → Keeps vs draw m.local_id (entry_of m) (
          handle_group_call m
            (entry_of m)
            from
            term
            sent
            vs
            zones
            (vote_of vs draw term m.local_id))
  unfolding handle_group_call
  handle_group_call-Keeps m from term sent zones several h k v t s =
      elim (Bool-cases (leb term (entry_of m).term)) [
        | inl x ↦ rw x (Keeps-with_entry vs draw m (entry_of m) (entry_of m) s (ground arith))
        | inr x ↦ rw x (
            join_call-Keeps vs draw several m (entry_of m) from term sent zones h k v
              (ground (arith, x)) t s)
      ]

  keep_early_vote-Sound :
      (term vote : ℕ) (from : Str) (e : LeaderElection)
      → is_vote vs draw term (from, vote) ≡ true
      → Sound vs draw e
      → Sound vs draw (keep_early_vote term from vote e)
  keep_early_vote-Sound term vote from e v s =
      let early = keep_early_vote-early vs draw term vote from e v s.early in
      let same = keep_early_vote-same term from vote e in ground (arith, early, same, s)

  pub handle_group_vote-Keeps :
      (m : ElectionManager) (from : Str) (term sent : ℕ)
      → contains vs from ≡ true
      → sent ≡ vote_of vs draw term from
      → Sound vs draw (entry_of m)
      → Keeps vs draw m.local_id (entry_of m) (handle_group_vote m (entry_of m) from term sent)
  unfolding handle_group_vote messages spawns spawn_fits entry_of
  handle_group_vote-Keeps m from term sent k v s =
      let e = entry_of m in
      let drawn = from_drawn vs draw term sent from k v in
      elim (Bool-cases (not e.active || not (e.term == term))) [
        | inl x ↦ rw x (
            Keeps-with_entry vs draw m e (keep_early_vote term from (uint32 sent) e)
              (keep_early_vote-Sound term (uint32 sent) from e drawn s)
              (ground (arith, keep_early_vote-same term from (uint32 sent) e)))
        | inr x ↦
            let now : e.term ≡ term = ground (arith, x) in
            let full =
              all-put_entry (is_vote vs draw e.term) from (uint32 sent) e.votes
                (s.votes (ground (arith, x)))
                (ap (λ t. is_vote vs draw t (from, uint32 sent)) now ∙ drawn) in
            let apart = distinct-put from (uint32 sent) e.votes (s.keys (ground (arith, x))) in
            ground (arith, x, full, apart, s, length-put from (uint32 sent) e.votes)
      ]
