-- ===== src/Election/Deciding.antt =====
-- A voter that determines the winner, and one whose timer fires, keep the election sound and say
-- nothing but the truth (Honest).
use mathlib.Core.Path.{subst, ap, refl, sym, ◌∙◌, ◌≡◌}
use tdns_mp.Prelude.{
  Bool, Bool-cases, List, Option, Option-cases, Str, [], all, all-append, arith, by_test, contains,
  false, if◌then◌else◌, inl, inr, leb, length, ltb, none, not, put, some, str_eq, str_eq_refl, true,
  ℕ, ◌++◌, ◌+◌, ◌<◌, ◌==◌, ◌||◌, ◌∷◌, ◌≤◌,
}
use tdns_mp.Names.{Names}
use tdns_mp.Election.Model.{
  Effect, ElectionManager, GroupNow, LeaderElection, determine_winner, elect_confirm, entry_of,
  send, two_64, with_entry,
}
use tdns_mp.Election.Lead.{retry_group_election}
use tdns_mp.Election.Rounds.{finalize_group_election}
use tdns_mp.Election.Manager.{
  determine_and_confirm_group, determine_with, on_group_confirm_timeout, on_group_vote_timeout,
}
use tdns_mp.Election.Full.{all-put_entry, determine_winner-full}
use tdns_mp.Election.Honest.{
  Carries, Keeps, Sound, honest, messages, spawn_fits, spawns, vote_of, winner_of,
}
use tdns_mp.Election.Says.{messages-append, spawns-append}
use tdns_mp.Election.Keeping.{Keeps-same, Keeps-with_entry}
use tdns_mp.Election.Truthful.{Carries-trans}
use tdns_mp.Election.Ending.{finalize_noted-Keeps}

-- What holds of a manager with no entry, and of one with an entry, holds of every one.
pub by_entry :
    (P : ElectionManager → Type 0) (m : ElectionManager)
    → P (record m { entry = none })
    → ((e : LeaderElection) → P (with_entry m e))
    → P m
by_entry P m empty held = elim (Option-cases (m.entry)) [
  | inl k ↦ subst P (sym (ap (λ o. record m { entry = o }) k)) empty
  | inr (e, k) ↦ subst P (sym (ap (λ o. record m { entry = o }) k)) (held e)
]

module _ (vs : List Str) (draw : ℕ → Str → ℕ) where
  full-winner_of :
      (e : LeaderElection)
      → e.active ≡ true
      → length vs ≤ length e.votes
      → Sound vs draw e
      → str_eq (determine_winner e.votes) (winner_of vs draw e.term) ≡ true
  unfolding winner_of
  full-winner_of e a l s =
      rw (determine_winner-full vs (vote_of vs draw e.term) e.votes (s.votes a) (s.keys a) l)
        (str_eq_refl (winner_of vs draw e.term))

  confirm_says :
      (a : Str) (zones : List Str) (term : ℕ) (w : Str)
      → contains vs a ≡ true
      → str_eq w (winner_of vs draw term) ≡ true
      → term < two_64
      → (all (honest vs draw) (messages a (send zones (elect_confirm term w))) ≡ true)
        × (spawns (send zones (elect_confirm term w)) ≡ [])
  unfolding send messages spawns honest
  confirm_says a [] term w h k t = ground (arith, h, k, t)
  confirm_says a (z ∷ zones) term w h k t = ground (arith, h, k, t)

  -- The election with this agent's own confirm.
  abbrev confirmed : ElectionManager → LeaderElection → ℕ → LeaderElection
  confirmed m e term =
      let confirms = put m.local_id (determine_winner e.votes) e.confirms in
      record e {
        confirms = confirms;
        confirm_timer = if leb (e.expected_peers + 1) (length confirms) then none else some term;
      }

  -- The goroutine of a full set of votes confirms the winner of the draws.
  determine_with-Keeps :
      (m : ElectionManager) (e : LeaderElection) (term : ℕ) (zones : List Str)
      → contains vs m.local_id ≡ true
      → e.active ≡ true
      → e.term ≡ term
      → length vs ≤ length e.votes
      → Sound vs draw e
      → let r = determine_with m e term zones in
        Sound vs draw (confirmed m e term)
        × Carries e (confirmed m e term)
        × (all (honest vs draw) (messages m.local_id r.2) ≡ true)
        × (spawns r.2 ≡ [])
  unfolding determine_with
  determine_with-Keeps m e term zones h a t l s =
      let won = full-winner_of e a l s in
      let agree =
        all-put_entry (λ c. str_eq c.1 (winner_of vs draw e.term)) m.local_id
          (determine_winner e.votes) e.confirms (s.confirms a) won in
      let said =
        confirm_says m.local_id zones term (determine_winner e.votes) h
          (ap (λ x. str_eq (determine_winner e.votes) (winner_of vs draw x)) (sym t) ∙ won)
          (omega (arith, t, s.bounded)) in
      (ground (arith, agree, s), ground arith, said.0, said.1)

  -- What is sent first says the truth, and then comes an operation that does.
  Keeps-sent :
      (a : Str) (e f : LeaderElection) (sent : List Effect) (r : ElectionManager × List Effect)
      → Carries e f
      → all (honest vs draw) (messages a sent) ≡ true
      → spawns sent ≡ []
      → Keeps vs draw a f r
      → Keeps vs draw a e (r.0, sent ++ r.1)
  Keeps-sent a e f sent r h k q s = record {
    local = s.local;
    sound = s.sound;
    carries = Carries-trans e f (entry_of r.0) h s.carries;
    says =
        rw (messages-append a sent r.1)
          (all-append (honest vs draw) (messages a sent) (messages a r.1) k s.says);
    starts = rw (spawns-append sent r.1, q) s.starts;
  }

  pub Keeps-if :
      (a : Str) (e : LeaderElection) (b : Bool) (r q : ElectionManager × List Effect)
      → (b ≡ true → Keeps vs draw a e r)
      → (b ≡ false → Keeps vs draw a e q)
      → Keeps vs draw a e (if b then r else q)
  Keeps-if a e b r q h k = by_test (Keeps vs draw a e) b r q h k

  determine_noted-Keeps :
      (n : Names) (m : ElectionManager) (e : LeaderElection) (g : Option GroupNow) (term : ℕ)
      (members zones : List Str) (now : ℕ)
      → contains vs m.local_id ≡ true
      → (e.active ≡ true → e.term ≡ term → length vs ≤ length e.votes)
      → Sound vs draw e
      → Keeps vs draw m.local_id e
          (determine_and_confirm_group n (with_entry m e) g term members zones now)
  unfolding determine_and_confirm_group determine_with entry_of finalize_group_election
  determine_noted-Keeps n m e g term members zones now h l s =
      elim (Bool-cases (not e.active || not (e.term == term))) [
        | inl x ↦ rw x (Keeps-with_entry vs draw m e e s (ground arith))
        | inr x ↦
            let a : e.active ≡ true = ground (arith, x) in
            let t : e.term ≡ term = ground (arith, x) in
            let kept = determine_with-Keeps (with_entry m e) e term zones h a t (l a t) s in
            let f = confirmed m e term in
            let (noted, complete, sent) = determine_with (with_entry m e) e term zones in
            let ended = finalize_group_election n noted g term members zones now in
            rw x (
              Keeps-if m.local_id e complete (ended.0, sent ++ ended.1) (noted, sent)
                (λ _.
                  Keeps-sent m.local_id e f sent ended kept.1 kept.2 kept.3
                    (finalize_noted-Keeps vs draw n m f g term members zones now kept.0))
                (λ _. record {
                  local = refl;
                  sound = kept.0;
                  carries = kept.1;
                  says = kept.2;
                  starts = rw kept.3 refl;
                }))
      ]

  pub determine_and_confirm_group-Keeps :
      (n : Names) (m : ElectionManager) (g : Option GroupNow) (term : ℕ) (members zones : List Str)
      (now : ℕ)
      → contains vs m.local_id ≡ true
      → spawn_fits vs draw (entry_of m) term ≡ true
      → Sound vs draw (entry_of m)
      → Keeps vs draw m.local_id
          (entry_of m)
          (determine_and_confirm_group n m g term members zones now)
  unfolding entry_of spawn_fits determine_and_confirm_group
  determine_and_confirm_group-Keeps n m g term members zones now =
      by_entry
        (λ m.
          contains vs m.local_id ≡ true
          → spawn_fits vs draw (entry_of m) term ≡ true
          → Sound vs draw (entry_of m)
          → Keeps vs draw m.local_id (entry_of m)
              (determine_and_confirm_group n m g term members zones now))
        m (λ h f s. Keeps-same vs draw (record m { entry = none }) s)
        (λ e h f s.
          determine_noted-Keeps n m e g term members zones now h (λ a t. ground (arith, f, a, t)) s)

  retry-Keeps :
      (m : ElectionManager) (e : LeaderElection) (term : ℕ)
      → Sound vs draw e
      → Keeps vs draw m.local_id e
          (with_entry m (retry_group_election term (record e { active = false })), [])
  unfolding retry_group_election messages spawns entry_of
  retry-Keeps m e term s = ground (arith, s)

  pub on_group_vote_timeout-Keeps :
      (n : Names) (m : ElectionManager) (g : Option GroupNow) (term : ℕ) (members zones : List Str)
      (now : ℕ)
      → contains vs m.local_id ≡ true
      → Sound vs draw (entry_of m)
      → Keeps vs draw m.local_id (entry_of m) (on_group_vote_timeout n m g term members zones now)
  unfolding entry_of on_group_vote_timeout
  on_group_vote_timeout-Keeps n m g term members zones now =
      by_entry
        (λ m.
          contains vs m.local_id ≡ true
          → Sound vs draw (entry_of m)
          → Keeps vs draw m.local_id (entry_of m)
              (on_group_vote_timeout n m g term members zones now))
        m (λ h s. Keeps-same vs draw (record m { entry = none }) s)
        (λ e h s.
          Keeps-if m.local_id e (not e.active || not (e.term == term)) _ _
            (λ x. Keeps-with_entry vs draw m e e s (ground arith))
            (λ x.
              Keeps-if m.local_id e (ltb (length e.votes) (e.expected_peers + 1)) _ _
                (λ y. retry-Keeps m e term s)
                (λ y.
                  determine_noted-Keeps n m e g term members zones now h
                    (λ a t. ground (arith, s, a, t, y)) s)))

  pub on_group_confirm_timeout-Keeps :
      (n : Names) (m : ElectionManager) (g : Option GroupNow) (term : ℕ) (members zones : List Str)
      (now : ℕ)
      → Sound vs draw (entry_of m)
      → Keeps vs draw m.local_id
          (entry_of m)
          (on_group_confirm_timeout n m g term members zones now)
  unfolding entry_of on_group_confirm_timeout
  on_group_confirm_timeout-Keeps n m g term members zones now =
      by_entry
        (λ m.
          Sound vs draw (entry_of m)
          → Keeps vs draw m.local_id (entry_of m)
              (on_group_confirm_timeout n m g term members zones now))
        m (λ s. Keeps-same vs draw (record m { entry = none }) s)
        (λ e s. elim (Bool-cases (not e.active || not (e.term == term))) [
          | inl x ↦ rw x (Keeps-with_entry vs draw m e e s (ground arith))
          | inr x ↦ rw x (elim (Bool-cases (ltb (length e.confirms) (e.expected_peers + 1))) [
            | inl y ↦ rw y (retry-Keeps m e term s)
            | inr y ↦ rw y (finalize_noted-Keeps vs draw n m e g term members zones now s)
          ])
        ])
