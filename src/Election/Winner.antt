-- ===== src/Election/Winner.antt =====
-- determineWinner picks the highest vote, and of equal ones the agent that comes first; so it does not
-- depend on the order in which a map of votes is walked.
use mathlib.Core.Path.{subst, ap, refl, sym, ◌∙◌, ◌≡◌}
use tdns_mp.Prelude.{
  All, Any, Bool-cases, List, Str, [], arith, false, here, inl, inr, str_leb, str_leb_antisym,
  str_leb_refl, str_leb_total, str_leb_trans, there, true, ℕ, ◌<◌, ◌==◌, ◌↔◌, ◌∷◌, ◌≢◌, ◌⊎◌,
}
use tdns_mp.Election.Model.{better, determine_winner, winner_from, winner_step}

better_trans : (a b c : Str × ℕ) → better a b ≡ false → better b c ≡ false → better a c ≡ false
unfolding better
better_trans a b c h k = ground (arith, str_leb_trans a.0 b.0 c.0)

better_refl : (a : Str × ℕ) → better a a ≡ false
unfolding better
better_refl a = ground (arith, str_leb_refl a.0)

better_asym : (a b : Str × ℕ) → better a b ≡ true → better b a ≡ false
unfolding better
better_asym a b h = ground (arith, str_leb_total a.0 b.0)

-- Neither is better: they are the same.
better_antisym : (a b : Str × ℕ) → better a b ≡ false → better b a ≡ false → a ≡ b
unfolding better
better_antisym (x, v) (y, w) h k =
    let e : v ≡ w = ground arith in
    cc (e, str_leb_antisym x y (ground (arith, h)) (ground (arith, k)))

winner_step-no_worse :
    (best x y : Str × ℕ) → better best x ≡ false → better (winner_step best y) x ≡ false
unfolding winner_step
winner_step-no_worse best x y h = elim (Bool-cases (better best y)) [
  | inl e ↦ rw e (better_trans y best x (better_asym best y e) h)
  | inr e ↦ rw e h
]

winner_step-covers : (best y : Str × ℕ) → better (winner_step best y) y ≡ false
unfolding winner_step
winner_step-covers best y = elim (Bool-cases (better best y)) [
  | inl e ↦ rw e (better_refl y)
  | inr e ↦ rw e e
]

winner_from-no_worse :
    (best x : Str × ℕ) (votes : List (Str × ℕ))
    → better best x ≡ false
    → better (winner_from best votes) x ≡ false
unfolding winner_from
winner_from-no_worse best x [] h = h
winner_from-no_worse best x (y ∷ votes) h =
    winner_from-no_worse (winner_step best y) x votes (winner_step-no_worse best x y h)

-- The votes have an entry.
abbrev pub HasVote : List (Str × ℕ) → Str × ℕ → Type 0
HasVote votes x = Any (λ y. y ≡ x) votes

HasVote-no_worse :
    (best x : Str × ℕ) (votes : List (Str × ℕ))
    → HasVote votes x
    → better (winner_from best votes) x ≡ false
unfolding winner_from
HasVote-no_worse best x [] m = elim m [ ]
HasVote-no_worse best x (y ∷ votes) (here e) =
    subst (λ z. better (winner_from (winner_step best y) votes) z ≡ false) e
      (winner_from-no_worse (winner_step best y) y votes (winner_step-covers best y))
HasVote-no_worse best x (y ∷ votes) (there m) = HasVote-no_worse (winner_step best y) x votes m

winner_step_taken : (best y : Str × ℕ) → better best y ≡ true → winner_step best y ≡ y
unfolding winner_step
winner_step_taken best y b = rw b

winner_step_kept : (best y : Str × ℕ) → better best y ≡ false → winner_step best y ≡ best
unfolding winner_step
winner_step_kept best y b = rw b

start_is_worse : (id : Str) (vote : ℕ) → 0 < vote → better ([], 0) (id, vote) ≢ false
unfolding better
start_is_worse id vote h = λ e. ground (arith, e)

no_worse_order :
    (w x : Str × ℕ) → better w x ≡ false → (x.1 < w.1) ⊎ ((x.1 ≡ w.1) × (str_leb w.0 x.0 ≡ true))
unfolding better
no_worse_order w x h = elim (Bool-cases (x.1 == w.1)) [
  | inl e ↦ inr (ground (arith, e), ground (arith, h, e))
  | inr e ↦ inl (ground (arith, h, e))
]

winner_from-HasVote :
    (best : Str × ℕ) (votes : List (Str × ℕ))
    → (winner_from best votes ≡ best) ⊎ HasVote votes (winner_from best votes)
unfolding winner_from
winner_from-HasVote best [] = inl refl
winner_from-HasVote best (y ∷ votes) = elim (winner_from-HasVote (winner_step best y) votes) [
  | inr m ↦ inr (there m)
  | inl e ↦ elim (Bool-cases (better best y)) [
    | inl b ↦ inr (here (sym (e ∙ winner_step_taken best y b)))
    | inr b ↦ inl (e ∙ winner_step_kept best y b)
  ]
]

winner_from-le :
    (best : Str × ℕ) (votes more : List (Str × ℕ))
    → ((x : Str × ℕ) → HasVote votes x → HasVote more x)
    → better (winner_from best more) (winner_from best votes) ≡ false
winner_from-le best votes more sub = elim (winner_from-HasVote best votes) [
  | inl e ↦
      subst (λ z. better (winner_from best more) z ≡ false) (sym e)
        (winner_from-no_worse best best more (better_refl best))
  | inr m ↦ HasVote-no_worse best (winner_from best votes) more (sub (winner_from best votes) m)
]

-- Two sets of votes with the same entries have the same winner, in whatever order they are walked.
pub determine_winner-same :
    (votes more : List (Str × ℕ))
    → ((x : Str × ℕ) → HasVote votes x ↔ HasVote more x)
    → determine_winner votes ≡ determine_winner more
unfolding determine_winner
determine_winner-same votes more same =
    ap (λ x. x.0)
      (better_antisym (winner_from ([], 0) votes) (winner_from ([], 0) more)
        (winner_from-le ([], 0) more votes (λ x. (same x).1))
        (winner_from-le ([], 0) votes more (λ x. (same x).0)))

All-HasVote :
    (P : Str × ℕ → Type 0) (votes : List (Str × ℕ))
    → ((x : Str × ℕ) → HasVote votes x → P x)
    → All P votes
All-HasVote P [] h = tt
All-HasVote P (x ∷ votes) h = (h x (here refl), All-HasVote P votes (λ y m. h y (there m)))

-- When some vote is not 0, the winner has a vote, no agent has a higher one, and the winner comes
-- no later than any agent with the same vote.
pub determine_winner-best :
    (votes : List (Str × ℕ)) (id : Str) (vote : ℕ)
    → HasVote votes (id, vote)
    → 0 < vote
    → (top : ℕ) × HasVote votes (determine_winner votes, top)
      × All (λ x. (x.1 < top) ⊎ ((x.1 ≡ top) × (str_leb (determine_winner votes) x.0 ≡ true))) votes
unfolding determine_winner
determine_winner-best votes id vote m pos =
    let w = winner_from ([], 0) votes in
    let b = HasVote-no_worse ([], 0) (id, vote) votes m in
    elim (winner_from-HasVote ([], 0) votes) [
      | inl e ↦ absurd (start_is_worse id vote pos (subst (λ z. better z (id, vote) ≡ false) e b))
      | inr k ↦ (
        w.1,
        k,
        All-HasVote (λ x. (x.1 < w.1) ⊎ ((x.1 ≡ w.1) × (str_leb w.0 x.0 ≡ true))) votes
            (λ x h. no_worse_order w x (HasVote-no_worse ([], 0) x votes h)),
      )
    ]
