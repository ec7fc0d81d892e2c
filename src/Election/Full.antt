-- ===== src/Election/Full.antt =====
-- A full set of votes: each voter's, once. Its winner is that of the voters' draws.
use mathlib.Core.Path.{subst}
use tdns_mp.Prelude.{
  Bool, Bool-cases, List, Str, [], all, arith, contains, false, inl, inr, is_none, is_some, keep,
  length, lookup, lookup-put_other, not, put, refl, str_eq, str_eq_refl, str_eq→eq, true, ℕ, ◌&&◌,
  ◌<◌, ◌∷◌, ◌≡◌, ◌≤◌, Option-cases, ap, here, map, some, there, ◌==◌,
}
use tdns_mp.Election.Model.{determine_winner}
use tdns_mp.Election.Winner.{HasVote, determine_winner-same}

-- No key stands twice.
unfoldable pub distinct {ℓ} : {V : Type ℓ} → List (Str × V) → Bool
unfolding lookup
distinct [] = true
distinct (x ∷ m) = is_none (lookup x.0 m) && distinct m

pub distinct-put {ℓ} :
    {V : Type ℓ} (k : Str) (v : V) (m : List (Str × V))
    → distinct m ≡ true
    → distinct (put k v m) ≡ true
unfolding distinct put
distinct-put k v [] h = refl
distinct-put k v (e ∷ m) h = elim (Bool-cases (str_eq k e.0)) [
  | inl x ↦ ground (arith, h, x, str_eq→eq k e.0 x)
  | inr x ↦ elim (Bool-cases (str_eq e.0 k)) [
    | inl y ↦ ground (arith, x, str_eq→eq e.0 k y, str_eq_refl k)
    | inr y ↦ ground (arith, h, x, distinct-put k v m, lookup-put_other e.0 k v m y)
  ]
]

pub length-put {ℓ} :
    {V : Type ℓ} (k : Str) (v : V) (m : List (Str × V)) → length m ≤ length (put k v m)
unfolding put
length-put k v [] = omega arith
length-put k v (e ∷ m) = ground (arith, length-put k v m)

pub all-put_entry {ℓ} :
    {V : Type ℓ} (p : Str × V → Bool) (k : Str) (v : V) (m : List (Str × V))
    → all p m ≡ true
    → p (k, v) ≡ true
    → all p (put k v m) ≡ true
unfolding put
all-put_entry p k v [] h e = ground (arith, e)
all-put_entry p k v (x ∷ m) h e = ground (arith, h, e, all-put_entry p k v m)

abbrev other_than : Str → List Str → List Str
other_than k vs = keep (λ a. not (str_eq k a)) vs

contains-other_than :
    (k a : Str) (vs : List Str)
    → contains vs a ≡ true
    → str_eq k a ≡ false
    → contains (other_than k vs) a ≡ true
unfolding contains
contains-other_than k a [] h e = h
contains-other_than k a (x ∷ vs) h e = elim (Bool-cases (str_eq k x)) [
  | inl y ↦ ground (
    arith,
    h,
    e,
    str_eq→eq k x y,
    str_eq→eq a x,
    str_eq→eq x a,
    str_eq_refl a,
    contains-other_than k a vs,
  )
  | inr y ↦ ground (arith, h, e, y, contains-other_than k a vs)
]

length-other_than : (k : Str) (vs : List Str) → length (other_than k vs) ≤ length vs
length-other_than k [] = omega arith
length-other_than k (x ∷ vs) = ground (arith, length-other_than k vs)

length-other_than_lt :
    (k : Str) (vs : List Str) → contains vs k ≡ true → length (other_than k vs) < length vs
unfolding contains
length-other_than_lt k [] h = ground (arith, h)
length-other_than_lt k (x ∷ vs) h = elim (Bool-cases (str_eq k x)) [
  | inl y ↦ ground (arith, y, length-other_than k vs)
  | inr y ↦ ground (
    arith,
    y,
    h,
    str_eq→eq x k,
    str_eq_refl x,
    Bool-cases (str_eq x k),
    length-other_than_lt k vs,
  )
]

keys_other :
    (k : Str) (vs : List Str) (votes : List (Str × ℕ))
    → all (λ x. contains vs x.0) votes ≡ true
    → is_none (lookup k votes) ≡ true
    → all (λ x. contains (other_than k vs) x.0) votes ≡ true
unfolding lookup
keys_other k vs [] h e = refl
keys_other k vs (x ∷ votes) h e =
    ground
      (arith, h, e, Bool-cases (str_eq k x.0), contains-other_than k x.0 vs, keys_other k vs votes)

-- As many votes as voters, each of a voter and no voter's twice: every voter's is there.
pub full_votes :
    (votes : List (Str × ℕ)) (vs : List Str) (a : Str)
    → all (λ x. contains vs x.0) votes ≡ true
    → distinct votes ≡ true
    → length vs ≤ length votes
    → contains vs a ≡ true
    → is_some (lookup a votes) ≡ true
unfolding distinct lookup contains
full_votes [] [] a h d l k = k
full_votes [] (v ∷ vs) a h d l k = absurd (omega (arith, l))
full_votes (x ∷ votes) vs a h d l k = elim (Bool-cases (str_eq a x.0)) [
  | inl e ↦ ground (arith, e)
  | inr e ↦ elim (Bool-cases (str_eq x.0 a)) [
    | inl y ↦ ground (arith, e, str_eq→eq x.0 a y, str_eq_refl a)
    | inr y ↦
        let found =
          full_votes votes (other_than x.0 vs) a
            (keys_other x.0 vs votes (ground (arith, h)) (ground (arith, d))) (ground (arith, d))
            (omega (arith, l, length-other_than_lt x.0 vs (ground (arith, h))))
            (contains-other_than x.0 a vs k y) in
        ground (arith, e, found)
  ]
]

-- A vote that a voter drew.
unfoldable pub is_drawn : List Str → (Str → ℕ) → Str × ℕ → Bool
unfolding contains
is_drawn vs draw x = contains vs x.0 && x.1 == draw x.0

abbrev pub draws : List Str → (Str → ℕ) → List (Str × ℕ)
draws vs draw = map (λ a. (a, draw a)) vs

all-is_drawn_keys :
    (vs : List Str) (draw : Str → ℕ) (votes : List (Str × ℕ))
    → all (is_drawn vs draw) votes ≡ true
    → all (λ x. contains vs x.0) votes ≡ true
unfolding is_drawn
all-is_drawn_keys vs draw [] h = refl
all-is_drawn_keys vs draw (x ∷ votes) h = ground (arith, h, all-is_drawn_keys vs draw votes)

HasVote-is_drawn :
    (vs : List Str) (draw : Str → ℕ) (votes : List (Str × ℕ)) (x : Str × ℕ)
    → all (is_drawn vs draw) votes ≡ true
    → HasVote votes x
    → is_drawn vs draw x ≡ true
HasVote-is_drawn vs draw [] x h m = elim m [ ]
HasVote-is_drawn vs draw (y ∷ votes) x h (here e) =
    subst (λ z. is_drawn vs draw z ≡ true) e (ground (arith, h))
HasVote-is_drawn vs draw (y ∷ votes) x h (there m) =
    HasVote-is_drawn vs draw votes x (ground (arith, h)) m

head_entry : (a : Str) (x : Str × ℕ) (v : ℕ) → a ≡ x.0 → x.1 ≡ v → x ≡ (a, v)
head_entry a (b, w) v e k = cc (e, k)

lookup-HasVote :
    (votes : List (Str × ℕ)) (a : Str) (v : ℕ) → lookup a votes ≡ some v → HasVote votes (a, v)
unfolding lookup
lookup-HasVote [] a v h = absurd (ground (arith, h))
lookup-HasVote (x ∷ votes) a v h = elim (Bool-cases (str_eq a x.0)) [
  | inl e ↦ here (head_entry a x v (str_eq→eq a x.0 e) (ground (arith, h, e)))
  | inr e ↦ there (lookup-HasVote votes a v (ground (arith, h, e)))
]

draws-HasVote :
    (vs : List Str) (draw : Str → ℕ) (a : Str)
    → contains vs a ≡ true
    → HasVote (draws vs draw) (a, draw a)
unfolding contains
draws-HasVote [] draw a h = absurd (ground (arith, h))
draws-HasVote (x ∷ vs) draw a h = elim (Bool-cases (str_eq x a)) [
  | inl e ↦ here (ap (λ b. (b, draw b)) (str_eq→eq x a e))
  | inr e ↦ there (
      draws-HasVote vs draw a
        (ground (arith, h, e, str_eq→eq a x, str_eq_refl x, Bool-cases (str_eq a x))))
]

HasVote-draws :
    (vs : List Str) (draw : Str → ℕ) (x : Str × ℕ)
    → HasVote (draws vs draw) x
    → is_drawn vs draw x ≡ true
unfolding is_drawn contains
HasVote-draws [] draw x m = elim m [ ]
HasVote-draws (a ∷ vs) draw x (here e) =
    subst (λ z. is_drawn (a ∷ vs) draw z ≡ true) e (ground (arith, str_eq_refl a))
HasVote-draws (a ∷ vs) draw x (there m) = ground (arith, HasVote-draws vs draw x m)

full-HasVote :
    (vs : List Str) (draw : Str → ℕ) (votes : List (Str × ℕ)) (x : Str × ℕ)
    → all (is_drawn vs draw) votes ≡ true
    → distinct votes ≡ true
    → length vs ≤ length votes
    → is_drawn vs draw x ≡ true
    → HasVote votes x
unfolding is_drawn
full-HasVote vs draw votes (a, v) h d l k =
    let found = full_votes votes vs a (all-is_drawn_keys vs draw votes h) d l (ground (arith, k)) in
    elim (Option-cases (lookup a votes)) [
      | inl e ↦ absurd (ground (arith, e, found))
      | inr (w, e) ↦
          let m = lookup-HasVote votes a w e in
          let drawn = HasVote-is_drawn vs draw votes (a, w) h m in
          subst (λ z. HasVote votes (a, z)) (ground (arith, drawn, k)) m
    ]

drawn_entry :
    (vs : List Str) (draw : Str → ℕ) (x : Str × ℕ)
    → is_drawn vs draw x ≡ true
    → HasVote (draws vs draw) x
unfolding is_drawn
drawn_entry vs draw (a, v) h =
    subst (λ z. HasVote (draws vs draw) (a, z)) (ground (arith, h))
      (draws-HasVote vs draw a (ground (arith, h)))

-- Then the winner is that of the voters' draws.
pub determine_winner-full :
    (vs : List Str) (draw : Str → ℕ) (votes : List (Str × ℕ))
    → all (is_drawn vs draw) votes ≡ true
    → distinct votes ≡ true
    → length vs ≤ length votes
    → determine_winner votes ≡ determine_winner (draws vs draw)
determine_winner-full vs draw votes h d l = determine_winner-same votes (draws vs draw) (λ x. (
  λ m. drawn_entry vs draw x (HasVote-is_drawn vs draw votes x h m),
  λ m. full-HasVote vs draw votes x h d l (HasVote-draws vs draw x m),
))
