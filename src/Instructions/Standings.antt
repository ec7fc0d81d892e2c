-- ===== src/Instructions/Standings.antt =====
-- What the sets and the standings of a zone guarantee.
use tdns_mp.Prelude.{
  All, All-map, Any, Any-map, Bool-cases, List, Option, Str, StrictlySorted, [], any-subset, ap,
  arith, contains, contains-sorted_unique, false, here, inl, inr, none, not, refl, some,
  sorted_unique, sorted_unique-StrictlySorted, sorted_unique-ext, str_eq, str_eq_refl, str_eq→eq,
  sym, there, true, ℕ, ◌&&◌, ◌++◌, ◌<◌, ◌||◌, ◌↔◌, ◌∙◌, ◌∷◌, ◌≡◌, ◌≤◌, ◌⊎◌,
}
use tdns_mp.Instructions.Model.{InstrRecord, Instructions}
use tdns_mp.Instructions.Sets.{
  best_label, best_step, has_hsync3, is_among, label_of, label_rank, members, named_by,
  names_record, participants_of, standing_auditor, standing_voting, votes_in, voting_of, without,
  zone_make_up, zone_standing,
}
use tdns_mp.Names.{Names}

pub contains-append :
    (xs ys : List Str) (a : Str) → contains (xs ++ ys) a ≡ (contains xs a || contains ys a)
unfolding contains
contains-append [] ys a = refl
contains-append (x ∷ xs) ys a = ground (arith, contains-append xs ys a)

contains-without :
    (xs ys : List Str) (a : Str)
    → contains (without xs ys) a ≡ (contains xs a && not (contains ys a))
unfolding without contains
contains-without [] ys a = refl
contains-without (x ∷ xs) ys a = elim (Bool-cases (str_eq x a)) [
  | inl e ↦
      let xa = str_eq→eq x a e in rw xa (ground (arith, contains-without xs ys a, str_eq_refl a))
  | inr k ↦ ground (arith, contains-without xs ys a)
]

pub contains-nil : (b : Str) → contains [] b ≡ false
unfolding contains
contains-nil b = refl

same_members :
    (v w : List Str) (b : Str)
    → contains ((v ++ without (sorted_unique (v ++ w)) v) ++ []) b ≡ contains (v ++ w) b
same_members v w b = ground (
  arith,
  contains-nil b,
  contains-append (v ++ without (sorted_unique (v ++ w)) v) [] b,
  contains-append v (without (sorted_unique (v ++ w)) v) b,
  contains-without (sorted_unique (v ++ w)) v b,
  contains-sorted_unique (v ++ w) b,
  contains-append v w b,
)

All-without : (P : Str → Type 0) (xs ys : List Str) → All P xs → All P (without xs ys)
unfolding without
All-without P [] ys h = tt
All-without P (x ∷ xs) ys h = elim (Bool-cases (contains ys x)) [
  | inl e ↦ rw e (All-without P xs ys h.1)
  | inr k ↦ rw k (h.0, All-without P xs ys h.1)
]

without-StrictlySorted : (xs ys : List Str) → StrictlySorted xs → StrictlySorted (without xs ys)
unfolding without
without-StrictlySorted [] ys h = tt
without-StrictlySorted (x ∷ xs) ys h = elim (Bool-cases (contains ys x)) [
  | inl e ↦ rw e (without-StrictlySorted xs ys h.1)
  | inr k ↦ rw k (All-without _ xs ys h.0, without-StrictlySorted xs ys h.1)
]

-- A zone's make-up splits its participants: its voters are the voting participants, its auditors
-- exactly the participants that do not vote, and it has nobody else; so its members, the group
-- that gossips, are the participants, whatever the instructions. The participants, the voters and
-- the auditors are sorted with no repetition.
pub members-zone_make_up :
    (i : Option Instructions) (a : Str)
    → let made = zone_make_up i in
      let (participants, voting) = participants_of i in
      (members made ≡ participants)
      × (made.voting ≡ voting)
      × (contains made.auditors a ≡ (contains participants a && not (contains voting a)))
      × (made.no_role ≡ [])
      × StrictlySorted participants
      × StrictlySorted made.voting
      × StrictlySorted made.auditors
unfolding members zone_make_up participants_of sorted_unique
members-zone_make_up none a =
    (refl, refl, unfold contains without in refl, refl, tt, tt, unfold without in tt)
members-zone_make_up (some i) a =
    let v = voting_of i in
    let w = named_by i i.auditors in
    (
      sorted_unique-ext ((v ++ without (sorted_unique (v ++ w)) v) ++ []) (v ++ w)
          (same_members v w),
      refl,
      contains-without (sorted_unique (v ++ w)) v a,
      refl,
      sorted_unique-StrictlySorted (v ++ w),
      sorted_unique-StrictlySorted (named_by i i.servers ++ named_by i i.signers),
      without-StrictlySorted (sorted_unique (v ++ w)) v (sorted_unique-StrictlySorted (v ++ w)),
    )

-- A voting member is a participant.
voting_in_participants :
    (i : Option Instructions) (a : Str)
    → contains (participants_of i).1 a ≡ true
    → contains (participants_of i).0 a ≡ true
unfolding participants_of
voting_in_participants none a h = h
voting_in_participants (some i) a h =
    contains-sorted_unique (voting_of i ++ named_by i i.auditors) a
    ∙ contains-append (voting_of i) (named_by i i.auditors) a
    ∙ rw h

module _ (n : Names) where
  -- An identity stands as a voter or an auditor of a zone exactly when it is one of the zone's
  -- participants, and as a voter exactly when it is one of the voting members; a reading with
  -- HSYNC3 records lets exactly the voters vote, and one with none lets everybody vote.
  pub zone_standing_lem :
      (i : Option Instructions) (id : Str)
      → ((is_among n (participants_of i).0 id ≡ true)
          ↔ ((zone_standing n i id ≡ standing_voting) ⊎ (zone_standing n i id ≡ standing_auditor)))
        × ((is_among n (participants_of i).1 id ≡ true) ↔ (zone_standing n i id ≡ standing_voting))
        × ((votes_in n i id ≡ true)
            ↔ ((has_hsync3 i ≡ false) ⊎ (is_among n (participants_of i).1 id ≡ true)))
  unfolding zone_standing votes_in
  zone_standing_lem i id =
      let sub : is_among n (participants_of i).1 id ≡ true
          → is_among n (participants_of i).0 id ≡ true =
        unfold is_among in
        any-subset _ (participants_of i).1 (participants_of i).0 (voting_in_participants i) in
      (ground (arith, sub), ground (arith, sub), ground (arith, sub))

  -- The record that labelOf finds: one of a list that one of the identities names.
  abbrev pub Found : List Str → Str → InstrRecord → Type 0
  Found ids l r = (r.label ≡ l) × (names_record n ids r ≡ true)

  -- No record that the identities name has a label of a higher rank.
  abbrev pub NoneAbove : Instructions → List Str → ℕ → InstrRecord → Type 0
  NoneAbove i ids k r = names_record n ids r ≡ true → label_rank i r.label ≤ k

  NoneAbove-le :
      (i : Instructions) (ids : List Str) (rs : List InstrRecord) (k m : ℕ)
      → k ≤ m
      → All (NoneAbove i ids k) rs
      → All (NoneAbove i ids m) rs
  NoneAbove-le i ids [] k m le h = tt
  NoneAbove-le i ids (r ∷ rs) k m le h =
      (λ y. omega (arith, h.0 y), NoneAbove-le i ids rs k m le h.1)

  step_cases :
      (i : Instructions) (ids : List Str) (r : InstrRecord) (best : Str × ℕ)
      → ((best_step n i ids r best ≡ best) × NoneAbove i ids best.1 r)
        ⊎ ((best_step n i ids r best ≡ (r.label, label_rank i r.label))
            × (names_record n ids r ≡ true)
            × (best.1 < label_rank i r.label))
  unfolding best_step
  step_cases i ids r best = ground arith

  best_label_ge :
      (i : Instructions) (ids : List Str) (rs : List InstrRecord) (best : Str × ℕ)
      → (best.1 ≤ (best_label n i ids rs best).1)
        × All (NoneAbove i ids (best_label n i ids rs best).1) rs
  unfolding best_label
  best_label_ge i ids [] best = (omega arith, tt)
  best_label_ge i ids (r ∷ rs) best =
      let (up, above) = best_label_ge i ids rs (best_step n i ids r best) in
      (
        ground (arith, up, step_cases i ids r best),
        (λ y. ground (arith, up, step_cases i ids r best), above),
      )

  best_label_from :
      (i : Instructions) (ids : List Str) (rs : List InstrRecord) (best : Str × ℕ)
      → (best_label n i ids rs best ≡ best)
        ⊎ Any
            (λ r.
              (best_label n i ids rs best ≡ (r.label, label_rank i r.label))
              × (names_record n ids r ≡ true))
            rs
  unfolding best_label
  best_label_from i ids [] best = inl refl
  best_label_from i ids (r ∷ rs) best = elim (best_label_from i ids rs (best_step n i ids r best)) [
    | inl same ↦ elim (step_cases i ids r best) [
      | inl stays ↦ inl (same ∙ stays.0)
      | inr moves ↦ inr (here (same ∙ moves.0, moves.1))
    ]
    | inr later ↦ inr (there later)
  ]

  rank_pos : (i : Instructions) (l : Str) → 0 < label_rank i l
  unfolding label_rank
  rank_pos i l = ground arith

  abbrev Source : Instructions → List Str → Str × ℕ → InstrRecord → Type 0
  Source i ids b r = (b ≡ (r.label, label_rank i r.label)) × (names_record n ids r ≡ true)

  rank_of_Source :
      (i : Instructions) (ids : List Str) (b : Str × ℕ) (rs : List InstrRecord)
      → Any (Source i ids b) rs
      → label_rank i b.0 ≡ b.1
  rank_of_Source i ids b [] a = elim a [ ]
  rank_of_Source i ids b (r ∷ rs) (here (e, y)) =
      ap (λ p. label_rank i p.0) e ∙ sym (ap (λ p. p.1) e)
  rank_of_Source i ids b (r ∷ rs) (there a) = rank_of_Source i ids b rs a

  abbrev Best : Instructions → List Str → Str × ℕ → Type 0
  Best i ids b =
      Any (λ r. (r.label ≡ b.0) × (names_record n ids r ≡ true)) i.records
      × All (NoneAbove i ids (label_rank i b.0)) i.records

  Best-of_cases :
      (i : Instructions) (ids : List Str) (b : Str × ℕ)
      → 0 < b.1
      → (b ≡ ([], 0)) ⊎ Any (Source i ids b) i.records
      → All (NoneAbove i ids b.1) i.records
      → Best i ids b
  Best-of_cases i ids b pos (inl zero_) above = absurd (ground (arith, ap (λ p. p.1) zero_))
  Best-of_cases i ids b pos (inr a) above = (
    Any-map (λ r s. (sym (ap (λ p. p.0) s.0), s.1)) a,
    rw (rank_of_Source i ids b i.records a) above,
  )

  -- labelOf finds a label exactly when an ON record carries one of the identities (compared as
  -- names). The label is then that of a record that carries one of them, and no record that
  -- does has a label of a higher rank: a signer's label before a server's, and a server's before
  -- any other.
  pub label_of-best :
      (i : Instructions) (ids : List Str)
      → let (l, found) = label_of n (some i) ids in
        ((found ≡ false) → All (λ r. names_record n ids r ≡ false) i.records)
        × ((found ≡ true)
            → (Any (λ r. (r.label ≡ l) × (names_record n ids r ≡ true)) i.records
                × All (NoneAbove i ids (label_rank i l)) i.records))
  unfolding label_of
  label_of-best i ids =
      let b = best_label n i ids i.records ([], 0) in
      let (up, above) = best_label_ge i ids i.records ([], 0) in
      (
        λ h. All-map i.records (λ r f. ground (arith, f, rank_pos i r.label)) above,
        λ h. Best-of_cases i ids b (ground arith) (best_label_from i ids i.records ([], 0)) above,
      )
