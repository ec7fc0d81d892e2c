-- ===== src/Gossip/Mutual.antt =====
-- What the gate asks: every cell between two of the members is OPERATIONAL; and when it tells.
use tdns_mp.Prelude.{
  Bool, Bool-cases, List, Option, Option-cases, Str, [], all, ap, arith, contains, false, inl, inr,
  length, lookup, none, refl, some, str_eq, str_eq_refl, str_eq→eq, true, ◌||◌, ◌↔◌, ◌∷◌, ◌≡◌, ◌≤◌,
  flag_of, sym, ◌∙◌, flag_of-put,
}
use tdns_mp.Gossip.Model.{MemberState, Rows, GossipStateTable}
use tdns_mp.Gossip.Gate.{
  all_operational, is_operational, operational, row_operational, check_members, lost, no_news,
  reached, was_operational, news_of,
}
use tdns_mp.Gossip.Merge.{rows_of}

all-contains :
    (p : Str → Bool) (xs : List Str) (a : Str) → all p xs ≡ true → contains xs a ≡ true → p a ≡ true
unfolding contains
all-contains p [] a h k = ground arith
all-contains p (x ∷ xs) a h k =
    ground (arith, str_eq→eq a x, str_eq→eq x a, all-contains p xs a, Bool-cases (p x))

contains_tail :
    (x : Str) (xs : List Str) (a : Str) → contains xs a ≡ true → contains (x ∷ xs) a ≡ true
unfolding contains
contains_tail x xs a h = ground (arith, h)

contains_head : (x : Str) (xs : List Str) → contains (x ∷ xs) x ≡ true
unfolding contains
contains_head x xs = ground (arith, str_eq_refl x)

all_of_contains :
    (p : Str → Bool) (xs : List Str)
    → ((a : Str) → contains xs a ≡ true → p a ≡ true)
    → all p xs ≡ true
all_of_contains p [] h = refl
all_of_contains p (x ∷ xs) h =
    ground
      (arith, h x (contains_head x xs), all_of_contains p xs (λ a k. h a (contains_tail x xs a k)))

-- Every two different members have each other as OPERATIONAL, and every member has a row.
pub record MutuallyOperational (rows : Rows) (expected : List Str) : Type 0 where
  pub enough : length expected ≤ length rows
  pub cells :
      (member : Str)
      → contains expected member ≡ true
      → (ms : MemberState) × (lookup member rows ≡ some ms)
        × ((peer : Str)
            → contains expected peer ≡ true
            → str_eq peer member ≡ false
            → lookup peer ms.peer_states ≡ some operational)

is_operational→eq : (o : Option Str) → is_operational o ≡ true → o ≡ some operational
unfolding is_operational
is_operational→eq none h = ground arith
is_operational→eq (some s) h = ap some (str_eq→eq s operational h)

row_operational→cells :
    (rows : Rows) (expected : List Str) (member : Str)
    → row_operational rows expected member ≡ true
    → (ms : MemberState) × (lookup member rows ≡ some ms)
      × ((peer : Str)
          → contains expected peer ≡ true
          → str_eq peer member ≡ false
          → lookup peer ms.peer_states ≡ some operational)
unfolding row_operational
row_operational→cells rows expected member h = elim (Option-cases (lookup member rows)) [
  | inl e ↦ ground (arith, e)
  | inr (ms, e) ↦ (
    ms,
    e,
    λ peer k n.
        let cell =
          all-contains (λ peer. str_eq peer member || is_operational (lookup peer ms.peer_states))
            expected peer (ground (arith, e, h)) k in
        is_operational→eq (lookup peer ms.peer_states) (ground (arith, cell, n)),
  )
]

cells→row_operational :
    (rows : Rows) (expected : List Str) (member : Str) (ms : MemberState)
    → lookup member rows ≡ some ms
    → ((peer : Str)
        → contains expected peer ≡ true
        → str_eq peer member ≡ false
        → lookup peer ms.peer_states ≡ some operational)
    → row_operational rows expected member ≡ true
unfolding row_operational is_operational
cells→row_operational rows expected member ms e h =
    let cells =
      all_of_contains (λ peer. str_eq peer member || is_operational (lookup peer ms.peer_states))
        expected
        (λ peer k. elim (Bool-cases (str_eq peer member)) [
          | inl x ↦ ground (arith, x)
          | inr x ↦ ground (arith, h peer k x, str_eq_refl operational)
        ]) in
    ground (arith, e, cells)

-- The test of the gate is that: each of the members has a row and, in it, every other one as
-- OPERATIONAL, and there are at least as many rows as members.
pub all_operational-MutuallyOperational :
    (rows : Rows) (expected : List Str)
    → (all_operational rows expected ≡ true) ↔ MutuallyOperational rows expected
unfolding all_operational
all_operational-MutuallyOperational rows expected = (
  λ h. record {
    enough = ground (arith, h);
    cells = λ member k.
        row_operational→cells rows expected member
          (all-contains (row_operational rows expected) expected member (ground (arith, h)) k);
  },
  λ m.
      let rows_hold = all_of_contains (row_operational rows expected) expected (λ member k.
        let c = m.cells member k in cells→row_operational rows expected member c.0 c.1 c.2) in
      ground (arith, rows_hold, m.enough),
)

news_of-reached :
    {P : Type 0} (now was : Bool)
    → (now ≡ true) ↔ P
    → (news_of now was ≡ reached) ↔ (P × (was ≡ false))
unfolding news_of
news_of-reached true true h = (λ e. ground (arith, e), λ e. ground (arith, e.1))
news_of-reached true false h = (λ e. (h.0 refl, refl), λ e. refl)
news_of-reached false true h = (λ e. ground (arith, e), λ e. ground (arith, e.1))
news_of-reached false false h = (λ e. ground (arith, e), λ e. ground (arith, h.1 e.0))

news_of-lost :
    {P : Type 0} (now was : Bool)
    → (now ≡ true) ↔ P
    → (news_of now was ≡ lost) ↔ ((¬ P) × (was ≡ true))
unfolding news_of
news_of-lost true true h = (λ e. ground (arith, e), λ e. elim (e.0 (h.0 refl)) [ ])
news_of-lost true false h = (λ e. ground (arith, e), λ e. ground (arith, e.1))
news_of-lost false true h = (λ e. (λ p. ground (arith, h.1 p), refl), λ e. refl)
news_of-lost false false h = (λ e. ground (arith, e), λ e. ground (arith, e.1))

news_of_same : (b : Bool) → news_of b b ≡ no_news
unfolding news_of
news_of_same true = refl
news_of_same false = refl

-- The news of one check, for the members asked: that the group reached mutual OPERATIONAL exactly
-- when it is there now and was not marked so, that it lost it exactly when it is not and was; and
-- a second check of the same table has no news.
pub check_members_lem :
    (t : GossipStateTable) (hash : Str) (expected : List Str)
    → let r = check_members t hash expected in
      ((r.1 ≡ reached)
        ↔ (MutuallyOperational (rows_of t hash) expected × (was_operational t hash ≡ false)))
      × ((r.1 ≡ lost)
          ↔ ((¬ MutuallyOperational (rows_of t hash) expected) × (was_operational t hash ≡ true)))
      × ((was_operational r.0 hash ≡ true) ↔ MutuallyOperational (rows_of t hash) expected)
      × ((check_members r.0 hash expected).1 ≡ no_news)
unfolding check_members was_operational
check_members_lem t hash expected =
    let now = all_operational (rows_of t hash) expected in
    let was = flag_of t.operational_groups hash in
    let iff = all_operational-MutuallyOperational (rows_of t hash) expected in
    let marked = flag_of-put hash now t.operational_groups in
    (
      news_of-reached now was iff,
      news_of-lost now was iff,
      (λ e. iff.0 (sym marked ∙ e), λ m. marked ∙ iff.1 m),
      ap (news_of now) marked ∙ news_of_same now,
    )
