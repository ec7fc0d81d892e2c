-- ===== src/Gossip/Newest.antt =====
-- Merging keeps the newest row of each member: the rows of a group after a merge.
use tdns_mp.Prelude.{
  All, Bool, Bool-cases, List, Option, Option-cases, Str, [], ap, arith, false, inl, inr, leb,
  lookup, lookup-put, lookup-put_other, none, put, refl, some, str_eq, str_eq→eq, true, ℕ, ◌∙◌, ◌∷◌,
  ◌≡◌,
}
use tdns_mp.Gossip.Model.{MemberState, Rows}
use tdns_mp.Gossip.Merge.{deep_copy_member_state, merge_row, merge_rows, newer}

-- Whether there is a row, stamped at a time or later.
unfoldable pub is_since : Option MemberState → ℕ → Bool
is_since none t = false
is_since (some m) t = leb t m.timestamp

-- The rows have what a message's entry tells, or newer.
unfoldable pub covers : Rows → Str × Option MemberState → Bool
unfolding is_since
covers rows (id, none) = true
covers rows (id, some remote) = is_since (lookup id rows) remote.timestamp

is_since-put :
    (id other : Str) (m : MemberState) (rows : Rows) (t : ℕ)
    → newer (lookup id rows) m ≡ true
    → is_since (lookup other rows) t ≡ true
    → is_since (lookup other (put id (deep_copy_member_state m) rows)) t ≡ true
unfolding newer is_since deep_copy_member_state
is_since-put id other m rows t h k = elim (Bool-cases (str_eq other id)) [
  | inl e ↦ ground (
    arith,
    str_eq→eq other id e,
    lookup-put id (deep_copy_member_state m) rows,
    Option-cases (lookup id rows),
  )
  | inr e ↦ ground (arith, lookup-put_other other id (deep_copy_member_state m) rows e)
]

is_since-merge_row :
    (rows : Rows) (m : Str × Option MemberState) (other : Str) (t : ℕ)
    → is_since (lookup other rows) t ≡ true
    → is_since (lookup other (merge_row rows m)) t ≡ true
unfolding merge_row
is_since-merge_row rows (id, none) other t h = h
is_since-merge_row rows (id, some remote) other t h =
    elim (Bool-cases (newer (lookup id rows) remote)) [
      | inl e ↦ ground (arith, is_since-put id other remote rows t e h)
      | inr e ↦ ground (arith, h)
    ]

covers-merge_row : (rows : Rows) (m : Str × Option MemberState) → covers (merge_row rows m) m ≡ true
unfolding merge_row covers newer is_since deep_copy_member_state
covers-merge_row rows (id, none) = refl
covers-merge_row rows (id, some remote) =
    ground
      (arith, lookup-put id (deep_copy_member_state remote) rows, Option-cases (lookup id rows))

covers-keeps :
    (rows : Rows) (m n : Str × Option MemberState)
    → covers rows m ≡ true
    → covers (merge_row rows n) m ≡ true
unfolding covers
covers-keeps rows (id, none) n h = refl
covers-keeps rows (id, some remote) n h = is_since-merge_row rows n id remote.timestamp h

-- A row that the table has is replaced by a newer one only: after a merge the table has a row of
-- each member that it had one of, no older than it was.
is_since-merge_rows :
    (rows : Rows) (ms : List (Str × Option MemberState)) (id : Str) (t : ℕ)
    → is_since (lookup id rows) t ≡ true
    → is_since (lookup id (merge_rows rows ms)) t ≡ true
unfolding merge_rows
is_since-merge_rows rows [] id t h = h
is_since-merge_rows rows (m ∷ ms) id t h =
    is_since-merge_rows (merge_row rows m) ms id t (is_since-merge_row rows m id t h)

covers-merge_rows :
    (rows : Rows) (ms : List (Str × Option MemberState)) (m : Str × Option MemberState)
    → covers rows m ≡ true
    → covers (merge_rows rows ms) m ≡ true
unfolding merge_rows
covers-merge_rows rows [] m h = h
covers-merge_rows rows (n ∷ ms) m h =
    covers-merge_rows (merge_row rows n) ms m (covers-keeps rows m n h)

-- After a merge the table has, of each entry of the message, that row or a newer one.
pub All-covers :
    (rows : Rows) (ms : List (Str × Option MemberState))
    → All (λ m. covers (merge_rows rows ms) m ≡ true) ms
unfolding merge_rows
All-covers rows [] = tt
All-covers rows (m ∷ ms) = (
  covers-merge_rows (merge_row rows m) ms m (covers-merge_row rows m),
  All-covers (merge_row rows m) ms,
)

merge_row_covered :
    (rows : Rows) (m : Str × Option MemberState) → covers rows m ≡ true → merge_row rows m ≡ rows
unfolding merge_row covers newer is_since
merge_row_covered rows (id, none) h = refl
merge_row_covered rows (id, some remote) h = ground (arith, Option-cases (lookup id rows))

-- Rows that have all that a message tells are left as they are.
pub merge_rows_covered :
    (rows : Rows) (ms : List (Str × Option MemberState))
    → All (λ m. covers rows m ≡ true) ms
    → merge_rows rows ms ≡ rows
unfolding merge_rows
merge_rows_covered rows [] h = refl
merge_rows_covered rows (m ∷ ms) h =
    ap (λ r. merge_rows r ms) (merge_row_covered rows m h.0) ∙ merge_rows_covered rows ms h.1

lookup-merge_row_other :
    (rows : Rows) (m : Str × Option MemberState) (id : Str)
    → str_eq id m.0 ≡ false
    → lookup id (merge_row rows m) ≡ lookup id rows
unfolding merge_row
lookup-merge_row_other rows (k, none) id h = refl
lookup-merge_row_other rows (k, some remote) id h =
    ground (arith, lookup-put_other id k (deep_copy_member_state remote) rows h)

-- A member that the entries do not name keeps its row.
pub lookup-merge_rows_other :
    (rows : Rows) (ms : List (Str × Option MemberState)) (id : Str)
    → All (λ m. str_eq id m.0 ≡ false) ms
    → lookup id (merge_rows rows ms) ≡ lookup id rows
unfolding merge_rows
lookup-merge_rows_other rows [] id h = refl
lookup-merge_rows_other rows (m ∷ ms) id h =
    lookup-merge_rows_other (merge_row rows m) ms id h.1 ∙ lookup-merge_row_other rows m id h.0
