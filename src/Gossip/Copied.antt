-- ===== src/Gossip/Copied.antt =====
-- The rows that a message carries, after a merge: copies of them, and none of them lost.
use tdns_mp.Prelude.{
  All, Any, Bool, Bool-cases, List, Option, Str, [], arith, false, here, inl, inr, keep, lookup,
  lookup-put, lookup-put_other, none, refl, some, str_eq, str_eq→eq, there, true, ◌∙◌, ◌∷◌, ◌≡◌,
  ◌⊎◌,
}
use mathlib.Core.Path.{subst}
use tdns_mp.Gossip.Model.{MemberState, Rows}
use tdns_mp.Gossip.Merge.{deep_copy_member_state, merge_row, merge_rows, newer}
use tdns_mp.Gossip.Newest.{covers, is_since}
use tdns_mp.Gossip.Build.{copy_rows}

pub lookup-copy_rows :
    (rows held : Rows) (id : Str) (row : MemberState)
    → lookup id rows ≡ some row
    → All (λ m. covers held m ≡ true) (copy_rows rows)
    → is_since (lookup id held) row.timestamp ≡ true
unfolding lookup copy_rows covers is_since deep_copy_member_state
lookup-copy_rows [] held id row e h = ground arith
lookup-copy_rows (r ∷ rows) held id row e h = elim (Bool-cases (str_eq id r.0)) [
  | inl x ↦ ground (arith, h, e, str_eq→eq id r.0 x)
  | inr x ↦ lookup-copy_rows rows held id row (ground (arith, e, x)) h.1
]

-- The same of the entries that a filter on the identities leaves.
pub lookup-kept_rows :
    (f : Str → Bool) (rows held : Rows) (id : Str) (row : MemberState)
    → f id ≡ true
    → lookup id rows ≡ some row
    → All (λ m. covers held m ≡ true) (keep (λ m. f m.0) (copy_rows rows))
    → is_since (lookup id held) row.timestamp ≡ true
unfolding lookup copy_rows covers is_since deep_copy_member_state
lookup-kept_rows f [] held id row k e h = ground arith
lookup-kept_rows f (r ∷ rows) held id row k e h = elim (Bool-cases (str_eq id r.0)) [
  | inl x ↦ let same = str_eq→eq id r.0 x in ground (arith, k, h, e, same)
  | inr x ↦
      let rest = lookup-kept_rows f rows held id row k (ground (arith, e, x)) in
      elim (Bool-cases (f r.0)) [
        | inl y ↦ rest (ground (arith, y, h))
        | inr y ↦ rest (ground (arith, y, h))
      ]
]

-- A row that an entry for this identity tells.
abbrev pub IsTold : Str → Option MemberState → Str × Option MemberState → Type 0
IsTold id held m =
    (str_eq id m.0 ≡ true)
    × (held ≡ elim (m.1) [ none ↦ none | some r ↦ some (deep_copy_member_state r) ])

merge_row_cases :
    (rows : Rows) (id : Str) (m : Str × Option MemberState)
    → (lookup id (merge_row rows m) ≡ lookup id rows) ⊎ IsTold id (lookup id (merge_row rows m)) m
unfolding merge_row
merge_row_cases rows id (k, none) = inl refl
merge_row_cases rows id (k, some r) = elim (Bool-cases (newer (lookup k rows) r)) [
  | inr y ↦ inl (ground (arith, y))
  | inl y ↦ elim (Bool-cases (str_eq id k)) [
    | inl x ↦
        let same = str_eq→eq id k x in
        inr (x, ground (arith, y, same, lookup-put k (deep_copy_member_state r) rows))
    | inr x ↦ inl (ground (arith, y, lookup-put_other id k (deep_copy_member_state r) rows x))
  ]
]

pub merge_rows_cases :
    (rows : Rows) (id : Str) (ms : List (Str × Option MemberState))
    → let held = lookup id (merge_rows rows ms) in (held ≡ lookup id rows) ⊎ Any (IsTold id held) ms
unfolding merge_rows
merge_rows_cases rows id [] = inl refl
merge_rows_cases rows id (m ∷ ms) = elim (merge_rows_cases (merge_row rows m) id ms) [
  | inr a ↦ inr (there a)
  | inl e ↦ elim (merge_row_cases rows id m) [
    | inl f ↦ inl (e ∙ f)
    | inr t ↦ inr (here (t.0, e ∙ t.1))
  ]
]

abbrev keep_if :
    Bool
    → Str × Option MemberState
    → List (Str × Option MemberState)
    → List (Str × Option MemberState)
keep_if true m ms = m ∷ ms
keep_if false m ms = ms

keep_step :
    (f : Str × Option MemberState → Bool) (m : Str × Option MemberState)
    (ms : List (Str × Option MemberState))
    → keep f (m ∷ ms) ≡ keep_if (f m) m (keep f ms)
keep_step f m ms = elim (Bool-cases (f m)) [ inl y ↦ ground (arith, y) | inr y ↦ ground (arith, y) ]

Any-keep_if :
    (P : Str × Option MemberState → Type 0) (b : Bool) (m : Str × Option MemberState)
    (kept ms : List (Str × Option MemberState))
    → (Any P kept → Any P ms)
    → Any P (keep_if b m kept)
    → Any P (m ∷ ms)
Any-keep_if P true m kept ms g (here p) = here p
Any-keep_if P true m kept ms g (there a) = there (g a)
Any-keep_if P false m kept ms g a = there (g a)

pub Any-keep :
    (P : Str × Option MemberState → Type 0) (f : Str × Option MemberState → Bool)
    (ms : List (Str × Option MemberState))
    → Any P (keep f ms)
    → Any P ms
Any-keep P f [] a = elim a [ ]
Any-keep P f (m ∷ ms) a =
    Any-keep_if P (f m) m (keep f ms) ms (Any-keep P f ms) (subst (Any P) (keep_step f m ms) a)

-- The row of the sender's that the receiver has taken.
abbrev pub IsCopied : Str → Option MemberState → Str × MemberState → Type 0
IsCopied id held r = (str_eq id r.0 ≡ true) × (held ≡ some (deep_copy_member_state r.1))

pub IsTold-copy_rows :
    (id : Str) (held : Option MemberState) (rows : Rows)
    → Any (IsTold id held) (copy_rows rows)
    → Any (IsCopied id held) rows
unfolding copy_rows deep_copy_member_state
IsTold-copy_rows id held [] a = elim a [ ]
IsTold-copy_rows id held (r ∷ rows) (here t) = here t
IsTold-copy_rows id held (r ∷ rows) (there a) = there (IsTold-copy_rows id held rows a)
