-- ===== src/Stamps/Room.antt =====
-- How much an entry tells, and what it leaves out (fillEntry).
use tdns_mp.Prelude.{
  Bool, List, Str, [], ap, arith, by_test, false, inl, inr, is_empty, length, ltb, not, refl, true,
  ℕ, ◌&&◌, ◌++◌, ◌+◌, ◌<◌, ◌∙◌, ◌∷◌, ◌≡◌, ◌≤◌, ◌⊎◌,
}
use tdns_mp.Stamps.Entry.{
  Cursors, Filled, Ranked, ToTell, changed_limit, fill_entry, fill_rank, from_cursor, in_turn,
  insert_by_key, sort_by_key, stamp_entry_budget, total,
}

pub total-append : (xs ys : List ToTell) → total (xs ++ ys) ≡ total xs + total ys
unfolding total
total-append [] ys = omega arith
total-append (x ∷ xs) ys = ground (arith, total-append xs ys)

pub length-append : (xs ys : List ToTell) → length (xs ++ ys) ≡ length xs + length ys
length-append [] ys = omega arith
length-append (x ∷ xs) ys = ground (arith, length-append xs ys)

pub append_assoc : (xs ys zs : List ToTell) → (xs ++ ys) ++ zs ≡ xs ++ (ys ++ zs)
append_assoc [] ys zs = refl
append_assoc (x ∷ xs) ys zs = ap (λ l. x ∷ l) (append_assoc xs ys zs)

-- The told zones fit, or one zone was told alone.
abbrev pub Fits : ℕ → Filled → Type 0
Fits limit f = (f.size ≡ total f.told) × ((f.size ≤ limit) ⊎ (length f.told ≤ 1))

abbrev pub AllFit : ℕ → Filled × Bool → Type 0
AllFit limit r = Fits limit r.0

pub fill_rank-Fits :
    (limit : ℕ) (f : Filled) (zs : List ToTell) → Fits limit f → AllFit limit (fill_rank limit f zs)
unfolding fill_rank total
fill_rank-Fits limit f [] h = h
fill_rank-Fits limit f (z ∷ zs) h =
    let told = f.told ++ (z ∷ []) in
    by_test (AllFit limit) (ltb limit (f.size + z.size) && not (is_empty f.told)) _ _ (λ x. h)
      (λ x.
        fill_rank-Fits limit (record { told = told; size = f.size + z.size; cursor = z.key }) zs
          (ground (arith, h, x, total-append f.told (z ∷ []), length-append f.told (z ∷ []))))

-- A rank is told whole, in its turn, or a zone of it is left out.
abbrev pub Told : Filled → List ToTell → Filled × Bool → Type 0
Told f zs r =
    ((r.1 ≡ false) × (r.0.told ≡ f.told ++ zs))
    ⊎ ((r.1 ≡ true) × (length r.0.told < length f.told + length zs))

pub append_nil : (xs : List ToTell) → xs ≡ xs ++ []
append_nil [] = refl
append_nil (x ∷ xs) = ap (λ l. x ∷ l) (append_nil xs)

pub fill_rank-Told : (limit : ℕ) (f : Filled) (zs : List ToTell) → Told f zs (fill_rank limit f zs)
unfolding fill_rank
fill_rank-Told limit f [] = inl (refl, append_nil f.told)
fill_rank-Told limit f (z ∷ zs) =
    let told = f.told ++ (z ∷ []) in
    let next : Filled = record { told = told; size = f.size + z.size; cursor = z.key } in
    let ih = fill_rank-Told limit next zs in
    by_test (Told f (z ∷ zs)) (ltb limit (f.size + z.size) && not (is_empty f.told)) _ _
      (λ x. inr (refl, omega arith))
      (λ x. elim ih [
        | inl (k, e) ↦ inl (k, e ∙ append_assoc f.told (z ∷ []) zs)
        | inr (k, e) ↦ inr (k, omega (arith, e, length-append f.told (z ∷ [])))
      ])

length-insert_by_key : (z : ToTell) (xs : List ToTell) → length (insert_by_key z xs) ≡ length xs + 1
unfolding insert_by_key
length-insert_by_key z [] = refl
length-insert_by_key z (x ∷ xs) = ground (arith, length-insert_by_key z xs)

length-sort_by_key : (xs : List ToTell) → length (sort_by_key xs) ≡ length xs
unfolding sort_by_key
length-sort_by_key [] = refl
length-sort_by_key (x ∷ xs) =
    ground (arith, length-sort_by_key xs, length-insert_by_key x (sort_by_key xs))

length-from_cursor :
    (cursor : Str) (passed zs : List ToTell)
    → length (from_cursor cursor passed zs) ≡ length passed + length zs
unfolding from_cursor
length-from_cursor cursor passed [] = omega arith
length-from_cursor cursor passed (z ∷ zs) = ground (
  arith,
  length-from_cursor cursor (passed ++ (z ∷ [])) zs,
  length-append passed (z ∷ []),
  length-append (z ∷ zs) passed,
)

pub length-in_turn : (cursor : Str) (zs : List ToTell) → length (in_turn cursor zs) ≡ length zs
unfolding in_turn
length-in_turn cursor zs =
    ground (arith, length-from_cursor cursor [] (sort_by_key zs), length-sort_by_key zs)

-- An entry's size is that of the zones it tells, and it is within the budget, unless it tells one
-- zone alone.
pub fill_entry_bounds :
    (ranked : Ranked) (c : Cursors)
    → let e = fill_entry ranked c in
      (e.1 ≡ total e.0) × ((e.1 ≤ stamp_entry_budget) ⊎ (length e.0 ≤ 1))
unfolding fill_entry changed_limit total
fill_entry_bounds ranked c =
    let limit = changed_limit (total ranked.rank_due) in
    let none_told : Filled = record { told = []; size = 0; cursor = c.at_changed } in
    let f0 = fill_rank limit none_told (in_turn c.at_changed ranked.rank_changed) in
    let h0 =
      fill_rank-Fits limit none_told (in_turn c.at_changed ranked.rank_changed)
        (refl, inr (omega arith)) in
    let g0 : Filled = record (f0.0) { cursor = c.at_due } in
    let f1 = fill_rank stamp_entry_budget g0 (in_turn c.at_due ranked.rank_due) in
    let h1 =
      fill_rank-Fits stamp_entry_budget g0 (in_turn c.at_due ranked.rank_due)
        (ground (arith, h0)) in
    let g1 : Filled = record (f1.0) { cursor = c.at_going } in
    let f2 = fill_rank stamp_entry_budget g1 (in_turn c.at_going ranked.rank_going) in
    let h2 = fill_rank-Fits stamp_entry_budget g1 (in_turn c.at_going ranked.rank_going) h1 in
    let g2 : Filled = record (f2.0) { cursor = c.at_once } in
    let h3 = fill_rank-Fits stamp_entry_budget g2 (in_turn c.at_once ranked.rank_once) h2 in
    ground (arith, h1, h2, h3)
