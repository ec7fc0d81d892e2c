-- ===== src/Stamps/Due.antt =====
-- The zones that are due are told, however many zones change (fillEntry).
use mathlib.Core.Path.{subst, ap, refl, sym, ◌∙◌, ◌≡◌}
use tdns_mp.Prelude.{
  Bool, List, Memᴰ, Memᴰ-append_left, Str, [], all, all-append, arith, by_test, false, inl, inr,
  is_empty, leb, ltb, not, true, ℕ, ◌&&◌, ◌++◌, ◌+◌, ◌/◌, ◌∷◌, ◌≤◌, ◌⊎◌,
}
use tdns_mp.Stamps.Entry.{
  Cursors, Filled, Ranked, ToTell, changed_limit, fill_entry, fill_rank, from_cursor, in_turn,
  insert_by_key, sort_by_key, stamp_entry_budget, total,
}
use tdns_mp.Stamps.Room.{total-append}
use tdns_mp.Stamps.Turn.{Extends, fill_rank-Extends}

-- A stamp of up to half the budget.
abbrev pub small : ToTell → Bool
small z = leb z.size (stamp_entry_budget / 2)

all-insert_by_key :
    (z : ToTell) (xs : List ToTell)
    → small z ≡ true
    → all small xs ≡ true
    → all small (insert_by_key z xs) ≡ true
unfolding insert_by_key
all-insert_by_key z [] h k = ground (arith, h)
all-insert_by_key z (x ∷ xs) h k = ground (arith, h, k, all-insert_by_key z xs)

all-sort_by_key : (xs : List ToTell) → all small xs ≡ true → all small (sort_by_key xs) ≡ true
unfolding sort_by_key
all-sort_by_key [] h = h
all-sort_by_key (x ∷ xs) h =
    all-insert_by_key x (sort_by_key xs) (ground (arith, h))
      (all-sort_by_key xs (ground (arith, h)))

all-from_cursor :
    (cursor : Str) (passed zs : List ToTell)
    → all small passed ≡ true
    → all small zs ≡ true
    → all small (from_cursor cursor passed zs) ≡ true
unfolding from_cursor
all-from_cursor cursor passed [] h k = h
all-from_cursor cursor passed (z ∷ zs) h k = ground (
  arith,
  h,
  k,
  all-append small passed (z ∷ []),
  all-append small (z ∷ zs) passed,
  all-from_cursor cursor (passed ++ (z ∷ [])) zs,
)

all-in_turn :
    (cursor : Str) (zs : List ToTell) → all small zs ≡ true → all small (in_turn cursor zs) ≡ true
unfolding in_turn
all-in_turn cursor zs h = all-from_cursor cursor [] (sort_by_key zs) refl (all-sort_by_key zs h)

total-insert_by_key :
    (z : ToTell) (xs : List ToTell) → total (insert_by_key z xs) ≡ z.size + total xs
unfolding insert_by_key total
total-insert_by_key z [] = refl
total-insert_by_key z (x ∷ xs) = ground (arith, total-insert_by_key z xs)

total-sort_by_key : (xs : List ToTell) → total (sort_by_key xs) ≡ total xs
unfolding sort_by_key total
total-sort_by_key [] = refl
total-sort_by_key (x ∷ xs) =
    ground (arith, total-sort_by_key xs, total-insert_by_key x (sort_by_key xs))

total-from_cursor :
    (cursor : Str) (passed zs : List ToTell)
    → total (from_cursor cursor passed zs) ≡ total passed + total zs
unfolding from_cursor total
total-from_cursor cursor passed [] = omega arith
total-from_cursor cursor passed (z ∷ zs) = ground (
  arith,
  total-from_cursor cursor (passed ++ (z ∷ [])) zs,
  total-append passed (z ∷ []),
  total-append (z ∷ zs) passed,
)

total-in_turn : (cursor : Str) (zs : List ToTell) → total (in_turn cursor zs) ≡ total zs
unfolding in_turn total
total-in_turn cursor zs =
    ground (arith, total-from_cursor cursor [] (sort_by_key zs), total-sort_by_key zs)

nonempty : (xs : List ToTell) (z : ToTell) → is_empty (xs ++ (z ∷ [])) ≡ false
nonempty [] z = refl
nonempty (x ∷ xs) z = refl

abbrev Within : ℕ → Filled × Bool → Type 0
Within limit r = r.0.size ≤ limit

-- Small stamps stay within a limit of half the budget or more.
fill_rank-Within :
    (limit : ℕ) (f : Filled) (zs : List ToTell)
    → stamp_entry_budget / 2 ≤ limit
    → all small zs ≡ true
    → f.size ≤ limit
    → (is_empty f.told ≡ false) ⊎ (f.size ≡ 0)
    → Within limit (fill_rank limit f zs)
unfolding fill_rank
fill_rank-Within limit f [] l h k e = k
fill_rank-Within limit f (z ∷ zs) l h k e =
    let next : Filled = record {
      told = f.told ++ (z ∷ []);
      size = f.size + z.size;
      cursor = z.key;
    } in
    by_test (Within limit) (ltb limit (f.size + z.size) && not (is_empty f.told)) _ _ (λ x. k)
      (λ x.
        fill_rank-Within limit next zs l (ground (arith, h)) (ground (arith, h, k, e, x, l))
          (inl (nonempty f.told z)))

Memᴰ_last : (z : ToTell) (xs : List ToTell) → Memᴰ z (xs ++ (z ∷ []))
Memᴰ_last z [] = Memᴰ.head refl
Memᴰ_last z (x ∷ xs) = Memᴰ.tail (Memᴰ_last z xs)

-- What was told stays told.
Memᴰ-Extends :
    (z : ToTell) (f : Filled) (r : Filled × Bool) → Extends f r → Memᴰ z f.told → Memᴰ z r.0.told
Memᴰ-Extends z f r (more, e) m = subst (λ l. Memᴰ z l) (sym e) (Memᴰ-append_left z f.told more m)

abbrev Tells : ToTell → Filled × Bool → Type 0
Tells z r = Memᴰ z r.0.told

-- A zone that has room is told.
fill_rank-Tells :
    (limit : ℕ) (f : Filled) (z : ToTell) (zs : List ToTell)
    → f.size + z.size ≤ limit
    → Tells z (fill_rank limit f (z ∷ zs))
unfolding fill_rank
fill_rank-Tells limit f z zs h =
    let next : Filled = record {
      told = f.told ++ (z ∷ []);
      size = f.size + z.size;
      cursor = z.key;
    } in
    by_test (Tells z) (ltb limit (f.size + z.size) && not (is_empty f.told)) _ _
      (λ x. absurd (ground (arith, h, x)))
      (λ x.
        Memᴰ-Extends z next (fill_rank limit next zs) (fill_rank-Extends limit next zs)
          (Memᴰ_last z f.told))

-- When every changed zone's stamp is of up to half the budget, the next due zone is told, if its
-- stamp is too: changes hold it back no longer than to this entry.
pub fill_entry_due :
    (ranked : Ranked) (c : Cursors) (z : ToTell) (later : List ToTell)
    → all small ranked.rank_changed ≡ true
    → small z ≡ true
    → in_turn c.at_due ranked.rank_due ≡ z ∷ later
    → Memᴰ z (fill_entry ranked c).0
unfolding fill_entry changed_limit total
fill_entry_due ranked c z later h k t =
    let due = total ranked.rank_due in
    let limit = changed_limit due in
    let l0 = in_turn c.at_changed ranked.rank_changed in
    let none_told : Filled = record { told = []; size = 0; cursor = c.at_changed } in
    let f0 = fill_rank limit none_told l0 in
    let room : f0.0.size ≤ limit =
      fill_rank-Within limit none_told l0 (ground arith)
        (all-in_turn c.at_changed ranked.rank_changed h) (ground arith) (inr refl) in
    let owed : total (z ∷ later) ≡ due =
      ap total (sym t) ∙ total-in_turn c.at_due ranked.rank_due in
    let g0 : Filled = record (f0.0) { cursor = c.at_due } in
    let f1 = fill_rank stamp_entry_budget g0 (in_turn c.at_due ranked.rank_due) in
    let m1 : Memᴰ z f1.0.told =
      subst (λ l. Memᴰ z (fill_rank stamp_entry_budget g0 l).0.told) (sym t)
        (fill_rank-Tells stamp_entry_budget g0 z later (ground (arith, room, owed, k))) in
    let g1 : Filled = record (f1.0) { cursor = c.at_going } in
    let f2 = fill_rank stamp_entry_budget g1 (in_turn c.at_going ranked.rank_going) in
    let m2 =
      Memᴰ-Extends z g1 f2
        (fill_rank-Extends stamp_entry_budget g1 (in_turn c.at_going ranked.rank_going)) m1 in
    let g2 : Filled = record (f2.0) { cursor = c.at_once } in
    let f3 = fill_rank stamp_entry_budget g2 (in_turn c.at_once ranked.rank_once) in
    let m3 =
      Memᴰ-Extends z g2 f3
        (fill_rank-Extends stamp_entry_budget g2 (in_turn c.at_once ranked.rank_once)) m2 in
    by_test (λ (e : List ToTell × ℕ × Bool × Cursors). Memᴰ z e.0) f1.1 _ _ (λ _. m1)
      (λ _.
        by_test (λ (e : List ToTell × ℕ × Bool × Cursors). Memᴰ z e.0) f2.1 _ _ (λ _. m2)
          (λ _.
            by_test (λ (e : List ToTell × ℕ × Bool × Cursors). Memᴰ z e.0) f0.1 _ _ (λ _. m2)
              (λ _. m3)))
