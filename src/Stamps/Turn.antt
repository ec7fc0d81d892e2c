-- ===== src/Stamps/Turn.antt =====
-- Which zones an entry leaves out (fillEntry).
use tdns_mp.Prelude.{
  Bool, List, [], ap, arith, by_test, false, inl, inr, is_empty, length, length-append, ltb, not,
  refl, true, ℕ, ◌&&◌, ◌++◌, ◌+◌, ◌<◌, ◌∙◌, ◌∷◌, ◌≡◌, ◌≤◌, ◌⊎◌,
}
use tdns_mp.Stamps.Entry.{
  Cursors, Filled, Ranked, ToTell, changed_limit, fill_entry, fill_rank, in_turn,
  stamp_entry_budget, total,
}
use tdns_mp.Stamps.Room.{Told, append_assoc, append_nil, fill_rank-Told, length-in_turn}

abbrev pub Extends : Filled → Filled × Bool → Type 0
Extends f r = (more : List ToTell) × (r.0.told ≡ f.told ++ more)

pub fill_rank-Extends :
    (limit : ℕ) (f : Filled) (zs : List ToTell) → Extends f (fill_rank limit f zs)
unfolding fill_rank
fill_rank-Extends limit f [] = ([], append_nil f.told)
fill_rank-Extends limit f (z ∷ zs) =
    let next : Filled = record {
      told = f.told ++ (z ∷ []);
      size = f.size + z.size;
      cursor = z.key;
    } in
    let ih = fill_rank-Extends limit next zs in
    by_test (Extends f) (ltb limit (f.size + z.size) && not (is_empty f.told)) _ _
      (λ x. ([], append_nil f.told)) (λ x. (z ∷ ih.0, ih.1 ∙ append_assoc f.told (z ∷ []) ih.0))

-- The zones of a rank that is told are those of the rank, and no more.
fill_rank-le :
    (f : Filled) (zs : List ToTell) (r : Filled × Bool)
    → Told f zs r
    → length r.0.told ≤ length f.told + length zs
fill_rank-le f zs r (inl (k, e)) = omega (arith, ap (λ l. length l) e, length-append f.told zs)
fill_rank-le f zs r (inr (k, e)) = omega (arith, e)

-- What is told from here on comes after.
whole :
    (first : List ToTell) (f : Filled) (r : Filled × Bool)
    → f.told ≡ first
    → Extends f r
    → (more : List ToTell) × (r.0.told ≡ first ++ more)
whole first f r e (more, k) = (more, k ∙ ap (λ l. l ++ more) e)

-- An entry that is not partial tells, in this order, the changed zones, those that are due and the
-- others something is going on in, each rank whole and from its cursor on; the others come after. A
-- partial entry leaves out a zone of these three ranks.
pub fill_entry_partial :
    (ranked : Ranked) (c : Cursors)
    → let e = fill_entry ranked c in
      ((e.2 ≡ false)
        × ((more : List ToTell) × (e.0
              ≡ ((in_turn c.at_changed ranked.rank_changed ++ in_turn c.at_due ranked.rank_due)
                  ++ in_turn c.at_going ranked.rank_going)
                ++ more)))
      ⊎ ((e.2 ≡ true)
          × (length e.0
              < length ranked.rank_changed + length ranked.rank_due + length ranked.rank_going))
unfolding fill_entry
fill_entry_partial ranked c =
    let limit = changed_limit (total ranked.rank_due) in
    let l0 = in_turn c.at_changed ranked.rank_changed in
    let l1 = in_turn c.at_due ranked.rank_due in
    let l2 = in_turn c.at_going ranked.rank_going in
    let l3 = in_turn c.at_once ranked.rank_once in
    let n0 = length-in_turn c.at_changed ranked.rank_changed in
    let n1 = length-in_turn c.at_due ranked.rank_due in
    let n2 = length-in_turn c.at_going ranked.rank_going in
    let none_told : Filled = record { told = []; size = 0; cursor = c.at_changed } in
    let f0 = fill_rank limit none_told l0 in
    let h0 = fill_rank-Told limit none_told l0 in
    let g0 : Filled = record (f0.0) { cursor = c.at_due } in
    let f1 = fill_rank stamp_entry_budget g0 l1 in
    let h1 = fill_rank-Told stamp_entry_budget g0 l1 in
    let g1 : Filled = record (f1.0) { cursor = c.at_going } in
    let f2 = fill_rank stamp_entry_budget g1 l2 in
    let h2 = fill_rank-Told stamp_entry_budget g1 l2 in
    let m0 = fill_rank-le none_told l0 f0 h0 in
    let m1 = fill_rank-le g0 l1 f1 h1 in
    let m2 = fill_rank-le g1 l2 f2 h2 in
    let g2 : Filled = record (f2.0) { cursor = c.at_once } in
    let last = fill_rank-Extends stamp_entry_budget g2 l3 in
    elim h1 [
      | inr (k1, e1) ↦ rw k1 (inr (refl, omega (arith, e1, m0, n0, n1)))
      | inl (k1, e1) ↦ elim h2 [
        | inr (k2, e2) ↦ rw (k1, k2) (inr (refl, omega (arith, e2, m1, m0, n0, n1, n2)))
        | inl (k2, e2) ↦ elim h0 [
          | inr (k0, e0) ↦ rw (k1, k2, k0) (inr (refl, omega (arith, m2, m1, e0, n0, n1, n2)))
          | inl (k0, e0) ↦
              rw (k1, k2, k0)
                (inl (
                  refl,
                  whole ((l0 ++ l1) ++ l2) g2 (fill_rank stamp_entry_budget g2 l3)
                      (e2 ∙ ap (λ l. l ++ l2) (e1 ∙ ap (λ l. l ++ l1) e0)) last,
                ))
        ]
      ]
    ]
