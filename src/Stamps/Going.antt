-- ===== src/Stamps/Going.antt =====
-- An entry that is not partial tells every zone that something is going on in.
use mathlib.Core.Path.{subst, refl, sym, ◌≡◌}
use tdns_mp.Stamps.Turn.{fill_entry_partial}
use tdns_mp.Prelude.{
  List, Memᴰ, Memᴰ-append_left, Memᴰ-append_right, Str, [], arith, by_test, false, inl, inr,
  str_leb, true, ℕ, ◌&&◌, ◌++◌, ◌∷◌, ◌⊎◌,
}
use tdns_mp.Stamps.Entry.{
  Cursors, Ranked, ToTell, fill_entry, from_cursor, in_turn, insert_by_key, sort_by_key,
}
use tdns_mp.Stamps.Rank.{Candidate, add_ranked, is_changed, is_due, is_going, noted, ranked_of}

Memᴰ-insert_here : (z : ToTell) (xs : List ToTell) → Memᴰ z (insert_by_key z xs)
unfolding insert_by_key
Memᴰ-insert_here z [] = Memᴰ.head refl
Memᴰ-insert_here z (x ∷ xs) =
    by_test (λ (l : List ToTell). Memᴰ z l) (str_leb z.key x.key) _ _ (λ _. Memᴰ.head refl)
      (λ _. Memᴰ.tail (Memᴰ-insert_here z xs))

Memᴰ-insert_by_key : (z y : ToTell) (xs : List ToTell) → Memᴰ z xs → Memᴰ z (insert_by_key y xs)
unfolding insert_by_key
Memᴰ-insert_by_key z y [] m = elim m [ ]
Memᴰ-insert_by_key z y (x ∷ xs) (Memᴰ.head e) =
    by_test (λ (l : List ToTell). Memᴰ z l) (str_leb y.key x.key) _ _ (λ _. Memᴰ.tail (Memᴰ.head e))
      (λ _. Memᴰ.head e)
Memᴰ-insert_by_key z y (x ∷ xs) (Memᴰ.tail m) =
    by_test (λ (l : List ToTell). Memᴰ z l) (str_leb y.key x.key) _ _ (λ _. Memᴰ.tail (Memᴰ.tail m))
      (λ _. Memᴰ.tail (Memᴰ-insert_by_key z y xs m))

Memᴰ-sort_by_key : (z : ToTell) (xs : List ToTell) → Memᴰ z xs → Memᴰ z (sort_by_key xs)
unfolding sort_by_key
Memᴰ-sort_by_key z [] m = elim m [ ]
Memᴰ-sort_by_key z (x ∷ xs) (Memᴰ.head e) =
    subst (λ y. Memᴰ y (insert_by_key x (sort_by_key xs))) (sym e)
      (Memᴰ-insert_here x (sort_by_key xs))
Memᴰ-sort_by_key z (x ∷ xs) (Memᴰ.tail m) =
    Memᴰ-insert_by_key z x (sort_by_key xs) (Memᴰ-sort_by_key z xs m)

-- In what was passed, or what is still to come.
Memᴰ-from_cursor :
    (z : ToTell) (cursor : Str) (passed zs : List ToTell)
    → Memᴰ z passed ⊎ Memᴰ z zs
    → Memᴰ z (from_cursor cursor passed zs)
unfolding from_cursor
Memᴰ-from_cursor z cursor passed [] (inl m) = m
Memᴰ-from_cursor z cursor passed [] (inr m) = elim m [ ]
Memᴰ-from_cursor z cursor passed (x ∷ zs) (inl m) =
    by_test (λ (l : List ToTell). Memᴰ z l) (str_leb x.key cursor) _ _
      (λ _.
        Memᴰ-from_cursor z cursor (passed ++ (x ∷ [])) zs
          (inl (Memᴰ-append_left z passed (x ∷ []) m)))
      (λ _. Memᴰ-append_right z (x ∷ zs) passed m)
Memᴰ-from_cursor z cursor passed (x ∷ zs) (inr (Memᴰ.head e)) =
    by_test (λ (l : List ToTell). Memᴰ z l) (str_leb x.key cursor) _ _
      (λ _.
        Memᴰ-from_cursor z cursor (passed ++ (x ∷ [])) zs
          (inl (Memᴰ-append_right z passed (x ∷ []) (Memᴰ.head e))))
      (λ _. Memᴰ.head e)
Memᴰ-from_cursor z cursor passed (x ∷ zs) (inr (Memᴰ.tail m)) =
    by_test (λ (l : List ToTell). Memᴰ z l) (str_leb x.key cursor) _ _
      (λ _. Memᴰ-from_cursor z cursor (passed ++ (x ∷ [])) zs (inr m))
      (λ _. Memᴰ.tail (Memᴰ-append_left z zs passed m))

Memᴰ-in_turn :
    (z : ToTell) (cursor : Str) (zs : List ToTell) → Memᴰ z zs → Memᴰ z (in_turn cursor zs)
unfolding in_turn
Memᴰ-in_turn z cursor zs m =
    Memᴰ-from_cursor z cursor [] (sort_by_key zs) (inr (Memᴰ-sort_by_key z zs m))

-- One of the first three ranks has it.
abbrev InFirstRanks : ToTell → Ranked → Type 0
InFirstRanks z r = Memᴰ z r.rank_changed ⊎ (Memᴰ z r.rank_due ⊎ Memᴰ z r.rank_going)

-- What holds after each way to rank a zone.
by_rank :
    (P : Ranked → Type 0) (x : Candidate) (refresh now : ℕ) (r : Ranked)
    → let z = noted x refresh now in
      P (record r { rank_changed = z ∷ r.rank_changed })
      → P (record r { rank_due = z ∷ r.rank_due })
      → P (record r { rank_going = z ∷ r.rank_going })
      → (is_going x.stamp ≡ false → P (record r { rank_once = z ∷ r.rank_once }))
      → (is_going x.stamp ≡ false → P r)
      → P (add_ranked x refresh now r)
unfolding add_ranked
by_rank P x refresh now r changed due going once rest =
    by_test P (is_changed x) _ _ (λ _. changed)
      (λ _.
        by_test P (is_going x.stamp && is_due x refresh now) _ _ (λ _. due)
          (λ _.
            by_test P (is_going x.stamp) _ _ (λ _. going)
              (λ g. by_test P x.once _ _ (λ _. once g) (λ _. rest g))))

going_ranked :
    (x : Candidate) (refresh now : ℕ) (r : Ranked)
    → is_going x.stamp ≡ true
    → InFirstRanks (noted x refresh now) (add_ranked x refresh now r)
going_ranked x refresh now r g =
    by_rank (InFirstRanks (noted x refresh now)) x refresh now r (inl (Memᴰ.head refl))
      (inr (inl (Memᴰ.head refl))) (inr (inr (Memᴰ.head refl))) (λ k. absurd (ground (arith, g, k)))
      (λ k. absurd (ground (arith, g, k)))

still_ranked :
    (z : ToTell) (x : Candidate) (refresh now : ℕ) (r : Ranked)
    → InFirstRanks z r
    → InFirstRanks z (add_ranked x refresh now r)
still_ranked z x refresh now r (inl m) =
    by_rank (InFirstRanks z) x refresh now r (inl (Memᴰ.tail m)) (inl m) (inl m) (λ _. inl m)
      (λ _. inl m)
still_ranked z x refresh now r (inr (inl m)) =
    by_rank (InFirstRanks z) x refresh now r (inr (inl m)) (inr (inl (Memᴰ.tail m))) (inr (inl m))
      (λ _. inr (inl m)) (λ _. inr (inl m))
still_ranked z x refresh now r (inr (inr m)) =
    by_rank (InFirstRanks z) x refresh now r (inr (inr m)) (inr (inr m)) (inr (inr (Memᴰ.tail m)))
      (λ _. inr (inr m)) (λ _. inr (inr m))

going-ranked_of :
    (x : Candidate) (xs : List Candidate) (refresh now : ℕ)
    → Memᴰ x xs
    → is_going x.stamp ≡ true
    → InFirstRanks (noted x refresh now) (ranked_of xs refresh now)
unfolding ranked_of
going-ranked_of x [] refresh now m g = elim m [ ]
going-ranked_of x (y ∷ ys) refresh now (Memᴰ.head e) g =
    subst
      (λ w.
        InFirstRanks (noted x refresh now) (add_ranked w refresh now (ranked_of ys refresh now)))
      e (going_ranked x refresh now (ranked_of ys refresh now) g)
going-ranked_of x (y ∷ ys) refresh now (Memᴰ.tail m) g =
    still_ranked (noted x refresh now) y refresh now (ranked_of ys refresh now)
      (going-ranked_of x ys refresh now m g)

-- Of the zones shared with a peer, every one that something is going on in is told in a beat whose
-- entry is not partial.
pub going_told_lem :
    (x : Candidate) (xs : List Candidate) (refresh now : ℕ) (c : Cursors)
    → Memᴰ x xs
    → is_going x.stamp ≡ true
    → (fill_entry (ranked_of xs refresh now) c).2 ≡ false
    → Memᴰ (noted x refresh now) (fill_entry (ranked_of xs refresh now) c).0
going_told_lem x xs refresh now c m g whole =
    let r = ranked_of xs refresh now in
    let z = noted x refresh now in
    let l0 = in_turn c.at_changed r.rank_changed in
    let l1 = in_turn c.at_due r.rank_due in
    let l2 = in_turn c.at_going r.rank_going in
    elim (fill_entry_partial r c) [
      | inr (k, e) ↦ absurd (ground (arith, k, whole))
      | inl (k, (more, e)) ↦
          let told : Memᴰ z ((l0 ++ l1) ++ l2) = elim (going-ranked_of x xs refresh now m g) [
            | inl a ↦
                Memᴰ-append_left z (l0 ++ l1) l2
                  (Memᴰ-append_left z l0 l1 (Memᴰ-in_turn z c.at_changed r.rank_changed a))
            | inr (inl a) ↦
                Memᴰ-append_left z (l0 ++ l1) l2
                  (Memᴰ-append_right z l0 l1 (Memᴰ-in_turn z c.at_due r.rank_due a))
            | inr (inr a) ↦
                Memᴰ-append_right z (l0 ++ l1) l2 (Memᴰ-in_turn z c.at_going r.rank_going a)
          ] in
          subst (λ l. Memᴰ z l) (sym e) (Memᴰ-append_left z ((l0 ++ l1) ++ l2) more told)
    ]
