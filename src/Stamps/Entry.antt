-- ===== src/Stamps/Entry.antt =====
-- v2/instr_stamp.go: the zones that a stamp entry tells (fillEntry).
use tdns_mp.Prelude.{
  Bool, List, Str, [], false, if◌then◌else◌, is_empty, ltb, not, str_leb, true, ℕ, ◌&&◌, ◌++◌, ◌+◌,
  ◌-◌, ◌/◌, ◌∷◌,
}
use tdns_mp.Gossip.Model.{InstrStamp}

pub record ToTell : Type 0 where
  pub zone : Str
  pub key : Str
  pub st : InstrStamp
  pub size : ℕ
  pub hash : ℕ
  pub changed : Bool
  pub due : Bool
  pub own : Bool
  pub busy : Bool
  pub theirs : Bool

-- The zones by rank, and a cursor for each rank.
pub record Ranked : Type 0 where
  pub rank_changed : List ToTell
  pub rank_due : List ToTell
  pub rank_going : List ToTell
  pub rank_once : List ToTell

pub record Cursors : Type 0 where
  pub at_changed : Str
  pub at_due : Str
  pub at_going : Str
  pub at_once : Str

-- The entry so far, and the key that was told last of the rank.
pub record Filled : Type 0 where
  pub told : List ToTell
  pub size : ℕ
  pub cursor : Str

abbrev pub stamp_entry_budget : ℕ
stamp_entry_budget = 16384

unfoldable pub total : List ToTell → ℕ
total [] = 0
total (z ∷ zs) = z.size + total zs

unfoldable pub insert_by_key : ToTell → List ToTell → List ToTell
insert_by_key z [] = z ∷ []
insert_by_key z (x ∷ xs) =
    let rest = insert_by_key z xs in if str_leb z.key x.key then z ∷ x ∷ xs else x ∷ rest

unfoldable pub sort_by_key : List ToTell → List ToTell
unfolding insert_by_key
sort_by_key [] = []
sort_by_key (z ∷ zs) = insert_by_key z (sort_by_key zs)

-- A sorted list from its first zone past the cursor on, and round: the binary search finds it.
unfoldable pub from_cursor : Str → List ToTell → List ToTell → List ToTell
from_cursor cursor passed [] = passed
from_cursor cursor passed (z ∷ zs) =
    let next = from_cursor cursor (passed ++ (z ∷ [])) zs in
    if str_leb z.key cursor then next else (z ∷ zs) ++ passed

unfoldable pub in_turn : Str → List ToTell → List ToTell
unfolding sort_by_key from_cursor
in_turn cursor zs = from_cursor cursor [] (sort_by_key zs)

-- The loop over a rank, and whether a zone had no room.
unfoldable pub fill_rank : ℕ → Filled → List ToTell → Filled × Bool
fill_rank limit f [] = (f, false)
fill_rank limit f (z ∷ zs) =
    let next =
      fill_rank limit (record { told = f.told ++ (z ∷ []); size = f.size + z.size; cursor = z.key })
        zs in
    if ltb limit (f.size + z.size) && not (is_empty f.told) then (f, true) else next

-- Half the budget at most is kept for the zones that are due.
unfoldable pub changed_limit : ℕ → ℕ
changed_limit due =
    let half = stamp_entry_budget / 2 in stamp_entry_budget - (if ltb due half then due else half)

unfoldable pub fill_entry : Ranked → Cursors → List ToTell × ℕ × Bool × Cursors
unfolding in_turn fill_rank changed_limit total
fill_entry ranked c =
    let limit = changed_limit (total ranked.rank_due) in
    let (f0, left0) =
      fill_rank limit (record { told = []; size = 0; cursor = c.at_changed })
        (in_turn c.at_changed ranked.rank_changed) in
    let c0 = record c { at_changed = f0.cursor } in
    let (f1, left1) =
      fill_rank stamp_entry_budget (record f0 { cursor = c.at_due })
        (in_turn c.at_due ranked.rank_due) in
    let c1 = record c0 { at_due = f1.cursor } in
    let (f2, left2) =
      fill_rank stamp_entry_budget (record f1 { cursor = c.at_going })
        (in_turn c.at_going ranked.rank_going) in
    let c2 = record c1 { at_going = f2.cursor } in
    let (f3, left3) =
      fill_rank stamp_entry_budget (record f2 { cursor = c.at_once })
        (in_turn c.at_once ranked.rank_once) in
    let c3 = record c2 { at_once = f3.cursor } in
    if left1
    then (f1.told, f1.size, true, c1)
    else if left2
    then (f2.told, f2.size, true, c2)
    else if left0
    then (f2.told, f2.size, true, c2)
    else (f3.told, f3.size, false, c3)
