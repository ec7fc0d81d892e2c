-- ===== src/Stamps/Examples.antt =====
-- Tests and witnesses of the stamp entry: changed zones that fill the budget, and one that is due.
use tdns_mp.Prelude.{
  List, Memᴰ, Str, [], false, length, none, refl, some, str, str_eq, str_leb, true, ℕ, ◌∷◌, ◌≡◌,
  ◌≤◌, ◌⊎◌,
}
use tdns_mp.Gossip.Model.{InstrStamp}
use tdns_mp.Stamps.Entry.{
  Cursors, Ranked, ToTell, changed_limit, fill_entry, fill_rank, from_cursor, in_turn,
  insert_by_key, sort_by_key, stamp_entry_budget, total,
}
use tdns_mp.Stamps.Room.{fill_entry_bounds}
use tdns_mp.Stamps.Rank.{
  Candidate, add_ranked, at_rest, candidate_of, is_changed, is_due, is_going, noted, ranked_of,
  same_serials,
}
use tdns_mp.Stamps.Going.{going_told_lem}
use tdns_mp.Stamps.Due.{fill_entry_due}

abbrev stamp : InstrStamp
stamp = record {
  active = 1;
  active_digest = [];
  newest = 1;
  newest_digest = [];
  agreeing = 0;
  agreeing_digest = [];
  known = true;
  refused = [];
  error = [];
  rollover = false;
  waits_on = [];
  hold = false;
  thaw = none;
  reconciling = false;
  step = none;
  step_held = false;
  removals = [];
}

abbrev zone_of : Str → ℕ → ToTell
zone_of name size = record {
  zone = name;
  key = name;
  st = stamp;
  size = size;
  hash = size;
  changed = false;
  due = false;
  own = true;
  busy = false;
  theirs = false;
}

abbrev ranked : Ranked
ranked = record {
  rank_changed = zone_of (str "c.") 8000 ∷ zone_of (str "b.") 7000 ∷ zone_of (str "d.") 6000 ∷ [];
  rank_due = zone_of (str "e.") 5000 ∷ [];
  rank_going = [];
  rank_once = [];
}

abbrev cursors : Cursors
cursors = record { at_changed = str "b."; at_due = []; at_going = []; at_once = [] }

-- From the cursor on, `c.` has room and `d.` has not: the rest is for `e.`, which is due.
the_due_is_told :
    (fill_entry ranked cursors).0 ≡ zone_of (str "c.") 8000 ∷ zone_of (str "e.") 5000 ∷ []
unfolding fill_entry in_turn sort_by_key insert_by_key from_cursor fill_rank changed_limit total
    str_leb
the_due_is_told = refl

fill_entry_bounds_example :
    let e = fill_entry ranked cursors in
    (e.1 ≡ total e.0) × ((e.1 ≤ stamp_entry_budget) ⊎ (length e.0 ≤ 1))
fill_entry_bounds_example = fill_entry_bounds ranked cursors

fill_entry_due_example : Memᴰ (zone_of (str "e.") 5000) (fill_entry ranked cursors).0
unfolding in_turn sort_by_key insert_by_key from_cursor str_leb
fill_entry_due_example = fill_entry_due ranked cursors (zone_of (str "e.") 5000) [] refl refl refl

abbrev candidates : List Candidate
candidates =
    candidate_of (zone_of (str "c.") 8000) true none none false
    ∷ candidate_of (zone_of (str "e.") 5000) false none (some (record { hash = 5000; at = 0 })) true
    ∷ []

going_told_lem_example :
    Memᴰ
      (noted (candidate_of (zone_of (str "c.") 8000) true none none false) 60 100)
      (fill_entry (ranked_of candidates 60 100) cursors).0
unfolding fill_entry in_turn sort_by_key insert_by_key from_cursor fill_rank changed_limit total
    str_leb ranked_of add_ranked noted is_changed is_going is_due candidate_of at_rest same_serials
    str_eq
going_told_lem_example =
    going_told_lem (candidate_of (zone_of (str "c.") 8000) true none none false) candidates 60 100
      cursors (Memᴰ.head refl) refl refl
