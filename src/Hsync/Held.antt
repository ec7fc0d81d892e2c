-- ===== src/Hsync/Held.antt =====
-- A peer is removed only after the hold time: what the passes before a removal have seen.
use tdns_mp.Prelude.{
  Bool, List, Str, [], arith, false, inl, inr, is_empty, true, ℕ, ◌&&◌, ◌+◌, ◌==◌, ◌||◌, ◌∷◌, ◌≡◌,
  ◌≤◌, ◌⊎◌,
}
use tdns_mp.Hsync.Registry.{Peer}
use tdns_mp.Hsync.Prune.{hold_time, note_unshared, prune_news, pruned, still_unshared}

-- The passes that one peer has seen, the newest first: when, and which zones named it then.
abbrev pub Passes : Type 0
Passes = List (ℕ × List Str)

-- The peer after the passes; between two passes the zones that name it change as they may.
unfoldable pub after_passes : Peer → Passes → Peer
unfolding note_unshared
after_passes p [] = p
after_passes p (x ∷ older) = note_unshared x.0 (record (after_passes p older) { zones = x.1 })

-- No zone named the peer at the pass of a time, nor at any pass since.
unfoldable pub unnamed_since : ℕ → Passes → Bool
unnamed_since s [] = false
unnamed_since s (x ∷ older) =
    let before = unnamed_since s older in is_empty x.1 && (x.0 == s || before)

after_passes-unnamed_since :
    (p : Peer) (passes : Passes)
    → p.unshared ≡ 0
    → ((after_passes p passes).unshared == 0 ≡ true)
      ⊎ (unnamed_since (after_passes p passes).unshared passes ≡ true)
unfolding after_passes unnamed_since note_unshared
after_passes-unnamed_since p [] h = ground (arith, h)
after_passes-unnamed_since p (x ∷ older) h =
    let ih = after_passes-unnamed_since p older h in ground (arith, ih)

-- A new peer that the prune removes at `now` had been found with no zone that names it at some pass
-- at least the hold time ago, and at every pass since, and no zone names it now. A zone that
-- names it again by the time the removal is tried keeps it.
pub prune_news-pruned :
    (hold now : ℕ) (p later : Peer) (passes : Passes) (zones : List Str)
    → p.unshared ≡ 0
    → prune_news hold now (record (after_passes p passes) { zones = zones }) later ≡ pruned
    → ((s : ℕ) × (s + hold_time hold ≤ now) × (unnamed_since s passes ≡ true))
      × (is_empty zones ≡ true)
      × (is_empty later.zones ≡ true)
unfolding prune_news still_unshared
prune_news-pruned hold now p later passes zones h e =
    let q = after_passes p passes in
    elim (after_passes-unnamed_since p passes h) [
      | inl z ↦ ground (arith, e, z)
      | inr u ↦ ((q.unshared, ground (arith, e), u), ground (arith, e), ground (arith, e))
    ]
