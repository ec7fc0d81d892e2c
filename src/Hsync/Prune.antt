-- ===== src/Hsync/Prune.antt =====
-- v2/hsync/reconcile.go: pruneUnsharedPeers, which ends the comms with a peer that no zone has named
-- for the hold time. A time is a number of nanoseconds since the zero time.
use tdns_mp.Prelude.{Bool, [], if◌then◌else◌, is_empty, leb, not, ℕ, ◌&&◌, ◌+◌, ◌==◌, ◌∷◌}
use tdns_mp.Hsync.Registry.{Peer, Registry}

pub data PruneNews : Type 0 where
  shared_again : PruneNews
  unshared_now : PruneNews
  pruned : PruneNews
  no_change : PruneNews

-- cfg.PeerHold, or the default of DefaultConfig().
unfoldable pub hold_time : ℕ → ℕ
hold_time hold = if hold == 0 then 86400000000000 else hold

-- The first switch: the peer, with Unshared as the pass leaves it.
unfoldable pub note_unshared : ℕ → Peer → Peer
note_unshared now p =
    if not (is_empty p.zones) && not (p.unshared == 0)
    then record p { unshared = 0 }
    else if is_empty p.zones && p.unshared == 0
    then record p { unshared = now }
    else p

-- The test under the lock of the peer's shard, for the object as it is then.
unfoldable pub still_unshared : ℕ → ℕ → Peer → Bool
still_unshared hold now p =
    is_empty p.zones && not (p.unshared == 0) && leb (p.unshared + hold_time hold) now

-- The second switch, by what the first one read; `later` is the peer when its removal is tried.
unfoldable pub prune_news : ℕ → ℕ → Peer → Peer → PruneNews
unfolding still_unshared
prune_news hold now p later =
    if not (is_empty p.zones) && not (p.unshared == 0)
    then shared_again
    else if is_empty p.zones && p.unshared == 0
    then unshared_now
    else if is_empty p.zones
        && leb (p.unshared + hold_time hold) now
        && still_unshared hold now later
    then pruned
    else no_change

-- One pass over the registry, when nothing else changes it meanwhile.
unfoldable pub prune_unshared_peers : ℕ → ℕ → Registry → Registry
unfolding note_unshared prune_news
prune_unshared_peers hold now [] = []
prune_unshared_peers hold now (e ∷ m) =
    let rest = prune_unshared_peers hold now m in
    if e.1.is_infra_peer then e ∷ rest else elim (prune_news hold now e.1 (note_unshared now e.1)) [
      | pruned ↦ rest
      | shared_again ↦ (e.0, note_unshared now e.1) ∷ rest
      | unshared_now ↦ (e.0, note_unshared now e.1) ∷ rest
      | no_change ↦ (e.0, note_unshared now e.1) ∷ rest
    ]
