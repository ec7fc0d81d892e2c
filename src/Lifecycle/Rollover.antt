-- ===== src/Lifecycle/Rollover.antt =====
-- rolloverUnderWay: whether this provider has a key rollover under way in the zone.
use tdns_mp.Prelude.{
  All, Bool, List, Option, [], arith, false, if◌then◌else◌, none, not, refl, some, true, ◌&&◌, ◌||◌,
  ◌↔◌, ◌∷◌, ◌≡◌, ◌≢◌, ◌⊎◌,
}
use tdns_mp.Lifecycle.States.{
  KeyState, active, created, foreign, key_state_columns, minting, mpdist, mpremove, published,
  removed, retired, standby,
}

-- What the predicate reads of a tdns.KeyInventoryItem: its state, its SEP bit (`Flags & dns.SEP`),
-- and its ds column, `none` for a sender from before the column.
pub record KeyInventoryItem : Type 0 where
  pub state : KeyState
  pub sep : Bool
  pub ds : Option Bool

pub record RolloverFlags : Type 0 where
  pub requested : Bool
  pub alg_roll : Bool
  pub propagation_pending : Bool

-- `k.DS != nil && !*k.DS`.
abbrev is_withdrawn : Option Bool → Bool
is_withdrawn none = false
is_withdrawn (some d) = not d

-- One round of the loop: whether the key makes the predicate true.
unfoldable pub key_rolls : KeyState → KeyInventoryItem → Bool
key_rolls mpdist k = true
key_rolls published k = true
key_rolls retired k = true
key_rolls mpremove k = true
key_rolls active k = k.sep && is_withdrawn k.ds
key_rolls _ k = false

keys_roll : List KeyInventoryItem → Bool
keys_roll [] = false
keys_roll (k ∷ ks) = key_rolls k.state k || keys_roll ks

unfoldable pub rollover_under_way : List KeyInventoryItem → RolloverFlags → Bool
unfolding keys_roll key_rolls
rollover_under_way keys f =
    if f.requested || (f.alg_roll || f.propagation_pending) then true else keys_roll keys

-- A key at rest: not there yet, waiting, signing, gone, or another provider's.
abbrev pub AtRest : KeyInventoryItem → Type 0
AtRest k =
    ((k.state ≡ minting)
      ⊎ ((k.state ≡ created) ⊎ ((k.state ≡ standby) ⊎ ((k.state ≡ removed) ⊎ (k.state ≡ foreign)))))
    ⊎ ((k.state ≡ active) × ((k.sep ≡ false) ⊎ (k.ds ≢ some false)))

key_rolls_iff :
    (s : KeyState) (k : KeyInventoryItem) → k.state ≡ s → (key_rolls s k ≡ false) ↔ AtRest k
unfolding key_rolls
key_rolls_iff minting k e = ground arith
key_rolls_iff _ k e = ground arith

keys_roll_iff : (ks : List KeyInventoryItem) → (keys_roll ks ≡ false) ↔ All AtRest ks
unfolding keys_roll
keys_roll_iff [] = ground arith
keys_roll_iff (k ∷ ks) = ground (arith, key_rolls_iff k.state k refl, keys_roll_iff ks)

-- No rollover is under way exactly when none was requested, no algorithm rollover is in flight,
-- no distribution waits for confirmations, and every key of the inventory is at rest: a
-- foreign key, one not yet distributed, a standby or removed one, or an active one that is no KSK
-- with its DS withdrawn.
pub rollover_under_way_iff :
    (keys : List KeyInventoryItem) (f : RolloverFlags)
    → (rollover_under_way keys f ≡ false) ↔ (
        (f.requested ≡ false)
        × (f.alg_roll ≡ false)
        × (f.propagation_pending ≡ false)
        × All AtRest keys)
unfolding rollover_under_way
rollover_under_way_iff keys f = ground (arith, keys_roll_iff keys)

-- The inventory row of a key as the state's columns write it.
abbrev pub row_of : KeyState → Bool → Bool → KeyInventoryItem
row_of s sep withdrawn = record {
  state = s;
  sep = sep;
  ds = (key_state_columns s sep withdrawn).0.ds;
}
