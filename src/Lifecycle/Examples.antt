-- ===== src/Lifecycle/Examples.antt =====
-- Tests and witnesses of the lifecycle.
use tdns_mp.Lifecycle.Follows.{next-iff-Edge}
use tdns_mp.Lifecycle.Safety.{
  DistributionDone, PromotionDone, PropagationDone, RemovalDone, RemovalDue, Replaced,
  active_history, removed_history,
}
use tdns_mp.Lifecycle.Rollover.{
  AtRest, KeyInventoryItem, RolloverFlags, rollover_under_way, rollover_under_way_iff, row_of,
}
use tdns_mp.Lifecycle.Diagram.{Edge}
use tdns_mp.Prelude.{
  All, Any, Bool, List, Str, [], false, flag_of, inl, none, refl, some, str, str_eq, true, ℕ, ◌+◌,
  ◌↔◌, ◌∷◌, ◌≡◌, ◌≢◌, ◌≤◌,
}
use tdns_mp.Lifecycle.States.{
  KeyEvent, KeyState, active, created, key_state_columns, minting, mpdist, mpremove, published,
  removed, retired, standby, state_code,
}
use tdns_mp.Lifecycle.Views.{
  KeyView, ZoneView, all_applied, all_other_signers_applied, distribution_incomplete,
  parent_ds_wait_met,
}
use tdns_mp.Lifecycle.Table.{
  guard_all_applied, guard_margin, guard_mint, guard_promote, guard_propagated,
  guard_successor_same_alg, next,
}
use tdns_mp.Lifecycle.Order.{Observation, Runs, changes, changes-le}

-- A KSK that was published at 100 and whose DS the parent serves since 500.
abbrev ksk : KeyState → KeyView
ksk s = record {
  state = s;
  sep = true;
  algorithm = 13;
  published_at = some 100;
  retired_at = some 900;
  withdrawn = false;
  ds_gone = true;
  ds_gone_at = some 1000;
  ds_present_since = some 500;
  parent_ds_ttl = 60;
}

abbrev other : Str
other = str "p2."

-- A zone with one other signing provider, which has applied the distribution.
abbrev zone_at : ℕ → ZoneView
zone_at n = record {
  other_signers = other ∷ [];
  applied = (other, true) ∷ [];
  pending = [];
  rejected = [];
  propagation_delay = 10;
  served_dnskey_ttl = 90;
  margin = 50;
  active_of_role_and_alg = true;
  rollover_requested = true;
  rollover_pending = true;
  alg_roll_in_flight = false;
  policy_algorithm = 13;
  alg_roll_pending = false;
  policy_alg_keys = 1;
  policy_alg_active = true;
  ksk_side_done = true;
  successor_algorithm = 13;
  old_alg_ksk_leaving = false;
  policy_alg_active_since = none;
  sig_lifetime = 1000;
  standby_count = 1;
  in_pipeline = 0;
  lifetime_due = false;
  no_active_of_role = false;
  parent_known = true;
  parent_serves_no_ds = false;
  now = n;
}

abbrev seen : KeyState → KeyEvent → ℕ → Observation
seen s ev n = record { key = ksk s; event = ev; zone = zone_at n }

abbrev rollover_in : List Observation
rollover_in =
    seen minting KeyEvent.mint 90
    ∷ seen created KeyEvent.distributed 91
    ∷ seen mpdist KeyEvent.pending 92
    ∷ seen mpdist KeyEvent.applied 100
    ∷ seen published KeyEvent.propagated 150
    ∷ seen published KeyEvent.propagated 200
    ∷ seen standby KeyEvent.promote 559
    ∷ seen standby KeyEvent.promote 560
    ∷ []

abbrev rollover_out : List Observation
rollover_out =
    seen active KeyEvent.successor_active 900
    ∷ seen retired KeyEvent.margin 940
    ∷ seen retired KeyEvent.margin 950
    ∷ seen mpremove KeyEvent.removal_applied 960
    ∷ []

rolls_in : Runs minting rollover_in active
unfolding next all_applied flag_of str_eq guard_mint guard_all_applied all_other_signers_applied
    guard_propagated guard_promote distribution_incomplete parent_ds_wait_met
rolls_in = (refl, (refl, (refl, (refl, (refl, (refl, (refl, (refl, refl))))))))

rolls_out : Runs active rollover_out removed
unfolding next all_applied flag_of str_eq guard_all_applied all_other_signers_applied
    guard_successor_same_alg guard_margin
rolls_out = (refl, (refl, (refl, (refl, refl))))

active_history_example :
    Any DistributionDone rollover_in
    × Any PropagationDone rollover_in
    × Any PromotionDone rollover_in
active_history_example = active_history minting rollover_in (inl refl) rolls_in

removed_history_example :
    Any Replaced rollover_out × Any RemovalDue rollover_out × Any RemovalDone rollover_out
removed_history_example = removed_history rollover_out rolls_out

changes-le_example : changes rollover_in + state_code minting ≤ state_code active
changes-le_example = changes-le minting rollover_in active rolls_in

next-iff-Edge_example :
    (((next (ksk standby) KeyEvent.promote (zone_at 560)).0 ≡ active) × (active ≢ standby))
    ↔ Edge (ksk standby) (zone_at 560) KeyEvent.promote standby active
next-iff-Edge_example = next-iff-Edge (ksk standby) KeyEvent.promote (zone_at 560) active

abbrev idle : RolloverFlags
idle = record { requested = false; alg_roll = false; propagation_pending = false }

abbrev inventory : List KeyInventoryItem
inventory = row_of active true true ∷ row_of standby true false ∷ []

rollover_under_way_iff_example : (rollover_under_way inventory idle ≡ false) ↔ (
    (◌≡◌ {A = Bool} false false)
    × (◌≡◌ {A = Bool} false false)
    × (◌≡◌ {A = Bool} false false)
    × All AtRest inventory)
rollover_under_way_iff_example = rollover_under_way_iff inventory idle

-- An active KSK whose DS has been withdrawn is a rollover under way.
withdrawn_rolls : rollover_under_way inventory idle ≡ true
unfolding rollover_under_way key_state_columns
withdrawn_rolls = refl
