-- ===== src/Lifecycle/Table.antt =====
-- KeyLifecycleTable, its rows in the source's order, and Next, which takes the first row that fits.
-- The rows' notes are text for a reader and are left out.
use tdns_mp.Prelude.{
  ◌+◌, ◌==◌, Bool, true, false, not, ◌&&◌, ◌||◌, Option, none, some, List, [], ◌∷◌, ltb, is_empty,
  if◌then◌else◌,
}
use tdns_mp.Lifecycle.States.{
  KeyState, KeyEvent, minting, created, mpdist, published, standby, active, retired, mpremove,
  removed, state_eq, event_eq,
}
use tdns_mp.Lifecycle.Views.{
  KeyView, ZoneView, elapsed, all_other_signers_applied, distribution_incomplete,
  confirmations_outstanding, parent_ds_wait_met,
}

pub data RowId : Type 0 where
  t1 t2 t3 t3_at_once t4 t5 t6 t6_resend t7 t7_published t7_standby t8 t9 t10 t10a t11 t11a : RowId
  t10b t12 t13 t13_at_once t14a t14b t15 t18 t19 : RowId

-- A row's From and To: a state's name, or "*".
pub data Place : Type 0 where
  any_state : Place
  at : KeyState → Place

abbrev pub Guard : Type 0
Guard = KeyView → ZoneView → Bool

-- `guard` is `none` for a nil guard.
pub record Transition : Type 0 where
  pub id : RowId
  pub from : Place
  pub event : KeyEvent
  pub guard : Option Guard
  pub to : Place

unfoldable pub guard_mint : Guard
guard_mint k z =
    ltb z.in_pipeline z.standby_count
    || (z.lifetime_due
        || (z.no_active_of_role
            || ((z.rollover_pending && z.in_pipeline == 0)
                || (z.alg_roll_pending && z.policy_alg_keys == 0))))

unfoldable pub guard_all_applied : Guard
guard_all_applied k z = all_other_signers_applied z

unfoldable pub guard_no_other_signer : Guard
guard_no_other_signer k z = is_empty z.other_signers

unfoldable pub guard_outstanding : Guard
guard_outstanding k z = confirmations_outstanding z

unfoldable pub guard_propagated : Guard
guard_propagated k z = elapsed k.published_at (z.propagation_delay + z.served_dnskey_ttl) z.now

unfoldable pub guard_promote : Guard
guard_promote k z =
    (not z.active_of_role_and_alg || (z.rollover_requested || z.alg_roll_in_flight))
    && (not (distribution_incomplete z) && parent_ds_wait_met k z)

unfoldable pub guard_successor_same_alg : Guard
guard_successor_same_alg k z = z.successor_algorithm == 0 || k.algorithm == z.successor_algorithm

unfoldable pub guard_successor_other_alg : Guard
guard_successor_other_alg k z =
    k.sep && (not (z.successor_algorithm == 0) && not (k.algorithm == z.successor_algorithm))

unfoldable pub guard_withdrawn_ksk : Guard
guard_withdrawn_ksk k z = k.sep && k.withdrawn

unfoldable pub guard_ds_expired : Guard
guard_ds_expired k z =
    k.sep && (k.withdrawn && (k.ds_gone && elapsed k.ds_gone_at k.parent_ds_ttl z.now))

unfoldable pub guard_margin : Guard
guard_margin k z = if k.sep && not k.ds_gone then false else elapsed k.retired_at z.margin z.now

unfoldable pub guard_sep : Guard
guard_sep k z = k.sep

unfoldable pub guard_alg_superseded : Guard
guard_alg_superseded k z =
    if k.sep
      || (k.algorithm == z.policy_algorithm || (not z.policy_alg_active || not z.ksk_side_done))
    then false
    else z.old_alg_ksk_leaving || elapsed z.policy_alg_active_since z.sig_lifetime z.now

abbrev row : RowId → Place → KeyEvent → Option Guard → Place → Transition
row i f e g t = record { id = i; from = f; event = e; guard = g; to = t }

unfoldable pub key_lifecycle_table : List Transition
key_lifecycle_table =
    row t1 (at minting) KeyEvent.mint (some guard_mint) (at created)
    ∷ row t2 (at created) KeyEvent.distributed none (at mpdist)
    ∷ row t3 (at mpdist) KeyEvent.applied (some guard_all_applied) (at published)
    ∷ row t3_at_once (at mpdist) KeyEvent.distributed (some guard_no_other_signer) (at published)
    ∷ row t4 (at mpdist) KeyEvent.pending none (at mpdist)
    ∷ row t5 (at mpdist) KeyEvent.rejected none (at mpdist)
    ∷ row t6 any_state KeyEvent.retry none any_state
    ∷ row t6_resend any_state KeyEvent.resend (some guard_outstanding) any_state
    ∷ row t7 (at mpdist) KeyEvent.withdraw none (at mpremove)
    ∷ row t7_published (at published) KeyEvent.withdraw none (at mpremove)
    ∷ row t7_standby (at standby) KeyEvent.withdraw none (at mpremove)
    ∷ row t8 (at published) KeyEvent.propagated (some guard_propagated) (at standby)
    ∷ row t9 (at standby) KeyEvent.promote (some guard_promote) (at active)
    ∷ row t10 (at active) KeyEvent.successor_active (some guard_successor_same_alg) (at retired)
    ∷ row t10a (at active) KeyEvent.successor_active (some guard_successor_other_alg) (at active)
    ∷ row t11 (at retired) KeyEvent.ds_gone none (at retired)
    ∷ row t11a (at active) KeyEvent.ds_gone (some guard_withdrawn_ksk) (at active)
    ∷ row t10b (at active) KeyEvent.ds_expired (some guard_ds_expired) (at retired)
    ∷ row t12 (at retired) KeyEvent.margin (some guard_margin) (at mpremove)
    ∷ row t13 (at mpremove) KeyEvent.removal_applied (some guard_all_applied) (at removed)
    ∷ row t13_at_once (at mpremove) KeyEvent.distributed (some guard_no_other_signer) (at removed)
    ∷ row t14a (at mpdist) KeyEvent.signers_changed none (at mpdist)
    ∷ row t14b (at mpremove) KeyEvent.signers_changed none (at mpremove)
    ∷ row t15 any_state KeyEvent.restart none any_state
    ∷ row t18 (at standby) KeyEvent.ds_present (some guard_sep) (at standby)
    ∷ row t19 (at active) KeyEvent.alg_superseded (some guard_alg_superseded) (at retired)
    ∷ []

-- `t.From == "*" || t.From == state`.
abbrev pub fits : Place → KeyState → Bool
fits any_state s = true
fits (at f) s = state_eq f s

abbrev pub guard_holds : Option Guard → KeyView → ZoneView → Bool
guard_holds none k z = true
guard_holds (some g) k z = g k z

-- The state a row leads to from `s`.
abbrev pub target : Place → KeyState → KeyState
target any_state s = s
target (at t) s = t

-- The loop of Next over the rows, at the key's state `s`.
unfoldable pub scan :
    List Transition → KeyState → KeyView → KeyEvent → ZoneView → KeyState × Option Transition
scan [] s k ev z = (s, none)
scan (t ∷ rows) s k ev z =
    let rest = scan rows s k ev z in
    if not (event_eq t.event ev) || not (fits t.from s)
    then rest
    else if not (guard_holds t.guard k z)
    then rest
    else (target t.to s, some t)

-- The key's state after the event, and the row that fits; no row means no change.
unfoldable pub next : KeyView → KeyEvent → ZoneView → KeyState × Option Transition
unfolding scan key_lifecycle_table
next k ev z = scan key_lifecycle_table k.state k ev z
