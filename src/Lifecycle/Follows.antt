-- ===== src/Lifecycle/Follows.antt =====
-- The guards of the table as statements, and that the scan of the table follows the diagram.
use tdns_mp.Prelude.{
  All, Bool, List, Option, Str, [], arith, flag_of, is_empty, true, ℕ, ◌↔◌, ◌∷◌, ◌≡◌, ◌⊎◌,
  Bool-cases, inl, inr, refl, ◌+◌, ap, sym, ◌<◌, ◌∙◌, ◌≢◌,
}
use tdns_mp.Lifecycle.States.{
  KeyEvent, KeyState, active, minting, standby, created, mpdist, mpremove, published, retired,
  removed, state_code,
}
use tdns_mp.Lifecycle.Views.{
  KeyView, ZoneView, all_applied, all_other_signers_applied, distribution_incomplete, elapsed,
  parent_ds_wait_met,
}
use tdns_mp.Lifecycle.Table.{
  guard_alg_superseded, guard_ds_expired, guard_margin, guard_mint, guard_promote,
  guard_successor_same_alg, next, guard_all_applied, guard_no_other_signer, guard_propagated,
  key_lifecycle_table, scan,
}
use tdns_mp.Lifecycle.Diagram.{
  Confirmed, DsExpired, Edge, Elapsed, MayMint, MayPromote, MayRemove, ParentReady, SameAlgorithm,
  Superseded, confirmed, minted, recorded, expired, given_up, given_up_published, given_up_standby,
  gone, gone_at_once, leaves, nobody_to_wait_for, promoted, succeeded, superseded, propagates,
}

-- The tests of the code say the conditions of the diagram.
pub elapsed_iff : (o : Option ℕ) (w n : ℕ) → (elapsed o w n ≡ true) ↔ Elapsed o w n
elapsed_iff o w n = ground arith

all_applied_iff :
    (ps : List Str) (m : List (Str × Bool))
    → (all_applied ps m ≡ true) ↔ All (λ p. flag_of m p ≡ true) ps
unfolding all_applied
all_applied_iff [] m = ground arith
all_applied_iff (p ∷ ps) m = ground (arith, all_applied_iff ps m)

is_empty_iff : {A : Type 0} (xs : List A) → (is_empty xs ≡ true) ↔ (xs ≡ [])
is_empty_iff [] = ground arith
is_empty_iff (x ∷ xs) = ground arith

Confirmed-iff : (z : ZoneView) → (all_other_signers_applied z ≡ true) ↔ Confirmed z
unfolding all_other_signers_applied
Confirmed-iff z = ground (arith, is_empty_iff z.rejected, all_applied_iff z.other_signers z.applied)

parent_iff : (k : KeyView) (z : ZoneView) → (parent_ds_wait_met k z ≡ true) ↔ ParentReady k z
unfolding parent_ds_wait_met
parent_iff k z = ground (arith, elapsed_iff k.ds_present_since k.parent_ds_ttl z.now)

mint_iff : (k : KeyView) (z : ZoneView) → (guard_mint k z ≡ true) ↔ MayMint z
unfolding guard_mint
mint_iff k z = ground arith

propagated_iff :
    (k : KeyView) (z : ZoneView)
    → (guard_propagated k z ≡ true)
      ↔ Elapsed k.published_at (z.propagation_delay + z.served_dnskey_ttl) z.now
unfolding guard_propagated
propagated_iff k z = elapsed_iff k.published_at _ z.now

promote_iff : (k : KeyView) (z : ZoneView) → (guard_promote k z ≡ true) ↔ MayPromote k z
unfolding guard_promote distribution_incomplete all_other_signers_applied
promote_iff k z = ground (arith, parent_iff k z, Confirmed-iff z)

expired_iff : (k : KeyView) (z : ZoneView) → (guard_ds_expired k z ≡ true) ↔ DsExpired k z
unfolding guard_ds_expired
expired_iff k z = ground (arith, elapsed_iff k.ds_gone_at k.parent_ds_ttl z.now)

Superseded-iff : (k : KeyView) (z : ZoneView) → (guard_alg_superseded k z ≡ true) ↔ Superseded k z
unfolding guard_alg_superseded
Superseded-iff k z = ground (arith, elapsed_iff z.policy_alg_active_since z.sig_lifetime z.now)

remove_iff : (k : KeyView) (z : ZoneView) → (guard_margin k z ≡ true) ↔ MayRemove k z
unfolding guard_margin
remove_iff k z = ground (arith, elapsed_iff k.retired_at z.margin z.now)

SameAlgorithm-iff :
    (k : KeyView) (z : ZoneView) → (guard_successor_same_alg k z ≡ true) ↔ SameAlgorithm k z
unfolding guard_successor_same_alg
SameAlgorithm-iff k z = ground arith

abbrev at_state : KeyState → KeyView → KeyEvent → ZoneView → KeyState
unfolding next
at_state s k ev z = (scan key_lifecycle_table s k ev z).0

-- Each edge of the diagram is the step that the code takes.
step_of_Edge :
    {k : KeyView} {z : ZoneView} {ev : KeyEvent} {s t : KeyState}
    → Edge k z ev s t
    → at_state s k ev z ≡ t
unfolding at_state guard_all_applied guard_no_other_signer guard_propagated
step_of_Edge {k} {z} (minted h) = ground (arith, mint_iff k z)
step_of_Edge {k} {z} (confirmed h) = ground (arith, Confirmed-iff z)
step_of_Edge {k} {z} (promoted h) = ground (arith, promote_iff k z)
step_of_Edge {k} {z} (succeeded h) = ground (arith, SameAlgorithm-iff k z)
step_of_Edge {k} {z} (expired h) = ground (arith, expired_iff k z)
step_of_Edge {k} {z} (superseded h) = ground (arith, Superseded-iff k z)
step_of_Edge {k} {z} (leaves h) = ground (arith, remove_iff k z)
step_of_Edge {k} {z} (gone h) = ground (arith, Confirmed-iff z)
step_of_Edge {k} {z} (nobody_to_wait_for h) = rw ((is_empty_iff z.other_signers).1 h, at_state)
step_of_Edge {k} {z} (gone_at_once h) = rw ((is_empty_iff z.other_signers).1 h, at_state)
step_of_Edge {k} {z} (propagates h) = ground (arith, propagated_iff k z)
step_of_Edge recorded = refl
step_of_Edge given_up = refl
step_of_Edge given_up_published = refl
step_of_Edge given_up_standby = refl

-- An event changes the state along an edge of the diagram, or not at all.
abbrev Follows : KeyView → ZoneView → KeyEvent → KeyState → KeyState → Type 0
Follows k z ev s t = (t ≡ s) ⊎ ((u : KeyState) × (t ≡ u) × Edge k z ev s u)

Follows-step :
    (s : KeyState) (k : KeyView) (ev : KeyEvent) (z : ZoneView)
    → Follows k z ev s (at_state s k ev z)
unfolding at_state guard_all_applied guard_no_other_signer
Follows-step minting k KeyEvent.mint z = elim (Bool-cases (guard_mint k z)) [
  | inl y ↦ inr (created, ground arith, minted ((mint_iff k z).0 y))
  | inr n ↦ inl (ground arith)
]
Follows-step created k KeyEvent.distributed z = inr (mpdist, refl, recorded)
Follows-step mpdist k KeyEvent.applied z = elim (Bool-cases (all_other_signers_applied z)) [
  | inl y ↦ inr (published, ground arith, confirmed ((Confirmed-iff z).0 y))
  | inr n ↦ inl (ground arith)
]
Follows-step mpdist k KeyEvent.distributed z = elim (Bool-cases (is_empty z.other_signers)) [
  | inl y ↦ inr (published, ground arith, nobody_to_wait_for ((is_empty_iff z.other_signers).0 y))
  | inr n ↦ inl (ground arith)
]
Follows-step mpdist k KeyEvent.withdraw z = inr (mpremove, refl, given_up)
Follows-step published k KeyEvent.withdraw z = inr (mpremove, refl, given_up_published)
Follows-step standby k KeyEvent.withdraw z = inr (mpremove, refl, given_up_standby)
Follows-step published k KeyEvent.propagated z = elim (Bool-cases (guard_propagated k z)) [
  | inl y ↦ inr (standby, ground arith, propagates ((propagated_iff k z).0 y))
  | inr n ↦ inl (ground arith)
]
Follows-step standby k KeyEvent.promote z = elim (Bool-cases (guard_promote k z)) [
  | inl y ↦ inr (active, ground arith, promoted ((promote_iff k z).0 y))
  | inr n ↦ inl (ground arith)
]
Follows-step active k KeyEvent.successor_active z =
    elim (Bool-cases (guard_successor_same_alg k z)) [
      | inl y ↦ inr (retired, ground arith, succeeded ((SameAlgorithm-iff k z).0 y))
      | inr n ↦ inl (ground arith)
    ]
Follows-step active k KeyEvent.ds_gone z = inl (ground arith)
Follows-step active k KeyEvent.ds_expired z = elim (Bool-cases (guard_ds_expired k z)) [
  | inl y ↦ inr (retired, ground arith, expired ((expired_iff k z).0 y))
  | inr n ↦ inl (ground arith)
]
Follows-step active k KeyEvent.alg_superseded z = elim (Bool-cases (guard_alg_superseded k z)) [
  | inl y ↦ inr (retired, ground arith, superseded ((Superseded-iff k z).0 y))
  | inr n ↦ inl (ground arith)
]
Follows-step retired k KeyEvent.margin z = elim (Bool-cases (guard_margin k z)) [
  | inl y ↦ inr (mpremove, ground arith, leaves ((remove_iff k z).0 y))
  | inr n ↦ inl (ground arith)
]
Follows-step mpremove k KeyEvent.removal_applied z =
    elim (Bool-cases (all_other_signers_applied z)) [
      | inl y ↦ inr (removed, ground arith, gone ((Confirmed-iff z).0 y))
      | inr n ↦ inl (ground arith)
    ]
Follows-step mpremove k KeyEvent.distributed z = elim (Bool-cases (is_empty z.other_signers)) [
  | inl y ↦ inr (removed, ground arith, gone_at_once ((is_empty_iff z.other_signers).0 y))
  | inr n ↦ inl (ground arith)
]
Follows-step standby k KeyEvent.ds_present z = inl (ground arith)
Follows-step s k KeyEvent.resend z = inl (ground arith)
Follows-step _ k _ z = inl refl

-- An edge leads to a later state.
pub Edge-lt :
    {k : KeyView} {z : ZoneView} {ev : KeyEvent} {s t : KeyState}
    → Edge k z ev s t
    → state_code s < state_code t
Edge-lt (minted h) = omega arith
Edge-lt _ = omega arith

-- What Next does to the state is the diagram: for every key, event and zone it takes the key to
-- another state `t` exactly when the diagram has an edge from the key's state to `t` on that
-- event whose condition holds.
pub next-iff-Edge :
    (k : KeyView) (ev : KeyEvent) (z : ZoneView) (t : KeyState)
    → (((next k ev z).0 ≡ t) × (t ≢ k.state)) ↔ Edge k z ev k.state t
unfolding next
next-iff-Edge k ev z t = (
  λ h. elim (Follows-step k.state k ev z) [
    | inl same ↦ absurd (h.1 (sym h.0 ∙ same))
    | inr (u, e, edge) ↦ rw (sym h.0 ∙ e) edge
  ],
  λ edge. (step_of_Edge edge, λ e. absurd (ground (arith, Edge-lt edge, ap state_code e))),
)

-- Either the state stays, or the step is an edge.
pub next_moves :
    (k : KeyView) (ev : KeyEvent) (z : ZoneView)
    → ((next k ev z).0 ≡ k.state) ⊎ Edge k z ev k.state (next k ev z).0
unfolding next
next_moves k ev z = elim (Follows-step k.state k ev z) [
  | inl same ↦ inl same
  | inr (u, e, edge) ↦ inr (rw e edge)
]
