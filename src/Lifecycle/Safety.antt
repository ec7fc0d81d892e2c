-- ===== src/Lifecycle/Safety.antt =====
-- What must have happened to a key before it signs, and before it is gone.
use tdns_mp.Prelude.{
  Any, Any-map, Bool, List, [], arith, false, inl, inr, refl, some, true, ◌+◌, ◌↔◌, ◌≡◌, ◌⊎◌,
}
use tdns_mp.Lifecycle.States.{
  KeyEvent, KeyState, active, created, foreign, key_state_columns, minting, mpdist, mpremove,
  published, removed, retired, standby,
}
use tdns_mp.Lifecycle.Views.{KeyView, ZoneView}
use tdns_mp.Lifecycle.Diagram.{
  Confirmed, DsExpired, Edge, Elapsed, MayPromote, MayRemove, SameAlgorithm, Superseded, confirmed,
  expired, gone, gone_at_once, leaves, nobody_to_wait_for, promoted, propagates, succeeded,
  superseded,
}
use tdns_mp.Lifecycle.Order.{Observation, Runs, crossing}

-- The sets of states whose entries are looked for.
abbrev is_served : KeyState → Bool
is_served published = true
is_served standby = true
is_served active = true
is_served _ = false

abbrev is_propagated : KeyState → Bool
is_propagated standby = true
is_propagated active = true
is_propagated _ = false

abbrev is_active : KeyState → Bool
is_active active = true
is_active _ = false

-- Every state but active and retired.
abbrev is_pending_or_leaving : KeyState → Bool
is_pending_or_leaving active = false
is_pending_or_leaving retired = false
is_pending_or_leaving _ = true

abbrev is_past_active : KeyState → Bool
is_past_active active = false
is_past_active _ = true

abbrev is_removed : KeyState → Bool
is_removed removed = true
is_removed _ = false

-- The key's distribution was confirmed by every other signing provider, or there was none.
abbrev pub DistributionDone : Observation → Type 0
DistributionDone o = Confirmed o.zone ⊎ (o.zone.other_signers ≡ [])

abbrev pub PropagationDone : Observation → Type 0
PropagationDone o =
    (o.event ≡ KeyEvent.propagated)
    × Elapsed o.key.published_at (o.zone.propagation_delay + o.zone.served_dnskey_ttl) o.zone.now

abbrev pub PromotionDone : Observation → Type 0
PromotionDone o = (o.event ≡ KeyEvent.promote) × MayPromote o.key o.zone

abbrev pub RemovalDue : Observation → Type 0
RemovalDue o = (o.key.state ≡ retired) × (o.event ≡ KeyEvent.margin) × MayRemove o.key o.zone

-- The key's removal was confirmed by every other signing provider, or there was none to confirm it.
abbrev pub RemovalDone : Observation → Type 0
RemovalDone o =
    (o.key.state ≡ mpremove)
    × (((o.event ≡ KeyEvent.removal_applied) × Confirmed o.zone)
        ⊎ ((o.event ≡ KeyEvent.distributed) × (o.zone.other_signers ≡ [])))

-- The active key was replaced: a successor became active, of the key's algorithm or stating none;
-- or its withdrawn DS has been gone for the DS TTL; or its algorithm is no longer needed.
abbrev ReplacedBy : KeyView → ZoneView → KeyEvent → Type 0
ReplacedBy k z ev =
    ((ev ≡ KeyEvent.successor_active) × SameAlgorithm k z)
    ⊎ (((ev ≡ KeyEvent.ds_expired) × DsExpired k z)
        ⊎ ((ev ≡ KeyEvent.alg_superseded) × Superseded k z))

abbrev pub Replaced : Observation → Type 0
Replaced o = (o.key.state ≡ active) × ReplacedBy o.key o.zone o.event

-- The condition of the one edge into each set.
module _ {k : KeyView} {z : ZoneView} where
  into_served :
      {ev : KeyEvent} {s t : KeyState}
      → Edge k z ev s t
      → is_served s ≡ false
      → is_served t ≡ true
      → Confirmed z ⊎ (z.other_signers ≡ [])
  into_served (confirmed c) h h' = inl c
  into_served (nobody_to_wait_for c) h h' = inr c
  into_served _ h h' = absurd (cc)

  into_propagated :
      {ev : KeyEvent} {s t : KeyState}
      → Edge k z ev s t
      → is_propagated s ≡ false
      → is_propagated t ≡ true
      → (ev ≡ KeyEvent.propagated)
        × Elapsed k.published_at (z.propagation_delay + z.served_dnskey_ttl) z.now
  into_propagated (propagates c) h h' = (refl, c)
  into_propagated _ h h' = absurd (cc)

  into_active :
      {ev : KeyEvent} {s t : KeyState}
      → Edge k z ev s t
      → is_active s ≡ false
      → is_active t ≡ true
      → (ev ≡ KeyEvent.promote) × MayPromote k z
  into_active (promoted c) h h' = (refl, c)
  into_active _ h h' = absurd (cc)

  into_leaving :
      {ev : KeyEvent} {s t : KeyState}
      → Edge k z ev s t
      → is_pending_or_leaving s ≡ false
      → is_pending_or_leaving t ≡ true
      → (s ≡ retired) × (ev ≡ KeyEvent.margin) × MayRemove k z
  into_leaving (leaves c) h h' = (refl, refl, c)
  into_leaving _ h h' = absurd (cc)

  into_retired :
      {ev : KeyEvent} {s t : KeyState}
      → Edge k z ev s t
      → is_past_active s ≡ false
      → is_past_active t ≡ true
      → (s ≡ active) × ReplacedBy k z ev
  into_retired (succeeded c) h h' = (refl, inl (refl, c))
  into_retired (expired c) h h' = (refl, inr (inl (refl, c)))
  into_retired (superseded c) h h' = (refl, inr (inr (refl, c)))
  into_retired _ h h' = absurd (cc)

  into_removed :
      {ev : KeyEvent} {s t : KeyState}
      → Edge k z ev s t
      → is_removed s ≡ false
      → is_removed t ≡ true
      → (s ≡ mpremove)
        × (((ev ≡ KeyEvent.removal_applied) × Confirmed z)
            ⊎ ((ev ≡ KeyEvent.distributed) × (z.other_signers ≡ [])))
  into_removed (gone c) h h' = (refl, inl (refl, c))
  into_removed (gone_at_once c) h h' = (refl, inr (refl, c))
  into_removed _ h h' = absurd (cc)

-- A key that signs has been through the whole wait, whatever events it met. In the history of a
-- key that is not yet served (not there, created or in mpdist) and signs at its end, there was a
-- step at which every other signing provider had applied the key and nobody had rejected it, or no
-- other provider signed; a step at which the propagation delay and the served TTL had passed since
-- the key was published; and a promotion at which the distribution was complete with no
-- rejection, and for a KSK the parent was known and either served no DS for the zone or had
-- served the key's DS for its TTL.
pub active_history :
    (s : KeyState) (h : List Observation)
    → (s ≡ minting) ⊎ ((s ≡ created) ⊎ (s ≡ mpdist))
    → Runs s h active
    → Any DistributionDone h × Any PropagationDone h × Any PromotionDone h
active_history s h start r = (
  Any-map (λ o c. into_served c.0 c.1 c.2) (crossing is_served s h active r (ground arith) refl),
  Any-map (λ o c. into_propagated c.0 c.1 c.2)
      (crossing is_propagated s h active r (ground arith) refl),
  Any-map (λ o c. into_active c.0 c.1 c.2) (crossing is_active s h active r (ground arith) refl),
)

-- A key that has signed leaves step by step. In a history that takes an active key to removed there
-- was a step at which the key was active and was replaced: its successor became active, of its
-- algorithm or stating none, or its withdrawn DS had been gone for the DS TTL, or its algorithm
-- was no longer needed; a margin step at which it was retired, the margin had passed since then
-- and, for a KSK, the parent no longer served its DS; and a step at which it was in mpremove and
-- either every other signing provider had applied its removal with no rejection, or it was
-- distributed and no other provider signed.
pub removed_history :
    (h : List Observation)
    → Runs active h removed
    → Any Replaced h × Any RemovalDue h × Any RemovalDone h
removed_history h r = (
  Any-map (λ o c. into_retired c.0 c.1 c.2) (crossing is_past_active active h removed r refl refl),
  Any-map (λ o c. into_leaving c.0 c.1 c.2)
      (crossing is_pending_or_leaving active h removed r refl refl),
  Any-map (λ o c. into_removed c.0 c.1 c.2) (crossing is_removed active h removed r refl refl),
)

-- What the columns say of each state, for a KSK (`sep`) and a ZSK. Exactly the eight states of a
-- provider's own keys have columns; a key that signs is published; only an active key signs; the
-- DS column, where it is written, is set exactly for a KSK that is standby, active or retired and
-- whose DS is not withdrawn (a standby key has no withdrawal); a key with its DS set is published.
key_state_columns-safe :
    (s : KeyState) (sep withdrawn : Bool)
    → let (f, known) = key_state_columns s sep withdrawn in
      ((known ≡ false) ↔ ((s ≡ minting) ⊎ (s ≡ foreign)))
      × ((f.sign ≡ true) ↔ (s ≡ active))
      × (f.sign ≡ true → f.pub_ ≡ true)
      × ((f.ds ≡ some true) ↔ (
          (sep ≡ true) × ((s ≡ standby) ⊎ ((withdrawn ≡ false) × ((s ≡ active) ⊎ (s ≡ retired))))))
      × (f.ds ≡ some true → f.pub_ ≡ true)
unfolding key_state_columns
key_state_columns-safe minting sep withdrawn = ground arith
key_state_columns-safe _ sep withdrawn = ground arith
