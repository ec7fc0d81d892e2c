-- ===== src/Lifecycle/Diagram.antt =====
-- The lifecycle as a diagram: an edge for each change of state, with its condition as a statement.
use tdns_mp.Prelude.{All, Option, [], false, flag_of, some, true, ℕ, ◌+◌, ◌<◌, ◌≡◌, ◌≢◌, ◌≤◌, ◌⊎◌}
use tdns_mp.Lifecycle.States.{
  KeyEvent, KeyState, active, created, minting, mpdist, mpremove, published, removed, retired,
  standby,
}
use tdns_mp.Lifecycle.Views.{KeyView, ZoneView}

-- Since `since` at least `wait` has passed.
abbrev pub Elapsed : Option ℕ → ℕ → ℕ → Type 0
Elapsed since wait now = (t : ℕ) × (since ≡ some t) × (t + wait ≤ now)

-- Every other signing provider has applied the distribution, and nobody has rejected it.
abbrev pub Confirmed : ZoneView → Type 0
Confirmed z = (z.rejected ≡ []) × All (λ p. flag_of z.applied p ≡ true) z.other_signers

-- A KSK's DS has been served for its TTL, or the parent serves none for the zone.
abbrev pub ParentReady : KeyView → ZoneView → Type 0
ParentReady k z =
    (k.sep ≡ false)
    ⊎ ((z.parent_known ≡ true)
        × ((z.parent_serves_no_ds ≡ true) ⊎ Elapsed k.ds_present_since k.parent_ds_ttl z.now))

abbrev pub MayPromote : KeyView → ZoneView → Type 0
MayPromote k z =
    ((z.active_of_role_and_alg ≡ false)
      ⊎ ((z.rollover_requested ≡ true) ⊎ (z.alg_roll_in_flight ≡ true)))
    × Confirmed z
    × ParentReady k z

abbrev pub MayMint : ZoneView → Type 0
MayMint z =
    (z.in_pipeline < z.standby_count)
    ⊎ ((z.lifetime_due ≡ true)
        ⊎ ((z.no_active_of_role ≡ true)
            ⊎ (((z.rollover_pending ≡ true) × (z.in_pipeline ≡ 0))
                ⊎ ((z.alg_roll_pending ≡ true) × (z.policy_alg_keys ≡ 0)))))

abbrev pub SameAlgorithm : KeyView → ZoneView → Type 0
SameAlgorithm k z = (z.successor_algorithm ≡ 0) ⊎ (k.algorithm ≡ z.successor_algorithm)

-- The parent has not served the withdrawn DS for its TTL.
abbrev pub DsExpired : KeyView → ZoneView → Type 0
DsExpired k z =
    (k.sep ≡ true)
    × (k.withdrawn ≡ true)
    × (k.ds_gone ≡ true)
    × Elapsed k.ds_gone_at k.parent_ds_ttl z.now

-- The old algorithm's ZSK is not needed any more.
abbrev pub Superseded : KeyView → ZoneView → Type 0
Superseded k z =
    (k.sep ≡ false)
    × (k.algorithm ≢ z.policy_algorithm)
    × (z.policy_alg_active ≡ true)
    × (z.ksk_side_done ≡ true)
    × ((z.old_alg_ksk_leaving ≡ true) ⊎ Elapsed z.policy_alg_active_since z.sig_lifetime z.now)

-- The margin has passed, and a KSK's DS is gone from the parent.
abbrev pub MayRemove : KeyView → ZoneView → Type 0
MayRemove k z = ((k.sep ≡ false) ⊎ (k.ds_gone ≡ true)) × Elapsed k.retired_at z.margin z.now

pub data Edge (k : KeyView) (z : ZoneView) : KeyEvent → KeyState → KeyState → Type 0 where
  minted : MayMint z → Edge k z KeyEvent.mint minting created
  recorded : Edge k z KeyEvent.distributed created mpdist
  confirmed : Confirmed z → Edge k z KeyEvent.applied mpdist published
  nobody_to_wait_for : z.other_signers ≡ [] → Edge k z KeyEvent.distributed mpdist published
  given_up : Edge k z KeyEvent.withdraw mpdist mpremove
  given_up_published : Edge k z KeyEvent.withdraw published mpremove
  given_up_standby : Edge k z KeyEvent.withdraw standby mpremove
  propagates :
      Elapsed k.published_at (z.propagation_delay + z.served_dnskey_ttl) z.now
      → Edge k z KeyEvent.propagated published standby
  promoted : MayPromote k z → Edge k z KeyEvent.promote standby active
  succeeded : SameAlgorithm k z → Edge k z KeyEvent.successor_active active retired
  expired : DsExpired k z → Edge k z KeyEvent.ds_expired active retired
  superseded : Superseded k z → Edge k z KeyEvent.alg_superseded active retired
  leaves : MayRemove k z → Edge k z KeyEvent.margin retired mpremove
  gone : Confirmed z → Edge k z KeyEvent.removal_applied mpremove removed
  gone_at_once : z.other_signers ≡ [] → Edge k z KeyEvent.distributed mpremove removed
