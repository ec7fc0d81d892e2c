-- ===== src/Lifecycle/Views.antt =====
-- What a guard may ask: KeyView and ZoneView, and the guards that have a name in the source.
-- A time.Time is the nanoseconds since an epoch, `none` for the zero time; a map of flags is a list
-- of its entries.
use tdns_mp.Prelude.{
  ℕ, ◌+◌, Bool, true, false, not, ◌&&◌, Option, none, some, List, [], ◌∷◌, Str, flag_of, is_empty,
  leb, if◌then◌else◌,
}
use tdns_mp.Lifecycle.States.{KeyState}

pub record KeyView : Type 0 where
  pub state : KeyState
  pub sep : Bool
  pub algorithm : ℕ
  pub published_at : Option ℕ
  pub retired_at : Option ℕ
  pub withdrawn : Bool
  pub ds_gone : Bool
  pub ds_gone_at : Option ℕ
  pub ds_present_since : Option ℕ
  pub parent_ds_ttl : ℕ

pub record ZoneView : Type 0 where
  pub other_signers : List Str
  pub applied : List (Str × Bool)
  pub pending : List (Str × Bool)
  pub rejected : List (Str × Bool)
  pub propagation_delay : ℕ
  pub served_dnskey_ttl : ℕ
  pub margin : ℕ
  pub active_of_role_and_alg : Bool
  pub rollover_requested : Bool
  pub rollover_pending : Bool
  pub alg_roll_in_flight : Bool
  pub policy_algorithm : ℕ
  pub alg_roll_pending : Bool
  pub policy_alg_keys : ℕ
  pub policy_alg_active : Bool
  pub ksk_side_done : Bool
  pub successor_algorithm : ℕ
  pub old_alg_ksk_leaving : Bool
  pub policy_alg_active_since : Option ℕ
  pub sig_lifetime : ℕ
  pub standby_count : ℕ
  pub in_pipeline : ℕ
  pub lifetime_due : Bool
  pub no_active_of_role : Bool
  pub parent_known : Bool
  pub parent_serves_no_ds : Bool
  pub now : ℕ

-- `!since.IsZero() && !now.Before(since.Add(wait))`.
abbrev pub elapsed : Option ℕ → ℕ → ℕ → Bool
elapsed none wait now = false
elapsed (some since) wait now = leb (since + wait) now

-- The loop over OtherSigners: every one of them has applied.
unfoldable pub all_applied : List Str → List (Str × Bool) → Bool
all_applied [] m = true
all_applied (p ∷ ps) m = flag_of m p && all_applied ps m

unfoldable pub all_other_signers_applied : ZoneView → Bool
all_other_signers_applied z =
    if not (is_empty z.rejected) then false else all_applied z.other_signers z.applied

unfoldable pub distribution_incomplete : ZoneView → Bool
distribution_incomplete z =
    if not (is_empty z.rejected) then true else not (all_applied z.other_signers z.applied)

unfoldable pub confirmations_outstanding : ZoneView → Bool
confirmations_outstanding z =
    if not (is_empty z.rejected) then false else not (all_applied z.other_signers z.applied)

unfoldable pub parent_ds_wait_met : KeyView → ZoneView → Bool
parent_ds_wait_met k z =
    if not k.sep
    then true
    else if not z.parent_known
    then false
    else if z.parent_serves_no_ds
    then true
    else elapsed k.ds_present_since k.parent_ds_ttl z.now
