-- ===== src/Gossip/Rows.antt =====
-- This agent's own rows: what a written row says, and when the first one is held back.
use tdns_mp.Prelude.{
  Bool-cases, List, Str, any, arith, false, flag_of, flag_of-put, inl, inr, lookup, lookup-put,
  lookup-put_other, not, put, refl, some, str_eq, str_eq→eq, true, ℕ, ◌&&◌, ◌*◌, ◌+◌, ◌<◌, ◌↔◌, ◌≡◌,
  ◌≤◌,
}
use tdns_mp.Gossip.Model.{GossipStateTable, MemberState}
use tdns_mp.Gossip.Merge.{rows_of}
use tdns_mp.Gossip.Gate.{operational}
use tdns_mp.Gossip.Local.{
  is_held, own_row, refresh_local_row, second, update_local_state, whole_seconds,
}

whole_seconds_lem :
    (d : ℕ)
    → d < 4294967295 * second
    → (d ≤ whole_seconds d * second) × (whole_seconds d * second < d + second)
unfolding whole_seconds
whole_seconds_lem d h = (omega (arith, h), omega (arith, h))

-- A row that is written is read back under the agent's own name, stamped with that time, and it
-- announces the propagation delay in whole seconds, rounded up (below 136 years). No other row of
-- any group changes.
update_local_state-row :
    (t : GossipStateTable) (hash : Str) (peer_states : List (Str × Str)) (beat_interval now : ℕ)
    → t.own_propagation_delay < 4294967295 * second
    → let r = update_local_state t hash peer_states beat_interval now in
      ((row : MemberState) × (lookup t.local_id (rows_of r hash) ≡ some row)
        × (row.timestamp ≡ now)
        × (row.peer_states ≡ peer_states)
        × (t.own_propagation_delay ≤ row.propagation_delay * second)
        × (row.propagation_delay * second < t.own_propagation_delay + second))
      × ((group id : Str)
          → str_eq group hash && str_eq id t.local_id ≡ false
          → lookup id (rows_of r group) ≡ lookup id (rows_of t group))
unfolding update_local_state rows_of own_row
update_local_state-row t hash peer_states beat_interval now h =
    let row = own_row t peer_states beat_interval now in
    let rows = put t.local_id row (rows_of t hash) in
    let bound = whole_seconds_lem t.own_propagation_delay h in
    (
      (
        row,
        ground (arith, lookup-put hash rows t.states, lookup-put t.local_id row (rows_of t hash)),
        refl,
        refl,
        bound.0,
        bound.1,
      ),
      λ group id k. elim (Bool-cases (str_eq group hash)) [
        | inl e ↦ ground (
          arith,
          str_eq→eq group hash e,
          lookup-put hash rows t.states,
          k,
          lookup-put_other id t.local_id row (rows_of t hash),
        )
        | inr e ↦ ground (arith, lookup-put_other group hash rows t.states e)
      ],
    )

-- A row that is held leaves the table as it is; only the first row of a group is held, only before
-- the hold ends, and only while some member is not OPERATIONAL. A group whose row was written once
-- is written at every later round.
refresh_local_row-held :
    (t : GossipStateTable) (hash : Str) (peer_states : List (Str × Str))
    (beat_interval now stamp : ℕ)
    → let r = refresh_local_row t hash peer_states beat_interval now stamp in
      (r.1 ≡ false → r.0 ≡ t)
      × ((r.1 ≡ false) ↔ (
          (flag_of t.local_written hash ≡ false)
          × (now < t.first_row_hold_until)
          × (any (λ p. not (str_eq p.1 operational)) peer_states ≡ true)))
      × ((later_states : List (Str × Str)) (later at : ℕ)
          → r.1 ≡ true
          → (refresh_local_row r.0 hash later_states beat_interval later at).1 ≡ true)
unfolding refresh_local_row is_held update_local_state
refresh_local_row-held t hash peer_states beat_interval now stamp = (
  λ h. ground (arith, h),
  (λ h. (ground (arith, h), ground (arith, h), ground (arith, h)), λ h. ground (arith, h)),
  λ states later at h. ground (arith, h, flag_of-put hash true t.local_written),
)
