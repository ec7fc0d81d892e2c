-- ===== src/Election/Renewal.antt =====
-- The renewals of a lease come before the lease ends, the leader's own first.
use native.Mathlib.Nat.{div-mul-le_self, mul-le-mul, mul-le-mul_right}
use tdns_mp.Prelude.{
  Bool-cases, List, Str, [], arith, if◌then◌else◌, inl, inr, length, length-sort, ltb, refl, sort,
  str_eq, str_eq_refl, suc, zero, ℕ, ◌*◌, ◌+◌, ◌/◌, ◌<◌, ◌∷◌, ◌≡◌, ◌≤◌, ◌⊎◌,
}
use tdns_mp.Election.Lead.{max_renewal_step, renewal_delay, renewal_rank}

renewal_rank_bounds :
    (local leader : Str) (members : List Str) (rank : ℕ)
    → (rank ≤ renewal_rank local leader members rank)
      × (renewal_rank local leader members rank ≤ rank + length members)
unfolding renewal_rank
renewal_rank_bounds local leader [] rank = ground arith
renewal_rank_bounds local leader (m ∷ ms) rank = ground (
  arith,
  renewal_rank_bounds local leader ms rank,
  renewal_rank_bounds local leader ms (rank + 1),
)

parts_fit : (r s k p : ℕ) → r ≤ (k + 1) * s → s * (k + 2) ≤ p → (r < p) ⊎ (r ≡ 0)
parts_fit r zero k p h e = grind (arith, h, e)
parts_fit r (suc s) k p h e = grind (arith, h, e)

-- A lease of some length: the leader renews it after exactly nine tenths, every other member later by
-- a step at least, and all of them before the lease ends.
pub renewal_delay_bounds :
    (local : Str) (ttl : ℕ) (leader : Str) (members : List Str)
    → 0 < ttl
    → let step = ttl / 10 / (length members + 2) in
      let shift = if ltb max_renewal_step step then max_renewal_step else step in
      (renewal_delay leader ttl leader members ≡ ttl * 9 / 10)
      × (ttl * 9 / 10 + (if str_eq leader local then 0 else shift)
          ≤ renewal_delay local ttl leader members)
      × (renewal_delay local ttl leader members < ttl)
unfolding renewal_delay
renewal_delay_bounds local ttl leader members h =
    let rank = renewal_rank local leader (sort members) 1 in
    let step = ttl / 10 / (length members + 2) in
    let shift = if ltb max_renewal_step step then max_renewal_step else step in
    let parts : step * (length members + 2) ≤ ttl / 10 =
      div-mul-le_self (ttl / 10) (length members + 2) in
    let ranks = renewal_rank_bounds local leader (sort members) 1 in
    let size = length-sort members in
    let last : rank ≤ length members + 1 = omega (arith, ranks, size) in
    let short : shift ≤ step = ground arith in
    let most : rank * shift ≤ (length members + 1) * step = mul-le-mul last short in
    let least : 1 * shift ≤ rank * shift = mul-le-mul_right shift ranks.0 in
    elim (Bool-cases (str_eq leader local)) [
      | inl x ↦ rw x (rw (str_eq_refl leader) refl, omega (arith, h), omega (arith, h))
      | inr x ↦ rw x (
        rw (str_eq_refl leader) refl,
        omega (arith, least),
        ground (arith, parts_fit (rank * shift) step (length members) (ttl / 10) most parts, h),
      )
    ]
