-- ===== src/Election/Wraps.antt =====
-- The numbers of uint64: what is small enough is read as it is, and goes up by one.
use tdns_mp.Prelude.{arith, ℕ, ◌+◌, ◌<◌, ◌≡◌, ◌≤◌}
use tdns_mp.Election.Model.{LeaderElection, next_term, parse_uint64, two_64, uint32}

pub next_term_lem : (e : LeaderElection) → e.term + 1 < two_64 → next_term e ≡ e.term + 1
unfolding next_term
next_term_lem e h = omega (arith, h)

pub parse_uint64_le : (x : ℕ) → parse_uint64 x ≤ x
unfolding parse_uint64
parse_uint64_le x = ground arith

pub parse_uint64_same : (x : ℕ) → x < two_64 → parse_uint64 x ≡ x
unfolding parse_uint64
parse_uint64_same x h = ground (arith, h)

pub uint32_small : (x : ℕ) → uint32 x < two_64
uint32_small x = omega arith
