-- ===== src/Instructions/Serial.antt =====
-- CompareSerial: the order of two serials by RFC 1982 with 32 bits.
use tdns_mp.Prelude.{
  arith, if◌then◌else◌, ltb, ℕ, ◌%◌, ◌+◌, ◌-◌, ◌<◌, ◌==◌, ◌^◌, ◌||◌, ◌↔◌, ◌≡◌, ◌⊎◌,
}

abbrev pub serial_mod : ℕ
serial_mod = 2 ^ 32

abbrev pub serial_half : ℕ
serial_half = 2 ^ 31

-- The results -1, 1 and 0.
pub data SerialSign : Type 0 where
  before after neither : SerialSign

unfoldable pub compare_serial : ℕ → ℕ → SerialSign
compare_serial a b =
    let d = (b + serial_mod - a) % serial_mod in
    if d == 0 || d == serial_half then neither else if ltb d serial_half then before else after

-- For two uint32 serials: `a` is before `b` exactly when `b` is reached from `a`, with wrap-around,
-- by adding between 1 and 2^31 - 1; it is after exactly when `b` is before it; and neither
-- holds exactly when they are equal or 2^31 apart.
pub compare_serial_order :
    (a b : ℕ)
    → a < serial_mod
    → b < serial_mod
    → ((compare_serial a b ≡ before)
        ↔ ((d : ℕ) × (0 < d) × (d < serial_half) × ((a + d) % serial_mod ≡ b)))
      × ((compare_serial a b ≡ after) ↔ (compare_serial b a ≡ before))
      × ((compare_serial a b ≡ neither) ↔ ((a ≡ b) ⊎ ((a + serial_half) % serial_mod ≡ b)))
unfolding compare_serial
compare_serial_order a b ha hb = (
  (
    λ h. ((b + serial_mod - a) % serial_mod, ground arith, ground arith, ground arith),
    λ h. ground arith,
  ),
  ground arith,
  ground arith,
)

-- The order does not depend on where the serials stand: adding the same amount to both, with
-- wrap-around, changes nothing.
compare_serial_shift :
    (a b c : ℕ)
    → a < serial_mod
    → b < serial_mod
    → compare_serial ((a + c) % serial_mod) ((b + c) % serial_mod) ≡ compare_serial a b
unfolding compare_serial
compare_serial_shift a b c ha hb = ground arith
