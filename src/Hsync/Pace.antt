-- ===== src/Hsync/Pace.antt =====
-- The pace of the rounds: its bounds, how it slows down, and what a kick does.
use Prim.Native.Nat.{min as least, ℕ, ◌*◌, ◌+◌, ◌<◌, ◌^◌, ◌≤◌, suc, zero}
use native.Mathlib.Nat.{le-mul_of_pos_right, mul-le-mul_left, pow-suc}
use tdns_mp.Prelude.{
  Bool-cases, List, Str, [], ap, arith, false, inl, inr, leb, leb→le, length, none, refl, some,
  str_eq_refl, sym, true, ◌↔◌, ◌∙◌, ◌∷◌, ◌≡◌, ◌⊎◌,
}
use tdns_mp.Hsync.Schedule.{BeatSchedule, due_at, fixed, kick, new_beat_schedule, round_done}

pub record IsPaced (s : BeatSchedule) : Type 0 where
  pub positive : 0 < s.min
  pub fast : s.min ≤ s.interval
  pub slow : s.interval ≤ s.max

-- What happens to a schedule: a round that saw a view, or a kick, at a time.
pub data BeatEvent : Type 0 where
  round : ℕ → Str → BeatEvent
  kicked : ℕ → BeatEvent

unfoldable pub after_event : BeatSchedule → BeatEvent → BeatSchedule
unfolding round_done kick
after_event s (round now view) = round_done s now view
after_event s (kicked now) = (kick s now).0

unfoldable pub after_events : BeatSchedule → List BeatEvent → BeatSchedule
after_events s [] = s
after_events s (e ∷ es) = after_events (after_event s e) es

new_beat_schedule-IsPaced : (lo hi start : ℕ) → IsPaced (new_beat_schedule lo hi start)
unfolding new_beat_schedule
new_beat_schedule-IsPaced lo hi start = ground arith

after_event-IsPaced : (s : BeatSchedule) (e : BeatEvent) → IsPaced s → IsPaced (after_event s e)
unfolding after_event
after_event-IsPaced s (round now view) h = ground arith
after_event-IsPaced s (kicked now) h = ground arith

after_events-IsPaced :
    (s : BeatSchedule) (es : List BeatEvent) → IsPaced s → IsPaced (after_events s es)
unfolding after_events
after_events-IsPaced s [] h = h
after_events-IsPaced s (e ∷ es) h =
    after_events-IsPaced (after_event s e) es (after_event-IsPaced s e h)

-- The next round is the fast to the steady interval after the last one, if there was one.
abbrev pub KeepsGap : BeatSchedule → Type 0
KeepsGap s =
    (s.last ≡ none) ⊎ ((l : ℕ) × (s.last ≡ some l) × (l + s.min ≤ s.next) × (s.next ≤ l + s.max))

round_done-KeepsGap :
    (s : BeatSchedule) (now : ℕ) (view : Str) → IsPaced s → KeepsGap (round_done s now view)
unfolding round_done
round_done-KeepsGap s now view h = inr (now, refl, ground (arith, h), ground (arith, h))

kick_next :
    (s : BeatSchedule) (now l : ℕ)
    → s.last ≡ some l
    → ((kick s now).0.next ≡ s.next)
      ⊎ (((kick s now).0.next < s.next) × (l + s.min ≤ (kick s now).0.next))
unfolding kick due_at
kick_next s now l e = rw e (ground arith)

kick_same :
    (s : BeatSchedule) (now : ℕ)
    → ((kick s now).0.last ≡ s.last) × ((kick s now).0.min ≡ s.min) × ((kick s now).0.max ≡ s.max)
unfolding kick
kick_same s now = (ground arith, ground arith, ground arith)

kick-KeepsGap : (s : BeatSchedule) (now : ℕ) → KeepsGap s → KeepsGap (kick s now).0
kick-KeepsGap s now (inl e) = inl ((kick_same s now).0 ∙ e)
kick-KeepsGap s now (inr (l, e, lo, hi)) =
    let same = kick_same s now in
    inr (
      l,
      same.0 ∙ e,
      ground (arith, kick_next s now l e, same),
      ground (arith, kick_next s now l e, same),
    )

after_events-KeepsGap :
    (s : BeatSchedule) (es : List BeatEvent) → IsPaced s → KeepsGap s → KeepsGap (after_events s es)
unfolding after_events after_event
after_events-KeepsGap s [] h k = k
after_events-KeepsGap s (round now view ∷ es) h k =
    after_events-KeepsGap (round_done s now view) es
      (unfold after_event in after_event-IsPaced s (round now view) h)
      (round_done-KeepsGap s now view h)
after_events-KeepsGap s (kicked now ∷ es) h k =
    after_events-KeepsGap (kick s now).0 es
      (unfold after_event in after_event-IsPaced s (kicked now) h) (kick-KeepsGap s now k)

-- Whatever the configured intervals are, and whatever rounds and kicks a schedule has seen, the gap
-- lies between the fast interval, which is positive, and the steady one; once there was a round,
-- the next one is due the fast to the steady interval after it, also when kicks moved it; and a
-- round at `now` sets the next one at least the fast and at most the steady interval later.
pub schedule_bounds :
    (lo hi start : ℕ) (es : List BeatEvent) (now : ℕ) (view : Str)
    → let s = after_events (new_beat_schedule lo hi start) es in
      IsPaced s
      × KeepsGap s
      × (now + s.min ≤ (round_done s now view).next)
      × ((round_done s now view).next ≤ now + s.max)
unfolding round_done
schedule_bounds lo hi start es now view =
    let s0 = new_beat_schedule lo hi start in
    let paced = new_beat_schedule-IsPaced lo hi start in
    let s = after_events s0 es in
    let h : IsPaced s = after_events-IsPaced s0 es paced in
    (
      h,
      after_events-KeepsGap s0 es paced (unfold new_beat_schedule in inl refl),
      ground (arith, h),
      ground (arith, h),
    )

-- Rounds that all see the view that the schedule has.
unfoldable pub quiet_rounds : BeatSchedule → List ℕ → BeatSchedule
quiet_rounds s [] = s
quiet_rounds s (now ∷ times) = quiet_rounds (round_done s now s.view) times

quiet_step :
    (s : BeatSchedule) (now : ℕ) → (round_done s now s.view).interval ≡ least (2 * s.interval) s.max
unfolding round_done
quiet_step s now = ground (arith, str_eq_refl s.view)

least_of_scaled : (p k m : ℕ) → 0 < p → least (p * least k m) m ≡ least (p * k) m
least_of_scaled p k m h = elim (Bool-cases (leb k m)) [
  | inl e ↦ grind (arith, leb→le k m e)
  | inr e ↦
      let g : m ≤ k = ground arith in
      grind (arith, mul-le-mul_left p g, le-mul_of_pos_right {m = p} m h)
]

scaled_least : (p i m : ℕ) → 0 < p → least (p * least (2 * i) m) m ≡ least (p * 2 * i) m
scaled_least p i m h = least_of_scaled p (2 * i) m h ∙ ap (λ x. least x m) (grind arith)

two_pow_pos : (n : ℕ) → 0 < 2 ^ n
two_pow_pos zero = omega arith
two_pow_pos (suc n) = omega (arith, two_pow_pos n, pow-suc 2 n)

quiet_slow :
    (s : BeatSchedule) (now : ℕ)
    → (round_done s now s.view).interval ≤ (round_done s now s.view).max
unfolding round_done
quiet_slow s now = ground (arith, str_eq_refl s.view)

-- Each round that finds the view unchanged doubles the gap, up to the steady interval: after n such
-- rounds it is 2^n times what it was, or the steady interval. So a peer that stays away
-- does not hold the engine at the fast pace.
quiet_rounds-interval :
    (s : BeatSchedule) (times : List ℕ)
    → s.interval ≤ s.max
    → (quiet_rounds s times).interval ≡ least (2 ^ length times * s.interval) s.max
unfolding quiet_rounds round_done
quiet_rounds-interval s [] h = grind arith
quiet_rounds-interval s (now ∷ times) h =
    let next = round_done s now s.view in
    quiet_rounds-interval next times (quiet_slow s now)
    ∙ ap (λ i. least (2 ^ length times * i) s.max) (quiet_step s now)
    ∙ scaled_least (2 ^ length times) s.interval s.max (two_pow_pos (length times))
    ∙ ap (λ p. least (p * s.interval) s.max) (sym (pow-suc 2 (length times)))

-- A kick changes nothing at a fixed pace. At any other it starts the fast pace over; it never moves
-- the next round later, and says whether it moved it earlier; if it did, the next round comes
-- no earlier than now and not before the fast interval after the last round has passed. A second
-- kick at the same time changes nothing more.
kick_lem :
    (s : BeatSchedule) (now : ℕ)
    → (fixed s ≡ true → kick s now ≡ (s, false))
      × (fixed s ≡ false → (kick s now).0.interval ≡ s.min)
      × ((kick s now).0.next ≤ s.next)
      × (((kick s now).1 ≡ true) ↔ ((kick s now).0.next < s.next))
      × ((kick s now).1 ≡ true → now ≤ (kick s now).0.next)
      × (kick (kick s now).0 now ≡ ((kick s now).0, false))
unfolding kick
kick_lem s now =
    (ground arith, ground arith, ground arith, ground arith, ground arith, ground arith)
