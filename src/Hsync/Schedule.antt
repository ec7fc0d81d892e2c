-- ===== src/Hsync/Schedule.antt =====
-- v2/hsync/beat_schedule.go: the pace of the beat rounds. A duration that the code tests with `<= 0`
-- is 0 here for every value that is not positive.
use Prim.Native.Nat.{min as least, ℕ, ◌*◌, ◌+◌, ◌-◌}
use tdns_mp.Prelude.{
  Bool, Option, Str, [], false, if◌then◌else◌, is_some, leb, ltb, none, not, some, str_eq, true,
  ◌&&◌, ◌==◌, ◌||◌,
}

pub record BeatSchedule : Type 0 where
  pub min : ℕ
  pub max : ℕ
  pub interval : ℕ
  pub last : Option ℕ
  pub next : ℕ
  pub view : Str

-- DefaultConfig().BeatInterval: 30 s in nanoseconds.
abbrev pub default_beat_interval : ℕ
default_beat_interval = 30000000000

abbrev start_schedule : ℕ → ℕ → ℕ → BeatSchedule
start_schedule lo hi start = record {
  min = lo;
  max = hi;
  interval = lo;
  last = none;
  next = start + lo;
  view = [];
}

-- The fast interval, given the steady one.
abbrev fast_of : ℕ → ℕ → ℕ
fast_of lo hi = if lo == 0 || ltb hi lo then hi else lo

unfoldable pub new_beat_schedule : ℕ → ℕ → ℕ → BeatSchedule
new_beat_schedule lo hi start =
    let top = if hi == 0 then default_beat_interval else hi in
    start_schedule (fast_of lo top) top start

unfoldable pub fixed : BeatSchedule → Bool
fixed s = leb s.max s.min

unfoldable pub round_done : BeatSchedule → ℕ → Str → BeatSchedule
round_done s now view =
    let gap =
      if not (str_eq view s.view) && is_some s.last then s.min else least (2 * s.interval) s.max in
    record s { interval = gap; view = view; last = some now; next = now + gap }

-- `last` plus the fast interval, and at least `now`; the zero time is before any `now`.
unfoldable pub due_at : Option ℕ → ℕ → ℕ → ℕ
due_at none lo now = now
due_at (some l) lo now = if ltb (l + lo) now then now else l + lo

unfoldable pub kick : BeatSchedule → ℕ → BeatSchedule × Bool
unfolding fixed due_at
kick s now =
    if fixed s
    then (s, false)
    else if ltb (due_at s.last s.min now) s.next
    then (record s { interval = s.min; next = due_at s.last s.min now }, true)
    else (record s { interval = s.min }, false)

unfoldable pub until_next : BeatSchedule → ℕ → ℕ
until_next s now = if ltb now s.next then s.next - now else 0
