-- ===== src/Hsync/Notes.antt =====
-- v2/hsync/beat_retry.go: what the engine notes of the beats to its peers. A peer object of the
-- registry is the number that tells it from others under the same identity. The goroutines that
-- are started are what an operation returns; what they wait for is not modelled.
use tdns_mp.Prelude.{
  Bool, List, Str, delete, false, if◌then◌else◌, lookup, ltb, none, not, put, some, true, ℕ, ◌&&◌,
  ◌+◌, ◌==◌, ◌||◌,
}

-- cfg.BeatIntervalMin and cfg.BeatInterval.
pub record BeatConfig : Type 0 where
  pub beat_interval_min : ℕ
  pub beat_interval : ℕ

pub record BeatNotes : Type 0 where
  pub stored : List (Str × ℕ)
  pub beat_failing : List (Str × Bool)
  pub beat_retrying : List (Str × Bool)
  pub beating_back : List (Str × Bool)
  pub beat_back_at : List (Str × ℕ)

unfoldable pub fast_beats_on : BeatConfig → Bool
fast_beats_on c = ltb 0 c.beat_interval_min && ltb c.beat_interval_min c.beat_interval

unfoldable pub beat_back_spacing : BeatConfig → ℕ
unfolding fast_beats_on
beat_back_spacing c = if fast_beats_on c then c.beat_interval_min else c.beat_interval

unfoldable pub still_stored : BeatNotes → Str → ℕ → Bool
unfolding lookup
still_stored b id peer = elim (lookup id b.stored) [ none ↦ false | some p ↦ p == peer ]

-- Whether a set of identities, a map to true, has one.
unfoldable pub has_note : List (Str × Bool) → Str → Bool
unfolding lookup
has_note m id = elim (lookup id m) [ none ↦ false | some v ↦ v ]

-- The notes, and whether a retrier starts.
unfoldable pub note_beat_failed : BeatConfig → BeatNotes → Str → ℕ → BeatNotes × Bool
unfolding still_stored has_note put fast_beats_on
note_beat_failed c b id peer =
    if not (still_stored b id peer)
    then (b, false)
    else (let start =
          not (has_note b.beat_failing id)
          && not (has_note b.beat_retrying id)
          && fast_beats_on c in
        (
          record b {
            beat_failing = put id true b.beat_failing;
            beat_retrying = if start then put id true b.beat_retrying else b.beat_retrying;
          },
          start,
        ))

unfoldable pub note_beat_succeeded : BeatNotes → Str → ℕ → BeatNotes
unfolding still_stored delete
note_beat_succeeded b id peer =
    if still_stored b id peer then record b { beat_failing = delete id b.beat_failing } else b

unfoldable pub forget_beats : BeatNotes → Str → BeatNotes
unfolding delete
forget_beats b id = record b {
  beat_failing = delete id b.beat_failing;
  beat_back_at = delete id b.beat_back_at;
}

-- Whether the retries go on, for the object that is stored: held, and the outage over or the object
-- another one, and failing again.
unfoldable pub retries_again : BeatConfig → BeatNotes → Str → ℕ → Bool → Bool
unfolding lookup has_note fast_beats_on
retries_again c b id peer over = elim (lookup id b.stored) [
  | none ↦ false
  | some p ↦ (over || not (p == peer)) && has_note b.beat_failing id && fast_beats_on c
]

-- The notes, and whether a retrier starts in place of the one that ends.
unfoldable pub end_beat_retrier : BeatConfig → BeatNotes → Str → ℕ → Bool → BeatNotes × Bool
unfolding retries_again put delete
end_beat_retrier c b id peer over =
    let again = retries_again c b id peer over in
    let ended = delete id b.beat_retrying in
    (record b { beat_retrying = if again then put id true ended else ended }, again)

-- Whether the last beat back to the peer started less than the spacing ago.
unfoldable pub too_early : BeatConfig → BeatNotes → Str → ℕ → Bool
unfolding lookup beat_back_spacing
too_early c b id now = elim (lookup id b.beat_back_at) [
  | none ↦ false
  | some at ↦ ltb now (at + beat_back_spacing c)
]

-- The part of BeatPeer under the lock, for a peer that is no infrastructure peer and is ready: the
-- notes, and whether a beat back starts.
unfoldable pub beat_peer : BeatConfig → BeatNotes → Str → ℕ → ℕ → BeatNotes × Bool
unfolding still_stored has_note put too_early
beat_peer c b id peer now =
    if not (still_stored b id peer) || has_note b.beating_back id || too_early c b id now
    then (b, false)
    else (
      record b {
        beating_back = put id true b.beating_back;
        beat_back_at = put id now b.beat_back_at;
      },
      true,
    )

-- The end of the goroutine of a beat back.
unfoldable pub beat_back_ended : BeatNotes → Str → BeatNotes
unfolding delete
beat_back_ended b id = record b { beating_back = delete id b.beating_back }
