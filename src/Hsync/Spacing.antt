-- ===== src/Hsync/Spacing.antt =====
-- Beats back to a peer keep their spacing, whatever happens meanwhile.
use tdns_mp.Prelude.{
  Bool, Bool-cases, List, Str, [], any, arith, false, inl, inr, lookup, lookup-delete_other,
  lookup-put, lookup-put_other, not, some, str_eq, str_eq_refl, str_eq→eq, true, ℕ, ◌+◌, ◌||◌, ◌∙◌,
  ◌∷◌, ◌≡◌, ◌≤◌, ◌⊎◌,
}
use tdns_mp.Hsync.Notes.{
  BeatConfig, BeatNotes, beat_back_ended, beat_back_spacing, beat_peer, end_beat_retrier,
  forget_beats, has_note, note_beat_failed, note_beat_succeeded, still_stored, too_early,
}
use tdns_mp.Hsync.Retriers.{
  PeerEvent, Running, after_beat, after_beats, back_ended, beaten_back, failed, forgotten,
  has_note-delete, has_note-put, registry_changed, retrier_ended, succeeded,
}

-- Whether an event forgets the beats of an identity, and whether it ends a beat back to it.
unfoldable pub forgets : Str → PeerEvent → Bool
forgets own (forgotten id) = str_eq own id
forgets own _ = false

unfoldable pub ends_back : Str → PeerEvent → Bool
ends_back own (back_ended id) = str_eq own id
ends_back own _ = false

-- A beat back to the identity has started at `since` or later.
abbrev IsNoted : Str → ℕ → BeatNotes → Type 0
IsNoted own since b = (at : ℕ) × (lookup own b.beat_back_at ≡ some at) × (since ≤ at)

beat_peer-IsNoted :
    (c : BeatConfig) (own id : Str) (b : BeatNotes) (peer since now : ℕ)
    → IsNoted own since b
    → IsNoted own since (beat_peer c b id peer now).0
unfolding beat_peer too_early
beat_peer-IsNoted c own id b peer since now (at, e, le) =
    elim (Bool-cases
      (not (still_stored b id peer) || has_note b.beating_back id || too_early c b id now)) [
        | inl x ↦ (at, ground (arith, e, x), le)
        | inr x ↦ elim (Bool-cases (str_eq own id)) [
          | inl y ↦
              let same = str_eq→eq own id y in
              (
                now,
                ground (arith, x, same, lookup-put id now b.beat_back_at),
                ground (arith, x, same, e, le),
              )
          | inr y ↦ (at, ground (arith, x, e, y, lookup-put_other own id now b.beat_back_at y), le)
        ]
      ]

after_beat-IsNoted :
    (c : BeatConfig) (own : Str) (r : Running) (e : PeerEvent) (since : ℕ)
    → forgets own e ≡ false
    → IsNoted own since r.notes
    → IsNoted own since (after_beat c own r e).notes
unfolding after_beat forgets note_beat_failed note_beat_succeeded forget_beats end_beat_retrier
    beat_back_ended
after_beat-IsNoted c own r (registry_changed m) since f h = h
after_beat-IsNoted c own r (failed id peer) since f (at, e, le) = (at, ground (arith, e), le)
after_beat-IsNoted c own r (succeeded id peer) since f (at, e, le) = (at, ground (arith, e), le)
after_beat-IsNoted c own r (forgotten id) since f (at, e, le) =
    (at, lookup-delete_other own id r.notes.beat_back_at f ∙ e, le)
after_beat-IsNoted c own r (retrier_ended id peer over) since f (at, e, le) =
    (at, ground (arith, e), le)
after_beat-IsNoted c own r (beaten_back id peer now) since f h =
    beat_peer-IsNoted c own id r.notes peer since now h
after_beat-IsNoted c own r (back_ended id) since f h = h

after_beats-IsNoted :
    (c : BeatConfig) (own : Str) (r : Running) (es : List PeerEvent) (since : ℕ)
    → any (forgets own) es ≡ false
    → IsNoted own since r.notes
    → IsNoted own since (after_beats c own r es).notes
unfolding after_beats
after_beats-IsNoted c own r [] since f h = h
after_beats-IsNoted c own r (e ∷ es) since f h =
    after_beats-IsNoted c own (after_beat c own r e) es since (ground (arith, f))
      (after_beat-IsNoted c own r e since (ground (arith, f)) h)

after_beat_under_way :
    (c : BeatConfig) (own : Str) (r : Running) (e : PeerEvent)
    → ends_back own e ≡ false
    → has_note r.notes.beating_back own ≡ true
    → has_note (after_beat c own r e).notes.beating_back own ≡ true
unfolding after_beat ends_back note_beat_failed note_beat_succeeded forget_beats end_beat_retrier
    beat_back_ended beat_peer
after_beat_under_way c own r (registry_changed m) f h = h
after_beat_under_way c own r (failed id peer) f h = ground (arith, h)
after_beat_under_way c own r (succeeded id peer) f h = ground (arith, h)
after_beat_under_way c own r (forgotten id) f h = h
after_beat_under_way c own r (retrier_ended id peer over) f h = ground (arith, h)
after_beat_under_way c own r (beaten_back id peer now) f h =
    ground (arith, h, has_note-put own id r.notes.beating_back)
after_beat_under_way c own r (back_ended id) f h =
    ground (arith, h, f, has_note-delete own id r.notes.beating_back)

after_beats_under_way :
    (c : BeatConfig) (own : Str) (r : Running) (es : List PeerEvent)
    → has_note r.notes.beating_back own ≡ true
    → (any (ends_back own) es ≡ true)
      ⊎ (has_note (after_beats c own r es).notes.beating_back own ≡ true)
unfolding after_beats
after_beats_under_way c own r [] h = inr h
after_beats_under_way c own r (e ∷ es) h = elim (Bool-cases (ends_back own e)) [
  | inl x ↦ inl (ground (arith, x))
  | inr x ↦
      elim (after_beats_under_way c own (after_beat c own r e) es
        (after_beat_under_way c own r e x h)) [ inl y ↦ inl (ground (arith, x, y)) | inr y ↦ inr y ]
]

beat_peer_start :
    (c : BeatConfig) (b : BeatNotes) (id : Str) (peer now : ℕ)
    → (beat_peer c b id peer now).1 ≡ true
    → let r = (beat_peer c b id peer now).0 in
      IsNoted id now r × (has_note r.beating_back id ≡ true)
unfolding beat_peer
beat_peer_start c b id peer now h = (
  (now, ground (arith, h, lookup-put id now b.beat_back_at), omega arith),
  ground (arith, h, has_note-put id id b.beating_back, str_eq_refl id),
)

beat_peer_spaced :
    (c : BeatConfig) (b : BeatNotes) (id : Str) (since other later : ℕ)
    → IsNoted id since b
    → (beat_peer c b id other later).1 ≡ true
    → since + beat_back_spacing c ≤ later
unfolding beat_peer too_early
beat_peer_spaced c b id since other later (at, e, le) h = ground (arith, h, e, le)

-- Two beats back to the same identity, with any events between them that do not forget its beats:
-- beats that fail and succeed, retriers that end, new objects in the registry, beats back to any
-- peer. The second comes at least the spacing after the first one started, and only when a beat
-- back to the identity has ended in between. Forgetting the beats of the identity ends the
-- spacing.
pub beat_peer_lem :
    (c : BeatConfig) (r : Running) (id : Str) (peer now : ℕ) (es : List PeerEvent) (other later : ℕ)
    → (beat_peer c r.notes id peer now).1 ≡ true
    → any (forgets id) es ≡ false
    → (beat_peer c
        (after_beats c id (after_beat c id r (beaten_back id peer now)) es).notes
        id
        other
        later).1
      ≡ true
    → (now + beat_back_spacing c ≤ later) × (any (ends_back id) es ≡ true)
unfolding after_beat
beat_peer_lem c r id peer now es other later h f k =
    let first = record r { notes = (beat_peer c r.notes id peer now).0 } in
    let noted = beat_peer_start c r.notes id peer now h in
    let s = (after_beats c id first es).notes in
    (
      beat_peer_spaced c s id now other later (after_beats-IsNoted c id first es now f noted.0) k,
      elim (after_beats_under_way c id first es noted.1) [
        | inl y ↦ y
        | inr y ↦ absurd (unfold beat_peer in ground (arith, k, y))
      ],
    )
