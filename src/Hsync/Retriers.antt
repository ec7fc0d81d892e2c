-- ===== src/Hsync/Retriers.antt =====
-- There is never more than one retrier for a peer, whatever beats fail and succeed and whatever
-- objects the registry holds.
use tdns_mp.Prelude.{
  Bool, Bool-cases, List, Str, [], arith, delete, false, if◌then◌else◌, inl, inr, lookup-delete,
  lookup-delete_other, lookup-put, lookup-put_other, not, put, refl, str_eq, str_eq→eq, true, ℕ,
  ◌&&◌, ◌+◌, ◌-◌, ◌==◌, ◌||◌, ◌↔◌, ◌∷◌, ◌≡◌, ◌≤◌,
}
use tdns_mp.Hsync.Notes.{
  BeatConfig, BeatNotes, beat_back_ended, beat_peer, end_beat_retrier, forget_beats, has_note,
  note_beat_failed, note_beat_succeeded,
}

pub data PeerEvent : Type 0 where
  registry_changed : List (Str × ℕ) → PeerEvent
  failed : Str → ℕ → PeerEvent
  succeeded : Str → ℕ → PeerEvent
  forgotten : Str → PeerEvent
  retrier_ended : Str → ℕ → Bool → PeerEvent
  beaten_back : Str → ℕ → ℕ → PeerEvent
  back_ended : Str → PeerEvent

-- The notes, and how many retriers run for one identity: those started less those ended.
pub record Running : Type 0 where
  pub notes : BeatNotes
  pub retriers : ℕ

abbrev one_if : Bool → ℕ
one_if true = 1
one_if false = 0

-- One event, with the retriers of the identity `own` counted. A retrier ends only if one runs.
unfoldable pub after_beat : BeatConfig → Str → Running → PeerEvent → Running
after_beat c own r (registry_changed m) = record r { notes = record r.notes { stored = m } }
after_beat c own r (failed id peer) =
    let n = note_beat_failed c r.notes id peer in
    record { notes = n.0; retriers = r.retriers + (if str_eq own id then one_if n.1 else 0) }
after_beat c own r (succeeded id peer) = record r { notes = note_beat_succeeded r.notes id peer }
after_beat c own r (forgotten id) = record r { notes = forget_beats r.notes id }
after_beat c own r (retrier_ended id peer over) =
    let n = end_beat_retrier c r.notes id peer over in
    if str_eq own id && r.retriers == 0 then r else record {
      notes = n.0;
      retriers = if str_eq own id then r.retriers - 1 + one_if n.1 else r.retriers;
    }
after_beat c own r (beaten_back id peer now) = record r {
  notes = (beat_peer c r.notes id peer now).0;
}
after_beat c own r (back_ended id) = record r { notes = beat_back_ended r.notes id }

unfoldable pub after_beats : BeatConfig → Str → Running → List PeerEvent → Running
unfolding after_beat
after_beats c own r [] = r
after_beats c own r (e ∷ es) = after_beats c own (after_beat c own r e) es

abbrev pub IsCounted : Str → Running → Type 0
IsCounted own r = r.retriers ≡ one_if (has_note r.notes.beat_retrying own)

pub has_note-put :
    (own id : Str) (m : List (Str × Bool))
    → has_note (put id true m) own ≡ (str_eq own id || has_note m own)
unfolding has_note
has_note-put own id m = elim (Bool-cases (str_eq own id)) [
  | inl e ↦ ground (arith, str_eq→eq own id e, lookup-put id true m)
  | inr e ↦ ground (arith, e, lookup-put_other own id true m e)
]

pub has_note-delete :
    (own id : Str) (m : List (Str × Bool))
    → has_note (delete id m) own ≡ (not (str_eq own id) && has_note m own)
unfolding has_note
has_note-delete own id m = elim (Bool-cases (str_eq own id)) [
  | inl e ↦ ground (arith, e, str_eq→eq own id e, lookup-delete id m)
  | inr e ↦ ground (arith, e, lookup-delete_other own id m e)
]

after_beat-IsCounted :
    (c : BeatConfig) (own : Str) (r : Running) (e : PeerEvent)
    → IsCounted own r
    → IsCounted own (after_beat c own r e)
unfolding after_beat note_beat_failed note_beat_succeeded forget_beats end_beat_retrier beat_peer
    beat_back_ended
after_beat-IsCounted c own r (registry_changed m) h = h
after_beat-IsCounted c own r (failed id peer) h = elim (Bool-cases (str_eq own id)) [
  | inl x ↦ ground (arith, h, x, str_eq→eq own id x, has_note-put own id r.notes.beat_retrying)
  | inr x ↦ ground (arith, h, x, has_note-put own id r.notes.beat_retrying)
]
after_beat-IsCounted c own r (succeeded id peer) h = ground (arith, h)
after_beat-IsCounted c own r (forgotten id) h = h
after_beat-IsCounted c own r (retrier_ended id peer over) h =
    let ended = delete id r.notes.beat_retrying in
    elim (Bool-cases (str_eq own id)) [
      | inl x ↦ ground (
        arith,
        h,
        x,
        str_eq→eq own id x,
        has_note-put own id ended,
        has_note-delete own id r.notes.beat_retrying,
      )
      | inr x ↦
          ground
            (arith, h, x, has_note-put own id ended, has_note-delete own id r.notes.beat_retrying)
    ]
after_beat-IsCounted c own r (beaten_back id peer now) h = ground (arith, h)
after_beat-IsCounted c own r (back_ended id) h = h

after_beats-IsCounted :
    (c : BeatConfig) (own : Str) (r : Running) (es : List PeerEvent)
    → IsCounted own r
    → IsCounted own (after_beats c own r es)
unfolding after_beats
after_beats-IsCounted c own r [] h = h
after_beats-IsCounted c own r (e ∷ es) h =
    after_beats-IsCounted c own (after_beat c own r e) es (after_beat-IsCounted c own r e h)

abbrev pub no_notes : Running
no_notes = record {
  notes = record {
    stored = [];
    beat_failing = [];
    beat_retrying = [];
    beating_back = [];
    beat_back_at = [];
  };
  retriers = 0;
}

one_if_iff : (b : Bool) (n : ℕ) → n ≡ one_if b → (n ≤ 1) × ((n ≡ 1) ↔ (b ≡ true))
one_if_iff true n h = (omega (arith, h), (λ e. refl, λ e. h))
one_if_iff false n h = (omega (arith, h), (λ e. ground (arith, h, e), λ e. ground (arith, e)))

-- Whatever beats fail and succeed, whichever objects the registry holds meanwhile, and however the
-- retriers end: from no notes on, no identity has more than one retrier running, and one runs
-- exactly when the note says so.
pub retriers-bound :
    (c : BeatConfig) (own : Str) (es : List PeerEvent)
    → let r = after_beats c own no_notes es in
      (r.retriers ≤ 1) × ((r.retriers ≡ 1) ↔ (has_note r.notes.beat_retrying own ≡ true))
unfolding has_note
retriers-bound c own es =
    let r = after_beats c own no_notes es in
    let h : IsCounted own r = after_beats-IsCounted c own no_notes es refl in
    one_if_iff (has_note r.notes.beat_retrying own) r.retriers h
