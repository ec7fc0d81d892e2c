-- ===== src/Hsync/Examples.antt =====
-- Tests and witnesses of the pace of the rounds: a fast interval of 2 and a steady one of 30.
use tdns_mp.Prelude.{
  List, Str, [], any, contains, false, is_empty, lookup, refl, some, str, str_eq, true, ℕ, ◌&&◌,
  ◌++◌, ◌+◌, ◌||◌, ◌↔◌, ◌∷◌, ◌≡◌, ◌≤◌,
}
use tdns_mp.Hsync.Schedule.{BeatSchedule, new_beat_schedule, round_done}
use tdns_mp.Hsync.Notes.{
  BeatConfig, BeatNotes, beat_back_ended, beat_back_spacing, beat_peer, end_beat_retrier, has_note,
  note_beat_failed,
}
use tdns_mp.Hsync.Retriers.{
  PeerEvent, after_beat, after_beats, back_ended, beaten_back, failed, no_notes, registry_changed,
  retrier_ended, retriers-bound,
}
use tdns_mp.Hsync.Spacing.{beat_peer_lem, ends_back, forgets}
use tdns_mp.Names.{ascii_names}
use tdns_mp.Hsync.Registry.{
  Mechanisms, Peer, Registry, expected_peers, has_zone, is_local, new_peer, reconcile_zone,
}
use tdns_mp.Hsync.Reconciled.{has_zone-reconcile_zone}
use tdns_mp.Hsync.Prune.{hold_time, prune_news}
use tdns_mp.Hsync.Held.{Passes, after_passes, prune_news-pruned, unnamed_since}
use tdns_mp.Hsync.Pace.{
  BeatEvent, IsPaced, KeepsGap, after_events, kicked, quiet_rounds, round, schedule_bounds,
}

abbrev events : List BeatEvent
events = round 100 (str "up") ∷ kicked 101 ∷ round 110 (str "down") ∷ []

schedule_bounds_example :
    let s = after_events (new_beat_schedule 2 30 90) events in
    IsPaced s
    × KeepsGap s
    × (200 + s.min ≤ (round_done s 200 (str "up")).next)
    × ((round_done s 200 (str "up")).next ≤ 200 + s.max)
schedule_bounds_example = schedule_bounds 2 30 90 events 200 (str "up")

abbrev started : BeatSchedule
started = new_beat_schedule 2 30 90

-- Three quiet rounds make the gap eight times the fast one, the fourth the steady one.
quiet_rounds_test :
    ((quiet_rounds started (92 ∷ 96 ∷ 104 ∷ [])).interval ≡ 16)
    × ((quiet_rounds started (92 ∷ 96 ∷ 104 ∷ 120 ∷ [])).interval ≡ 30)
unfolding quiet_rounds new_beat_schedule round_done str_eq
quiet_rounds_test = (refl, refl)

abbrev slowed : BeatSchedule
slowed = record { min = 2; max = 30; interval = 16; last = some 104; next = 120; view = [] }

abbrev config : BeatConfig
config = record { beat_interval_min = 2; beat_interval = 30 }

abbrev outage : List PeerEvent
outage =
    registry_changed ((str "b.", 1) ∷ [])
    ∷ failed (str "b.") 1
    ∷ failed (str "b.") 1
    ∷ registry_changed ((str "b.", 2) ∷ [])
    ∷ failed (str "b.") 2
    ∷ []

retriers-bound_example :
    let r = after_beats config (str "b.") no_notes outage in
    (r.retriers ≤ 1) × ((r.retriers ≡ 1) ↔ (has_note r.notes.beat_retrying (str "b.") ≡ true))
retriers-bound_example = retriers-bound config (str "b.") outage

-- One retrier runs after the outage, and when it ends the one for the new object takes its place.
retriers_test :
    ((after_beats config (str "b.") no_notes outage).retriers ≡ 1)
    × ((after_beats config
          (str "b.")
          no_notes
          (outage ++ (retrier_ended (str "b.") 1 false ∷ []))).retriers
        ≡ 1)
unfolding after_beats note_beat_failed end_beat_retrier str_eq
retriers_test = (refl, refl)

abbrev returned : BeatNotes
returned = record {
  stored = (str "b.", 2) ∷ [];
  beat_failing = [];
  beat_retrying = [];
  beating_back = [];
  beat_back_at = (str "b.", 100) ∷ [];
}

-- Between the two beats back the first ends, and two more come too early.
abbrev meanwhile : List PeerEvent
meanwhile =
    beaten_back (str "b.") 2 102
    ∷ back_ended (str "b.")
    ∷ registry_changed ((str "b.", 3) ∷ [])
    ∷ beaten_back (str "b.") 3 103
    ∷ []

beat_peer_lem_example :
    (102 + beat_back_spacing config ≤ 110) × (any (ends_back (str "b.")) meanwhile ≡ true)
unfolding beat_peer after_beats after_beat beat_back_ended forgets str_eq
beat_peer_lem_example =
    beat_peer_lem config (record { notes = returned; retriers = 0 }) (str "b.") 2 102 meanwhile 3
      110 refl refl refl

abbrev mechanisms : Mechanisms
mechanisms = record { api = true; dns = true }

abbrev registry : Registry
registry =
    (str "b.", new_peer mechanisms (str "z." ∷ []))
    ∷ (str "c.", new_peer mechanisms (str "z." ∷ []))
    ∷ []

has_zone-reconcile_zone_example :
    has_zone (str "z.") (
      lookup
        (str "c.")
        (reconcile_zone ascii_names mechanisms
          (str "a.")
          (str "A." ∷ str "b." ∷ [])
          (str "z.")
          registry).0)
    ≡ (contains (expected_peers ascii_names (str "a.") (str "A." ∷ str "b." ∷ [])) (str "c.")
        || (is_local ascii_names (str "a.") (str "c.")
            && has_zone (str "z.") (lookup (str "c.") registry)))
has_zone-reconcile_zone_example =
    has_zone-reconcile_zone ascii_names mechanisms (str "a.") (str "z.") (str "A." ∷ str "b." ∷ [])
      registry (str "c.")

-- The peer that left is off the zone, and the one that is new is stored with it.
reconcile_test :
    let r =
      reconcile_zone ascii_names mechanisms
        (str "a.")
        (str "A." ∷ str "b." ∷ str "d." ∷ [])
        (str "z.")
        registry in
    (has_zone (str "z.") (lookup (str "c.") r.0) ≡ false)
    × (has_zone (str "z.") (lookup (str "d.") r.0) ≡ true)
    × (r.1 ≡ 1)
    × (r.2 ≡ 1)
unfolding reconcile_zone has_zone str_eq ascii_names
reconcile_test = (refl, refl, refl, refl)

abbrev passes : Passes
passes = (200, []) ∷ (140, []) ∷ (80, str "z." ∷ []) ∷ []

abbrev leaving : Peer
leaving = after_passes (new_peer mechanisms []) passes

prune_news-pruned_example :
    ((s : ℕ) × (s + hold_time 60 ≤ 200) × (unnamed_since s passes ≡ true))
    × (is_empty {A = Str} [] ≡ true)
    × (is_empty leaving.zones ≡ true)
unfolding prune_news after_passes hold_time
prune_news-pruned_example =
    prune_news-pruned 60 200 (new_peer mechanisms []) leaving passes [] refl refl
