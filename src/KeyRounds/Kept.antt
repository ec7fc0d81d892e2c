-- ===== src/KeyRounds/Kept.antt =====
-- Each operation of a round keeps the answers sound: an answer that counts was told under the round's
-- own serial.
use tdns_mp.Prelude.{
  Bool, List, Option-cases, Str, [], all, all-delete, all-lookup, all-put, arith, delete, false,
  if◌then◌else◌, inl, inr, lookup, not, put, refl, some, true, ℕ, ◌&&◌, ◌+◌, ◌||◌, ◌∷◌, ◌≡◌,
}
use tdns_mp.Names.{Names}
use tdns_mp.Gossip.Model.{SerialDigest}
use tdns_mp.KeyRounds.Model.{
  KeyReply, KeyRound, at_serial, bare_reply, counts, key_silent, new_round, tells,
}
use tdns_mp.KeyRounds.Tracker.{
  KeyReq, KeyTracker, check_zone, decide_stored, key_ask_now, key_check, key_decision, key_record,
  key_restart, key_round_ended, restart_round, round_delay, silent_peers, start_key_round,
  started_round,
}

-- A key, or a "no key", that was told under a known active serial, the one given.
unfoldable pub counted : Bool → SerialDigest → KeyReply → Bool
unfolding counts tells
counted known serial a = not (counts a.outcome) || (known && tells a.instr serial)

unfoldable pub sound_round : KeyRound → Bool
unfolding counted
sound_round r = all (λ e. counted r.known r.serial e.1) r.answers

unfoldable pub sound_tracker : KeyTracker → Bool
unfolding sound_round
sound_tracker t = all (λ e. sound_round e.1) t.key_wanted

pub at_serial-counted :
    (r : KeyRound) (a : KeyReply) → counted r.known r.serial (at_serial r a) ≡ true
unfolding counted at_serial counts
at_serial-counted r a = ground arith

counted_silent :
    (known : Bool) (serial : SerialDigest) → counted known serial (bare_reply key_silent) ≡ true
unfolding counted counts
counted_silent known serial = refl

silent_peers-counted :
    (known : Bool) (serial : SerialDigest) (is_up : Str → Bool) (ps : List Str)
    (m : List (Str × KeyReply))
    → all (λ e. counted known serial e.1) m ≡ true
    → all (λ e. counted known serial e.1) (silent_peers is_up ps m) ≡ true
unfolding silent_peers
silent_peers-counted known serial is_up [] m h = h
silent_peers-counted known serial is_up (p ∷ ps) m h =
    let silent : counted known serial (bare_reply key_silent) ≡ true =
      counted_silent known serial in
    ground (
      arith,
      silent_peers-counted known serial is_up ps (put p (bare_reply key_silent) m)
          (all-put (counted known serial) p (bare_reply key_silent) m h silent),
      silent_peers-counted known serial is_up ps m h,
    )

pub sound_stored :
    (t : KeyTracker) (zone : Str) (r : KeyRound)
    → sound_tracker t ≡ true
    → sound_round r ≡ true
    → sound_tracker (record t { key_wanted = put zone r t.key_wanted }) ≡ true
unfolding sound_tracker
sound_stored t zone r h k = all-put sound_round zone r t.key_wanted h k

pub sound_deleted :
    (t : KeyTracker) (zone : Str)
    → sound_tracker t ≡ true
    → sound_tracker (record t { key_wanted = delete zone t.key_wanted }) ≡ true
unfolding sound_tracker
sound_deleted t zone h = all-delete sound_round zone t.key_wanted h

pub sound_read :
    (t : KeyTracker) (zone : Str) (r : KeyRound)
    → sound_tracker t ≡ true
    → lookup zone t.key_wanted ≡ some r
    → sound_round r ≡ true
unfolding sound_tracker
sound_read t zone r h e = all-lookup sound_round zone r t.key_wanted h e

key_decision_sound :
    (zone : Str) (r : KeyRound) → sound_round r ≡ true → sound_round (key_decision zone r).0 ≡ true
unfolding key_decision sound_round
key_decision_sound zone r h = ground (arith, h)

pub sound_key_restart :
    (n : Names) (t : KeyTracker) (zone : Str) (now : ℕ)
    → sound_tracker t ≡ true
    → sound_tracker (key_restart n t zone now) ≡ true
unfolding key_restart key_check restart_round sound_round sound_tracker
sound_key_restart n t zone now h = elim (Option-cases (lookup (n.fqdn zone) t.key_wanted)) [
  | inl e ↦ ground (arith, e, h)
  | inr (r, e) ↦ ground (
    arith,
    e,
    sound_stored t (n.fqdn zone) (restart_round r (t.key_gen + 1) now) h
        (sound_read t (n.fqdn zone) r h e),
  )
]

pub sound_key_ask_now :
    (t : KeyTracker) (zone : Str) (now : ℕ)
    → sound_tracker t ≡ true
    → sound_tracker (key_ask_now t zone now) ≡ true
unfolding key_ask_now sound_round
sound_key_ask_now t zone now h = elim (Option-cases (lookup zone t.key_wanted)) [
  | inl e ↦ ground (arith, e, h)
  | inr (r, e) ↦
      let s = sound_read t zone r h e in
      ground (
        arith,
        e,
        sound_stored t zone (record r { recheck = true }) h s,
        sound_stored t zone (record r { next = now }) h s,
      )
]

pub sound_check_zone :
    (t : KeyTracker) (zone : Str) (wants : Bool) (now : ℕ)
    → sound_tracker t ≡ true
    → sound_tracker (check_zone t zone wants now).0 ≡ true
unfolding check_zone sound_round sound_tracker
sound_check_zone t zone wants now h = elim (Option-cases (lookup zone t.key_wanted)) [
  | inl e ↦ ground (arith, e, h, sound_stored t zone (new_round (t.key_gen + 1) now) h refl)
  | inr (r, e) ↦
      let s = sound_read t zone r h e in
      ground (
        arith,
        e,
        h,
        sound_stored t zone (record r { recheck = true }) h s,
        sound_stored t zone (record r { next = now }) h s,
        sound_deleted t zone h,
      )
]

pub sound_decide_stored :
    (t : KeyTracker) (zone : Str) (r : KeyRound)
    → sound_tracker t ≡ true
    → sound_round r ≡ true
    → sound_tracker (decide_stored t zone r).0 ≡ true
unfolding decide_stored
sound_decide_stored t zone r h k =
    sound_stored t zone (key_decision zone r).0 h (key_decision_sound zone r k)

pub sound_start_key_round :
    (t : KeyTracker) (zone : Str) (is_up : Str → Bool) (peers : List Str) (serial : SerialDigest)
    (known : Bool)
    → sound_tracker t ≡ true
    → sound_tracker (start_key_round t zone is_up peers serial known).0 ≡ true
unfolding start_key_round started_round sound_round sound_tracker
sound_start_key_round t zone is_up peers serial known h =
    elim (Option-cases (lookup zone t.key_wanted)) [
      | inl e ↦ ground (arith, e, h)
      | inr (r, e) ↦ ground (
        arith,
        e,
        h,
        sound_decide_stored (record t { key_gen = t.key_gen + 1 }) zone
            (started_round r (t.key_gen + 1) is_up peers serial known) h
            (silent_peers-counted known serial is_up peers [] refl),
      )
    ]

pub sound_key_record :
    (t : KeyTracker) (req : KeyReq) (a : KeyReply)
    → sound_tracker t ≡ true
    → sound_tracker (key_record t req a).0 ≡ true
unfolding key_record sound_round
sound_key_record t req a h = elim (Option-cases (lookup req.zone t.key_wanted)) [
  | inl e ↦ ground (arith, e, h)
  | inr (r, e) ↦
      let answers = put req.peer (at_serial r a) r.answers in
      ground (
        arith,
        e,
        h,
        sound_decide_stored t req.zone (record r { answers = answers }) h
            (all-put (counted r.known r.serial) req.peer (at_serial r a) r.answers
              (sound_read t req.zone r h e) (at_serial-counted r a)),
      )
]

pub sound_key_round_ended :
    (t : KeyTracker) (zone : Str) (gen : ℕ) (done : Bool) (now : ℕ)
    → sound_tracker t ≡ true
    → sound_tracker (key_round_ended t zone gen done now) ≡ true
unfolding key_round_ended sound_round
sound_key_round_ended t zone gen done now h = elim (Option-cases (lookup zone t.key_wanted)) [
  | inl e ↦ ground (arith, e, h)
  | inr (r, e) ↦
      let next = record r {
        rounds = r.rounds + 1;
        recheck = false;
        out = false;
        next = now + (if r.recheck then 0 else round_delay r.rounds);
      } in
      ground
        (arith, e, h, sound_deleted t zone h, sound_stored t zone next h (sound_read t zone r h e))
]
