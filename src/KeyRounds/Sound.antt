-- ===== src/KeyRounds/Sound.antt =====
-- What a round's answers are worth: each one that counts was told under the round's own serial.
use tdns_mp.Prelude.{Bool, List, Str, [], refl, true, ℕ, ◌≡◌}
use tdns_mp.Names.{Names}
use tdns_mp.Gossip.Model.{SerialDigest}
use tdns_mp.KeyRounds.Model.{KeyReply}
use tdns_mp.KeyRounds.Tracker.{
  KeyReq, KeyTracker, check_zone, drop_unwanted, key_ask_now, key_check, key_record, key_restart,
  key_round_ended, start_key_round,
}
use tdns_mp.KeyRounds.Kept.{
  sound_check_zone, sound_deleted, sound_key_ask_now, sound_key_record, sound_key_restart,
  sound_key_round_ended, sound_start_key_round, sound_tracker,
}

-- The trackers that the operations make, from one that has no zone.
pub data Reached (n : Names) : KeyTracker → Type 0 where
  empty :
      (gen : ℕ) (zones : List Str) (live : Bool)
      → Reached n (record { key_gen = gen; key_checks = zones; key_wanted = []; live = live })
  checks_taken : {t : KeyTracker} → Reached n t → Reached n (record t { key_checks = [] })
  live_changed : {t : KeyTracker} (b : Bool) → Reached n t → Reached n (record t { live = b })
  noted : {t : KeyTracker} (zone : Str) → Reached n t → Reached n (key_check n t zone)
  restarted :
      {t : KeyTracker} (zone : Str) (now : ℕ) → Reached n t → Reached n (key_restart n t zone now)
  asked_now :
      {t : KeyTracker} (zone : Str) (now : ℕ) → Reached n t → Reached n (key_ask_now t zone now)
  checked :
      {t : KeyTracker} (zone : Str) (wants : Bool) (now : ℕ)
      → Reached n t
      → Reached n (check_zone t zone wants now).0
  dropped : {t : KeyTracker} (zone : Str) → Reached n t → Reached n (drop_unwanted t zone)
  started :
      {t : KeyTracker} (zone : Str) (is_up : Str → Bool) (peers : List Str) (serial : SerialDigest)
      (known : Bool)
      → Reached n t
      → Reached n (start_key_round t zone is_up peers serial known).0
  recorded :
      {t : KeyTracker} (req : KeyReq) (a : KeyReply)
      → Reached n t
      → Reached n (key_record t req a).0
  ended :
      {t : KeyTracker} (zone : Str) (gen : ℕ) (done : Bool) (now : ℕ)
      → Reached n t
      → Reached n (key_round_ended t zone gen done now)

-- In every tracker that the operations make, each answer of a round that is a key, or "no key here",
-- was told under the active serial that the round went out with; so an answer told under
-- other instructions counts for nothing.
pub Reached-sound_tracker : (n : Names) (t : KeyTracker) → Reached n t → sound_tracker t ≡ true
unfolding sound_tracker key_check drop_unwanted
Reached-sound_tracker n t (empty gen zones live) = refl
Reached-sound_tracker n t (checks_taken {t = s} h) = Reached-sound_tracker n s h
Reached-sound_tracker n t (live_changed {t = s} b h) = Reached-sound_tracker n s h
Reached-sound_tracker n t (noted {t = s} zone h) = Reached-sound_tracker n s h
Reached-sound_tracker n t (restarted {t = s} zone now h) =
    sound_key_restart n s zone now (Reached-sound_tracker n s h)
Reached-sound_tracker n t (asked_now {t = s} zone now h) =
    sound_key_ask_now s zone now (Reached-sound_tracker n s h)
Reached-sound_tracker n t (checked {t = s} zone wants now h) =
    sound_check_zone s zone wants now (Reached-sound_tracker n s h)
Reached-sound_tracker n t (dropped {t = s} zone h) =
    sound_deleted s zone (Reached-sound_tracker n s h)
Reached-sound_tracker n t (started {t = s} zone is_up peers serial known h) =
    sound_start_key_round s zone is_up peers serial known (Reached-sound_tracker n s h)
Reached-sound_tracker n t (recorded {t = s} req a h) =
    sound_key_record s req a (Reached-sound_tracker n s h)
Reached-sound_tracker n t (ended {t = s} zone gen done now h) =
    sound_key_round_ended s zone gen done now (Reached-sound_tracker n s h)
