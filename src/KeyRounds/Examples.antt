-- ===== src/KeyRounds/Examples.antt =====
-- Tests and witnesses of the key rounds: a round that asks two agents, one of which is up.
use tdns_mp.Prelude.{Bool, Str, [], all, arith, false, none, refl, str, str_eq, true, ◌∷◌, ◌≡◌, ◌≤◌}
use tdns_mp.Names.{ascii_names}
use tdns_mp.Gossip.Model.{SerialDigest}
use tdns_mp.KeyRounds.Model.{bare_reply, key_got, key_other_serial, key_silent}
use tdns_mp.KeyRounds.Tracker.{
  KeyDecision, KeyReq, KeyTracker, check_zone, decide_stored, key_ask_now, key_record, key_restart,
  key_round_ended, start_key_round,
}
use tdns_mp.KeyRounds.Kept.{counted, sound_tracker}
use tdns_mp.KeyRounds.Sound.{Reached, Reached-sound_tracker}
use tdns_mp.KeyRounds.Decided.{Later}
use tdns_mp.KeyRounds.Once.{key_record-once, key_restart-key_record}

abbrev serial : SerialDigest
serial = record { serial = 7; digest = str "d" }

abbrev no_tracker : KeyTracker
no_tracker = record { key_gen = 0; key_checks = []; key_wanted = []; live = true }

abbrev is_bob : Str → Bool
is_bob p = str_eq p (str "b.")

abbrev wanting : KeyTracker
wanting = (check_zone no_tracker (str "z.") true 5).0

abbrev asking : KeyTracker
asking = (start_key_round wanting (str "z.") is_bob (str "b." ∷ str "c." ∷ []) serial true).0

abbrev asking_Reached : Reached ascii_names asking
asking_Reached =
    Reached.started (str "z.") is_bob (str "b." ∷ str "c." ∷ []) serial true
      (Reached.checked (str "z.") true 5 (Reached.empty 0 [] true))

abbrev to_bob : KeyReq
to_bob = record { zone = str "z."; peer = str "b."; gen = 2 }

Reached-sound_tracker_example : sound_tracker asking ≡ true
Reached-sound_tracker_example = Reached-sound_tracker ascii_names asking asking_Reached

abbrev decision : KeyDecision
decision = record {
  zone = str "z.";
  gen = 2;
  serial = serial;
  known = true;
  answers = (str "c.", bare_reply key_silent) ∷ (str "b.", bare_reply key_other_serial) ∷ [];
}

abbrev decided : KeyTracker
decided = (key_record asking to_bob (bare_reply key_got)).0

-- After the decision Bob answers again, and the round ends and is asked again at once.
abbrev later_on : KeyTracker
later_on =
    key_ask_now
      (key_round_ended (key_record decided to_bob (bare_reply key_got)).0 (str "z.") 2 false 20)
      (str "z.") 21

-- Bob's key comes with no stamp, so it does not count.
key_record-once_example :
    (decision.gen ≡ to_bob.gen)
    × (all (λ e. counted decision.known decision.serial e.1) decision.answers ≡ true)
    × ((key_record later_on
          (record { zone = str "z."; peer = str "c."; gen = 2 })
          (bare_reply key_got)).1
        ≡ none)
    × (2 ≤ later_on.key_gen)
unfolding key_record start_key_round check_zone decide_stored str_eq
key_record-once_example =
    key_record-once ascii_names asking later_on to_bob (bare_reply key_got) decision (str "c.")
      (bare_reply key_got) asking_Reached refl
      (Later.asked_now (str "z.") 21 (
        Later.ended (str "z.") 2 false 20
          (Later.recorded to_bob (bare_reply key_got) Later.at_once)))

key_restart-key_record_example :
    let u = key_restart ascii_names asking (str "z.") 9 in
    key_record u (record { zone = str "z."; peer = str "b."; gen = 2 }) (bare_reply key_got)
    ≡ (u, none)
unfolding start_key_round check_zone decide_stored str_eq ascii_names
key_restart-key_record_example =
    key_restart-key_record ascii_names asking (str "z.") 9 (str "b.") 2 (bare_reply key_got)
      (omega arith) refl
