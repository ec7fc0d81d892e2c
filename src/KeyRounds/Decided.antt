-- ===== src/KeyRounds/Decided.antt =====
-- What may happen to a tracker later on, and that a decided round stays decided.
use tdns_mp.Prelude.{
  Bool, List, Str, [], arith, leb, lookup, not, refl, some, true, ℕ, ◌+◌, ◌==◌, ◌||◌, ◌≡◌, ◌≤◌,
}
use tdns_mp.Names.{Names}
use tdns_mp.Gossip.Model.{SerialDigest}
use tdns_mp.KeyRounds.Model.{KeyReply, KeyRound}
use tdns_mp.KeyRounds.Tracker.{
  KeyReq, KeyTracker, check_zone, drop_unwanted, key_ask_now, key_check, key_record, key_restart,
  key_round_ended, start_key_round,
}
use tdns_mp.KeyRounds.Sound.{Reached}
use tdns_mp.KeyRounds.Settled.{
  Keeps, Keeps-check_zone, Keeps-drop_unwanted, Keeps-key_ask_now, Keeps-key_record,
  Keeps-key_restart, Keeps-key_round_ended, Keeps-start_key_round, keeps_in,
}

-- The trackers that any number of operations make of one.
pub data Later (n : Names) (s : KeyTracker) : KeyTracker → Type 0 where
  at_once : Later n s s
  checks_taken : {t : KeyTracker} → Later n s t → Later n s (record t { key_checks = [] })
  live_changed : {t : KeyTracker} (b : Bool) → Later n s t → Later n s (record t { live = b })
  noted : {t : KeyTracker} (zone : Str) → Later n s t → Later n s (key_check n t zone)
  restarted :
      {t : KeyTracker} (zone : Str) (now : ℕ) → Later n s t → Later n s (key_restart n t zone now)
  asked_now :
      {t : KeyTracker} (zone : Str) (now : ℕ) → Later n s t → Later n s (key_ask_now t zone now)
  checked :
      {t : KeyTracker} (zone : Str) (wants : Bool) (now : ℕ)
      → Later n s t
      → Later n s (check_zone t zone wants now).0
  dropped : {t : KeyTracker} (zone : Str) → Later n s t → Later n s (drop_unwanted t zone)
  started :
      {t : KeyTracker} (zone : Str) (is_up : Str → Bool) (peers : List Str) (serial : SerialDigest)
      (known : Bool)
      → Later n s t
      → Later n s (start_key_round t zone is_up peers serial known).0
  recorded :
      {t : KeyTracker} (req : KeyReq) (a : KeyReply)
      → Later n s t
      → Later n s (key_record t req a).0
  ended :
      {t : KeyTracker} (zone : Str) (gen : ℕ) (done : Bool) (now : ℕ)
      → Later n s t
      → Later n s (key_round_ended t zone gen done now)

-- A tracker that the operations make is what they make later of one that has no zone.
abbrev no_zones : ℕ → List Str → Bool → KeyTracker
no_zones gen zones live = record { key_gen = gen; key_checks = zones; key_wanted = []; live = live }

module _ (low : ℕ) (P : ℕ → ℕ → Bool → Bool)
    (fresh : (k : ℕ) (d : Bool) → low ≤ k → P (k + 1) (k + 1) d ≡ true)
    (raised : (k g : ℕ) (d : Bool) → P k g d ≡ true → P (k + 1) g d ≡ true)
    (decides : (k g : ℕ) (d : Bool) → P k g d ≡ true → P k g true ≡ true) where
  abbrev IsKept : Str → KeyTracker → Type 0
  IsKept own t = Keeps P low own t

  Later-Keeps :
      (n : Names) (own : Str) (s t : KeyTracker) → Later n s t → IsKept own s → IsKept own t
  unfolding key_check
  Later-Keeps n own s t at_once h = h
  Later-Keeps n own s t (checks_taken {t = u} l) h = Later-Keeps n own s u l h
  Later-Keeps n own s t (live_changed {t = u} b l) h = Later-Keeps n own s u l h
  Later-Keeps n own s t (noted {t = u} zone l) h = Later-Keeps n own s u l h
  Later-Keeps n own s t (restarted {t = u} zone now l) h =
      Keeps-key_restart low P fresh raised decides n own u zone now (Later-Keeps n own s u l h)
  Later-Keeps n own s t (asked_now {t = u} zone now l) h =
      Keeps-key_ask_now low P fresh raised decides own u zone now (Later-Keeps n own s u l h)
  Later-Keeps n own s t (checked {t = u} zone wants now l) h =
      Keeps-check_zone low P fresh raised decides own u zone wants now (Later-Keeps n own s u l h)
  Later-Keeps n own s t (dropped {t = u} zone l) h =
      Keeps-drop_unwanted low P fresh raised decides own u zone (Later-Keeps n own s u l h)
  Later-Keeps n own s t (started {t = u} zone is_up peers serial known l) h =
      Keeps-start_key_round low P fresh raised decides own u zone is_up peers serial known
        (Later-Keeps n own s u l h)
  Later-Keeps n own s t (recorded {t = u} req a l) h =
      Keeps-key_record low P fresh raised decides own u req a (Later-Keeps n own s u l h)
  Later-Keeps n own s t (ended {t = u} zone gen done now l) h =
      Keeps-key_round_ended low P fresh raised decides own u zone gen done now
        (Later-Keeps n own s u l h)

  Reached-Keeps : (n : Names) (own : Str) (t : KeyTracker) → low ≡ 0 → Reached n t → IsKept own t
  unfolding key_check keeps_in lookup
  Reached-Keeps n own t z (Reached.empty gen zones live) = (omega (arith, z), refl)
  Reached-Keeps n own t z (Reached.checks_taken {t = u} l) = Reached-Keeps n own u z l
  Reached-Keeps n own t z (Reached.live_changed {t = u} b l) = Reached-Keeps n own u z l
  Reached-Keeps n own t z (Reached.noted {t = u} zone l) = Reached-Keeps n own u z l
  Reached-Keeps n own t z (Reached.restarted {t = u} zone now l) =
      Keeps-key_restart low P fresh raised decides n own u zone now (Reached-Keeps n own u z l)
  Reached-Keeps n own t z (Reached.asked_now {t = u} zone now l) =
      Keeps-key_ask_now low P fresh raised decides own u zone now (Reached-Keeps n own u z l)
  Reached-Keeps n own t z (Reached.checked {t = u} zone wants now l) =
      Keeps-check_zone low P fresh raised decides own u zone wants now (Reached-Keeps n own u z l)
  Reached-Keeps n own t z (Reached.dropped {t = u} zone l) =
      Keeps-drop_unwanted low P fresh raised decides own u zone (Reached-Keeps n own u z l)
  Reached-Keeps n own t z (Reached.started {t = u} zone is_up peers serial known l) =
      Keeps-start_key_round low P fresh raised decides own u zone is_up peers serial known
        (Reached-Keeps n own u z l)
  Reached-Keeps n own t z (Reached.recorded {t = u} req a l) =
      Keeps-key_record low P fresh raised decides own u req a (Reached-Keeps n own u z l)
  Reached-Keeps n own t z (Reached.ended {t = u} zone gen done now l) =
      Keeps-key_round_ended low P fresh raised decides own u zone gen done now
        (Reached-Keeps n own u z l)

-- No round of a reached tracker has a generation above the counter.
abbrev up_to : ℕ → ℕ → Bool → Bool
up_to k g d = leb g k

pub gen_le :
    (n : Names) (t : KeyTracker) (zone : Str) (r : KeyRound)
    → Reached n t
    → lookup zone t.key_wanted ≡ some r
    → r.gen ≤ t.key_gen
unfolding keeps_in
gen_le n t zone r h e =
    let k : Keeps up_to 0 zone t =
      Reached-Keeps 0 up_to (λ k d l. ground arith) (λ k g d l. ground (arith, l)) (λ k g d l. l) n
        zone t refl h in
    ground (arith, k.1, e)

-- The round of a generation is decided, and no round of that generation can be made any more.
abbrev settles : ℕ → ℕ → ℕ → Bool → Bool
settles gen k g d = not (g == gen) || d

pub Later-settled :
    (n : Names) (s t : KeyTracker) (zone : Str) (r : KeyRound)
    → r.gen ≤ s.key_gen
    → lookup zone s.key_wanted ≡ some r
    → r.decided ≡ true
    → Later n s t
    → (r.gen ≤ t.key_gen)
      × ((u : KeyRound)
          → lookup zone t.key_wanted ≡ some u
          → (u.gen == r.gen) ≡ true
          → u.decided ≡ true)
unfolding keeps_in
Later-settled n s t zone r le e d l =
    let k : Keeps (settles r.gen) r.gen zone t =
      Later-Keeps r.gen (settles r.gen) (λ k d l. ground (arith, l)) (λ k g d l. l)
        (λ k g d l. ground arith) n zone s t l (le, ground (arith, e, d)) in
    (k.0, λ u f x. ground (arith, k.1, f, x))
