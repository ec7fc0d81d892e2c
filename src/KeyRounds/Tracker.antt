-- ===== src/KeyRounds/Tracker.antt =====
-- v2/key_rounds.go: the rounds of the tracker, one function for each operation of a round. The
-- requests' queues and timers are not modelled: a request is the zone, the peer and the
-- generation that its answer comes back with. Waking the round loop changes no state here.
use tdns_mp.Prelude.{
  Bool, List, Option, Str, [], bool_eq, contains, delete, false, if◌then◌else◌, leb, length, lookup,
  ltb, none, not, put, some, str_eq, true, ℕ, ◌&&◌, ◌+◌, ◌==◌, ◌||◌, ◌∷◌,
}
use tdns_mp.Names.{Names}
use tdns_mp.Gossip.Model.{SerialDigest}
use tdns_mp.KeyRounds.Model.{KeyReply, KeyRound, at_serial, bare_reply, key_silent, new_round}

pub record KeyTracker : Type 0 where
  pub key_gen : ℕ
  pub key_checks : List Str
  pub key_wanted : List (Str × KeyRound)
  -- The tracker's context is set and not done.
  pub live : Bool

pub record KeyReq : Type 0 where
  pub zone : Str
  pub peer : Str
  pub gen : ℕ

-- A decision that has started: what the function that keyDecisionLocked returns has captured.
pub record KeyDecision : Type 0 where
  pub zone : Str
  pub gen : ℕ
  pub serial : SerialDigest
  pub known : Bool
  pub answers : List (Str × KeyReply)

-- keyRoundDelays and keyRoundEvery, in nanoseconds: the delay after so many rounds.
unfoldable pub round_delay : ℕ → ℕ
round_delay n =
    if n == 0
    then 5000000000
    else if n == 1
    then 15000000000
    else if n == 2
    then 30000000000
    else if n == 3
    then 60000000000
    else 300000000000

-- A check is noted once.
unfoldable pub note_check : Str → List Str → List Str
unfolding contains
note_check z zs = if contains zs z then zs else z ∷ zs

unfoldable pub restart_round : KeyRound → ℕ → ℕ → KeyRound
restart_round r gen now = record r {
  gen = gen;
  out = false;
  decided = false;
  rounds = 0;
  next = now;
  recheck = false;
}

unfoldable pub key_ask_now : KeyTracker → Str → ℕ → KeyTracker
unfolding lookup put
key_ask_now t zone now = elim (lookup zone t.key_wanted) [
  | none ↦ t
  | some r ↦
      if r.out
      then record t { key_wanted = put zone (record r { recheck = true }) t.key_wanted }
      else record t { key_wanted = put zone (record r { next = now }) t.key_wanted }
]

-- One round of keyPass's loop over the checks: the tracker, and whether the zone becomes due.
unfoldable pub check_zone : KeyTracker → Str → Bool → ℕ → KeyTracker × Bool
unfolding lookup put delete
check_zone t zone wants now = elim (lookup zone t.key_wanted) [
  | none ↦
      if wants
      then (
        record t {
          key_gen = t.key_gen + 1;
          key_wanted = put zone (new_round (t.key_gen + 1) now) t.key_wanted;
        },
        true,
      )
      else (t, false)
  | some r ↦
      if wants && not r.out && ltb now r.next
      then (record t { key_wanted = put zone (record r { next = now }) t.key_wanted }, true)
      else if wants && r.out
      then (record t { key_wanted = put zone (record r { recheck = true }) t.key_wanted }, false)
      else if not wants
      then (record t { key_wanted = delete zone t.key_wanted }, false)
      else (t, false)
]

-- The zones whose round is due when keyPass begins.
unfoldable pub due_zones : List (Str × KeyRound) → ℕ → List Str
due_zones [] now = []
due_zones (e ∷ m) now =
    let rest = due_zones m now in if not e.1.out && leb e.1.next now then e.0 ∷ rest else rest

unfoldable pub drop_unwanted : KeyTracker → Str → KeyTracker
unfolding delete
drop_unwanted t zone = record t { key_wanted = delete zone t.key_wanted }

-- The answers that a round starts with: silence from each peer that is not OPERATIONAL.
unfoldable pub silent_peers :
    (Str → Bool) → List Str → List (Str × KeyReply) → List (Str × KeyReply)
unfolding put
silent_peers is_up [] m = m
silent_peers is_up (p ∷ ps) m =
    let silent = silent_peers is_up ps (put p (bare_reply key_silent) m) in
    let asked = silent_peers is_up ps m in if is_up p then asked else silent

unfoldable pub key_decision : Str → KeyRound → KeyRound × Option KeyDecision
key_decision zone r = if r.decided || ltb (length r.answers) (length r.asked) then (r, none) else (
  record r { decided = true },
  some (record {
    zone = zone;
    gen = r.gen;
    serial = r.serial;
    known = r.known;
    answers = r.answers;
  }),
)

-- The decision is made on the round as it is stored.
unfoldable pub decide_stored : KeyTracker → Str → KeyRound → KeyTracker × Option KeyDecision
unfolding key_decision put
decide_stored t zone r =
    let d = key_decision zone r in (record t { key_wanted = put zone d.0 t.key_wanted }, d.1)

unfoldable pub started_round :
    KeyRound → ℕ → (Str → Bool) → List Str → SerialDigest → Bool → KeyRound
unfolding silent_peers
started_round r gen is_up peers serial known = record r {
  gen = gen;
  out = true;
  decided = false;
  next = 0;
  asked = peers;
  answers = silent_peers is_up peers [];
  serial = serial;
  known = known;
}

unfoldable pub requests_to : Str → ℕ → (Str → Bool) → List Str → List KeyReq
requests_to zone gen is_up [] = []
requests_to zone gen is_up (p ∷ ps) =
    let rest = requests_to zone gen is_up ps in
    if is_up p then record { zone = zone; peer = p; gen = gen } ∷ rest else rest

-- The tracker, the decision if every answer is in already, and the requests that go out.
unfoldable pub start_key_round :
    KeyTracker
    → Str
    → (Str → Bool)
    → List Str
    → SerialDigest
    → Bool
    → KeyTracker × Option KeyDecision × List KeyReq
unfolding lookup decide_stored started_round requests_to
start_key_round t zone is_up peers serial known = elim (lookup zone t.key_wanted) [
  | none ↦ (t, none, [])
  | some r ↦
      if r.out || not t.live
      then (t, none, [])
      else (let gen = t.key_gen + 1 in
          let d =
            decide_stored (record t { key_gen = gen }) zone
              (started_round r gen is_up peers serial known) in
          (d.0, d.1, requests_to zone gen is_up peers))
]

unfoldable pub key_record : KeyTracker → KeyReq → KeyReply → KeyTracker × Option KeyDecision
unfolding lookup decide_stored at_serial put
key_record t req a = elim (lookup req.zone t.key_wanted) [
  | none ↦ (t, none)
  | some r ↦
      if not (r.gen == req.gen)
      then (t, none)
      else decide_stored t req.zone (record r { answers = put req.peer (at_serial r a) r.answers })
]

unfoldable pub key_round_ended : KeyTracker → Str → ℕ → Bool → ℕ → KeyTracker
unfolding lookup put delete round_delay
key_round_ended t zone gen done now = elim (lookup zone t.key_wanted) [
  | none ↦ t
  | some r ↦
      if not (r.gen == gen)
      then t
      else if done
      then record t { key_wanted = delete zone t.key_wanted }
      else record t {
        key_wanted =
            put zone
              (record r {
                rounds = r.rounds + 1;
                recheck = false;
                out = false;
                next = now + (if r.recheck then 0 else round_delay r.rounds);
              })
              t.key_wanted;
      }
]

module _ (n : Names) where
  open n use {fqdn}

  unfoldable pub key_check : KeyTracker → Str → KeyTracker
  unfolding note_check
  key_check t zone = record t { key_checks = note_check (fqdn zone) t.key_checks }

  unfoldable pub key_restart : KeyTracker → Str → ℕ → KeyTracker
  unfolding lookup put restart_round key_check
  key_restart t zone now = elim (lookup (fqdn zone) t.key_wanted) [
    | none ↦ key_check t (fqdn zone)
    | some r ↦
        key_check
          (record t {
            key_gen = t.key_gen + 1;
            key_wanted = put (fqdn zone) (restart_round r (t.key_gen + 1) now) t.key_wanted;
          })
          (fqdn zone)
  ]

  -- The decision runs: on the active serial as it is now, and what deciding on the answers gives.
  unfoldable pub run_decision :
      KeyTracker
      → KeyDecision
      → SerialDigest
      → Bool
      → (List (Str × KeyReply) → Bool)
      → ℕ
      → KeyTracker
  unfolding key_restart key_round_ended
  run_decision t d serial known decide now =
      if not (bool_eq known d.known)
        || not (serial.serial == d.serial.serial && str_eq serial.digest d.serial.digest)
      then key_restart t d.zone now
      else key_round_ended t d.zone d.gen (decide d.answers) now
