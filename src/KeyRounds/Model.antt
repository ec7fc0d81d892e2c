-- ===== src/KeyRounds/Model.antt =====
-- v2/key_rounds.go: what an agent answered (keyReply, classifyKeyAnswer, atSerial) and a zone's round
-- (keyRound). The text that a reply carries for the log is left out. A time is a number of
-- nanoseconds since the zero time.
use tdns_mp.Prelude.{
  Bool, List, Option, Str, [], false, if◌then◌else◌, is_empty, lookup, none, not, some, str, str_eq,
  true, ℕ, ◌&&◌, ◌==◌,
}
use tdns_mp.Gossip.Model.{InstrStamp, SerialDigest}

pub data Outcome : Type 0 where
  key_got : Outcome
  key_not_imported : Outcome
  key_none : Outcome
  key_refused : Outcome
  key_silent : Outcome
  key_not_taken : Outcome
  key_no_data : Outcome
  key_several : Outcome
  key_other_serial : Outcome

pub record MsgStamp : Type 0 where
  pub epoch : ℕ
  pub seq : ℕ
  pub stamp : InstrStamp

pub record KeyReply : Type 0 where
  pub outcome : Outcome
  pub key_data : List (Str × Str)
  pub instr : Option MsgStamp

abbrev pub bare_reply : Outcome → KeyReply
bare_reply o = record { outcome = o; key_data = []; instr = none }

pub record ConfigResponseMsg : Type 0 where
  pub sender_id : Str
  pub zone : Str
  pub subtype : Str
  pub config_data : List (Str × Str)
  pub instr : Option MsgStamp

-- Reading a key that a Go map of strings lacks gives the empty string.
unfoldable pub get_text : Str → List (Str × Str) → Str
unfolding lookup
get_text k m = elim (lookup k m) [ none ↦ [] | some v ↦ v ]

unfoldable pub why_refused : Option ConfigResponseMsg → Str
unfolding get_text
why_refused none = []
why_refused (some m) = get_text (str "refused") m.config_data

unfoldable pub classify_key_answer : Option ConfigResponseMsg → KeyReply
unfolding why_refused get_text
classify_key_answer none = bare_reply key_silent
classify_key_answer (some m) =
    let status = get_text (str "status") m.config_data in
    if not (is_empty (why_refused (some m)))
    then bare_reply key_refused
    else if is_empty m.config_data
    then bare_reply key_no_data
    else if str_eq status (str "no sig0 key for zone")
    then record { outcome = key_none; key_data = []; instr = m.instr }
    else if str_eq status (str "several KEYs at the apex")
    then bare_reply key_several
    else record { outcome = key_got; key_data = m.config_data; instr = m.instr }

pub record KeyRound : Type 0 where
  pub gen : ℕ
  pub rounds : ℕ
  pub next : ℕ
  pub out : Bool
  pub decided : Bool
  pub recheck : Bool
  pub asked : List Str
  pub answers : List (Str × KeyReply)
  pub serial : SerialDigest
  pub known : Bool

abbrev pub no_serial : SerialDigest
no_serial = record { serial = 0; digest = [] }

-- &keyRound{gen: gen, next: next}
abbrev pub new_round : ℕ → ℕ → KeyRound
new_round gen next = record {
  gen = gen;
  rounds = 0;
  next = next;
  out = false;
  decided = false;
  recheck = false;
  asked = [];
  answers = [];
  serial = no_serial;
  known = false;
}

unfoldable pub counts : Outcome → Bool
counts key_got = true
counts key_none = true
counts _ = false

-- Whether a stamp tells this active serial.
unfoldable pub tells : Option MsgStamp → SerialDigest → Bool
tells none s = false
tells (some m) s =
    m.stamp.known && m.stamp.active == s.serial && str_eq m.stamp.active_digest s.digest

unfoldable pub at_serial : KeyRound → KeyReply → KeyReply
unfolding counts tells
at_serial r a =
    if not (counts a.outcome)
    then a
    else if not r.known
    then bare_reply key_other_serial
    else if not (tells a.instr r.serial)
    then bare_reply key_other_serial
    else a
