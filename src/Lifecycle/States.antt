-- ===== src/Lifecycle/States.antt =====
-- The states of a key and the columns it carries in a state (KeyStateColumns), and the events.
use tdns_mp.Prelude.{ℕ, ◌==◌, Bool, true, false, not, ◌&&◌, Option, none, some}

-- The keystore's state names; `minting` is the empty name, of a key that is not there yet.
pub data KeyState : Type 0 where
  minting created mpdist published standby active retired mpremove removed foreign : KeyState

pub data KeyEvent : Type 0 where
  mint distributed applied pending rejected propagated promote successor_active : KeyEvent
  ds_gone margin removal_applied signers_changed restart resend ds_present : KeyEvent
  alg_superseded retry withdraw ds_expired : KeyEvent

pub KeyState-discrete : Discrete KeyState
KeyState-discrete = hlevel

-- Each state by its place in KeyLifecycleStates, after the empty name.
abbrev pub state_code : KeyState → ℕ
state_code minting = 0
state_code created = 1
state_code mpdist = 2
state_code published = 3
state_code standby = 4
state_code active = 5
state_code retired = 6
state_code mpremove = 7
state_code removed = 8
state_code foreign = 9

abbrev pub event_code : KeyEvent → ℕ
event_code mint = 0
event_code distributed = 1
event_code applied = 2
event_code pending = 3
event_code rejected = 4
event_code propagated = 5
event_code promote = 6
event_code successor_active = 7
event_code ds_gone = 8
event_code margin = 9
event_code removal_applied = 10
event_code signers_changed = 11
event_code restart = 12
event_code resend = 13
event_code ds_present = 14
event_code alg_superseded = 15
event_code retry = 16
event_code withdraw = 17
event_code ds_expired = 18

abbrev pub state_eq : KeyState → KeyState → Bool
state_eq a b = state_code a == state_code b

abbrev pub event_eq : KeyEvent → KeyEvent → Bool
event_eq a b = event_code a == event_code b

-- tdns.KeyRowFlags. `ds` is a sql.NullBool: `none` where the column is not written.
pub record KeyRowFlags : Type 0 where
  pub pub_ : Bool
  pub sign : Bool
  pub ds : Option Bool

abbrev flags : Bool → Bool → Bool → KeyRowFlags
flags p s d = record { pub_ = p; sign = s; ds = some d }

-- The second result says whether the state has columns.
unfoldable pub key_state_columns : KeyState → Bool → Bool → KeyRowFlags × Bool
key_state_columns created sep withdrawn = (flags false false false, true)
key_state_columns mpremove sep withdrawn = (flags false false false, true)
key_state_columns removed sep withdrawn = (flags false false false, true)
key_state_columns mpdist sep withdrawn = (flags true false false, true)
key_state_columns published sep withdrawn = (flags true false false, true)
key_state_columns standby sep withdrawn = (flags true false sep, true)
key_state_columns active sep withdrawn = (flags true true (sep && not withdrawn), true)
key_state_columns retired sep withdrawn = (flags true false (sep && not withdrawn), true)
key_state_columns _ sep withdrawn = (record { pub_ = false; sign = false; ds = none }, false)
