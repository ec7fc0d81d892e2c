-- ===== src/Instructions/Model.antt =====
-- The reading of a zone's HSYNC3 and HSYNCPARAM records (Instructions), and what is looked up in it.
use tdns_mp.Prelude.{
  Bool, List, Option, Str, [], any, false, find, if◌then◌else◌, is_empty, none, some, str_eq, ℕ,
  ◌==◌, ◌∷◌,
}

pub record InstrRecord : Type 0 where
  pub label : Str
  pub identity : Str
  pub upstream : Str

pub record Instructions : Type 0 where
  pub serial : ℕ  -- uint32
  pub has_param : Bool
  pub records : List InstrRecord
  pub off : List Str
  pub servers : List Str
  pub signers : List Str
  pub auditors : List Str
  pub nsmgmt : ℕ  -- uint8
  pub parent_sync : ℕ  -- uint8
  pub suffix : Str
  pub pubkey : Bool
  pub pubcds : Bool

-- strings.TrimSuffix of a dot.
unfoldable pub trim_dot : Str → Str
trim_dot [] = []
trim_dot (c ∷ []) = if c == b'.' then [] else c ∷ []
trim_dot (c ∷ d ∷ s) = c ∷ trim_dot (d ∷ s)

-- The ON record under a label (Instructions.record).
abbrev pub find_record : List InstrRecord → Str → Option InstrRecord
find_record rs label = find (λ r. str_eq r.label label) rs

abbrev pub record_of : Instructions → Str → Option InstrRecord
record_of i label = find_record i.records label

abbrev pub identity_in : Option InstrRecord → Str
identity_in none = []
identity_in (some r) = r.identity

unfoldable pub identity_of : Instructions → Str → Str
identity_of i label = identity_in (find_record i.records (trim_dot label))

pub record Provider : Type 0 where
  pub label : Str
  pub identity : Str

unfoldable pub providers : Instructions → List Str → List Provider
providers i [] = []
providers i (l ∷ ls) = record { label = l; identity = identity_of i l } ∷ providers i ls

unfoldable pub has : List Provider → Str → Bool
has set label = any (λ p. str_eq p.label (trim_dot label)) set

unfoldable pub identities : List Provider → List Str
identities [] = []
identities (p ∷ ps) =
    let rest = identities ps in if is_empty p.identity then rest else p.identity ∷ rest

unfoldable pub labels_of : List Provider → List Str
labels_of [] = []
labels_of (p ∷ ps) = trim_dot p.label ∷ labels_of ps

pub record Roles : Type 0 where
  pub servers : List Provider
  pub key_signers : List Provider
  pub ds_signers : List Provider
  pub key_confirmers : List Provider
  pub signing : List Provider
  pub pubkey : Bool
  pub pubcds : Bool
  pub nsmgmt : ℕ
  pub parent_sync : ℕ
  pub hold : Bool

-- The defaults of nsmgmt and parentsync (core.HsyncNSmgmtOWNER, core.HsyncParentSyncOwner).
pub record Defaults : Type 0 where
  pub nsmgmt_owner : ℕ
  pub parent_sync_owner : ℕ

unfoldable pub roles_of : Instructions → Roles
roles_of i =
    let signers = providers i i.signers in
    record {
      servers = providers i i.servers;
      key_signers = signers;
      ds_signers = signers;
      key_confirmers = signers;
      signing = signers;
      pubkey = i.pubkey;
      pubcds = i.pubcds;
      nsmgmt = i.nsmgmt;
      parent_sync = i.parent_sync;
      hold = false;
    }

-- rolesFor, by the from-serial and otherwise the to-serial; `step` is not read.
unfoldable pub roles_for : Defaults → Option Instructions → Option Instructions → ℕ → Roles
roles_for d (some from) to step = roles_of from
roles_for d none (some to) step = roles_of to
roles_for d none none step = record {
  servers = [];
  key_signers = [];
  ds_signers = [];
  key_confirmers = [];
  signing = [];
  pubkey = false;
  pubcds = false;
  nsmgmt = d.nsmgmt_owner;
  parent_sync = d.parent_sync_owner;
  hold = false;
}
