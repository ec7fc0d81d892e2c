-- ===== src/Gossip/Model.antt =====
-- v2/hsync/gossip.go and v2/gossip_types.go: what a gossip message carries, and the table it is
-- merged into. A time here is the number of nanoseconds since the zero time, so that the zero time
-- is 0; a step's sets are the octets of their JSON.
use tdns_mp.Prelude.{Bool, List, Option, Str, [], false, none, ℕ}

pub record SerialDigest : Type 0 where
  pub serial : ℕ
  pub digest : Str

pub record Thaw : Type 0 where
  pub from : SerialDigest
  pub to : SerialDigest

pub record InstrStep : Type 0 where
  pub number : ℕ
  pub of : ℕ
  pub what : Str
  pub sets : Str
  pub digest : Str
  pub taken : List Str

pub record InstrRemoval : Type 0 where
  pub label : Str
  pub identity : Str
  pub ns_names : List Str
  pub step : ℕ

pub record InstrStamp : Type 0 where
  pub active : ℕ
  pub active_digest : Str
  pub newest : ℕ
  pub newest_digest : Str
  pub agreeing : ℕ
  pub agreeing_digest : Str
  pub known : Bool
  pub refused : Str
  pub error : Str
  pub rollover : Bool
  pub waits_on : List Str
  pub hold : Bool
  pub thaw : Option Thaw
  pub reconciling : Bool
  pub step : Option InstrStep
  pub step_held : Bool
  pub removals : List InstrRemoval

pub record MemberState : Type 0 where
  pub identity : Str
  pub peer_states : List (Str × Str)
  pub zones : List Str
  pub timestamp : ℕ
  pub beat_interval : ℕ
  pub propagation_delay : ℕ
  pub dnssec_validation_not_enforced : Bool
  pub peer_chains : List (Str × Str)
  pub instr : List (Str × InstrStamp)
  pub epoch : ℕ
  pub seq : ℕ
  pub nameservers : List Str
  pub crypto : Bool
  pub only_part : Bool

pub record GroupElectionState : Type 0 where
  pub leader : Str
  pub term : ℕ
  pub leader_expiry : ℕ

pub record GroupNameProposal : Type 0 where
  pub group_hash : Str
  pub name : Str
  pub proposer : Str
  pub proposed_at : ℕ

-- The members of a decoded message may be null.
pub record GossipMessage : Type 0 where
  pub group_hash : Str
  pub group_name : GroupNameProposal
  pub members : List (Str × Option MemberState)
  pub election : GroupElectionState

pub record ProviderGroup : Type 0 where
  pub group_hash : Str
  pub name : Str
  pub members : List Str
  pub zones : List Str
  pub voting_members : List Str
  pub auditors : List Str
  pub no_role : List Str
  pub name_proposal : Option GroupNameProposal

abbrev pub Rows : Type 0
Rows = List (Str × MemberState)

-- The callbacks are not in the table: the operations return what they are called with.
pub record GossipStateTable : Type 0 where
  pub states : List (Str × Rows)
  pub elections : List (Str × GroupElectionState)
  pub names : List (Str × GroupNameProposal)
  pub local_id : Str
  pub gate_excused : Option (Str → List Str)
  pub operational_groups : List (Str × Bool)
  pub first_row_hold_until : ℕ
  pub local_written : List (Str × Bool)
  pub own_propagation_delay : ℕ
  pub validation_not_enforced : Bool
  pub own_peer_chains : List (Str × Str)

abbrev pub no_election : GroupElectionState
no_election = record { leader = []; term = 0; leader_expiry = 0 }

abbrev pub no_name : GroupNameProposal
no_name = record { group_hash = []; name = []; proposer = []; proposed_at = 0 }

unfoldable pub new_gossip_state_table : Str → GossipStateTable
new_gossip_state_table local = record {
  states = [];
  elections = [];
  names = [];
  local_id = local;
  gate_excused = none;
  operational_groups = [];
  first_row_hold_until = 0;
  local_written = [];
  own_propagation_delay = 0;
  validation_not_enforced = false;
  own_peer_chains = [];
}
