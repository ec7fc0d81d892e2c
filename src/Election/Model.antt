-- ===== src/Election/Model.antt =====
-- v2/gossip_types.go and v2/parentsync_leader.go: a group's election (LeaderElection), what a member
-- says in it, and what its handlers do besides changing it. A time is a number of nanoseconds since
-- the zero time. A timer is the term it was armed in; a renewal's has its delay too.
use tdns_mp.Prelude.{
  Bool, List, Option, Str, [], false, if◌then◌else◌, ltb, none, not, some, str_leb, ℕ, ◌%◌, ◌&&◌,
  ◌+◌, ◌-◌, ◌==◌, ◌||◌, ◌∷◌,
}

pub record LeaderElection : Type 0 where
  pub leader : Str
  pub leader_expiry : ℕ
  pub active : Bool
  pub term : ℕ
  pub my_vote : ℕ
  pub votes : List (Str × ℕ)
  pub confirms : List (Str × Str)
  pub expected_peers : ℕ
  pub vote_timer : Option ℕ
  pub confirm_timer : Option ℕ
  pub reelect_timer : Option (ℕ × ℕ)
  pub retry_timer : Option ℕ
  pub asked_term : ℕ
  pub leader_term : ℕ
  pub lead_start : ℕ
  pub start_zones : List Str
  pub hold_start : ℕ
  pub gone : Bool
  pub early_term : ℕ
  pub early_votes : List (Str × ℕ)

abbrev pub new_election : LeaderElection
new_election = record {
  leader = [];
  leader_expiry = 0;
  active = false;
  term = 0;
  my_vote = 0;
  votes = [];
  confirms = [];
  expected_peers = 0;
  vote_timer = none;
  confirm_timer = none;
  reelect_timer = none;
  retry_timer = none;
  asked_term = 0;
  leader_term = 0;
  lead_start = 0;
  start_zones = [];
  hold_start = 0;
  gone = false;
  early_term = 0;
  early_votes = [];
}

-- What the records of a message carry: a number that is missing or cannot be read is 0, a name that
-- is missing is empty (parseUint64, parseString).
pub data ElectMsg : Type 0 where
  elect_call : ℕ → ℕ → ElectMsg
  elect_vote : ℕ → ℕ → ElectMsg
  elect_confirm : ℕ → Str → ElectMsg

abbrev pub two_64 : ℕ
two_64 = 18446744073709551616

-- parseUint64 reads a number that is too large as the last one.
unfoldable pub parse_uint64 : ℕ → ℕ
parse_uint64 x = if ltb x two_64 then x else two_64 - 1

-- A message as the handlers read it.
unfoldable pub read_msg : ElectMsg → ElectMsg
unfolding parse_uint64
read_msg (elect_call term vote) = elect_call (parse_uint64 term) (parse_uint64 vote)
read_msg (elect_vote term vote) = elect_vote (parse_uint64 term) (parse_uint64 vote)
read_msg (elect_confirm term winner) = elect_confirm (parse_uint64 term) winner

-- le.Term++ on a uint64.
unfoldable pub next_term : LeaderElection → ℕ
next_term e = (e.term + 1) % two_64

-- What a handler does besides: a message to the peers of a zone, the goroutine of
-- determineAndConfirmGroup for a term, and the callbacks.
pub data Effect : Type 0 where
  broadcast : Str → ElectMsg → Effect
  determine : ℕ → Effect
  leader_elected : Str → Effect
  zone_joined : Str → Effect
  lead_lost : ℕ → Effect
  leader_named : Effect

-- The election manager of one agent, as far as one group concerns it; `leads` counts the leads it
-- has taken, in all its elections. An entry that is not there is `none`.
pub record ElectionManager : Type 0 where
  pub local_id : Str
  pub leader_ttl : ℕ
  pub leads : ℕ
  pub entry : Option LeaderElection

-- The group as the group manager has it now.
pub record GroupNow : Type 0 where
  pub voting_members : List Str
  pub zones : List Str

abbrev pub uint32 : ℕ → ℕ
uint32 x = x % 4294967296

unfoldable pub entry_of : ElectionManager → LeaderElection
entry_of m = elim (m.entry) [ none ↦ new_election | some e ↦ e ]

abbrev pub with_entry : ElectionManager → LeaderElection → ElectionManager
with_entry m e = record m { entry = some e }

-- zones[0], if there is one.
unfoldable pub send : List Str → ElectMsg → List Effect
send [] msg = []
send (z ∷ zs) msg = broadcast z msg ∷ []

-- Whether the second is better than the first: a higher vote, or the same and an agent that comes
-- first.
unfoldable pub better : Str × ℕ → Str × ℕ → Bool
better best x = ltb best.1 x.1 || (x.1 == best.1 && not (str_leb best.0 x.0))

-- One step of the loop of determineWinner, on the winner and its vote so far.
unfoldable pub winner_step : Str × ℕ → Str × ℕ → Str × ℕ
winner_step best x = if better best x then x else best

unfoldable pub winner_from : Str × ℕ → List (Str × ℕ) → Str × ℕ
unfolding winner_step
winner_from best [] = best
winner_from best (x ∷ votes) = winner_from (winner_step best x) votes

unfoldable pub determine_winner : List (Str × ℕ) → Str
unfolding winner_from
determine_winner votes = (winner_from ([], 0) votes).0
