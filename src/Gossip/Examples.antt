-- ===== src/Gossip/Examples.antt =====
-- Tests and witnesses of the gossip table: a group of two voters and an auditor.
use tdns_mp.Prelude.{
  All, Any, Option, Str, [], false, flag_of, inl, is_empty, lookup, none, not, refl, some, str,
  str_eq, true, ℕ, ◌&&◌, ◌<◌, ◌↔◌, ◌∷◌, ◌≡◌, ◌⊎◌,
}
use tdns_mp.Names.{ascii_names}
use tdns_mp.Instructions.Sets.{is_among}
use tdns_mp.Gossip.Model.{
  GossipMessage, GossipStateTable, GroupElectionState, MemberState, ProviderGroup, Rows,
  new_gossip_state_table, no_election, no_name,
}
use tdns_mp.Gossip.Merge.{merge_gossip, merge_gossip_as, rows_of}
use tdns_mp.Gossip.Newest.{is_since}
use tdns_mp.Gossip.Terms.{merge_gossip-sender, merge_gossip_as-term}
use tdns_mp.Gossip.Gate.{check_members, lost, no_news, operational, reached, was_operational}
use tdns_mp.Gossip.Mutual.{MutuallyOperational, check_members_lem}
use tdns_mp.Gossip.Build.{OwnWord, build_gossip_for_peer, message_for}
use tdns_mp.Gossip.Copied.{IsCopied}
use tdns_mp.Gossip.Exchange.{IsShared, build_gossip_for_peer-IsShared, message_for-merge_gossip}

abbrev row_at : Str → Str → ℕ → MemberState
row_at id peer at = record {
  identity = id;
  peer_states = (peer, operational) ∷ [];
  zones = [];
  timestamp = at;
  beat_interval = 30;
  propagation_delay = 5;
  dnssec_validation_not_enforced = false;
  peer_chains = [];
  instr = [];
  epoch = 0;
  seq = 0;
  nameservers = [];
  crypto = false;
  only_part = false;
}

abbrev group : ProviderGroup
group = record {
  group_hash = str "g";
  name = [];
  members = str "a." ∷ str "b." ∷ str "c." ∷ [];
  zones = str "z." ∷ [];
  voting_members = str "a." ∷ str "b." ∷ [];
  auditors = str "c." ∷ [];
  no_role = [];
  name_proposal = none;
}

abbrev elected : ℕ → Str → GroupElectionState
elected term leader = record { leader = leader; term = term; leader_expiry = 500 }

abbrev table : GossipStateTable
table = record {
  states =
      (
        str "g",
        (str "a.", row_at (str "a.") (str "b.") 10)
            ∷ (str "b.", row_at (str "b.") (str "a.") 9)
            ∷ [],
      )
      ∷ [];
  elections = (str "g", elected 3 (str "a.")) ∷ [];
  names = [];
  local_id = str "a.";
  gate_excused = none;
  operational_groups = [];
  first_row_hold_until = 100;
  local_written = [];
  own_propagation_delay = 1500000000;
  validation_not_enforced = false;
  own_peer_chains = [];
}

abbrev message : GossipMessage
message = record {
  group_hash = str "g";
  group_name = no_name;
  members = (str "b.", some (row_at (str "b.") (str "a.") 12)) ∷ (str "c.", none) ∷ [];
  election = elected 4 (str "b.");
}

abbrev rows : Rows
rows = (str "a.", row_at (str "a.") (str "b.") 10) ∷ (str "b.", row_at (str "b.") (str "a.") 9) ∷ []

merge_gossip_as-term_example :
    let r = merge_gossip_as table message false 50 in
    (lookup (str "g") r.0.elections ≡ some (elected 3 (str "a.")))
    ⊎ ((lookup (str "g") r.0.elections ≡ some message.election)
        × (r.1 ≡ some (str "g", message.election))
        × (3 < 4)
        × (is_empty message.election.leader ≡ false))
unfolding lookup str_eq
merge_gossip_as-term_example =
    merge_gossip_as-term table message 50 (str "g") (elected 3 (str "a.")) refl

merge_gossip-sender_example :
    let r = merge_gossip ascii_names table (some message) (str "c.") (some group) false 50 in
    (str_eq group.group_hash message.group_hash && is_among ascii_names group.members (str "c.")
        ≡ false
      → r ≡ (table, none))
    × (is_among ascii_names group.voting_members (str "c.") && not false ≡ false
        → (r.0.elections ≡ table.elections) × (r.0.names ≡ table.names) × (r.1 ≡ none))
    × (is_among ascii_names group.voting_members (str "c.") ≡ false
        → (id : Str) → is_among ascii_names (id ∷ []) (str "c.") ≡ false
        → lookup id (rows_of r.0 message.group_hash) ≡ lookup id (rows_of table message.group_hash))
merge_gossip-sender_example =
    merge_gossip-sender ascii_names table message (str "c.") group false 50

check_members_lem_example :
    let voters = str "a." ∷ str "b." ∷ [] in
    let r = check_members table (str "g") voters in
    ((r.1 ≡ reached) ↔ (
      MutuallyOperational (rows_of table (str "g")) voters
      × (was_operational table (str "g") ≡ false)))
    × ((r.1 ≡ lost) ↔ (
        (¬ MutuallyOperational (rows_of table (str "g")) voters)
        × (was_operational table (str "g") ≡ true)))
    × ((was_operational r.0 (str "g") ≡ true)
        ↔ MutuallyOperational (rows_of table (str "g")) voters)
    × ((check_members r.0 (str "g") voters).1 ≡ no_news)
check_members_lem_example = check_members_lem table (str "g") (str "a." ∷ str "b." ∷ [])

-- The two voters of the group reach mutual OPERATIONAL.
reached_test : (check_members table (str "g") (str "a." ∷ str "b." ∷ [])).1 ≡ reached
unfolding check_members lookup str_eq flag_of
reached_test = refl

abbrev undecided : Str → Option OwnWord
undecided hash = some (record { record_of = no_election; decided = false; known = true })

message_for-merge_gossip_example :
    let msg = message_for table undecided group in
    let r =
      merge_gossip ascii_names
        (new_gossip_state_table (str "b."))
        (some msg)
        (str "a.")
        (some group)
        false
        50 in
    let held = lookup (str "a.") (rows_of r.0 (str "g")) in
    (is_since held 10 ≡ true)
    × ((held ≡ lookup (str "a.") (rows_of (new_gossip_state_table (str "b.")) (str "g")))
        ⊎ Any (IsCopied (str "a.") held) (rows_of table (str "g")))
unfolding rows_of lookup str_eq is_among ascii_names
message_for-merge_gossip_example =
    message_for-merge_gossip ascii_names table (new_gossip_state_table (str "b.")) undecided group
      group false 50 (str "a.") (row_at (str "a.") (str "b.") 10) refl refl (inl refl) refl

build_gossip_for_peer-IsShared_example :
    All
      (IsShared table (str "b.") undecided (group ∷ []))
      (build_gossip_for_peer table (str "b.") undecided (group ∷ []))
build_gossip_for_peer-IsShared_example =
    build_gossip_for_peer-IsShared table (str "b.") undecided (group ∷ [])
