-- ===== src/Gossip/Gate.antt =====
-- v2/gossip.go: the gate of a group (CheckGroupState), and v2/instr_thaw.go: whom it leaves out
-- (withoutExcused).
use tdns_mp.Prelude.{
  Bool, List, Option, Str, all, false, flag_of, if◌then◌else◌, is_empty, keep, length, lookup, ltb,
  none, not, put, some, str, str_eq, ◌&&◌, ◌||◌,
}
use tdns_mp.Names.{Names}
use tdns_mp.Instructions.Sets.{is_among}
use tdns_mp.Gossip.Model.{GossipStateTable, Rows}
use tdns_mp.Gossip.Merge.{rows_of}

-- What the check tells the host: onGroupOperational, onGroupDegraded, or nothing.
pub data GroupNews : Type 0 where
  reached : GroupNews
  lost : GroupNews
  no_news : GroupNews

abbrev pub operational : Str
operational = str "OPERATIONAL"

unfoldable pub is_operational : Option Str → Bool
is_operational none = false
is_operational (some s) = str_eq s operational

-- The inner loop: the member's row has every other member as OPERATIONAL.
unfoldable pub row_operational : Rows → List Str → Str → Bool
unfolding is_operational
row_operational rows expected member = elim (lookup member rows) [
  | none ↦ false
  | some ms ↦
      all (λ peer. str_eq peer member || is_operational (lookup peer ms.peer_states)) expected
]

unfoldable pub all_operational : Rows → List Str → Bool
unfolding row_operational
all_operational rows expected =
    not (ltb (length rows) (length expected)) && all (row_operational rows expected) expected

unfoldable pub was_operational : GossipStateTable → Str → Bool
unfolding flag_of
was_operational t hash = flag_of t.operational_groups hash

unfoldable pub news_of : Bool → Bool → GroupNews
news_of now was = if now && not was then reached else if not now && was then lost else no_news

-- The check, for the members that are left once the excused ones are out.
unfoldable pub check_members : GossipStateTable → Str → List Str → GossipStateTable × GroupNews
unfolding all_operational was_operational rows_of news_of
check_members t hash expected =
    let now = all_operational (rows_of t hash) expected in
    let was = was_operational t hash in
    (record t { operational_groups = put hash now t.operational_groups }, news_of now was)

module _ (N : Names) where
  unfoldable pub without_excused : List Str → List Str → List Str
  unfolding is_among
  without_excused voters excused =
      let kept = keep (λ v. not (is_among N excused v)) voters in
      if is_empty excused || is_empty kept then voters else kept

  unfoldable pub check_group_state :
      GossipStateTable → Str → List Str → GossipStateTable × GroupNews
  unfolding without_excused check_members
  check_group_state t hash expected = elim t.gate_excused [
    | none ↦ check_members t hash expected
    | some excused ↦ check_members t hash (without_excused expected (excused hash))
  ]
