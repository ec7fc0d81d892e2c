-- ===== src/Gossip/Local.antt =====
-- v2/gossip.go: this agent's own rows (UpdateLocalState, refreshLocalRow, RefreshLocalStates), and
-- the propagation delay that a member announces in its own (AnnouncedPropagationDelay).
use tdns_mp.Prelude.{
  Bool, List, Option, Str, [], any, false, flag_of, if◌then◌else◌, is_empty, lookup, ltb, none, not,
  put, some, str, str_eq, true, ℕ, ◌%◌, ◌&&◌, ◌*◌, ◌+◌, ◌-◌, ◌/◌, ◌==◌, ◌^◌, ◌||◌, ◌∷◌,
}
use tdns_mp.Names.{Names}
use tdns_mp.Gossip.Model.{GossipStateTable, MemberState, ProviderGroup, Rows}
use tdns_mp.Gossip.Merge.{rows_of}
use tdns_mp.Gossip.Gate.{operational}

abbrev pub second : ℕ
second = 1000000000

unfoldable pub hold_first_local_rows : GossipStateTable → ℕ → GossipStateTable
hold_first_local_rows t until = record t { first_row_hold_until = until }

-- A delay is not negative here: the source takes a negative one for 0.
unfoldable pub set_propagation_delay : GossipStateTable → ℕ → GossipStateTable
set_propagation_delay t d = record t { own_propagation_delay = d }

unfoldable pub set_dnssec_validation_not_enforced : GossipStateTable → Bool → GossipStateTable
set_dnssec_validation_not_enforced t off = record t { validation_not_enforced = off }

unfoldable pub set_peer_chains : GossipStateTable → List (Str × Str) → GossipStateTable
set_peer_chains t chains = record t { own_peer_chains = chains }

-- The verdicts on the peers of a row.
unfoldable pub chains_of : List (Str × Str) → List (Str × Str) → List (Str × Str)
chains_of own [] = []
chains_of own (p ∷ ps) =
    let rest = chains_of own ps in elim (lookup p.0 own) [ none ↦ rest | some c ↦ (p.0, c) ∷ rest ]

-- Whole seconds, rounded up, in a uint32.
unfoldable pub whole_seconds : ℕ → ℕ
whole_seconds d = (d + second - 1) / second % 2 ^ 32

unfoldable pub own_row : GossipStateTable → List (Str × Str) → ℕ → ℕ → MemberState
unfolding chains_of whole_seconds
own_row t peer_states beat_interval now = record {
  identity = t.local_id;
  peer_states = peer_states;
  zones = [];
  timestamp = now;
  beat_interval = beat_interval;
  propagation_delay = whole_seconds t.own_propagation_delay;
  dnssec_validation_not_enforced = t.validation_not_enforced;
  peer_chains = chains_of t.own_peer_chains peer_states;
  instr = [];
  epoch = 0;
  seq = 0;
  nameservers = [];
  crypto = false;
  only_part = false;
}

unfoldable pub update_local_state :
    GossipStateTable → Str → List (Str × Str) → ℕ → ℕ → GossipStateTable
unfolding own_row rows_of
update_local_state t hash peer_states beat_interval now = record t {
  states =
      put hash (put t.local_id (own_row t peer_states beat_interval now) (rows_of t hash)) t.states;
  local_written = put hash true t.local_written;
}

-- Whether the first row of a group is held: in the hold, with a member that is not OPERATIONAL.
unfoldable pub is_held : GossipStateTable → Str → List (Str × Str) → ℕ → Bool
unfolding flag_of
is_held t hash peer_states now =
    not (flag_of t.local_written hash)
    && ltb now t.first_row_hold_until
    && any (λ p. not (str_eq p.1 operational)) peer_states

-- `now` is when the round began, `stamp` when the row is written.
unfoldable pub refresh_local_row :
    GossipStateTable → Str → List (Str × Str) → ℕ → ℕ → ℕ → GossipStateTable × Bool
unfolding is_held update_local_state
refresh_local_row t hash peer_states beat_interval now stamp =
    if is_held t hash peer_states now
    then (t, false)
    else (update_local_state t hash peer_states beat_interval stamp, true)

-- What the agent registry says of its peers: the name of a peer's state, if it has the peer, and
-- the verdict on its chain, empty when there is none. The registry is not modelled here.
pub record PeerWords : Type 0 where
  pub state_of : Str → Option Str
  pub chain_of : Str → Str

unfoldable pub row_states : PeerWords → Str → List Str → List (Str × Str) → List (Str × Str)
row_states w local [] m = m
row_states w local (p ∷ ps) m =
    let rest =
      row_states w local ps (put p (elim (w.state_of p) [ none ↦ str "NEEDED" | some s ↦ s ]) m) in
    let skipped = row_states w local ps m in if str_eq p local then skipped else rest

unfoldable pub group_chains : PeerWords → Str → List Str → List (Str × Str) → List (Str × Str)
group_chains w local [] m = m
group_chains w local (p ∷ ps) m =
    let found = group_chains w local ps (put p (w.chain_of p) m) in
    let skipped = group_chains w local ps m in
    if str_eq p local || is_empty (w.chain_of p) then skipped else found

unfoldable pub all_chains :
    PeerWords → Str → List ProviderGroup → List (Str × Str) → List (Str × Str)
unfolding group_chains
all_chains w local [] m = m
all_chains w local (g ∷ gs) m = all_chains w local gs (group_chains w local g.members m)

unfoldable pub refresh_rows :
    PeerWords → GossipStateTable → List ProviderGroup → ℕ → ℕ → ℕ → GossipStateTable
unfolding refresh_local_row row_states
refresh_rows w t [] beat_interval now stamp = t
refresh_rows w t (g ∷ gs) beat_interval now stamp =
    refresh_rows w
      (refresh_local_row t g.group_hash (row_states w t.local_id g.members []) beat_interval now
        stamp).0
      gs beat_interval now stamp

unfoldable pub refresh_local_states :
    PeerWords → GossipStateTable → List ProviderGroup → ℕ → ℕ → ℕ → GossipStateTable
unfolding all_chains refresh_rows set_peer_chains
refresh_local_states w t groups beat_interval now stamp =
    refresh_rows w (set_peer_chains t (all_chains w t.local_id groups [])) groups beat_interval now
      stamp

module _ (n : Names) where
  open n use {fqdn}

  unfoldable pub newest_in : Str → Rows → Option MemberState → Option MemberState
  newest_in identity [] best = best
  newest_in identity (r ∷ rows) best =
      let takes =
        str_eq (fqdn r.0) (fqdn identity)
        && elim best [ none ↦ true | some b ↦ ltb b.timestamp r.1.timestamp ] in
      newest_in identity rows (if takes then some r.1 else best)

  unfoldable pub newest_row : Str → List (Str × Rows) → Option MemberState → Option MemberState
  unfolding newest_in
  newest_row identity [] best = best
  newest_row identity (g ∷ gs) best = newest_row identity gs (newest_in identity g.1 best)

  unfoldable pub announced_propagation_delay : GossipStateTable → Str → Option ℕ
  unfolding newest_row
  announced_propagation_delay t identity = elim (newest_row identity t.states none) [
    | none ↦ none
    | some m ↦ if m.propagation_delay == 0 then none else some (m.propagation_delay * second)
  ]
