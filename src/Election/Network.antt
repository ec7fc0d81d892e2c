-- ===== src/Election/Network.antt =====
-- The voters of a group and what passes between them: messages, which may come late, twice, in any
-- order or never; the goroutines of determineAndConfirmGroup; timers, which may fire at any time; and
-- the election records that gossip carries. No agent restarts, and the voters stay the same.
use tdns_mp.Prelude.{
  List, Memᴰ, Option, Str, [], contains, false, if◌then◌else◌, map, none, some, str_eq, true, ℕ,
  ◌++◌, ◌+◌, ◌<◌, ◌∷◌, ◌≡◌,
}
use tdns_mp.Names.{Names}
use tdns_mp.Gossip.Model.{GroupElectionState}
use tdns_mp.Election.Model.{Effect, ElectMsg, ElectionManager, GroupNow, entry_of, two_64}
use tdns_mp.Election.Manager.{
  determine_and_confirm_group, group_election_for_gossip, handle_group_message,
  invalidate_group_leader, on_group_confirm_timeout, on_group_vote_timeout, renewal_fired,
  retry_fired, start_group_election,
}
use tdns_mp.Election.Heard.{apply_gossip_election, is_observer}
use tdns_mp.Election.Honest.{messages, spawns, vote_of}
use tdns_mp.Election.Voting.{msg_term, voters_and}

pub record Network : Type 0 where
  pub agents : Str → ElectionManager
  pub sent : List (Str × ElectMsg)
  pub spawned : List (Str × ℕ)
  pub told : List GroupElectionState

-- After an operation of the agent `a`.
unfoldable pub after_op : Network → Str → ElectionManager × List Effect → Network
unfolding messages spawns
after_op net a r = record {
  agents = λ b. if str_eq b a then r.0 else net.agents b;
  sent = messages a r.1 ++ net.sent;
  spawned = map (λ term. (a, term)) (spawns r.1) ++ net.spawned;
  told = net.told;
}

abbrev pub after_tell : Network → Str → Network
after_tell net a = record net { told = (group_election_for_gossip (net.agents a)).0 ∷ net.told }

module _ (vs : List Str) (draw : ℕ → Str → ℕ) (n : Names) where
  -- What rand.Uint32 gives an agent that calls an election, or joins the term of a message.
  abbrev called_vote : ElectionManager → ℕ
  called_vote m = vote_of vs draw ((entry_of m).term + 1) m.local_id

  abbrev joined_vote : ElectionManager → ElectMsg → ℕ
  joined_vote m msg = vote_of vs draw (msg_term msg) m.local_id

  -- The networks that the voters can reach from none holding an election. The group is there, with
  -- the zones of the moment. No election is called from the last term of a uint64.
  pub data Reached : Network → Type 0 where
    begun :
        (agents : Str → ElectionManager)
        → ((a : Str) → ((agents a).local_id ≡ a) × ((agents a).entry ≡ none))
        → Reached (record { agents = agents; sent = []; spawned = []; told = [] })
    calls :
        (net : Network) (a : Str) (zones : List Str) (armed : Option ℕ) (now : ℕ)
        → Reached net
        → contains vs a ≡ true
        → (entry_of (net.agents a)).term + 1 < two_64
        → Reached (
            after_op net a (
              start_group_election n
                (net.agents a)
                (some (voters_and vs draw n zones))
                armed
                (called_vote (net.agents a))
                now))
    renews :
        (net : Network) (a : Str) (zones : List Str) (armed now : ℕ)
        → Reached net
        → contains vs a ≡ true
        → (entry_of (net.agents a)).term + 1 < two_64
        → Reached (
            after_op net a (
              renewal_fired n
                (net.agents a)
                (some (voters_and vs draw n zones))
                armed
                (called_vote (net.agents a))
                now))
    retries :
        (net : Network) (a : Str) (zones : List Str) (armed now : ℕ)
        → Reached net
        → contains vs a ≡ true
        → (entry_of (net.agents a)).term + 1 < two_64
        → Reached (
            after_op net a (
              retry_fired n
                (net.agents a)
                (some (voters_and vs draw n zones))
                armed
                (called_vote (net.agents a))
                now))
    receives :
        (net : Network) (a : Str) (zones : List Str) (from : Str) (msg : ElectMsg) (now : ℕ)
        → Reached net
        → contains vs a ≡ true
        → Memᴰ (from, msg) net.sent
        → Reached (
            after_op net a (
              handle_group_message n
                (net.agents a)
                (some (voters_and vs draw n zones))
                from
                msg
                (joined_vote (net.agents a) msg)
                now))
    determines :
        (net : Network) (a : Str) (g : Option GroupNow) (term : ℕ) (members zones : List Str)
        (now : ℕ)
        → Reached net
        → Memᴰ (a, term) net.spawned
        → Reached
            (after_op net a (determine_and_confirm_group n (net.agents a) g term members zones now))
    vote_timer_fires :
        (net : Network) (a : Str) (g : Option GroupNow) (term : ℕ) (members zones : List Str)
        (now : ℕ)
        → Reached net
        → contains vs a ≡ true
        → Reached (after_op net a (on_group_vote_timeout n (net.agents a) g term members zones now))
    confirm_timer_fires :
        (net : Network) (a : Str) (g : Option GroupNow) (term : ℕ) (members zones : List Str)
        (now : ℕ)
        → Reached net
        → contains vs a ≡ true
        → Reached
            (after_op net a (on_group_confirm_timeout n (net.agents a) g term members zones now))
    tells :
        (net : Network) (a : Str)
        → Reached net
        → (group_election_for_gossip (net.agents a)).1 ≡ true
        → (entry_of (net.agents a)).term < 4294967296
        → Reached (after_tell net a)
    hears :
        (net : Network) (a : Str) (g : Option GroupNow) (state : GroupElectionState) (now : ℕ)
        → Reached net
        → contains vs a ≡ true
        → Memᴰ state net.told
        → is_observer n (net.agents a) g ≡ false
        → Reached (after_op net a (apply_gossip_election n (net.agents a) g state now))
    invalidates :
        (net : Network) (a : Str) (now : ℕ)
        → Reached net
        → contains vs a ≡ true
        → Reached (after_op net a (invalidate_group_leader (net.agents a) now))
