-- ===== src/Election/Honest.antt =====
-- What each voter of a group holds and says in its elections, when no agent restarts: every vote of a
-- term is the one drawn by its voter for that term, and every winner is that of all the draws.
use tdns_mp.Prelude.{
  Bool, List, Str, [], all, arith, contains, false, is_empty, leb, length, ltb, not, str_eq, true,
  ℕ, ◌&&◌, ◌+◌, ◌<◌, ◌==◌, ◌||◌, ◌∷◌, ◌≡◌, ◌≤◌, ◌⊎◌,
}
use tdns_mp.Gossip.Model.{GroupElectionState}
use tdns_mp.Election.Model.{
  Effect, ElectMsg, ElectionManager, LeaderElection, broadcast, determine, determine_winner,
  elect_call, elect_confirm, elect_vote, entry_of, lead_lost, leader_elected, leader_named, two_64,
  uint32, zone_joined,
}
use tdns_mp.Election.Full.{distinct, draws, is_drawn}

-- What an agent sends, in its own name.
unfoldable pub messages : Str → List Effect → List (Str × ElectMsg)
messages a [] = []
messages a (broadcast z msg ∷ es) = (a, msg) ∷ messages a es
messages a (determine term ∷ es) = messages a es
messages a (leader_elected z ∷ es) = messages a es
messages a (zone_joined z ∷ es) = messages a es
messages a (lead_lost k ∷ es) = messages a es
messages a (leader_named ∷ es) = messages a es

-- The goroutines that it starts.
unfoldable pub spawns : List Effect → List ℕ
spawns [] = []
spawns (broadcast z msg ∷ es) = spawns es
spawns (determine term ∷ es) = term ∷ spawns es
spawns (leader_elected z ∷ es) = spawns es
spawns (zone_joined z ∷ es) = spawns es
spawns (lead_lost k ∷ es) = spawns es
spawns (leader_named ∷ es) = spawns es

-- From one moment to a later one: no term is lower, and in a term that runs no vote is lost.
abbrev pub Carries : LeaderElection → LeaderElection → Type 0
Carries e f =
    (e.term ≤ f.term)
    × (f.active ≡ true
        → ((e.active ≡ true) × (e.term ≡ f.term) × (length e.votes ≤ length f.votes))
          ⊎ (e.term < f.term))

-- `draw T a` is what rand.Uint32 gives the agent `a` when it joins the term `T`, which it does once.
module _ (vs : List Str) (draw : ℕ → Str → ℕ) where
  abbrev pub vote_of : ℕ → Str → ℕ
  vote_of term a = uint32 (draw term a)

  -- The winner of all the draws of a term.
  unfoldable pub winner_of : ℕ → Str
  winner_of term = determine_winner (draws vs (vote_of term))

  unfoldable pub honest : Str × ElectMsg → Bool
  unfolding contains
  honest (from, elect_call term vote) =
      contains vs from && vote == vote_of term from && ltb term two_64
  honest (from, elect_vote term vote) =
      contains vs from && vote == vote_of term from && ltb term two_64
  honest (from, elect_confirm term winner) =
      contains vs from && str_eq winner (winner_of term) && ltb term two_64

  unfoldable pub honest_record : GroupElectionState → Bool
  honest_record r = str_eq r.leader (winner_of r.term) && ltb r.term two_64

  pub record Sound (e : LeaderElection) : Type 0 where
    pub bounded : e.term < two_64
    pub leader : is_empty e.leader ≡ false → str_eq e.leader (winner_of e.leader_term) ≡ true
    pub votes : e.active ≡ true → all (is_drawn vs (vote_of e.term)) e.votes ≡ true
    pub keys : e.active ≡ true → distinct e.votes ≡ true
    pub expected : e.active ≡ true → e.expected_peers + 1 ≡ length vs
    pub confirms : e.active ≡ true → all (λ c. str_eq c.1 (winner_of e.term)) e.confirms ≡ true
    pub early : all (is_drawn vs (vote_of e.early_term)) e.early_votes ≡ true

  -- The goroutine for a term finds, if the term still runs, all the votes.
  unfoldable pub spawn_fits : LeaderElection → ℕ → Bool
  spawn_fits e term =
      leb term e.term && (not (term == e.term) || not e.active || leb (length vs) (length e.votes))

  pub spawn_fits-Carries :
      (e f : LeaderElection) (term : ℕ)
      → Carries e f
      → spawn_fits e term ≡ true
      → spawn_fits f term ≡ true
  unfolding spawn_fits
  spawn_fits-Carries e f term c h = ground (arith, c, h)

  -- What is owed of every operation: it keeps the election sound, says nothing but the truth, and
  -- starts a goroutine for a full set of votes only.
  pub record Keeps (a : Str) (e : LeaderElection) (r : ElectionManager × List Effect) : Type 0 where
    pub local : r.0.local_id ≡ a
    pub sound : Sound (entry_of r.0)
    pub carries : Carries e (entry_of r.0)
    pub says : all honest (messages a r.1) ≡ true
    pub starts : all (spawn_fits (entry_of r.0)) (spawns r.1) ≡ true
