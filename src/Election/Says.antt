-- ===== src/Election/Says.antt =====
-- What the effects of an operation say to the peers: callbacks say nothing.
use tdns_mp.Prelude.{List, Str, [], ap, arith, map, refl, ℕ, ◌++◌, ◌∷◌, ◌≡◌}
use tdns_mp.Election.Model.{
  Effect, LeaderElection, broadcast, determine, lead_lost, leader_elected, leader_named,
  zone_joined,
}
use tdns_mp.Election.Lead.{note_leader}
use tdns_mp.Election.Rounds.{ask_zones}
use tdns_mp.Election.Honest.{messages, spawns}

pub quiet_says :
    (a : Str) (zs : List Str)
    → (messages a (map leader_elected zs) ≡ []) × (spawns (map leader_elected zs) ≡ [])
unfolding messages spawns
quiet_says a [] = (refl, refl)
quiet_says a (z ∷ zs) = quiet_says a zs

pub ask_zones_says :
    (a : Str) (started zs : List Str)
    → (messages a (ask_zones started zs) ≡ []) × (spawns (ask_zones started zs) ≡ [])
unfolding messages spawns ask_zones
ask_zones_says a started [] = (refl, refl)
ask_zones_says a started (z ∷ zs) = ground (arith, ask_zones_says a started zs)

pub messages-append :
    (a : Str) (es fs : List Effect) → messages a (es ++ fs) ≡ messages a es ++ messages a fs
unfolding messages
messages-append a [] fs = refl
messages-append a (broadcast z msg ∷ es) fs = ap (λ l. (a, msg) ∷ l) (messages-append a es fs)
messages-append a (determine term ∷ es) fs = messages-append a es fs
messages-append a (leader_elected z ∷ es) fs = messages-append a es fs
messages-append a (zone_joined z ∷ es) fs = messages-append a es fs
messages-append a (lead_lost k ∷ es) fs = messages-append a es fs
messages-append a (leader_named ∷ es) fs = messages-append a es fs

pub spawns-append : (es fs : List Effect) → spawns (es ++ fs) ≡ spawns es ++ spawns fs
unfolding spawns
spawns-append [] fs = refl
spawns-append (broadcast z msg ∷ es) fs = spawns-append es fs
spawns-append (determine term ∷ es) fs = ap (λ l. term ∷ l) (spawns-append es fs)
spawns-append (leader_elected z ∷ es) fs = spawns-append es fs
spawns-append (zone_joined z ∷ es) fs = spawns-append es fs
spawns-append (lead_lost k ∷ es) fs = spawns-append es fs
spawns-append (leader_named ∷ es) fs = spawns-append es fs

pub note_leader_says :
    (a local : Str) (leads : ℕ) (e : LeaderElection) (leader : Str) (now : ℕ)
    → (messages a (note_leader local leads e leader now).2 ≡ [])
      × (spawns (note_leader local leads e leader now).2 ≡ [])
unfolding note_leader messages spawns
note_leader_says a local leads e leader now = ground arith
