-- ===== src/Election/Hearing.antt =====
-- A voter that hears of an election by gossip keeps its election sound and says nothing; and what it
-- tells by gossip of a decided election is true (Honest).
use tdns_mp.Prelude.{
  Bool-cases, List, Option, Str, [], arith, false, inl, inr, none, refl, some, true, ℕ, ◌++◌, ◌<◌,
  ◌∙◌, ◌≡◌,
}
use tdns_mp.Names.{Names}
use tdns_mp.Gossip.Model.{GroupElectionState}
use tdns_mp.Gossip.Merge.{observer_takes}
use tdns_mp.Election.Model.{Effect, ElectionManager, GroupNow, entry_of, with_entry}
use tdns_mp.Election.Lead.{schedule_group_reelection}
use tdns_mp.Election.Manager.{group_election_for_gossip}
use tdns_mp.Election.Heard.{
  apply_gossip_election, ask_in_term, is_news, is_observer, rearm, take_news,
}
use tdns_mp.Election.Honest.{Carries, Keeps, Sound, honest_record, messages, spawns}
use tdns_mp.Election.Says.{messages-append, note_leader_says, quiet_says, spawns-append}
use tdns_mp.Election.Terms.{note_leader-same}

module _ (vs : List Str) (draw : ℕ → Str → ℕ) (n : Names) where
  take_news_says :
      (m : ElectionManager) (state : GroupElectionState) (now : ℕ)
      → (messages m.local_id (take_news n m state now).1 ≡ [])
        × (spawns (take_news n m state now).1 ≡ [])
  unfolding take_news
  take_news_says m state now =
      note_leader_says m.local_id m.local_id m.leads (record (entry_of m) { term = state.term })
        state.leader now

  ask_in_term_says :
      (a : Str) (m : ElectionManager) (g : Option GroupNow)
      → (messages a (ask_in_term n m g).1 ≡ []) × (spawns (ask_in_term n m g).1 ≡ [])
  unfolding ask_in_term messages spawns
  ask_in_term_says a m none = (refl, refl)
  ask_in_term_says a m (some g) = ground (arith, quiet_says a g.zones)

  quiet-append :
      (a : Str) (es fs : List Effect)
      → (messages a es ≡ []) × (spawns es ≡ [])
      → (messages a fs ≡ []) × (spawns fs ≡ [])
      → (messages a (es ++ fs) ≡ []) × (spawns (es ++ fs) ≡ [])
  quiet-append a es fs h k =
      (messages-append a es fs ∙ (rw (h.0, k.0) refl), spawns-append es fs ∙ (rw (h.1, k.1) refl))

  apply_gossip_election_says :
      (m : ElectionManager) (g : Option GroupNow) (state : GroupElectionState) (now : ℕ)
      → let es = (apply_gossip_election n m g state now).1 in
        (messages m.local_id es ≡ []) × (spawns es ≡ [])
  unfolding apply_gossip_election messages spawns
  apply_gossip_election_says m g state now = elim (Bool-cases (is_news n m g state now)) [
    | inl x ↦
        let (taken, es) = take_news n m state now in
        ground (
          arith,
          x,
          quiet-append m.local_id es (ask_in_term n taken g).1 (take_news_says m state now)
              (ask_in_term_says m.local_id taken g),
        )
    | inr x ↦ ground (arith, x, ask_in_term_says m.local_id (with_entry m (entry_of m)) g)
  ]

  apply_gossip_election-Sound :
      (m : ElectionManager) (g : Option GroupNow) (state : GroupElectionState) (now : ℕ)
      → is_observer n m g ≡ false
      → honest_record vs draw state ≡ true
      → Sound vs draw (entry_of m)
      → let r = apply_gossip_election n m g state now in
        (r.0.local_id ≡ m.local_id)
        × Sound vs draw (entry_of r.0)
        × Carries (entry_of m) (entry_of r.0)
  unfolding apply_gossip_election is_news observer_takes take_news ask_in_term rearm
      schedule_group_reelection entry_of honest_record
  apply_gossip_election-Sound m g state now o h s = ground (
    arith,
    h,
    s,
    o,
    note_leader-same m.local_id m.leads (record (entry_of m) { term = state.term }) state.leader
        now,
  )

  pub apply_gossip_election-Keeps :
      (m : ElectionManager) (g : Option GroupNow) (state : GroupElectionState) (now : ℕ)
      → is_observer n m g ≡ false
      → honest_record vs draw state ≡ true
      → Sound vs draw (entry_of m)
      → Keeps vs draw m.local_id (entry_of m) (apply_gossip_election n m g state now)
  apply_gossip_election-Keeps m g state now o h s =
      let sound = apply_gossip_election-Sound m g state now o h s in
      let said = apply_gossip_election_says m g state now in
      record {
        local = sound.0;
        sound = sound.1;
        carries = sound.2;
        says = rw said.0 refl;
        starts = rw said.1 refl;
      }

  pub group_election_for_gossip-honest :
      (m : ElectionManager)
      → Sound vs draw (entry_of m)
      → (entry_of m).term < 4294967296
      → (group_election_for_gossip m).1 ≡ true
      → honest_record vs draw (group_election_for_gossip m).0 ≡ true
  unfolding group_election_for_gossip entry_of honest_record
  group_election_for_gossip-honest m s t h = ground (arith, s, t, h)
