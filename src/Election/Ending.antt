-- ===== src/Election/Ending.antt =====
-- A voter that ends an election, and one that receives a confirm, keep the election sound and say
-- nothing but the truth (Honest).
use tdns_mp.Prelude.{
  Bool, Bool-cases, List, Option, Option-cases, Str, [], ap, arith, if◌then◌else◌, inl, inr, leb,
  length, none, not, put, refl, some, str_eq, str_eq_refl, true, ℕ, ◌++◌, ◌+◌, ◌==◌, ◌||◌, ◌∙◌, ◌≡◌,
}
use tdns_mp.Names.{Names}
use tdns_mp.Election.Model.{Effect, ElectionManager, GroupNow, LeaderElection, entry_of, with_entry}
use tdns_mp.Election.Lead.{note_leader, retry_group_election, schedule_group_reelection}
use tdns_mp.Election.Rounds.{
  agreed_from, ask_zones, finalize_group_election, finalize_with, set_leader,
}
use tdns_mp.Election.Manager.{handle_group_confirm}
use tdns_mp.Election.Full.{all-put_entry}
use tdns_mp.Election.Honest.{Carries, Keeps, Sound, messages, spawns, winner_of}
use tdns_mp.Election.Says.{ask_zones_says, messages-append, note_leader_says, spawns-append}
use tdns_mp.Election.Terms.{note_leader-same}
use tdns_mp.Election.Keeping.{Keeps-with_entry, agreed_from-all}
use tdns_mp.Election.Truthful.{Keeps-Carries}

module _ (vs : List Str) (draw : ℕ → Str → ℕ) where
  -- The effects of naming the leader, and of asking if it is this agent, say nothing.
  quiet_end :
      (m : ElectionManager) (e : LeaderElection) (w : Str) (asks : Bool) (started zones : List Str)
      (now : ℕ)
      → let effects =
          (note_leader m.local_id m.leads e w now).2
          ++ (if asks then ask_zones started zones else []) in
        (messages m.local_id effects ≡ []) × (spawns effects ≡ [])
  unfolding messages spawns
  quiet_end m e w asks started zones now =
      let named = (note_leader m.local_id m.leads e w now).2 in
      let asked : List Effect = if asks then ask_zones started zones else [] in
      rw (messages-append m.local_id named asked, spawns-append named asked)
        (ground (
          arith,
          note_leader_says m.local_id m.local_id m.leads e w now,
          ask_zones_says m.local_id started zones,
        ))

  finalize_with_says :
      (n : Names) (m : ElectionManager) (e : LeaderElection) (g : Option GroupNow)
      (members zones : List Str) (now : ℕ)
      → let effects = (finalize_with n m e g members zones now).1 in
        (messages m.local_id effects ≡ []) × (spawns effects ≡ [])
  unfolding finalize_with messages spawns
  finalize_with_says n m e none members zones now =
      elim (Option-cases (agreed_from [] e.confirms)) [
        | inl k ↦ ground (arith, k)
        | inr (w, k) ↦
            ground (arith, k, quiet_end m e w (str_eq w m.local_id) e.start_zones zones now)
      ]
  finalize_with_says n m e (some g) members zones now =
      elim (Option-cases (agreed_from [] e.confirms)) [
        | inl k ↦ ground (arith, k)
        | inr (w, k) ↦
            ground (arith, k, quiet_end m e w (str_eq w m.local_id) e.start_zones g.zones now)
      ]

  finalize_with-Sound :
      (n : Names) (m : ElectionManager) (e : LeaderElection) (g : Option GroupNow)
      (members zones : List Str) (now : ℕ)
      → e.active ≡ true
      → Sound vs draw e
      → let r = finalize_with n m e g members zones now in
        (r.0.local_id ≡ m.local_id) × Sound vs draw (entry_of r.0) × Carries e (entry_of r.0)
  unfolding finalize_with entry_of set_leader schedule_group_reelection retry_group_election
  finalize_with-Sound n m e g members zones now a s =
      elim (Option-cases (agreed_from [] e.confirms)) [
        | inl k ↦ ground (arith, k, s, a)
        | inr (w, k) ↦
            let agreed =
              agreed_from-all vs draw [] w (winner_of vs draw e.term) e.confirms (s.confirms a)
                (inl refl) k in
            ground
              (arith, k, s, a, agreed, str_eq_refl w, note_leader-same m.local_id m.leads e w now)
      ]

  finalize_with-Keeps :
      (n : Names) (m : ElectionManager) (e : LeaderElection) (g : Option GroupNow)
      (members zones : List Str) (now : ℕ)
      → e.active ≡ true
      → Sound vs draw e
      → Keeps vs draw m.local_id e (finalize_with n m e g members zones now)
  finalize_with-Keeps n m e g members zones now a s =
      let sound = finalize_with-Sound n m e g members zones now a s in
      let said = finalize_with_says n m e g members zones now in
      record {
        local = sound.0;
        sound = sound.1;
        carries = sound.2;
        says = rw said.0 refl;
        starts = rw said.1 refl;
      }

  -- An election that this agent has in its entry, and may end.
  pub finalize_noted-Keeps :
      (n : Names) (m : ElectionManager) (e : LeaderElection) (g : Option GroupNow) (term : ℕ)
      (members zones : List Str) (now : ℕ)
      → Sound vs draw e
      → Keeps vs draw m.local_id e
          (finalize_group_election n (with_entry m e) g term members zones now)
  unfolding finalize_group_election entry_of
  finalize_noted-Keeps n m e g term members zones now s =
      elim (Bool-cases (not (e.term == term) || not e.active)) [
        | inl x ↦ rw x (Keeps-with_entry vs draw m e e s (ground arith))
        | inr x ↦
            rw x
              (finalize_with-Keeps n (with_entry m e) e g members zones now (ground (arith, x)) s)
      ]

  pub handle_group_confirm-Keeps :
      (n : Names) (m : ElectionManager) (g : Option GroupNow) (from : Str) (term : ℕ) (winner : Str)
      (members zones : List Str) (now : ℕ)
      → str_eq winner (winner_of vs draw term) ≡ true
      → Sound vs draw (entry_of m)
      → Keeps vs draw m.local_id
          (entry_of m)
          (handle_group_confirm n m (entry_of m) g from term winner members zones now)
  unfolding handle_group_confirm
  handle_group_confirm-Keeps n m g from term winner members zones now w s =
      let e = entry_of m in
      elim (Bool-cases (not e.active || not (e.term == term))) [
        | inl x ↦ rw x (Keeps-with_entry vs draw m e e s (ground arith))
        | inr x ↦
            let same : e.term ≡ term = ground (arith, x) in
            let confirms = put from winner e.confirms in
            let agree =
              all-put_entry (λ c. str_eq c.1 (winner_of vs draw e.term)) from winner e.confirms
                (s.confirms (ground (arith, x)))
                (ap (λ t. str_eq winner (winner_of vs draw t)) same ∙ w) in
            let f = record e { confirms = confirms; confirm_timer = none } in
            elim (Bool-cases (leb (e.expected_peers + 1) (length confirms))) [
              | inl y ↦
                  rw (x, y)
                    (Keeps-Carries vs draw m.local_id e f
                      (finalize_group_election n (with_entry m f) g term members zones now)
                      (ground arith)
                      (finalize_noted-Keeps n m f g term members zones now
                        (ground (arith, agree, s))))
              | inr y ↦
                  rw (x, y)
                    (Keeps-with_entry vs draw m e (record e { confirms = confirms })
                      (ground (arith, agree, s)) (ground arith))
            ]
      ]
