-- ===== src/Election/Voting.antt =====
-- A voter that starts an election, receives a message, or hears of an election by gossip keeps its
-- election sound and says nothing but the truth (Honest).
use tdns_mp.Prelude.{
  List, Option, Str, [], arith, contains, is_empty, length, none, not, refl, some, true, ℕ, ◌+◌,
  ◌<◌, ◌==◌, ◌≡◌,
}
use tdns_mp.Names.{Names}
use tdns_mp.Instructions.Sets.{is_among}
use tdns_mp.Election.Model.{
  ElectMsg, ElectionManager, GroupNow, elect_call, elect_confirm, elect_vote, entry_of,
  parse_uint64, read_msg, two_64, with_entry,
}
use tdns_mp.Election.Wraps.{parse_uint64_same, uint32_small}
use tdns_mp.Election.Rounds.{moved_on}
use tdns_mp.Election.Manager.{
  handle_group_message, handle_message, invalidate_group_leader, renewal_fired, retry_fired,
  start_group_election,
}
use tdns_mp.Election.Honest.{Keeps, Sound, honest, vote_of}
use tdns_mp.Election.Keeping.{Keeps-same, Keeps-with_entry, begin_election-Keeps}
use tdns_mp.Election.Truthful.{handle_group_call-Keeps, handle_group_vote-Keeps}
use tdns_mp.Election.Ending.{handle_group_confirm-Keeps}
use tdns_mp.Election.Deciding.{Keeps-if, by_entry}
use tdns_mp.Election.Says.{note_leader_says}
use tdns_mp.Election.Terms.{note_leader-same}

unfoldable pub msg_term : ElectMsg → ℕ
msg_term (elect_call term vote) = term
msg_term (elect_vote term vote) = term
msg_term (elect_confirm term winner) = term

module _ (vs : List Str) (draw : ℕ → Str → ℕ) (n : Names) where
  -- The group with these voters.
  abbrev pub voters_and : List Str → GroupNow
  voters_and zones = record { voting_members = vs; zones = zones }

  pub start_group_election-Keeps :
      (m : ElectionManager) (zones : List Str) (armed : Option ℕ) (now : ℕ)
      → (entry_of m).term + 1 < two_64
      → 1 < length vs
      → contains vs m.local_id ≡ true
      → Sound vs draw (entry_of m)
      → Keeps vs draw m.local_id (entry_of m) (
          start_group_election n m
            (some (voters_and zones))
            armed
            (vote_of vs draw ((entry_of m).term + 1) m.local_id)
            now)
  unfolding start_group_election
  start_group_election-Keeps m zones armed now small several h s =
      let e = entry_of m in
      Keeps-if vs draw m.local_id e (not (is_among n vs m.local_id)) _ _
        (λ _. Keeps-same vs draw m s)
        (λ _.
          Keeps-if vs draw m.local_id e (moved_on armed e) _ _
            (λ _. Keeps-with_entry vs draw m e e s (ground arith))
            (λ _.
              Keeps-if vs draw m.local_id e (length vs == 1) _ _
                (λ one. absurd (ground (arith, one, several)))
                (λ _. begin_election-Keeps vs draw several m e zones small h s)))

  handle_message-Keeps :
      (m : ElectionManager) (zones : List Str) (from : Str) (msg : ElectMsg) (now : ℕ)
      → 1 < length vs
      → contains vs m.local_id ≡ true
      → honest vs draw (from, msg) ≡ true
      → Sound vs draw (entry_of m)
      → Keeps vs draw m.local_id (entry_of m) (
          handle_message n m
            (voters_and zones)
            from
            msg
            (vote_of vs draw (msg_term msg) m.local_id)
            now)
  unfolding handle_message honest msg_term
  handle_message-Keeps m zones from (elect_call term sent) now several h k s =
      handle_group_call-Keeps vs draw m from term sent zones several h (ground (arith, k))
        (ground (arith, k)) (ground (arith, k)) s
  handle_message-Keeps m zones from (elect_vote term sent) now several h k s =
      handle_group_vote-Keeps vs draw m from term sent (ground (arith, k)) (ground (arith, k)) s
  handle_message-Keeps m zones from (elect_confirm term winner) now several h k s =
      handle_group_confirm-Keeps vs draw n m (some (voters_and zones)) from term winner vs zones now
        (ground (arith, k)) s

  -- An honest message is read as it is.
  read_msg_same :
      (from : Str) (msg : ElectMsg) → honest vs draw (from, msg) ≡ true → read_msg msg ≡ msg
  unfolding honest read_msg
  read_msg_same from (elect_call term sent) h =
      let small = uint32_small (draw term from) in
      let same : sent ≡ vote_of vs draw term from = ground (arith, h) in
      let read : parse_uint64 sent ≡ sent = parse_uint64_same sent (omega (arith, same, small)) in
      rw (parse_uint64_same term (ground (arith, h)), read) refl
  read_msg_same from (elect_vote term sent) h =
      let small = uint32_small (draw term from) in
      let same : sent ≡ vote_of vs draw term from = ground (arith, h) in
      let read : parse_uint64 sent ≡ sent = parse_uint64_same sent (omega (arith, same, small)) in
      rw (parse_uint64_same term (ground (arith, h)), read) refl
  read_msg_same from (elect_confirm term winner) h =
      rw (parse_uint64_same term (ground (arith, h))) refl

  read_message-Keeps :
      (m : ElectionManager) (zones : List Str) (from : Str) (msg : ElectMsg) (now : ℕ)
      → 1 < length vs
      → contains vs m.local_id ≡ true
      → honest vs draw (from, msg) ≡ true
      → Sound vs draw (entry_of m)
      → Keeps vs draw m.local_id (entry_of m) (
          handle_message n m
            (voters_and zones)
            from
            (read_msg msg)
            (vote_of vs draw (msg_term msg) m.local_id)
            now)
  read_message-Keeps m zones from msg now several h k s =
      rw (read_msg_same from msg k) (handle_message-Keeps m zones from msg now several h k s)

  pub handle_group_message-Keeps :
      (m : ElectionManager) (zones : List Str) (from : Str) (msg : ElectMsg) (now : ℕ)
      → 1 < length vs
      → contains vs m.local_id ≡ true
      → honest vs draw (from, msg) ≡ true
      → Sound vs draw (entry_of m)
      → Keeps vs draw m.local_id (entry_of m) (
          handle_group_message n m
            (some (voters_and zones))
            from
            msg
            (vote_of vs draw (msg_term msg) m.local_id)
            now)
  unfolding handle_group_message
  handle_group_message-Keeps m zones from msg now several h k s =
      Keeps-if vs draw m.local_id (entry_of m) _ _ _ (λ _. Keeps-same vs draw m s)
        (λ _. read_message-Keeps m zones from msg now several h k s)

  pub retry_fired-Keeps :
      (m : ElectionManager) (zones : List Str) (armed now : ℕ)
      → (entry_of m).term + 1 < two_64
      → 1 < length vs
      → contains vs m.local_id ≡ true
      → Sound vs draw (entry_of m)
      → Keeps vs draw m.local_id (entry_of m) (
          retry_fired n m
            (some (voters_and zones))
            armed
            (vote_of vs draw ((entry_of m).term + 1) m.local_id)
            now)
  unfolding retry_fired
  retry_fired-Keeps m zones armed now small several h s =
      Keeps-if vs draw m.local_id (entry_of m) _ _ _ (λ _. Keeps-same vs draw m s)
        (λ _. start_group_election-Keeps m zones (some armed) now small several h s)

  pub renewal_fired-Keeps :
      (m : ElectionManager) (zones : List Str) (armed now : ℕ)
      → (entry_of m).term + 1 < two_64
      → 1 < length vs
      → contains vs m.local_id ≡ true
      → Sound vs draw (entry_of m)
      → Keeps vs draw m.local_id (entry_of m) (
          renewal_fired n m
            (some (voters_and zones))
            armed
            (vote_of vs draw ((entry_of m).term + 1) m.local_id)
            now)
  unfolding renewal_fired
  renewal_fired-Keeps m zones armed now small several h s =
      Keeps-if vs draw m.local_id (entry_of m) _ _ _ (λ _. Keeps-same vs draw m s)
        (λ _. retry_fired-Keeps m zones armed now small several h s)

  pub invalidate_group_leader-Keeps :
      (m : ElectionManager) (now : ℕ)
      → Sound vs draw (entry_of m)
      → Keeps vs draw m.local_id (entry_of m) (invalidate_group_leader m now)
  unfolding invalidate_group_leader entry_of
  invalidate_group_leader-Keeps m now =
      by_entry
        (λ m.
          Sound vs draw (entry_of m)
          → Keeps vs draw m.local_id (entry_of m) (invalidate_group_leader m now))
        m (λ s. Keeps-same vs draw (record m { entry = none }) s)
        (λ e s.
          Keeps-if vs draw m.local_id e (is_empty e.leader) _ _
            (λ _. Keeps-same vs draw (with_entry m e) s)
            (λ _.
              let same = note_leader-same m.local_id m.leads e [] now in
              let said = note_leader_says m.local_id m.local_id m.leads e [] now in
              record {
                local = refl;
                sound = ground (arith, same, s);
                carries = ground (arith, same);
                says = rw said.0 refl;
                starts = rw said.1 refl;
              }))
