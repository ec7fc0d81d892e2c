-- ===== src/Instructions/Examples.antt =====
-- Tests and witnesses of the instructions: a zone with two providers and an auditor.
use tdns_mp.Prelude.{
  All, Any, List, Str, StrictlySorted, [], arith, compact, contains, false, not, refl, some, sort,
  sorted_unique, str, str_eq, str_leb, true, ℕ, ◌%◌, ◌&&◌, ◌+◌, ◌<◌, ◌↔◌, ◌∷◌, ◌≡◌, ◌⊎◌,
}
use tdns_mp.Instructions.Encoding.{IsEncodable, SameReading, digest_bytes, group_bytes}
use tdns_mp.Instructions.Distinct.{SameMembers, digest_bytes-SameReading, group_bytes-SameMembers}
use tdns_mp.Names.{ascii_names}
use tdns_mp.Instructions.Model.{
  InstrRecord, Instructions, identities, identity_of, providers, trim_dot,
}
use tdns_mp.Instructions.Serial.{
  after, before, compare_serial, compare_serial_order, neither, serial_half, serial_mod,
}
use tdns_mp.Instructions.Sets.{
  best_step, has_hsync3, is_among, label_of, label_rank, members, names_record, participants_of,
  standing_auditor, standing_voting, votes_in, zone_make_up, zone_standing,
}
use tdns_mp.Instructions.Standings.{
  NoneAbove, label_of-best, members-zone_make_up, zone_standing_lem,
}

abbrev alice : InstrRecord
alice = record { label = str "a"; identity = str "alice."; upstream = [] }

abbrev bob : InstrRecord
bob = record { label = str "b"; identity = str "bob."; upstream = [] }

abbrev carol : InstrRecord
carol = record { label = str "c"; identity = str "carol."; upstream = [] }

abbrev zone : Instructions
zone = record {
  serial = 7;
  has_param = true;
  records = alice ∷ bob ∷ carol ∷ [];
  off = [];
  servers = str "a" ∷ str "b" ∷ [];
  signers = str "b" ∷ [];
  auditors = str "c" ∷ str "x" ∷ [];
  nsmgmt = 1;
  parent_sync = 1;
  suffix = [];
  pubkey = false;
  pubcds = false;
}

compare_serial_order_example :
    ((compare_serial 4294967295 3 ≡ before)
      ↔ ((d : ℕ) × (0 < d) × (d < serial_half) × ((4294967295 + d) % serial_mod ≡ 3)))
    × ((compare_serial 4294967295 3 ≡ after) ↔ (compare_serial 3 4294967295 ≡ before))
    × ((compare_serial 4294967295 3 ≡ neither)
        ↔ ((◌≡◌ {A = ℕ} 4294967295 3) ⊎ ((4294967295 + serial_half) % serial_mod ≡ 3)))
compare_serial_order_example = compare_serial_order 4294967295 3 (omega arith) (omega arith)

-- A serial that wrapped round is newer.
wraps : compare_serial 4294967295 3 ≡ before
unfolding compare_serial
wraps = refl

-- The label "x" has no record and names nobody.
participants :
    participants_of (some zone)
    ≡ (str "alice." ∷ str "bob." ∷ str "carol." ∷ [], str "alice." ∷ str "bob." ∷ [])
unfolding participants_of sorted_unique identities providers identity_of trim_dot str_eq str_leb
participants = refl

members-zone_make_up_example :
    let made = zone_make_up (some zone) in
    let (participants, voting) = participants_of (some zone) in
    (members made ≡ participants)
    × (made.voting ≡ voting)
    × (contains made.auditors (str "carol.")
        ≡ (contains participants (str "carol.") && not (contains voting (str "carol."))))
    × (made.no_role ≡ [])
    × StrictlySorted participants
    × StrictlySorted made.voting
    × StrictlySorted made.auditors
members-zone_make_up_example = members-zone_make_up (some zone) (str "carol.")

zone_standing_lem_example :
    ((is_among ascii_names (participants_of (some zone)).0 (str "Bob") ≡ true) ↔ (
      (zone_standing ascii_names (some zone) (str "Bob") ≡ standing_voting)
      ⊎ (zone_standing ascii_names (some zone) (str "Bob") ≡ standing_auditor)))
    × ((is_among ascii_names (participants_of (some zone)).1 (str "Bob") ≡ true)
        ↔ (zone_standing ascii_names (some zone) (str "Bob") ≡ standing_voting))
    × ((votes_in ascii_names (some zone) (str "Bob") ≡ true) ↔ (
        (has_hsync3 (some zone) ≡ false)
        ⊎ (is_among ascii_names (participants_of (some zone)).1 (str "Bob") ≡ true)))
zone_standing_lem_example = zone_standing_lem ascii_names (some zone) (str "Bob")

abbrev both : List Str
both = str "ALICE" ∷ str "bob" ∷ []

-- Of the labels of two identities the signer's wins.
signer_wins : label_of ascii_names (some zone) both ≡ (str "b", true)
unfolding label_of best_step names_record ascii_names label_rank contains str_eq
signer_wins = refl

label_of-best_example :
    let (l, found) = label_of ascii_names (some zone) both in
    ((found ≡ false)
      → All (λ r. names_record ascii_names both r ≡ false) (alice ∷ bob ∷ carol ∷ []))
    × ((found ≡ true)
        → (Any
              (λ r. (r.label ≡ l) × (names_record ascii_names both r ≡ true))
              (alice ∷ bob ∷ carol ∷ [])
            × All (NoneAbove ascii_names zone both (label_rank zone l)) (alice ∷ bob ∷ carol ∷ [])))
label_of-best_example = label_of-best ascii_names zone both

abbrev zone_IsEncodable : IsEncodable zone
zone_IsEncodable = record {
  records = omega arith;
  off = omega arith;
  servers = omega arith;
  signers = omega arith;
  auditors = omega arith;
  suffix = omega arith;
}

digest_bytes-SameReading_example : (digest_bytes zone ≡ digest_bytes zone) ↔ SameReading zone zone
digest_bytes-SameReading_example =
    digest_bytes-SameReading zone zone zone_IsEncodable zone_IsEncodable

group_bytes-SameMembers_example :
    let v = str "b." ∷ str "a." ∷ [] in
    let w = str "a." ∷ str "b." ∷ str "a." ∷ [] in
    (group_bytes v [] [] ≡ group_bytes w [] [])
    ↔ (SameMembers v w × SameMembers [] [] × SameMembers [] [])
unfolding sorted_unique sort compact str_leb str_eq
group_bytes-SameMembers_example =
    group_bytes-SameMembers (str "b." ∷ str "a." ∷ []) [] [] (str "a." ∷ str "b." ∷ str "a." ∷ [])
      [] [] (omega arith) (omega arith)
