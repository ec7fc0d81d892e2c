-- ===== src/Election/Keeping.antt =====
-- Each operation of a voter keeps its election sound and says nothing but the truth (Honest).
use tdns_mp.Prelude.{
  ==_iff, Bool, Bool-cases, List, Str, [], all, ap, arith, contains, if◌then◌else◌, inl, inr,
  is_empty, leb, length, ltb, none, put, refl, some, str_eq, str_eq→eq, sym, true, ℕ, ◌++◌, ◌+◌,
  ◌-◌, ◌<◌, ◌==◌, ◌||◌, ◌∙◌, ◌∷◌, ◌≡◌, ◌⊎◌,
}
use tdns_mp.Election.Model.{
  ElectionManager, LeaderElection, determine, elect_vote, entry_of, send, two_64, uint32,
  with_entry,
}
use tdns_mp.Election.Wraps.{next_term_lem}
use tdns_mp.Election.Lead.{keep_early_vote, put_all, take_early_votes}
use tdns_mp.Election.Rounds.{agreed_from, begin_election, join_call}
use tdns_mp.Election.Full.{all-put_entry, distinct, distinct-put, is_drawn}
use tdns_mp.Election.Honest.{Carries, Keeps, Sound, honest, messages, spawn_fits, spawns, vote_of}

module _ (vs : List Str) (draw : ℕ → Str → ℕ) where
  abbrev pub is_vote : ℕ → Str × ℕ → Bool
  is_vote term = is_drawn vs (vote_of vs draw term)

  pub agreed_from-all :
      (agreed w x : Str) (cs : List (Str × Str))
      → all (λ c. str_eq c.1 x) cs ≡ true
      → (agreed ≡ []) ⊎ (agreed ≡ x)
      → agreed_from agreed cs ≡ some w
      → (w ≡ []) ⊎ (w ≡ x)
  unfolding agreed_from
  agreed_from-all agreed w x [] h k e = ground (arith, k, e)
  agreed_from-all agreed w x (c ∷ cs) h k e =
      let ih = agreed_from-all (if is_empty agreed then c.1 else agreed) w x cs in
      ground (arith, h, k, e, str_eq→eq c.1 x, ih)

  put_all-is_drawn :
      (f : Str → ℕ) (xs votes : List (Str × ℕ))
      → all (is_drawn vs f) xs ≡ true
      → all (is_drawn vs f) votes ≡ true
      → all (is_drawn vs f) (put_all xs votes) ≡ true
  unfolding put_all
  put_all-is_drawn f [] votes h k = k
  put_all-is_drawn f (x ∷ xs) votes h k =
      put_all-is_drawn f xs (put x.0 x.1 votes) (ground (arith, h))
        (all-put_entry (is_drawn vs f) x.0 x.1 votes k (ground (arith, h)))

  distinct-put_all :
      (xs votes : List (Str × ℕ)) → distinct votes ≡ true → distinct (put_all xs votes) ≡ true
  unfolding put_all
  distinct-put_all [] votes h = h
  distinct-put_all (x ∷ xs) votes h =
      distinct-put_all xs (put x.0 x.1 votes) (distinct-put x.0 x.1 votes h)

  -- Nothing happened, or an entry was made.
  pub Keeps-same :
      (m : ElectionManager)
      → Sound vs draw (entry_of m)
      → Keeps vs draw m.local_id (entry_of m) (m, [])
  unfolding messages spawns
  Keeps-same m h = ground (arith, h)

  pub Keeps-with_entry :
      (m : ElectionManager) (e f : LeaderElection)
      → Sound vs draw f
      → Carries e f
      → Keeps vs draw m.local_id e (with_entry m f, [])
  unfolding messages spawns entry_of
  Keeps-with_entry m e f h k = ground (arith, h, k)

  take_early_votes-is_drawn :
      (term : ℕ) (e : LeaderElection)
      → all (is_vote term) e.votes ≡ true
      → all (is_vote e.early_term) e.early_votes ≡ true
      → all (is_vote term) (take_early_votes term true e).votes ≡ true
  unfolding take_early_votes
  take_early_votes-is_drawn term e h k = elim (Bool-cases (e.early_term == term)) [
    | inl x ↦
        let same : e.early_term ≡ term = (==_iff e.early_term term).0 x in
        let all_drawn =
          put_all-is_drawn (vote_of vs draw term) e.early_votes e.votes
            (ap (λ t. all (is_vote t) e.early_votes) (sym same) ∙ k) h in
        ground (arith, x, all_drawn)
    | inr x ↦ ground (arith, x, h)
  ]

  take_early_votes-distinct :
      (term : ℕ) (e : LeaderElection)
      → distinct e.votes ≡ true
      → distinct (take_early_votes term true e).votes ≡ true
  unfolding take_early_votes
  take_early_votes-distinct term e h = ground (arith, h, distinct-put_all e.early_votes e.votes h)

  take_early_votes-early :
      (term : ℕ) (apply : Bool) (e : LeaderElection)
      → all (is_vote e.early_term) e.early_votes ≡ true
      → all
          (is_vote (take_early_votes term apply e).early_term)
          (take_early_votes term apply e).early_votes
        ≡ true
  unfolding take_early_votes
  take_early_votes-early term apply e h = ground (arith, h)

  pub keep_early_vote-early :
      (term vote : ℕ) (from : Str) (e : LeaderElection)
      → is_vote term (from, vote) ≡ true
      → all (is_vote e.early_term) e.early_votes ≡ true
      → all
          (is_vote (keep_early_vote term from vote e).early_term)
          (keep_early_vote term from vote e).early_votes
        ≡ true
  unfolding keep_early_vote
  keep_early_vote-early term vote from e v h =
      elim (Bool-cases (leb term e.term || ltb term e.early_term)) [
        | inl x ↦ rw x h
        | inr x ↦ elim (Bool-cases (ltb e.early_term term)) [
          | inl y ↦ ground (arith, x, y, v)
          | inr y ↦
              let same : e.early_term ≡ term = ground (arith, x, y) in
              rw (x, y)
                (all-put_entry (is_vote e.early_term) from vote e.early_votes h
                  (ap (λ t. is_vote t (from, vote)) same ∙ v))
        ]
      ]

  own_drawn :
      (term : ℕ) (a : Str)
      → contains vs a ≡ true
      → all (is_vote term) ((a, vote_of vs draw term a) ∷ []) ≡ true
  unfolding is_drawn
  own_drawn term a h = ground (arith, h)

  distinct_one : (a : Str) (v : ℕ) → distinct ((a, v) ∷ []) ≡ true
  unfolding distinct
  distinct_one a v = refl

  pub from_drawn :
      (term sent : ℕ) (from : Str)
      → contains vs from ≡ true
      → sent ≡ vote_of vs draw term from
      → is_vote term (from, uint32 sent) ≡ true
  unfolding is_drawn
  from_drawn term sent from h e = ground (arith, h, e)

  module _ (several : 1 < length vs) where
    pub begin_election-Keeps :
        (m : ElectionManager) (e : LeaderElection) (zones : List Str)
        → e.term + 1 < two_64
        → contains vs m.local_id ≡ true
        → Sound vs draw e
        → Keeps vs draw m.local_id e
            (begin_election m e vs zones (vote_of vs draw (e.term + 1) m.local_id))
    unfolding begin_election take_early_votes entry_of messages spawns send honest distinct is_drawn
    begin_election-Keeps m e [] t h k = ground (arith, h, k, several, next_term_lem e t)
    begin_election-Keeps m e (z ∷ zones) t h k = ground (arith, h, k, several, next_term_lem e t)

    -- The votes that a member has when it joins: its own and the caller's.
    abbrev first_votes : ElectionManager → Str → ℕ → ℕ → List (Str × ℕ)
    first_votes m from sent vote =
        if uint32 sent == 0
        then (m.local_id, vote) ∷ []
        else put from (uint32 sent) ((m.local_id, vote) ∷ [])

    first_votes-is_drawn :
        (m : ElectionManager) (from : Str) (term sent : ℕ)
        → contains vs m.local_id ≡ true
        → is_vote term (from, uint32 sent) ≡ true
        → (all (is_vote term) (first_votes m from sent (vote_of vs draw term m.local_id)) ≡ true)
          × (distinct (first_votes m from sent (vote_of vs draw term m.local_id)) ≡ true)
    first_votes-is_drawn m from term sent h v =
        let own : List (Str × ℕ) = (m.local_id, vote_of vs draw term m.local_id) ∷ [] in
        let drawn : all (is_vote term) own ≡ true = own_drawn term m.local_id h in
        (
          ground (arith, drawn, all-put_entry (is_vote term) from (uint32 sent) own drawn v),
          ground (
            arith,
            distinct_one m.local_id (vote_of vs draw term m.local_id),
            distinct-put from (uint32 sent) own
                (distinct_one m.local_id (vote_of vs draw term m.local_id)),
          ),
        )

    -- A member that has joined the term, with these votes.
    joined-Keeps :
        (m : ElectionManager) (e f : LeaderElection) (term : ℕ) (zones : List Str)
        → contains vs m.local_id ≡ true
        → e.term < term
        → f.term ≡ term
        → Sound vs draw f
        → Keeps vs draw m.local_id e (
          with_entry m (record f {
            vote_timer = if leb (f.expected_peers + 1) (length f.votes) then none else some term;
          }),
          send zones (elect_vote term (vote_of vs draw term m.local_id))
              ++ (if leb (f.expected_peers + 1) (length f.votes) then determine term ∷ [] else []),
        )
    unfolding send entry_of messages spawns honest spawn_fits
    joined-Keeps m e f term [] h t k s =
        elim (Bool-cases (leb (f.expected_peers + 1) (length f.votes))) [
          | inl x ↦ ground (arith, x, h, t, k, s)
          | inr x ↦ ground (arith, x, h, t, k, s)
        ]
    joined-Keeps m e f term (z ∷ zones) h t k s =
        elim (Bool-cases (leb (f.expected_peers + 1) (length f.votes))) [
          | inl x ↦ ground (arith, x, h, t, k, s)
          | inr x ↦ ground (arith, x, h, t, k, s)
        ]

    pub join_call-Keeps :
        (m : ElectionManager) (e : LeaderElection) (from : Str) (term sent : ℕ) (zones : List Str)
        → contains vs m.local_id ≡ true
        → contains vs from ≡ true
        → sent ≡ vote_of vs draw term from
        → e.term < term
        → term < two_64
        → Sound vs draw e
        → Keeps vs draw m.local_id e
            (join_call m e from term sent vs zones (vote_of vs draw term m.local_id))
    unfolding join_call take_early_votes
    join_call-Keeps m e from term sent zones h k v t u s =
        let vote = vote_of vs draw term m.local_id in
        let first = first_votes-is_drawn m from term sent h (from_drawn term sent from k v) in
        let started = record e {
          active = true;
          start_zones = zones;
          term = term;
          my_vote = vote;
          votes = first_votes m from sent vote;
          confirms = [];
          expected_peers = length vs - 1;
        } in
        let drawn = take_early_votes-is_drawn term started first.0 s.early in
        let apart = take_early_votes-distinct term started first.1 in
        let early = take_early_votes-early term true started s.early in
        joined-Keeps m e (take_early_votes term true started) term zones h t (ground arith)
          (ground (arith, drawn, apart, early, s, several, u))
