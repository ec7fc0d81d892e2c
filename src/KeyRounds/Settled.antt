-- ===== src/KeyRounds/Settled.antt =====
-- What stays true of a zone's round through every operation of the tracker: a property of its
-- generation and of whether it is decided.
use tdns_mp.Prelude.{
  Bool, Bool-cases, List, Option, Option-cases, Str, arith, delete, false, if◌then◌else◌, inl, inr,
  lookup, lookup-delete, lookup-delete_other, lookup-put, lookup-put_other, none, put, refl, some,
  str_eq, str_eq→eq, true, ℕ, ◌+◌, ◌∙◌, ◌≡◌, ◌≤◌, ◌⊎◌,
}
use tdns_mp.Names.{Names}
use tdns_mp.Gossip.Model.{SerialDigest}
use tdns_mp.KeyRounds.Model.{KeyReply, KeyRound, at_serial, new_round}
use tdns_mp.KeyRounds.Tracker.{
  KeyReq, KeyTracker, check_zone, decide_stored, drop_unwanted, key_ask_now, key_check,
  key_decision, key_record, key_restart, key_round_ended, restart_round, round_delay,
  start_key_round, started_round,
}

module _ (P : ℕ → ℕ → Bool → Bool) where
  unfoldable pub keeps_in : ℕ → Option KeyRound → Bool
  keeps_in k none = true
  keeps_in k (some r) = P k r.gen r.decided

  abbrev pub Keeps : ℕ → Str → KeyTracker → Type 0
  Keeps low own t = (low ≤ t.key_gen) × (keeps_in t.key_gen (lookup own t.key_wanted) ≡ true)

-- `P` is asked of the tracker's counter, the round's generation and whether it is decided. It holds of
-- a round that has just taken the next generation, and stays when the counter goes up and when the
-- round is decided.
module _ (low : ℕ) (P : ℕ → ℕ → Bool → Bool)
    (fresh : (k : ℕ) (d : Bool) → low ≤ k → P (k + 1) (k + 1) d ≡ true)
    (raised : (k g : ℕ) (d : Bool) → P k g d ≡ true → P (k + 1) g d ≡ true)
    (decides : (k g : ℕ) (d : Bool) → P k g d ≡ true → P k g true ≡ true) where
  keeps_in-raised :
      (k : ℕ) (o : Option KeyRound) → keeps_in P k o ≡ true → keeps_in P (k + 1) o ≡ true
  unfolding keeps_in
  keeps_in-raised k none h = refl
  keeps_in-raised k (some r) h = raised k r.gen r.decided h

  keeps_in-put :
      (own zone : Str) (k : ℕ) (r : KeyRound) (m : List (Str × KeyRound))
      → keeps_in P k (lookup own m) ≡ true
      → (str_eq own zone ≡ false) ⊎ (P k r.gen r.decided ≡ true)
      → keeps_in P k (lookup own (put zone r m)) ≡ true
  unfolding keeps_in
  keeps_in-put own zone k r m h (inl x) = rw (lookup-put_other own zone r m x) h
  keeps_in-put own zone k r m h (inr p) = elim (Bool-cases (str_eq own zone)) [
    | inl x ↦ rw (str_eq→eq own zone x) (rw (lookup-put zone r m) p)
    | inr x ↦ rw (lookup-put_other own zone r m x) h
  ]

  keeps_in-delete :
      (own zone : Str) (k : ℕ) (m : List (Str × KeyRound))
      → keeps_in P k (lookup own m) ≡ true
      → keeps_in P k (lookup own (delete zone m)) ≡ true
  unfolding keeps_in
  keeps_in-delete own zone k m h = elim (Bool-cases (str_eq own zone)) [
    | inl x ↦ rw (str_eq→eq own zone x) (rw (lookup-delete zone m) refl)
    | inr x ↦ rw (lookup-delete_other own zone m x) h
  ]

  -- The round that is stored under a zone, seen from the zone that is watched.
  keeps_in-read :
      (own zone : Str) (k : ℕ) (r : KeyRound) (m : List (Str × KeyRound))
      → keeps_in P k (lookup own m) ≡ true
      → lookup zone m ≡ some r
      → (str_eq own zone ≡ false) ⊎ (P k r.gen r.decided ≡ true)
  unfolding keeps_in
  keeps_in-read own zone k r m h e = elim (Bool-cases (str_eq own zone)) [
    | inl x ↦ inr (ground (arith, str_eq→eq own zone x, h, e))
    | inr x ↦ inl x
  ]

  -- Storing a round with the generation of the one that was stored, as decided or more.
  keeps_in-same :
      (own zone : Str) (k : ℕ) (r s : KeyRound) (m : List (Str × KeyRound))
      → keeps_in P k (lookup own m) ≡ true
      → lookup zone m ≡ some r
      → s.gen ≡ r.gen
      → (s.decided ≡ r.decided) ⊎ (s.decided ≡ true)
      → keeps_in P k (lookup own (put zone s m)) ≡ true
  keeps_in-same own zone k r s m h e g (inl d) =
      keeps_in-put own zone k s m h
        (elim (keeps_in-read own zone k r m h e) [ inl x ↦ inl x | inr p ↦ inr (rw g (rw d p)) ])
  keeps_in-same own zone k r s m h e g (inr d) =
      keeps_in-put own zone k s m h (elim (keeps_in-read own zone k r m h e) [
        | inl x ↦ inl x
        | inr p ↦ inr (rw g (rw d (decides k r.gen r.decided p)))
      ])

  -- Storing a round of the next generation.
  keeps_in-fresh :
      (own zone : Str) (t : KeyTracker) (s : KeyRound)
      → Keeps P low own t
      → s.gen ≡ t.key_gen + 1
      → keeps_in P (t.key_gen + 1) (lookup own (put zone s t.key_wanted)) ≡ true
  keeps_in-fresh own zone t s h g =
      keeps_in-put own zone (t.key_gen + 1) s t.key_wanted
        (keeps_in-raised t.key_gen (lookup own t.key_wanted) h.1)
        (inr (rw g (fresh t.key_gen s.decided h.0)))

  decision_cases :
      (zone : Str) (r : KeyRound)
      → ((key_decision zone r).0.gen ≡ r.gen)
        × (((key_decision zone r).0.decided ≡ r.decided) ⊎ ((key_decision zone r).0.decided ≡ true))
  unfolding key_decision
  decision_cases zone r = ground arith

  pub Keeps-key_restart :
      (n : Names) (own : Str) (t : KeyTracker) (zone : Str) (now : ℕ)
      → Keeps P low own t
      → Keeps P low own (key_restart n t zone now)
  unfolding key_restart key_check restart_round
  Keeps-key_restart n own t zone now h = elim (Option-cases (lookup (n.fqdn zone) t.key_wanted)) [
    | inl e ↦ ground (arith, e, h)
    | inr (r, e) ↦
        let new_ =
          keeps_in-fresh own (n.fqdn zone) t (restart_round r (t.key_gen + 1) now) h
            (unfold restart_round in refl) in
        ground (arith, e, h, new_)
  ]

  pub Keeps-key_ask_now :
      (own : Str) (t : KeyTracker) (zone : Str) (now : ℕ)
      → Keeps P low own t
      → Keeps P low own (key_ask_now t zone now)
  unfolding key_ask_now
  Keeps-key_ask_now own t zone now h = elim (Option-cases (lookup zone t.key_wanted)) [
    | inl e ↦ ground (arith, e, h)
    | inr (r, e) ↦
        let same = λ (s : KeyRound) (g : s.gen ≡ r.gen) (d : s.decided ≡ r.decided).
          keeps_in-same own zone t.key_gen r s t.key_wanted h.1 e g (inl d) in
        let asked = same (record r { recheck = true }) refl refl in
        let due = same (record r { next = now }) refl refl in ground (arith, e, h, asked, due)
  ]

  pub Keeps-drop_unwanted :
      (own : Str) (t : KeyTracker) (zone : Str)
      → Keeps P low own t
      → Keeps P low own (drop_unwanted t zone)
  unfolding drop_unwanted
  Keeps-drop_unwanted own t zone h = (h.0, keeps_in-delete own zone t.key_gen t.key_wanted h.1)

  pub Keeps-check_zone :
      (own : Str) (t : KeyTracker) (zone : Str) (wants : Bool) (now : ℕ)
      → Keeps P low own t
      → Keeps P low own (check_zone t zone wants now).0
  unfolding check_zone
  Keeps-check_zone own t zone wants now h = elim (Option-cases (lookup zone t.key_wanted)) [
    | inl e ↦
        let new_ = keeps_in-fresh own zone t (new_round (t.key_gen + 1) now) h refl in
        ground (arith, e, h, new_)
    | inr (r, e) ↦
        let same = λ (s : KeyRound) (g : s.gen ≡ r.gen) (d : s.decided ≡ r.decided).
          keeps_in-same own zone t.key_gen r s t.key_wanted h.1 e g (inl d) in
        let asked = same (record r { recheck = true }) refl refl in
        let due = same (record r { next = now }) refl refl in
        let gone = keeps_in-delete own zone t.key_gen t.key_wanted h.1 in
        ground (arith, e, h, asked, due, gone)
  ]

  pub Keeps-start_key_round :
      (own : Str) (t : KeyTracker) (zone : Str) (is_up : Str → Bool) (peers : List Str)
      (serial : SerialDigest) (known : Bool)
      → Keeps P low own t
      → Keeps P low own (start_key_round t zone is_up peers serial known).0
  unfolding start_key_round decide_stored
  Keeps-start_key_round own t zone is_up peers serial known h =
      elim (Option-cases (lookup zone t.key_wanted)) [
        | inl e ↦ ground (arith, e, h)
        | inr (r, e) ↦
            let s = started_round r (t.key_gen + 1) is_up peers serial known in
            let g : (key_decision zone s).0.gen ≡ t.key_gen + 1 =
              (decision_cases zone s).0 ∙ (unfold started_round in refl) in
            let new_ = keeps_in-fresh own zone t (key_decision zone s).0 h g in
            ground (arith, e, h, new_)
      ]

  pub Keeps-key_record :
      (own : Str) (t : KeyTracker) (req : KeyReq) (a : KeyReply)
      → Keeps P low own t
      → Keeps P low own (key_record t req a).0
  unfolding key_record decide_stored
  Keeps-key_record own t req a h = elim (Option-cases (lookup req.zone t.key_wanted)) [
    | inl e ↦ ground (arith, e, h)
    | inr (r, e) ↦
        let s = record r { answers = put req.peer (at_serial r a) r.answers } in
        let c = decision_cases req.zone s in
        let stored =
          keeps_in-same own req.zone t.key_gen r (key_decision req.zone s).0 t.key_wanted h.1 e c.0
            c.1 in
        ground (arith, e, h, stored)
  ]

  pub Keeps-key_round_ended :
      (own : Str) (t : KeyTracker) (zone : Str) (gen : ℕ) (done : Bool) (now : ℕ)
      → Keeps P low own t
      → Keeps P low own (key_round_ended t zone gen done now)
  unfolding key_round_ended
  Keeps-key_round_ended own t zone gen done now h = elim (Option-cases (lookup zone t.key_wanted)) [
    | inl e ↦ ground (arith, e, h)
    | inr (r, e) ↦
        let next = record r {
          rounds = r.rounds + 1;
          recheck = false;
          out = false;
          next = now + (if r.recheck then 0 else round_delay r.rounds);
        } in
        let gone = keeps_in-delete own zone t.key_gen t.key_wanted h.1 in
        let stored = keeps_in-same own zone t.key_gen r next t.key_wanted h.1 e refl (inl refl) in
        ground (arith, e, h, gone, stored)
  ]
