-- ===== src/KeyRounds/Once.antt =====
-- When a round's decision starts, and what an answer to an earlier round does.
use mathlib.Core.Option.{some-injective, none, some}
use tdns_mp.Prelude.{
  ==_iff, Bool-cases, Option-cases, Str, all, all-put, ap, arith, false, inl, inr, is_some, length,
  lookup, lookup-put, ltb, put, sym, true, ℕ, ◌+◌, ◌==◌, ◌||◌, ◌∙◌, ◌≡◌, ◌≤◌,
}
use tdns_mp.Names.{Names}
use tdns_mp.KeyRounds.Model.{KeyReply, KeyRound, at_serial}
use tdns_mp.KeyRounds.Tracker.{
  KeyDecision, KeyReq, KeyTracker, decide_stored, key_check, key_decision, key_record, key_restart,
  restart_round,
}
use tdns_mp.KeyRounds.Kept.{at_serial-counted, counted, sound_read, sound_round}
use tdns_mp.KeyRounds.Decided.{Later, Later-settled, gen_le}
use tdns_mp.KeyRounds.Sound.{Reached, Reached-sound_tracker}

abbrev captured : Str → KeyRound → KeyDecision
captured zone r = record {
  zone = zone;
  gen = r.gen;
  serial = r.serial;
  known = r.known;
  answers = r.answers;
}

key_decision_open :
    (zone : Str) (r : KeyRound)
    → r.decided || ltb (length r.answers) (length r.asked) ≡ false
    → some (captured zone r) ≡ (key_decision zone r).1
unfolding key_decision
key_decision_open zone r h = ground (arith, h)

key_decision-started :
    (zone : Str) (r : KeyRound) (d : KeyDecision)
    → (key_decision zone r).1 ≡ some d
    → (captured zone r ≡ d) × (length r.asked ≤ length r.answers)
unfolding key_decision
key_decision-started zone r d e =
    elim (Bool-cases (r.decided || ltb (length r.answers) (length r.asked))) [
      | inl x ↦ ground (arith, e, x)
      | inr x ↦
          (some-injective (captured zone r) d (key_decision_open zone r x ∙ e), ground (arith, x))
    ]

key_decision-decided :
    (zone : Str) (r : KeyRound) (d : KeyDecision)
    → (key_decision zone r).1 ≡ some d
    → (key_decision zone r).0.decided ≡ true
unfolding key_decision
key_decision-decided zone r d e = ground (arith, e)

-- A decided round decides nothing more.
key_record_decided :
    (t : KeyTracker) (req : KeyReq) (a : KeyReply) (r : KeyRound)
    → lookup req.zone t.key_wanted ≡ some r
    → r.decided ≡ true
    → (key_record t req a).1 ≡ none
unfolding key_record decide_stored key_decision
key_record_decided t req a r e h = ground (arith, e, h)

key_record-stored :
    (t : KeyTracker) (req : KeyReq) (a : KeyReply) (r : KeyRound)
    → lookup req.zone t.key_wanted ≡ some r
    → (r.gen == req.gen) ≡ true
    → lookup req.zone (key_record t req a).0.key_wanted
      ≡ some
          (key_decision req.zone (record r { answers = put req.peer (at_serial r a) r.answers })).0
unfolding key_record decide_stored
key_record-stored t req a r e h =
    let s = record r { answers = put req.peer (at_serial r a) r.answers } in
    ground (arith, e, h, lookup-put req.zone (key_decision req.zone s).0 t.key_wanted)

-- A decided round of a generation decides nothing more at an answer to it.
key_record_settled :
    (t : KeyTracker) (req : KeyReq) (a : KeyReply)
    → ((u : KeyRound)
        → lookup req.zone t.key_wanted ≡ some u
        → (u.gen == req.gen) ≡ true
        → u.decided ≡ true)
    → (key_record t req a).1 ≡ none
unfolding key_record
key_record_settled t req a h = elim (Option-cases (lookup req.zone t.key_wanted)) [
  | inl e ↦ ground (arith, e)
  | inr (r, e) ↦ elim (Bool-cases (r.gen == req.gen)) [
    | inr x ↦ ground (arith, e, x)
    | inl x ↦ unfold key_record in key_record_decided t req a r e (h r e x)
  ]
]

key_record_started :
    (t : KeyTracker) (req : KeyReq) (a : KeyReply) (d : KeyDecision)
    → (key_record t req a).1 ≡ some d
    → (r : KeyRound) × (lookup req.zone t.key_wanted ≡ some r) × ((r.gen == req.gen) ≡ true)
unfolding key_record
key_record_started t req a d h = elim (Option-cases (lookup req.zone t.key_wanted)) [
  | inl e ↦ absurd (ground (arith, e, h))
  | inr (r, e) ↦ (
    r,
    e,
    elim (Bool-cases (r.gen == req.gen)) [ inl x ↦ x | inr x ↦ absurd (ground (arith, e, x, h)) ],
  )
]

key_record-gen :
    (t : KeyTracker) (req : KeyReq) (a : KeyReply) → (key_record t req a).0.key_gen ≡ t.key_gen
unfolding key_record decide_stored
key_record-gen t req a = ground (arith, Option-cases (lookup req.zone t.key_wanted))

key_decision-gen : (zone : Str) (r : KeyRound) → (key_decision zone r).0.gen ≡ r.gen
unfolding key_decision
key_decision-gen zone r = ground arith

-- A decision that an answer starts is that of the request's own round; each of its answers that is
-- a key, or "no key here", was told under the round's active serial. And whatever operations the
-- tracker sees later, no answer to a request of that round starts a decision, and the counter, from
-- which a new round takes the next generation, is not below the round's.
pub key_record-once :
    (n : Names) (t u : KeyTracker) (req : KeyReq) (a : KeyReply) (d : KeyDecision) (peer : Str)
    (b : KeyReply)
    → Reached n t
    → (key_record t req a).1 ≡ some d
    → Later n (key_record t req a).0 u
    → (d.gen ≡ req.gen)
      × (all (λ e. counted d.known d.serial e.1) d.answers ≡ true)
      × ((key_record u (record { zone = req.zone; peer = peer; gen = req.gen }) b).1 ≡ none)
      × (req.gen ≤ u.key_gen)
unfolding sound_round
key_record-once n t u req a d peer b reached h later =
    let (r, e, x) = key_record_started t req a d h in
    let s = record r { answers = put req.peer (at_serial r a) r.answers } in
    let started : (key_decision req.zone s).1 ≡ some d =
      unfold key_record decide_stored in ground (arith, e, x, h) in
    let c = key_decision-started req.zone s d started in
    let stored = (key_decision req.zone s).0 in
    let same : stored.gen ≡ req.gen = key_decision-gen req.zone s ∙ (==_iff r.gen req.gen).0 x in
    let le = gen_le n t req.zone r reached e in
    let first = (key_record t req a).0 in
    let settled =
      Later-settled n first u req.zone stored
        (omega (arith, le, key_record-gen t req a, key_decision-gen req.zone s))
        (key_record-stored t req a r e x) (key_decision-decided req.zone s d started) later in
    (
      ap (λ y. y.gen) (sym c.0) ∙ (==_iff r.gen req.gen).0 x,
      ap (λ y. all (λ k. counted y.known y.serial k.1) y.answers) (sym c.0)
          ∙ all-put (counted r.known r.serial) req.peer (at_serial r a) r.answers
              (sound_read t req.zone r (Reached-sound_tracker n t reached) e)
              (at_serial-counted r a),
      key_record_settled u (record { zone = req.zone; peer = peer; gen = req.gen }) b
          (λ v f y. settled.1 v f (ground (arith, same, y))),
      omega (arith, settled.0, same),
    )

-- When the voting members changed, a round starts over: an answer to any request that was sent
-- before changes nothing, and starts no decision.
pub key_restart-key_record :
    (n : Names) (t : KeyTracker) (zone : Str) (now : ℕ) (peer : Str) (gen : ℕ) (a : KeyReply)
    → gen ≤ t.key_gen
    → is_some (lookup (n.fqdn zone) t.key_wanted) ≡ true
    → let u = key_restart n t zone now in
      key_record u (record { zone = n.fqdn zone; peer = peer; gen = gen }) a ≡ (u, none)
unfolding key_restart key_check key_record restart_round
key_restart-key_record n t zone now peer gen a h k =
    elim (Option-cases (lookup (n.fqdn zone) t.key_wanted)) [
      | inl e ↦ ground (arith, e, k)
      | inr (r, e) ↦
          ground (
            arith,
            e,
            h,
            lookup-put (n.fqdn zone) (restart_round r (t.key_gen + 1) now) t.key_wanted,
          )
    ]
