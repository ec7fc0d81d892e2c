-- ===== src/Instructions/Distinct.antt =====
-- No two readings, and no two make-ups of a group, write the same octets.
use tdns_mp.Prelude.{
  All, List, Str, [], ap, arith, contains, contains-sorted_unique, length, refl, sorted_unique,
  sorted_unique-ext, sym, ℕ, ◌↔◌, ◌∙◌, ◌∷◌, ◌≡◌,
}
use tdns_mp.Instructions.Model.{InstrRecord, Instructions}
use tdns_mp.Instructions.Encoding.{
  Bytes, IsEncodable, ListFits, RecordFits, SameReading, digest_bytes, group_bytes, write_bool-inj,
  write_list, write_records, write_string, write_string-inj, write_strings, write_strings-inj,
  write_u16, write_u16-inj,
}

cons-inj : (x y : ℕ) (r s : Bytes) → ◌≡◌ {A = Bytes} (x ∷ r) (y ∷ s) → (x ≡ y) × (r ≡ s)
cons-inj x y r s e = ground arith

write_list-inj :
    (t : ℕ) (xs ys : List Str) (r s : Bytes)
    → ListFits xs
    → ListFits ys
    → write_list t xs r ≡ write_list t ys s
    → (xs ≡ ys) × (r ≡ s)
write_list-inj t xs ys r s hx hy e =
    let body =
      (cons-inj t t (write_u16 (length xs) (write_strings xs r))
        (write_u16 (length ys) (write_strings ys s)) (unfold write_list in e)).1 in
    let sizes =
      write_u16-inj (length xs) (length ys) (write_strings xs r) (write_strings ys s) hx.0 hy.0
        body in
    write_strings-inj xs ys r s hx.1 hy.1 sizes.0 sizes.1

record_eq :
    (q r : InstrRecord)
    → q.label ≡ r.label
    → q.identity ≡ r.identity
    → q.upstream ≡ r.upstream
    → q ≡ r
record_eq q r a b c = cc

write_record-inj :
    (q r : InstrRecord) (a b : Bytes)
    → RecordFits q
    → RecordFits r
    → write_string q.label (write_string q.identity (write_string q.upstream a))
      ≡ write_string r.label (write_string r.identity (write_string r.upstream b))
    → (q ≡ r) × (a ≡ b)
write_record-inj q r a b hq hr e =
    let l = write_string-inj q.label r.label _ _ hq.0 hr.0 e in
    let i = write_string-inj q.identity r.identity _ _ hq.1 hr.1 l.1 in
    let u = write_string-inj q.upstream r.upstream a b hq.2 hr.2 i.1 in
    (record_eq q r l.0 i.0 u.0, u.1)

write_records-inj :
    (qs rs : List InstrRecord) (a b : Bytes)
    → All RecordFits qs
    → All RecordFits rs
    → length qs ≡ length rs
    → write_records qs a ≡ write_records rs b
    → (qs ≡ rs) × (a ≡ b)
unfolding write_records
write_records-inj [] [] a b hq hr h e = (refl, e)
write_records-inj [] (r ∷ rs) a b hq hr h e = absurd (omega (arith, h))
write_records-inj (q ∷ qs) [] a b hq hr h e = absurd (omega (arith, h))
write_records-inj (q ∷ qs) (r ∷ rs) a b hq hr h e =
    let first = write_record-inj q r (write_records qs a) (write_records rs b) hq.0 hr.0 e in
    let rest = write_records-inj qs rs a b hq.1 hr.1 (omega (arith, h)) first.1 in
    (cc (first.0, rest.0), rest.1)

-- Two readings whose strings and lists are shorter than 2^16 write the same octets for the digest
-- exactly when they agree in every field but the serial.
pub digest_bytes-SameReading :
    (i j : Instructions)
    → IsEncodable i
    → IsEncodable j
    → (digest_bytes i ≡ digest_bytes j) ↔ SameReading i j
unfolding digest_bytes
digest_bytes-SameReading i j hi hj = (
  λ e.
      let p = write_bool-inj b'p' i.has_param j.has_param _ _ (cons-inj _ _ _ _ e).1 in
      let n =
        write_u16-inj (length i.records) (length j.records) _ _ hi.records.0 hj.records.0
          (cons-inj _ _ _ _ p.1).1 in
      let r = write_records-inj i.records j.records _ _ hi.records.1 hj.records.1 n.0 n.1 in
      let o = write_list-inj b'o' i.off j.off _ _ hi.off hj.off r.1 in
      let s = write_list-inj b's' i.servers j.servers _ _ hi.servers hj.servers o.1 in
      let g = write_list-inj b'g' i.signers j.signers _ _ hi.signers hj.signers s.1 in
      let a = write_list-inj b'a' i.auditors j.auditors _ _ hi.auditors hj.auditors g.1 in
      let m = cons-inj _ _ _ _ (cons-inj _ _ _ _ a.1).1 in
      let y = cons-inj _ _ _ _ (cons-inj _ _ _ _ m.1).1 in
      let x = write_string-inj i.suffix j.suffix _ _ hi.suffix hj.suffix (cons-inj _ _ _ _ y.1).1 in
      let k = write_bool-inj b'k' i.pubkey j.pubkey _ _ x.1 in
      let c = write_bool-inj b'c' i.pubcds j.pubcds _ _ k.1 in
      record {
        has_param = p.0;
        records = r.0;
        off = o.0;
        servers = s.0;
        signers = g.0;
        auditors = a.0;
        nsmgmt = m.0;
        parent_sync = y.0;
        suffix = x.0;
        pubkey = k.0;
        pubcds = c.0;
      },
  λ h. cc (
    h.has_param, h.records, h.off, h.servers, h.signers, h.auditors, h.nsmgmt, h.parent_sync,
    h.suffix, h.pubkey, h.pubcds,
  ),
)

-- Whether two lists have the same members.
abbrev pub SameMembers : List Str → List Str → Type 0
SameMembers xs ys = (a : Str) → contains xs a ≡ contains ys a

sorted_unique-SameMembers :
    (xs ys : List Str) → (sorted_unique xs ≡ sorted_unique ys) ↔ SameMembers xs ys
sorted_unique-SameMembers xs ys = (
  λ e a.
      sym (contains-sorted_unique xs a) ∙ (ap (λ l. contains l a) e ∙ contains-sorted_unique ys a),
  sorted_unique-ext xs ys,
)

-- Two make-ups of a group whose lists, once sorted, fit in the lengths write the same octets
-- for the group's hash exactly when they have the same voters, the same auditors and the same
-- members with no role: the order in which they are listed, and repetitions, do not count, and a
-- member moved from one list to another does.
pub group_bytes-SameMembers :
    (v a n w b m : List Str)
    → ListFits (sorted_unique v) × ListFits (sorted_unique a) × ListFits (sorted_unique n)
    → ListFits (sorted_unique w) × ListFits (sorted_unique b) × ListFits (sorted_unique m)
    → (group_bytes v a n ≡ group_bytes w b m)
      ↔ (SameMembers v w × SameMembers a b × SameMembers n m)
unfolding group_bytes
group_bytes-SameMembers v a n w b m h k = (
  λ e.
      let x = write_list-inj b'v' (sorted_unique v) (sorted_unique w) _ _ h.0 k.0 e in
      let y = write_list-inj b'a' (sorted_unique a) (sorted_unique b) _ _ h.1 k.1 x.1 in
      let z = write_list-inj b'n' (sorted_unique n) (sorted_unique m) [] [] h.2 k.2 y.1 in
      (
        (sorted_unique-SameMembers v w).0 x.0,
        (sorted_unique-SameMembers a b).0 y.0,
        (sorted_unique-SameMembers n m).0 z.0,
      ),
  λ s. cc (
    (sorted_unique-SameMembers v w).1 s.0,
    (sorted_unique-SameMembers a b).1 s.1,
    (sorted_unique-SameMembers n m).1 s.2,
  ),
)
