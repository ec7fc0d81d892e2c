-- ===== src/Instructions/Encoding.antt =====
-- The octets that Digest and ComputeGroupHash hash. Each writer puts its octets before those that
-- are written after it. The hash itself, SHA-256 in hex cut to 16 digits, is a parameter where it is
-- used.
use tdns_mp.Prelude.{
  All, Bool, List, Str, [], arith, if◌then◌else◌, length, refl, sorted_unique, true, ℕ, ◌%◌, ◌++◌,
  ◌/◌, ◌<◌, ◌∷◌, ◌≡◌,
}
use tdns_mp.Instructions.Model.{InstrRecord, Instructions}

abbrev pub Bytes : Type 0
Bytes = List ℕ

-- binary.Write of a uint16: `uint16(n)` in big endian.
unfoldable pub write_u16 : ℕ → Bytes → Bytes
write_u16 n rest = (n / 256 % 256) ∷ (n % 256) ∷ rest

unfoldable pub write_string : Str → Bytes → Bytes
unfolding write_u16
write_string s rest = write_u16 (length s) (s ++ rest)

unfoldable pub write_bool : ℕ → Bool → Bytes → Bytes
write_bool tag b rest = tag ∷ (if b then 1 else 0) ∷ rest

-- The loop over a list's items.
unfoldable pub write_strings : List Str → Bytes → Bytes
unfolding write_string
write_strings [] rest = rest
write_strings (s ∷ ss) rest = write_string s (write_strings ss rest)

unfoldable pub write_list : ℕ → List Str → Bytes → Bytes
unfolding write_strings
write_list tag ss rest = tag ∷ write_u16 (length ss) (write_strings ss rest)

unfoldable pub write_records : List InstrRecord → Bytes → Bytes
unfolding write_string
write_records [] rest = rest
write_records (r ∷ rs) rest =
    write_string r.label (write_string r.identity (write_string r.upstream (write_records rs rest)))

abbrev digest_version : ℕ
digest_version = 1

unfoldable pub digest_bytes : Instructions → Bytes
unfolding write_bool write_list write_records
digest_bytes i =
    digest_version
    ∷ write_bool b'p' i.has_param (
        b'r'
        ∷ write_u16 (length i.records) (
            write_records i.records (
              write_list b'o' i.off (
                write_list b's' i.servers (
                  write_list b'g' i.signers (
                    write_list b'a' i.auditors (
                      b'n'
                      ∷ i.nsmgmt
                      ∷ b'y'
                      ∷ i.parent_sync
                      ∷ b'x'
                      ∷ write_string i.suffix
                          (write_bool b'k' i.pubkey (write_bool b'c' i.pubcds [])))))))))

unfoldable pub group_bytes : List Str → List Str → List Str → Bytes
unfolding write_list
group_bytes voting auditors no_role =
    write_list b'v' (sorted_unique voting)
      (write_list b'a' (sorted_unique auditors) (write_list b'n' (sorted_unique no_role) []))

-- What fits in the lengths' 16 bits.
abbrev pub Fits : Str → Type 0
Fits s = length s < 65536

abbrev pub ListFits : List Str → Type 0
ListFits ss = (length ss < 65536) × All Fits ss

abbrev pub RecordFits : InstrRecord → Type 0
RecordFits r = Fits r.label × Fits r.identity × Fits r.upstream

pub record IsEncodable (i : Instructions) : Type 0 where
  pub records : (length i.records < 65536) × All RecordFits i.records
  pub off : ListFits i.off
  pub servers : ListFits i.servers
  pub signers : ListFits i.signers
  pub auditors : ListFits i.auditors
  pub suffix : Fits i.suffix

-- The same reading but for the serial.
pub record SameReading (i j : Instructions) : Type 0 where
  pub has_param : i.has_param ≡ j.has_param
  pub records : i.records ≡ j.records
  pub off : i.off ≡ j.off
  pub servers : i.servers ≡ j.servers
  pub signers : i.signers ≡ j.signers
  pub auditors : i.auditors ≡ j.auditors
  pub nsmgmt : i.nsmgmt ≡ j.nsmgmt
  pub parent_sync : i.parent_sync ≡ j.parent_sync
  pub suffix : i.suffix ≡ j.suffix
  pub pubkey : i.pubkey ≡ j.pubkey
  pub pubcds : i.pubcds ≡ j.pubcds

pub write_u16-inj :
    (m n : ℕ) (r s : Bytes)
    → m < 65536
    → n < 65536
    → write_u16 m r ≡ write_u16 n s
    → (m ≡ n) × (r ≡ s)
unfolding write_u16
write_u16-inj m n r s hm hn e = ground arith

append-inj : (a b r s : Bytes) → length a ≡ length b → a ++ r ≡ b ++ s → (a ≡ b) × (r ≡ s)
append-inj [] [] r s h e = (refl, e)
append-inj [] (y ∷ b) r s h e = absurd (omega (arith, h))
append-inj (x ∷ a) [] r s h e = absurd (omega (arith, h))
append-inj (x ∷ a) (y ∷ b) r s h e = ground (arith, append-inj a b r s)

pub write_string-inj :
    (a b : Str) (r s : Bytes)
    → Fits a
    → Fits b
    → write_string a r ≡ write_string b s
    → (a ≡ b) × (r ≡ s)
write_string-inj a b r s ha hb e =
    let h =
      write_u16-inj (length a) (length b) (a ++ r) (b ++ s) ha hb (unfold write_string in e) in
    append-inj a b r s h.0 h.1

pub write_bool-inj :
    (t : ℕ) (a b : Bool) (r s : Bytes) → write_bool t a r ≡ write_bool t b s → (a ≡ b) × (r ≡ s)
unfolding write_bool
write_bool-inj t true true r s e = ground arith
write_bool-inj t a b r s e = ground arith

pub write_strings-inj :
    (xs ys : List Str) (r s : Bytes)
    → All Fits xs
    → All Fits ys
    → length xs ≡ length ys
    → write_strings xs r ≡ write_strings ys s
    → (xs ≡ ys) × (r ≡ s)
unfolding write_strings
write_strings-inj [] [] r s hx hy h e = (refl, e)
write_strings-inj [] (y ∷ ys) r s hx hy h e = absurd (omega (arith, h))
write_strings-inj (x ∷ xs) [] r s hx hy h e = absurd (omega (arith, h))
write_strings-inj (x ∷ xs) (y ∷ ys) r s hx hy h e =
    let first = write_string-inj x y (write_strings xs r) (write_strings ys s) hx.0 hy.0 e in
    let rest = write_strings-inj xs ys r s hx.1 hy.1 (omega (arith, h)) first.1 in
    (cc (first.0, rest.0), rest.1)
