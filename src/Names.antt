-- ===== src/Names.antt =====
-- Names as the DNS library compares them: core.EqualNames, core.CanonicalizeName and dns.Fqdn are
-- not in this repository, so they are a parameter, with what their documentation says of them.
use tdns_mp.Prelude.{
  Bool, Str, [], ap, arith, if◌then◌else◌, leb, refl, str_eq, str_eq_iff, true, ℕ, ◌&&◌, ◌+◌, ◌==◌,
  ◌↔◌, ◌∷◌, ◌≡◌,
}

pub record Names : Type 0 where
  pub equal_names : Str → Str → Bool
  pub canonicalize : Str → Str
  pub fqdn : Str → Str
  -- Names are equal when they are the same in canonical (lower) case.
  pub equal_names_iff : (a b : Str) → (equal_names a b ≡ true) ↔ (canonicalize a ≡ canonicalize b)
  pub canonicalize_twice : (a : Str) → canonicalize (canonicalize a) ≡ canonicalize a
  -- A name that ends in a dot is left as it is, so the dot is added once.
  pub fqdn_twice : (a : Str) → fqdn (fqdn a) ≡ fqdn a
  -- The case of the letters and the trailing dot do not affect each other.
  pub fqdn_canonicalize : (a : Str) → fqdn (canonicalize a) ≡ canonicalize (fqdn a)

-- A name that satisfies this: ASCII letters in lower case, one dot added at the end.
lower : ℕ → ℕ
lower c = if leb b'A' c && leb c b'Z' then c + 32 else c

lower_twice : (c : ℕ) → lower (lower c) ≡ lower c
unfolding lower
lower_twice c = ground arith

lower_dot : (c : ℕ) → (lower c == b'.') ≡ (c == b'.')
unfolding lower
lower_dot c = ground arith

pub lower_case : Str → Str
lower_case [] = []
lower_case (c ∷ s) = lower c ∷ lower_case s

pub lower_case_twice : (s : Str) → lower_case (lower_case s) ≡ lower_case s
unfolding lower_case
lower_case_twice [] = refl
lower_case_twice (c ∷ s) = cc (lower_twice c, lower_case_twice s)

pub add_dot : Str → Str
add_dot [] = b'.' ∷ []
add_dot (c ∷ []) = if c == b'.' then c ∷ [] else c ∷ b'.' ∷ []
add_dot (c ∷ d ∷ s) = c ∷ add_dot (d ∷ s)

pub add_dot_twice : (s : Str) → add_dot (add_dot s) ≡ add_dot s
unfolding add_dot
add_dot_twice [] = refl
add_dot_twice (c ∷ []) = ground arith
add_dot_twice (c ∷ d ∷ []) = ground arith
add_dot_twice (c ∷ d ∷ e ∷ s) = ap (λ t. c ∷ t) (add_dot_twice (d ∷ e ∷ s))

pub add_dot-lower_case : (s : Str) → add_dot (lower_case s) ≡ lower_case (add_dot s)
unfolding add_dot lower_case lower
add_dot-lower_case [] = refl
add_dot-lower_case (c ∷ []) = ground arith
add_dot-lower_case (c ∷ d ∷ s) = ap (λ t. lower c ∷ t) (add_dot-lower_case (d ∷ s))

unfoldable pub ascii_names : Names
unfolding lower lower_case add_dot
ascii_names = record {
  equal_names = λ a b. str_eq (lower_case a) (lower_case b);
  canonicalize = lower_case;
  fqdn = add_dot;
  equal_names_iff = λ a b. str_eq_iff (lower_case a) (lower_case b);
  canonicalize_twice = lower_case_twice;
  fqdn_twice = add_dot_twice;
  fqdn_canonicalize = add_dot-lower_case;
}
