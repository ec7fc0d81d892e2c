-- ===== src/Prelude/Strings.antt =====
-- A Go string is a sequence of octets: its equality, and the order of strings.Compare.
use Prim.Native.Nat.{ℕ}
use Prim.Native.Char.{code}
use Prim.Native.String.{String}
use mathlib.Core.Path.{◌≡◌, refl, sym}
use mathlib.Core.Logic.{◌↔◌, inl, inr}
use mathlib.Core.Bool.{Bool, true, false, ◌&&◌, ◌||◌}
use tdns_mp.Prelude.Lists.{any}
use mathlib.Core.List.{List, [], ◌∷◌, Memᴰ}
use native.Mathlib.Omega.{arith}
use tdns_mp.Prelude.Tests.{ltb, ◌==◌, if◌then◌else◌, Bool-cases}

abbrev pub Str : Type 0
Str = List ℕ

-- A literal of ASCII characters as a Go string.
abbrev pub str : String → Str
str String.[] = []
str (String.◌∷◌ c s) = code c ∷ str s

unfoldable pub str_eq : Str → Str → Bool
str_eq [] [] = true
str_eq [] (y ∷ ys) = false
str_eq (x ∷ xs) [] = false
str_eq (x ∷ xs) (y ∷ ys) = x == y && str_eq xs ys

pub str_eq_refl : (a : Str) → str_eq a a ≡ true
unfolding str_eq
str_eq_refl [] = refl
str_eq_refl (x ∷ xs) = ground (arith, str_eq_refl xs)

pub str_eq→eq : (a b : Str) → str_eq a b ≡ true → a ≡ b
unfolding str_eq
str_eq→eq [] [] h = refl
str_eq→eq [] (y ∷ ys) h = cc
str_eq→eq (x ∷ xs) [] h = cc
str_eq→eq (x ∷ xs) (y ∷ ys) h = ground (arith, str_eq→eq xs ys)

pub str_eq_iff : (a b : Str) → (str_eq a b ≡ true) ↔ (a ≡ b)
str_eq_iff a b = (str_eq→eq a b, λ e. rw e (str_eq_refl b))

-- strings.Compare a b ≤ 0: the octets compared in order, a prefix first.
unfoldable pub str_leb : Str → Str → Bool
str_leb [] ys = true
str_leb (x ∷ xs) [] = false
str_leb (x ∷ xs) (y ∷ ys) = let rest = str_leb xs ys in ltb x y || (x == y && rest)

pub str_leb_refl : (a : Str) → str_leb a a ≡ true
unfolding str_leb
str_leb_refl [] = refl
str_leb_refl (x ∷ xs) = ground (arith, str_leb_refl xs)

pub str_leb_total : (a b : Str) → str_leb a b ≡ false → str_leb b a ≡ true
unfolding str_leb
str_leb_total [] b h = cc
str_leb_total (x ∷ xs) [] h = refl
str_leb_total (x ∷ xs) (y ∷ ys) h = ground (arith, str_leb_total xs ys)

pub str_leb_trans : (a b c : Str) → str_leb a b ≡ true → str_leb b c ≡ true → str_leb a c ≡ true
unfolding str_leb
str_leb_trans [] b c h k = refl
str_leb_trans (x ∷ xs) [] c h k = cc
str_leb_trans (x ∷ xs) (y ∷ ys) [] h k = cc
str_leb_trans (x ∷ xs) (y ∷ ys) (z ∷ zs) h k = ground (arith, str_leb_trans xs ys zs)

pub str_leb_antisym : (a b : Str) → str_leb a b ≡ true → str_leb b a ≡ true → a ≡ b
unfolding str_leb
str_leb_antisym [] [] h k = refl
str_leb_antisym [] (y ∷ ys) h k = cc
str_leb_antisym (x ∷ xs) [] h k = cc
str_leb_antisym (x ∷ xs) (y ∷ ys) h k = ground (arith, str_leb_antisym xs ys)

-- slices.Contains of a list of strings.
unfoldable pub contains : List Str → Str → Bool
contains [] a = false
contains (x ∷ xs) a = str_eq x a || contains xs a

pub contains→Mem : (xs : List Str) (a : Str) → contains xs a ≡ true → Memᴰ a xs
unfolding contains
contains→Mem [] a h = absurd (cc)
contains→Mem (x ∷ xs) a h = elim (Bool-cases (str_eq x a)) [
  | inl e ↦ Memᴰ.head (sym (str_eq→eq x a e))
  | inr e ↦ Memᴰ.tail (contains→Mem xs a (rw e at h))
]

pub Mem→contains : (xs : List Str) (a : Str) → Memᴰ a xs → contains xs a ≡ true
unfolding contains
Mem→contains [] a m = elim m [ ]
Mem→contains (x ∷ xs) a (Memᴰ.head e) = rw (← e, str_eq_refl a)
Mem→contains (x ∷ xs) a (Memᴰ.tail m) = ground (arith, Mem→contains xs a m)

-- A map[string]bool: the keys with their values; a missing key reads as false.
unfoldable pub flag_of : List (Str × Bool) → Str → Bool
flag_of [] a = false
flag_of ((k, v) ∷ m) a = if str_eq k a then v else flag_of m a

pub any-contains :
    (p : Str → Bool) (ys : List Str) (x : Str) → contains ys x ≡ true → p x ≡ true → any p ys ≡ true
unfolding contains
any-contains p [] x h k = h
any-contains p (y ∷ ys) x h k = elim (Bool-cases (str_eq y x)) [
  | inl e ↦ rw (str_eq→eq y x e, k)
  | inr n ↦ ground (arith, any-contains p ys x (rw n at h) k)
]

-- A list that has every member of another passes each test that the other passes.
pub any-subset :
    (p : Str → Bool) (xs ys : List Str)
    → ((a : Str) → contains xs a ≡ true → contains ys a ≡ true)
    → any p xs ≡ true
    → any p ys ≡ true
unfolding contains
any-subset p [] ys sub h = absurd (cc)
any-subset p (x ∷ xs) ys sub h = elim (Bool-cases (p x)) [
  | inl e ↦ any-contains p ys x (sub x (rw (str_eq_refl x))) e
  | inr n ↦ any-subset p xs ys (λ a k. sub a (ground arith)) (rw n at h)
]
