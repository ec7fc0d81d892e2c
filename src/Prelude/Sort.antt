-- ===== src/Prelude/Sort.antt =====
-- slices.Sort and slices.Compact on lists of strings: the sorted list without repetitions is the
-- one normal form of the list's set of members.
use mathlib.Core.Path.{◌≡◌, refl, ap, ◌∙◌, sym}
use mathlib.Core.Logic.{◌≢◌, inl, inr}
use mathlib.Core.Bool.{true, ◌||◌, false}
use mathlib.Core.List.{List, [], ◌∷◌}
use native.Mathlib.Omega.{arith}
use tdns_mp.Prelude.Tests.{Bool-cases, if◌then◌else◌}
use Prim.Native.Nat.{◌+◌}
use tdns_mp.Prelude.Lists.{All, length}
use tdns_mp.Prelude.Strings.{
  Str, contains, str_eq, str_eq_iff, str_leb, str_leb_total, str_leb_trans, str_eq_refl, str_eq→eq,
  str_leb_antisym,
}

-- Equal strings cannot be told apart, so any sort gives what insertion gives.
insert_sorted : Str → List Str → List Str
insert_sorted a [] = a ∷ []
insert_sorted a (x ∷ xs) =
    let rest = insert_sorted a xs in if str_leb a x then a ∷ x ∷ xs else x ∷ rest

unfoldable pub sort : List Str → List Str
unfolding insert_sorted
sort [] = []
sort (x ∷ xs) = insert_sorted x (sort xs)

-- A member that the next one repeats is dropped.
unfoldable pub compact : List Str → List Str
compact [] = []
compact (x ∷ []) = x ∷ []
compact (x ∷ y ∷ ys) = let rest = compact (y ∷ ys) in if str_eq x y then rest else x ∷ rest

unfoldable pub sorted_unique : List Str → List Str
unfolding sort compact
sorted_unique xs = compact (sort xs)

abbrev pub Before : Str → Str → Type 0
Before x y = (str_leb x y ≡ true) × (x ≢ y)

-- Each member comes before all that follow it, and none is there twice.
abbrev pub StrictlySorted : List Str → Type 0
StrictlySorted [] = Unit
StrictlySorted (x ∷ xs) = All (Before x) xs × StrictlySorted xs

abbrev WeaklySorted : List Str → Type 0
WeaklySorted [] = Unit
WeaklySorted (x ∷ xs) = All (λ y. str_leb x y ≡ true) xs × WeaklySorted xs

length-insert_sorted : (a : Str) (xs : List Str) → length (insert_sorted a xs) ≡ length xs + 1
unfolding insert_sorted
length-insert_sorted a [] = refl
length-insert_sorted a (x ∷ xs) = ground (arith, length-insert_sorted a xs)

pub length-sort : (xs : List Str) → length (sort xs) ≡ length xs
unfolding sort
length-sort [] = refl
length-sort (x ∷ xs) = ground (arith, length-sort xs, length-insert_sorted x (sort xs))

contains-insert_sorted :
    (a : Str) (xs : List Str) (b : Str)
    → contains (insert_sorted a xs) b ≡ (str_eq a b || contains xs b)
unfolding insert_sorted contains
contains-insert_sorted a [] b = refl
contains-insert_sorted a (x ∷ xs) b = ground (arith, contains-insert_sorted a xs b)

pub contains-sort : (xs : List Str) (b : Str) → contains (sort xs) b ≡ contains xs b
unfolding sort contains
contains-sort [] b = refl
contains-sort (x ∷ xs) b =
    contains-insert_sorted x (sort xs) b ∙ ap (λ t. str_eq x b || t) (contains-sort xs b)

contains-compact : (xs : List Str) (b : Str) → contains (compact xs) b ≡ contains xs b
unfolding compact contains
contains-compact [] b = refl
contains-compact (x ∷ []) b = refl
contains-compact (x ∷ y ∷ ys) b = ground (arith, contains-compact (y ∷ ys) b, str_eq_iff x y)

pub contains-sorted_unique :
    (xs : List Str) (b : Str) → contains (sorted_unique xs) b ≡ contains xs b
unfolding sorted_unique
contains-sorted_unique xs b = contains-compact (sort xs) b ∙ contains-sort xs b

All-insert_sorted :
    (P : Str → Type 0) (a : Str) (xs : List Str) → P a → All P xs → All P (insert_sorted a xs)
unfolding insert_sorted
All-insert_sorted P a [] h k = (h, tt)
All-insert_sorted P a (x ∷ xs) h k = elim (Bool-cases (str_leb a x)) [
  | inl y ↦ rw y (h, k)
  | inr n ↦ rw n (k.0, All-insert_sorted P a xs h k.1)
]

All-map_leb :
    (a x : Str) (xs : List Str)
    → str_leb a x ≡ true
    → All (λ y. str_leb x y ≡ true) xs
    → All (λ y. str_leb a y ≡ true) xs
All-map_leb a x [] h k = tt
All-map_leb a x (y ∷ ys) h k = (str_leb_trans a x y h k.0, All-map_leb a x ys h k.1)

insert_sorted-WeaklySorted :
    (a : Str) (xs : List Str) → WeaklySorted xs → WeaklySorted (insert_sorted a xs)
unfolding insert_sorted
insert_sorted-WeaklySorted a [] k = (tt, tt)
insert_sorted-WeaklySorted a (x ∷ xs) k = elim (Bool-cases (str_leb a x)) [
  | inl y ↦ rw y ((y, All-map_leb a x xs y k.0), k)
  | inr n ↦ rw n (
    All-insert_sorted (λ y. str_leb x y ≡ true) a xs (str_leb_total a x n) k.0,
    insert_sorted-WeaklySorted a xs k.1,
  )
]

sort-WeaklySorted : (xs : List Str) → WeaklySorted (sort xs)
unfolding sort
sort-WeaklySorted [] = tt
sort-WeaklySorted (x ∷ xs) = insert_sorted-WeaklySorted x (sort xs) (sort-WeaklySorted xs)

pub All-contains :
    (P : Str → Type 0) (xs : List Str) (a : Str) → All P xs → contains xs a ≡ true → P a
unfolding contains
All-contains P [] a h c = absurd (cc)
All-contains P (x ∷ xs) a h c = elim (Bool-cases (str_eq x a)) [
  | inl e ↦ rw (str_eq→eq x a e) at (h.0)
  | inr n ↦ All-contains P xs a h.1 (rw n at c)
]

All-compact : (P : Str → Type 0) (xs : List Str) → All P xs → All P (compact xs)
unfolding compact
All-compact P [] h = tt
All-compact P (x ∷ []) h = h
All-compact P (x ∷ y ∷ ys) h = elim (Bool-cases (str_eq x y)) [
  | inl e ↦ rw e (All-compact P (y ∷ ys) h.1)
  | inr n ↦ rw n (h.0, All-compact P (y ∷ ys) h.1)
]

Before-rest :
    (x y : Str) (zs : List Str) → Before x y → All (λ z. str_leb y z ≡ true) zs → All (Before x) zs
Before-rest x y [] b h = tt
Before-rest x y (z ∷ zs) b h = (
  (str_leb_trans x y z b.0 h.0, λ e. b.1 (str_leb_antisym x y b.0 (rw (← e) at (h.0)))),
  Before-rest x y zs b h.1,
)

compact-StrictlySorted : (xs : List Str) → WeaklySorted xs → StrictlySorted (compact xs)
unfolding compact
compact-StrictlySorted [] h = tt
compact-StrictlySorted (x ∷ []) h = (tt, tt)
compact-StrictlySorted (x ∷ y ∷ ys) h = elim (Bool-cases (str_eq x y)) [
  | inl e ↦ rw e (compact-StrictlySorted (y ∷ ys) h.1)
  | inr n ↦
      let b : Before x y = (h.0.0, λ e. cc (n, (str_eq_iff x y).1 e)) in
      rw n (
        All-compact (Before x) (y ∷ ys) (b, Before-rest x y ys b h.1.0),
        compact-StrictlySorted (y ∷ ys) h.1,
      )
]

pub sorted_unique-StrictlySorted : (xs : List Str) → StrictlySorted (sorted_unique xs)
unfolding sorted_unique
sorted_unique-StrictlySorted xs = compact-StrictlySorted (sort xs) (sort-WeaklySorted xs)

-- A member that comes before all of a list is not in it.
Before-not_in : (x : Str) (xs : List Str) → All (Before x) xs → contains xs x ≡ false
Before-not_in x xs h = elim (Bool-cases (contains xs x)) [
  | inl y ↦ absurd ((All-contains (Before x) xs x h y).1 refl)
  | inr n ↦ n
]

heads_eq :
    (x y : Str) (xs ys : List Str)
    → All (Before x) xs
    → All (Before y) ys
    → contains (y ∷ ys) x ≡ true
    → contains (x ∷ xs) y ≡ true
    → x ≡ y
unfolding contains
heads_eq x y xs ys hx hy cx cy = elim (Bool-cases (str_eq x y)) [
  | inl e ↦ str_eq→eq x y e
  | inr n ↦ elim (Bool-cases (str_eq y x)) [
    | inl e ↦ sym (str_eq→eq y x e)
    | inr m ↦
        str_leb_antisym x y (All-contains (Before x) xs y hx (rw n at cy)).0
          (All-contains (Before y) ys x hy (rw m at cx)).0
  ]
]

same_tail :
    (x : Str) (xs ys : List Str)
    → All (Before x) xs
    → All (Before x) ys
    → ((a : Str) → (str_eq x a || contains xs a) ≡ (str_eq x a || contains ys a))
    → (a : Str) → contains xs a ≡ contains ys a
same_tail x xs ys hx hy same a = elim (Bool-cases (str_eq x a)) [
  | inl e ↦
      let xa = str_eq→eq x a e in rw (← xa) (Before-not_in x xs hx ∙ sym (Before-not_in x ys hy))
  | inr n ↦ rw n at (same a)
]

pub head_in : (x : Str) (xs : List Str) → contains (x ∷ xs) x ≡ true
unfolding contains
head_in x xs = rw (str_eq_refl x)

-- Two such lists with the same members are the same list.
pub StrictlySorted-ext :
    (xs ys : List Str)
    → StrictlySorted xs
    → StrictlySorted ys
    → ((a : Str) → contains xs a ≡ contains ys a)
    → xs ≡ ys
unfolding contains
StrictlySorted-ext [] [] hx hy same = refl
StrictlySorted-ext [] (y ∷ ys) hx hy same = absurd (cc (same y, head_in y ys))
StrictlySorted-ext (x ∷ xs) [] hx hy same = absurd (cc (same x, head_in x xs))
StrictlySorted-ext (x ∷ xs) (y ∷ ys) hx hy same =
    let e : x ≡ y =
      heads_eq x y xs ys hx.0 hy.0 (sym (same x) ∙ head_in x xs) (same y ∙ head_in y ys) in
    let t : xs ≡ ys = StrictlySorted-ext xs ys hx.1 hy.1 (
      same_tail x xs ys hx.0 (rw e (hy.0))
        (λ a. same a ∙ ap (λ u. str_eq u a || contains ys a) (sym e))) in
    cc

-- The normal form depends on the members alone.
pub sorted_unique-ext :
    (xs ys : List Str)
    → ((a : Str) → contains xs a ≡ contains ys a)
    → sorted_unique xs ≡ sorted_unique ys
sorted_unique-ext xs ys same =
    StrictlySorted-ext (sorted_unique xs) (sorted_unique ys) (sorted_unique-StrictlySorted xs)
      (sorted_unique-StrictlySorted ys)
      (λ a. contains-sorted_unique xs a ∙ same a ∙ sym (contains-sorted_unique ys a))
