-- ===== src/Prelude/Lists.antt =====
-- Lists measured by native numbers, and searches of lists by Boolean tests.
use Prim.Native.Nat.{ℕ, suc, ◌+◌}
use mathlib.Core.Path.{◌≡◌}
use mathlib.Core.Bool.{Bool, true, false, ◌&&◌, ◌||◌}
use mathlib.Core.Option.{Option, none, some}
use mathlib.Core.List.{List, [], ◌∷◌, ◌++◌, Memᴰ}
use native.Mathlib.Omega.{arith}

module _ {ℓ} {A : Type ℓ} where
  abbrev pub length : List A → ℕ
  length [] = 0
  length (x ∷ xs) = suc (length xs)

  abbrev pub is_empty : List A → Bool
  is_empty [] = true
  is_empty (x ∷ xs) = false

  -- slices.ContainsFunc.
  abbrev pub any : (A → Bool) → List A → Bool
  any p [] = false
  any p (x ∷ xs) = p x || any p xs

  abbrev pub all : (A → Bool) → List A → Bool
  all p [] = true
  all p (x ∷ xs) = p x && all p xs

  -- The first element that passes the test.
  abbrev pub find : (A → Bool) → List A → Option A
  find p [] = none
  find p (x ∷ xs) = elim (p x) [ true ↦ some x | false ↦ find p xs ]

  -- The elements that pass the test, in order.
  abbrev pub keep : (A → Bool) → List A → List A
  keep p [] = []
  keep p (x ∷ xs) = elim (p x) [ true ↦ x ∷ keep p xs | false ↦ keep p xs ]

  abbrev pub All {κ} : (A → Type κ) → List A → Type κ
  All P [] = Unit
  All P (x ∷ xs) = P x × All P xs

  pub length-append : (xs ys : List A) → length (xs ++ ys) ≡ length xs + length ys
  length-append [] ys = omega arith
  length-append (x ∷ xs) ys = omega (arith, length-append xs ys)

  -- Some element of the list has the property.
  pub data Any {κ} (P : A → Type κ) : List A → Type (ℓ ⊔ κ) where
    here : {x : A} {xs : List A} → P x → Any P (x ∷ xs)
    there : {x : A} {xs : List A} → Any P xs → Any P (x ∷ xs)

pub Any-map {ℓ κ} :
    {A : Type ℓ} {P Q : A → Type κ} {xs : List A} → ((x : A) → P x → Q x) → Any P xs → Any Q xs
Any-map f (here p) = here (f _ p)
Any-map f (there a) = there (Any-map f a)

pub All-map {ℓ κ μ} :
    {A : Type ℓ} {P : A → Type κ} {Q : A → Type μ} (xs : List A)
    → ((x : A) → P x → Q x)
    → All P xs
    → All Q xs
All-map [] f h = tt
All-map (x ∷ xs) f h = (f x h.0, All-map xs f h.1)

pub All-intro {ℓ κ} : {A : Type ℓ} {P : A → Type κ} (xs : List A) → ((x : A) → P x) → All P xs
All-intro [] f = tt
All-intro (x ∷ xs) f = (f x, All-intro xs f)

pub all-append {ℓ} :
    {A : Type ℓ} (p : A → Bool) (xs ys : List A)
    → all p xs ≡ true
    → all p ys ≡ true
    → all p (xs ++ ys) ≡ true
all-append p [] ys h k = k
all-append p (x ∷ xs) ys h k = ground (arith, h, k, all-append p xs ys)

pub Memᴰ-append_left {ℓ} : {A : Type ℓ} (z : A) (xs ys : List A) → Memᴰ z xs → Memᴰ z (xs ++ ys)
Memᴰ-append_left z [] ys m = elim m [ ]
Memᴰ-append_left z (x ∷ xs) ys (Memᴰ.head e) = Memᴰ.head e
Memᴰ-append_left z (x ∷ xs) ys (Memᴰ.tail m) = Memᴰ.tail (Memᴰ-append_left z xs ys m)

pub Memᴰ-append_right {ℓ} : {A : Type ℓ} (z : A) (xs ys : List A) → Memᴰ z ys → Memᴰ z (xs ++ ys)
Memᴰ-append_right z [] ys m = m
Memᴰ-append_right z (x ∷ xs) ys m = Memᴰ.tail (Memᴰ-append_right z xs ys m)
