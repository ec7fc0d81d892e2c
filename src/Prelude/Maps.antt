-- ===== src/Prelude/Maps.antt =====
-- A Go map as the list of its entries, each key once: what reading, writing and deleting do.
use mathlib.Core.Path.{◌≡◌, refl}
use mathlib.Core.Logic.{inl, inr}
use mathlib.Core.Bool.{false, Bool, true}
use mathlib.Core.Option.{Option, none, some}
use mathlib.Core.List.{List, [], ◌∷◌}
use native.Mathlib.Omega.{arith}
use tdns_mp.Prelude.Tests.{Bool-cases, if◌then◌else◌}
use tdns_mp.Prelude.Strings.{Str, str_eq, str_eq_refl, str_eq→eq, flag_of}
use tdns_mp.Prelude.Lists.{all}

module _ {ℓ} {V : Type ℓ} where
  unfoldable pub lookup : Str → List (Str × V) → Option V
  lookup k [] = none
  lookup k (e ∷ m) = if str_eq k e.0 then some e.1 else lookup k m

  unfoldable pub put : Str → V → List (Str × V) → List (Str × V)
  put k v [] = (k, v) ∷ []
  put k v (e ∷ m) = let rest = put k v m in if str_eq k e.0 then (k, v) ∷ m else e ∷ rest

  unfoldable pub delete : Str → List (Str × V) → List (Str × V)
  delete k [] = []
  delete k (e ∷ m) = let rest = delete k m in if str_eq k e.0 then rest else e ∷ rest

  pub lookup-put : (k : Str) (v : V) (m : List (Str × V)) → lookup k (put k v m) ≡ some v
  unfolding lookup put
  lookup-put k v [] = ground (arith, str_eq_refl k)
  lookup-put k v (e ∷ m) = ground (arith, str_eq_refl k, lookup-put k v m)

  pub lookup-put_other :
      (j k : Str) (v : V) (m : List (Str × V))
      → str_eq j k ≡ false
      → lookup j (put k v m) ≡ lookup j m
  unfolding lookup put
  lookup-put_other j k v [] h = ground arith
  lookup-put_other j k v (e ∷ m) h = elim (Bool-cases (str_eq k e.0)) [
    | inl x ↦ ground (arith, str_eq→eq k e.0 x)
    | inr x ↦ ground (arith, lookup-put_other j k v m h)
  ]

  -- Writing the value that a key already has changes nothing.
  pub put-lookup : (k : Str) (v : V) (m : List (Str × V)) → lookup k m ≡ some v → put k v m ≡ m
  unfolding lookup put
  put-lookup k v [] h = ground arith
  put-lookup k v (e ∷ m) h = elim (Bool-cases (str_eq k e.0)) [
    | inl x ↦ ground (arith, str_eq→eq k e.0 x)
    | inr x ↦ ground (arith, put-lookup k v m)
  ]

  pub lookup-delete : (k : Str) (m : List (Str × V)) → lookup k (delete k m) ≡ none
  unfolding lookup delete
  lookup-delete k [] = ground arith
  lookup-delete k (e ∷ m) = ground (arith, lookup-delete k m)

  pub lookup-delete_other :
      (j k : Str) (m : List (Str × V)) → str_eq j k ≡ false → lookup j (delete k m) ≡ lookup j m
  unfolding lookup delete
  lookup-delete_other j k [] h = refl
  lookup-delete_other j k (e ∷ m) h = elim (Bool-cases (str_eq k e.0)) [
    | inl x ↦ ground (arith, h, str_eq→eq k e.0 x, lookup-delete_other j k m h)
    | inr x ↦ ground (arith, x, lookup-delete_other j k m h)
  ]

pub flag_of-put : (h : Str) (b : Bool) (m : List (Str × Bool)) → flag_of (put h b m) h ≡ b
unfolding flag_of put
flag_of-put h b [] = ground (arith, str_eq_refl h)
flag_of-put h b (e ∷ m) = elim (Bool-cases (str_eq e.0 h)) [
  | inl x ↦ ground (arith, str_eq→eq e.0 h x, str_eq_refl h)
  | inr x ↦ elim (Bool-cases (str_eq h e.0)) [
    | inl y ↦ ground (arith, str_eq_refl h)
    | inr y ↦ ground (arith, x, y, flag_of-put h b m)
  ]
]

-- A test that holds of all values of a map holds of each one read, and still holds of all after
-- one is written for which it holds, or one is deleted.
module _ {ℓ} {V : Type ℓ} (p : V → Bool) where
  pub all-lookup :
      (k : Str) (v : V) (m : List (Str × V))
      → all (λ e. p e.1) m ≡ true
      → lookup k m ≡ some v
      → p v ≡ true
  unfolding lookup
  all-lookup k v [] h e = ground (arith, e)
  all-lookup k v (x ∷ m) h e = elim (Bool-cases (str_eq k x.0)) [
    | inl y ↦ ground (arith, h, e, y)
    | inr y ↦ all-lookup k v m (ground (arith, h)) (ground (arith, e, y))
  ]

  pub all-put :
      (k : Str) (v : V) (m : List (Str × V))
      → all (λ e. p e.1) m ≡ true
      → p v ≡ true
      → all (λ e. p e.1) (put k v m) ≡ true
  unfolding put
  all-put k v [] h e = ground (arith, e)
  all-put k v (x ∷ m) h e = ground (arith, h, e, all-put k v m)

  pub all-delete :
      (k : Str) (m : List (Str × V))
      → all (λ e. p e.1) m ≡ true
      → all (λ e. p e.1) (delete k m) ≡ true
  unfolding delete
  all-delete k [] h = ground arith
  all-delete k (x ∷ m) h = ground (arith, h, all-delete k m)
