-- ===== src/Election/Agreement.antt =====
-- What holds of the voters and of all that passes between them, and that each operation keeps it.
use mathlib.Core.Path.{subst, ap, refl, sym, ◌∙◌, ◌≡◌}
use tdns_mp.Prelude.{
  Bool, Bool-cases, List, Memᴰ, Str, [], all, all-append, arith, contains, inl, inr, map, str_eq,
  str_eq_refl, str_eq→eq, true, ℕ, ◌&&◌, ◌∷◌,
}
use tdns_mp.Election.Model.{Effect, ElectionManager, entry_of}
use tdns_mp.Election.Honest.{
  Carries, Keeps, Sound, honest, honest_record, messages, spawn_fits, spawn_fits-Carries, spawns,
}
use tdns_mp.Election.Network.{Network, after_op}

pub all-Mem {ℓ} :
    {A : Type ℓ} (p : A → Bool) (x : A) (xs : List A) → all p xs ≡ true → Memᴰ x xs → p x ≡ true
all-Mem p x [] h m = elim m [ ]
all-Mem p x (y ∷ xs) h (Memᴰ.head e) = subst (λ z. p z ≡ true) (sym e) (ground (arith, h))
all-Mem p x (y ∷ xs) h (Memᴰ.tail m) = all-Mem p x xs (ground (arith, h)) m

module _ (vs : List Str) (draw : ℕ → Str → ℕ) where
  abbrev pub fits_at : (Str → ElectionManager) → Str × ℕ → Bool
  fits_at agents s = contains vs s.0 && spawn_fits vs draw (entry_of (agents s.0)) s.1

  pub record Holds (net : Network) : Type 0 where
    pub local : (a : Str) → (net.agents a).local_id ≡ a
    pub sound : (a : Str) → Sound vs draw (entry_of (net.agents a))
    pub said : all (honest vs draw) net.sent ≡ true
    pub started : all (fits_at net.agents) net.spawned ≡ true
    pub told : all (honest_record vs draw) net.told ≡ true

  -- A goroutine of before still finds all the votes.
  one_fits :
      (net : Network) (a b : Str) (r : ElectionManager × List Effect) (term : ℕ)
      → Carries (entry_of (net.agents a)) (entry_of r.0)
      → fits_at net.agents (b, term) ≡ true
      → fits_at (after_op net a r).agents (b, term) ≡ true
  unfolding after_op
  one_fits net a b r term c h = elim (Bool-cases (str_eq b a)) [
    | inl y ↦
        let here : spawn_fits vs draw (entry_of (net.agents a)) term ≡ true =
          ap (λ x. spawn_fits vs draw (entry_of (net.agents x)) term) (sym (str_eq→eq b a y))
          ∙ (ground (arith, h)) in
        rw y (
          ground (
            arith,
            h,
            spawn_fits-Carries vs draw (entry_of (net.agents a)) (entry_of r.0) term c here,
          ))
    | inr y ↦ rw y h
  ]

  still_fits :
      (net : Network) (a : Str) (r : ElectionManager × List Effect) (ss : List (Str × ℕ))
      → Carries (entry_of (net.agents a)) (entry_of r.0)
      → all (fits_at net.agents) ss ≡ true
      → all (fits_at (after_op net a r).agents) ss ≡ true
  still_fits net a r [] c h = refl
  still_fits net a r ((b, term) ∷ ss) c h = ground (
    arith,
    one_fits net a b r term c (ground (arith, h)),
    still_fits net a r ss c (ground (arith, h)),
  )

  new_fits :
      (net : Network) (a : Str) (r : ElectionManager × List Effect) (ts : List ℕ)
      → contains vs a ≡ true
      → all (spawn_fits vs draw (entry_of r.0)) ts ≡ true
      → all (fits_at (after_op net a r).agents) (map (λ t. (a, t)) ts) ≡ true
  unfolding after_op
  new_fits net a r [] h k = refl
  new_fits net a r (t ∷ ts) h k = ground (arith, h, k, str_eq_refl a, new_fits net a r ts)

  after_op-local :
      (net : Network) (a b : Str) (r : ElectionManager × List Effect)
      → ((c : Str) → (net.agents c).local_id ≡ c)
      → r.0.local_id ≡ a
      → ((after_op net a r).agents b).local_id ≡ b
  unfolding after_op
  after_op-local net a b r h k = elim (Bool-cases (str_eq b a)) [
    | inl y ↦ rw y (k ∙ sym (str_eq→eq b a y))
    | inr y ↦ rw y (h b)
  ]

  after_op-Sound :
      (net : Network) (a b : Str) (r : ElectionManager × List Effect)
      → ((c : Str) → Sound vs draw (entry_of (net.agents c)))
      → Sound vs draw (entry_of r.0)
      → Sound vs draw (entry_of ((after_op net a r).agents b))
  unfolding after_op
  after_op-Sound net a b r h k = elim (Bool-cases (str_eq b a)) [
    | inl y ↦ rw y k
    | inr y ↦ rw y (h b)
  ]

  pub after_op-Holds :
      (net : Network) (a : Str) (r : ElectionManager × List Effect)
      → Holds net
      → contains vs a ≡ true
      → Keeps vs draw (net.agents a).local_id (entry_of (net.agents a)) r
      → Holds (after_op net a r)
  unfolding after_op
  after_op-Holds net a r h c k =
      let kept : Keeps vs draw a (entry_of (net.agents a)) r =
        subst (λ x. Keeps vs draw x (entry_of (net.agents a)) r) (h.local a) k in
      record {
        local = λ b. after_op-local net a b r h.local kept.local;
        sound = λ b. after_op-Sound net a b r h.sound kept.sound;
        said = all-append (honest vs draw) (messages a r.1) net.sent kept.says h.said;
        started =
            all-append (fits_at (after_op net a r).agents) (map (λ t. (a, t)) (spawns r.1))
              net.spawned (new_fits net a r (spawns r.1) c kept.starts)
              (still_fits net a r net.spawned kept.carries h.started);
        told = h.told;
      }
