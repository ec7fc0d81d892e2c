-- ===== src/Hsync/Reconciled.antt =====
-- After a zone is reconciled the peers that have it are the expected ones.
use tdns_mp.Prelude.{
  Bool-cases, List, Str, [], arith, contains, false, inl, inr, lookup, refl, str_eq, str_eq_refl,
  str_eq→eq, true, ◌&&◌, ◌||◌, ◌∷◌, ◌≡◌, Option-cases, all, if◌then◌else◌, is_some, keep,
  lookup-put, lookup-put_other, not, ℕ, ◌+◌, ◌∙◌,
}
use tdns_mp.Names.{Names}
use tdns_mp.Hsync.Registry.{
  Mechanisms, Registry, add_zone, add_zone_to_peer, drop_unexpected, has_zone, is_local, is_removed,
  mark_needed, take_off, expected_peers, mark_expected, new_peer, reconcile_zone,
}

contains-take_off : (z : Str) (zs : List Str) → contains (take_off z zs) z ≡ false
unfolding contains take_off
contains-take_off z [] = refl
contains-take_off z (x ∷ zs) = elim (Bool-cases (str_eq z x)) [
  | inl e ↦ ground (arith, e, contains-take_off z zs)
  | inr e ↦ ground (arith, e, contains-take_off z zs, str_eq→eq x z, str_eq→eq z x, str_eq_refl z)
]

contains-add_zone : (z : Str) (zs : List Str) → contains (add_zone z zs) z ≡ true
unfolding contains add_zone
contains-add_zone z zs = ground (arith, str_eq_refl z)

module _ (n : Names) (local zone : Str) where
  has_zone-mark_needed :
      (w : Mechanisms) (m : Registry) (id other : Str)
      → is_local n local id ≡ false
      → has_zone zone (lookup other (mark_needed n w local m id zone))
        ≡ (str_eq other id || has_zone zone (lookup other m))
  unfolding mark_needed add_zone_to_peer has_zone contains
  has_zone-mark_needed w m id other h = elim (Option-cases (lookup id m)) [
    | inl k ↦ elim (Bool-cases (str_eq other id)) [
      | inl e ↦ ground (
        arith,
        h,
        k,
        e,
        str_eq→eq other id e,
        str_eq_refl zone,
        lookup-put id (new_peer w (zone ∷ [])) m,
      )
      | inr e ↦ ground (arith, h, k, e, lookup-put_other other id (new_peer w (zone ∷ [])) m e)
    ]
    | inr (p, k) ↦
        let q = record p { zones = add_zone zone p.zones } in
        elim (Bool-cases (str_eq other id)) [
          | inl e ↦ ground (
            arith,
            h,
            k,
            e,
            str_eq→eq other id e,
            contains-add_zone zone p.zones,
            lookup-put id q m,
          )
          | inr e ↦ ground (arith, h, k, e, lookup-put_other other id q m e)
        ]
  ]

  has_zone-drop_unexpected :
      (expected : List Str) (m : Registry) (other : Str)
      → has_zone zone (lookup other (drop_unexpected n local expected zone m).0)
        ≡ (has_zone zone (lookup other m) && (is_local n local other || contains expected other))
  unfolding drop_unexpected is_removed has_zone lookup
  has_zone-drop_unexpected expected [] other = refl
  has_zone-drop_unexpected expected (e ∷ m) other = elim (Bool-cases (str_eq other e.0)) [
    | inl x ↦ ground (
      arith,
      x,
      str_eq→eq other e.0 x,
      contains-take_off zone e.1.zones,
      has_zone-drop_unexpected expected m other,
    )
    | inr x ↦ ground (arith, x, has_zone-drop_unexpected expected m other)
  ]

  has_zone-mark_expected :
      (w : Mechanisms) (ids : List Str) (m : Registry) (added : ℕ) (other : Str)
      → all (λ id. not (is_local n local id)) ids ≡ true
      → has_zone zone (lookup other (mark_expected n w local ids zone m added).0)
        ≡ (contains ids other || has_zone zone (lookup other m))
  unfolding mark_expected contains
  has_zone-mark_expected w [] m added other h = refl
  has_zone-mark_expected w (id ∷ ids) m added other h =
      has_zone-mark_expected w ids (mark_needed n w local m id zone)
        (added + (if is_some (lookup id m) then 0 else 1)) other (ground (arith, h))
      ∙ ground (
        arith,
        h,
        has_zone-mark_needed w m id other (ground (arith, h)),
        str_eq→eq other id,
        str_eq→eq id other,
        Bool-cases (str_eq other id),
        Bool-cases (str_eq id other),
        str_eq_refl other,
      )

  all-keep :
      (ids : List Str)
      → all (λ id. not (is_local n local id)) (keep (λ id. not (is_local n local id)) ids) ≡ true
  all-keep [] = refl
  all-keep (id ∷ ids) = ground (arith, all-keep ids, Bool-cases (is_local n local id))

  all-expected_peers :
      (participants : List Str)
      → all (λ id. not (is_local n local id)) (expected_peers n local participants) ≡ true
  unfolding expected_peers
  all-expected_peers participants = ground (arith, all-keep participants)

-- Once a zone is reconciled, the registry holds it for exactly the peers that the zone expects, and
-- for the agent's own identity if it did before: a peer that is expected is stored with the zone,
-- and the zone is off every other one. The peers expected are the participants other than the agent
-- itself, and none in a zone where the agent does not take part.
pub has_zone-reconcile_zone :
    (n : Names) (w : Mechanisms) (local zone : Str) (participants : List Str) (m : Registry)
    (other : Str)
    → has_zone zone (lookup other (reconcile_zone n w local participants zone m).0) ≡ (
        contains (expected_peers n local participants) other
        || (is_local n local other && has_zone zone (lookup other m)))
unfolding reconcile_zone
has_zone-reconcile_zone n w local zone participants m other =
    let expected = expected_peers n local participants in
    has_zone-mark_expected n local zone w expected (drop_unexpected n local expected zone m).0 0
      other (all-expected_peers n local zone participants)
    ∙ ground (arith, has_zone-drop_unexpected n local zone expected m other)
