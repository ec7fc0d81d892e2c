-- ===== src/Hsync/Registry.antt =====
-- v2/hsync: the registry of peers (registry.go), the peers that a zone expects (reconcile.go,
-- hsync3_diff.go) and ReconcileZone. Discovery, hellos and hooks are not modelled, nor a peer's
-- deferred tasks. The registry's local identity is the engine's.
use tdns_mp.Prelude.{
  Bool, List, Option, Str, [], any, contains, false, if◌then◌else◌, is_empty, is_some, keep, lookup,
  none, not, put, some, str_eq, true, ℕ, ◌&&◌, ◌+◌, ◌∷◌,
}
use tdns_mp.Names.{Names}

pub record Peer : Type 0 where
  pub api_method : Bool
  pub dns_method : Bool
  pub is_infra_peer : Bool
  pub zones : List Str
  pub unshared : ℕ

abbrev pub Registry : Type 0
Registry = List (Str × Peer)

-- What the transport supports (MechanismSupported), which is not modelled.
pub record Mechanisms : Type 0 where
  pub api : Bool
  pub dns : Bool

abbrev pub new_peer : Mechanisms → List Str → Peer
new_peer w zones = record {
  api_method = w.api;
  dns_method = w.dns;
  is_infra_peer = false;
  zones = zones;
  unshared = 0;
}

unfoldable pub add_zone : Str → List Str → List Str
unfolding contains
add_zone z zs = if contains zs z then zs else z ∷ zs

unfoldable pub take_off : Str → List Str → List Str
take_off z [] = []
take_off z (x ∷ zs) = let rest = take_off z zs in if str_eq z x then rest else x ∷ rest

unfoldable pub has_zone : Str → Option Peer → Bool
unfolding contains
has_zone z none = false
has_zone z (some p) = contains p.zones z

-- The zone is added to a stored peer; whether there was one.
unfoldable pub add_zone_to_peer : Registry → Str → Str → Registry × Bool
unfolding lookup put add_zone
add_zone_to_peer m id zone = elim (lookup id m) [
  | none ↦ (m, false)
  | some p ↦ (put id (record p { zones = add_zone zone p.zones }) m, true)
]

module _ (n : Names) where
  open n use {equal_names, fqdn}

  unfoldable pub same_peer : Str → Str → Bool
  same_peer a b = equal_names (fqdn a) (fqdn b)

  unfoldable pub is_local : Str → Str → Bool
  unfolding same_peer
  is_local local id = not (is_empty local) && same_peer id local

  unfoldable pub participates : List Str → Str → Bool
  unfolding same_peer
  participates participants id = not (is_empty id) && any (λ p. same_peer p id) participants

  unfoldable pub expected_peers : Str → List Str → List Str
  unfolding is_local participates
  expected_peers local participants =
      if not (is_empty local) && not (participates participants local)
      then []
      else keep (λ id. not (is_local local id)) participants

  -- The registry's part of MarkNeeded, for a zone that is named.
  unfoldable pub mark_needed : Mechanisms → Str → Registry → Str → Str → Registry
  unfolding is_local add_zone_to_peer put
  mark_needed w local m id zone =
      let stored = add_zone_to_peer m id zone in
      if is_local local id
      then m
      else if stored.1
      then stored.0
      else put id (new_peer w (zone ∷ [])) m

  -- Whether the zone is taken off a peer: one that is not expected, and is not the agent itself.
  unfoldable pub is_removed : Str → List Str → Str → Str → Peer → Bool
  unfolding is_local contains
  is_removed local expected zone id p =
      contains p.zones zone && not (is_local local id) && not (contains expected id)

  -- The first two loops of ReconcileZone: the registry, and how many it took the zone off.
  unfoldable pub drop_unexpected : Str → List Str → Str → Registry → Registry × ℕ
  unfolding is_removed take_off
  drop_unexpected local expected zone [] = ([], 0)
  drop_unexpected local expected zone (e ∷ m) =
      let rest = drop_unexpected local expected zone m in
      if is_removed local expected zone e.0 e.1
      then ((e.0, record e.1 { zones = take_off zone e.1.zones }) ∷ rest.0, rest.1 + 1)
      else (e ∷ rest.0, rest.1)

  -- The last loop: the registry, and how many peers were not there before.
  unfoldable pub mark_expected : Mechanisms → Str → List Str → Str → Registry → ℕ → Registry × ℕ
  unfolding mark_needed lookup
  mark_expected w local [] zone m added = (m, added)
  mark_expected w local (id ∷ ids) zone m added =
      mark_expected w local ids zone (mark_needed w local m id zone)
        (added + (if is_some (lookup id m) then 0 else 1))

  -- The registry, and how many peers were added and removed.
  unfoldable pub reconcile_zone : Mechanisms → Str → List Str → Str → Registry → Registry × ℕ × ℕ
  unfolding expected_peers drop_unexpected mark_expected
  reconcile_zone w local participants zone m =
      let expected = expected_peers local participants in
      let dropped = drop_unexpected local expected zone m in
      let marked = mark_expected w local expected zone dropped.0 0 in
      (marked.0, marked.1, dropped.1)
