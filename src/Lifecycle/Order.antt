-- ===== src/Lifecycle/Order.antt =====
-- Histories of a key: the events it meets, each with the key and the zone as they were then.
-- Between two events the driver may set any column of the key but its state.
use tdns_mp.Prelude.{
  Any, Bool, Bool-cases, List, [], ap, arith, false, here, if◌then◌else◌, inl, inr, suc, there,
  true, ℕ, ◌+◌, ◌∙◌, ◌∷◌, ◌≡◌, ◌≤◌,
}
use tdns_mp.Lifecycle.States.{KeyEvent, KeyState, state_code, state_eq}
use tdns_mp.Lifecycle.Views.{KeyView, ZoneView}
use tdns_mp.Lifecycle.Table.{next}
use tdns_mp.Lifecycle.Diagram.{Edge}
use tdns_mp.Lifecycle.Follows.{Edge-lt, next_moves}

pub record Observation : Type 0 where
  pub key : KeyView
  pub event : KeyEvent
  pub zone : ZoneView

-- The state after what was observed.
abbrev pub after : Observation → KeyState
after o = (next o.key o.event o.zone).0

-- A history that takes a key from one state to another.
abbrev pub Runs : KeyState → List Observation → KeyState → Type 0
Runs s [] t = s ≡ t
Runs s (o ∷ h) t = (o.key.state ≡ s) × Runs (after o) h t

-- How often the state changes.
abbrev pub changes : List Observation → ℕ
changes [] = 0
changes (o ∷ h) = let n = changes h in if state_eq (after o) o.key.state then n else suc n

-- The step is an edge of the diagram.
abbrev pub IsEdge : Observation → Type 0
IsEdge o = Edge o.key o.zone o.event o.key.state (after o)

step-le :
    (o : Observation)
    → (if state_eq (after o) o.key.state then 0 else 1) + state_code o.key.state
      ≤ state_code (after o)
step-le o = elim (next_moves o.key o.event o.zone) [
  | inl same ↦ ground (arith, same)
  | inr edge ↦ ground (arith, Edge-lt edge)
]

-- A key's state changes at most as often as there are states between the first and the last:
-- no history takes a key back to an earlier state, or keeps it changing.
pub changes-le :
    (s : KeyState) (h : List Observation) (t : KeyState)
    → Runs s h t
    → changes h + state_code s ≤ state_code t
changes-le s [] t r = ground (arith, ap state_code r)
changes-le s (o ∷ h) t r =
    ground (arith, step-le o, changes-le (after o) h t r.1, ap state_code r.0)

-- Where a history enters a set of states from outside, one step of it is an edge that does.
pub crossing :
    (inside : KeyState → Bool) (s : KeyState) (h : List Observation) (t : KeyState)
    → Runs s h t
    → inside s ≡ false
    → inside t ≡ true
    → Any (λ o. IsEdge o × (inside o.key.state ≡ false) × (inside (after o) ≡ true)) h
crossing inside s [] t r out in_ = absurd (cc (ap inside r))
crossing inside s (o ∷ h) t r out in_ = elim (Bool-cases (inside (after o))) [
  | inl now ↦ elim (next_moves o.key o.event o.zone) [
    | inl same ↦ absurd (cc (ap inside r.0))
    | inr edge ↦ here (edge, ap inside r.0 ∙ out, now)
  ]
  | inr later ↦ there (crossing inside (after o) h t r.1 later in_)
]
