-- ===== src/Instructions/Sets.antt =====
-- Who takes part in a zone by its instructions, and the standing of an identity in it.
use tdns_mp.Prelude.{
  Bool, List, Option, Str, [], any, contains, false, if◌then◌else◌, keep, length, ltb, none, not,
  some, sorted_unique, true, ℕ, ◌&&◌, ◌++◌, ◌+◌, ◌∷◌,
}
use tdns_mp.Names.{Names}
use tdns_mp.Instructions.Model.{InstrRecord, Instructions, identities, providers}

-- The identities that a list of labels names.
abbrev pub named_by : Instructions → List Str → List Str
named_by i labels = identities (providers i labels)

unfoldable pub voting_of : Instructions → List Str
voting_of i = sorted_unique (named_by i i.servers ++ named_by i i.signers)

-- The participants and the voting ones among them; a nil reading has none.
unfoldable pub participants_of : Option Instructions → List Str × List Str
unfolding voting_of
participants_of none = ([], [])
participants_of (some i) = (sorted_unique (voting_of i ++ named_by i i.auditors), voting_of i)

pub data Standing : Type 0 where
  standing_none standing_no_role standing_auditor standing_voting : Standing

pub record GroupMakeUp : Type 0 where
  pub voting : List Str
  pub auditors : List Str
  pub no_role : List Str

-- The members of the first list that the second does not have.
unfoldable pub without : List Str → List Str → List Str
without [] ys = []
without (x ∷ xs) ys = let rest = without xs ys in if contains ys x then rest else x ∷ rest

unfoldable pub zone_make_up : Option Instructions → GroupMakeUp
unfolding without
zone_make_up i =
    let (participants, voting) = participants_of i in
    record { voting = voting; auditors = without participants voting; no_role = [] }

unfoldable pub members : GroupMakeUp → List Str
members m = sorted_unique ((m.voting ++ m.auditors) ++ m.no_role)

-- The rank of a label: a signer's first, then a server's.
unfoldable pub label_rank : Instructions → Str → ℕ
label_rank i l = if contains i.signers l then 3 else if contains i.servers l then 2 else 1

unfoldable pub has_hsync3 : Option Instructions → Bool
has_hsync3 none = false
has_hsync3 (some i) = ltb 0 (length i.records + length i.off)

abbrev pub is_voting : Standing → Bool
is_voting standing_voting = true
is_voting _ = false

-- What compares names. best_label is the loop of labelOf, with the best label so far and its rank.
module _ (n : Names) where
  open n use {equal_names, fqdn}

  unfoldable pub is_among : List Str → Str → Bool
  is_among ms id = any (λ m. equal_names (fqdn m) (fqdn id)) ms

  unfoldable pub names_record : List Str → InstrRecord → Bool
  names_record ids r = any (λ id. equal_names (fqdn id) r.identity) ids

  -- One round of the loop of labelOf.
  unfoldable pub best_step : Instructions → List Str → InstrRecord → Str × ℕ → Str × ℕ
  best_step i ids r best =
      if names_record ids r && ltb best.1 (label_rank i r.label)
      then (r.label, label_rank i r.label)
      else best

  unfoldable pub best_label : Instructions → List Str → List InstrRecord → Str × ℕ → Str × ℕ
  best_label i ids [] best = best
  best_label i ids (r ∷ rs) best = best_label i ids rs (best_step i ids r best)

  unfoldable pub label_of : Option Instructions → List Str → Str × Bool
  unfolding best_label
  label_of none ids = ([], false)
  label_of (some i) ids =
      let (best, rank) = best_label i ids i.records ([], 0) in (best, ltb 0 rank)

  unfoldable pub lists_agent : Option Instructions → Str → Bool
  lists_agent i id = (label_of i (id ∷ [])).1

  unfoldable pub standing_in : Option Instructions → List Str → List Str → Str → Standing
  unfolding is_among lists_agent
  standing_in i participants voting identity =
      if is_among voting identity
      then standing_voting
      else if is_among participants identity
      then standing_auditor
      else if lists_agent i identity
      then standing_no_role
      else standing_none

  unfoldable pub zone_standing : Option Instructions → Str → Standing
  unfolding standing_in
  zone_standing i identity =
      let (participants, voting) = participants_of i in standing_in i participants voting identity

  unfoldable pub votes_in : Option Instructions → Str → Bool
  votes_in i id = if not (has_hsync3 i) then true else is_voting (zone_standing i id)

  -- The voting members other than self.
  unfoldable pub voting_peers : Option Instructions → Str → List Str
  voting_peers i self = keep (λ id. not (is_among (self ∷ []) id)) (participants_of i).1
