-- ===== src/Judge/Order.antt =====
-- What the judge agrees to while no step is built.
use tdns_mp.Prelude.{
  All, All-contains, Bool-cases, List, Str, StrictlySorted, StrictlySorted-ext, [], contains, inl,
  inr, refl, some, sym, true, ◌∙◌, ◌≡◌, ◌⊎◌,
}
use tdns_mp.Names.{Names}
use tdns_mp.Instructions.Model.{Instructions, record_of}
use tdns_mp.Judge.Model.{
  ChangeKind, built_kinds, carried_kinds, kind_nsmgmt, kind_parent_sync, kind_pubkey,
  kind_roles_taken, kind_server_role, kind_signer_role, kind_upstream, lacks,
}
use tdns_mp.Judge.Rules.{judge_transition}
use tdns_mp.Judge.Agreed.{Permitted, SameUpstream, Subset}
use tdns_mp.Judge.Verdict.{judge-IsAgreed}

eq_of_subsets :
    (xs ys : List Str)
    → StrictlySorted xs
    → StrictlySorted ys
    → Subset xs ys
    → Subset ys xs
    → xs ≡ ys
eq_of_subsets xs ys hx hy sub sup = StrictlySorted-ext xs ys hx hy λ a.
    elim (Bool-cases (contains xs a)) [
      | inl y ↦ y ∙ sym (All-contains (λ l. contains ys l ≡ true) xs a sub y)
      | inr n ↦ elim (Bool-cases (contains ys a)) [
        | inl y ↦ absurd (cc (n, All-contains (λ l. contains xs l ≡ true) ys a sup y))
        | inr m ↦ n ∙ sym m
      ]
    ]

not_permitted :
    {A : Type 0} (k : ChangeKind)
    → lacks built_kinds k ≡ true
    → Permitted built_kinds carried_kinds k ⊎ A
    → A
not_permitted k e (inl p) = absurd (cc (e, p.1))
not_permitted k e (inr a) = a

-- While no step is built, a change that the judge agrees to keeps who serves and who signs and the
-- settings below; the auditors may change. Between two readings whose servers and signers are sorted with no repetition, servers=,
-- signers=, nsmgmt, parentsync, pubkey and pubcds stay, and so does the upstream of every provider
-- that keeps its label and identity.
pub judge_transition-keeps :
    (n : Names) (from to : Instructions)
    → StrictlySorted from.servers
    → StrictlySorted to.servers
    → StrictlySorted from.signers
    → StrictlySorted to.signers
    → judge_transition n (some from) (some to) ≡ []
    → (from.servers ≡ to.servers)
      × (from.signers ≡ to.signers)
      × (from.nsmgmt ≡ to.nsmgmt)
      × (from.parent_sync ≡ to.parent_sync)
      × (from.pubkey ≡ to.pubkey)
      × (from.pubcds ≡ to.pubcds)
      × All (λ f. SameUpstream n from to f (record_of to f.label)) from.records
unfolding judge_transition lacks
judge_transition-keeps n from to fs ts fg tg e =
    let c = ((judge-IsAgreed n from to built_kinds carried_kinds).0 e).changes in
    let taken = not_permitted kind_roles_taken refl c.roles_taken in
    (
      eq_of_subsets from.servers to.servers fs ts taken.0
          (not_permitted kind_server_role refl c.servers_given),
      eq_of_subsets from.signers to.signers fg tg taken.1
          (not_permitted kind_signer_role refl c.signers_given),
      not_permitted kind_nsmgmt refl c.nsmgmt_kept,
      not_permitted kind_parent_sync refl c.parent_sync_kept,
      not_permitted kind_pubkey refl c.pubkey_kept,
      not_permitted kind_pubkey refl c.pubcds_kept,
      not_permitted kind_upstream refl c.upstreams,
    )
