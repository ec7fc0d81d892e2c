-- ===== src/Judge/Agreed.antt =====
-- When a change of instructions is agreed to, said with no reference to how the judge finds it.
use tdns_mp.Prelude.{
  All, List, Option, Str, [], contains, false, is_empty, is_none, none, some, true, ◌≡◌, ◌⊎◌,
}
use tdns_mp.Names.{Names}
use tdns_mp.Instructions.Model.{InstrRecord, Instructions, record_of}
use tdns_mp.Judge.Model.{
  ChangeKind, kind_nsmgmt, kind_parent_sync, kind_pubkey, kind_roles_taken, kind_server_role,
  kind_signer_role, kind_upstream, lacks,
}
use tdns_mp.Judge.Rules.{role_given, role_in}

abbrev pub Subset : List Str → List Str → Type 0
Subset xs ys = All (λ l. contains ys l ≡ true) xs

-- The steps of a kind of change can be carried out and are built.
abbrev pub Permitted : ChangeKind → ChangeKind → ChangeKind → Type 0
Permitted built carried k = (lacks carried k ≡ false) × (lacks built k ≡ false)

module _ (n : Names) (from to : Instructions) where
  -- A label's records before and after fit its roles: no record goes while its label has a role,
  -- no role is given without a record before and after, and a label with a role keeps its identity.
  abbrev pub RecordsFit : Str → Option InstrRecord → Option InstrRecord → Type 0
  RecordsFit label (some f) none = (role_in from label ≡ false) × (role_given from to label ≡ false)
  RecordsFit label none t = role_given from to label ≡ false
  RecordsFit label (some f) (some t) =
      ((role_in from label ≡ false) × (role_in to label ≡ false))
      ⊎ (n.equal_names f.identity t.identity ≡ true)

  -- A signer stays a signer or gets no server role.
  abbrev pub SignerFits : Str → Type 0
  SignerFits label = (contains to.signers label ≡ true) ⊎ (contains to.servers label ≡ false)

  -- An upstream names a signer that has a record.
  abbrev pub UpstreamFits : InstrRecord → Type 0
  UpstreamFits r =
      (r.upstream ≡ [])
      ⊎ ((contains to.signers r.upstream ≡ true) × (is_none (record_of to r.upstream) ≡ false))

  -- The upstream of a server that stays one is not taken out of the signers.
  abbrev pub UpstreamStays : InstrRecord → Type 0
  UpstreamStays r =
      (r.upstream ≡ [])
      ⊎ ((contains from.servers r.label ≡ false)
          ⊎ ((contains to.servers r.label ≡ false)
              ⊎ ((contains from.signers r.upstream ≡ false)
                  ⊎ (contains to.signers r.upstream ≡ true))))

  -- The record that a provider keeps has the upstream it had.
  abbrev pub SameUpstream : InstrRecord → Option InstrRecord → Type 0
  SameUpstream f none = Unit
  SameUpstream f (some t) =
      (n.equal_names f.identity t.identity ≡ false) ⊎ (f.upstream ≡ t.upstream)

  -- Every change is of a kind that is permitted.
  pub record ChangesPermitted (built carried : ChangeKind) : Type 0 where
    pub roles_taken :
        Permitted built carried kind_roles_taken
        ⊎ (Subset from.servers to.servers × Subset from.signers to.signers)
    pub servers_given : Permitted built carried kind_server_role ⊎ Subset to.servers from.servers
    pub signers_given : Permitted built carried kind_signer_role ⊎ Subset to.signers from.signers
    pub upstreams :
        Permitted built carried kind_upstream
        ⊎ All (λ f. SameUpstream f (record_of to f.label)) from.records
    pub nsmgmt_kept : Permitted built carried kind_nsmgmt ⊎ (from.nsmgmt ≡ to.nsmgmt)
    pub parent_sync_kept :
        Permitted built carried kind_parent_sync ⊎ (from.parent_sync ≡ to.parent_sync)
    pub pubkey_kept : Permitted built carried kind_pubkey ⊎ (from.pubkey ≡ to.pubkey)
    pub pubcds_kept : Permitted built carried kind_pubkey ⊎ (from.pubcds ≡ to.pubcds)

  pub record IsAgreed (built carried : ChangeKind) : Type 0 where
    pub records : (label : Str) → RecordsFit label (record_of from label) (record_of to label)
    pub signers : All SignerFits from.signers
    pub not_emptied : (from.signers ≡ []) ⊎ (is_empty to.signers ≡ false)
    pub upstreams : All UpstreamFits to.records
    pub upstream_signers : All UpstreamStays from.records
    pub changes : ChangesPermitted built carried
