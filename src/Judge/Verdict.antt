-- ===== src/Judge/Verdict.antt =====
-- The judge's verdict: what it refuses, what it agrees to, and in which order it gives its reasons.
use tdns_mp.Prelude.{
  All-contains, All-intro, Bool-cases, Option, Str, [], arith, contains, contains-sorted_unique,
  false, inl, inr, none, some, sym, ◌++◌, ◌||◌, ◌↔◌, ◌∙◌, ◌≡◌, ==_iff, Bool, bool_eq, true, ◌⊎◌,
}
use tdns_mp.Names.{Names}
use tdns_mp.Instructions.Model.{InstrRecord, Instructions, record_of}
use tdns_mp.Instructions.Standings.{contains-append}
use tdns_mp.Judge.Model.{
  ChangeKind, collect, changes_nsmgmt, changes_parent_sync, changes_pubcds, changes_pubkey,
  gives_server, kind_nsmgmt, kind_parent_sync, kind_pubkey, kind_roles_taken, kind_server_role,
  kind_signer_role, moves_to_signers, provider_name, takes_role,
}
use tdns_mp.Judge.Rules.{
  judge_kinds, judge_label, judged_labels, role_in, judge, judge_dangling, judge_signer,
  judge_upstream_signer, refused,
}
use tdns_mp.Judge.Agreed.{
  ChangesPermitted, IsAgreed, RecordsFit, SignerFits, UpstreamFits, UpstreamStays,
}
use tdns_mp.Judge.Decides.{
  collect_nil_iff, fits_iff, upstream_loop_iff, and_iff, given_iff, kinds_iff, setting_iff,
  taken_iff, dangling_iff, emptied_iff, signer_iff, sort_ranked_nil_iff, upstream_signer_iff,
}

module _ (n : Names) (from to : Instructions) where
  fits_without_role :
      (l : Str) (f t : Option InstrRecord)
      → role_in from l ≡ false
      → role_in to l ≡ false
      → RecordsFit n from to l f t
  fits_without_role l (some f) none a b = ground arith
  fits_without_role l none t a b = ground arith
  fits_without_role l (some f) (some t) a b = inl (a, b)

  contains-judged_labels :
      (l : Str) → contains (judged_labels n from to) l ≡ (role_in from l || role_in to l)
  unfolding judged_labels
  contains-judged_labels l = ground (
    arith,
    contains-sorted_unique (from.servers ++ (from.signers ++ (to.servers ++ to.signers))) l,
    contains-append from.servers (from.signers ++ (to.servers ++ to.signers)) l,
    contains-append from.signers (to.servers ++ to.signers) l,
    contains-append to.servers to.signers l,
  )

  labels_iff :
      (collect (judge_label n from to) (judged_labels n from to) ≡ [])
      ↔ ((l : Str) → RecordsFit n from to l (record_of from l) (record_of to l))
  labels_iff =
      let P : Str → Type 0 = λ l. RecordsFit n from to l (record_of from l) (record_of to l) in
      let each =
        collect_nil_iff P (judge_label n from to)
          (λ l. unfold judge_label in fits_iff n from to l (record_of from l) (record_of to l))
          (judged_labels n from to) in
      (
        λ e l. elim (Bool-cases (contains (judged_labels n from to) l)) [
          | inl y ↦ All-contains P (judged_labels n from to) l (each.0 e) y
          | inr no_role ↦
              let h = sym (contains-judged_labels l) ∙ no_role in
              fits_without_role l (record_of from l) (record_of to l) (ground arith) (ground arith)
        ],
        λ h. each.1 (All-intro (judged_labels n from to) h),
      )

  module _ (built carried : ChangeKind) where
    iff_or : {A B P Q : Type 0} → A ↔ (P ⊎ B) → B ↔ Q → A ↔ (P ⊎ Q)
    iff_or f g = (
      λ a. elim (f.0 a) [ inl p ↦ inl p | inr b ↦ inr (g.0 b) ],
      λ h. elim h [ inl p ↦ f.1 (inl p) | inr q ↦ f.1 (inr (g.1 q)) ],
    )

    bool_eq_iff : (a b : Bool) → (bool_eq a b ≡ true) ↔ (a ≡ b)
    bool_eq_iff a b = ground arith

    changes_iff :
        (judge_kinds n from to built carried ≡ []) ↔ ChangesPermitted n from to built carried
    unfolding judge_kinds
    changes_iff =
        let chain =
          and_iff _ _
            (iff_or
              (kinds_iff n from to built carried kind_roles_taken
                (λ l. takes_role (provider_name from to l)) _)
              (taken_iff n from to built carried))
            (and_iff _ _
              (iff_or
                (kinds_iff n from to built carried kind_server_role
                  (λ l. gives_server (provider_name from to l)) _)
                (given_iff n from to built carried to.servers from.servers))
              (and_iff _ _
                (iff_or
                  (kinds_iff n from to built carried kind_signer_role
                    (λ l. moves_to_signers (provider_name from to l)) _)
                  (given_iff n from to built carried to.signers from.signers))
                (and_iff _ _ (upstream_loop_iff n from to built carried) (
                  and_iff _ _
                    (iff_or (setting_iff n from to built carried _ kind_nsmgmt changes_nsmgmt)
                      (==_iff from.nsmgmt to.nsmgmt))
                    (and_iff _ _
                      (iff_or
                        (setting_iff n from to built carried _ kind_parent_sync changes_parent_sync)
                        (==_iff from.parent_sync to.parent_sync))
                      (and_iff _ _
                        (iff_or (setting_iff n from to built carried _ kind_pubkey changes_pubkey)
                          (bool_eq_iff from.pubkey to.pubkey))
                        (iff_or (setting_iff n from to built carried _ kind_pubkey changes_pubcds)
                          (bool_eq_iff from.pubcds to.pubcds)))))))) in
        (
          λ e.
              let h = chain.0 e in
              record {
                roles_taken = h.0;
                servers_given = h.1.0;
                signers_given = h.1.1.0;
                upstreams = h.1.1.1.0;
                nsmgmt_kept = h.1.1.1.1.0;
                parent_sync_kept = h.1.1.1.1.1.0;
                pubkey_kept = h.1.1.1.1.1.1.0;
                pubcds_kept = h.1.1.1.1.1.1.1;
              },
          λ c. chain.1 (
            c.roles_taken,
            (
              c.servers_given,
              (
                c.signers_given,
                (
                  c.upstreams,
                  (c.nsmgmt_kept, (c.parent_sync_kept, (c.pubkey_kept, c.pubcds_kept))),
                ),
              ),
            ),
          ),
        )

    refused_iff : (refused n from to built carried ≡ []) ↔ IsAgreed n from to built carried
    unfolding refused
    refused_iff =
        let chain = and_iff _ _ labels_iff (
          and_iff _ _
            (collect_nil_iff (SignerFits n from to) (judge_signer n from to) (signer_iff n from to)
              from.signers)
            (and_iff _ _ (emptied_iff n from to) (
              and_iff _ _
                (collect_nil_iff (UpstreamFits n from to) (judge_dangling n from to)
                  (dangling_iff n from to) to.records)
                (and_iff _ _
                  (collect_nil_iff (UpstreamStays n from to) (judge_upstream_signer n from to)
                    (upstream_signer_iff n from to) from.records)
                  changes_iff)))) in
        (
          λ e.
              let h = chain.0 e in
              record {
                records = h.0;
                signers = h.1.0;
                not_emptied = h.1.1.0;
                upstreams = h.1.1.1.0;
                upstream_signers = h.1.1.1.1.0;
                changes = h.1.1.1.1.1;
              },
          λ a. chain.1 (
            a.records,
            (a.signers, (a.not_emptied, (a.upstreams, (a.upstream_signers, a.changes)))),
          ),
        )

-- The judge refuses a change of instructions in no respect exactly when it is agreed to: every
-- record fits the roles of its label before and after, no signer becomes a server only, signers= is
-- not emptied, every upstream under the new instructions names a signer with a record, no upstream
-- of a staying server leaves signers=, and every change is of a kind that can be carried out and
-- is built. For every way to compare names and every choice of built and carried kinds.
pub judge-IsAgreed :
    (n : Names) (from to : Instructions) (built carried : ChangeKind)
    → (judge n (some from) (some to) built carried ≡ []) ↔ IsAgreed n from to built carried
unfolding judge
judge-IsAgreed n from to built carried =
    let s = sort_ranked_nil_iff (refused n from to built carried) in
    let r = refused_iff n from to built carried in (λ e. r.0 (s.0 e), λ a. s.1 (r.1 a))
