-- ===== src/Judge/Rules.antt =====
-- The rules of the judge, one function for each loop or test of `judge`, and their composition.
use tdns_mp.Prelude.{
  Bool, List, Option, Str, [], bool_eq, contains, if◌then◌else◌, is_empty, is_none, none, not, some,
  sorted_unique, str_eq, ◌&&◌, ◌++◌, ◌==◌, ◌||◌,
}
use tdns_mp.Names.{Names}
use tdns_mp.Instructions.Model.{InstrRecord, Instructions, record_of}
use tdns_mp.Judge.Model.{
  Change, ChangeKind, Refusal, built_kinds, carried_kinds, changes_nsmgmt, changes_parent_sync,
  changes_pubcds, changes_pubkey, changes_upstream, collect, empties_signers, gives_server,
  identity_changed, its_record_removed, kind_nsmgmt, kind_parent_sync, kind_pubkey, kind_refused,
  kind_roles_taken, kind_server_role, kind_signer_role, kind_upstream, lacks, moves_to_signers,
  names_no_record, names_no_signer, no_record_before, not_built, other_identity, provider_name,
  record_with_role_removed, refusal, removes_record, role_without_record, set_minus,
  set_minus_pairs, signer_to_server, signers_emptied, sort_ranked, step_missing, takes_role,
  takes_upstream, to_servers_only, upstream_dangling, upstream_signer_removed,
}

-- Whether a label has a role.
abbrev pub role_in : Instructions → Str → Bool
role_in i label = contains i.servers label || contains i.signers label

abbrev pub role_given : Instructions → Instructions → Str → Bool
role_given from to label =
    (not (contains from.servers label) && contains to.servers label)
    || (not (contains from.signers label) && contains to.signers label)

module _ (n : Names) (from to : Instructions) where
  -- The switch over a label's records before and after.
  unfoldable pub judge_records : Str → Option InstrRecord → Option InstrRecord → List Refusal
  judge_records label (some f) none =
      if role_in from label
      then refusal record_with_role_removed (removes_record f.identity from.serial)
      else if role_given from to label
      then refusal role_without_record (its_record_removed (provider_name from to label))
      else []
  judge_records label none t =
      if role_given from to label
      then refusal role_without_record (no_record_before (provider_name from to label) from.serial)
      else []
  judge_records label (some f) (some t) =
      if (role_in from label || role_in to label) && not (n.equal_names f.identity t.identity)
      then refusal identity_changed (other_identity label f.identity t.identity)
      else []

  unfoldable pub judge_label : Str → List Refusal
  judge_label label = judge_records label (record_of from label) (record_of to label)

  unfoldable pub judged_labels : List Str
  judged_labels = sorted_unique (from.servers ++ (from.signers ++ (to.servers ++ to.signers)))

  unfoldable pub judge_signer : Str → List Refusal
  judge_signer label =
      if not (contains to.signers label) && contains to.servers label
      then refusal signer_to_server (to_servers_only (provider_name from to label))
      else []

  unfoldable pub judge_emptied : List Refusal
  judge_emptied =
      if not (is_empty from.signers) && is_empty to.signers
      then refusal signers_emptied (empties_signers from.signers from.serial)
      else []

  unfoldable pub judge_dangling : InstrRecord → List Refusal
  judge_dangling r =
      if is_empty r.upstream
      then []
      else if not (contains to.signers r.upstream)
      then refusal upstream_dangling (names_no_signer r.identity r.upstream to.serial)
      else if is_none (record_of to r.upstream)
      then refusal upstream_dangling (names_no_record r.identity r.upstream to.serial)
      else []

  unfoldable pub judge_upstream_signer : InstrRecord → List Refusal
  judge_upstream_signer r =
      if not (is_empty r.upstream)
        && (contains from.servers r.label
            && (contains to.servers r.label
                && (contains from.signers r.upstream && not (contains to.signers r.upstream))))
      then refusal upstream_signer_removed
          (takes_upstream (provider_name from to r.upstream) r.identity from.serial)
      else []

  module _ (built carried : ChangeKind) where
    unfoldable pub judge_kind : ChangeKind → Change → List Refusal
    judge_kind k change =
        if lacks carried k
        then refusal step_missing (kind_refused change)
        else if lacks built k
        then refusal not_built (kind_refused change)
        else []

    unfoldable pub judge_upstream : InstrRecord → Option InstrRecord → List Refusal
    judge_upstream f none = []
    judge_upstream f (some t) =
        if n.equal_names f.identity t.identity && not (str_eq f.upstream t.upstream)
        then judge_kind kind_upstream (changes_upstream f.identity)
        else []

    -- A setting that differs.
    unfoldable pub judge_setting : Bool → ChangeKind → Change → List Refusal
    judge_setting same k change = if same then [] else judge_kind k change

    unfoldable pub judge_kinds : List Refusal
    judge_kinds =
        collect (λ l. judge_kind kind_roles_taken (takes_role (provider_name from to l)))
          (set_minus_pairs from.servers to.servers from.signers to.signers)
        ++ (collect (λ l. judge_kind kind_server_role (gives_server (provider_name from to l)))
              (set_minus to.servers from.servers)
            ++ (collect
                  (λ l. judge_kind kind_signer_role (moves_to_signers (provider_name from to l)))
                  (set_minus to.signers from.signers)
                ++ (collect (λ f. judge_upstream f (record_of to f.label)) from.records
                    ++ (judge_setting (from.nsmgmt == to.nsmgmt) kind_nsmgmt changes_nsmgmt
                        ++ (judge_setting (from.parent_sync == to.parent_sync) kind_parent_sync
                              changes_parent_sync
                            ++ (judge_setting (bool_eq from.pubkey to.pubkey) kind_pubkey
                                  changes_pubkey
                                ++ judge_setting (bool_eq from.pubcds to.pubcds) kind_pubkey
                                    changes_pubcds))))))

    -- Everything that is refused, in the order in which the code finds it.
    unfoldable pub refused : List Refusal
    refused =
        collect judge_label judged_labels
        ++ (collect judge_signer from.signers
            ++ (judge_emptied
                ++ (collect judge_dangling to.records
                    ++ (collect judge_upstream_signer from.records ++ judge_kinds))))

unfoldable pub judge :
    Names → Option Instructions → Option Instructions → ChangeKind → ChangeKind → List Refusal
judge n (some from) (some to) built carried = sort_ranked (refused n from to built carried)
judge n none to built carried = []
judge n (some from) none built carried = []

unfoldable pub judge_transition : Names → Option Instructions → Option Instructions → List Refusal
judge_transition n from to = judge n from to built_kinds carried_kinds
