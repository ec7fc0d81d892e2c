-- ===== src/Judge/Examples.antt =====
-- Tests and witnesses of the judge.
use tdns_mp.Prelude.{
  All, List, Str, StrictlySorted, [], contains, false, refl, some, sorted_unique,
  sorted_unique-StrictlySorted, str, str_eq, str_leb, true, ◌↔◌, ◌∷◌, ◌≡◌,
}
use tdns_mp.Names.{ascii_names}
use tdns_mp.Instructions.Model.{InstrRecord, Instructions, record_of}
use tdns_mp.Judge.Model.{
  Code, Refusal, collect, lacks, minus, not_built, record_with_role_removed, set_minus,
  set_minus_pairs, signers_emptied, sort_ranked, upstream_dangling, upstream_signer_removed,
}
use tdns_mp.Judge.Rules.{
  judge, judge_dangling, judge_emptied, judge_kind, judge_kinds, judge_label, judge_records,
  judge_setting, judge_signer, judge_transition, judge_upstream, judge_upstream_signer,
  judged_labels, refused,
}
use tdns_mp.Judge.Agreed.{IsAgreed, SameUpstream}
use tdns_mp.Judge.Verdict.{judge-IsAgreed}
use tdns_mp.Judge.Order.{judge_transition-keeps}

abbrev alice : InstrRecord
alice = record { label = str "a"; identity = str "alice."; upstream = [] }

abbrev bob : InstrRecord
bob = record { label = str "b"; identity = str "bob."; upstream = str "a" }

abbrev old : Instructions
old = record {
  serial = 7;
  has_param = true;
  records = alice ∷ bob ∷ [];
  off = [];
  servers = str "a" ∷ str "b" ∷ [];
  signers = str "a" ∷ [];
  auditors = [];
  nsmgmt = 1;
  parent_sync = 1;
  suffix = [];
  pubkey = false;
  pubcds = false;
}

-- The signer goes, with its record.
abbrev broken : Instructions
broken = record old { serial = 8; records = bob ∷ []; servers = str "b" ∷ []; signers = [] }

-- A change of nothing that the code acts by.
abbrev renewed : Instructions
renewed = record old { serial = 8; auditors = str "b" ∷ [] }

codes_of : List Refusal → List Code
codes_of [] = []
codes_of (r ∷ rs) = r.code ∷ codes_of rs

broken_refused :
    codes_of (judge_transition ascii_names (some old) (some broken))
    ≡ record_with_role_removed ∷ signers_emptied ∷ upstream_dangling ∷ upstream_signer_removed
      ∷ not_built ∷ []
unfolding codes_of judge_transition judge refused judge_label judge_records judged_labels
    judge_signer judge_emptied judge_dangling judge_upstream_signer judge_kinds judge_upstream
    judge_setting judge_kind collect sort_ranked set_minus set_minus_pairs minus lacks contains
    str_eq sorted_unique str_leb ascii_names
broken_refused = refl

renewed_agreed : judge_transition ascii_names (some old) (some renewed) ≡ []
unfolding judge_transition judge refused judge_label judge_records judged_labels judge_signer
    judge_emptied judge_dangling judge_upstream_signer judge_kinds judge_upstream judge_setting
    judge_kind collect sort_ranked set_minus set_minus_pairs minus lacks contains str_eq
    sorted_unique str_leb ascii_names
renewed_agreed = refl

judge-IsAgreed_example :
    (judge ascii_names (some old) (some broken) 127 127 ≡ [])
    ↔ IsAgreed ascii_names old broken 127 127
judge-IsAgreed_example = judge-IsAgreed ascii_names old broken 127 127

one_sorted : (l : Str) → StrictlySorted (l ∷ [])
one_sorted l = (tt, tt)

two_sorted : StrictlySorted (str "a" ∷ str "b" ∷ [])
unfolding sorted_unique str_leb str_eq
two_sorted = sorted_unique-StrictlySorted (str "a" ∷ str "b" ∷ [])

judge_transition-keeps_example :
    (old.servers ≡ renewed.servers)
    × (old.signers ≡ renewed.signers)
    × (old.nsmgmt ≡ renewed.nsmgmt)
    × (old.parent_sync ≡ renewed.parent_sync)
    × (old.pubkey ≡ renewed.pubkey)
    × (old.pubcds ≡ renewed.pubcds)
    × All
        (λ f. SameUpstream ascii_names old renewed f (record_of renewed f.label))
        (alice ∷ bob ∷ [])
judge_transition-keeps_example =
    judge_transition-keeps ascii_names old renewed two_sorted two_sorted (one_sorted (str "a"))
      (one_sorted (str "a")) renewed_agreed
