-- ===== src/Judge/Decides.antt =====
-- The judge refuses nothing exactly when the change is agreed to.
use tdns_mp.Prelude.{
  All, Bool-cases, List, Str, [], arith, contains, inl, inr, refl, ◌++◌, ◌↔◌, ◌∷◌, ◌≡◌, Bool,
  Option, ap, contains-sorted_unique, false, is_empty, none, some, sorted_unique, str_eq_iff, true,
  ◌≢◌, ◌⊎◌, head_in,
}
use tdns_mp.Judge.Model.{
  collect, minus, Change, ChangeKind, Refusal, changes_upstream, insert_ranked, kind_upstream,
  sort_ranked, set_minus, set_minus_pairs,
}
use tdns_mp.Judge.Agreed.{
  Subset, Permitted, RecordsFit, SameUpstream, SignerFits, UpstreamFits, UpstreamStays,
}
use tdns_mp.Instructions.Model.{InstrRecord, Instructions, record_of}
use tdns_mp.Judge.Rules.{
  judge_dangling, judge_emptied, judge_kind, judge_records, judge_setting, judge_signer,
  judge_upstream, judge_upstream_signer,
}
use tdns_mp.Names.{Names}
use tdns_mp.Instructions.Standings.{contains-nil}

pub append_nil_iff {ℓ} : {A : Type ℓ} (xs ys : List A) → (xs ++ ys ≡ []) ↔ ((xs ≡ []) × (ys ≡ []))
append_nil_iff [] ys = ground arith
append_nil_iff (x ∷ xs) ys = ground arith

-- Nothing in either list.
pub and_iff :
    {A P Q : Type 0} (xs ys : List A) → (xs ≡ []) ↔ P → (ys ≡ []) ↔ Q → (xs ++ ys ≡ []) ↔ (P × Q)
and_iff xs ys p q = (
  λ e. let h = (append_nil_iff xs ys).0 e in (p.0 h.0, q.0 h.1),
  λ h. (append_nil_iff xs ys).1 (p.1 h.0, q.1 h.1),
)

pub collect_nil_iff :
    {A B : Type 0} (P : A → Type 0) (f : A → List B)
    → ((x : A) → (f x ≡ []) ↔ P x)
    → (xs : List A) → (collect f xs ≡ []) ↔ All P xs
unfolding collect
collect_nil_iff P f h [] = (λ e. tt, λ e. refl)
collect_nil_iff P f h (x ∷ xs) = (
  λ e.
      let p = (append_nil_iff (f x) (collect f xs)).0 e in
      ((h x).0 p.0, (collect_nil_iff P f h xs).0 p.1),
  λ k. (append_nil_iff (f x) (collect f xs)).1 ((h x).1 k.0, (collect_nil_iff P f h xs).1 k.1),
)

minus_nil_iff : (xs ys : List Str) → (minus xs ys ≡ []) ↔ Subset xs ys
unfolding minus
minus_nil_iff [] ys = (λ e. tt, λ e. refl)
minus_nil_iff (x ∷ xs) ys = elim (Bool-cases (contains ys x)) [
  | inl y ↦ rw y (ground (arith, minus_nil_iff xs ys))
  | inr n ↦ rw n (λ e. absurd (cc), λ k. absurd (cc (k.0)))
]

sorted_unique_nil_iff : (xs : List Str) → (sorted_unique xs ≡ []) ↔ (xs ≡ [])
sorted_unique_nil_iff [] = (λ e. refl, λ e. unfold sorted_unique in refl)
sorted_unique_nil_iff (x ∷ xs) = (
  λ e. absurd (
      cc (
        contains-nil x,
        ap (λ l. contains l x) e,
        contains-sorted_unique (x ∷ xs) x,
        head_in x xs,
      )),
  λ e. absurd (cc),
)

insert_ranked-cons : (r : Refusal) (qs : List Refusal) → insert_ranked r qs ≢ []
unfolding insert_ranked
insert_ranked-cons r [] = λ e. cc
insert_ranked-cons r (q ∷ qs) = ground arith

pub sort_ranked_nil_iff : (rs : List Refusal) → (sort_ranked rs ≡ []) ↔ (rs ≡ [])
unfolding sort_ranked
sort_ranked_nil_iff [] = (λ e. refl, λ e. refl)
sort_ranked_nil_iff (r ∷ rs) =
    (λ e. absurd (insert_ranked-cons r (sort_ranked rs) e), λ e. absurd (cc))

-- A permission that does not depend on the element stands for all of them.
All-or_iff : {A P : Type 0} (Q : A → Type 0) (xs : List A) → All (λ x. P ⊎ Q x) xs ↔ (P ⊎ All Q xs)
All-or_iff Q [] = (λ h. inr tt, λ h. tt)
All-or_iff Q (x ∷ xs) = (
  λ h. elim (h.0) [
    | inl p ↦ inl p
    | inr q ↦ elim ((All-or_iff Q xs).0 h.1) [ inl p ↦ inl p | inr qs ↦ inr (q, qs) ]
  ],
  λ h. elim h [
    | inl p ↦ (inl p, (All-or_iff Q xs).1 (inl p))
    | inr qs ↦ (inr qs.0, (All-or_iff Q xs).1 (inr qs.1))
  ],
)

module _ (n : Names) (from to : Instructions) where
  pub fits_iff :
      (l : Str) (f t : Option InstrRecord)
      → (judge_records n from to l f t ≡ []) ↔ RecordsFit n from to l f t
  unfolding judge_records
  fits_iff l (some f) none = ground arith
  fits_iff l none none = ground arith
  fits_iff l none (some t) = ground arith
  fits_iff l (some f) (some t) = ground arith

  pub signer_iff : (l : Str) → (judge_signer n from to l ≡ []) ↔ SignerFits n from to l
  unfolding judge_signer
  signer_iff l = ground arith

  is_empty_iff {ℓ} : {A : Type ℓ} (xs : List A) → (is_empty xs ≡ true) ↔ (xs ≡ [])
  is_empty_iff [] = ground arith
  is_empty_iff (x ∷ xs) = ground arith

  pub emptied_iff :
      (judge_emptied n from to ≡ []) ↔ ((from.signers ≡ []) ⊎ (is_empty to.signers ≡ false))
  unfolding judge_emptied
  emptied_iff = ground (arith, is_empty_iff from.signers)

  pub dangling_iff :
      (r : InstrRecord) → (judge_dangling n from to r ≡ []) ↔ UpstreamFits n from to r
  unfolding judge_dangling
  dangling_iff r = ground (arith, is_empty_iff r.upstream)

  pub upstream_signer_iff :
      (r : InstrRecord) → (judge_upstream_signer n from to r ≡ []) ↔ UpstreamStays n from to r
  unfolding judge_upstream_signer
  upstream_signer_iff r = ground (arith, is_empty_iff r.upstream)

  module _ (built carried : ChangeKind) where
    kind_iff :
        (k : ChangeKind) (c : Change)
        → (judge_kind n from to built carried k c ≡ []) ↔ Permitted built carried k
    unfolding judge_kind
    kind_iff k c = ground arith

    pub kinds_iff :
        (k : ChangeKind) (c : Str → Change) (xs : List Str)
        → (collect (λ l. judge_kind n from to built carried k (c l)) xs ≡ [])
          ↔ (Permitted built carried k ⊎ (xs ≡ []))
    unfolding collect
    kinds_iff k c [] = (λ e. inr refl, λ h. refl)
    kinds_iff k c (x ∷ xs) =
        let rest = collect (λ l. judge_kind n from to built carried k (c l)) xs in
        let first = judge_kind n from to built carried k (c x) in
        (
          λ e. inl ((kind_iff k (c x)).0 ((append_nil_iff first rest).0 e).0),
          λ h. elim h [
            | inl p ↦
                (append_nil_iff first rest).1 ((kind_iff k (c x)).1 p, (kinds_iff k c xs).1 (inl p))
            | inr e ↦ absurd (cc)
          ],
        )

    pub setting_iff :
        (same : Bool) (k : ChangeKind) (c : Change)
        → (judge_setting n from to built carried same k c ≡ [])
          ↔ (Permitted built carried k ⊎ (same ≡ true))
    unfolding judge_setting
    setting_iff same k c = ground (arith, kind_iff k c)

    upstream_iff :
        (f : InstrRecord) (t : Option InstrRecord)
        → (judge_upstream n from to built carried f t ≡ [])
          ↔ (Permitted built carried kind_upstream ⊎ SameUpstream n from to f t)
    unfolding judge_upstream
    upstream_iff f none = (λ e. inr tt, λ h. refl)
    upstream_iff f (some t) = ground (
      arith,
      kind_iff kind_upstream (changes_upstream f.identity),
      str_eq_iff f.upstream t.upstream,
    )

    pub upstream_loop_iff :
        (collect (λ f. judge_upstream n from to built carried f (record_of to f.label)) from.records
          ≡ [])
        ↔ (Permitted built carried kind_upstream
            ⊎ All (λ f. SameUpstream n from to f (record_of to f.label)) from.records)
    upstream_loop_iff =
        let each =
          collect_nil_iff
            (λ f.
              Permitted built carried kind_upstream
              ⊎ SameUpstream n from to f (record_of to f.label))
            (λ f. judge_upstream n from to built carried f (record_of to f.label))
            (λ f. upstream_iff f (record_of to f.label)) from.records in
        let spread =
          All-or_iff {P = Permitted built carried kind_upstream}
            (λ f. SameUpstream n from to f (record_of to f.label)) from.records in
        (λ e. spread.0 (each.0 e), λ h. each.1 (spread.1 h))

    pub taken_iff :
        (set_minus_pairs from.servers to.servers from.signers to.signers ≡ [])
        ↔ (Subset from.servers to.servers × Subset from.signers to.signers)
    unfolding set_minus_pairs
    taken_iff = ground (
      arith,
      sorted_unique_nil_iff (minus from.servers to.servers ++ minus from.signers to.signers),
      append_nil_iff (minus from.servers to.servers) (minus from.signers to.signers),
      minus_nil_iff from.servers to.servers,
      minus_nil_iff from.signers to.signers,
    )

    pub given_iff : (xs ys : List Str) → (set_minus xs ys ≡ []) ↔ Subset xs ys
    unfolding set_minus
    given_iff xs ys = ground (arith, sorted_unique_nil_iff (minus xs ys), minus_nil_iff xs ys)
