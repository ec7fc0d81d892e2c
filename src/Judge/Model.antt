-- ===== src/Judge/Model.antt =====
-- The judge of v2/transition_judge.go. A reason is kept as the data that its text is made from.
use Prim.Native.Nat.{bit_and, bit_or, ℕ}
use tdns_mp.Prelude.{
  Bool, List, Option, Str, [], contains, if◌then◌else◌, keep, leb, none, not, some, sorted_unique,
  str, ◌++◌, ◌==◌, ◌∷◌,
}
use tdns_mp.Instructions.Model.{InstrRecord, Instructions, record_of}

pub data Code : Type 0 where
  record_with_role_removed role_without_record identity_changed signer_to_server : Code
  signers_emptied upstream_dangling upstream_signer_removed step_missing not_built : Code

-- refusalRank.
abbrev pub rank : Code → ℕ
rank record_with_role_removed = 1
rank role_without_record = 2
rank identity_changed = 3
rank signer_to_server = 4
rank signers_emptied = 5
rank upstream_dangling = 6
rank upstream_signer_removed = 7
rank step_missing = 8
rank not_built = 9

-- What a kind of change is, for the reasons of step_missing and not_built.
pub data Change : Type 0 where
  takes_role gives_server moves_to_signers changes_upstream : Str → Change
  changes_nsmgmt changes_parent_sync changes_pubkey changes_pubcds : Change

pub data Reason : Type 0 where
  removes_record : Str → ℕ → Reason
  no_record_before : Str → ℕ → Reason
  its_record_removed : Str → Reason
  other_identity : Str → Str → Str → Reason
  to_servers_only : Str → Reason
  empties_signers : List Str → ℕ → Reason
  names_no_signer : Str → Str → ℕ → Reason
  names_no_record : Str → Str → ℕ → Reason
  takes_upstream : Str → Str → ℕ → Reason
  kind_refused : Change → Reason

pub record Refusal : Type 0 where
  pub code : Code
  pub reason : Reason

abbrev pub refusal : Code → Reason → List Refusal
refusal c r = record { code = c; reason = r } ∷ []

-- changeKind: one bit for each kind.
abbrev pub ChangeKind : Type 0
ChangeKind = ℕ

abbrev pub kind_roles_taken : ChangeKind
kind_roles_taken = 1

abbrev pub kind_server_role : ChangeKind
kind_server_role = 2

abbrev pub kind_signer_role : ChangeKind
kind_signer_role = 4

abbrev pub kind_nsmgmt : ChangeKind
kind_nsmgmt = 8

abbrev pub kind_parent_sync : ChangeKind
kind_parent_sync = 16

abbrev pub kind_upstream : ChangeKind
kind_upstream = 32

abbrev pub kind_pubkey : ChangeKind
kind_pubkey = 64

abbrev pub built_kinds : ChangeKind
built_kinds = 0

abbrev pub carried_kinds : ChangeKind
carried_kinds =
    bit_or kind_roles_taken
      (bit_or kind_server_role (bit_or kind_nsmgmt (bit_or kind_parent_sync kind_pubkey)))

-- `mask & k == 0`.
unfoldable pub lacks : ChangeKind → ChangeKind → Bool
lacks mask k = bit_and mask k == 0

-- A loop that appends what each round refuses.
unfoldable pub collect {ℓ κ} : {A : Type ℓ} {B : Type κ} → (A → List B) → List A → List B
collect f [] = []
collect f (x ∷ xs) = f x ++ collect f xs

unfoldable pub minus : List Str → List Str → List Str
minus xs ys = keep (λ l. not (contains ys l)) xs

-- setMinus with one pair, and with two.
unfoldable pub set_minus : List Str → List Str → List Str
set_minus a b = sorted_unique (minus a b)

unfoldable pub set_minus_pairs : List Str → List Str → List Str → List Str → List Str
set_minus_pairs a b c d = sorted_unique (minus a b ++ minus c d)

-- The stable sort of the refusals by their rank.
unfoldable pub insert_ranked : Refusal → List Refusal → List Refusal
insert_ranked r [] = r ∷ []
insert_ranked r (q ∷ qs) =
    let rest = insert_ranked r qs in
    if leb (rank r.code) (rank q.code) then r ∷ q ∷ qs else q ∷ rest

unfoldable pub sort_ranked : List Refusal → List Refusal
unfolding insert_ranked
sort_ranked [] = []
sort_ranked (r ∷ rs) = insert_ranked r (sort_ranked rs)

-- The provider under a label, by its identity under the new or the old instructions.
name_or : Option InstrRecord → Str → Str
name_or none other = other
name_or (some r) other = r.identity

unfoldable pub provider_name : Instructions → Instructions → Str → Str
unfolding name_or
provider_name from to label =
    name_or (record_of to label) (name_or (record_of from label) (str "label " ++ label))
