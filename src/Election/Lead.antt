-- ===== src/Election/Lead.antt =====
-- v2/parentsync_leader.go: naming a leader (noteLeaderLocked), the renewal of its lease
-- (scheduleGroupReelection, renewalDelay), the retry, and votes that come early.
use tdns_mp.Prelude.{
  Bool, List, Str, [], if◌then◌else◌, is_empty, leb, length, ltb, none, not, put, some, sort,
  str_eq, ℕ, ◌&&◌, ◌*◌, ◌++◌, ◌+◌, ◌/◌, ◌==◌, ◌||◌, ◌∷◌,
}
use tdns_mp.Election.Model.{Effect, LeaderElection, lead_lost, leader_named}

-- The election, the manager's count of leads, and what is called. `leads.Add(1)` is the count after.
unfoldable pub note_leader : Str → ℕ → LeaderElection → Str → ℕ → LeaderElection × ℕ × List Effect
note_leader local leads e leader now =
    let named : List Effect = if is_empty leader then [] else leader_named ∷ [] in
    if not (str_eq leader local)
    then (if not (is_empty leader) && not (e.hold_start == 0)
        then (
          record e { hold_start = 0; lead_start = 0 },
          leads,
          named ++ (lead_lost e.hold_start ∷ []),
        )
        else (record e { lead_start = 0 }, leads, named))
    else (let fresh = not (str_eq e.leader local) || e.lead_start == 0 || ltb e.leader_expiry now in
        let start = if fresh then leads + 1 else e.lead_start in
        (
          record e {
            lead_start = start;
            hold_start = if e.hold_start == 0 then start else e.hold_start;
          },
          if fresh then leads + 1 else leads,
          named,
        ))

abbrev pub max_renewal_step : ℕ
max_renewal_step = 10000000000

-- The loop over the sorted members: the rank of this member, from `rank` on.
unfoldable pub renewal_rank : Str → Str → List Str → ℕ → ℕ
renewal_rank local leader [] rank = rank
renewal_rank local leader (m ∷ ms) rank =
    let next = renewal_rank local leader ms (if str_eq m leader then rank else rank + 1) in
    if str_eq m local then rank else next

unfoldable pub renewal_delay : Str → ℕ → Str → List Str → ℕ
unfolding renewal_rank
renewal_delay local ttl leader members =
    let base = ttl * 9 / 10 in
    let step = ttl / 10 / (length members + 2) in
    if str_eq leader local
    then base
    else base
      + renewal_rank local leader (sort members) 1
        * (if ltb max_renewal_step step then max_renewal_step else step)

unfoldable pub schedule_group_reelection : Str → ℕ → List Str → LeaderElection → LeaderElection
unfolding renewal_delay
schedule_group_reelection local ttl members e =
    if e.gone
    then record e { reelect_timer = none }
    else record e { reelect_timer = some (e.term, renewal_delay local ttl e.leader members) }

unfoldable pub retry_group_election : ℕ → LeaderElection → LeaderElection
retry_group_election term e = if e.gone then e else record e { retry_timer = some term }

unfoldable pub keep_early_vote : ℕ → Str → ℕ → LeaderElection → LeaderElection
unfolding put
keep_early_vote term sender vote e =
    if leb term e.term || ltb term e.early_term
    then e
    else if ltb e.early_term term
    then record e { early_term = term; early_votes = (sender, vote) ∷ [] }
    else record e { early_votes = put sender vote e.early_votes }

unfoldable pub put_all : List (Str × ℕ) → List (Str × ℕ) → List (Str × ℕ)
unfolding put
put_all [] votes = votes
put_all (x ∷ xs) votes = put_all xs (put x.0 x.1 votes)

unfoldable pub take_early_votes : ℕ → Bool → LeaderElection → LeaderElection
unfolding put_all
take_early_votes term apply e =
    let votes = if apply && e.early_term == term then put_all e.early_votes e.votes else e.votes in
    if leb e.early_term term
    then record e { votes = votes; early_term = 0; early_votes = [] }
    else record e { votes = votes }
