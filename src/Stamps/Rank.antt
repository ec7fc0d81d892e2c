-- ===== src/Stamps/Rank.antt =====
-- v2/instr_stamp.go: the ranks of the zones that a beat may tell (the loop of entryFor). Of a zone it
-- has the stamp with what goes on in it (own, busy, theirs), what is noted of acknowledged beats, if
-- anything, and whether the peer's new epoch asks for it.
use tdns_mp.Gossip.Model.{InstrStamp}
use tdns_mp.Prelude.{
  Bool, List, Option, [], false, if◌then◌else◌, is_empty, is_none, leb, none, not, some, str_eq,
  true, ℕ, ◌&&◌, ◌+◌, ◌==◌, ◌||◌, ◌∷◌,
}
use tdns_mp.Stamps.Entry.{Ranked, ToTell}

pub record AckMark : Type 0 where
  pub hash : ℕ
  pub at : ℕ

pub record Candidate : Type 0 where
  pub stamp : ToTell
  pub mark : Option AckMark
  pub once : Bool

-- Nothing is going on in a zone by its stamp.
unfoldable pub at_rest : InstrStamp → Bool
at_rest st =
    st.known
    && is_empty st.error
    && is_empty st.refused
    && st.agreeing == 0
    && not st.reconciling
    && is_none st.step
    && is_empty st.removals
    && not st.rollover
    && st.newest == st.active
    && str_eq st.newest_digest st.active_digest

unfoldable pub same_serials : InstrStamp → InstrStamp → Bool
same_serials a b =
    a.active == b.active
    && str_eq a.active_digest b.active_digest
    && a.newest == b.newest
    && str_eq a.newest_digest b.newest_digest

-- What goes on in a zone: its stamp is not at rest, this agent has work for it with the peer, or the
-- peer's latest stamp of it is not at rest or differs.
unfoldable pub candidate_of : ToTell → Bool → Option InstrStamp → Option AckMark → Bool → Candidate
unfolding at_rest same_serials
candidate_of z work theirs mark once = record {
  stamp = record z {
    own = not (at_rest z.st);
    busy = work;
    theirs = elim theirs [
      | none ↦ false
      | some st ↦ not (at_rest st) || not (same_serials z.st st)
    ];
  };
  mark = mark;
  once = once;
}

unfoldable pub is_going : ToTell → Bool
is_going z = z.own || z.busy || z.theirs

-- The stamp changed since an acknowledged beat told it, or was told in none.
unfoldable pub is_changed : Candidate → Bool
unfolding is_going
is_changed x = elim (x.mark) [
  | none ↦ is_going x.stamp
  | some mark ↦ not (mark.hash == x.stamp.hash)
]

-- It was told `refresh` ago or more. One that was told in no beat is told as changed.
unfoldable pub is_due : Candidate → ℕ → ℕ → Bool
is_due x refresh now = elim (x.mark) [ none ↦ true | some mark ↦ leb (mark.at + refresh) now ]

unfoldable pub noted : Candidate → ℕ → ℕ → ToTell
unfolding is_changed is_going is_due
noted x refresh now = record (x.stamp) {
  changed = is_changed x;
  due = not (is_changed x) && is_going x.stamp && is_due x refresh now;
}

unfoldable pub add_ranked : Candidate → ℕ → ℕ → Ranked → Ranked
unfolding noted is_changed is_going is_due
add_ranked x refresh now r =
    let z = noted x refresh now in
    if is_changed x
    then record r { rank_changed = z ∷ r.rank_changed }
    else if is_going x.stamp && is_due x refresh now
    then record r { rank_due = z ∷ r.rank_due }
    else if is_going x.stamp
    then record r { rank_going = z ∷ r.rank_going }
    else if x.once
    then record r { rank_once = z ∷ r.rank_once }
    else r

unfoldable pub ranked_of : List Candidate → ℕ → ℕ → Ranked
unfolding add_ranked
ranked_of [] refresh now = record {
  rank_changed = [];
  rank_due = [];
  rank_going = [];
  rank_once = [];
}
ranked_of (x ∷ xs) refresh now = add_ranked x refresh now (ranked_of xs refresh now)
