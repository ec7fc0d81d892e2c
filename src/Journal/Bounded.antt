-- ===== src/Journal/Bounded.antt =====
-- The journal keeps its bounds, and the newest error of a distribution is found.
use tdns_mp.Prelude.{
  Bool-cases, List, Option, Str, [], arith, if◌then◌else◌, inl, inr, length, length-append, some,
  str_eq, suc, zero, ℕ, ◌++◌, ◌+◌, ◌-◌, ◌<◌, ◌==◌, ◌∙◌, ◌∷◌, ◌≡◌, ◌≤◌,
}
use tdns_mp.Journal.Model.{
  ErrorJournal, ErrorJournalEntry, drop_first, evict_excess, evict_old, last_of, lookup_by_dist_id,
  new_error_journal, record_error, stamped,
}

length-drop_first : (n : ℕ) (es : List ErrorJournalEntry) → length (drop_first n es) ≡ length es - n
unfolding drop_first
length-drop_first zero es = omega arith
length-drop_first (suc n) [] = omega arith
length-drop_first (suc n) (e ∷ es) = omega (arith, length-drop_first n es)

length-evict_excess : (m : ℕ) (es : List ErrorJournalEntry) → 0 < m → length (evict_excess m es) < m
unfolding evict_excess
length-evict_excess m es h = ground (arith, length-drop_first (length es - m + 1) es)

last_of-append :
    (id : Str) (es : List ErrorJournalEntry) (e : ErrorJournalEntry)
    → last_of id (es ++ (e ∷ [])) ≡ (if str_eq e.distribution_id id then some e else last_of id es)
unfolding last_of
last_of-append id [] e = ground arith
last_of-append id (x ∷ es) e = elim (Bool-cases (str_eq e.distribution_id id)) [
  | inl k ↦ ground (arith, k, last_of-append id es e)
  | inr k ↦ ground (arith, k, last_of-append id es e)
]

pub data JournalEvent : Type 0 where
  recorded : ErrorJournalEntry → ℕ → JournalEvent

unfoldable pub after_errors : ErrorJournal → List JournalEvent → ErrorJournal
unfolding record_error
after_errors j [] = j
after_errors j (recorded e now ∷ es) = after_errors (record_error j e now) es

record_error-bound :
    (j : ErrorJournal) (e : ErrorJournalEntry) (now : ℕ)
    → 0 < j.max_count
    → length (record_error j e now).entries ≤ j.max_count
unfolding record_error
record_error-bound j e now h = omega (
  arith,
  length-append (evict_excess j.max_count (evict_old j now)) (stamped e now ∷ []),
  length-evict_excess j.max_count (evict_old j now) h,
)

after_errors-bound :
    (j : ErrorJournal) (es : List JournalEvent)
    → 0 < j.max_count
    → length j.entries ≤ j.max_count
    → length (after_errors j es).entries ≤ j.max_count
unfolding after_errors record_error
after_errors-bound j [] h k = k
after_errors-bound j (recorded e now ∷ es) h k =
    after_errors-bound (record_error j e now) es h (record_error-bound j e now h)

-- A journal made with any limits holds, after any errors, no more than its maximal number of
-- entries, which is the limit given, or 1000 when that is not positive.
pub journal-bound :
    (max_count max_age : ℕ) (es : List JournalEvent)
    → let j = after_errors (new_error_journal max_count max_age) es in
      length j.entries ≤ (if max_count == 0 then 1000 else max_count)
unfolding new_error_journal
journal-bound max_count max_age es =
    after_errors-bound (new_error_journal max_count max_age) es (ground arith) (ground arith)

stamped_id :
    (e : ErrorJournalEntry) (now : ℕ) (id : Str) (o : Option ErrorJournalEntry)
    → (if str_eq (stamped e now).distribution_id id then some (stamped e now) else o)
      ≡ (if str_eq e.distribution_id id then some (stamped e now) else o)
unfolding stamped
stamped_id e now id o = ground arith

-- An error that was just recorded is the one found for its distribution, with its time filled in
-- if it had none; for any other distribution the journal finds what the entries it kept give.
lookup_by_dist_id-record_error :
    (j : ErrorJournal) (e : ErrorJournalEntry) (now : ℕ) (id : Str)
    → lookup_by_dist_id (record_error j e now) id ≡ (
        if str_eq e.distribution_id id
        then some (stamped e now)
        else last_of id (evict_excess j.max_count (evict_old j now)))
unfolding lookup_by_dist_id record_error
lookup_by_dist_id-record_error j e now id =
    last_of-append id (evict_excess j.max_count (evict_old j now)) (stamped e now)
    ∙ stamped_id e now id (last_of id (evict_excess j.max_count (evict_old j now)))
