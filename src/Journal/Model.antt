-- ===== src/Journal/Model.antt =====
-- v2/error_journal.go: the bounded, time-windowed journal of the combiner's errors. A time is a
-- number of nanoseconds since the zero time.
use tdns_mp.Prelude.{
  List, Option, Str, [], if◌then◌else◌, keep, leb, length, ltb, none, some, str_eq, suc, zero, ℕ,
  ◌++◌, ◌+◌, ◌-◌, ◌==◌, ◌∷◌,
}

pub record ErrorJournalEntry : Type 0 where
  pub distribution_id : Str
  pub sender : Str
  pub message_type : Str
  pub error_msg : Str
  pub qname : Str
  pub timestamp : ℕ

pub record ErrorJournal : Type 0 where
  pub entries : List ErrorJournalEntry
  pub max_count : ℕ
  pub max_age : ℕ

-- A limit that is not positive is 0 here.
unfoldable pub new_error_journal : ℕ → ℕ → ErrorJournal
new_error_journal max_count max_age = record {
  entries = [];
  max_count = if max_count == 0 then 1000 else max_count;
  max_age = if max_age == 0 then 86400000000000 else max_age;
}

-- The entries from the first on that is not before the cutoff.
unfoldable pub evict_before : ℕ → List ErrorJournalEntry → List ErrorJournalEntry
evict_before cutoff [] = []
evict_before cutoff (e ∷ es) =
    let rest = evict_before cutoff es in if ltb e.timestamp cutoff then rest else e ∷ es

-- entries[excess:]
unfoldable pub drop_first : ℕ → List ErrorJournalEntry → List ErrorJournalEntry
drop_first zero es = es
drop_first (suc n) [] = []
drop_first (suc n) (e ∷ es) = drop_first n es

-- A cutoff before the zero time is the zero time here: no entry is before either.
unfoldable pub evict_old : ErrorJournal → ℕ → List ErrorJournalEntry
unfolding evict_before
evict_old j now = evict_before (now - j.max_age) j.entries

-- Room for one entry more.
unfoldable pub evict_excess : ℕ → List ErrorJournalEntry → List ErrorJournalEntry
unfolding drop_first
evict_excess max_count es =
    if leb max_count (length es) then drop_first (length es - max_count + 1) es else es

-- An entry with no time gets the time of the call.
unfoldable pub stamped : ErrorJournalEntry → ℕ → ErrorJournalEntry
stamped e now = if e.timestamp == 0 then record e { timestamp = now } else e

unfoldable pub record_error : ErrorJournal → ErrorJournalEntry → ℕ → ErrorJournal
unfolding evict_old evict_excess stamped
record_error j e now = record j {
  entries = evict_excess j.max_count (evict_old j now) ++ (stamped e now ∷ []);
}

unfoldable pub list_since : ErrorJournal → ℕ → ℕ → List ErrorJournalEntry
list_since j duration now = keep (λ e. ltb (now - duration) e.timestamp) j.entries

-- The last entry of the distribution.
unfoldable pub last_of : Str → List ErrorJournalEntry → Option ErrorJournalEntry
last_of id [] = none
last_of id (e ∷ es) = elim (last_of id es) [
  | some found ↦ some found
  | none ↦ if str_eq e.distribution_id id then some e else none
]

unfoldable pub lookup_by_dist_id : ErrorJournal → Str → Option ErrorJournalEntry
unfolding last_of
lookup_by_dist_id j id = last_of id j.entries
