-- ===== src/Journal/Examples.antt =====
-- Tests and witnesses of the journal: two entries at most.
use tdns_mp.Prelude.{
  List, Str, [], if◌then◌else◌, length, none, refl, str, str_eq, ◌==◌, ◌∷◌, ◌≡◌, ◌≤◌,
}
use tdns_mp.Journal.Model.{
  ErrorJournal, ErrorJournalEntry, lookup_by_dist_id, new_error_journal, record_error,
}
use tdns_mp.Journal.Bounded.{JournalEvent, after_errors, journal-bound, recorded}

abbrev entry : Str → ErrorJournalEntry
entry id = record {
  distribution_id = id;
  sender = str "agent.";
  message_type = str "sync";
  error_msg = str "bad signature";
  qname = str "q.";
  timestamp = 0;
}

abbrev errors : List JournalEvent
errors =
    recorded (entry (str "a")) 10
    ∷ recorded (entry (str "b")) 11
    ∷ recorded (entry (str "c")) 12
    ∷ []

journal-bound_example :
    length (after_errors (new_error_journal 2 60) errors).entries ≤ (if 2 == 0 then 1000 else 2)
journal-bound_example = journal-bound 2 60 errors

abbrev journal : ErrorJournal
journal = after_errors (new_error_journal 2 60) errors

-- The oldest of three errors is gone, and an error older than the window.
evicted_test :
    (lookup_by_dist_id journal (str "a") ≡ none)
    × (length (record_error journal (entry (str "d")) 200).entries ≡ 1)
unfolding after_errors new_error_journal record_error lookup_by_dist_id str_eq
evicted_test = (refl, refl)
