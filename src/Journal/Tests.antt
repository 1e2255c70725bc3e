-- ===== src/Journal/Tests.antt =====
-- The journal at concrete inputs.
use chc_rental.Base.{false, none, []}
use chc_rental.Journal.{listing, scheduled}
use chc_rental.Journal.Store.{Journal, Attempt, to_sending, routine_entry, prepare_routine_delivery}
use chc_rental.Journal.Machine.{Call, transition, is_for, Follows, run}
use chc_rental.Journal.Calls.{call-Follows}

abbrev pub sample_attempt : Attempt
sample_attempt = record {
  attempt_id = "routine-1";
  attempt_key = "1";
  telegram_id = 9;
  payload = record {
    display_name = [];
    timezone = "UTC";
    local_date = 3;
    kind = listing;
    message_text = "a flat";
    items = [];
    legacy = false;
    channel = scheduled;
  };
}

abbrev pub empty_journal : Journal
empty_journal = record { days = []; faults = [] }

abbrev staged_journal : Journal
staged_journal = (prepare_routine_delivery sample_attempt 5 empty_journal).1

abbrev sample_call : Call
sample_call =
    transition 3 "routine-1" to_sending 6
      (record { telegram_message_id = none; chat_id = none; error = none })

call-Follows_example :
    Follows
      (is_for 3 "routine-1" sample_call)
      (routine_entry 3 "routine-1" staged_journal)
      (routine_entry 3 "routine-1" (run sample_call staged_journal))
call-Follows_example = call-Follows sample_call staged_journal 3 "routine-1"
