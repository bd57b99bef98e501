-- ===== src/Tests/Jobs.antt =====
-- The theorems on the scheduler, the relay, the opening of a flight and the key cleanup at samples.
use booking_flight_system_mi.Base.{
  ◌≤◌, refl, inl, inr, true, false, Bool, none, some, List, [], ◌∷◌, All, length, keep, Bool-cases,
  text, Text, Result, ok, arith,
}
use booking_flight_system_mi.Jobs.Scheduler.{
  Handle, Scheduler, new_handle, register, schedule_next, fire, start, stop, stop_handle, registers,
  starts, fires, stops, Life, created, then,
}
use booking_flight_system_mi.Jobs.Scheduler.Overlap.{NoOverlap, Life-NoOverlap}
use booking_flight_system_mi.Store.{Database, FlightRow, Queue, Event}
use booking_flight_system_mi.Flights.Lifecycle.{StoredFlightStatus}
use booking_flight_system_mi.Flights.Open.{Opening, is_as_expected, open_flight}
use booking_flight_system_mi.Flights.Open.Outcome.{UniqueFlights, Answered, open_flight-outcome}
use booking_flight_system_mi.Outbox.{find_unpublished, relay}
use booking_flight_system_mi.Outbox.Pending.{Pending}
use booking_flight_system_mi.Outbox.Order.{RelayOutcome, relay-outcome}
use booking_flight_system_mi.Tests.Sample.{db0, db1, flight_id, account_id}
use booking_flight_system_mi.Base.{IsIn, sym, ◌∙◌}
use booking_flight_system_mi.Store.{KeyRow, in_progress}
use booking_flight_system_mi.Payments.Cleanup.{Cleaning, cleanup_idempotency_keys}
use booking_flight_system_mi.Payments.Cleanup.Kept.{UniqueKeys, cleanup_idempotency_keys-kept}

abbrev waiting_handle : Handle
waiting_handle = record new_handle { timer = some 0; timers = 0 ∷ []; next = 1 }

abbrev stopped_handle : Handle
stopped_handle = record new_handle { running = some 1; stopped = true; runs = 1 ∷ []; next = 2 }

abbrev stopped_scheduler : Scheduler
stopped_scheduler = record { started = false; handles = stopped_handle ∷ [] }

-- Registered, started, fired, and stopped while its job runs.
sample-Life : Life stopped_scheduler
unfolding register start schedule_next fire stop stop_handle
sample-Life =
    then
      (then (then (then created registers) (starts (refl, tt)))
        (fires 0 0 waiting_handle refl refl))
      stops

Life-NoOverlap_example : All (NoOverlap false) (stopped_handle ∷ [])
Life-NoOverlap_example = Life-NoOverlap sample-Life

-- A broker that remembers what it took.
abbrev take_event : Queue → Event → List Event → List Event × Result (Unit {0})
take_event queue event b = (event ∷ b, ok tt)

abbrev always_commits : Text → List Event → Result (Unit {0})
always_commits id b = ok tt

relay-outcome_example :
    Pending 20 db1.outbox (find_unpublished 20 db1)
    × (let (db', b') = relay take_event always_commits 20 (db1, []) in
        RelayOutcome take_event always_commits (find_unpublished 20 db1) db1 [] db' b')
relay-outcome_example = relay-outcome take_event always_commits 20 db1 []

abbrev scheduled_flight : FlightRow
scheduled_flight = record {
  id = flight_id;
  flight_number = text "VN123";
  departure_at = 1000000000;
  status = StoredFlightStatus.scheduled;
}

abbrev db_scheduled : Database
db_scheduled = record db0 { flights = scheduled_flight ∷ [] }

abbrev sample_opening : Opening
sample_opening = record {
  audit_id = text "audit-9";
  request_id = none;
  now = 1000;
  between = λ db. db;
}

only_one : {A : Type 0} (p : A → Bool) (a : A) → length (keep p (a ∷ [])) ≤ 1
only_one p a = elim (Bool-cases (p a)) [ inl y ↦ rw y (omega arith) | inr n ↦ rw n (omega arith) ]

db_scheduled-UniqueFlights : UniqueFlights db_scheduled.flights
db_scheduled-UniqueFlights f = only_one (is_as_expected f.id f.status) scheduled_flight

open_flight-outcome_example :
    Answered sample_opening flight_id account_id db_scheduled
      (open_flight sample_opening flight_id account_id db_scheduled)
open_flight-outcome_example =
    open_flight-outcome sample_opening flight_id account_id db_scheduled db_scheduled-UniqueFlights

abbrev young_key : KeyRow
young_key = record {
  account_id = account_id;
  operation = text "pay-booking";
  key = text "key-1";
  request_fingerprint = text "f1";
  status = in_progress;
  response = none;
  payment_id = none;
  created_at = 1000;
  completed_at = none;
}

abbrev cleaning : Cleaning
cleaning = record { now = 200000000; locked = λ k. false; batch_size = 100; max_batches = 10 }

one_key-UniqueKeys : UniqueKeys (young_key ∷ [])
one_key-UniqueKeys r s (inl e) (inl d) h = e ∙ sym d
one_key-UniqueKeys r s (inl e) (inr d) h = absurd d
one_key-UniqueKeys r s (inr e) d h = absurd e

cleanup_idempotency_keys-kept_example :
    IsIn young_key (cleanup_idempotency_keys cleaning (record db0 { keys = young_key ∷ [] })).0.keys
cleanup_idempotency_keys-kept_example =
    cleanup_idempotency_keys-kept cleaning young_key (record db0 { keys = young_key ∷ [] })
      one_key-UniqueKeys (inl refl) (inl refl)
