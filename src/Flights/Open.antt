-- ===== src/Flights/Open.antt =====
-- api/src/flights/open-flight.ts, and changeStatus of the flight repository. The flight is read
-- before the transaction: `between` is what others commit to the tables until it begins.
pub mod Outcome
use booking_flight_system_mi.Base.{
  ℕ, Bool, true, false, ◌&&◌, Option, none, some, List, [], ◌∷◌, keep, update_where, ◌==◌, same,
  if◌then◌else◌, Text, text, Result, ok, thrown,
}
use booking_flight_system_mi.Requests.{is_uuid}
use booking_flight_system_mi.Flights.Lifecycle.{
  StoredFlightStatus, FlightStatus, TransitionRejection, TransitionResult, allowed, rejected,
  effective_flight_status, transition_flight,
}
use booking_flight_system_mi.Store.{
  Database, FlightRow, find_flight, Transaction, ◌>>=◌, ◌>>◌, return, audit, run_transaction,
  AuditEntry, account_actor, flight_target, flight_opened, text_value,
}

pub data ChangeFlightStatusResult : Type 0 where
  changed no_flight : ChangeFlightStatusResult
  status_changed : StoredFlightStatus → ChangeFlightStatusResult

abbrev pub stored_number : StoredFlightStatus → ℕ
stored_number StoredFlightStatus.scheduled = 0
stored_number StoredFlightStatus.open_ = 1
stored_number StoredFlightStatus.cancelled = 2

unfoldable pub is_as_expected : Text → StoredFlightStatus → FlightRow → Bool
is_as_expected id expected f = same f.id id && (stored_number f.status == stored_number expected)

abbrev pub why_not : Option FlightRow → ChangeFlightStatusResult
why_not none = no_flight
why_not (some f) = status_changed f.status

abbrev pub set_flight_status : Text → StoredFlightStatus → StoredFlightStatus → Database → Database
set_flight_status id expected next db = record db {
  flights = update_where (is_as_expected id expected) (λ f. record f { status = next }) db.flights;
}

-- The rows that the UPDATE affects decide.
unfoldable pub change_status :
    Text → StoredFlightStatus → StoredFlightStatus → Transaction ChangeFlightStatusResult
change_status id expected next db = elim (keep (is_as_expected id expected) db.flights) [
  | f ∷ [] ↦ ok (set_flight_status id expected next db, changed)
  | [] ↦ ok (db, why_not (find_flight id db.flights))
  | f ∷ _ ∷ _ ↦ ok (set_flight_status id expected next db, why_not (find_flight id db.flights))
]

-- An opened flight is the row as stored and its effective status.
pub data OpenFlightResult : Type 0 where
  opened : FlightRow → FlightStatus → OpenFlightResult
  open_not_found : OpenFlightResult
  invalid_status : FlightStatus → TransitionRejection → OpenFlightResult
  changed_meanwhile : FlightStatus → OpenFlightResult

pub record Opening : Type 0 where
  pub audit_id : Text
  pub request_id : Option Text
  pub now : ℕ
  pub between : Database → Database

abbrev pub status_text : StoredFlightStatus → Text
status_text StoredFlightStatus.scheduled = text "SCHEDULED"
status_text StoredFlightStatus.open_ = text "OPEN"
status_text StoredFlightStatus.cancelled = text "CANCELLED"

unfoldable pub opened_audit : Opening → Text → FlightRow → AuditEntry
opened_audit o account_id flight = record {
  id = o.audit_id;
  action = flight_opened;
  actor = account_actor account_id;
  target = flight_target flight.id;
  request_id = o.request_id;
  occurred_at = o.now;
  metadata =
      (text "flightNumber", text_value flight.flight_number)
      ∷ (text "previousStatus", text_value (status_text flight.status))
      ∷ [];
}

abbrev pub opened_flight : FlightRow → ℕ → OpenFlightResult
opened_flight flight now =
    opened (record flight { status = StoredFlightStatus.open_ })
      (effective_flight_status StoredFlightStatus.open_ flight.departure_at now)

unfoldable pub after_change :
    Opening → Text → FlightRow → ChangeFlightStatusResult → Transaction OpenFlightResult
after_change o account_id flight no_flight = return open_not_found
after_change o account_id flight (status_changed current) =
    return (changed_meanwhile (effective_flight_status current flight.departure_at o.now))
after_change o account_id flight changed = do
  audit (opened_audit o account_id flight)
  return (opened_flight flight o.now)

unfoldable pub open_transaction : Opening → Text → FlightRow → Transaction OpenFlightResult
open_transaction o account_id flight = do
  r ← change_status flight.id flight.status StoredFlightStatus.open_
  after_change o account_id flight r

abbrev pub may_open : Opening → FlightRow → TransitionResult
may_open o flight =
    transition_flight (effective_flight_status flight.status flight.departure_at o.now)
      FlightStatus.open_ (record { departure_at = flight.departure_at; now = o.now })

unfoldable pub open_found :
    Opening → Text → FlightRow → Database → Database × Result OpenFlightResult
open_found o account_id flight db = elim (may_open o flight) [
  | rejected reason ↦ (
    db,
    ok (invalid_status (effective_flight_status flight.status flight.departure_at o.now) reason),
  )
  | allowed ↦ run_transaction (open_transaction o account_id flight) (o.between db)
]

unfoldable pub open_flight : Opening → Text → Text → Database → Database × Result OpenFlightResult
open_flight o flight_id account_id db =
    if is_uuid flight_id
    then (elim (find_flight flight_id db.flights) [
      | none ↦ (db, ok open_not_found)
      | some flight ↦ open_found o account_id flight db
    ])
    else (db, ok open_not_found)
