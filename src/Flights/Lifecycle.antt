-- ===== src/Flights/Lifecycle.antt =====
-- api/src/flights/flight-lifecycle.ts and on-sale-sql.ts. An instant is a number of milliseconds
-- since 1970; a difference of instants is compared by adding on the other side.
pub mod Laws
use booking_flight_system_mi.Base.{
  ℕ, ◌+◌, ◌*◌, Bool, true, false, ◌&&◌, Option, none, some, leb, ltb, if◌then◌else◌, Text, text,
  same, Result, ok, thrown, unexpected_status,
}

pub data StoredFlightStatus : Type 0 where
  scheduled open_ cancelled : StoredFlightStatus

pub data FlightStatus : Type 0 where
  scheduled open_ closed departed cancelled : FlightStatus

abbrev pub sales_close_before_departure_ms : ℕ
sales_close_before_departure_ms = 60 * 60 * 1000

-- The value of the column, as the driver returns it.
unfoldable pub to_stored_flight_status : Text → Result StoredFlightStatus
unfolding same
to_stored_flight_status value =
    if same value (text "SCHEDULED")
    then ok StoredFlightStatus.scheduled
    else (if same value (text "OPEN")
        then ok StoredFlightStatus.open_
        else (if same value (text "CANCELLED")
            then ok StoredFlightStatus.cancelled
            else thrown unexpected_status))

unfoldable pub effective_flight_status : StoredFlightStatus → ℕ → ℕ → FlightStatus
effective_flight_status StoredFlightStatus.cancelled departure now = FlightStatus.cancelled
effective_flight_status StoredFlightStatus.scheduled departure now =
    if leb departure now then departed else FlightStatus.scheduled
effective_flight_status StoredFlightStatus.open_ departure now =
    if leb departure now
    then departed
    else (if leb departure (now + sales_close_before_departure_ms)
        then closed
        else FlightStatus.open_)

abbrev is_open : FlightStatus → Bool
is_open FlightStatus.open_ = true
is_open _ = false

unfoldable pub is_bookable : StoredFlightStatus → ℕ → ℕ → Bool
unfolding effective_flight_status
is_bookable stored departure now = is_open (effective_flight_status stored departure now)

abbrev is_stored_open : StoredFlightStatus → Bool
is_stored_open StoredFlightStatus.open_ = true
is_stored_open _ = false

-- The condition of `onSaleSql`.
unfoldable pub on_sale_sql : StoredFlightStatus → ℕ → ℕ → Bool
on_sale_sql stored departure now =
    is_stored_open stored && ltb (now + sales_close_before_departure_ms) departure

pub data TransitionRejection : Type 0 where
  not_allowed departure_too_soon : TransitionRejection

pub record TransitionContext : Type 0 where
  pub departure_at : ℕ
  pub now : ℕ

abbrev unconditional : TransitionContext → Option TransitionRejection
unconditional context = none

abbrev departs_more_than_an_hour_ahead : TransitionContext → Option TransitionRejection
departs_more_than_an_hour_ahead context =
    if ltb (context.now + sales_close_before_departure_ms) context.departure_at
    then none
    else some departure_too_soon

-- `FLIGHT_TRANSITIONS`: the guard of a move, or `none` where it is missing from the table.
unfoldable pub flight_transitions :
    FlightStatus → FlightStatus → Option (TransitionContext → Option TransitionRejection)
flight_transitions FlightStatus.scheduled FlightStatus.open_ = some departs_more_than_an_hour_ahead
flight_transitions FlightStatus.scheduled FlightStatus.cancelled = some unconditional
flight_transitions FlightStatus.open_ FlightStatus.cancelled = some unconditional
flight_transitions closed FlightStatus.cancelled = some unconditional
flight_transitions _ _ = none

pub data TransitionResult : Type 0 where
  allowed : TransitionResult
  rejected : TransitionRejection → TransitionResult

abbrev as_result : Option TransitionRejection → TransitionResult
as_result none = allowed
as_result (some reason) = rejected reason

unfoldable pub transition_flight :
    FlightStatus → FlightStatus → TransitionContext → TransitionResult
unfolding flight_transitions
transition_flight from to context = elim (flight_transitions from to) [
  | none ↦ rejected not_allowed
  | some guard ↦ as_result (guard context)
]
