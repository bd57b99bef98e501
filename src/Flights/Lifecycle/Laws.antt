-- ===== src/Flights/Lifecycle/Laws.antt =====
-- Time only moves a flight forward, sales close for good, and the SQL agrees with the code.
use booking_flight_system_mi.Base.{ℕ, ◌+◌, ◌<◌, ◌≡◌, refl, ◌↔◌, true, arith}
use booking_flight_system_mi.Flights.Lifecycle.{
  StoredFlightStatus, FlightStatus, closed, departed, sales_close_before_departure_ms,
  effective_flight_status, is_bookable, on_sale_sql, allowed, transition_flight,
}

-- The SQL condition of the hold and of the search selects a flight exactly when `isBookable` holds
-- of it, at every status and instant.
pub on_sale_sql-is_bookable :
    (stored : StoredFlightStatus) (departure now : ℕ)
    → on_sale_sql stored departure now ≡ is_bookable stored departure now
unfolding on_sale_sql is_bookable
on_sale_sql-is_bookable StoredFlightStatus.scheduled departure now = ground arith
on_sale_sql-is_bookable StoredFlightStatus.open_ departure now = ground arith
on_sale_sql-is_bookable StoredFlightStatus.cancelled departure now = refl

-- The phases in the order in which time passes through them.
abbrev pub phase : FlightStatus → ℕ
phase FlightStatus.scheduled = 0
phase FlightStatus.open_ = 1
phase closed = 2
phase departed = 3
phase FlightStatus.cancelled = 4

-- The step that the clock or a person may make to what readers see of a flight.
pub data Moves (departure now : ℕ) : FlightStatus → FlightStatus → Type 0 where
  opens :
      now + sales_close_before_departure_ms < departure
      → Moves departure now FlightStatus.scheduled FlightStatus.open_
  scheduled_cancels : Moves departure now FlightStatus.scheduled FlightStatus.cancelled
  open_cancels : Moves departure now FlightStatus.open_ FlightStatus.cancelled
  closed_cancels : Moves departure now closed FlightStatus.cancelled

Moves-allowed :
    (departure now : ℕ) {from to : FlightStatus}
    → Moves departure now from to
    → transition_flight from to (record { departure_at = departure; now = now }) ≡ allowed
unfolding transition_flight
Moves-allowed departure now (opens h) = ground arith
Moves-allowed departure now scheduled_cancels = refl
Moves-allowed departure now open_cancels = refl
Moves-allowed departure now closed_cancels = refl

allowed-Moves :
    (departure now : ℕ) (from to : FlightStatus)
    → transition_flight from to (record { departure_at = departure; now = now }) ≡ allowed
    → Moves departure now from to
unfolding transition_flight
allowed-Moves departure now FlightStatus.scheduled FlightStatus.open_ e = opens (ground arith)
allowed-Moves departure now FlightStatus.scheduled FlightStatus.cancelled e = scheduled_cancels
allowed-Moves departure now FlightStatus.scheduled FlightStatus.scheduled e = cc
allowed-Moves departure now FlightStatus.scheduled closed e = cc
allowed-Moves departure now FlightStatus.scheduled departed e = cc
allowed-Moves departure now FlightStatus.open_ FlightStatus.cancelled e = open_cancels
allowed-Moves departure now FlightStatus.open_ _ e = cc
allowed-Moves departure now closed FlightStatus.cancelled e = closed_cancels
allowed-Moves departure now closed _ e = cc
allowed-Moves departure now departed FlightStatus.scheduled e = cc
allowed-Moves departure now departed _ e = cc
allowed-Moves departure now FlightStatus.cancelled FlightStatus.scheduled e = cc
allowed-Moves departure now FlightStatus.cancelled _ e = cc

-- `transitionFlight` allows exactly the moves of the diagram: opening a scheduled flight more than
-- an hour before its departure, and cancelling one that has neither departed nor been cancelled.
pub transition_flight_iff :
    (departure now : ℕ) (from to : FlightStatus)
    → (transition_flight from to (record { departure_at = departure; now = now }) ≡ allowed)
      ↔ Moves departure now from to
transition_flight_iff departure now from to =
    (allowed-Moves departure now from to, Moves-allowed departure now)

-- A flight whose opening is allowed is on sale at the same instant, once it is stored as open.
pub opened_is_bookable :
    (departure now : ℕ)
    → transition_flight
        (effective_flight_status StoredFlightStatus.scheduled departure now)
        FlightStatus.open_
        (record { departure_at = departure; now = now })
      ≡ allowed
    → is_bookable StoredFlightStatus.open_ departure now ≡ true
unfolding transition_flight effective_flight_status is_bookable
opened_is_bookable departure now e = ground arith
