-- ===== src/Bookings/Repository/Hold/Laws.antt =====
-- Both kinds of hold together.
use booking_flight_system_mi.Base.{ℕ, ◌≡◌, Bool, Text, ok}
use booking_flight_system_mi.Store.{Database, SeatRow}
use booking_flight_system_mi.Bookings.Repository.Hold.{
  SeatHoldRequest, auto, chosen, HoldSeatsResult, hold_seats,
}
use booking_flight_system_mi.Bookings.Repository.Hold.Outcome.{HoldOutcome}
use booking_flight_system_mi.Bookings.Repository.Hold.Auto.{hold_auto_seats-outcome}
use booking_flight_system_mi.Bookings.Repository.Hold.Chosen.{hold_chosen_seats-outcome}

-- A hold that returns has either refused, with the tables unchanged, or it has written HELD and
-- the booking on as many rows as were asked for; each of those rows was in the table, AVAILABLE, of
-- the flight, and of the class or position that was asked for, no row is among them more often than
-- it is in the table, and the flight was on sale. The seats returned are as many and are those rows,
-- in cabin order or in the order of the positions asked for: each has its row's code and class, and
-- the price of the fare that the row's class has on the flight.
pub hold_seats-outcome :
    (flight_id booking_id : Text) (request : SeatHoldRequest) (now : ℕ) (locked : SeatRow → Bool)
    (db db' : Database) (r : HoldSeatsResult)
    → hold_seats flight_id booking_id request now locked db ≡ ok (db', r)
    → HoldOutcome flight_id booking_id request now db db' r
unfolding hold_seats
hold_seats-outcome flight_id booking_id (auto count fare_class) now locked db db' r e =
    hold_auto_seats-outcome flight_id booking_id now count fare_class locked db db' r e
hold_seats-outcome flight_id booking_id (chosen seats) now locked db db' r e =
    hold_chosen_seats-outcome flight_id booking_id now seats db db' r e
