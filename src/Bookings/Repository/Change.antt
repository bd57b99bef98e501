-- ===== src/Bookings/Repository/Change.antt =====
-- `changeSeat`: move one passenger of a CONFIRMED booking to another free seat of the same class.
use booking_flight_system_mi.Base.{
  ℕ, Bool, ◌&&◌, Option, none, some, List, find_first, update_where, ◌==◌, same, if◌then◌else◌,
  Text, Result, ok, thrown, passenger_without_seat, seat_not_booked,
}
use booking_flight_system_mi.Aircraft.Position.{SeatPosition, format_seat_position}
use booking_flight_system_mi.Flights.Lifecycle.{is_bookable}
use booking_flight_system_mi.Bookings.Lifecycle.{confirmed}
use booking_flight_system_mi.Store.{
  Database, BookingRow, PassengerRow, FlightRow, SeatRow, FareClass, BookingAccessScope,
  find_booking, find_flight, in_scope, is_id, is_booked, is_available, same_class, same_position,
  booked,
}
use booking_flight_system_mi.Bookings.Repository.Seats.{free_seat}

pub data ChangeSeatResult : Type 0 where
  changed : (from to : Text) → ChangeSeatResult
  unchanged not_found passenger_not_found not_changeable : ChangeSeatResult
  change_sales_closed unknown_seat seat_unavailable : ChangeSeatResult
  fare_class_mismatch : (seat_class target_class : FareClass) → ChangeSeatResult

unfoldable pub is_at : Text → SeatPosition → SeatRow → Bool
is_at flight_id p s = same s.flight_id flight_id && same_position s.position p

abbrev pub find_seat : Text → SeatPosition → List SeatRow → Option SeatRow
find_seat flight_id p = find_first (is_at flight_id p)

abbrev pub take_seat : Text → SeatRow → SeatRow
take_seat booking_id s = record s { status = booked; booking_id = some booking_id }

unfoldable pub is_passenger : Text → ℕ → PassengerRow → Bool
is_passenger booking_id position p = same p.booking_id booking_id && (p.position == position)

-- Free first, then take, then move the display copy.
unfoldable pub swap_seats : BookingRow → ℕ → SeatPosition → SeatPosition → Database → Database
swap_seats b position current target db = record db {
  seats =
      update_where (is_at b.flight_id target) (take_seat b.id)
        (update_where (is_at b.flight_id current) free_seat db.seats);
  passengers =
      update_where (is_passenger b.id position) (λ p. record p { seat = some target })
        db.passengers;
}

-- The verdict on the two locked seats.
unfoldable pub change_locked :
    BookingRow
    → ℕ
    → SeatPosition
    → SeatPosition
    → Option SeatRow
    → Option SeatRow
    → Database
    → Result (Database × ChangeSeatResult)
change_locked b position current target none wanted db = thrown seat_not_booked
change_locked b position current target (some own) none db =
    if is_id b.id own.booking_id && is_booked own.status
    then ok (db, unknown_seat)
    else thrown seat_not_booked
change_locked b position current target (some own) (some wanted) db =
    if is_id b.id own.booking_id && is_booked own.status
    then (if same_class wanted.fare_class own.fare_class
        then (if is_available wanted.status
            then ok (
              swap_seats b position current target db,
              changed (format_seat_position current) (format_seat_position target),
            )
            else ok (db, seat_unavailable))
        else ok (db, fare_class_mismatch own.fare_class wanted.fare_class))
    else thrown seat_not_booked

unfoldable pub change_passenger :
    BookingRow
    → FlightRow
    → ℕ
    → SeatPosition
    → ℕ
    → PassengerRow
    → Database
    → Result (Database × ChangeSeatResult)
change_passenger b flight position target now p db = elim b.status [
  | confirmed ↦ elim p.seat [
    | none ↦ thrown passenger_without_seat
    | some current ↦
        if same (format_seat_position current) (format_seat_position target)
        then ok (db, unchanged)
        else (if is_bookable flight.status flight.departure_at now
            then change_locked b position current target (find_seat b.flight_id current db.seats)
                (find_seat b.flight_id target db.seats) db
            else ok (db, change_sales_closed))
  ]
  | _ ↦ ok (db, not_changeable)
]

unfoldable pub change_booking :
    BookingRow → FlightRow → ℕ → SeatPosition → ℕ → Database → Result (Database × ChangeSeatResult)
change_booking b flight position target now db =
    elim (find_first (is_passenger b.id position) db.passengers) [
      | none ↦ ok (db, passenger_not_found)
      | some p ↦ change_passenger b flight position target now p db
    ]

unfoldable pub change_seat :
    Text
    → ℕ
    → SeatPosition
    → BookingAccessScope
    → ℕ
    → Database
    → Result (Database × ChangeSeatResult)
change_seat id position target scope now db = elim (find_booking id db.bookings) [
  | none ↦ ok (db, not_found)
  | some b ↦ elim (find_flight b.flight_id db.flights) [
    | none ↦ ok (db, not_found)
    | some flight ↦
        if in_scope scope b
        then change_booking b flight position target now db
        else ok (db, not_found)
  ]
]
