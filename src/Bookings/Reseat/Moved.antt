-- ===== src/Bookings/Reseat/Moved.antt =====
-- What a change of seat that took place has found and written.
use booking_flight_system_mi.Base.{
  ℕ, ◌≡◌, refl, true, Option, none, some, find_first, update_where, Text, ok, Option-cases, inl,
  inr, arith,
}
use booking_flight_system_mi.Aircraft.Position.{SeatPosition, format_seat_position}
use booking_flight_system_mi.Flights.Lifecycle.{is_bookable}
use booking_flight_system_mi.Bookings.Lifecycle.{confirmed}
use booking_flight_system_mi.Store.{
  Database, BookingRow, PassengerRow, FlightRow, SeatRow, BookingAccessScope, find_booking,
  find_flight, in_scope, is_id, is_booked, is_available, same_class,
}
use booking_flight_system_mi.Bookings.Repository.Seats.{free_seat}
use booking_flight_system_mi.Bookings.Repository.Change.{
  changed, is_at, find_seat, take_seat, is_passenger, swap_seats, change_locked, change_passenger,
  change_booking, change_seat,
}

-- The passenger of a CONFIRMED booking in the caller's scope, on a flight still on sale, gave up
-- its own booked seat for a free one of the same class.
pub record SeatMoved (id : Text) (position : ℕ) (target : SeatPosition) (scope : BookingAccessScope)
    (now : ℕ) (db moved : Database) (from to : Text) : Type 0 where
  pub b : BookingRow
  pub flight : FlightRow
  pub p : PassengerRow
  pub current : SeatPosition
  pub own : SeatRow
  pub wanted : SeatRow
  pub booking_found : find_booking id db.bookings ≡ some b
  pub was_confirmed : b.status ≡ confirmed
  pub was_in_scope : in_scope scope b ≡ true
  pub flight_found : find_flight b.flight_id db.flights ≡ some flight
  pub still_on_sale : is_bookable flight.status flight.departure_at now ≡ true
  pub passenger_found : find_first (is_passenger b.id position) db.passengers ≡ some p
  pub had_seat : p.seat ≡ some current
  pub own_found : find_seat b.flight_id current db.seats ≡ some own
  pub own_is_its : is_id b.id own.booking_id ≡ true
  pub own_booked : is_booked own.status ≡ true
  pub wanted_found : find_seat b.flight_id target db.seats ≡ some wanted
  pub wanted_free : is_available wanted.status ≡ true
  pub one_class : same_class wanted.fare_class own.fare_class ≡ true
  pub from_code : from ≡ format_seat_position current
  pub to_code : to ≡ format_seat_position target
  pub final : moved ≡ record db {
    seats =
        update_where
          (is_at b.flight_id target)
          (take_seat b.id)
          (update_where (is_at b.flight_id current) free_seat db.seats);
    passengers =
        update_where
          (is_passenger b.id position)
          (λ q. record q { seat = some target })
          db.passengers;
  }

-- What the verdict on the two locked seats found, when it is a change.
record Swapped (b : BookingRow) (position : ℕ) (current target : SeatPosition)
    (own_seat wanted_seat : Option SeatRow) (db moved : Database) (from to : Text) : Type 0 where
  own : SeatRow
  wanted : SeatRow
  own_found : own_seat ≡ some own
  own_is_its : is_id b.id own.booking_id ≡ true
  own_booked : is_booked own.status ≡ true
  wanted_found : wanted_seat ≡ some wanted
  wanted_free : is_available wanted.status ≡ true
  one_class : same_class wanted.fare_class own.fare_class ≡ true
  from_code : from ≡ format_seat_position current
  to_code : to ≡ format_seat_position target
  final : moved ≡ swap_seats b position current target db

change_locked-Swapped :
    (b : BookingRow) (position : ℕ) (current target : SeatPosition)
    (own_seat wanted_seat : Option SeatRow) (db moved : Database) (from to : Text)
    → change_locked b position current target own_seat wanted_seat db ≡ ok (moved, changed from to)
    → Swapped b position current target own_seat wanted_seat db moved from to
unfolding change_locked
change_locked-Swapped b position current target none wanted_seat db moved from to e = absurd (cc)
change_locked-Swapped b position current target (some own) none db moved from to e =
    absurd (ground arith)
change_locked-Swapped b position current target (some own) (some wanted) db moved from to e =
    record {
      own = own;
      wanted = wanted;
      own_found = refl;
      own_is_its = ground arith;
      own_booked = ground arith;
      wanted_found = refl;
      wanted_free = ground arith;
      one_class = ground arith;
      from_code = ground arith;
      to_code = ground arith;
      final = ground arith;
    }

-- The passenger's part of the way to the locked seats.
record Located (b : BookingRow) (flight : FlightRow) (position : ℕ) (target : SeatPosition)
    (now : ℕ) (p : PassengerRow) (db moved : Database) (from to : Text) : Type 0 where
  current : SeatPosition
  was_confirmed : b.status ≡ confirmed
  still_on_sale : is_bookable flight.status flight.departure_at now ≡ true
  had_seat : p.seat ≡ some current
  swapped :
      Swapped b position current target
        (find_seat b.flight_id current db.seats)
        (find_seat b.flight_id target db.seats)
        db
        moved
        from
        to

change_passenger-Located :
    (b : BookingRow) (flight : FlightRow) (position : ℕ) (target : SeatPosition) (now : ℕ)
    (p : PassengerRow) (db moved : Database) (from to : Text)
    → change_passenger b flight position target now p db ≡ ok (moved, changed from to)
    → Located b flight position target now p db moved from to
unfolding change_passenger
change_passenger-Located b flight position target now p db moved from to e =
    elim (Option-cases p.seat) [
      | inl none_there ↦ absurd (ground arith)
      | inr (current, there) ↦
          let its : b.status ≡ confirmed = ground arith in
          let open_sale : is_bookable flight.status flight.departure_at now ≡ true = ground arith in
          let locked : change_locked b position current target
                (find_seat b.flight_id current db.seats) (find_seat b.flight_id target db.seats) db
              ≡ ok (moved, changed from to) =
            ground arith in
          record {
            current = current;
            was_confirmed = its;
            still_on_sale = open_sale;
            had_seat = there;
            swapped = change_locked-Swapped b position current target _ _ db moved from to locked;
          }
    ]

pub change_seat-SeatMoved :
    (id : Text) (position : ℕ) (target : SeatPosition) (scope : BookingAccessScope) (now : ℕ)
    (db moved : Database) (from to : Text)
    → change_seat id position target scope now db ≡ ok (moved, changed from to)
    → SeatMoved id position target scope now db moved from to
unfolding change_seat change_booking swap_seats
change_seat-SeatMoved id position target scope now db moved from to e =
    elim (Option-cases (find_booking id db.bookings)) [
      | inl missing ↦ absurd (ground arith)
      | inr (b, found) ↦ elim (Option-cases (find_flight b.flight_id db.flights)) [
        | inl missing ↦ absurd (ground arith)
        | inr (flight, found_flight) ↦
            elim (Option-cases (find_first (is_passenger b.id position) db.passengers)) [
              | inl missing ↦ absurd (ground arith)
              | inr (p, found_passenger) ↦
                  let scoped : in_scope scope b ≡ true = ground arith in
                  let its =
                    change_passenger-Located b flight position target now p db moved from to
                      (ground arith) in
                  record {
                    b = b;
                    flight = flight;
                    p = p;
                    current = its.current;
                    own = its.swapped.own;
                    wanted = its.swapped.wanted;
                    booking_found = found;
                    was_confirmed = its.was_confirmed;
                    was_in_scope = scoped;
                    flight_found = found_flight;
                    still_on_sale = its.still_on_sale;
                    passenger_found = found_passenger;
                    had_seat = its.had_seat;
                    own_found = its.swapped.own_found;
                    own_is_its = its.swapped.own_is_its;
                    own_booked = its.swapped.own_booked;
                    wanted_found = its.swapped.wanted_found;
                    wanted_free = its.swapped.wanted_free;
                    one_class = its.swapped.one_class;
                    from_code = its.swapped.from_code;
                    to_code = its.swapped.to_code;
                    final = its.swapped.final;
                  }
            ]
      ]
    ]
