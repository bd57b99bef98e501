-- ===== src/Bookings/Cancel/Row.antt =====
-- What `cancel` requires of a booking and does to the tables.
use booking_flight_system_mi.Base.{
  ℕ, ◌≡◌, Bool, true, false, some, List, Text, ok, Bool-cases, Option-cases, inl, inr, arith,
  >>=-ok,
}
use booking_flight_system_mi.Store.{
  Database, BookingRow, FlightRow, BookingAccessScope, find_booking, find_flight, in_scope, is_id,
}
use booking_flight_system_mi.Bookings.Lifecycle.{
  cancelled, cancel_condition, classify_not_cancelled,
}
use booking_flight_system_mi.Bookings.Repository.Seats.{update_seats_of, free_seat, codes_of}
use booking_flight_system_mi.Bookings.Repository.Rows.{
  CancelResult, cancel_done, cancel, cancel_row, set_status,
}
use booking_flight_system_mi.Payments.Repository.{}
use booking_flight_system_mi.Bookings.Cancel.{}

-- What `cancel` has done when it cancelled.
pub record RowCancelled (id : Text) (scope : BookingAccessScope) (now : ℕ) (db db' : Database)
    (flight_id reference : Text) (codes : List Text) : Type 0 where
  pub row : BookingRow
  pub flight : FlightRow
  pub found : find_booking id db.bookings ≡ some row
  pub its_flight : find_flight row.flight_id db.flights ≡ some flight
  pub seen : in_scope scope row ≡ true
  pub in_time : cancel_condition row.status row.hold_expires_at flight.departure_at now ≡ true
  pub told :
      (flight_id ≡ row.flight_id) × (reference ≡ row.reference) × (codes ≡ codes_of row.id db.seats)
  pub final : db' ≡ record db {
    bookings = set_status row.id cancelled db.bookings;
    seats = update_seats_of (is_id row.id) free_seat db.seats;
  }

abbrev pub is_done : CancelResult → Bool
is_done (cancel_done flight_id reference codes) = true
is_done _ = false

cancel_row-refused :
    (scope : BookingAccessScope) (now : ℕ) (row : BookingRow) (flight : FlightRow)
    (db db' : Database) (r : CancelResult)
    → is_done r ≡ false
    → cancel_row scope now row flight db ≡ ok (db', r)
    → db' ≡ db
unfolding cancel_row
cancel_row-refused scope now row flight db db' r other e = elim (Bool-cases (in_scope scope row)) [
  | inr out ↦ ground arith
  | inl seen ↦
      elim (Bool-cases (cancel_condition row.status row.hold_expires_at flight.departure_at now)) [
        | inr late ↦
            let (reason, _, rest) =
              >>=-ok (classify_not_cancelled row.status row.hold_expires_at flight.departure_at now)
                _ (rw (seen, late) at e) in
            ground arith
        | inl in_time ↦ absurd (ground arith)
      ]
]

cancel_row-done :
    (id : Text) (scope : BookingAccessScope) (now : ℕ) (row : BookingRow) (flight : FlightRow)
    (db db' : Database) (flight_id reference : Text) (codes : List Text)
    → find_booking id db.bookings ≡ some row
    → find_flight row.flight_id db.flights ≡ some flight
    → cancel_row scope now row flight db ≡ ok (db', cancel_done flight_id reference codes)
    → RowCancelled id scope now db db' flight_id reference codes
unfolding cancel_row
cancel_row-done id scope now row flight db db' flight_id reference codes found listed e =
    elim (Bool-cases (in_scope scope row)) [
      | inr out ↦ absurd (ground arith)
      | inl seen ↦
          elim (Bool-cases
            (cancel_condition row.status row.hold_expires_at flight.departure_at now)) [
              | inr late ↦
                  let (reason, _, rest) =
                    >>=-ok
                      (classify_not_cancelled row.status row.hold_expires_at flight.departure_at
                        now)
                      _ (rw (seen, late) at e) in
                  absurd (ground arith)
              | inl in_time ↦ record {
                row = row;
                flight = flight;
                found = found;
                its_flight = listed;
                seen = seen;
                in_time = in_time;
                told = ground arith;
                final = ground arith;
              }
            ]
    ]

pub cancel-done :
    (id : Text) (scope : BookingAccessScope) (now : ℕ) (db db' : Database)
    (flight_id reference : Text) (codes : List Text)
    → cancel id scope now db ≡ ok (db', cancel_done flight_id reference codes)
    → RowCancelled id scope now db db' flight_id reference codes
unfolding cancel
cancel-done id scope now db db' flight_id reference codes e =
    elim (Option-cases (find_booking id db.bookings)) [
      | inl missing ↦ absurd (ground arith)
      | inr (row, found) ↦ elim (Option-cases (find_flight row.flight_id db.flights)) [
        | inl missing ↦ absurd (ground arith)
        | inr (flight, listed) ↦
            cancel_row-done id scope now row flight db db' flight_id reference codes found listed
              (ground arith)
      ]
    ]

pub cancel-refused :
    (id : Text) (scope : BookingAccessScope) (now : ℕ) (db db' : Database) (r : CancelResult)
    → is_done r ≡ false
    → cancel id scope now db ≡ ok (db', r)
    → db' ≡ db
unfolding cancel
cancel-refused id scope now db db' r other e = elim (Option-cases (find_booking id db.bookings)) [
  | inl missing ↦ ground arith
  | inr (row, found) ↦ elim (Option-cases (find_flight row.flight_id db.flights)) [
    | inl missing ↦ ground arith
    | inr (flight, listed) ↦ cancel_row-refused scope now row flight db db' r other (ground arith)
  ]
]
