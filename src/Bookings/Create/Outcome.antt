-- ===== src/Bookings/Create/Outcome.antt =====
-- The whole transaction of `createBooking`.
use booking_flight_system_mi.Base.{
  ◌≡◌, refl, sym, ap, ◌∙◌, subst, none, some, List, ◌∷◌, same, same_iff, same_refl, Bool-cases, inl,
  inr, Text, arith, ok, Result-cases,
}
use booking_flight_system_mi.Bookings.Lifecycle.{BookingStatus}
use booking_flight_system_mi.Store.{
  Database, BookingRow, HeldSeat, Booking, status_of, find_booking,
}
use booking_flight_system_mi.Bookings.Validation.{CreateBookingInput}
use booking_flight_system_mi.Bookings.Repository.Seats.{hold_rows}
use booking_flight_system_mi.Bookings.Repository.Rows.{row_of_booking}
use booking_flight_system_mi.Bookings.Repository.Hold.{HoldSeatsResult, seats_held, hold_seats}
use booking_flight_system_mi.Bookings.Repository.Hold.Outcome.{Held, HoldOutcome}
use booking_flight_system_mi.Bookings.Repository.Hold.Laws.{hold_seats-outcome}
use booking_flight_system_mi.Bookings.Repository.Invariant.{Consistent}
use booking_flight_system_mi.Bookings.Repository.Invariant.Writes.{hold_RowOk}
use booking_flight_system_mi.Bookings.Create.{
  Drawn, CreateBookingResult, booking_made, to_hold_request, after_hold, create_transaction,
}
use booking_flight_system_mi.Bookings.Create.Laws.{Booked, OneBooking, book_held-Booked}

-- A new booking: the seats held for it, then the booking stored with its journal.
pub record NewBooking (d : Drawn) (flight_id account_id : Text) (input : CreateBookingInput)
    (db db' : Database) (b : Booking) : Type 0 where
  pub seats : List HeldSeat
  pub with_seats : Database
  pub hold : Held flight_id d.booking_id (to_hold_request input) d.now db with_seats seats
  pub booked : Booked d flight_id account_id input seats with_seats db' b

abbrev pub CreateOutcome :
    Drawn → Text → Text → CreateBookingInput → Database → Database → CreateBookingResult → Type 0
CreateOutcome d flight_id account_id input db db' (booking_made b) =
    NewBooking d flight_id account_id input db db' b
CreateOutcome d flight_id account_id input db db' _ = db' ≡ db

booked-outcome :
    (d : Drawn) (flight_id account_id : Text) (input : CreateBookingInput) (seats : List HeldSeat)
    (db db'' db' : Database) (r : CreateBookingResult)
    → Held flight_id d.booking_id (to_hold_request input) d.now db db'' seats
    → OneBooking d flight_id account_id input seats db'' db' r
    → CreateOutcome d flight_id account_id input db db' r
booked-outcome d flight_id account_id input seats db db'' db' (booking_made b) h k = record {
  seats = seats;
  with_seats = db'';
  hold = h;
  booked = k;
}
booked-outcome d flight_id account_id input seats db db'' db' _ h k = absurd k

after_hold-outcome :
    (d : Drawn) (flight_id account_id : Text) (input : CreateBookingInput)
    (held_result : HoldSeatsResult) (db db'' db' : Database) (r : CreateBookingResult)
    → HoldOutcome flight_id d.booking_id (to_hold_request input) d.now db db'' held_result
    → after_hold d flight_id account_id input held_result db'' ≡ ok (db', r)
    → CreateOutcome d flight_id account_id input db db' r
unfolding after_hold
after_hold-outcome d flight_id account_id input (seats_held seats) db db'' db' r h e =
    booked-outcome d flight_id account_id input seats db db'' db' r h
      (book_held-Booked d flight_id account_id input seats db'' db' r e)
after_hold-outcome d flight_id account_id input _ db db'' db' (booking_made b) h e = absurd (cc)
after_hold-outcome d flight_id account_id input _ db db'' db' _ h e = ground arith

-- A transaction of `createBooking` that commits either leaves every table as it was and returns
-- the reason, or it has held one free seat per passenger, none more often than it is in the
-- table, and stored one HELD booking of the caller with those seats and their total, a deadline 15 minutes ahead, a new id and
-- reference, one row per passenger with its place, name, seat, class and price, one audit entry and
-- one event.
pub create_transaction-outcome :
    (d : Drawn) (flight_id account_id : Text) (input : CreateBookingInput) (db db' : Database)
    (r : CreateBookingResult)
    → create_transaction d flight_id account_id input db ≡ ok (db', r)
    → CreateOutcome d flight_id account_id input db db' r
unfolding create_transaction
create_transaction-outcome d flight_id account_id input db db' r e =
    elim (Result-cases
      (hold_seats flight_id d.booking_id (to_hold_request input) d.now d.locked db)) [
        | inr (x, failed) ↦ absurd (ground arith)
        | inl ((db'', held_result), y) ↦
            after_hold-outcome d flight_id account_id input held_result db db'' db' r
              (hold_seats-outcome flight_id d.booking_id (to_hold_request input) d.now d.locked db
                db'' held_result y)
              (ground arith)
      ]

status_of-extend :
    (row : BookingRow) (bs : List BookingRow) (i : Text) (x : BookingStatus)
    → find_booking row.id bs ≡ none
    → status_of bs i ≡ some x
    → status_of (row ∷ bs) i ≡ some x
unfolding status_of
status_of-extend row bs i x fresh e = elim (Bool-cases (same row.id i)) [
  | inl y ↦
      let absent : find_booking i bs ≡ none =
        subst (λ j. find_booking j bs ≡ none) ((same_iff row.id i).0 y) fresh in
      absurd (ground arith)
  | inr n ↦ rw n e
]

status_of_new :
    (row : BookingRow) (bs : List BookingRow) → status_of (row ∷ bs) row.id ≡ some row.status
unfolding status_of
status_of_new row bs = rw (same_refl row.id) refl

NewBooking-Consistent :
    (d : Drawn) (flight_id account_id : Text) (input : CreateBookingInput) (db db' : Database)
    (b : Booking)
    → NewBooking d flight_id account_id input db db' b
    → Consistent db
    → Consistent db'
NewBooking-Consistent d flight_id account_id input db db' b new c =
    let row = row_of_booking b in
    let ins = new.booked.inserted in
    let base : new.with_seats.bookings ≡ db.bookings = ap (λ x. x.bookings) new.hold.written in
    let stored : db'.bookings ≡ row ∷ db.bookings =
      ap (λ x. x.bookings) new.booked.final ∙ ins.stored ∙ ap (λ l. row ∷ l) base in
    let seats : db'.seats ≡ hold_rows d.booking_id new.hold.rows db.seats =
      ap (λ x. x.seats) new.booked.final ∙ ins.same_seats ∙ ap (λ x. x.seats) new.hold.written in
    let fresh : find_booking row.id db.bookings ≡ none =
      subst (λ l. find_booking row.id l ≡ none) base ins.fresh_id in
    rw (stored, seats)
      (hold_RowOk (status_of db.bookings) (status_of (row ∷ db.bookings)) d.booking_id new.hold.rows
        (ap (status_of (row ∷ db.bookings)) (sym new.booked.its_id)
          ∙ status_of_new row db.bookings
          ∙ ap some new.booked.its_status)
        (λ i x. status_of-extend row db.bookings i x fresh) db.seats c)

outcome-Consistent :
    (d : Drawn) (flight_id account_id : Text) (input : CreateBookingInput) (db db' : Database)
    (r : CreateBookingResult)
    → CreateOutcome d flight_id account_id input db db' r
    → Consistent db
    → Consistent db'
outcome-Consistent d flight_id account_id input db db' (booking_made b) h c =
    NewBooking-Consistent d flight_id account_id input db db' b h c
outcome-Consistent d flight_id account_id input db db' _ h c = subst Consistent (sym h) c

-- Creating a booking keeps the seats in agreement with the bookings.
pub create_transaction-Consistent :
    (d : Drawn) (flight_id account_id : Text) (input : CreateBookingInput) (db db' : Database)
    (r : CreateBookingResult)
    → create_transaction d flight_id account_id input db ≡ ok (db', r)
    → Consistent db
    → Consistent db'
create_transaction-Consistent d flight_id account_id input db db' r e =
    outcome-Consistent d flight_id account_id input db db' r
      (create_transaction-outcome d flight_id account_id input db db' r e)
