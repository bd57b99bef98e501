-- ===== src/Bookings/Create/Inserted.antt =====
-- Storing the booking under a reference that is free.
use booking_flight_system_mi.Base.{
  List, [], ◌++◌, ℕ, zero, suc, ◌≡◌, refl, sym, subst, false, Option, none, some, ◌∷◌, any, same,
  Bool-cases, inl, inr, Text, arith, Result, ok, thrown, >>=-ok,
}
use booking_flight_system_mi.Store.{
  PassengerRow, BookingPassenger, Database, Booking, find_booking, find_flight,
}
use booking_flight_system_mi.Bookings.Repository.Rows.{
  parse_code, amount_of, created, reference_taken, insert_booking, row_of_booking, passenger_rows,
  CreateBookingRepositoryResult, exists,
}
use booking_flight_system_mi.Bookings.Create.{try_references}

-- The row that a passenger of the booking has, with its place from one on.
pub record PassengerStored (booking_id : Text) (place : ℕ) (p : BookingPassenger)
    (row : PassengerRow) : Type 0 where
  pub of_booking : row.booking_id ≡ booking_id
  pub at_place : row.position ≡ place
  pub same_name : row.name ≡ p.name
  pub seat_read : parse_code p.seat ≡ ok row.seat
  pub class_kept : row.fare_class ≡ p.fare_class
  pub same_price : row.price_vnd ≡ amount_of p.price

-- One row for each passenger, in order.
abbrev pub PassengersStored : Text → ℕ → List BookingPassenger → List PassengerRow → Type 0
PassengersStored booking_id index [] [] = Unit
PassengersStored booking_id index (p ∷ ps) (row ∷ rows) =
    PassengerStored booking_id (suc index) p row × PassengersStored booking_id (suc index) ps rows
PassengersStored booking_id index _ _ = ⊥

passenger_rows-PassengersStored :
    (booking_id : Text) (index : ℕ) (ps : List BookingPassenger) (rows : List PassengerRow)
    → passenger_rows booking_id index ps ≡ ok rows
    → PassengersStored booking_id index ps rows
unfolding passenger_rows
passenger_rows-PassengersStored booking_id index [] [] e = tt
passenger_rows-PassengersStored booking_id index [] (row ∷ rows) e = absurd (ground arith)
passenger_rows-PassengersStored booking_id index (p ∷ ps) rows e =
    let (seat, read, rest) = >>=-ok (parse_code p.seat) _ e in
    let (more, stored, made) = >>=-ok (passenger_rows booking_id (suc index) ps) _ rest in
    let whole : record {
      booking_id = booking_id;
      position = suc index;
      name = p.name;
      seat = seat;
      fare_class = p.fare_class;
      price_vnd = amount_of p.price;
    }
          ∷ more
        ≡ rows =
      ground arith in
    subst (PassengersStored booking_id index (p ∷ ps)) whole (
      record {
        of_booking = refl;
        at_place = refl;
        same_name = refl;
        seat_read = read;
        class_kept = refl;
        same_price = refl;
      },
      passenger_rows-PassengersStored booking_id (suc index) ps more stored,
    )

-- What an insert that took place has written.
pub record Inserted (b : Booking) (db db' : Database) : Type 0 where
  pub fresh_id : find_booking b.id db.bookings ≡ none
  pub fresh_reference : any (λ row. same row.reference b.reference) db.bookings ≡ false
  pub stored : db'.bookings ≡ row_of_booking b ∷ db.bookings
  pub rows : List PassengerRow
  pub rows_stored : db'.passengers ≡ rows ++ db.passengers
  pub rows_of_it : PassengersStored b.id 0 b.passengers rows
  pub same_seats : db'.seats ≡ db.seats
  pub same_audit : db'.audit_log ≡ db.audit_log
  pub same_outbox : db'.outbox ≡ db.outbox
  pub same_payments : db'.payments ≡ db.payments

exists-none : {A : Type 0} (o : Option A) → exists o ≡ false → o ≡ none
exists-none none h = refl
exists-none (some a) h = absurd (cc)

pub insert_booking-Inserted :
    (b : Booking) (db db' : Database) → insert_booking b db ≡ ok (db', created) → Inserted b db db'
unfolding insert_booking
insert_booking-Inserted b db db' e =
    elim (Bool-cases (any (λ row. same row.reference b.reference) db.bookings)) [
      | inl taken ↦ absurd (ground arith)
      | inr free ↦ elim (Bool-cases (exists (find_booking b.id db.bookings))) [
        | inl there ↦ absurd (ground arith)
        | inr fresh ↦ elim (Bool-cases (exists (find_flight b.flight_id db.flights))) [
          | inr no_flight ↦ absurd (ground arith)
          | inl flight ↦
              let (rows, made, rest) =
                >>=-ok (passenger_rows b.id 0 b.passengers) _ (rw (free, fresh, flight) at e) in
              record {
                rows = rows;
                rows_stored = ground arith;
                rows_of_it = passenger_rows-PassengersStored b.id 0 b.passengers rows made;
                fresh_id = exists-none _ fresh;
                fresh_reference = free;
                stored = ground arith;
                same_seats = ground arith;
                same_audit = ground arith;
                same_outbox = ground arith;
                same_payments = ground arith;
              }
        ]
      ]
    ]

insert_booking-taken :
    (b : Booking) (db db' : Database) → insert_booking b db ≡ ok (db', reference_taken) → db' ≡ db
unfolding insert_booking
insert_booking-taken b db db' e =
    elim (Bool-cases (any (λ row. same row.reference b.reference) db.bookings)) [
      | inl taken ↦ ground arith
      | inr free ↦ elim (Bool-cases (exists (find_booking b.id db.bookings))) [
        | inl there ↦ absurd (ground arith)
        | inr fresh ↦ elim (Bool-cases (exists (find_flight b.flight_id db.flights))) [
          | inr no_flight ↦ absurd (ground arith)
          | inl flight ↦
              let (rows, _, rest) =
                >>=-ok (passenger_rows b.id 0 b.passengers) _ (rw (free, fresh, flight) at e) in
              absurd (ground arith)
        ]
      ]
    ]

-- A booking that the loop returns is the given one under some drawn reference, and is stored.
pub try_references-Inserted :
    (left attempt : ℕ) (draw : ℕ → Text) (b b' : Booking) (db db' : Database)
    → try_references left attempt draw b db ≡ ok (db', b')
    → (n : ℕ) × (b' ≡ record b { reference = draw n }) × Inserted b' db db'
unfolding try_references
try_references-Inserted zero attempt draw b b' db db' e = absurd (cc)
try_references-Inserted (suc left) attempt draw b b' db db' e =
    go (insert_booking (record b { reference = draw attempt }) db) refl
      (λ db''. try_references-Inserted left (suc attempt) draw b b' db'' db')
  where
    go :
        (r : Result (Database × CreateBookingRepositoryResult))
        → insert_booking (record b { reference = draw attempt }) db ≡ r
        → ((db'' : Database)
            → try_references left (suc attempt) draw b db'' ≡ ok (db', b')
            → (n : ℕ) × (b' ≡ record b { reference = draw n }) × Inserted b' db'' db')
        → (n : ℕ) × (b' ≡ record b { reference = draw n }) × Inserted b' db db'
    go (thrown x) y again = absurd (ground arith)
    go (ok (db'', created)) y again =
        let same_booking : b' ≡ record b { reference = draw attempt } = ground arith in
        let same_db : db'' ≡ db' = ground arith in
        (
          attempt,
          same_booking,
          subst (λ x. Inserted x db db') (sym same_booking)
              (subst (Inserted (record b { reference = draw attempt }) db) same_db
                (insert_booking-Inserted _ db db'' y)),
        )
    go (ok (db'', reference_taken)) y again =
        let (n, named, stored) = again db'' (ground arith) in
        (n, named, subst (λ d. Inserted b' d db') (insert_booking-taken _ db db'' y) stored)
