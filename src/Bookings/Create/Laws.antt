-- ===== src/Bookings/Create/Laws.antt =====
-- A created booking and its seats, or nothing at all.
use booking_flight_system_mi.Base.{
  suc, ◌+◌, ◌≡◌, refl, sym, ap, ◌∙◌, subst, false, some, List, [], ◌∷◌, length, inl, inr, Text,
  arith, ok, Result-cases, false,
}
use booking_flight_system_mi.Bookings.Lifecycle.{held}
use booking_flight_system_mi.Store.{
  audit, enqueue, Database, BookingPassenger, booking_held_queue, Booking, HeldSeat,
}
use booking_flight_system_mi.Bookings.Repository.Rows.{}
use booking_flight_system_mi.Bookings.Create.{
  pair_seats, seat_passengers, book_held, names_of, hold_duration_ms, created_audit, created_event,
  new_booking, max_reference_attempts, store_booking, Drawn, CreateBookingResult, booking_made,
  try_references,
}
use booking_flight_system_mi.Bookings.Create.Inserted.{Inserted, try_references-Inserted}
use booking_flight_system_mi.Bookings.Validation.{CreateBookingInput}
use booking_flight_system_mi.Bookings.Repository.Rows.{booking_total}
use booking_flight_system_mi.Money.{Money}

pair_seats-length :
    (names : List Text) (seats : List HeldSeat)
    → length seats ≡ length names
    → length (pair_seats names seats) ≡ length names
unfolding pair_seats
pair_seats-length [] seats e = refl
pair_seats-length (n ∷ names) [] e = absurd (omega arith)
pair_seats-length (n ∷ names) (s ∷ seats) e = ap suc (pair_seats-length names seats (omega arith))

-- What is written once the seats are held.
pub record Booked (d : Drawn) (flight_id account_id : Text) (input : CreateBookingInput)
    (seats : List HeldSeat) (db db' : Database) (b : Booking) : Type 0 where
  pub db'' : Database
  pub inserted : Inserted b db db''
  pub final : db' ≡ record db'' {
    audit_log = created_audit d account_id seats b ∷ db''.audit_log;
    outbox =
        record {
          id = d.outbox_id;
          event_type = booking_held_queue;
          payload = created_event d (names_of input) seats b;
          created_at = d.now;
          published = false;
        }
        ∷ db''.outbox;
  }
  pub its_id : b.id ≡ d.booking_id
  pub its_flight : b.flight_id ≡ flight_id
  pub its_owner : b.owner_account_id ≡ account_id
  pub its_status : b.status ≡ held
  pub its_deadline : b.hold_expires_at ≡ some (d.now + hold_duration_ms)
  pub its_passengers : b.passengers ≡ pair_seats (names_of input) seats
  pub its_total : booking_total b.passengers ≡ ok b.total

abbrev pub OneBooking :
    Drawn
    → Text
    → Text
    → CreateBookingInput
    → List HeldSeat
    → Database
    → Database
    → CreateBookingResult
    → Type 0
OneBooking d flight_id account_id input seats db db' (booking_made b) =
    Booked d flight_id account_id input seats db db' b
OneBooking d flight_id account_id input seats db db' _ = ⊥

seat_passengers-eq :
    (input : CreateBookingInput) (seats : List HeldSeat) (ps : List BookingPassenger)
    → seat_passengers input seats ≡ ok ps
    → ps ≡ pair_seats (names_of input) seats
unfolding seat_passengers
seat_passengers-eq input seats ps e = ground arith

finish-Booked :
    (d : Drawn) (flight_id account_id : Text) (input : CreateBookingInput) (seats : List HeldSeat)
    (ps : List BookingPassenger) (total : Money) (b : Booking) (db db'' db' : Database)
    (r : CreateBookingResult)
    → ps ≡ pair_seats (names_of input) seats
    → booking_total ps ≡ ok total
    → try_references max_reference_attempts 1 d.reference
        (new_booking d flight_id account_id ps total)
        db
      ≡ ok (db'', b)
    → store_booking d account_id input seats b db'' ≡ ok (db', r)
    → OneBooking d flight_id account_id input seats db db' r
unfolding store_booking audit enqueue created_event new_booking
finish-Booked d flight_id account_id input seats ps total b db db'' db' r paired summed tried e =
    let (n, named, stored) = try_references-Inserted _ _ _ _ b db db'' tried in
    let outcome : Booked d flight_id account_id input seats db db' b = record {
      db'' = db'';
      inserted = stored;
      final = ground arith;
      its_id = ap (λ x. x.id) named;
      its_flight = ap (λ x. x.flight_id) named;
      its_owner = ap (λ x. x.owner_account_id) named;
      its_status = ap (λ x. x.status) named;
      its_deadline = ap (λ x. x.hold_expires_at) named;
      its_passengers = ap (λ x. x.passengers) named ∙ paired;
      its_total =
          ap (λ x. booking_total x.passengers) named ∙ summed ∙ ap (λ x. ok x.total) (sym named);
    } in
    let answer : booking_made b ≡ r = ground arith in
    subst (OneBooking d flight_id account_id input seats db db') answer outcome

pub book_held-Booked :
    (d : Drawn) (flight_id account_id : Text) (input : CreateBookingInput) (seats : List HeldSeat)
    (db db' : Database) (r : CreateBookingResult)
    → book_held d flight_id account_id input seats db ≡ ok (db', r)
    → OneBooking d flight_id account_id input seats db db' r
unfolding book_held
book_held-Booked d flight_id account_id input seats db db' r e =
    elim (Result-cases (seat_passengers input seats)) [
      | inr (x, failed) ↦ absurd (ground arith)
      | inl (ps, paired) ↦ elim (Result-cases (booking_total ps)) [
        | inr (x, failed) ↦ absurd (ground arith)
        | inl (total, summed) ↦
            elim (Result-cases (
              try_references max_reference_attempts 1 d.reference
                (new_booking d flight_id account_id ps total) db)) [
                  | inr (x, failed) ↦ absurd (ground arith)
                  | inl ((db'', b), tried) ↦
                      finish-Booked d flight_id account_id input seats ps total b db db'' db' r
                        (seat_passengers-eq input seats ps paired) summed tried (ground arith)
                ]
      ]
    ]
