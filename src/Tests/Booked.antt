-- ===== src/Tests/Booked.antt =====
-- The theorems on bookings and seats at the sample booking.
use booking_flight_system_mi.Base.{
  ℕ, true, ◌⊎◌, keep, List, arith, ◌≡◌, refl, false, [], ◌∷◌, text, ok, same,
}
use booking_flight_system_mi.Store.{economy, owner, same_seat, same_position}
use booking_flight_system_mi.Bookings.Repository.Hold.{auto, seats_held}
use booking_flight_system_mi.Bookings.Repository.Hold.Outcome.{HoldOutcome}
use booking_flight_system_mi.Bookings.Repository.Hold.Laws.{hold_seats-outcome}
use booking_flight_system_mi.Bookings.Repository.Change.{changed}
use booking_flight_system_mi.Bookings.Repository.Invariant.{Consistent}
use booking_flight_system_mi.Bookings.Repository.Invariant.Preserved.{}
use booking_flight_system_mi.Bookings.Repository.Invariant.Inventory.{
  DistinctSeats, OnlyFreeTaken, hold_seats-OnlyFreeTaken,
}
use booking_flight_system_mi.Bookings.Create.{booking_made, seat_passengers}
use booking_flight_system_mi.Bookings.Create.Outcome.{
  CreateOutcome, create_transaction-outcome, create_transaction-Consistent,
}
use booking_flight_system_mi.Bookings.Create.Seated.{IsSeated, seat_passengers_ok}
use booking_flight_system_mi.System.{
  History, nothing_yet, then, creates, starts_payment, settles_charged, reseats, History-Consistent,
}
use booking_flight_system_mi.Store.{HeldSeat, Database, BookingPassenger}
use booking_flight_system_mi.Bookings.Repository.Hold.{hold_seats}
use booking_flight_system_mi.Bookings.Repository.Hold.Complete.{hold_seats_complete}
use booking_flight_system_mi.Tests.Sample.{selling_sample, free_sample, priced_sample}
use booking_flight_system_mi.Tests.Sample.{
  db0, db1, db_held, drawn, input, booking, booking_id, flight_id, account_id, seat_1a, seat_1b,
  created_sample, held_sample,
}
use booking_flight_system_mi.Tests.Paid.{
  db3, starting, request, payment, settling, reference, confirmed_response, started_sample,
  charged_sample,
}
use booking_flight_system_mi.Tests.Later.{
  reseating, db_reseated, moved_booking, reseated_sample, cancelling, db_refunding,
  refunding_result, refunding_sample,
}
use booking_flight_system_mi.Bookings.Reseat.{seat_set}
use booking_flight_system_mi.Bookings.Reseat.Outcome.{ReseatOutcome, reseat_transaction-outcome}
use booking_flight_system_mi.Bookings.Cancel.Outcome.{CancelOutcome, cancel_transaction-outcome}
use booking_flight_system_mi.Bookings.Expire.{Expiring, expire_holds}
use booking_flight_system_mi.Bookings.Expire.Drained.{expire_holds-drained}
use booking_flight_system_mi.Bookings.Repository.Rows.{is_due}
use booking_flight_system_mi.Jobs.Batches.{BatchRun}

db0-Consistent : Consistent db0
db0-Consistent = (tt, (tt, tt))

db0-DistinctSeats : DistinctSeats db0.seats
unfolding same_seat same_position same
db0-DistinctSeats =
    (((λ e. refl), ((λ e. absurd (cc)), tt)), (((λ e. absurd (cc)), ((λ e. refl), tt)), tt))

-- Created, paid, and moved to another seat.
sample-History : History db0 db_reseated
sample-History =
    then
      (then
        (then
          (then nothing_yet
            (creates drawn flight_id account_id input (booking_made booking) created_sample))
          (starts_payment starting booking_id (owner account_id) account_id request payment
            started_sample))
        (settles_charged settling payment reference confirmed_response charged_sample))
      (reseats reseating booking_id 1 seat_1b (owner account_id) account_id
        (seat_set (changed (text "1A") (text "1B")) moved_booking) reseated_sample)

History-Consistent_example : Consistent db_reseated
History-Consistent_example = History-Consistent sample-History db0-Consistent

create_transaction-outcome_example :
    CreateOutcome drawn flight_id account_id input db0 db1 (booking_made booking)
create_transaction-outcome_example =
    create_transaction-outcome drawn flight_id account_id input db0 db1 (booking_made booking)
      created_sample

hold_seats-outcome_example :
    HoldOutcome flight_id booking_id (auto 1 economy) 1000 db0 db_held (seats_held (seat_1a ∷ []))
hold_seats-outcome_example =
    hold_seats-outcome flight_id booking_id (auto 1 economy) 1000 (λ s. false) db0 db_held
      (seats_held (seat_1a ∷ [])) held_sample

hold_seats-OnlyFreeTaken_example : OnlyFreeTaken booking_id db0.seats db_held.seats
hold_seats-OnlyFreeTaken_example =
    hold_seats-OnlyFreeTaken flight_id booking_id (auto 1 economy) 1000 (λ s. false) db0 db_held
      (seats_held (seat_1a ∷ [])) held_sample db0-DistinctSeats

db1-Consistent : Consistent db1
db1-Consistent =
    create_transaction-Consistent drawn flight_id account_id input db0 db1 (booking_made booking)
      created_sample db0-Consistent

db3-Consistent : Consistent db3
db3-Consistent =
    History-Consistent
      (then
        (then
          (then nothing_yet
            (creates drawn flight_id account_id input (booking_made booking) created_sample))
          (starts_payment starting booking_id (owner account_id) account_id request payment
            started_sample))
        (settles_charged settling payment reference confirmed_response charged_sample))
      db0-Consistent

seat_passengers_ok_example :
    (passengers : List BookingPassenger) × (seat_passengers input (seat_1a ∷ []) ≡ ok passengers)
    × IsSeated input (seat_1a ∷ []) passengers
seat_passengers_ok_example =
    seat_passengers_ok drawn flight_id input db0 db_held (seat_1a ∷ []) held_sample

hold_seats_complete_example :
    (db' : Database) × (seats : List HeldSeat) × (hold_seats flight_id booking_id
        (auto 1 economy)
        1000
        (λ s. false)
        db0
      ≡ ok (db', seats_held seats))
hold_seats_complete_example =
    hold_seats_complete flight_id booking_id 1 economy 1000 (λ s. false) db0 selling_sample
      (omega arith) free_sample priced_sample

cancel_transaction-outcome_example :
    CancelOutcome cancelling booking_id
      (owner account_id)
      account_id
      db3
      db_refunding
      refunding_result
cancel_transaction-outcome_example =
    cancel_transaction-outcome cancelling booking_id (owner account_id) account_id db3 db_refunding
      refunding_result refunding_sample

reseat_transaction-outcome_example :
    ReseatOutcome reseating booking_id 1 seat_1b
      (owner account_id)
      account_id
      db3
      db_reseated
      (seat_set (changed (text "1A") (text "1B")) moved_booking)
reseat_transaction-outcome_example =
    reseat_transaction-outcome reseating booking_id 1 seat_1b (owner account_id) account_id db3
      db_reseated (seat_set (changed (text "1A") (text "1B")) moved_booking) reseated_sample

-- A run after the deadline of the sample hold.
abbrev expiring : Expiring
expiring = record {
  now = 901000;
  audit_id = λ number place. text "audit-7";
  outbox_id = λ number place. text "event-7";
  locked = λ b. false;
  batch_size = 100;
  max_batches = 10;
}

expire_holds-drained_example :
    (run : BatchRun ℕ) × ((expire_holds expiring db1).1 ≡ ok run)
    × Consistent (expire_holds expiring db1).0
    × ((run.exhausted ≡ true)
        ⊎ (keep (is_due 901000 (λ b. false)) (expire_holds expiring db1).0.bookings ≡ []))
expire_holds-drained_example = expire_holds-drained expiring db1 db1-Consistent
