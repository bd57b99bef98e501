-- ===== src/Bookings/Reseat/Outcome.antt =====
-- What a change of seat leaves behind.
use booking_flight_system_mi.Base.{
  ℕ, ◌≡◌, ◌⊎◌, refl, sym, ◌∙◌, subst, Bool, true, false, Option, none, some, ◌∷◌, Text, Result, ok,
  Bool-cases, Option-cases, Result-cases, inl, inr, arith, find_first,
}
use booking_flight_system_mi.Aircraft.Position.{SeatPosition}
use booking_flight_system_mi.Store.{
  Database, Booking, BookingRow, PassengerRow, FlightRow, SeatRow, BookingAccessScope, audit,
  find_booking, find_flight, in_scope,
}
use booking_flight_system_mi.Bookings.Repository.Rows.{find_by_id}
use booking_flight_system_mi.Bookings.Repository.Change.{
  ChangeSeatResult, changed, unchanged, not_found, passenger_not_found, not_changeable,
  change_sales_closed, unknown_seat, seat_unavailable, fare_class_mismatch, change_locked,
  change_passenger, change_booking, change_seat, find_seat, is_passenger,
}
use booking_flight_system_mi.Bookings.Repository.Invariant.{Consistent}
use booking_flight_system_mi.Bookings.Repository.Invariant.Preserved.{change_seat-Consistent}
use booking_flight_system_mi.Bookings.Reseat.Moved.{SeatMoved, change_seat-SeatMoved}
use booking_flight_system_mi.Bookings.Reseat.{
  ReseatResult, seat_set, seat_not_set, Reseating, reseat_audit, read_reseated, after_change,
  reseat_transaction,
}

abbrev is_changed : ChangeSeatResult → Bool
is_changed (changed from to) = true
is_changed _ = false

change_locked-same :
    (b : BookingRow) (position : ℕ) (current target : SeatPosition) (own wanted : Option SeatRow)
    (db db' : Database) (r : ChangeSeatResult)
    → is_changed r ≡ false
    → change_locked b position current target own wanted db ≡ ok (db', r)
    → db' ≡ db
unfolding change_locked
change_locked-same b position current target none wanted db db' r h e = absurd (cc)
change_locked-same b position current target (some own) none db db' r h e = ground arith
change_locked-same b position current target (some own) (some wanted) db db' r h e = ground arith

change_passenger-same :
    (b : BookingRow) (flight : FlightRow) (position : ℕ) (target : SeatPosition) (now : ℕ)
    (p : PassengerRow) (db db' : Database) (r : ChangeSeatResult)
    → is_changed r ≡ false
    → change_passenger b flight position target now p db ≡ ok (db', r)
    → db' ≡ db
unfolding change_passenger
change_passenger-same b flight position target now p db db' r h e = elim (Option-cases p.seat) [
  | inl none_there ↦ ground arith
  | inr (current, there) ↦
      let either : (db' ≡ db)
          ⊎ (change_locked b position current target (find_seat b.flight_id current db.seats)
                (find_seat b.flight_id target db.seats) db
              ≡ ok (db', r)) =
        ground arith in
      elim either [
        | inl same_db ↦ same_db
        | inr locked ↦ change_locked-same b position current target _ _ db db' r h locked
      ]
]

change_booking-same :
    (b : BookingRow) (flight : FlightRow) (position : ℕ) (target : SeatPosition) (now : ℕ)
    (db db' : Database) (r : ChangeSeatResult)
    → is_changed r ≡ false
    → change_booking b flight position target now db ≡ ok (db', r)
    → db' ≡ db
unfolding change_booking
change_booking-same b flight position target now db db' r h e =
    elim (Option-cases (find_first (is_passenger b.id position) db.passengers)) [
      | inl missing ↦ ground arith
      | inr (p, found) ↦
          change_passenger-same b flight position target now p db db' r h (ground arith)
    ]

change_seat-same :
    (id : Text) (position : ℕ) (target : SeatPosition) (scope : BookingAccessScope) (now : ℕ)
    (db db' : Database) (r : ChangeSeatResult)
    → is_changed r ≡ false
    → change_seat id position target scope now db ≡ ok (db', r)
    → db' ≡ db
unfolding change_seat
change_seat-same id position target scope now db db' r h e =
    elim (Option-cases (find_booking id db.bookings)) [
      | inl missing ↦ ground arith
      | inr (b, found) ↦ elim (Option-cases (find_flight b.flight_id db.flights)) [
        | inl missing ↦ ground arith
        | inr (flight, there) ↦ elim (Bool-cases (in_scope scope b)) [
          | inl y ↦ change_booking-same b flight position target now db db' r h (ground arith)
          | inr n ↦ ground arith
        ]
      ]
    ]

-- What a change of seat that committed leaves, by its answer.
pub data ReseatOutcome (x : Reseating) (id : Text) (position : ℕ) (target : SeatPosition)
    (scope : BookingAccessScope) (account_id : Text) (db db' : Database)
    : ReseatResult → Type 0 where
  moved_to :
      (from to : Text) (b : Booking) (moved : Database)
      → change_seat id position target scope x.now db ≡ ok (moved, changed from to)
      → SeatMoved id position target scope x.now db moved from to
      → db' ≡ record moved {
        audit_log = reseat_audit x id account_id position from to ∷ moved.audit_log;
      }
      → find_by_id id scope db' ≡ ok (some b)
      → ReseatOutcome x id position target scope account_id db db' (seat_set (changed from to) b)
  stayed :
      (b : Booking)
      → db' ≡ db
      → change_seat id position target scope x.now db ≡ ok (db, unchanged)
      → find_by_id id scope db ≡ ok (some b)
      → ReseatOutcome x id position target scope account_id db db' (seat_set unchanged b)
  refused :
      (r : ChangeSeatResult)
      → db' ≡ db
      → change_seat id position target scope x.now db ≡ ok (db, r)
      → ReseatOutcome x id position target scope account_id db db' (seat_not_set r)

read_reseated-read :
    (id : Text) (scope : BookingAccessScope) (r : ChangeSeatResult) (db db' : Database)
    (answer : ReseatResult)
    → read_reseated id scope r db ≡ ok (db', answer)
    → (b : Booking) × (answer ≡ seat_set r b) × (db' ≡ db) × (find_by_id id scope db ≡ ok (some b))
unfolding read_reseated
read_reseated-read id scope r db db' answer e = elim (Result-cases (find_by_id id scope db)) [
  | inr (x, n) ↦ absurd (ground arith)
  | inl (none, y) ↦ absurd (ground arith)
  | inl (some b, y) ↦ (b, ground arith, ground arith, y)
]

unchanged-outcome :
    (x : Reseating) (id : Text) (position : ℕ) (target : SeatPosition) (scope : BookingAccessScope)
    (account_id : Text) (db db' : Database) (answer : ReseatResult)
    → change_seat id position target scope x.now db ≡ ok (db, unchanged)
    → read_reseated id scope unchanged db ≡ ok (db', answer)
    → ReseatOutcome x id position target scope account_id db db' answer
unchanged-outcome x id position target scope account_id db db' answer step e =
    let (b, told, final, read) = read_reseated-read id scope unchanged db db' answer e in
    rw told (stayed b final step read)

changed-outcome :
    (x : Reseating) (id : Text) (position : ℕ) (target : SeatPosition) (scope : BookingAccessScope)
    (account_id : Text) (db moved db' : Database) (from to : Text) (answer : ReseatResult)
    → change_seat id position target scope x.now db ≡ ok (moved, changed from to)
    → read_reseated id scope (changed from to) (record moved {
      audit_log = reseat_audit x id account_id position from to ∷ moved.audit_log;
    })
      ≡ ok (db', answer)
    → ReseatOutcome x id position target scope account_id db db' answer
changed-outcome x id position target scope account_id db moved db' from to answer step e =
    let (b, told, final, read) = read_reseated-read id scope (changed from to) _ db' answer e in
    rw told (
      moved_to from to b moved step
        (change_seat-SeatMoved id position target scope x.now db moved from to step) final
        (subst (λ d. find_by_id id scope d ≡ ok (some b)) (sym final) read))

not_set-outcome :
    (x : Reseating) (id : Text) (position : ℕ) (target : SeatPosition) (scope : BookingAccessScope)
    (account_id : Text) (db db1 db' : Database) (r : ChangeSeatResult) (answer : ReseatResult)
    → change_seat id position target scope x.now db ≡ ok (db1, r)
    → db1 ≡ db
    → ◌≡◌ {A = Result (Database × ReseatResult)} (ok (db1, seat_not_set r)) (ok (db', answer))
    → ReseatOutcome x id position target scope account_id db db' answer
not_set-outcome x id position target scope account_id db db1 db' r answer step kept e =
    let told : answer ≡ seat_not_set r = ground arith in
    let final : db' ≡ db1 = ground arith in
    rw told (
      refused r (final ∙ kept)
        (subst (λ d. change_seat id position target scope x.now db ≡ ok (d, r)) kept step))

-- By the answer of `changeSeat`; an answer that is no change has left the tables alone.
after_change-outcome :
    (x : Reseating) (id : Text) (position : ℕ) (target : SeatPosition) (scope : BookingAccessScope)
    (account_id : Text) (db db1 db' : Database) (r : ChangeSeatResult) (answer : ReseatResult)
    → change_seat id position target scope x.now db ≡ ok (db1, r)
    → (is_changed r ≡ false → db1 ≡ db)
    → after_change x id position scope account_id r db1 ≡ ok (db', answer)
    → ReseatOutcome x id position target scope account_id db db' answer
unfolding after_change audit
after_change-outcome x id position target scope account_id db db1 db' (changed from to) answer step
      kept e =
    changed-outcome x id position target scope account_id db db1 db' from to answer step e
after_change-outcome x id position target scope account_id db db1 db' unchanged answer step kept e =
    unchanged-outcome x id position target scope account_id db db' answer
      (subst (λ d. change_seat id position target scope x.now db ≡ ok (d, unchanged)) (kept refl)
        step)
      (subst (λ d. read_reseated id scope unchanged d ≡ ok (db', answer)) (kept refl) e)
after_change-outcome x id position target scope account_id db db1 db' not_found answer step kept e =
    not_set-outcome x id position target scope account_id db db1 db' not_found answer step
      (kept refl) e
after_change-outcome x id position target scope account_id db db1 db' passenger_not_found answer
      step kept e =
    not_set-outcome x id position target scope account_id db db1 db' passenger_not_found answer step
      (kept refl) e
after_change-outcome x id position target scope account_id db db1 db' not_changeable answer step
      kept e =
    not_set-outcome x id position target scope account_id db db1 db' not_changeable answer step
      (kept refl) e
after_change-outcome x id position target scope account_id db db1 db' change_sales_closed answer
      step kept e =
    not_set-outcome x id position target scope account_id db db1 db' change_sales_closed answer step
      (kept refl) e
after_change-outcome x id position target scope account_id db db1 db' unknown_seat answer step kept
      e =
    not_set-outcome x id position target scope account_id db db1 db' unknown_seat answer step
      (kept refl) e
after_change-outcome x id position target scope account_id db db1 db' seat_unavailable answer step
      kept e =
    not_set-outcome x id position target scope account_id db db1 db' seat_unavailable answer step
      (kept refl) e
after_change-outcome x id position target scope account_id db db1 db'
      (fare_class_mismatch seat_class target_class) answer step kept e =
    not_set-outcome x id position target scope account_id db db1 db'
      (fare_class_mismatch seat_class target_class) answer step (kept refl) e

-- A change of seat that commits either moved the passenger: the booking is CONFIRMED and in the
-- caller's scope, its flight is on sale, the passenger's seat was BOOKED for the booking and the new
-- one free and of the same class, the old seat is free and the new one BOOKED for the booking, one
-- audit entry names both codes, and the answer is the booking as it reads afterwards; or
-- `changeSeat` answered on these tables that the seat is unchanged, and no table has changed; or it
-- returns the refusal that `changeSeat` gives on these tables, and no table has changed.
pub reseat_transaction-outcome :
    (x : Reseating) (id : Text) (position : ℕ) (target : SeatPosition) (scope : BookingAccessScope)
    (account_id : Text) (db db' : Database) (answer : ReseatResult)
    → reseat_transaction x id position target scope account_id db ≡ ok (db', answer)
    → ReseatOutcome x id position target scope account_id db db' answer
unfolding reseat_transaction
reseat_transaction-outcome x id position target scope account_id db db' answer e =
    elim (Result-cases (change_seat id position target scope x.now db)) [
      | inr (fault, n) ↦ absurd (ground arith)
      | inl ((db1, r), y) ↦
          after_change-outcome x id position target scope account_id db db1 db' r answer y
            (λ h. change_seat-same id position target scope x.now db db1 r h y) (ground arith)
    ]

outcome-Consistent :
    (x : Reseating) (id : Text) (position : ℕ) (target : SeatPosition) (scope : BookingAccessScope)
    (account_id : Text) (db db' : Database) (answer : ReseatResult)
    → ReseatOutcome x id position target scope account_id db db' answer
    → Consistent db
    → Consistent db'
outcome-Consistent x id position target scope account_id db db' answer
      (moved_to from to b moved step seats final read) c =
    subst Consistent (sym final)
      (change_seat-Consistent id position target scope x.now db moved (changed from to) step c)
outcome-Consistent x id position target scope account_id db db' answer (stayed b final step read)
      c =
    subst Consistent (sym final) c
outcome-Consistent x id position target scope account_id db db' answer (refused r final step) c =
    subst Consistent (sym final) c

pub reseat_transaction-Consistent :
    (x : Reseating) (id : Text) (position : ℕ) (target : SeatPosition) (scope : BookingAccessScope)
    (account_id : Text) (db db' : Database) (answer : ReseatResult)
    → reseat_transaction x id position target scope account_id db ≡ ok (db', answer)
    → Consistent db
    → Consistent db'
reseat_transaction-Consistent x id position target scope account_id db db' answer e =
    outcome-Consistent x id position target scope account_id db db' answer
      (reseat_transaction-outcome x id position target scope account_id db db' answer e)
