-- ===== src/Bookings/Repository/Rows/Confirmed.antt =====
-- What `confirmHold` requires of a booking and does to the tables.
use booking_flight_system_mi.Bookings.Repository.Rows.{is_held}
use booking_flight_system_mi.Bookings.Repository.Rows.Held.{is_held-held}
use booking_flight_system_mi.Store.{in_scope}
use booking_flight_system_mi.Base.{
  ◌<◌, same, same_iff, same_refl, ℕ, ◌≡◌, true, some, Bool-cases, Option-cases, inl, inr, Text,
  arith, ok, Result-cases,
}
use booking_flight_system_mi.Bookings.Lifecycle.{held, confirmed}
use booking_flight_system_mi.Bookings.Repository.Seats.{update_seats_of, book_seat}
use booking_flight_system_mi.Bookings.Repository.Rows.{
  hold_confirmed, not_payable, confirm_hold, confirm_row, can_confirm, set_status, map_booking,
}
use booking_flight_system_mi.Store.{
  Database, Booking, BookingRow, BookingAccessScope, owner, find_booking, is_id,
}

-- The booking is the payer's, HELD, and before its deadline.
pub record Payable (account_id : Text) (now : ℕ) (row : BookingRow) : Type 0 where
  pub its_owner : row.owner_account_id ≡ account_id
  pub held_still : row.status ≡ held
  pub deadline : ℕ
  pub its_deadline : row.hold_expires_at ≡ some deadline
  pub in_time : now < deadline

can_confirm-deadline :
    (scope : BookingAccessScope) (now : ℕ) (row : BookingRow)
    → can_confirm scope now row ≡ true
    → (deadline : ℕ) × (row.hold_expires_at ≡ some deadline) × (now < deadline)
unfolding can_confirm
can_confirm-deadline scope now row h = elim (Option-cases row.hold_expires_at) [
  | inl missing ↦ absurd (ground arith)
  | inr (deadline, given) ↦ (deadline, given, ground arith)
]

can_confirm-held :
    (scope : BookingAccessScope) (now : ℕ) (row : BookingRow)
    → can_confirm scope now row ≡ true
    → row.status ≡ held
unfolding can_confirm
can_confirm-held scope now row h =
    let check : is_held row.status ≡ true = ground arith in is_held-held row.status check

can_confirm-owner :
    (account_id : Text) (now : ℕ) (row : BookingRow)
    → can_confirm (owner account_id) now row ≡ true
    → same row.owner_account_id account_id ≡ true
unfolding can_confirm in_scope
can_confirm-owner account_id now row h = ground arith

pub can_confirm-Payable :
    (account_id : Text) (now : ℕ) (row : BookingRow)
    → can_confirm (owner account_id) now row ≡ true
    → Payable account_id now row
can_confirm-Payable account_id now row h =
    let (deadline, given, early) = can_confirm-deadline (owner account_id) now row h in
    record {
      its_owner =
          (same_iff row.owner_account_id account_id).0 (can_confirm-owner account_id now row h);
      held_still = can_confirm-held (owner account_id) now row h;
      deadline = deadline;
      its_deadline = given;
      in_time = early;
    }

pub Payable-can_confirm :
    (account_id : Text) (now : ℕ) (row : BookingRow)
    → Payable account_id now row
    → can_confirm (owner account_id) now row ≡ true
unfolding can_confirm in_scope
Payable-can_confirm account_id now row h =
    rw (h.held_still, h.its_deadline, h.its_owner, same_refl account_id) (ground (arith, h.in_time))

-- What `confirmHold` has done when it confirmed.
pub record HoldConfirmed (id : Text) (scope : BookingAccessScope) (now : ℕ) (db db' : Database)
    (b : Booking) : Type 0 where
  pub row : BookingRow
  pub found : find_booking id db.bookings ≡ some row
  pub payable : can_confirm scope now row ≡ true
  pub mapped : map_booking db.passengers (record row { status = confirmed }) ≡ ok b
  pub final : db' ≡ record db {
    bookings = set_status row.id confirmed db.bookings;
    seats = update_seats_of (is_id row.id) book_seat db.seats;
  }

confirm_row-final :
    (row : BookingRow) (db db' : Database) (b : Booking)
    → confirm_row row db ≡ ok (db', hold_confirmed b)
    → (map_booking db.passengers (record row { status = confirmed }) ≡ ok b)
      × (db' ≡ record db {
        bookings = set_status row.id confirmed db.bookings;
        seats = update_seats_of (is_id row.id) book_seat db.seats;
      })
unfolding confirm_row
confirm_row-final row db db' b e =
    elim (Result-cases (map_booking db.passengers (record row { status = confirmed }))) [
      | inr (x, n) ↦ absurd (ground arith)
      | inl (c, y) ↦ (ground arith, ground arith)
    ]

pub confirm_hold-confirmed :
    (id : Text) (scope : BookingAccessScope) (now : ℕ) (db db' : Database) (b : Booking)
    → confirm_hold id scope now db ≡ ok (db', hold_confirmed b)
    → HoldConfirmed id scope now db db' b
unfolding confirm_hold
confirm_hold-confirmed id scope now db db' b e = elim (Option-cases (find_booking id db.bookings)) [
  | inl missing ↦ absurd (ground arith)
  | inr (row, found) ↦ elim (Bool-cases (can_confirm scope now row)) [
    | inr refused ↦ absurd (ground arith)
    | inl payable ↦
        let (mapped, final) = confirm_row-final row db db' b (ground arith) in
        record { row = row; found = found; payable = payable; mapped = mapped; final = final }
  ]
]

confirm_row_confirms :
    (row : BookingRow) (db db' : Database) → confirm_row row db ≡ ok (db', not_payable) → ⊥
unfolding confirm_row
confirm_row_confirms row db db' e =
    elim (Result-cases (map_booking db.passengers (record row { status = confirmed }))) [
      | inr (x, n) ↦ ground arith
      | inl (c, y) ↦ ground arith
    ]

pub confirm_hold-not_payable :
    (id : Text) (scope : BookingAccessScope) (now : ℕ) (db db' : Database)
    → confirm_hold id scope now db ≡ ok (db', not_payable)
    → db' ≡ db
unfolding confirm_hold
confirm_hold-not_payable id scope now db db' e = elim (Option-cases (find_booking id db.bookings)) [
  | inl missing ↦ ground arith
  | inr (row, found) ↦ elim (Bool-cases (can_confirm scope now row)) [
    | inr refused ↦ ground arith
    | inl payable ↦ absurd (confirm_row_confirms row db db' (ground arith))
  ]
]

pub confirmed_again :
    (id : Text) (scope : BookingAccessScope) (now : ℕ) (db : Database) (row : BookingRow)
    (b : Booking)
    → find_booking id db.bookings ≡ some row
    → can_confirm scope now row ≡ true
    → map_booking db.passengers (record row { status = confirmed }) ≡ ok b
    → confirm_hold id scope now db
      ≡ ok (
        record db {
          bookings = set_status row.id confirmed db.bookings;
          seats = update_seats_of (is_id row.id) book_seat db.seats;
        },
        hold_confirmed b,
      )
unfolding confirm_hold confirm_row
confirmed_again id scope now db row b found payable mapped = ground arith
