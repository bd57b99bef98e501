-- ===== src/Bookings/Repository/Invariant/Preserved.antt =====
-- Each method of the booking repository keeps the inventory in agreement with the bookings.
use booking_flight_system_mi.Base.{
  ℕ, ◌≡◌, ap, ◌∙◌, subst, Bool, Option, none, some, Option-cases, Bool-cases, inl, inr, ◌⊎◌,
  find_first, Text, arith, ok, >>=-ok, All-update_where,
}
use booking_flight_system_mi.Aircraft.Position.{SeatPosition}
use booking_flight_system_mi.Bookings.Lifecycle.{
  confirmed, cancelled, cancel_condition, classify_not_cancelled,
}
use booking_flight_system_mi.Store.{
  Database, BookingRow, FlightRow, PassengerRow, SeatRow, BookingAccessScope, status_of,
  find_booking, find_flight, in_scope, is_id,
}
use booking_flight_system_mi.Bookings.Repository.Seats.{free_seat, book_seat, update_seats_of}
use booking_flight_system_mi.Bookings.Repository.Rows.{
  set_status, cancel_row, cancel, CancelResult, due_holds, of_one_of, expire_due_holds, confirm_row,
  confirm_hold, can_confirm, ConfirmHoldResult, map_booking,
}
use booking_flight_system_mi.Bookings.Repository.Change.{
  swap_seats, is_at, is_passenger, find_seat, take_seat, change_locked, change_passenger,
  change_booking, change_seat, ChangeSeatResult,
}
use booking_flight_system_mi.Bookings.Repository.Invariant.{RowOk, Consistent}
use booking_flight_system_mi.Bookings.Repository.Invariant.Writes.{
  find_booking_own, status_of-found, status_of-set_status_self, status_of-set_status_ne,
  status_of-expire_ne, release_RowOk, book_RowOk,
}

cancel_row-Consistent :
    (scope : BookingAccessScope) (now : ℕ) (b : BookingRow) (flight : FlightRow) (db db' : Database)
    (r : CancelResult)
    → cancel_row scope now b flight db ≡ ok (db', r)
    → Consistent db
    → Consistent db'
unfolding cancel_row
cancel_row-Consistent scope now b flight db db' r e c = elim (Bool-cases (in_scope scope b)) [
  | inr out ↦ let same_db : db ≡ db' = ground arith in subst Consistent same_db c
  | inl seen ↦
      elim (Bool-cases (cancel_condition b.status b.hold_expires_at flight.departure_at now)) [
        | inr refused ↦
            let (reason, _, rest) =
              >>=-ok (classify_not_cancelled b.status b.hold_expires_at flight.departure_at now) _
                (rw (seen, refused) at e) in
            let same_db : db ≡ db' = ground arith in subst Consistent same_db c
        | inl done ↦
            let same_bookings : db'.bookings ≡ set_status b.id cancelled db.bookings =
              ground arith in
            let same_seats : db'.seats ≡ update_seats_of (is_id b.id) free_seat db.seats =
              ground arith in
            rw (same_bookings, same_seats)
              (release_RowOk _ _ (is_id b.id)
                (λ i n. status_of-set_status_ne b.id i cancelled db.bookings n) db.seats c)
      ]
]

-- Cancelling a booking, successful or refused, keeps the seats in agreement with the bookings.
pub cancel-Consistent :
    (id : Text) (scope : BookingAccessScope) (now : ℕ) (db db' : Database) (r : CancelResult)
    → cancel id scope now db ≡ ok (db', r)
    → Consistent db
    → Consistent db'
unfolding cancel
cancel-Consistent id scope now db db' r e c = elim (Option-cases (find_booking id db.bookings)) [
  | inl missing ↦ let same_db : db ≡ db' = ground arith in subst Consistent same_db c
  | inr (b, found) ↦ elim (Option-cases (find_flight b.flight_id db.flights)) [
    | inl missing ↦ let same_db : db ≡ db' = ground arith in subst Consistent same_db c
    | inr (flight, listed) ↦ cancel_row-Consistent scope now b flight db db' r (ground arith) c
  ]
]

-- So does a sweep of the expiry job, whatever rows other transactions hold.
pub expire_due_holds-Consistent :
    (now limit : ℕ) (locked : BookingRow → Bool) (db : Database)
    → Consistent db
    → Consistent (expire_due_holds now limit locked db).0
unfolding expire_due_holds
expire_due_holds-Consistent now limit locked db c =
    let due = due_holds now limit locked db.bookings in
    release_RowOk _ _ (of_one_of due) (λ i n. status_of-expire_ne due i db.bookings n) db.seats c

confirm_row-Consistent :
    (id : Text) (b : BookingRow) (db db' : Database) (r : ConfirmHoldResult)
    → find_booking id db.bookings ≡ some b
    → confirm_row b db ≡ ok (db', r)
    → Consistent db
    → Consistent db'
unfolding confirm_row
confirm_row-Consistent id b db db' r found e c =
    let (booking, _, rest) =
      >>=-ok (map_booking db.passengers (record b { status = confirmed })) _ e in
    let same_bookings : db'.bookings ≡ set_status b.id confirmed db.bookings = ground arith in
    let same_seats : db'.seats ≡ update_seats_of (is_id b.id) book_seat db.seats = ground arith in
    rw (same_bookings, same_seats)
      (book_RowOk _ _ b.id
        (status_of-set_status_self b.id confirmed db.bookings b
          (find_booking_own id db.bookings b found))
        (λ i n. status_of-set_status_ne b.id i confirmed db.bookings n) db.seats c)

-- So does the confirmation of a hold.
pub confirm_hold-Consistent :
    (id : Text) (scope : BookingAccessScope) (now : ℕ) (db db' : Database) (r : ConfirmHoldResult)
    → confirm_hold id scope now db ≡ ok (db', r)
    → Consistent db
    → Consistent db'
unfolding confirm_hold
confirm_hold-Consistent id scope now db db' r e c =
    elim (Option-cases (find_booking id db.bookings)) [
      | inl missing ↦ let same_db : db ≡ db' = ground arith in subst Consistent same_db c
      | inr (b, found) ↦ elim (Bool-cases (can_confirm scope now b)) [
        | inr refused ↦ let same_db : db ≡ db' = ground arith in subst Consistent same_db c
        | inl done ↦ confirm_row-Consistent id b db db' r found (ground arith) c
      ]
    ]

swap_seats-Consistent :
    (b : BookingRow) (position : ℕ) (current target : SeatPosition) (db : Database)
    → status_of db.bookings b.id ≡ some confirmed
    → Consistent db
    → Consistent (swap_seats b position current target db)
unfolding swap_seats
swap_seats-Consistent b position current target db owner c =
    let f = status_of db.bookings in
    All-update_where (RowOk f) (RowOk f) (is_at b.flight_id target) (take_seat b.id)
      (λ s h. elim (Bool-cases (is_at b.flight_id target s)) [
        | inl y ↦ rw y owner
        | inr n ↦ rw n h
      ])
      _
      (All-update_where (RowOk f) (RowOk f) (is_at b.flight_id current) free_seat
        (λ s h. elim (Bool-cases (is_at b.flight_id current s)) [
          | inl y ↦ rw y tt
          | inr n ↦ rw n h
        ])
        db.seats c)

-- The verdict on the locked seats writes the swap or nothing.
change_locked-Consistent :
    (b : BookingRow) (position : ℕ) (current target : SeatPosition) (own wanted : Option SeatRow)
    (db db' : Database) (r : ChangeSeatResult)
    → change_locked b position current target own wanted db ≡ ok (db', r)
    → status_of db.bookings b.id ≡ some confirmed
    → Consistent db
    → Consistent db'
unfolding change_locked
change_locked-Consistent b position current target none wanted db db' r e owner c = cc
change_locked-Consistent b position current target (some own) none db db' r e owner c =
    let same_db : db ≡ db' = ground arith in subst Consistent same_db c
change_locked-Consistent b position current target (some own) (some wanted) db db' r e owner c =
    let either : (db ≡ db') ⊎ (swap_seats b position current target db ≡ db') = ground arith in
    elim either [
      | inl unchanged_db ↦ subst Consistent unchanged_db c
      | inr swapped ↦
          subst Consistent swapped (swap_seats-Consistent b position current target db owner c)
    ]

change_passenger-Consistent :
    (id : Text) (b : BookingRow) (flight : FlightRow) (position : ℕ) (target : SeatPosition)
    (now : ℕ) (p : PassengerRow) (db db' : Database) (r : ChangeSeatResult)
    → find_booking id db.bookings ≡ some b
    → change_passenger b flight position target now p db ≡ ok (db', r)
    → Consistent db
    → Consistent db'
unfolding change_passenger
change_passenger-Consistent id b flight position target now p db db' r found e c =
    elim (Option-cases p.seat) [
      | inl none_there ↦ let same_db : db ≡ db' = ground arith in subst Consistent same_db c
      | inr (current, there) ↦
          let either : (db ≡ db')
              ⊎ ((b.status ≡ confirmed)
                  × (change_locked b position current target
                        (find_seat b.flight_id current db.seats)
                        (find_seat b.flight_id target db.seats) db
                      ≡ ok (db', r))) =
            ground arith in
          elim either [
            | inl unchanged_db ↦ subst Consistent unchanged_db c
            | inr (sold, locked) ↦
                change_locked-Consistent b position current target _ _ db db' r locked
                  (status_of-found id db.bookings b found ∙ ap some sold) c
          ]
    ]

-- So does a seat change.
pub change_seat-Consistent :
    (id : Text) (position : ℕ) (target : SeatPosition) (scope : BookingAccessScope) (now : ℕ)
    (db db' : Database) (r : ChangeSeatResult)
    → change_seat id position target scope now db ≡ ok (db', r)
    → Consistent db
    → Consistent db'
unfolding change_seat change_booking
change_seat-Consistent id position target scope now db db' r e c =
    elim (Option-cases (find_booking id db.bookings)) [
      | inl missing ↦ let same_db : db ≡ db' = ground arith in subst Consistent same_db c
      | inr (b, found) ↦
          elim (Option-cases (find_first (is_passenger b.id position) db.passengers)) [
            | inl nobody ↦ let same_db : db ≡ db' = ground arith in subst Consistent same_db c
            | inr (p, seated) ↦ elim (Option-cases (find_flight b.flight_id db.flights)) [
              | inl gone ↦ let same_db : db ≡ db' = ground arith in subst Consistent same_db c
              | inr (flight, listed) ↦ elim (Bool-cases (in_scope scope b)) [
                | inr out ↦ let same_db : db ≡ db' = ground arith in subst Consistent same_db c
                | inl seen ↦
                    change_passenger-Consistent id b flight position target now p db db' r found
                      (ground arith) c
              ]
            ]
          ]
    ]
