-- ===== src/Bookings/Repository/Invariant/Writes.antt =====
-- How each kind of write to the bookings and to the seats keeps their agreement.
use booking_flight_system_mi.Base.{
  ◌≡◌, refl, sym, ap, ◌∙◌, subst, Bool, true, false, Option, none, some, List, [], ◌∷◌, All,
  All-update_where, update_where, same, same_iff, Bool-cases, inl, inr, Text, arith,
}
use booking_flight_system_mi.Bookings.Lifecycle.{BookingStatus, held, confirmed, expired}
use booking_flight_system_mi.Store.{
  SeatRow, SeatStatus, available, seat_held, booked, status_of, BookingRow, find_booking, is_id,
}
use booking_flight_system_mi.Bookings.Repository.Seats.{
  hold_for, free_seat, book_seat, is_among, hold_rows, update_seats_of,
}
use booking_flight_system_mi.Bookings.Repository.Rows.{set_status, is_one_of}
use booking_flight_system_mi.Bookings.Repository.Invariant.{SeatOk, RowOk}

-- The key that was looked up is the row's.
pub find_booking-id :
    (id : Text) (bs : List BookingRow) (b : BookingRow) → find_booking id bs ≡ some b → b.id ≡ id
find_booking-id id [] b e = cc
find_booking-id id (x ∷ bs) b e = elim (Bool-cases (same x.id id)) [
  | inl y ↦ ground (arith, same_iff x.id id)
  | inr n ↦ find_booking-id id bs b (rw n at e)
]

pub find_booking_own :
    (id : Text) (bs : List BookingRow) (b : BookingRow)
    → find_booking id bs ≡ some b
    → find_booking b.id bs ≡ some b
find_booking_own id bs b e =
    subst (λ j. find_booking j bs ≡ some b) (sym (find_booking-id id bs b e)) e

pub status_of-found :
    (id : Text) (bs : List BookingRow) (b : BookingRow)
    → find_booking id bs ≡ some b
    → status_of bs b.id ≡ some b.status
unfolding status_of
status_of-found id bs b e = rw (find_booking-id id bs b e) (rw e)

pub status_of-set_status_self :
    (id : Text) (st : BookingStatus) (bs : List BookingRow) (b : BookingRow)
    → find_booking id bs ≡ some b
    → status_of (set_status id st bs) id ≡ some st
unfolding status_of set_status
status_of-set_status_self id st [] b e = cc
status_of-set_status_self id st (x ∷ bs) b e = elim (Bool-cases (same x.id id)) [
  | inl y ↦ ground arith
  | inr n ↦ rw (n, n) (status_of-set_status_self id st bs b (rw n at e))
]

pub status_of-set_status_ne :
    (id j : Text) (st : BookingStatus) (bs : List BookingRow)
    → same j id ≡ false
    → status_of (set_status id st bs) j ≡ status_of bs j
unfolding status_of set_status
status_of-set_status_ne id j st [] ne = refl
status_of-set_status_ne id j st (x ∷ bs) ne =
    ground (
      arith,
      status_of-set_status_ne id j st bs ne,
      same_iff x.id id,
      same_iff x.id j,
      same_iff j id,
    )

pub status_of-expire_ne :
    (due : List BookingRow) (j : Text) (bs : List BookingRow)
    → is_one_of due j ≡ false
    → status_of (update_where (λ b. is_one_of due b.id) (λ b. record b { status = expired }) bs) j
      ≡ status_of bs j
unfolding status_of
status_of-expire_ne due j [] ne = refl
status_of-expire_ne due j (x ∷ bs) ne = elim (Bool-cases (same x.id j)) [
  | inl y ↦ let e : is_one_of due x.id ≡ false = rw ((same_iff x.id j).0 y) ne in rw (e, y) refl
  | inr n ↦ ground (arith, status_of-expire_ne due j bs ne)
]

-- A seat that is left alone stays right where its booking's status does.
pub SeatOk-transfer :
    (f g : Text → Option BookingStatus) (st : SeatStatus) (o : Option Text)
    → ((i : Text) (x : BookingStatus) → o ≡ some i → f i ≡ some x → g i ≡ some x)
    → SeatOk f st o
    → SeatOk g st o
SeatOk-transfer f g available none t h = tt
SeatOk-transfer f g available (some i) t h = h
SeatOk-transfer f g seat_held none t h = h
SeatOk-transfer f g seat_held (some i) t h = t i held refl h
SeatOk-transfer f g booked none t h = h
SeatOk-transfer f g booked (some i) t h = t i confirmed refl h

module _ (f g : Text → Option BookingStatus) where
  -- Releasing the seats of the bookings that change.
  pub release_RowOk :
      (of_source : Option Text → Bool)
      → ((i : Text) → of_source (some i) ≡ false → g i ≡ f i)
      → (seats : List SeatRow) → All (RowOk f) seats
      → All (RowOk g) (update_seats_of of_source free_seat seats)
  unfolding update_seats_of
  release_RowOk of_source agree =
      All-update_where (RowOk f) (RowOk g) (λ s. of_source s.booking_id) free_seat
        λ s h. elim (Bool-cases (of_source s.booking_id)) [
          | inl y ↦ rw y tt
          | inr n ↦
              rw n
                (SeatOk-transfer f g s.status s.booking_id (λ i x e k. agree i (rw e at n) ∙ k) h)
        ]

  -- Booking the seats of one booking that is now CONFIRMED.
  pub book_RowOk :
      (id : Text)
      → g id ≡ some confirmed
      → ((i : Text) → same i id ≡ false → g i ≡ f i)
      → (seats : List SeatRow) → All (RowOk f) seats
      → All (RowOk g) (update_seats_of (is_id id) book_seat seats)
  unfolding update_seats_of
  book_RowOk id done agree =
      All-update_where (RowOk f) (RowOk g) (λ s. is_id id s.booking_id) book_seat
        λ s h. elim (Bool-cases (is_id id s.booking_id)) [
          | inl y ↦ rw y (booked_for s.booking_id y)
          | inr n ↦
              rw n
                (SeatOk-transfer f g s.status s.booking_id (λ i x e k. agree i (rw e at n) ∙ k) h)
        ]
    where
      booked_for : (o : Option Text) → is_id id o ≡ true → SeatOk g booked o
      booked_for none y = cc
      booked_for (some i) y = ap g ((same_iff i id).0 y) ∙ done

  -- Holding seats for a booking that is now HELD and was not there before.
  pub hold_RowOk :
      (id : Text) (rows : List SeatRow)
      → g id ≡ some held
      → ((i : Text) (x : BookingStatus) → f i ≡ some x → g i ≡ some x)
      → (seats : List SeatRow) → All (RowOk f) seats
      → All (RowOk g) (hold_rows id rows seats)
  unfolding hold_rows
  hold_RowOk id rows done extend =
      All-update_where (RowOk f) (RowOk g) (is_among rows) (hold_for id) λ s h.
        elim (Bool-cases (is_among rows s)) [
          | inl y ↦ rw y done
          | inr n ↦ rw n (SeatOk-transfer f g s.status s.booking_id (λ i x e k. extend i x k) h)
        ]
