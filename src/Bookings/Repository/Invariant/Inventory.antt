-- ===== src/Bookings/Repository/Invariant/Inventory.antt =====
-- The primary key of `flight_seats`, and what it gives: no seat is sold twice.
use booking_flight_system_mi.Base.{
  ℕ, ◌≡◌, refl, sym, subst, Bool, true, List, [], ◌∷◌, All, All-imp, All-at, Bool-cases, inl, inr,
  ◌⊎◌, Text, arith, ok,
}
use booking_flight_system_mi.Store.{
  Database, SeatRow, SeatStatus, available, is_available, same_seat, HeldSeat,
}
use booking_flight_system_mi.Bookings.Repository.Seats.{hold_rows, hold_for, is_among}
use booking_flight_system_mi.Bookings.Repository.Hold.{
  SeatHoldRequest, HoldSeatsResult, seats_held, hold_seats,
}
use booking_flight_system_mi.Bookings.Repository.Hold.Outcome.{Held, HoldOutcome}
use booking_flight_system_mi.Bookings.Repository.Hold.Laws.{hold_seats-outcome}

-- Two rows with one primary key are one row.
abbrev pub DistinctSeats : List SeatRow → Type 0
DistinctSeats seats = All (λ s. All (λ t. same_seat s t ≡ true → s ≡ t) seats) seats

-- Row by row: unchanged, or AVAILABLE before and held by the booking now.
abbrev pub OnlyFreeTaken : Text → List SeatRow → List SeatRow → Type 0
OnlyFreeTaken id [] [] = Unit
OnlyFreeTaken id [] (t ∷ ts) = ⊥
OnlyFreeTaken id (s ∷ ss) [] = ⊥
OnlyFreeTaken id (s ∷ ss) (t ∷ ts) =
    ((t ≡ s) ⊎ ((s.status ≡ available) × (t ≡ hold_for id s))) × OnlyFreeTaken id ss ts

OnlyFreeTaken-same : (id : Text) (seats : List SeatRow) → OnlyFreeTaken id seats seats
OnlyFreeTaken-same id [] = tt
OnlyFreeTaken-same id (s ∷ seats) = (inl refl, OnlyFreeTaken-same id seats)

status_of_available : (st : SeatStatus) → is_available st ≡ true → st ≡ available
status_of_available available h = refl
status_of_available SeatStatus.seat_held h = cc
status_of_available SeatStatus.booked h = cc

-- A row that shares its key with free rows of the table is free itself.
among_free :
    (s : SeatRow) (rows : List SeatRow)
    → All (λ t. (same_seat s t ≡ true → s ≡ t)) rows
    → All (λ t. is_available t.status ≡ true) rows
    → is_among rows s ≡ true
    → s.status ≡ available
unfolding is_among
among_free s [] same free h = cc
among_free s (t ∷ rows) same free h = elim (Bool-cases (same_seat s t)) [
  | inl y ↦ status_of_available s.status (rw (same.0 y) free.0)
  | inr n ↦ among_free s rows same.1 free.1 (ground arith)
]

taken-OnlyFree :
    (id : Text) (rows seats : List SeatRow)
    → All (λ s. is_among rows s ≡ true → s.status ≡ available) seats
    → OnlyFreeTaken id seats (hold_rows id rows seats)
unfolding hold_rows
taken-OnlyFree id rows [] h = tt
taken-OnlyFree id rows (s ∷ seats) h = elim (Bool-cases (is_among rows s)) [
  | inl y ↦ rw y (inr (h.0 y, refl), taken-OnlyFree id rows seats h.1)
  | inr n ↦ rw n (inl refl, taken-OnlyFree id rows seats h.1)
]

Held-OnlyFree :
    (flight_id booking_id : Text) (request : SeatHoldRequest) (now : ℕ) (db db' : Database)
    (hs : List HeldSeat)
    → Held flight_id booking_id request now db db' hs
    → DistinctSeats db.seats
    → OnlyFreeTaken booking_id db.seats db'.seats
Held-OnlyFree flight_id booking_id request now db db' hs h distinct =
    let in_table : (s : SeatRow)
        → All (λ t. same_seat s t ≡ true → s ≡ t) db.seats
        → All (λ t. same_seat s t ≡ true → s ≡ t) h.rows =
      λ s k. All-imp (λ t i. All-at _ t db.seats k i) h.rows h.from_table in
    let free : All (λ t. is_available t.status ≡ true) h.rows =
      All-imp (λ t k. k.was_free) h.rows h.all_free in
    subst (λ d. OnlyFreeTaken booking_id db.seats d.seats) (sym h.written)
      (taken-OnlyFree booking_id h.rows db.seats
        (All-imp (λ s k. among_free s h.rows (in_table s k) free) db.seats distinct))

outcome-OnlyFree :
    (flight_id booking_id : Text) (request : SeatHoldRequest) (now : ℕ) (db db' : Database)
    (r : HoldSeatsResult)
    → HoldOutcome flight_id booking_id request now db db' r
    → DistinctSeats db.seats
    → OnlyFreeTaken booking_id db.seats db'.seats
outcome-OnlyFree flight_id booking_id request now db db' (seats_held hs) h distinct =
    Held-OnlyFree flight_id booking_id request now db db' hs h distinct
outcome-OnlyFree flight_id booking_id request now db db' _ h distinct =
    subst (λ d. OnlyFreeTaken booking_id db.seats d.seats) (sym h)
      (OnlyFreeTaken-same booking_id db.seats)

-- No double sale: where rows are told apart by their primary key, a hold leaves every seat as it
-- was, or takes one that was AVAILABLE and makes it HELD for its own booking.
pub hold_seats-OnlyFreeTaken :
    (flight_id booking_id : Text) (request : SeatHoldRequest) (now : ℕ) (locked : SeatRow → Bool)
    (db db' : Database) (r : HoldSeatsResult)
    → hold_seats flight_id booking_id request now locked db ≡ ok (db', r)
    → DistinctSeats db.seats
    → OnlyFreeTaken booking_id db.seats db'.seats
hold_seats-OnlyFreeTaken flight_id booking_id request now locked db db' r e =
    outcome-OnlyFree flight_id booking_id request now db db' r
      (hold_seats-outcome flight_id booking_id request now locked db db' r e)
