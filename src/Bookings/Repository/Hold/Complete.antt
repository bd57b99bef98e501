-- ===== src/Bookings/Repository/Hold/Complete.antt =====
-- An automatic hold succeeds whenever there are enough seats to take.
use booking_flight_system_mi.Base.{
  ℕ, zero, suc, ◌≤◌, ◌≡◌, refl, Bool, true, List, [], ◌∷◌, take, keep, length, sort_by,
  length-sort_by, All, All-take, All-keep, All-sort_by, Text, arith, Result, ok, Result-cases, inl,
  inr, is_ok, traverse, ==_iff, ap,
}
use booking_flight_system_mi.Store.{Database, FareClass, SeatRow, HeldSeat, seat_leb}
use booking_flight_system_mi.Bookings.Repository.Seats.{hold_rows}
use booking_flight_system_mi.Bookings.Repository.Hold.{
  auto, seats_held, on_sale, is_candidate, candidates, enough, to_held_seat, auto_result,
  commit_hold, hold_auto_seats, hold_seats,
}

length-take : {A : Type 0} (n : ℕ) (xs : List A) → n ≤ length xs → length (take n xs) ≡ n
length-take zero xs h = refl
length-take (suc n) [] h = absurd (omega arith)
length-take (suc n) (x ∷ xs) h = ap suc (length-take n xs (omega arith))

traverse_ok :
    {A B : Type 0} (f : A → Result B) (xs : List A)
    → All (λ x. is_ok (f x) ≡ true) xs
    → (ys : List B) × (traverse f xs ≡ ok ys)
unfolding traverse
traverse_ok f [] h = ([], refl)
traverse_ok f (x ∷ xs) h = elim (Result-cases (f x)) [
  | inr (e, n) ↦ absurd (ground arith)
  | inl (y, here) ↦ let (ys, rest) = traverse_ok f xs h.1 in (y ∷ ys, rw (here, rest) refl)
]

enough_full : (count : ℕ) (rows : List SeatRow) → length rows ≡ count → enough count rows ≡ rows
unfolding enough
enough_full count rows h = rw ((==_iff _ _).1 h) refl

auto_result_full :
    (flight_id booking_id : Text) (fare_class : FareClass) (now : ℕ) (rows : List SeatRow)
    (db : Database)
    → 1 ≤ length rows
    → All (λ s. is_ok (to_held_seat db.fares s) ≡ true) rows
    → (db' : Database) × (seats : List HeldSeat) × (auto_result flight_id booking_id fare_class now
          rows db
        ≡ ok (db', seats_held seats))
unfolding auto_result commit_hold
auto_result_full flight_id booking_id fare_class now [] db some_row priced = absurd (omega arith)
auto_result_full flight_id booking_id fare_class now (x ∷ xs) db some_row priced =
    let (seats, paid) =
      traverse_ok (to_held_seat db.fares) (sort_by seat_leb (x ∷ xs))
        (All-sort_by seat_leb (λ s. is_ok (to_held_seat db.fares s) ≡ true) (x ∷ xs) priced) in
    (record db { seats = hold_rows booking_id (x ∷ xs) db.seats }, seats, rw paid refl)

-- An automatic hold of one or more seats never refuses and never throws while it could be served:
-- if the flight is on sale, at least as many AVAILABLE seats of the class are free of other
-- transactions' locks as are asked for, and every seat of the tables has a fare that can be read,
-- it returns held seats.
pub hold_seats_complete :
    (flight_id booking_id : Text) (count : ℕ) (fare_class : FareClass) (now : ℕ)
    (locked : SeatRow → Bool) (db : Database)
    → on_sale flight_id now db ≡ true
    → 1 ≤ count
    → count ≤ length (keep (is_candidate flight_id fare_class locked) db.seats)
    → All (λ s. is_ok (to_held_seat db.fares s) ≡ true) db.seats
    → (db' : Database) × (seats : List HeldSeat) × (hold_seats flight_id booking_id
          (auto count fare_class)
          now
          locked
          db
        ≡ ok (db', seats_held seats))
unfolding hold_seats hold_auto_seats candidates
hold_seats_complete flight_id booking_id count fare_class now locked db selling wanted free priced =
    let fitting = keep (is_candidate flight_id fare_class locked) db.seats in
    let rows = take count (sort_by seat_leb fitting) in
    let full : length rows ≡ count =
      length-take count (sort_by seat_leb fitting)
        (omega (arith, length-sort_by seat_leb fitting)) in
    let paid : All (λ s. is_ok (to_held_seat db.fares s) ≡ true) rows =
      All-take _ count _ (All-sort_by seat_leb _ _ (All-keep _ _ db.seats priced)) in
    rw (selling, enough_full count rows full)
      (auto_result_full flight_id booking_id fare_class now rows db (omega arith) paid)
