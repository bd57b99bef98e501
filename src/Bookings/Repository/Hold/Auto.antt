-- ===== src/Bookings/Repository/Hold/Auto.antt =====
-- `holdAutoSeats` takes the requested count of free seats of the class, or none.
use booking_flight_system_mi.Base.{
  IsDrawnFrom, count-take, count-sort_by, count-keep, sort_by, ℕ, ◌≡◌, refl, sym, ap, ◌∙◌, subst,
  Bool, true, List, [], ◌∷◌, All, IsIn, All-IsIn, All-imp, All-take, All-keep, All-keep_test,
  All-sort_by, length, length-sort_by, length-traverse, keep, Bool-cases, inl, inr, Text, arith, ok,
}
use booking_flight_system_mi.Store.{Database, FareClass, SeatRow, seat_leb}
use booking_flight_system_mi.Bookings.Repository.Hold.{
  SeatHoldRequest, auto, HoldSeatsResult, seats_held, on_sale, is_candidate, candidates, enough,
  auto_result, hold_auto_seats,
}
use booking_flight_system_mi.Bookings.Repository.Hold.Outcome.{
  Takes, Held, HoldOutcome, commit_hold-eq, traverse-Tickets,
}

module _ (flight_id booking_id : Text) (now : ℕ) where
  module _ (count : ℕ) (fare_class : FareClass) (locked : SeatRow → Bool) where
    candidate_Takes :
        (s : SeatRow)
        → is_candidate flight_id fare_class locked s ≡ true
        → Takes flight_id (auto count fare_class) s
    unfolding is_candidate
    candidate_Takes s h = ground arith

    candidates-All :
        (P : SeatRow → Type 0) (db : Database)
        → All P (keep (is_candidate flight_id fare_class locked) db.seats)
        → All P (candidates flight_id count fare_class now locked db)
    unfolding candidates
    candidates-All P db h = elim (Bool-cases (on_sale flight_id now db)) [
      | inl y ↦ rw y (All-take P count _ (All-sort_by seat_leb P _ h))
      | inr n ↦ rw n tt
    ]

    candidates-IsDrawnFrom :
        (db : Database) → IsDrawnFrom (candidates flight_id count fare_class now locked db) db.seats
    unfolding candidates
    candidates-IsDrawnFrom db p = elim (Bool-cases (on_sale flight_id now db)) [
      | inr n ↦ rw n (omega arith)
      | inl y ↦
          let fitting = keep (is_candidate flight_id fare_class locked) db.seats in
          rw y (
            omega (
              arith,
              count-take p count (sort_by seat_leb fitting),
              count-sort_by seat_leb p fitting,
              count-keep p (is_candidate flight_id fare_class locked) db.seats,
            ))
    ]

    candidates-on_sale :
        (db : Database) (x : SeatRow) (xs : List SeatRow)
        → candidates flight_id count fare_class now locked db ≡ x ∷ xs
        → on_sale flight_id now db ≡ true
    unfolding candidates
    candidates-on_sale db x xs e = ground arith

  enough-eq :
      (count : ℕ) (rows : List SeatRow) (x : SeatRow) (xs : List SeatRow)
      → enough count rows ≡ x ∷ xs
      → (rows ≡ x ∷ xs) × (length rows ≡ count)
  unfolding enough
  enough-eq count rows x xs e = ground arith

  auto_refused-same :
      (fare_class : FareClass) (request : SeatHoldRequest) (db db' : Database) (r : HoldSeatsResult)
      → auto_result flight_id booking_id fare_class now [] db ≡ ok (db', r)
      → HoldOutcome flight_id booking_id request now db db' r
  unfolding auto_result
  auto_refused-same fare_class request db db' (seats_held seats) e = absurd (ground arith)
  auto_refused-same fare_class request db db' _ e = ground arith

  auto_held-outcome :
      (count : ℕ) (fare_class : FareClass) (locked : SeatRow → Bool) (db db' : Database)
      (r : HoldSeatsResult) (x : SeatRow) (xs : List SeatRow)
      → enough count (candidates flight_id count fare_class now locked db) ≡ x ∷ xs
      → auto_result flight_id booking_id fare_class now (x ∷ xs) db ≡ ok (db', r)
      → HoldOutcome flight_id booking_id (auto count fare_class) now db db' r
  unfolding auto_result
  auto_held-outcome count fare_class locked db db' r x xs full e =
      let (same_rows, as_many) = enough-eq count _ x xs full in
      let (seats, priced, written, answer) = commit_hold-eq booking_id (x ∷ xs) _ db db' r e in
      let outcome : Held flight_id booking_id (auto count fare_class) now db db' seats = record {
        rows = x ∷ xs;
        written = written;
        on_time = candidates-on_sale count fare_class locked db x xs same_rows;
        as_many = ap length (sym same_rows) ∙ as_many;
        paired =
            length-traverse _ _ seats priced
            ∙ length-sort_by seat_leb (x ∷ xs)
            ∙ ap length (sym same_rows)
            ∙ as_many;
        all_free = subst (All (Takes flight_id (auto count fare_class))) same_rows (
            candidates-All count fare_class locked _ db
              (All-imp (candidate_Takes count fare_class locked) _ (All-keep_test _ db.seats)));
        from_table = subst (All (λ s. IsIn s db.seats)) same_rows (
            candidates-All count fare_class locked _ db
              (All-keep _ _ db.seats (All-IsIn db.seats)));
        drawn_once =
            subst (λ l. IsDrawnFrom l db.seats) same_rows
              (candidates-IsDrawnFrom count fare_class locked db);
        sold = sort_by seat_leb (x ∷ xs);
        sold_for = refl;
        tickets = traverse-Tickets db.fares (sort_by seat_leb (x ∷ xs)) seats priced;
      } in
      subst (HoldOutcome flight_id booking_id (auto count fare_class) now db db') (sym answer)
        outcome

  pub hold_auto_seats-outcome :
      (count : ℕ) (fare_class : FareClass) (locked : SeatRow → Bool) (db db' : Database)
      (r : HoldSeatsResult)
      → hold_auto_seats flight_id booking_id count fare_class now locked db ≡ ok (db', r)
      → HoldOutcome flight_id booking_id (auto count fare_class) now db db' r
  unfolding hold_auto_seats
  hold_auto_seats-outcome count fare_class locked db db' r e =
      split (enough count (candidates flight_id count fare_class now locked db)) refl
    where
      split :
          (rows : List SeatRow)
          → enough count (candidates flight_id count fare_class now locked db) ≡ rows
          → HoldOutcome flight_id booking_id (auto count fare_class) now db db' r
      split [] none_left = auto_refused-same fare_class _ db db' r (rw none_left at e)
      split (x ∷ xs) full =
          auto_held-outcome count fare_class locked db db' r x xs full (rw full at e)
