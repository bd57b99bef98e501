-- ===== src/Bookings/Repository/Hold/Chosen.antt =====
-- `holdChosenSeats` takes exactly the requested seats, or none.
use booking_flight_system_mi.Base.{
  Bool, IsDrawnFrom, count-sort_by, count-keep, traverse, map, some, Option-cases, Result-cases, ℕ,
  ◌≡◌, ◌≢◌, refl, sym, subst, true, ◌&&◌, List, [], ◌∷◌, All, IsIn, All-IsIn, All-zip, All-keep,
  All-keep_test, All-sort_by, length, length-traverse, keep, any, all, ==_iff, Bool-cases, inl, inr,
  Text, arith, ok, same, and-left, and-right,
}
use booking_flight_system_mi.Aircraft.Position.{SeatPosition}
use booking_flight_system_mi.Store.{
  FareRow, Database, SeatRow, HeldSeat, is_available, same_position, seat_leb,
}
use booking_flight_system_mi.Bookings.Repository.Hold.{
  SeatHoldRequest, chosen, HoldSeatsResult, seats_held, on_sale, commit_hold, requested_rows,
  row_of, held_or_missing, to_held_seat, verdict, chosen_result, explain_chosen, hold_chosen_seats,
}
use booking_flight_system_mi.Bookings.Repository.Hold.Outcome.{
  Takes, Held, HoldOutcome, commit_hold-eq, traverse-Tickets,
}

module _ (flight_id booking_id : Text) (now : ℕ) where
  requested-All :
      (requested : List SeatPosition) (P : SeatRow → Type 0) (db : Database)
      → All P (
          keep
            (λ s. same s.flight_id flight_id && any (same_position s.position) requested)
            db.seats)
      → All P (requested_rows flight_id requested now db)
  unfolding requested_rows
  requested-All requested P db h = elim (Bool-cases (on_sale flight_id now db)) [
    | inl y ↦ rw y (All-sort_by seat_leb P _ h)
    | inr n ↦ rw n tt
  ]

  requested-IsDrawnFrom :
      (requested : List SeatPosition) (db : Database)
      → IsDrawnFrom (requested_rows flight_id requested now db) db.seats
  unfolding requested_rows
  requested-IsDrawnFrom requested db p = elim (Bool-cases (on_sale flight_id now db)) [
    | inr n ↦ rw n (omega arith)
    | inl y ↦
        let wanted : SeatRow → Bool =
          λ s. same s.flight_id flight_id && any (same_position s.position) requested in
        rw y (
          omega
            (arith, count-sort_by seat_leb p (keep wanted db.seats), count-keep p wanted db.seats))
  ]

  -- The rows of the positions, in the order of the request.
  found_rows :
      (fares : List FareRow) (rows : List SeatRow) (requested : List SeatPosition)
      (seats : List HeldSeat)
      → traverse (λ p. held_or_missing fares (row_of p rows)) requested ≡ ok seats
      → (sold : List SeatRow) × (map (λ p. row_of p rows) requested ≡ map some sold)
        × (traverse (to_held_seat fares) sold ≡ ok seats)
  unfolding traverse
  found_rows fares rows [] seats e = ([], refl, e)
  found_rows fares rows (p ∷ ps) seats e = elim (Option-cases (row_of p rows)) [
    | inl missing ↦ absurd (ground arith)
    | inr (s, found) ↦ elim (Result-cases (to_held_seat fares s)) [
      | inr (x, n) ↦ absurd (ground arith)
      | inl (h, y) ↦
          elim (Result-cases (traverse (λ p. held_or_missing fares (row_of p rows)) ps)) [
            | inr (x, n) ↦ absurd (ground arith)
            | inl (hs, z) ↦
                let (sold, its, paid) = found_rows fares rows ps hs z in
                (s ∷ sold, rw (found, its) refl, rw (y, paid) (ground arith))
          ]
    ]
  ]

  requested-on_sale :
      (requested : List SeatPosition) (db : Database)
      → requested_rows flight_id requested now db ≢ []
      → on_sale flight_id now db ≡ true
  unfolding requested_rows
  requested-on_sale requested db e = ground arith

  all-available :
      (rows : List SeatRow)
      → all (λ s. is_available s.status) rows ≡ true
      → All (λ s. is_available s.status ≡ true) rows
  all-available [] h = tt
  all-available (s ∷ rows) h = (and-left _ _ h, all-available rows (and-right _ _ h))

  verdict_sound :
      (requested : List SeatPosition) (rows : List SeatRow)
      → verdict requested rows ≡ true
      → (rows ≢ [])
        × (length rows ≡ length requested)
        × All (λ s. is_available s.status ≡ true) rows
  unfolding verdict
  verdict_sound requested [] h = cc
  verdict_sound requested (s ∷ rows) h =
      (λ e. cc, (==_iff _ _).0 (and-left _ _ h), all-available (s ∷ rows) (and-right _ _ h))

  requested_Takes :
      (requested : List SeatPosition) (s : SeatRow)
      → (same s.flight_id flight_id && any (same_position s.position) requested) ≡ true
      → is_available s.status ≡ true
      → Takes flight_id (chosen requested) s
  requested_Takes requested s h free = record {
    of_flight = and-left _ _ h;
    was_free = free;
    fitting = and-right _ _ h;
  }

  chosen_held-outcome :
      (requested : List SeatPosition) (rows : List SeatRow) (db db' : Database)
      (r : HoldSeatsResult)
      → requested_rows flight_id requested now db ≡ rows
      → verdict requested rows ≡ true
      → commit_hold booking_id rows
          (traverse (λ p. held_or_missing db.fares (row_of p rows)) requested)
          db
        ≡ ok (db', r)
      → HoldOutcome flight_id booking_id (chosen requested) now db db' r
  chosen_held-outcome requested rows db db' r listed passed e =
      let (some_row, as_many, free) = verdict_sound requested rows passed in
      let (seats, paid, written, answer) = commit_hold-eq booking_id rows _ db db' r e in
      let (sold, in_turn, tickets_paid) = found_rows db.fares rows requested seats paid in
      let outcome : Held flight_id booking_id (chosen requested) now db db' seats = record {
        rows = rows;
        written = written;
        on_time = requested-on_sale requested db (subst (λ l. l ≢ []) (sym listed) some_row);
        as_many = as_many;
        paired = length-traverse _ requested seats paid;
        all_free =
            All-zip _ _ _ (requested_Takes requested) rows
              (subst (All _) listed (requested-All requested _ db (All-keep_test _ db.seats))) free;
        from_table =
            subst (All (λ s. IsIn s db.seats)) listed
              (requested-All requested _ db (All-keep _ _ db.seats (All-IsIn db.seats)));
        drawn_once =
            subst (λ l. IsDrawnFrom l db.seats) listed (requested-IsDrawnFrom requested db);
        sold = sold;
        sold_for = in_turn;
        tickets = traverse-Tickets db.fares sold seats tickets_paid;
      } in
      subst (HoldOutcome flight_id booking_id (chosen requested) now db db') (sym answer) outcome

  explain_chosen-ne :
      (requested : List SeatPosition) (rows : List SeatRow) (db : Database) (seats : List HeldSeat)
      → explain_chosen flight_id requested now rows db ≢ seats_held seats
  unfolding explain_chosen
  explain_chosen-ne requested [] db seats e = ground arith
  explain_chosen-ne requested (s ∷ rows) db seats e = ground arith

  HoldOutcome-same :
      (request : SeatHoldRequest) (db : Database) (r : HoldSeatsResult)
      → ((seats : List HeldSeat) → r ≢ seats_held seats)
      → HoldOutcome flight_id booking_id request now db db r
  HoldOutcome-same request db (seats_held seats) h = absurd (h seats refl)
  HoldOutcome-same request db _ h = refl

  pub hold_chosen_seats-outcome :
      (requested : List SeatPosition) (db db' : Database) (r : HoldSeatsResult)
      → hold_chosen_seats flight_id booking_id requested now db ≡ ok (db', r)
      → HoldOutcome flight_id booking_id (chosen requested) now db db' r
  unfolding hold_chosen_seats chosen_result
  hold_chosen_seats-outcome requested db db' r e =
      let rows = requested_rows flight_id requested now db in
      elim (Bool-cases (verdict requested rows)) [
        | inl passed ↦ chosen_held-outcome requested rows db db' r refl passed (rw passed at e)
        | inr refused ↦
            let same_db : db ≡ db' = ground arith in
            let same_answer : explain_chosen flight_id requested now rows db ≡ r = ground arith in
            subst (λ d. HoldOutcome flight_id booking_id (chosen requested) now db d r) same_db
              (subst (HoldOutcome flight_id booking_id (chosen requested) now db db) same_answer
                (HoldOutcome-same (chosen requested) db _ (explain_chosen-ne requested rows db)))
      ]
