-- ===== src/Bookings/Repository/Hold/Outcome.antt =====
-- What a hold does to the tables, and what it answers.
use booking_flight_system_mi.Base.{
  sort_by, map, some, [], ◌∷◌, subst, traverse, Option-cases, Result-cases, inl, inr, IsDrawnFrom,
  decimal, ℕ, ◌≡◌, refl, Bool, true, List, All, IsIn, length, any, Text, arith, Result, ok, thrown,
  same,
}
use booking_flight_system_mi.Money.{as_string, parse_vnd_from_database}
use booking_flight_system_mi.Aircraft.Position.{format_seat_position}
use booking_flight_system_mi.Store.{
  FareRow, seat_leb, Database, SeatRow, HeldSeat, same_class, is_available, same_position,
}
use booking_flight_system_mi.Bookings.Repository.Seats.{hold_rows}
use booking_flight_system_mi.Bookings.Repository.Hold.{
  SeatHoldRequest, auto, chosen, HoldSeatsResult, seats_held, on_sale, commit_hold, row_of,
  find_fare, priced, to_held_seat,
}

-- The number of seats that a request asks for.
abbrev pub seats_wanted : SeatHoldRequest → ℕ
seats_wanted (auto count fare_class) = count
seats_wanted (chosen seats) = length seats

-- The seats that a request can take: by class, or by position.
abbrev pub fits : SeatHoldRequest → SeatRow → Bool
fits (auto count fare_class) s = same_class s.fare_class fare_class
fits (chosen seats) s = any (same_position s.position) seats

-- A free seat of the flight that fits the request.
pub record Takes (flight_id : Text) (request : SeatHoldRequest) (s : SeatRow) : Type 0 where
  pub of_flight : same s.flight_id flight_id ≡ true
  pub was_free : is_available s.status ≡ true
  pub fitting : fits request s ≡ true

-- The row of each returned seat, in the order of the answer: the cabin's order, or the order in
-- which the positions were asked for.
abbrev pub SoldFor : SeatHoldRequest → List SeatRow → List SeatRow → Type 0
SoldFor (auto count fare_class) rows sold = sold ≡ sort_by seat_leb rows
SoldFor (chosen seats) rows sold = map (λ p. row_of p rows) seats ≡ map some sold

-- A returned seat has the code and the class of its row, and the price of the row's fare.
pub record Ticket (fares : List FareRow) (s : SeatRow) (h : HeldSeat) : Type 0 where
  pub code : h.seat ≡ format_seat_position s.position
  pub class_told : h.fare_class ≡ s.fare_class
  pub fare : FareRow
  pub fare_found : find_fare s.flight_id s.fare_class fares ≡ some fare
  pub price_read : parse_vnd_from_database (as_string (decimal fare.amount_vnd)) ≡ ok h.price

abbrev pub Tickets : List FareRow → List SeatRow → List HeldSeat → Type 0
Tickets fares [] [] = Unit
Tickets fares (s ∷ ss) (h ∷ hs) = Ticket fares s h × Tickets fares ss hs
Tickets fares _ _ = ⊥

priced-Ticket :
    (fares : List FareRow) (s : SeatRow) (fare : FareRow) (h : HeldSeat)
    → find_fare s.flight_id s.fare_class fares ≡ some fare
    → priced s (some fare) ≡ ok h
    → Ticket fares s h
priced-Ticket fares s fare h found e =
    elim (Result-cases (parse_vnd_from_database (as_string (decimal fare.amount_vnd)))) [
      | inr (x, n) ↦ absurd (ground arith)
      | inl (price, y) ↦
          let told : record {
            seat = format_seat_position s.position;
            fare_class = s.fare_class;
            price = price;
          }
              ≡ h =
            ground arith in
          subst (Ticket fares s) told (record {
            code = refl;
            class_told = refl;
            fare = fare;
            fare_found = found;
            price_read = y;
          })
    ]

to_held_seat-Ticket :
    (fares : List FareRow) (s : SeatRow) (h : HeldSeat)
    → to_held_seat fares s ≡ ok h
    → Ticket fares s h
unfolding to_held_seat
to_held_seat-Ticket fares s h e = elim (Option-cases (find_fare s.flight_id s.fare_class fares)) [
  | inl missing ↦ absurd (ground arith)
  | inr (fare, found) ↦ priced-Ticket fares s fare h found (subst (λ o. priced s o ≡ ok h) found e)
]

pub traverse-Tickets :
    (fares : List FareRow) (sold : List SeatRow) (seats : List HeldSeat)
    → traverse (to_held_seat fares) sold ≡ ok seats
    → Tickets fares sold seats
unfolding traverse
traverse-Tickets fares [] [] e = tt
traverse-Tickets fares [] (h ∷ hs) e = absurd (ground arith)
traverse-Tickets fares (s ∷ ss) seats e = elim (Result-cases (to_held_seat fares s)) [
  | inr (x, n) ↦ absurd (ground arith)
  | inl (h, y) ↦ elim (Result-cases (traverse (to_held_seat fares) ss)) [
    | inr (x, n) ↦ absurd (ground arith)
    | inl (hs, z) ↦
        let told : h ∷ hs ≡ seats = ground arith in
        subst (Tickets fares (s ∷ ss)) told
          (to_held_seat-Ticket fares s h y, traverse-Tickets fares ss hs z)
  ]
]

-- What a hold does to the tables: HELD on as many rows as were asked for, each row of the table at
-- most once, and the returned seats are those rows.
pub record Held (flight_id booking_id : Text) (request : SeatHoldRequest) (now : ℕ)
    (db db' : Database) (seats : List HeldSeat) : Type 0 where
  pub rows : List SeatRow
  pub written : db' ≡ record db { seats = hold_rows booking_id rows db.seats }
  pub on_time : on_sale flight_id now db ≡ true
  pub as_many : length rows ≡ seats_wanted request
  pub paired : length seats ≡ seats_wanted request
  pub all_free : All (Takes flight_id request) rows
  pub from_table : All (λ s. IsIn s db.seats) rows
  pub drawn_once : IsDrawnFrom rows db.seats
  pub sold : List SeatRow
  pub sold_for : SoldFor request rows sold
  pub tickets : Tickets db.fares sold seats

-- The outcome of a hold: with the seats, or with a reason and unchanged tables.
abbrev pub HoldOutcome :
    Text → Text → SeatHoldRequest → ℕ → Database → Database → HoldSeatsResult → Type 0
HoldOutcome flight_id booking_id request now db db' (seats_held seats) =
    Held flight_id booking_id request now db db' seats
HoldOutcome flight_id booking_id request now db db' _ = db' ≡ db

pub commit_hold-eq :
    (booking_id : Text) (rows : List SeatRow) (priced : Result (List HeldSeat)) (db db' : Database)
    (r : HoldSeatsResult)
    → commit_hold booking_id rows priced db ≡ ok (db', r)
    → (seats : List HeldSeat) × (priced ≡ ok seats)
      × (db' ≡ record db { seats = hold_rows booking_id rows db.seats })
      × (r ≡ seats_held seats)
unfolding commit_hold
commit_hold-eq booking_id rows (ok seats) db db' r e = (seats, refl, ground arith, ground arith)
commit_hold-eq booking_id rows (thrown x) db db' r e = cc
