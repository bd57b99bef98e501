-- ===== src/Bookings/Create/Seated.antt =====
-- Who gets which seat, from the request to the passengers of the booking.
use booking_flight_system_mi.Base.{
  Bool, ◌≡◌, refl, sym, ap, ◌∙◌, subst, true, Option, some, List, [], ◌∷◌, map, All, All-imp,
  All-sort_by, length, length-map, find_first, same_iff, Bool-cases, inl, inr, Text, arith, ok,
  ==_iff,
}
use booking_flight_system_mi.Aircraft.Position.{SeatPosition, format_seat_position}
use booking_flight_system_mi.Money.{Money}
use booking_flight_system_mi.Store.{
  Database, FareClass, economy, business, FareRow, SeatRow, HeldSeat, BookingPassenger, same_class,
  seat_leb,
}
use booking_flight_system_mi.Bookings.Validation.{CreateBookingInput, auto_seats, chosen_seats}
use booking_flight_system_mi.Bookings.Repository.Hold.{seats_held, hold_seats, row_of}
use booking_flight_system_mi.Bookings.Repository.Hold.Outcome.{seats_wanted, Held, Tickets}
use booking_flight_system_mi.Bookings.Repository.Hold.Laws.{hold_seats-outcome}
use booking_flight_system_mi.Bookings.Create.{
  Drawn, to_hold_request, names_of, seat_one, seat_passengers, pair_seats,
}

-- What the request said of the seats: the class of all, or the position of each.
abbrev pub AsAsked : CreateBookingInput → List BookingPassenger → Type 0
AsAsked (auto_seats fare_class names) passengers =
    All (λ p. p.fare_class ≡ some fare_class) passengers
AsAsked (chosen_seats pairs) passengers =
    map (λ p. p.seat) passengers ≡ map (λ q. some (format_seat_position q.1)) pairs

-- What a held seat tells of itself.
abbrev pub told_of : HeldSeat → Option Text × Option FareClass × Option Money
told_of s = (some s.seat, some s.fare_class, some s.price)

-- The passengers have the names of the request and the held seats, both in order, and these seats
-- are what the request asked for.
pub record IsSeated (input : CreateBookingInput) (seats : List HeldSeat)
    (passengers : List BookingPassenger) : Type 0 where
  pub names : map (λ p. p.name) passengers ≡ names_of input
  pub details : map (λ p. (p.seat, p.fare_class, p.price)) passengers ≡ map told_of seats
  pub as_asked : AsAsked input passengers

wanted-names :
    (input : CreateBookingInput) → seats_wanted (to_hold_request input) ≡ length (names_of input)
wanted-names (auto_seats fare_class names) = refl
wanted-names (chosen_seats pairs) = length-map _ pairs ∙ sym (length-map _ pairs)

pair_seats-names :
    (names : List Text) (seats : List HeldSeat)
    → length seats ≡ length names
    → map (λ p. p.name) (pair_seats names seats) ≡ names
unfolding pair_seats
pair_seats-names [] seats h = refl
pair_seats-names (n ∷ names) [] h = absurd (omega arith)
pair_seats-names (n ∷ names) (s ∷ seats) h =
    ap (λ l. n ∷ l) (pair_seats-names names seats (omega arith))

-- Each passenger is its name with the seat of the same place.
pair_seats-told :
    {A : Type 0} (f : BookingPassenger → A) (g : HeldSeat → A)
    → ((name : Text) (s : HeldSeat) → f (seat_one name s) ≡ g s)
    → (names : List Text) (seats : List HeldSeat) → length seats ≡ length names
    → map f (pair_seats names seats) ≡ map g seats
unfolding pair_seats
pair_seats-told f g each [] [] h = refl
pair_seats-told f g each [] (s ∷ seats) h = absurd (omega arith)
pair_seats-told f g each (n ∷ names) [] h = absurd (omega arith)
pair_seats-told f g each (n ∷ names) (s ∷ seats) h =
    rw (each n s) (ap (λ l. g s ∷ l) (pair_seats-told f g each names seats (omega arith)))

pair_seats-All :
    (c : FareClass) (names : List Text) (seats : List HeldSeat)
    → All (λ s. s.fare_class ≡ c) seats
    → All (λ p. p.fare_class ≡ some c) (pair_seats names seats)
unfolding pair_seats
pair_seats-All c [] seats h = tt
pair_seats-All c (n ∷ names) [] h = tt
pair_seats-All c (n ∷ names) (s ∷ seats) h = (ap some h.0, pair_seats-All c names seats h.1)

find_first_test :
    {A : Type 0} (p : A → Bool) (a : A) (xs : List A) → find_first p xs ≡ some a → p a ≡ true
find_first_test p a [] e = absurd (cc)
find_first_test p a (x ∷ xs) e = elim (Bool-cases (p x)) [
  | inl y ↦ let its : x ≡ a = ground arith in subst (λ z. p z ≡ true) its y
  | inr n ↦ find_first_test p a xs (rw n at e)
]

-- Tickets in the order of the positions asked for have their codes.
chosen_codes :
    (fares : List FareRow) (rows : List SeatRow) (ps : List SeatPosition) (sold : List SeatRow)
    (seats : List HeldSeat)
    → map (λ p. row_of p rows) ps ≡ map some sold
    → Tickets fares sold seats
    → map (λ s. s.seat) seats ≡ map format_seat_position ps
unfolding row_of
chosen_codes fares rows [] [] [] e h = refl
chosen_codes fares rows [] [] (x ∷ seats) e h = absurd h
chosen_codes fares rows [] (s ∷ sold) seats e h = absurd (ground arith)
chosen_codes fares rows (p ∷ ps) [] seats e h = absurd (ground arith)
chosen_codes fares rows (p ∷ ps) (s ∷ sold) [] e h = absurd h
chosen_codes fares rows (p ∷ ps) (s ∷ sold) (x ∷ seats) e h =
    let found : row_of p rows ≡ some s = ground arith in
    let its : format_seat_position s.position ≡ format_seat_position p =
      (same_iff _ _).0 (find_first_test _ s rows found) in
    let rest = chosen_codes fares rows ps sold seats (ground arith) h.1 in
    rw (h.0.code ∙ its, rest) refl

same_class_sound : (c d : FareClass) → same_class c d ≡ true → c ≡ d
same_class_sound economy economy h = refl
same_class_sound business business h = refl
same_class_sound economy business h = absurd (ground arith)
same_class_sound business economy h = absurd (ground arith)

ticket_classes :
    (fares : List FareRow) (c : FareClass) (sold : List SeatRow) (seats : List HeldSeat)
    → Tickets fares sold seats
    → All (λ s. s.fare_class ≡ c) sold
    → All (λ s. s.fare_class ≡ c) seats
ticket_classes fares c [] [] h k = tt
ticket_classes fares c [] (x ∷ seats) h k = absurd h
ticket_classes fares c (s ∷ sold) [] h k = absurd h
ticket_classes fares c (s ∷ sold) (x ∷ seats) h k =
    (h.0.class_told ∙ k.0, ticket_classes fares c sold seats h.1 k.1)

Held-AsAsked :
    (d : Drawn) (flight_id : Text) (input : CreateBookingInput) (db db' : Database)
    (seats : List HeldSeat)
    → Held flight_id d.booking_id (to_hold_request input) d.now db db' seats
    → length seats ≡ length (names_of input)
    → AsAsked input (pair_seats (names_of input) seats)
Held-AsAsked d flight_id (auto_seats fare_class names) db db' seats h n =
    let classes = subst (All (λ s. s.fare_class ≡ fare_class)) (sym h.sold_for) (
      All-sort_by seat_leb (λ s. s.fare_class ≡ fare_class) h.rows
        (All-imp (λ s t. same_class_sound s.fare_class fare_class t.fitting) h.rows h.all_free)) in
    pair_seats-All fare_class names seats
      (ticket_classes db.fares fare_class h.sold seats h.tickets classes)
Held-AsAsked d flight_id (chosen_seats pairs) db db' seats h n =
    pair_seats-told (λ p. p.seat) (λ s. some s.seat) (λ name s. refl) (map (λ p. p.0) pairs) seats n
    ∙ seat_texts seats
    ∙ ap (map some) (chosen_codes db.fares h.rows _ h.sold seats h.sold_for h.tickets)
    ∙ asked_texts pairs
  where
    seat_texts : (l : List HeldSeat) → map (λ s. some s.seat) l ≡ map some (map (λ s. s.seat) l)
    seat_texts [] = refl
    seat_texts (s ∷ l) = ap (λ r. some s.seat ∷ r) (seat_texts l)

    asked_texts :
        (l : List (Text × SeatPosition))
        → map some (map format_seat_position (map (λ q. q.1) l))
          ≡ map (λ q. some (format_seat_position q.1)) l
    asked_texts [] = refl
    asked_texts (q ∷ l) = ap (λ r. some (format_seat_position q.1) ∷ r) (asked_texts l)

-- After a hold that succeeded, `seatPassengers` never throws. Its passengers are those of the
-- request, in order; the n-th of them has the code, class and price of the n-th held seat; and it
-- has the seat that it chose, or a seat of the class that was asked for.
pub seat_passengers_ok :
    (d : Drawn) (flight_id : Text) (input : CreateBookingInput) (db db' : Database)
    (seats : List HeldSeat)
    → hold_seats flight_id d.booking_id (to_hold_request input) d.now d.locked db
      ≡ ok (db', seats_held seats)
    → (passengers : List BookingPassenger) × (seat_passengers input seats ≡ ok passengers)
      × IsSeated input seats passengers
unfolding seat_passengers
seat_passengers_ok d flight_id input db db' seats e =
    let h =
      hold_seats-outcome flight_id d.booking_id (to_hold_request input) d.now d.locked db db'
        (seats_held seats) e in
    let as_many = h.paired ∙ wanted-names input in
    (
      pair_seats (names_of input) seats,
      rw ((==_iff _ _).1 as_many) refl,
      record {
        names = pair_seats-names (names_of input) seats as_many;
        details =
            pair_seats-told (λ p. (p.seat, p.fare_class, p.price)) told_of (λ name s. refl)
              (names_of input) seats as_many;
        as_asked = Held-AsAsked d flight_id input db db' seats h as_many;
      },
    )
