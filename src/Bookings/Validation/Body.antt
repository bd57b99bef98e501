-- ===== src/Bookings/Validation/Body.antt =====
-- How an accepted booking request corresponds to the body that it was read from.
use booking_flight_system_mi.Base.{
  ℕ, suc, ◌≡◌, refl, ap, subst, Bool, true, false, not, ◌&&◌, ◌||◌, Option, none, some, List, [],
  ◌∷◌, map, length, leb, All, Bool-cases, Option-cases, inl, inr, Text, text, arith,
}
use booking_flight_system_mi.Aircraft.Position.{SeatPosition}
use booking_flight_system_mi.Store.{FareClass}
use booking_flight_system_mi.Requests.{
  Value, undefined, property, is_plain_object, is_undefined, trim, issue, ValidationIssue, success,
  indexed,
}
use booking_flight_system_mi.Bookings.Validation.{
  max_passengers, CreateBookingInput, auto_seats, chosen_seats, ParsedPassenger, seat_of_value,
  text_of_value, has_seat, when, passenger_issues, parsed_passenger, passengers_issues, Selection,
  nobody_chose, all_chose, mixed, add_passenger, decide_auto, fare_class_of, array_of, selection,
  decide_selection, validate_passengers, validate_create_booking_input,
}
use booking_flight_system_mi.Bookings.Validation.Laws.{
  IsRequest, append-nil_parts, when-nil, or_issues-eq, or_issues-success,
  validate_create_booking_input-IsRequest,
}

-- What an element of the body's passengers says: the name, trimmed, and the seat, if there is one.
abbrev pub told : Value → Text × Option SeatPosition
told v = (trim (text_of_value (property v (text "name"))), seat_of_value (property v (text "seat")))

-- An automatic request is of a body in which no passenger names a seat, and has the body's fare
-- class; a request with seats is of a body in which every passenger names one and that names no
-- fare class. The names and seats are the body's, all of them, in order.
abbrev pub FromBody : Value → CreateBookingInput → Type 0
FromBody body (auto_seats fare_class names) =
    (fare_class_of (property body (text "fareClass")) ≡ some fare_class)
    × (map told (array_of (property body (text "passengers"))) ≡ map (λ n. (n, none)) names)
    × All (λ v. is_undefined (property v (text "seat")) ≡ true)
        (array_of (property body (text "passengers")))
FromBody body (chosen_seats pairs) =
    (is_undefined (property body (text "fareClass")) ≡ true)
    × (map told (array_of (property body (text "passengers"))) ≡ map (λ q. (q.0, some q.1)) pairs)

-- The same of the parts of a body.
abbrev FromParts : Value → List Value → CreateBookingInput → Type 0
FromParts fare_class vs (auto_seats c names) =
    (fare_class_of fare_class ≡ some c)
    × (map told vs ≡ map (λ n. (n, none)) names)
    × All (λ v. is_undefined (property v (text "seat")) ≡ true) vs
FromParts fare_class vs (chosen_seats pairs) =
    (is_undefined fare_class ≡ true) × (map told vs ≡ map (λ q. (q.0, some q.1)) pairs)

-- A passenger without issues names a seat or has no such field.
abbrev SeatOrNone : Value → Type 0
SeatOrNone v =
    (is_undefined (property v (text "seat")) || has_seat (seat_of_value (property v (text "seat"))))
    ≡ true

passenger-SeatOrNone : (v : Value) (name : Text) → passenger_issues v name ≡ [] → SeatOrNone v
unfolding passenger_issues
passenger-SeatOrNone v name e = elim (Bool-cases (is_plain_object v)) [
  | inr no_object ↦ absurd (ground arith)
  | inl plain ↦
      let absent = is_undefined (property v (text "seat")) in
      let there = has_seat (seat_of_value (property v (text "seat"))) in
      let (a, b) = append-nil_parts _ _ (rw plain at e) in
      either_of absent there (when-nil (not absent && not there) _ b)
]
  where
    either_of : (a b : Bool) → (not a && not b) ≡ false → (a || b) ≡ true
    either_of true b h = refl
    either_of false true h = refl
    either_of false false h = absurd (cc)

passengers-SeatOrNone :
    (index : ℕ) (vs : List Value) → passengers_issues index vs ≡ [] → All SeatOrNone vs
unfolding passengers_issues
passengers-SeatOrNone index [] e = tt
passengers-SeatOrNone index (v ∷ vs) e =
    let (a, b) = append-nil_parts _ _ e in
    (
      passenger-SeatOrNone v (indexed (text "passengers") index) a,
      passengers-SeatOrNone (suc index) vs b,
    )

-- What a selection has of the passengers that it was made of.
abbrev SelectionOf : List ParsedPassenger → Selection → Type 0
SelectionOf ps (nobody_chose names) = ps ≡ map (λ n. (n, none)) names
SelectionOf ps (all_chose pairs) = ps ≡ map (λ q. (q.0, some q.1)) pairs
SelectionOf ps mixed = Unit

add_passenger-SelectionOf :
    (p : ParsedPassenger) (ps : List ParsedPassenger) (s : Selection)
    → SelectionOf ps s
    → SelectionOf (p ∷ ps) (add_passenger p s)
add_passenger-SelectionOf (name, none) ps (nobody_chose names) h = ap (λ l. (name, none) ∷ l) h
add_passenger-SelectionOf (name, some x) ps (all_chose pairs) h = ap (λ l. (name, some x) ∷ l) h
add_passenger-SelectionOf (name, none) ps (all_chose pairs) h = tt
add_passenger-SelectionOf (name, none) ps mixed h = tt
add_passenger-SelectionOf (name, some x) ps (nobody_chose names) h = tt
add_passenger-SelectionOf (name, some x) ps mixed h = tt

selection-SelectionOf :
    (p : ParsedPassenger) (rest : List ParsedPassenger) → SelectionOf (p ∷ rest) (selection p rest)
unfolding selection
selection-SelectionOf (name, none) [] = refl
selection-SelectionOf (name, some x) [] = refl
selection-SelectionOf p (q ∷ rest) =
    add_passenger-SelectionOf p (q ∷ rest) (selection q rest) (selection-SelectionOf q rest)

no_seat_undefined :
    (v : Value)
    → SeatOrNone v
    → seat_of_value (property v (text "seat")) ≡ none
    → is_undefined (property v (text "seat")) ≡ true
no_seat_undefined v h e =
    first_of (is_undefined (property v (text "seat"))) _
      (subst (λ o. (is_undefined (property v (text "seat")) || has_seat o) ≡ true) e h)
  where
    first_of : (a : Bool) (o : Unit {0}) → (a || false) ≡ true → a ≡ true
    first_of true o h = refl
    first_of false o h = h

nobody_undefined :
    (vs : List Value) (names : List Text)
    → All SeatOrNone vs
    → map told vs ≡ map (λ n. (n, none)) names
    → All (λ v. is_undefined (property v (text "seat")) ≡ true) vs
nobody_undefined [] names h e = tt
nobody_undefined (v ∷ vs) [] h e = absurd (ground arith)
nobody_undefined (v ∷ vs) (n ∷ names) h e =
    let no_seat : seat_of_value (property v (text "seat")) ≡ none = ground arith in
    let rest : map told vs ≡ map (λ n. (n, none)) names = ground arith in
    (no_seat_undefined v h.0 no_seat, nobody_undefined vs names h.1 rest)

decide_auto-fare_class :
    (fare_class : Value) (names : List Text) (input : CreateBookingInput)
    → decide_auto fare_class names ≡ success input
    → (c : FareClass) × (fare_class_of fare_class ≡ some c) × (input ≡ auto_seats c names)
decide_auto-fare_class undefined names input e = absurd (cc)
decide_auto-fare_class v names input e = elim (Option-cases (fare_class_of v)) [
  | inl missing ↦ absurd (ground arith)
  | inr (c, found) ↦ (c, found, ground arith)
]

decide-FromParts :
    (fare_class : Value) (vs : List Value) (s : Selection) (input : CreateBookingInput)
    → All SeatOrNone vs
    → SelectionOf (map told vs) s
    → decide_selection fare_class s ≡ success input
    → FromParts fare_class vs input
unfolding decide_selection
decide-FromParts fare_class vs (nobody_chose names) input h k e =
    let (c, read, made) = decide_auto-fare_class fare_class names input e in
    rw made (read, k, nobody_undefined vs names h k)
decide-FromParts fare_class vs (all_chose pairs) input h k e =
    let (no_issues, made) = or_issues-eq _ _ _ e in
    let (no_class, clean) = append-nil_parts _ _ no_issues in
    rw (← made) (negated (is_undefined fare_class) (when-nil _ _ no_class), k)
  where
    negated : (b : Bool) → not b ≡ false → b ≡ true
    negated true g = refl
    negated false g = absurd (cc)
decide-FromParts fare_class vs mixed input h k e = absurd (cc)

validate_passengers-FromParts :
    (earlier : List ValidationIssue) (fare_class : Value) (vs : List Value)
    (input : CreateBookingInput)
    → validate_passengers earlier fare_class vs ≡ success input
    → FromParts fare_class vs input
unfolding validate_passengers parsed_passenger
validate_passengers-FromParts earlier fare_class [] input e = absurd (cc)
validate_passengers-FromParts earlier fare_class (v ∷ vs) input e =
    elim (Bool-cases (leb (length (v ∷ vs)) max_passengers)) [
      | inr too_many ↦ absurd (ground arith)
      | inl few ↦
          let (no_issues, decided) = or_issues-success _ _ _ (rw few at e) in
          let (_, clean) = append-nil_parts _ _ no_issues in
          decide-FromParts fare_class (v ∷ vs) _ input (passengers-SeatOrNone 0 (v ∷ vs) clean)
            (selection-SelectionOf (told v) (map told vs)) decided
    ]

-- Whatever the body, a request that is accepted has one to nine passengers, each with a name that
-- is not empty after trimming, and these are the passengers of the body, all and in order. Either no
-- passenger of the body has a field `seat`, and the request has the body's fare class; or every one
-- names a seat, the body has no fare class, each passenger of the request has the seat that it
-- names, each seat is a position of row 1 to 99 and letter A to K, and no two have the same code.
pub validate_create_booking_input-FromBody :
    (body : Value) (input : CreateBookingInput)
    → validate_create_booking_input body ≡ success input
    → IsRequest input × FromBody body input
unfolding validate_create_booking_input
validate_create_booking_input-FromBody body input e = (
  validate_create_booking_input-IsRequest body input e,
  elim (Bool-cases (is_plain_object body)) [
    | inr other ↦ absurd (ground arith)
    | inl plain ↦ whole input (
        validate_passengers-FromParts
          (when (not (is_undefined (property body (text "passengerName"))))
            (issue (text "passengerName") (text "UNSUPPORTED_FIELD")))
          (property body (text "fareClass")) (array_of (property body (text "passengers"))) input
          (rw plain at e))
  ],
)
  where
    whole :
        (x : CreateBookingInput)
        → FromParts
            (property body (text "fareClass"))
            (array_of (property body (text "passengers")))
            x
        → FromBody body x
    whole (auto_seats c names) h = h
    whole (chosen_seats pairs) h = h
