-- ===== src/Bookings/Validation/Laws.antt =====
-- What an accepted booking request is.
use booking_flight_system_mi.Base.{
  ℕ, suc, ◌≤◌, ◌≡◌, ◌≢◌, refl, ap, Bool, true, false, not, Option, none, some, List, [], ◌∷◌, ◌++◌,
  map, length, length-map, leb, leb→le, any, All, All-imp, Bool-cases, inl, inr, Text, text, same,
  arith, same_complete,
}
use booking_flight_system_mi.Aircraft.Position.{
  SeatPosition, parse_seat_position, format_seat_position,
}
use booking_flight_system_mi.Aircraft.Position.Codes.{IsSeat, parse-IsSeat}
use booking_flight_system_mi.Store.{FareClass}
use booking_flight_system_mi.Requests.{
  Value, undefined, null, boolean, number, string, array, object, property, is_plain_object,
  is_undefined, is_non_empty_string, trim, is_empty, ValidationIssue, issue, ValidationResult,
  success, failure, indexed,
}
use booking_flight_system_mi.Bookings.Validation.{
  max_passengers, CreateBookingInput, auto_seats, chosen_seats, ParsedPassenger, seat_of_value,
  text_of_value, when, passenger_issues, parsed_passenger, passengers_issues, Selection,
  nobody_chose, all_chose, mixed, add_passenger, decide_auto, fare_class_of, array_of, selection,
  duplicate_issues, decide_selection, or_issues, validate_passengers, validate_create_booking_input,
}

-- Codes that name different seats.
abbrev pub DistinctCodes : List (Text × SeatPosition) → Type 0
DistinctCodes [] = Unit
DistinctCodes (p ∷ ps) =
    All (λ q. format_seat_position q.1 ≢ format_seat_position p.1) ps × DistinctCodes ps

abbrev pub IsNamed : Text → Type 0
IsNamed name = is_empty name ≡ false

-- One to nine named passengers; chosen seats are valid positions, each named once.
abbrev pub IsRequest : CreateBookingInput → Type 0
IsRequest (auto_seats fare_class names) =
    (1 ≤ length names) × (length names ≤ 9) × All IsNamed names
IsRequest (chosen_seats pairs) =
    (1 ≤ length pairs)
    × (length pairs ≤ 9)
    × All (λ p. IsNamed p.0 × IsSeat p.1) pairs
    × DistinctCodes pairs

pub append-nil_parts : {A : Type 0} (xs ys : List A) → xs ++ ys ≡ [] → (xs ≡ []) × (ys ≡ [])
append-nil_parts [] ys e = (refl, e)
append-nil_parts (x ∷ xs) ys e = absurd (cc)

abbrev SeatGood : Option SeatPosition → Type 0
SeatGood none = Unit
SeatGood (some p) = IsSeat p

abbrev Good : ParsedPassenger → Type 0
Good p = IsNamed p.0 × SeatGood p.1

seat_of_value-Good : (v : Value) → SeatGood (seat_of_value v)
seat_of_value-Good undefined = tt
seat_of_value-Good null = tt
seat_of_value-Good (boolean b) = tt
seat_of_value-Good (number n) = tt
seat_of_value-Good (array vs) = tt
seat_of_value-Good (object fs) = tt
seat_of_value-Good (string t) = go (parse_seat_position t) refl
  where
    go : (o : Option SeatPosition) → parse_seat_position t ≡ o → SeatGood o
    go none e = tt
    go (some p) e = parse-IsSeat t p e

name_of-IsNamed : (v : Value) → is_non_empty_string v ≡ true → IsNamed (trim (text_of_value v))
unfolding is_non_empty_string
name_of-IsNamed (string t) h = ground arith
name_of-IsNamed _ h = cc

pub when-nil : (b : Bool) (i : ValidationIssue) → when b i ≡ [] → b ≡ false
when-nil true i e = absurd (cc)
when-nil false i e = refl

passenger-Good :
    (v : Value) (name : Text) → passenger_issues v name ≡ [] → Good (parsed_passenger v)
unfolding passenger_issues parsed_passenger
passenger-Good v name e = elim (Bool-cases (is_plain_object v)) [
  | inr no_object ↦ absurd (ground arith)
  | inl plain ↦
      let (a, b) = append-nil_parts _ _ (rw plain at e) in
      let named : is_non_empty_string (property v (text "name")) ≡ true =
        ground (arith, when-nil (not (is_non_empty_string (property v (text "name")))) _ a) in
      (name_of-IsNamed _ named, seat_of_value-Good (property v (text "seat")))
]

passengers-Good :
    (index : ℕ) (vs : List Value)
    → passengers_issues index vs ≡ []
    → All Good (map parsed_passenger vs)
unfolding passengers_issues
passengers-Good index [] e = tt
passengers-Good index (v ∷ vs) e =
    let (a, b) = append-nil_parts _ _ e in
    (passenger-Good v (indexed (text "passengers") index) a, passengers-Good (suc index) vs b)

abbrev SelectionGood : ℕ → Selection → Type 0
SelectionGood n (nobody_chose names) = (length names ≡ n) × All IsNamed names
SelectionGood n (all_chose pairs) = (length pairs ≡ n) × All (λ p. IsNamed p.0 × IsSeat p.1) pairs
SelectionGood n mixed = Unit

selection-Good :
    (p : ParsedPassenger) (rest : List ParsedPassenger)
    → All Good (p ∷ rest)
    → SelectionGood (suc (length rest)) (selection p rest)
unfolding selection
selection-Good (name, none) [] h = (refl, (h.0.0, tt))
selection-Good (name, some p) [] h = (refl, (h.0, tt))
selection-Good (name, o) (q ∷ rest) h = add o h.0 (selection q rest) (selection-Good q rest h.1)
  where
    add :
        (o : Option SeatPosition)
        → Good (name, o)
        → (s : Selection) → SelectionGood (suc (length rest)) s
        → SelectionGood (suc (suc (length rest))) (add_passenger (name, o) s)
    add none g (nobody_chose names) (n, k) = (ap suc n, (g.0, k))
    add (some p) g (all_chose pairs) (n, k) = (ap suc n, (g, k))
    add none g (all_chose pairs) k = tt
    add none g mixed k = tt
    add (some p) g (nobody_chose names) k = tt
    add (some p) g mixed k = tt

no_duplicates :
    (index : ℕ) (seen : List Text) (pairs : List (Text × SeatPosition))
    → duplicate_issues index seen pairs ≡ []
    → All (λ q. any (same (format_seat_position q.1)) seen ≡ false) pairs × DistinctCodes pairs
unfolding duplicate_issues
no_duplicates index seen [] e = (tt, tt)
no_duplicates index seen ((name, p) ∷ pairs) e =
    let (a, b) = append-nil_parts _ _ e in
    let (later, distinct) = no_duplicates (suc index) (format_seat_position p ∷ seen) pairs b in
    (
      (when-nil _ _ a, All-imp (λ q h. ground arith) pairs later),
      (
        All-imp
            (λ q h same_code.
              cc (h, same_complete (format_seat_position q.1) (format_seat_position p) same_code))
            pairs later,
        distinct,
      ),
    )

pub decide_auto-eq :
    (fare_class : Value) (names : List Text) (input : CreateBookingInput)
    → decide_auto fare_class names ≡ success input
    → (c : FareClass) × (input ≡ auto_seats c names)
decide_auto-eq undefined names input e = absurd (cc)
decide_auto-eq v names input e = go (fare_class_of v) refl
  where
    go :
        (o : Option FareClass)
        → fare_class_of v ≡ o
        → (c : FareClass) × (input ≡ auto_seats c names)
    go none y = absurd (ground arith)
    go (some c) y = (c, ground arith)

pub or_issues-eq :
    (issues : List ValidationIssue) (x y : CreateBookingInput)
    → or_issues issues (success x) failure ≡ success y
    → (issues ≡ []) × (x ≡ y)
or_issues-eq [] x y e = (refl, ground arith)
or_issues-eq (i ∷ issues) x y e = absurd (cc)

decide-IsRequest :
    (fare_class : Value) (n : ℕ) (s : Selection) (input : CreateBookingInput)
    → suc n ≤ 9
    → SelectionGood (suc n) s
    → decide_selection fare_class s ≡ success input
    → IsRequest input
unfolding decide_selection
decide-IsRequest fare_class n (nobody_chose names) input h (len, k) e =
    let (c, same_input) = decide_auto-eq fare_class names input e in
    rw same_input (omega arith, omega arith, k)
decide-IsRequest fare_class n (all_chose pairs) input h (len, k) e =
    let (no_issues, same_input) = or_issues-eq _ _ _ e in
    let (_, clean) = append-nil_parts _ _ no_issues in
    rw (← same_input) (omega arith, omega arith, k, (no_duplicates 0 [] pairs clean).1)
decide-IsRequest fare_class n mixed input h k e = absurd (cc)

pub or_issues-success :
    (issues : List ValidationIssue) (r : ValidationResult CreateBookingInput)
    (x : CreateBookingInput)
    → or_issues issues r failure ≡ success x
    → (issues ≡ []) × (r ≡ success x)
or_issues-success [] r x e = (refl, e)
or_issues-success (i ∷ issues) r x e = absurd (cc)

validate_passengers-IsRequest :
    (earlier : List ValidationIssue) (fare_class : Value) (vs : List Value)
    (input : CreateBookingInput)
    → validate_passengers earlier fare_class vs ≡ success input
    → IsRequest input
unfolding validate_passengers
validate_passengers-IsRequest earlier fare_class [] input e = absurd (cc)
validate_passengers-IsRequest earlier fare_class (v ∷ vs) input e =
    elim (Bool-cases (leb (length (v ∷ vs)) max_passengers)) [
      | inr too_many ↦ absurd (ground arith)
      | inl few ↦
          let (no_issues, decided) = or_issues-success _ _ _ (rw few at e) in
          let (_, clean) = append-nil_parts _ _ no_issues in
          decide-IsRequest fare_class (length (map parsed_passenger vs)) _ input
            (omega (arith, leb→le _ _ few, length-map parsed_passenger vs))
            (selection-Good (parsed_passenger v) (map parsed_passenger vs)
              (passengers-Good 0 (v ∷ vs) clean))
            decided
    ]

-- Whatever the body, a request that is accepted has one to nine passengers, each with a name that
-- is not blank after trimming; if it chooses seats, every passenger has one, each is a position of
-- row 1 to 99 and letter A to K, and no two have the same code.
pub validate_create_booking_input-IsRequest :
    (body : Value) (input : CreateBookingInput)
    → validate_create_booking_input body ≡ success input
    → IsRequest input
unfolding validate_create_booking_input
validate_create_booking_input-IsRequest body input e = elim (Bool-cases (is_plain_object body)) [
  | inl plain ↦
      validate_passengers-IsRequest
        (when (not (is_undefined (property body (text "passengerName"))))
          (issue (text "passengerName") (text "UNSUPPORTED_FIELD")))
        (property body (text "fareClass")) (array_of (property body (text "passengers"))) input
        (rw plain at e)
  | inr other ↦ absurd (ground arith)
]
