-- ===== src/Aircraft/Layout/Limits.antt =====
-- What an accepted seat layout is.
use booking_flight_system_mi.Base.{
  ℕ, zero, suc, ◌+◌, ◌-◌, ◌*◌, ◌≤◌, ◌≡◌, refl, ap, ◌∙◌, inl, inr, Bool, true, false, not, ◌&&◌,
  ◌||◌, List, [], ◌∷◌, ◌++◌, map, length, length-map, length-append, any, ltb, All, Bool-cases,
  Text, text, arith,
}
use booking_flight_system_mi.Aircraft.Position.{is_seat_letter}
use booking_flight_system_mi.Money.{whole, other}
use booking_flight_system_mi.Store.{FareClass, economy, business}
use booking_flight_system_mi.Requests.{
  Value, undefined, null, boolean, number, string, array, object, property, is_plain_object,
  is_non_empty_string, trim, trim_start, ValidationIssue, issue, indexed,
}
use booking_flight_system_mi.Bookings.Validation.{when, text_of_value}
use booking_flight_system_mi.Aircraft.Layout.{
  LayoutSeat, Cabin, is_fare_class, is_row, row_of, repeats, seat_letters_issues, cabin_issues,
  parsed_cabin, cabins_issues, count_by, count_seats_by_fare_class, seat_count, total_seats,
  layout_seat, expand_rows, expand_cabins, max_letters_per_row,
}

-- A cabin that parsed without an issue.
pub record IsCabin (c : Cabin) : Type 0 where
  pub row_low : 1 ≤ c.from_row
  pub row_range : c.from_row ≤ c.to_row
  pub row_high : c.to_row ≤ 99
  pub some_letters : 1 ≤ length c.letters
  pub valid_letters : any (λ l. not (is_seat_letter l)) c.letters ≡ false
  pub no_repeats : repeats c.letters ≡ false

pub append-nil : {A : Type 0} (xs ys : List A) → xs ++ ys ≡ [] → (xs ≡ []) × (ys ≡ [])
append-nil [] ys e = (refl, e)
append-nil (x ∷ xs) ys e = absurd (cc)

pub when-nil : (b : Bool) (i : ValidationIssue) → when b i ≡ [] → b ≡ false
when-nil true i e = absurd (cc)
when-nil false i e = refl

non_empty_length : (v : Value) → is_non_empty_string v ≡ true → 1 ≤ length (text_of_value v)
unfolding is_non_empty_string trim trim_start
non_empty_length (string []) h = absurd (ground arith)
non_empty_length (string (c ∷ cs)) h = omega arith
non_empty_length undefined h = absurd (ground arith)
non_empty_length null h = absurd (ground arith)
non_empty_length (boolean b) h = absurd (ground arith)
non_empty_length (number n) h = absurd (ground arith)
non_empty_length (array vs) h = absurd (ground arith)
non_empty_length (object fs) h = absurd (ground arith)

letters_ok :
    (v : Value) (name : Text)
    → seat_letters_issues v name ≡ []
    → (1 ≤ length (text_of_value v))
      × (any (λ l. not (is_seat_letter l)) (text_of_value v) ≡ false)
      × (repeats (text_of_value v) ≡ false)
unfolding seat_letters_issues
letters_ok v name e =
    elim (Bool-cases
      (not (is_non_empty_string v) || ltb max_letters_per_row (length (text_of_value v)))) [
        | inl y ↦ absurd (ground arith)
        | inr n ↦ elim (Bool-cases (any (λ l. not (is_seat_letter l)) (text_of_value v))) [
          | inl y ↦ absurd (ground arith)
          | inr m ↦ (
            non_empty_length v (ground arith),
            m,
            when-nil (repeats (text_of_value v)) (issue name (text "DUPLICATE_SEAT_LETTER"))
                (ground arith),
          )
        ]
      ]

row_ok : (v : Value) → is_row v ≡ true → (1 ≤ row_of v) × (row_of v ≤ 99)
row_ok (number (whole n)) h = ground arith
row_ok (number other) h = absurd (ground arith)
row_ok undefined h = absurd (ground arith)
row_ok null h = absurd (ground arith)
row_ok (boolean b) h = absurd (ground arith)
row_ok (string t) h = absurd (ground arith)
row_ok (array vs) h = absurd (ground arith)
row_ok (object fs) h = absurd (ground arith)

not-false : (b : Bool) → not b ≡ false → b ≡ true
not-false true h = refl
not-false false h = absurd (ground arith)

-- The parts of `parseCabin`, when none of them reports.
cabin_parts :
    (class from to range : Bool) (i j k l : ValidationIssue) (rest : List ValidationIssue)
    → when class i ++ when from j ++ when to k ++ when range l ++ rest ≡ []
    → (from ≡ false) × (to ≡ false) × (range ≡ false) × (rest ≡ [])
cabin_parts class from to range i j k l rest e =
    let (e1, at_rest) =
      append-nil (when class i ++ when from j ++ when to k ++ when range l) rest e in
    let (e2, r) = append-nil (when class i ++ when from j ++ when to k) (when range l) e1 in
    let (e3, t) = append-nil (when class i ++ when from j) (when to k) e2 in
    let (_, f) = append-nil (when class i) (when from j) e3 in
    (when-nil from j f, when-nil to k t, when-nil range l r, at_rest)

parsed-IsCabin :
    (from to letters : Value) (name : Text) (fare_class : FareClass)
    → not (is_row from) ≡ false
    → not (is_row to) ≡ false
    → (is_row from && is_row to && ltb (row_of to) (row_of from)) ≡ false
    → seat_letters_issues letters name ≡ []
    → IsCabin (record {
      fare_class = fare_class;
      from_row = row_of from;
      to_row = row_of to;
      letters = text_of_value letters;
    })
parsed-IsCabin from to letters name fare_class h k range e =
    let (low, from_high) = row_ok from (not-false (is_row from) h) in
    let (to_low, high) = row_ok to (not-false (is_row to) k) in
    let (count, valid, distinct) = letters_ok letters name e in
    record {
      row_low = low;
      row_range = ground arith;
      row_high = high;
      some_letters = count;
      valid_letters = valid;
      no_repeats = distinct;
    }

cabin_issues-IsCabin :
    (v : Value) (name : Text) → cabin_issues v name ≡ [] → IsCabin (parsed_cabin v)
unfolding cabin_issues is_plain_object
cabin_issues-IsCabin (object fs) name e =
    let from = property (object fs) (text "fromRow") in
    let to = property (object fs) (text "toRow") in
    let letters = property (object fs) (text "seatLetters") in
    let (f, t, r, l) =
      cabin_parts (not (is_fare_class (property (object fs) (text "fareClass"))))
        (not (is_row from)) (not (is_row to))
        (is_row from && is_row to && ltb (row_of to) (row_of from)) _ _ _ _
        (seat_letters_issues letters (name ++ text ".seatLetters")) e in
    parsed-IsCabin from to letters (name ++ text ".seatLetters") _ f t r l
cabin_issues-IsCabin undefined name e = absurd (cc)
cabin_issues-IsCabin null name e = absurd (cc)
cabin_issues-IsCabin (boolean b) name e = absurd (cc)
cabin_issues-IsCabin (number n) name e = absurd (cc)
cabin_issues-IsCabin (string t) name e = absurd (cc)
cabin_issues-IsCabin (array vs) name e = absurd (cc)

pub cabins_issues-IsCabin :
    (name : Text) (index : ℕ) (vs : List Value)
    → cabins_issues name index vs ≡ []
    → All IsCabin (map parsed_cabin vs)
unfolding cabins_issues
cabins_issues-IsCabin name index [] e = tt
cabins_issues-IsCabin name index (v ∷ vs) e =
    let (its, rest) =
      append-nil (cabin_issues v (indexed (name ++ text ".cabins") index))
        (cabins_issues name (suc index) vs) e in
    (cabin_issues-IsCabin v _ its, cabins_issues-IsCabin name (suc index) vs rest)

length-expand_rows :
    (c : Cabin) (count row : ℕ) → length (expand_rows c count row) ≡ count * length c.letters
unfolding expand_rows
length-expand_rows c zero row = omega arith
length-expand_rows c (suc count) row = omega (
  arith,
  length-append (map (layout_seat c.fare_class row) c.letters) (expand_rows c count (suc row)),
  length-map (layout_seat c.fare_class row) c.letters,
  length-expand_rows c count (suc row),
)

pub length-expand_cabins :
    (cs : List Cabin) → All IsCabin cs → length (expand_cabins cs) ≡ total_seats cs
unfolding expand_cabins total_seats seat_count
length-expand_cabins [] h = refl
length-expand_cabins (c ∷ cs) (ok, h) =
    let range = ok.row_range in
    let same_rows : suc c.to_row - c.from_row ≡ suc (c.to_row - c.from_row) = omega arith in
    let its = length-expand_rows c (suc c.to_row - c.from_row) c.from_row in
    length-append (expand_rows c (suc c.to_row - c.from_row) c.from_row) (expand_cabins cs)
    ∙ ap (λ n. n + length (expand_cabins cs)) (its ∙ ap (λ n. n * length c.letters) same_rows)
    ∙ ap (λ n. suc (c.to_row - c.from_row) * length c.letters + n) (length-expand_cabins cs h)

one_more : (c : FareClass) (n : ℕ × ℕ) → (count_by c n).0 + (count_by c n).1 ≡ suc (n.0 + n.1)
one_more economy (e, b) = omega arith
one_more business (e, b) = omega arith

pub counted :
    (seats : List LayoutSeat)
    → (count_seats_by_fare_class seats).0 + (count_seats_by_fare_class seats).1 ≡ length seats
unfolding count_seats_by_fare_class
counted [] = refl
counted (s ∷ seats) =
    one_more s.fare_class (count_seats_by_fare_class seats) ∙ ap suc (counted seats)
