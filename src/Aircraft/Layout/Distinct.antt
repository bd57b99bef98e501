-- ===== src/Aircraft/Layout/Distinct.antt =====
-- The positions of an expanded layout: valid, and each of them once.
use booking_flight_system_mi.Base.{
  ℕ, zero, suc, ◌+◌, ◌-◌, ◌≤◌, ◌<◌, ◌≡◌, ◌≢◌, ◌⊎◌, ap, inl, inr, false, not, List, [], ◌∷◌, ◌++◌,
  map, any, ◌==◌, All, All-append, All-imp, Text, text, arith,
}
use booking_flight_system_mi.Aircraft.Position.{SeatPosition, is_seat_letter}
use booking_flight_system_mi.Aircraft.Position.Codes.{IsSeat}
use booking_flight_system_mi.Store.{FareClass}
use booking_flight_system_mi.Requests.{issue, indexed}
use booking_flight_system_mi.Bookings.Validation.{when}
use booking_flight_system_mi.Aircraft.Layout.{
  LayoutSeat, Cabin, repeats, shares_rows, overlap_issues, find_overlaps, layout_seat, expand_rows,
  expand_cabins,
}
use booking_flight_system_mi.Aircraft.Layout.Limits.{IsCabin, append-nil, when-nil}

-- No two seats have the same position.
abbrev pub DistinctPositions : List LayoutSeat → Type 0
DistinctPositions [] = Unit
DistinctPositions (s ∷ seats) =
    All (λ other. other.position ≢ s.position) seats × DistinctPositions seats

DistinctPositions-append :
    (xs ys : List LayoutSeat)
    → DistinctPositions xs
    → DistinctPositions ys
    → All (λ x. All (λ y. y.position ≢ x.position) ys) xs
    → DistinctPositions (xs ++ ys)
DistinctPositions-append [] ys h k apart = k
DistinctPositions-append (x ∷ xs) ys (new, h) k (its, apart) = (
  All-append (λ other. other.position ≢ x.position) xs ys new its,
  DistinctPositions-append xs ys h k apart,
)

-- Apart, as the rows of the one are below or outside those of the other.
other_row : (a b : SeatPosition) → a.row ≢ b.row → a ≢ b
other_row a b h e = h (ap (λ p. p.row) e)

abbrev InRows : ℕ → ℕ → LayoutSeat → Type 0
InRows from below s = (from ≤ s.position.row) × (s.position.row < below)

row_seats-InRows :
    (fare_class : FareClass) (row : ℕ) (letters : List ℕ)
    → All (InRows row (suc row)) (map (layout_seat fare_class row) letters)
row_seats-InRows fare_class row [] = tt
row_seats-InRows fare_class row (l ∷ ls) =
    ((omega arith, omega arith), row_seats-InRows fare_class row ls)

pub expand_rows-InRows :
    (c : Cabin) (count row : ℕ) → All (InRows row (row + count)) (expand_rows c count row)
unfolding expand_rows
expand_rows-InRows c zero row = tt
expand_rows-InRows c (suc count) row =
    All-append (InRows row (row + suc count)) (map (layout_seat c.fare_class row) c.letters)
      (expand_rows c count (suc row))
      (All-imp (λ s h. (omega arith, omega arith)) _ (row_seats-InRows c.fare_class row c.letters))
      (All-imp (λ s h. (omega arith, omega arith)) _ (expand_rows-InRows c count (suc row)))

All-outside :
    (P : LayoutSeat → Type 0) (xs ys : List LayoutSeat)
    → All P xs
    → ((x : LayoutSeat) → P x → All (λ y. y.position ≢ x.position) ys)
    → All (λ x. All (λ y. y.position ≢ x.position) ys) xs
All-outside P xs ys h f = All-imp f xs h

other_letters :
    (fare_class : FareClass) (row l : ℕ) (ls : List ℕ)
    → any (λ d. l == d) ls ≡ false
    → All
        (λ s. s.position ≢ (layout_seat fare_class row l).position)
        (map (layout_seat fare_class row) ls)
other_letters fare_class row l [] h = tt
other_letters fare_class row l (m ∷ ms) h = (
  λ e. let same_letter = ap (λ p. p.letter) e in absurd (ground arith),
  other_letters fare_class row l ms (ground arith),
)

row_seats-Distinct :
    (fare_class : FareClass) (row : ℕ) (letters : List ℕ)
    → repeats letters ≡ false
    → DistinctPositions (map (layout_seat fare_class row) letters)
unfolding repeats
row_seats-Distinct fare_class row [] h = tt
row_seats-Distinct fare_class row (l ∷ ls) h = (
  other_letters fare_class row l ls (ground arith),
  row_seats-Distinct fare_class row ls (ground arith),
)

expand_rows-Distinct :
    (c : Cabin) (count row : ℕ)
    → repeats c.letters ≡ false
    → DistinctPositions (expand_rows c count row)
unfolding expand_rows
expand_rows-Distinct c zero row h = tt
expand_rows-Distinct c (suc count) row h =
    let rest = expand_rows c count (suc row) in
    DistinctPositions-append (map (layout_seat c.fare_class row) c.letters) rest
      (row_seats-Distinct c.fare_class row c.letters h) (expand_rows-Distinct c count (suc row) h)
      (All-outside (InRows row (suc row)) _ rest (row_seats-InRows c.fare_class row c.letters)
        (λ x here.
          All-imp (λ y there. other_row y.position x.position (λ e. absurd (omega arith))) rest
            (expand_rows-InRows c count (suc row))))

-- Each cabin shares no row with a later one.
abbrev pub Apart : List Cabin → Type 0
Apart [] = Unit
Apart (c ∷ cs) = All (λ later. shares_rows later c ≡ false) cs × Apart cs

All-last : {A : Type 0} (P : A → Type 0) (xs : List A) (a : A) → All P (xs ++ a ∷ []) → P a
All-last P [] a h = h.0
All-last P (x ∷ xs) a h = All-last P xs a h.1

All-first : {A : Type 0} (P : A → Type 0) (xs : List A) (a : A) → All P (xs ++ a ∷ []) → All P xs
All-first P [] a h = tt
All-first P (x ∷ xs) a h = (h.0, All-first P xs a h.1)

no_overlap :
    (name : Text) (c : Cabin) (earlier : List Cabin)
    → overlap_issues name c earlier ≡ []
    → All (λ d. shares_rows c d ≡ false) earlier
unfolding overlap_issues
no_overlap name c [] e = tt
no_overlap name c (d ∷ earlier) e =
    let (its, rest) =
      append-nil (when (shares_rows c d) (issue name (text "CABIN_ROWS_OVERLAP")))
        (overlap_issues name c earlier) e in
    (
      when-nil (shares_rows c d) (issue name (text "CABIN_ROWS_OVERLAP")) its,
      no_overlap name c earlier rest,
    )

pub find_overlaps-Apart :
    (name : Text) (index : ℕ) (earlier cs : List Cabin)
    → find_overlaps name index earlier cs ≡ []
    → All (λ c. All (λ d. shares_rows c d ≡ false) earlier) cs × Apart cs
unfolding find_overlaps
find_overlaps-Apart name index earlier [] e = (tt, tt)
find_overlaps-Apart name index earlier (c ∷ cs) e =
    let (its, others) =
      append-nil (overlap_issues (indexed (name ++ text ".cabins") index) c earlier)
        (find_overlaps name (suc index) (earlier ++ c ∷ []) cs) e in
    let (with_earlier, apart) =
      find_overlaps-Apart name (suc index) (earlier ++ c ∷ []) cs others in
    (
      (
        no_overlap (indexed (name ++ text ".cabins") index) c earlier its,
        All-imp (λ x h. All-first _ earlier c h) cs with_earlier,
      ),
      (All-imp (λ x h. All-last _ earlier c h) cs with_earlier, apart),
    )

abbrev OutsideRows : Cabin → LayoutSeat → Type 0
OutsideRows c s = (s.position.row < c.from_row) ⊎ (c.to_row < s.position.row)

outside_of :
    (c d : Cabin) (row : ℕ)
    → IsCabin d
    → shares_rows d c ≡ false
    → d.from_row ≤ row
    → row < d.from_row + (suc d.to_row - d.from_row)
    → (row < c.from_row) ⊎ (c.to_row < row)
outside_of c d row ok h low high = let range = ok.row_range in ground arith

expand_cabins-OutsideRows :
    (c : Cabin) (cs : List Cabin)
    → All IsCabin cs
    → All (λ later. shares_rows later c ≡ false) cs
    → All (OutsideRows c) (expand_cabins cs)
unfolding expand_cabins
expand_cabins-OutsideRows c [] h k = tt
expand_cabins-OutsideRows c (d ∷ cs) (ok, h) (its, k) =
    All-append (OutsideRows c) (expand_rows d (suc d.to_row - d.from_row) d.from_row)
      (expand_cabins cs)
      (All-imp (λ s r. outside_of c d s.position.row ok its r.0 r.1) _
        (expand_rows-InRows d (suc d.to_row - d.from_row) d.from_row))
      (expand_cabins-OutsideRows c cs h k)

pub expand_cabins-Distinct :
    (cs : List Cabin) → All IsCabin cs → Apart cs → DistinctPositions (expand_cabins cs)
unfolding expand_cabins
expand_cabins-Distinct [] h apart = tt
expand_cabins-Distinct (c ∷ cs) (ok, h) (its, apart) =
    let rows = suc c.to_row - c.from_row in
    let range = ok.row_range in
    DistinctPositions-append (expand_rows c rows c.from_row) (expand_cabins cs)
      (expand_rows-Distinct c rows c.from_row ok.no_repeats) (expand_cabins-Distinct cs h apart)
      (All-outside (InRows c.from_row (c.from_row + rows)) _ (expand_cabins cs)
        (expand_rows-InRows c rows c.from_row)
        (λ x here.
          All-imp
            (λ y there.
              other_row y.position x.position
                (λ e. absurd (elim there [ inl below ↦ omega arith | inr above ↦ omega arith ])))
            (expand_cabins cs) (expand_cabins-OutsideRows c cs h its)))

row_seats-IsSeat :
    (fare_class : FareClass) (row : ℕ) (letters : List ℕ)
    → 1 ≤ row
    → row ≤ 99
    → any (λ l. not (is_seat_letter l)) letters ≡ false
    → All (λ s. IsSeat s.position) (map (layout_seat fare_class row) letters)
row_seats-IsSeat fare_class row [] low high h = tt
row_seats-IsSeat fare_class row (l ∷ ls) low high h = (
  record { row_low = low; row_high = high; letter_low = ground arith; letter_high = ground arith },
  row_seats-IsSeat fare_class row ls low high (ground arith),
)

expand_rows-IsSeat :
    (c : Cabin) (count row : ℕ)
    → 1 ≤ row
    → row + count ≤ 100
    → any (λ l. not (is_seat_letter l)) c.letters ≡ false
    → All (λ s. IsSeat s.position) (expand_rows c count row)
unfolding expand_rows
expand_rows-IsSeat c zero row low high h = tt
expand_rows-IsSeat c (suc count) row low high h =
    All-append (λ s. IsSeat s.position) (map (layout_seat c.fare_class row) c.letters)
      (expand_rows c count (suc row))
      (row_seats-IsSeat c.fare_class row c.letters low (omega arith) h)
      (expand_rows-IsSeat c count (suc row) (omega arith) (omega arith) h)

pub expand_cabins-IsSeat :
    (cs : List Cabin) → All IsCabin cs → All (λ s. IsSeat s.position) (expand_cabins cs)
unfolding expand_cabins
expand_cabins-IsSeat [] h = tt
expand_cabins-IsSeat (c ∷ cs) (ok, h) =
    let range = ok.row_range in
    let high = ok.row_high in
    All-append (λ s. IsSeat s.position) (expand_rows c (suc c.to_row - c.from_row) c.from_row)
      (expand_cabins cs)
      (expand_rows-IsSeat c (suc c.to_row - c.from_row) c.from_row ok.row_low (omega arith)
        ok.valid_letters)
      (expand_cabins-IsSeat cs h)
