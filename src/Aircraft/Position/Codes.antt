-- ===== src/Aircraft/Position/Codes.antt =====
-- Seat codes name seats one to one.
use booking_flight_system_mi.Base.{
  ◌≤◌, ◌≡◌, sym, ap, ◌∙◌, ◌↔◌, some, [], ◌∷◌, ltb, arith, Bool-cases, inl, inr, Text, decimal_one,
  decimal_two,
}
use booking_flight_system_mi.Aircraft.Position.{
  SeatPosition, parse_seat_position, format_seat_position,
}

-- A position that an aircraft can have: row 1 to 99, letter A to K.
pub record IsSeat (p : SeatPosition) : Type 0 where
  pub row_low : 1 ≤ p.row
  pub row_high : p.row ≤ 99
  pub letter_low : b'A' ≤ p.letter
  pub letter_high : p.letter ≤ b'K'

-- The code of a valid position is read back as that position.
pub parse-format :
    (p : SeatPosition) → IsSeat p → parse_seat_position (format_seat_position p) ≡ some p
unfolding parse_seat_position format_seat_position
parse-format p h = elim (Bool-cases (ltb p.row 10)) [
  | inl e ↦ rw (decimal_one p.row (ground arith)) (ground arith)
  | inr e ↦ rw (decimal_two p.row (ground arith) (omega arith)) (ground arith)
]

pub parse-IsSeat : (t : Text) (p : SeatPosition) → parse_seat_position t ≡ some p → IsSeat p
unfolding parse_seat_position
parse-IsSeat [] p e = cc
parse-IsSeat (d ∷ []) p e = cc
parse-IsSeat (d ∷ l ∷ []) p e = ground arith
parse-IsSeat (d ∷ c ∷ l ∷ []) p e = ground arith
parse-IsSeat (d ∷ c ∷ l ∷ x ∷ t) p e = cc

format-parse :
    (t : Text) (p : SeatPosition) → parse_seat_position t ≡ some p → format_seat_position p ≡ t
unfolding parse_seat_position format_seat_position
format-parse [] p e = cc
format-parse (d ∷ []) p e = cc
format-parse (d ∷ l ∷ []) p e = rw (decimal_one p.row (ground arith)) (ground arith)
format-parse (d ∷ c ∷ l ∷ []) p e =
    rw (decimal_two p.row (ground arith) (ground arith)) (ground arith)
format-parse (d ∷ c ∷ l ∷ x ∷ t) p e = cc

-- A text is read as a position exactly when the position is valid and the text is its code.
pub parse_seat_position_iff :
    (t : Text) (p : SeatPosition)
    → (parse_seat_position t ≡ some p) ↔ (IsSeat p × (format_seat_position p ≡ t))
parse_seat_position_iff t p = (
  λ e. (parse-IsSeat t p e, format-parse t p e),
  λ h. ap parse_seat_position (sym h.1) ∙ parse-format p h.0,
)

-- Two valid positions with one code are the same seat.
pub format-injective :
    (p q : SeatPosition)
    → IsSeat p
    → IsSeat q
    → format_seat_position p ≡ format_seat_position q
    → p ≡ q
format-injective p q hp hq e = cc (parse-format p hp, parse-format q hq, ap parse_seat_position e)
