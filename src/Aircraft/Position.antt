-- ===== src/Aircraft/Position.antt =====
-- api/src/aircraft/seat-position.ts: a row and a letter, written "12A".
pub mod Codes
use booking_flight_system_mi.Base.{
  ℕ, ◌+◌, ◌-◌, ◌*◌, Bool, true, false, ◌&&◌, Option, none, some, [], ◌∷◌, ◌++◌, leb, if◌then◌else◌,
  Text, decimal,
}
use booking_flight_system_mi.Money.{Num, whole, other}

-- The letter is the code unit of the source's one-letter string.
pub record SeatPosition : Type 0 where
  pub row : ℕ
  pub letter : ℕ

abbrev pub min_row : ℕ
min_row = 1

abbrev pub max_row : ℕ
max_row = 99

-- `/^[A-K]$/` on a one-letter string.
abbrev pub is_seat_letter : ℕ → Bool
is_seat_letter c = leb b'A' c && leb c b'K'

abbrev pub is_seat_row : Num → Bool
is_seat_row (whole n) = leb min_row n && leb n max_row
is_seat_row other = false

abbrev digit_from : ℕ → ℕ → Bool
digit_from lo c = leb lo c && leb c b'9'

-- `/^([1-9][0-9]?)([A-K])$/`.
unfoldable pub parse_seat_position : Text → Option SeatPosition
parse_seat_position (d ∷ l ∷ []) =
    if digit_from b'1' d && is_seat_letter l
    then some (record { row = d - b'0'; letter = l })
    else none
parse_seat_position (d ∷ e ∷ l ∷ []) =
    if digit_from b'1' d && digit_from b'0' e && is_seat_letter l
    then some (record { row = (d - b'0') * 10 + (e - b'0'); letter = l })
    else none
parse_seat_position _ = none

unfoldable pub format_seat_position : SeatPosition → Text
format_seat_position p = decimal p.row ++ p.letter ∷ []
