-- ===== src/Money.antt =====
-- api/src/money/money.ts: amounts of Vietnamese đồng as exact JavaScript integers.
pub mod Laws
pub mod Decimal
use booking_flight_system_mi.Base.{
  ℕ, ◌+◌, ◌-◌, ◌*◌, Bool, true, false, ◌&&◌, ◌||◌, List, [], ◌∷◌, ltb, leb, ◌==◌, if◌then◌else◌,
  Text, Result, ok, thrown, range_error, ◌>>=◌, Fault, all,
}

-- `CURRENCIES` has one member.
pub data Currency : Type 0 where
  vnd_currency : Currency

pub record Money : Type 0 where
  pub amount : ℕ
  pub currency : Currency

-- A JavaScript number, as far as the code looks at it: a non-negative whole number, or any other.
pub data Num : Type 0 where
  whole : ℕ → Num
  other : Num

-- `Number.MAX_SAFE_INTEGER`, 2^53 - 1.
abbrev pub max_safe_integer : ℕ
max_safe_integer = 9007199254740991

unfoldable pub is_vnd_amount : Num → Bool
is_vnd_amount (whole n) = leb n max_safe_integer
is_vnd_amount other = false

-- `vnd(amount)`.
unfoldable pub vnd : Num → Result Money
unfolding is_vnd_amount
vnd (whole n) =
    if is_vnd_amount (whole n)
    then ok (record { amount = n; currency = vnd_currency })
    else thrown range_error
vnd other = thrown range_error

abbrev pub same_currency : Currency → Currency → Bool
same_currency vnd_currency vnd_currency = true

-- A sum of two safe integers is safe in floating point exactly when the exact sum is.
unfoldable pub add_money : Money → Money → Result Money
add_money left right =
    if same_currency left.currency right.currency
    then (if leb (left.amount + right.amount) max_safe_integer
        then ok (record { amount = left.amount + right.amount; currency = left.currency })
        else thrown range_error)
    else thrown range_error

-- The `reduce` of `sumMoney`.
unfoldable pub sum_from : Money → List Money → Result Money
unfolding add_money
sum_from acc [] = ok acc
sum_from acc (x ∷ xs) = do next ← add_money acc x; sum_from next xs

unfoldable pub sum_money : List Money → Currency → Result Money
unfolding sum_from
sum_money items currency = sum_from (record { amount = 0; currency = currency }) items

abbrev pub is_digit : ℕ → Bool
is_digit c = leb b'0' c && leb c b'9'

-- `/^(0|[1-9][0-9]*)$/`.
unfoldable pub is_database_integer : Text → Bool
is_database_integer [] = false
is_database_integer (c ∷ cs) =
    ((c == b'0') && all (λ (d : ℕ). false) cs) || (leb b'1' c && leb c b'9' && all is_digit cs)

-- `Number(value)` of a text of decimal digits.
unfoldable pub number_from : ℕ → Text → ℕ
number_from acc [] = acc
number_from acc (c ∷ cs) = number_from (acc * 10 + (c - b'0')) cs

pub data DatabaseValue : Type 0 where
  as_string : Text → DatabaseValue
  as_number : Num → DatabaseValue

unfoldable pub parse_vnd_from_database : DatabaseValue → Result Money
unfolding is_database_integer number_from vnd
parse_vnd_from_database (as_number n) = vnd n
parse_vnd_from_database (as_string t) =
    if is_database_integer t then vnd (whole (number_from 0 t)) else thrown range_error
