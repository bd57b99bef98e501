-- ===== src/Money/Decimal.antt =====
-- The round trip of an amount through a `bigint` column, which `pg` returns as a text.
use booking_flight_system_mi.Base.{
  ℕ, zero, suc, ◌+◌, ◌-◌, ◌*◌, ◌/◌, ◌%◌, ◌≤◌, ◌<◌, ◌≡◌, refl, Bool, true, false, ◌&&◌, [], ◌∷◌,
  ◌++◌, arith, ltb, leb, all, Text, decimal, decimal_from, digit, ok, Bool-cases, inl, inr,
}
use booking_flight_system_mi.Money.{
  vnd_currency, max_safe_integer, is_digit, is_database_integer, number_from, as_string,
  parse_vnd_from_database,
}

number_from-append :
    (acc : ℕ) (xs ys : Text) → number_from acc (xs ++ ys) ≡ number_from (number_from acc xs) ys
unfolding number_from
number_from-append acc [] ys = refl
number_from-append acc (x ∷ xs) ys = number_from-append (acc * 10 + (x - b'0')) xs ys

number_from-decimal_from : (fuel n : ℕ) → n ≤ fuel → number_from 0 (decimal_from fuel n) ≡ n
unfolding decimal_from number_from
number_from-decimal_from zero n h = omega arith
number_from-decimal_from (suc fuel) n h = elim (Bool-cases (ltb n 10)) [
  | inl e ↦ rw e (omega arith)
  | inr e ↦
      rw (e, number_from-append 0 (decimal_from fuel (n / 10)) (digit (n % 10) ∷ []))
        (rw (number_from-decimal_from fuel (n / 10) (ground arith)) (omega arith))
]

-- A digit from 1 to 9, then digits.
leads : Text → Bool
leads [] = false
leads (c ∷ cs) = leb b'1' c && leb c b'9' && all is_digit cs

all-append_digit :
    (cs : Text) (d : ℕ) → d < 10 → all is_digit cs ≡ true → all is_digit (cs ++ digit d ∷ []) ≡ true
all-append_digit [] d h k = ground arith
all-append_digit (c ∷ cs) d h k = ground (arith, all-append_digit cs d h)

leads-append : (t : Text) (d : ℕ) → d < 10 → leads t ≡ true → leads (t ++ digit d ∷ []) ≡ true
unfolding leads
leads-append [] d h k = cc
leads-append (c ∷ cs) d h k = ground (arith, all-append_digit cs d h)

leads-decimal_from : (fuel n : ℕ) → 0 < n → n ≤ fuel → leads (decimal_from fuel n) ≡ true
unfolding decimal_from
leads-decimal_from zero n h k = absurd (omega arith)
leads-decimal_from (suc fuel) n h k = elim (Bool-cases (ltb n 10)) [
  | inl e ↦ rw e (unfold leads in ground arith)
  | inr e ↦ rw e (
      leads-append (decimal_from fuel (n / 10)) (n % 10) (omega arith)
        (leads-decimal_from fuel (n / 10) (ground arith) (ground arith)))
]

is_database_integer_of_leads : (t : Text) → leads t ≡ true → is_database_integer t ≡ true
unfolding leads is_database_integer
is_database_integer_of_leads [] h = h
is_database_integer_of_leads (c ∷ cs) h = ground arith

is_database_integer-decimal : (n : ℕ) → is_database_integer (decimal n) ≡ true
unfolding decimal
is_database_integer-decimal zero = unfold is_database_integer decimal_from in refl
is_database_integer-decimal (suc n) =
    is_database_integer_of_leads _ (leads-decimal_from (suc n) (suc n) (omega arith) (omega arith))

-- An amount of at most 2^53 - 1 that is written to a `bigint` column as `String(amount)` is read
-- back by `parseVndFromDatabase` as the same amount of đồng.
pub parse_vnd_from_database-decimal :
    (n : ℕ)
    → n ≤ max_safe_integer
    → parse_vnd_from_database (as_string (decimal n))
      ≡ ok (record { amount = n; currency = vnd_currency })
unfolding parse_vnd_from_database decimal
parse_vnd_from_database-decimal n h =
    rw (is_database_integer-decimal n, number_from-decimal_from n n (omega arith)) (ground arith)
