-- ===== src/Money/Laws.antt =====
-- Totals of money: exact while they stay below 2^53, refused beyond.
use booking_flight_system_mi.Base.{
  ℕ, ◌+◌, ◌≤◌, ◌<◌, ◌≡◌, refl, List, [], ◌∷◌, arith, ok, thrown, range_error, Bool-cases, inl, inr,
  leb, leb→le,
}
use booking_flight_system_mi.Money.{
  Money, vnd_currency, max_safe_integer, add_money, sum_from, sum_money,
}

-- The exact sum of the amounts.
abbrev pub total_amount : List Money → ℕ
total_amount [] = 0
total_amount (m ∷ ms) = m.amount + total_amount ms

abbrev pub in_vnd : ℕ → Money
in_vnd n = record { amount = n; currency = vnd_currency }

pub add_money_fits :
    (a : ℕ) (m : Money)
    → a + m.amount ≤ max_safe_integer
    → add_money (in_vnd a) m ≡ ok (in_vnd (a + m.amount))
unfolding add_money
add_money_fits a m h = ground arith

pub add_money_overflow :
    (a : ℕ) (m : Money)
    → max_safe_integer < a + m.amount
    → add_money (in_vnd a) m ≡ thrown range_error
unfolding add_money
add_money_overflow a m h = ground arith

pub sum_from_fits :
    (a : ℕ) (ms : List Money)
    → a + total_amount ms ≤ max_safe_integer
    → sum_from (in_vnd a) ms ≡ ok (in_vnd (a + total_amount ms))
unfolding sum_from
sum_from_fits a [] h = ground arith
sum_from_fits a (m ∷ ms) h =
    rw (add_money_fits a m (omega arith)) (ground (arith, sum_from_fits (a + m.amount) ms))

sum_from_overflow :
    (a : ℕ) (ms : List Money)
    → a ≤ max_safe_integer
    → max_safe_integer < a + total_amount ms
    → sum_from (in_vnd a) ms ≡ thrown range_error
unfolding sum_from
sum_from_overflow a [] h k = absurd (omega arith)
sum_from_overflow a (m ∷ ms) h k = elim (Bool-cases (leb (a + m.amount) max_safe_integer)) [
  | inl e ↦
      rw (add_money_fits a m (leb→le _ _ e))
        (sum_from_overflow (a + m.amount) ms (leb→le _ _ e) (omega arith))
  | inr e ↦ rw (add_money_overflow a m (ground arith)) refl
]

-- `sumMoney` returns the exact total of the items whenever that is at most 2^53 - 1, and throws a
-- range error whenever it is larger.
pub sum_money_exact :
    (ms : List Money)
    → (total_amount ms ≤ max_safe_integer
        → sum_money ms vnd_currency ≡ ok (in_vnd (total_amount ms)))
      × (max_safe_integer < total_amount ms → sum_money ms vnd_currency ≡ thrown range_error)
unfolding sum_money
sum_money_exact ms = (
  λ h. ground (arith, sum_from_fits 0 ms),
  λ h. sum_from_overflow 0 ms (omega arith) (omega arith),
)
