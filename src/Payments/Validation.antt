-- ===== src/Payments/Validation.antt =====
-- api/src/payments/payment-validation.ts: the body and the idempotency key of a payment request.
pub mod Accepted
use booking_flight_system_mi.Base.{
  Option, none, some, ℕ, Bool, true, false, not, ◌&&◌, List, [], ◌∷◌, ◌++◌, all, length, leb, same,
  if◌then◌else◌, Text, text,
}
use booking_flight_system_mi.Money.{Money, Num, Currency, whole, vnd_currency, max_safe_integer}
use booking_flight_system_mi.Requests.{
  Value, number, string, property, is_plain_object, is_non_empty_string, trim, ValidationIssue,
  issue, ValidationResult, success, failure,
}
use booking_flight_system_mi.Bookings.Validation.{when, or_issues, text_of_value}

pub record PaymentInput : Type 0 where
  pub payment_method_token : Text
  pub amount : Money

-- `/^[\x21-\x7E]{1,255}$/`.
unfoldable pub is_valid_idempotency_key : Text → Bool
is_valid_idempotency_key value =
    leb 1 (length value) && leb (length value) 255 && all (λ c. leb 0x21 c && leb c 0x7E) value

-- The member of CURRENCIES that a value names.
unfoldable pub currency_of : Value → Option Currency
currency_of (string t) = if same t (text "VND") then some vnd_currency else none
currency_of _ = none

unfoldable pub is_currency : Value → Bool
unfolding currency_of
is_currency v = elim (currency_of v) [ none ↦ false | some c ↦ true ]

abbrev pub is_payable_amount : Value → Bool
is_payable_amount (number (whole n)) = leb 1 n && leb n max_safe_integer
is_payable_amount _ = false

abbrev pub amount_of : Value → ℕ
amount_of (number (whole n)) = n
amount_of _ = 0

unfoldable pub amount_issues : Value → List ValidationIssue
amount_issues amount =
    if is_plain_object amount
    then when (not (is_payable_amount (property amount (text "amount"))))
        (issue (text "amount.amount") (text "INVALID_AMOUNT"))
      ++ when (not (is_currency (property amount (text "currency"))))
          (issue (text "amount.currency") (text "UNSUPPORTED_CURRENCY"))
    else issue (text "amount") (text "REQUIRED") ∷ []

-- `money.currency`; a value that names no currency has been refused, and stands for the only one.
abbrev pub currency_told : Option Currency → Currency
currency_told none = vnd_currency
currency_told (some c) = c

unfoldable pub parsed_payment : Value → PaymentInput
parsed_payment input = record {
  payment_method_token = trim (text_of_value (property input (text "paymentMethodToken")));
  amount = record {
    amount = amount_of (property (property input (text "amount")) (text "amount"));
    currency =
        currency_told (currency_of (property (property input (text "amount")) (text "currency")));
  };
}

unfoldable pub validate_payment_input : Value → ValidationResult PaymentInput
validate_payment_input input =
    if is_plain_object input
    then or_issues
        (when (not (is_non_empty_string (property input (text "paymentMethodToken"))))
            (issue (text "paymentMethodToken") (text "REQUIRED"))
          ++ amount_issues (property input (text "amount")))
        (success (parsed_payment input)) failure
    else failure (issue (text "body") (text "INVALID_BODY") ∷ [])
