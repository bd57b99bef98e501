-- ===== src/Payments/Validation/Accepted.antt =====
-- What an accepted payment request is.
use booking_flight_system_mi.Base.{
  some, any, ap, ◌∙◌, same, same_iff, ◌∷◌, Text, ◌≤◌, ◌≡◌, refl, Bool, true, false, not, [], ◌++◌,
  Bool-cases, inl, inr, text, arith, subst,
}
use booking_flight_system_mi.Money.{whole, other, max_safe_integer}
use booking_flight_system_mi.Requests.{
  Value, undefined, null, boolean, number, string, array, object, property, is_plain_object,
  is_non_empty_string, trim, trim_start, is_space, is_empty, ValidationIssue, issue, success,
}
use booking_flight_system_mi.Bookings.Validation.{when, text_of_value}
use booking_flight_system_mi.Aircraft.Layout.Limits.{append-nil}
use booking_flight_system_mi.Aircraft.Layout.Accepted.{or_issues-success}
use booking_flight_system_mi.Payments.Validation.{
  PaymentInput, currency_of, currency_told, is_currency, is_payable_amount, amount_of,
  amount_issues, parsed_payment, validate_payment_input,
}

-- The token of the body, trimmed, which has a character that is no space, and the body's amount, a
-- number of dong that a number holds exactly.
pub record IsPayment (body : Value) (p : PaymentInput) : Type 0 where
  pub token : Text
  pub body_token : property body (text "paymentMethodToken") ≡ string token
  pub trimmed : p.payment_method_token ≡ trim token
  pub has_token : is_empty p.payment_method_token ≡ false
  pub not_blank : any (λ c. not (is_space c)) token ≡ true
  pub body_amount :
      property (property body (text "amount")) (text "amount") ≡ number (whole p.amount.amount)
  pub positive : 1 ≤ p.amount.amount
  pub exact : p.amount.amount ≤ max_safe_integer
  pub body_currency :
      property (property body (text "amount")) (text "currency") ≡ string (text "VND")
  pub its_currency :
      currency_of (property (property body (text "amount")) (text "currency"))
      ≡ some p.amount.currency

trim_start_blank : (t : Text) → any (λ c. not (is_space c)) t ≡ false → trim_start t ≡ []
unfolding trim_start
trim_start_blank [] h = refl
trim_start_blank (c ∷ t) h = elim (Bool-cases (is_space c)) [
  | inl y ↦ let rest = trim_start_blank t (ground arith) in rw (y, rest) refl
  | inr n ↦ absurd (ground arith)
]

trim_blank : (t : Text) → any (λ c. not (is_space c)) t ≡ false → trim t ≡ []
unfolding trim trim_start
trim_blank t h = let blank = trim_start_blank t h in rw blank refl

some_character : (t : Text) → is_empty (trim t) ≡ false → any (λ c. not (is_space c)) t ≡ true
some_character t h = elim (Bool-cases (any (λ c. not (is_space c)) t)) [
  | inl y ↦ y
  | inr n ↦ let blank = trim_blank t n in absurd (ground arith)
]

currency_ok :
    (v : Value)
    → is_currency v ≡ true
    → (v ≡ string (text "VND")) × (currency_of v ≡ some (currency_told (currency_of v)))
unfolding is_currency currency_of
currency_ok (string t) h = elim (Bool-cases (same t (text "VND"))) [
  | inl y ↦ (ap string ((same_iff t (text "VND")).0 y), rw y refl)
  | inr n ↦ absurd (ground arith)
]
currency_ok undefined h = absurd (ground arith)
currency_ok null h = absurd (ground arith)
currency_ok (boolean x) h = absurd (ground arith)
currency_ok (number n) h = absurd (ground arith)
currency_ok (array vs) h = absurd (ground arith)
currency_ok (object fs) h = absurd (ground arith)

not-none : (b : Bool) (i : ValidationIssue) → when (not b) i ≡ [] → b ≡ true
not-none true i e = refl
not-none false i e = absurd (cc)

token_ok :
    (v : Value)
    → is_non_empty_string v ≡ true
    → (t : Text) × (v ≡ string t) × (text_of_value v ≡ t) × (is_empty (trim t) ≡ false)
unfolding is_non_empty_string
token_ok (string t) h = (t, refl, refl, ground arith)
token_ok undefined h = absurd (ground arith)
token_ok null h = absurd (ground arith)
token_ok (boolean b) h = absurd (ground arith)
token_ok (number n) h = absurd (ground arith)
token_ok (array vs) h = absurd (ground arith)
token_ok (object fs) h = absurd (ground arith)

amount_ok :
    (v : Value)
    → is_payable_amount v ≡ true
    → (v ≡ number (whole (amount_of v))) × (1 ≤ amount_of v) × (amount_of v ≤ max_safe_integer)
amount_ok (number (whole n)) h = (refl, ground arith, ground arith)
amount_ok (number other) h = absurd (ground arith)
amount_ok undefined h = absurd (ground arith)
amount_ok null h = absurd (ground arith)
amount_ok (boolean b) h = absurd (ground arith)
amount_ok (string t) h = absurd (ground arith)
amount_ok (array vs) h = absurd (ground arith)
amount_ok (object fs) h = absurd (ground arith)

amount_issues-nil :
    (v : Value)
    → amount_issues v ≡ []
    → (is_payable_amount (property v (text "amount")) ≡ true)
      × (is_currency (property v (text "currency")) ≡ true)
unfolding amount_issues
amount_issues-nil v e = elim (Bool-cases (is_plain_object v)) [
  | inr n ↦ absurd (ground arith)
  | inl y ↦
      let payable = is_payable_amount (property v (text "amount")) in
      let known = is_currency (property v (text "currency")) in
      let amount_issue = issue (text "amount.amount") (text "INVALID_AMOUNT") in
      let currency_issue = issue (text "amount.currency") (text "UNSUPPORTED_CURRENCY") in
      let (its, other_its) =
        append-nil (when (not payable) amount_issue) (when (not known) currency_issue)
          (ground arith) in
      (not-none payable amount_issue its, not-none known currency_issue other_its)
]

-- An accepted payment request has the body's token, trimmed, which is not blank, and asks for the
-- body's amount, 1 to 2^53 - 1, of the body's currency, which is VND.
pub validate_payment_input-IsPayment :
    (input : Value) (p : PaymentInput)
    → validate_payment_input input ≡ success p
    → IsPayment input p
unfolding validate_payment_input parsed_payment
validate_payment_input-IsPayment input p e = elim (Bool-cases (is_plain_object input)) [
  | inr n ↦ absurd (ground arith)
  | inl y ↦
      let token = property input (text "paymentMethodToken") in
      let token_issue = issue (text "paymentMethodToken") (text "REQUIRED") in
      let (none_there, told) =
        or_issues-success
          (when (not (is_non_empty_string token)) token_issue
            ++ amount_issues (property input (text "amount")))
          (success (parsed_payment input)) p (ground arith) in
      let (has, right) =
        append-nil (when (not (is_non_empty_string token)) token_issue)
          (amount_issues (property input (text "amount"))) none_there in
      let (payable, known) = amount_issues-nil (property input (text "amount")) right in
      let (its_amount, low, high) =
        amount_ok (property (property input (text "amount")) (text "amount")) payable in
      let (vnd_text, currency_read) =
        currency_ok (property (property input (text "amount")) (text "currency")) known in
      let (t, its_token, its_text, full) =
        token_ok token (not-none (is_non_empty_string token) token_issue has) in
      let accepted : parsed_payment input ≡ p = ground arith in
      subst (IsPayment input) accepted (record {
        token = t;
        body_token = its_token;
        trimmed = ap trim its_text;
        has_token = ap (λ u. is_empty (trim u)) its_text ∙ full;
        not_blank = some_character t full;
        body_amount = its_amount;
        positive = low;
        exact = high;
        body_currency = vnd_text;
        its_currency = currency_read;
      })
]
