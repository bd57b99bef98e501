-- ===== src/Payments/Gateway/Simulated.antt =====
-- api/src/payments/simulated-payment-gateway.ts. Each call takes from `network` whether it gets
-- through before its timeout; a call that the provider never answers ends by the timeout.
use booking_flight_system_mi.Base.{
  ℕ, suc, Bool, true, false, not, ◌&&◌, Option, none, some, List, [], ◌∷◌, ◌++◌, any, find_first,
  leb, same, if◌then◌else◌, Text, text,
}
use booking_flight_system_mi.Payments.Gateway.{
  ChargeRequest, ChargeResult, charge_succeeded, charge_declined, charge_unknown, RefundRequest,
  RefundResult, refund_done, refund_refused, refund_unknown,
}

abbrev pub success_token : Text
success_token = text "tok_success"

abbrev pub decline_token : Text
decline_token = text "tok_decline"

abbrev pub timeout_before_charge_token : Text
timeout_before_charge_token = text "tok_timeout_before_charge"

abbrev pub lost_response_token : Text
lost_response_token = text "tok_lost_response"

abbrev pub refund_fails_twice_token : Text
refund_fails_twice_token = text "tok_refund_fails_twice"

abbrev pub refund_fails_permanently_token : Text
refund_fails_permanently_token = text "tok_refund_fails_permanently"

unfoldable pub charging_tokens : List Text
charging_tokens =
    success_token ∷ timeout_before_charge_token ∷ lost_response_token ∷ refund_fails_twice_token
    ∷ refund_fails_permanently_token ∷ []

abbrev pub transient_refund_failures : ℕ
transient_refund_failures = 2

-- The maps and sets of the closure.
pub record Simulator : Type 0 where
  pub charges : List (Text × ChargeResult)
  pub tokens : List (Text × Text)
  pub unreached_once : List Text
  pub refunded : List Text
  pub refund_attempts : List (Text × ℕ)
  pub network : List Bool

-- `get` of a map whose newest entry is first.
abbrev entry_value {ℓ} : {A : Type ℓ} → Option (Text × A) → Option A
entry_value none = none
entry_value (some (k, v)) = some v

unfoldable pub get {ℓ} : {A : Type ℓ} → Text → List (Text × A) → Option A
get key entries = entry_value (find_first (λ e. same e.0 key) entries)

abbrev pub has : Text → List Text → Bool
has key keys = any (same key) keys

unfoldable pub outcome_of : ChargeRequest → ChargeResult
outcome_of request =
    if has request.payment_method_token charging_tokens
    then charge_succeeded (text "sim_ch_" ++ request.payment_id)
    else (if same request.payment_method_token decline_token
        then charge_declined (text "card_declined")
        else charge_declined (text "unknown_payment_method"))

-- The first charge of an id that the token makes unreachable.
unfoldable pub goes_unanswered : Text → ChargeRequest → Simulator → Bool
goes_unanswered token request s =
    same request.payment_method_token token && not (has request.payment_id s.unreached_once)

-- `none` waits for the abort.
unfoldable pub provider : ChargeRequest → Simulator → Simulator × Option ChargeResult
provider request s = elim (get request.payment_id s.charges) [
  | some previous ↦ (s, some previous)
  | none ↦
      if goes_unanswered timeout_before_charge_token request s
      then (record s { unreached_once = request.payment_id ∷ s.unreached_once }, none)
      else (let charged = record s {
        charges = (request.payment_id, outcome_of request) ∷ s.charges;
        tokens = (request.payment_id, request.payment_method_token) ∷ s.tokens;
      } in
          if goes_unanswered lost_response_token request s
          then (record charged { unreached_once = request.payment_id ∷ s.unreached_once }, none)
          else (charged, some (outcome_of request)))
]

abbrev pub timeout : Text
timeout = text "timeout"

abbrev answer_in_time : Option ChargeResult → ChargeResult
answer_in_time none = charge_unknown timeout
answer_in_time (some result) = result

-- Whether the next call gets through, and the network after it.
abbrev pub gets_through : List Bool → Bool
gets_through [] = true
gets_through (b ∷ bs) = b

abbrev pub rest_of : List Bool → List Bool
rest_of [] = []
rest_of (b ∷ bs) = bs

abbrev pub called : Simulator → Simulator
called s = record s { network = rest_of s.network }

unfoldable pub simulated_charge : ChargeRequest → Simulator → Simulator × ChargeResult
simulated_charge request s =
    if gets_through s.network
    then (let (s', result) = provider request (called s) in (s', answer_in_time result))
    else (called s, charge_unknown timeout)

abbrev zero_if_none : Option ℕ → ℕ
zero_if_none none = 0
zero_if_none (some n) = n

unfoldable pub attempt_of : RefundRequest → Simulator → ℕ
attempt_of request s = suc (zero_if_none (get request.payment_id s.refund_attempts))

unfoldable pub fails_this_time : Text → ℕ → Bool
fails_this_time token attempt =
    same token refund_fails_twice_token && leb attempt transient_refund_failures

unfoldable pub refund_at_provider : RefundRequest → Text → Simulator → Simulator × RefundResult
refund_at_provider request token s =
    if has request.payment_id s.refunded
    then (s, refund_done)
    else (if same token refund_fails_permanently_token
        then (s, refund_refused (text "card_account_closed") false)
        else (let tried = record s {
          refund_attempts = (request.payment_id, attempt_of request s) ∷ s.refund_attempts;
        } in
            if fails_this_time token (attempt_of request s)
            then (tried, refund_refused (text "provider_unavailable") true)
            else (record tried { refunded = request.payment_id ∷ s.refunded }, refund_done)))

abbrev empty_if_none : Option Text → Text
empty_if_none none = []
empty_if_none (some t) = t

abbrev pub is_charge_of : Text → Option ChargeResult → Bool
is_charge_of reference (some (charge_succeeded r)) = same r reference
is_charge_of reference _ = false

unfoldable pub simulated_refund : RefundRequest → Simulator → Simulator × RefundResult
simulated_refund request s =
    if gets_through s.network
    then (if is_charge_of request.provider_reference (get request.payment_id s.charges)
        then refund_at_provider request (empty_if_none (get request.payment_id s.tokens)) (called s)
        else (called s, refund_refused (text "unknown_charge") false))
    else (called s, refund_unknown timeout)
