-- ===== src/Payments/Gateway.antt =====
-- api/src/payments/payment-gateway.ts: the port to the payment provider, with what it promises.
pub mod Simulated
pub mod Charges
pub mod Promise
pub mod Once
use booking_flight_system_mi.Base.{◌≡◌, ◌⊎◌, Bool, true, false, Option, some, Text, Fault}
use booking_flight_system_mi.Money.{Money}

pub record ChargeRequest : Type 0 where
  pub payment_id : Text
  pub amount : Money
  pub payment_method_token : Text

pub data ChargeResult : Type 0 where
  charge_succeeded charge_declined charge_unknown : Text → ChargeResult

pub record RefundRequest : Type 0 where
  pub payment_id : Text
  pub provider_reference : Text
  pub amount : Money

pub data RefundResult : Type 0 where
  refund_done : RefundResult
  refund_refused : (reason : Text) (retryable : Bool) → RefundResult
  refund_unknown : (reason : Text) → RefundResult

abbrev pub is_unknown : ChargeResult → Bool
is_unknown (charge_unknown reason) = true
is_unknown _ = false

abbrev pub is_unknown_refund : RefundResult → Bool
is_unknown_refund (refund_unknown reason) = true
is_unknown_refund _ = false

-- The provider's memory changes with each call. `settled` is the result it has for a payment id,
-- `given_back` whether it has refunded it. The laws are the promise of the port's comment: charging
-- or refunding an id twice does it once and answers the same, if it answers in time. A call can also
-- throw, and has then told nothing: its answer counts as unknown.
pub record PaymentGateway : Type 1 where
  pub Provider : Type 0
  pub charge : ChargeRequest → Provider → Provider × ChargeResult
  pub refund : RefundRequest → Provider → Provider × RefundResult
  pub charge_throws : ChargeRequest → Provider → Option Fault
  pub refund_throws : RefundRequest → Provider → Option Fault
  pub settled : Text → Provider → Option ChargeResult
  pub given_back : Text → Provider → Bool
  pub thrown_charge :
      (r : ChargeRequest) (g : Provider) (e : Fault)
      → charge_throws r g ≡ some e
      → is_unknown (charge r g).1 ≡ true
  pub thrown_refund :
      (r : RefundRequest) (g : Provider) (e : Fault)
      → refund_throws r g ≡ some e
      → is_unknown_refund (refund r g).1 ≡ true
  pub charge_keeps :
      (r : ChargeRequest) (g : Provider) (id : Text) (x : ChargeResult)
      → settled id g ≡ some x
      → settled id (charge r g).0 ≡ some x
  pub refund_keeps :
      (r : RefundRequest) (g : Provider) (id : Text) (x : ChargeResult)
      → settled id g ≡ some x
      → settled id (refund r g).0 ≡ some x
  pub charge_answers :
      (r : ChargeRequest) (g : Provider)
      → is_unknown (charge r g).1 ≡ false
      → settled r.payment_id (charge r g).0 ≡ some (charge r g).1
  pub charge_again :
      (r : ChargeRequest) (g : Provider) (x : ChargeResult)
      → settled r.payment_id g ≡ some x
      → ((charge r g).1 ≡ x) ⊎ (is_unknown (charge r g).1 ≡ true)
  pub refund_answers :
      (r : RefundRequest) (g : Provider)
      → (refund r g).1 ≡ refund_done
      → (settled r.payment_id g ≡ some (charge_succeeded r.provider_reference))
        × (given_back r.payment_id (refund r g).0 ≡ true)
  pub refund_again :
      (r : RefundRequest) (g : Provider)
      → given_back r.payment_id g ≡ true
      → settled r.payment_id g ≡ some (charge_succeeded r.provider_reference)
      → ((refund r g).1 ≡ refund_done) ⊎ (is_unknown_refund (refund r g).1 ≡ true)
  pub charge_keeps_back :
      (r : ChargeRequest) (g : Provider) (id : Text)
      → given_back id g ≡ true
      → given_back id (charge r g).0 ≡ true
  pub refund_keeps_back :
      (r : RefundRequest) (g : Provider) (id : Text)
      → given_back id g ≡ true
      → given_back id (refund r g).0 ≡ true
