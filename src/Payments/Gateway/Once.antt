-- ===== src/Payments/Gateway/Once.antt =====
-- Many calls to a payment gateway: what they answered before they answer again.
use booking_flight_system_mi.Base.{◌≡◌, true, false, some, List, [], ◌∷◌, ◌⊎◌, Text}
use booking_flight_system_mi.Payments.Gateway.{
  ChargeRequest, ChargeResult, is_unknown, RefundRequest, refund_done, is_unknown_refund,
  PaymentGateway,
}
use booking_flight_system_mi.Payments.Gateway.Simulated.{
  Simulator, simulated_charge, simulated_refund,
}
use booking_flight_system_mi.Payments.Gateway.Promise.{simulated_gateway}

pub data Call : Type 0 where
  charge_call : ChargeRequest → Call
  refund_call : RefundRequest → Call

module _ (gateway : PaymentGateway) where
  unfoldable pub after : List Call → gateway.Provider → gateway.Provider
  after [] g = g
  after (charge_call r ∷ calls) g = after calls (gateway.charge r g).0
  after (refund_call r ∷ calls) g = after calls (gateway.refund r g).0

  after_keeps :
      (calls : List Call) (g : gateway.Provider) (id : Text) (x : ChargeResult)
      → gateway.settled id g ≡ some x
      → gateway.settled id (after calls g) ≡ some x
  unfolding after
  after_keeps [] g id x h = h
  after_keeps (charge_call r ∷ calls) g id x h =
      after_keeps calls _ id x (gateway.charge_keeps r g id x h)
  after_keeps (refund_call r ∷ calls) g id x h =
      after_keeps calls _ id x (gateway.refund_keeps r g id x h)

  after_keeps_back :
      (calls : List Call) (g : gateway.Provider) (id : Text)
      → gateway.given_back id g ≡ true
      → gateway.given_back id (after calls g) ≡ true
  unfolding after
  after_keeps_back [] g id h = h
  after_keeps_back (charge_call r ∷ calls) g id h =
      after_keeps_back calls _ id (gateway.charge_keeps_back r g id h)
  after_keeps_back (refund_call r ∷ calls) g id h =
      after_keeps_back calls _ id (gateway.refund_keeps_back r g id h)

  -- A charge that was answered is answered the same for its payment id, whatever was called since.
  pub charge_once :
      (r again : ChargeRequest) (calls : List Call) (g : gateway.Provider)
      → is_unknown (gateway.charge r g).1 ≡ false
      → again.payment_id ≡ r.payment_id
      → ((gateway.charge again (after calls (gateway.charge r g).0)).1 ≡ (gateway.charge r g).1)
        ⊎ (is_unknown (gateway.charge again (after calls (gateway.charge r g).0)).1 ≡ true)
  charge_once r again calls g h e =
      let told = gateway.charge_answers r g h in
      gateway.charge_again again (after calls (gateway.charge r g).0) (gateway.charge r g).1
        (after_keeps calls _ again.payment_id _ (rw e told))

  pub refund_once :
      (r again : RefundRequest) (calls : List Call) (g : gateway.Provider)
      → (gateway.refund r g).1 ≡ refund_done
      → again.payment_id ≡ r.payment_id
      → again.provider_reference ≡ r.provider_reference
      → ((gateway.refund again (after calls (gateway.refund r g).0)).1 ≡ refund_done)
        ⊎ (is_unknown_refund (gateway.refund again (after calls (gateway.refund r g).0)).1 ≡ true)
  refund_once r again calls g h e k =
      let (charged, back) = gateway.refund_answers r g h in
      gateway.refund_again again (after calls (gateway.refund r g).0)
        (after_keeps_back calls _ again.payment_id (rw e back))
        (after_keeps calls _ again.payment_id _
          (gateway.refund_keeps r g again.payment_id _ (rw (e, k) charged)))

-- The simulated gateway keeps the promise of its port for charges: after a definite answer to a
-- charge, whatever charges and refunds are called in between and whichever of them time out, a
-- charge with the same payment id is answered the same or is unknown.
pub simulated_charge_once :
    (r again : ChargeRequest) (calls : List Call) (s : Simulator)
    → is_unknown (simulated_charge r s).1 ≡ false
    → again.payment_id ≡ r.payment_id
    → ((simulated_charge again (after simulated_gateway calls (simulated_charge r s).0)).1
        ≡ (simulated_charge r s).1)
      ⊎ (is_unknown
            (simulated_charge again (after simulated_gateway calls (simulated_charge r s).0)).1
          ≡ true)
simulated_charge_once = charge_once simulated_gateway

-- The simulated gateway keeps the promise of its port for refunds: after a refund, whatever charges
-- and refunds are called in between and whichever of them time out, a refund of the same charge is
-- done or unknown, never refused.
pub simulated_refund_once :
    (r again : RefundRequest) (calls : List Call) (s : Simulator)
    → (simulated_refund r s).1 ≡ refund_done
    → again.payment_id ≡ r.payment_id
    → again.provider_reference ≡ r.provider_reference
    → ((simulated_refund again (after simulated_gateway calls (simulated_refund r s).0)).1
        ≡ refund_done)
      ⊎ (is_unknown_refund
            (simulated_refund again (after simulated_gateway calls (simulated_refund r s).0)).1
          ≡ true)
simulated_refund_once = refund_once simulated_gateway
