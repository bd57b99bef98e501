-- ===== src/Payments/Gateway/Promise.antt =====
-- The simulated gateway keeps the promise of the port.
use booking_flight_system_mi.Base.{
  ◌≡◌, refl, true, Option, none, some, List, ◌∷◌, inl, inr, ◌⊎◌, Text, same, same_refl, same_iff,
  Bool-cases, Option-cases, arith,
}
use booking_flight_system_mi.Payments.Gateway.{
  ChargeRequest, ChargeResult, charge_succeeded, charge_declined, charge_unknown, RefundRequest,
  refund_done, is_unknown_refund, PaymentGateway,
}
use booking_flight_system_mi.Payments.Gateway.Simulated.{
  Simulator, get, has, goes_unanswered, provider, called, gets_through, simulated_charge,
  refund_at_provider, is_charge_of, simulated_refund, attempt_of, fails_this_time,
  refund_fails_permanently_token, timeout_before_charge_token, lost_response_token,
}
use booking_flight_system_mi.Payments.Gateway.Charges.{
  charge_keeps_lem, charge_answers_lem, charge_again_lem,
}

has_newest : (key : Text) (keys : List Text) → has key (key ∷ keys) ≡ true
has_newest key keys = rw (same_refl key) refl

refund_at_provider-charges :
    (r : RefundRequest) (token : Text) (s : Simulator)
    → (refund_at_provider r token s).0.charges ≡ s.charges
unfolding refund_at_provider
refund_at_provider-charges r token s = ground arith

pub simulated_refund-charges :
    (r : RefundRequest) (s : Simulator) → (simulated_refund r s).0.charges ≡ s.charges
unfolding simulated_refund
simulated_refund-charges r s = elim (Bool-cases (gets_through s.network)) [
  | inl y ↦ elim (Bool-cases (is_charge_of r.provider_reference (get r.payment_id s.charges))) [
    | inl z ↦ rw (y, z) (refund_at_provider-charges r _ (called s))
    | inr n ↦ rw (y, n) refl
  ]
  | inr n ↦ rw n refl
]

refund_at_provider-done :
    (r : RefundRequest) (token : Text) (s : Simulator)
    → (refund_at_provider r token s).1 ≡ refund_done
    → has r.payment_id (refund_at_provider r token s).0.refunded ≡ true
unfolding refund_at_provider
refund_at_provider-done r token s h = elim (Bool-cases (has r.payment_id s.refunded)) [
  | inl y ↦ ground arith
  | inr n ↦ elim (Bool-cases (same token refund_fails_permanently_token)) [
    | inl y ↦ absurd (ground arith)
    | inr m ↦ elim (Bool-cases (fails_this_time token (attempt_of r s))) [
      | inl y ↦ absurd (ground arith)
      | inr k ↦ rw (n, m, k) (has_newest r.payment_id s.refunded)
    ]
  ]
]

refund_at_provider-again :
    (r : RefundRequest) (token : Text) (s : Simulator)
    → has r.payment_id s.refunded ≡ true
    → (refund_at_provider r token s).1 ≡ refund_done
unfolding refund_at_provider
refund_at_provider-again r token s h = rw h refl

its_charge :
    (reference : Text) (o : Option ChargeResult)
    → is_charge_of reference o ≡ true
    → o ≡ some (charge_succeeded reference)
its_charge reference (some (charge_succeeded x)) h = rw ((same_iff x reference).0 h) refl
its_charge reference (some (charge_declined x)) h = absurd (ground arith)
its_charge reference (some (charge_unknown x)) h = absurd (ground arith)
its_charge reference none h = absurd (ground arith)

pub refund_answers_lem :
    (r : RefundRequest) (s : Simulator)
    → (simulated_refund r s).1 ≡ refund_done
    → (get r.payment_id s.charges ≡ some (charge_succeeded r.provider_reference))
      × (has r.payment_id (simulated_refund r s).0.refunded ≡ true)
unfolding simulated_refund
refund_answers_lem r s h = elim (Bool-cases (gets_through s.network)) [
  | inl y ↦ elim (Bool-cases (is_charge_of r.provider_reference (get r.payment_id s.charges))) [
    | inl z ↦ (
      its_charge r.provider_reference (get r.payment_id s.charges) z,
      rw (y, z) (refund_at_provider-done r _ (called s) (rw (y, z) at h)),
    )
    | inr n ↦ absurd (ground arith)
  ]
  | inr n ↦ absurd (ground arith)
]

pub refund_again_lem :
    (r : RefundRequest) (s : Simulator)
    → has r.payment_id s.refunded ≡ true
    → get r.payment_id s.charges ≡ some (charge_succeeded r.provider_reference)
    → ((simulated_refund r s).1 ≡ refund_done) ⊎ (is_unknown_refund (simulated_refund r s).1 ≡ true)
unfolding simulated_refund
refund_again_lem r s h k = elim (Bool-cases (gets_through s.network)) [
  | inl y ↦
      let its : is_charge_of r.provider_reference (get r.payment_id s.charges) ≡ true =
        rw k (same_refl r.provider_reference) in
      inl (rw (y, its) (refund_at_provider-again r _ (called s) h))
  | inr n ↦ inr (ground arith)
]

provider-refunded : (r : ChargeRequest) (s : Simulator) → (provider r s).0.refunded ≡ s.refunded
unfolding provider
provider-refunded r s = elim (Option-cases (get r.payment_id s.charges)) [
  | inr (previous, y) ↦ ground arith
  | inl missing ↦ elim (Bool-cases (goes_unanswered timeout_before_charge_token r s)) [
    | inl y ↦ ground arith
    | inr n ↦ elim (Bool-cases (goes_unanswered lost_response_token r s)) [
      | inl y ↦ ground arith
      | inr m ↦ ground arith
    ]
  ]
]

pub simulated_charge-refunded :
    (r : ChargeRequest) (s : Simulator) → (simulated_charge r s).0.refunded ≡ s.refunded
unfolding simulated_charge
simulated_charge-refunded r s = elim (Bool-cases (gets_through s.network)) [
  | inl y ↦ rw y (provider-refunded r (called s))
  | inr n ↦ rw n refl
]

has_older :
    (key other : Text) (keys : List Text) → has key keys ≡ true → has key (other ∷ keys) ≡ true
has_older key other keys h = ground arith

refund_at_provider_keeps :
    (r : RefundRequest) (token : Text) (s : Simulator) (id : Text)
    → has id s.refunded ≡ true
    → has id (refund_at_provider r token s).0.refunded ≡ true
unfolding refund_at_provider
refund_at_provider_keeps r token s id h = elim (Bool-cases (has r.payment_id s.refunded)) [
  | inl y ↦ rw y h
  | inr n ↦ elim (Bool-cases (same token refund_fails_permanently_token)) [
    | inl y ↦ rw (n, y) h
    | inr m ↦ elim (Bool-cases (fails_this_time token (attempt_of r s))) [
      | inl y ↦ rw (n, m, y) h
      | inr k ↦ rw (n, m, k) (has_older id r.payment_id s.refunded h)
    ]
  ]
]

pub refund_keeps_back_lem :
    (r : RefundRequest) (s : Simulator) (id : Text)
    → has id s.refunded ≡ true
    → has id (simulated_refund r s).0.refunded ≡ true
unfolding simulated_refund
refund_keeps_back_lem r s id h = elim (Bool-cases (gets_through s.network)) [
  | inl y ↦ elim (Bool-cases (is_charge_of r.provider_reference (get r.payment_id s.charges))) [
    | inl z ↦ rw (y, z) (refund_at_provider_keeps r _ (called s) id h)
    | inr n ↦ rw (y, n) h
  ]
  | inr n ↦ rw n h
]

abbrev pub simulated_gateway : PaymentGateway
simulated_gateway = record {
  Provider = Simulator;
  charge = simulated_charge;
  refund = simulated_refund;
  charge_throws = λ r s. none;
  refund_throws = λ r s. none;
  thrown_charge = λ r s e h. absurd (cc);
  thrown_refund = λ r s e h. absurd (cc);
  settled = λ id s. get id s.charges;
  given_back = λ id s. has id s.refunded;
  charge_keeps = charge_keeps_lem;
  refund_keeps = λ r s id x h. rw (simulated_refund-charges r s) h;
  charge_answers = charge_answers_lem;
  charge_again = charge_again_lem;
  refund_answers = refund_answers_lem;
  refund_again = refund_again_lem;
  charge_keeps_back = λ r s id h. rw (simulated_charge-refunded r s) h;
  refund_keeps_back = refund_keeps_back_lem;
}
