-- ===== src/Payments/Reconcile/Outcome.antt =====
-- What the reconciliation of one payment leaves behind.
use booking_flight_system_mi.Base.{
  ◌≡◌, refl, true, false, none, some, Bool-cases, Option-cases, Result-cases, inl, inr, Text, Fault,
  ok, thrown, payment_without_token, payment_without_reference, arith,
}
use booking_flight_system_mi.Store.{Database, Payment, processing, run_transaction}
use booking_flight_system_mi.Payments.Gateway.{ChargeResult, RefundResult, PaymentGateway}
use booking_flight_system_mi.Payments.Repository.{is_status}
use booking_flight_system_mi.Payments.Settle.{Settling}
use booking_flight_system_mi.Payments.Reconcile.{
  Reconciled, failed, record_charge, record_refund, charge_request, refund_request, caught,
  reconcile_charge, reconcile_refund, reconcile,
}
use booking_flight_system_mi.Payments.Reconcile.Recorded.{
  ChargeRecorded, RefundRecorded, record_charge-recorded, record_refund-recorded,
}

module _ (gateway : PaymentGateway) where
  -- What the reconciliation of a claimed payment leaves: the tables, the provider, the outcome.
  pub data ReconcileOutcome (s : Settling) (p : Payment) (db : Database) (g : gateway.Provider)
      : Database → gateway.Provider → Reconciled → Type 0 where
    charged_again :
        (token : Text) (answer : ChargeResult) (db' : Database) (g' : gateway.Provider)
        (outcome : Reconciled)
        → is_status processing p ≡ true
        → p.payment_method_token ≡ some token
        → gateway.charge_throws (charge_request p token) g ≡ none
        → gateway.charge (charge_request p token) g ≡ (g', answer)
        → record_charge s p answer db ≡ ok (db', outcome)
        → ChargeRecorded s p db db' answer outcome
        → ReconcileOutcome s p db g db' g' outcome
    refund_tried :
        (reference : Text) (answer : RefundResult) (db' : Database) (g' : gateway.Provider)
        (outcome : Reconciled)
        → is_status processing p ≡ false
        → p.provider_reference ≡ some reference
        → gateway.refund_throws (refund_request p reference) g ≡ none
        → gateway.refund (refund_request p reference) g ≡ (g', answer)
        → record_refund s p answer db ≡ ok (db', outcome)
        → RefundRecorded s p db db' answer outcome
        → ReconcileOutcome s p db g db' g' outcome
    left_alone : (g' : gateway.Provider) → ReconcileOutcome s p db g db g' failed

  abbrev TriedOutcome :
      Settling
      → Payment
      → Database
      → gateway.Provider
      → (Database × gateway.Provider) × Reconciled
      → Type 0
  TriedOutcome s p db g ((db', g'), outcome) = ReconcileOutcome s p db g db' g' outcome

  charge_missing :
      (s : Settling) (p : Payment) (db : Database) (g : gateway.Provider)
      → p.payment_method_token ≡ none
      → reconcile_charge gateway s p (db, g) ≡ ((db, g), thrown payment_without_token)
  unfolding reconcile_charge
  charge_missing s p db g e = ground arith

  charge_call_thrown :
      (s : Settling) (p : Payment) (db : Database) (g : gateway.Provider) (token : Text) (x : Fault)
      → p.payment_method_token ≡ some token
      → gateway.charge_throws (charge_request p token) g ≡ some x
      → reconcile_charge gateway s p (db, g)
        ≡ ((db, (gateway.charge (charge_request p token) g).0), thrown x)
  unfolding reconcile_charge run_transaction
  charge_call_thrown s p db g token x e told = ground arith

  charge_thrown :
      (s : Settling) (p : Payment) (db : Database) (g : gateway.Provider) (token : Text) (x : Fault)
      → p.payment_method_token ≡ some token
      → gateway.charge_throws (charge_request p token) g ≡ none
      → record_charge s p (gateway.charge (charge_request p token) g).1 db ≡ thrown x
      → reconcile_charge gateway s p (db, g)
        ≡ ((db, (gateway.charge (charge_request p token) g).0), thrown x)
  unfolding reconcile_charge run_transaction
  charge_thrown s p db g token x e told h = ground arith

  charge_committed :
      (s : Settling) (p : Payment) (db : Database) (g : gateway.Provider) (token : Text)
      (db' : Database) (outcome : Reconciled)
      → p.payment_method_token ≡ some token
      → gateway.charge_throws (charge_request p token) g ≡ none
      → record_charge s p (gateway.charge (charge_request p token) g).1 db ≡ ok (db', outcome)
      → reconcile_charge gateway s p (db, g)
        ≡ ((db', (gateway.charge (charge_request p token) g).0), ok outcome)
  unfolding reconcile_charge run_transaction
  charge_committed s p db g token db' outcome e told h = ground arith

  charge-outcome :
      (s : Settling) (p : Payment) (db : Database) (g : gateway.Provider)
      → is_status processing p ≡ true
      → TriedOutcome s p db g (
        (reconcile_charge gateway s p (db, g)).0,
        caught (reconcile_charge gateway s p (db, g)).1,
      )
  charge-outcome s p db g busy = elim (Option-cases p.payment_method_token) [
    | inl missing ↦ rw (charge_missing s p db g missing) (left_alone g)
    | inr (token, there) ↦
        let (g', answer) = gateway.charge (charge_request p token) g in
        elim (Option-cases (gateway.charge_throws (charge_request p token) g)) [
          | inr (fault, lost) ↦
              rw (charge_call_thrown s p db g token fault there lost) (left_alone g')
          | inl told ↦ elim (Result-cases (record_charge s p answer db)) [
            | inr (x, n) ↦ rw (charge_thrown s p db g token x there told n) (left_alone g')
            | inl ((db', outcome), y) ↦
                rw (charge_committed s p db g token db' outcome there told y) (
                  charged_again token answer db' g' outcome busy there told refl y
                    (record_charge-recorded s p answer db db' outcome y))
          ]
        ]
  ]

  refund_missing :
      (s : Settling) (p : Payment) (db : Database) (g : gateway.Provider)
      → p.provider_reference ≡ none
      → reconcile_refund gateway s p (db, g) ≡ ((db, g), thrown payment_without_reference)
  unfolding reconcile_refund
  refund_missing s p db g e = ground arith

  refund_call_thrown :
      (s : Settling) (p : Payment) (db : Database) (g : gateway.Provider) (reference : Text)
      (x : Fault)
      → p.provider_reference ≡ some reference
      → gateway.refund_throws (refund_request p reference) g ≡ some x
      → reconcile_refund gateway s p (db, g)
        ≡ ((db, (gateway.refund (refund_request p reference) g).0), thrown x)
  unfolding reconcile_refund run_transaction
  refund_call_thrown s p db g reference x e told = ground arith

  refund_thrown :
      (s : Settling) (p : Payment) (db : Database) (g : gateway.Provider) (reference : Text)
      (x : Fault)
      → p.provider_reference ≡ some reference
      → gateway.refund_throws (refund_request p reference) g ≡ none
      → record_refund s p (gateway.refund (refund_request p reference) g).1 db ≡ thrown x
      → reconcile_refund gateway s p (db, g)
        ≡ ((db, (gateway.refund (refund_request p reference) g).0), thrown x)
  unfolding reconcile_refund run_transaction
  refund_thrown s p db g reference x e told h = ground arith

  refund_committed :
      (s : Settling) (p : Payment) (db : Database) (g : gateway.Provider) (reference : Text)
      (db' : Database) (outcome : Reconciled)
      → p.provider_reference ≡ some reference
      → gateway.refund_throws (refund_request p reference) g ≡ none
      → record_refund s p (gateway.refund (refund_request p reference) g).1 db ≡ ok (db', outcome)
      → reconcile_refund gateway s p (db, g)
        ≡ ((db', (gateway.refund (refund_request p reference) g).0), ok outcome)
  unfolding reconcile_refund run_transaction
  refund_committed s p db g reference db' outcome e told h = ground arith

  refund-outcome :
      (s : Settling) (p : Payment) (db : Database) (g : gateway.Provider)
      → is_status processing p ≡ false
      → TriedOutcome s p db g (
        (reconcile_refund gateway s p (db, g)).0,
        caught (reconcile_refund gateway s p (db, g)).1,
      )
  refund-outcome s p db g busy = elim (Option-cases p.provider_reference) [
    | inl missing ↦ rw (refund_missing s p db g missing) (left_alone g)
    | inr (reference, there) ↦
        let (g', answer) = gateway.refund (refund_request p reference) g in
        elim (Option-cases (gateway.refund_throws (refund_request p reference) g)) [
          | inr (fault, lost) ↦
              rw (refund_call_thrown s p db g reference fault there lost) (left_alone g')
          | inl told ↦ elim (Result-cases (record_refund s p answer db)) [
            | inr (x, n) ↦ rw (refund_thrown s p db g reference x there told n) (left_alone g')
            | inl ((db', outcome), y) ↦
                rw (refund_committed s p db g reference db' outcome there told y) (
                  refund_tried reference answer db' g' outcome busy there told refl y
                    (record_refund-recorded s p answer db db' outcome y))
          ]
        ]
  ]

  -- The reconciliation of a claimed payment has one of three outcomes. A PROCESSING payment was
  -- charged again by its own id: a definite answer is settled, an unknown one only moves the time of
  -- the next attempt. Any other was refunded: it is REFUNDED if the gateway
  -- said so, REFUND_FAILED if the gateway refused for good or on the fifth attempt or later, and
  -- else only the time of the next attempt moves. Or the payment failed, and no table has changed.
  pub reconcile-outcome :
      (s : Settling) (p : Payment) (db : Database) (g : gateway.Provider)
      → let ((db', g'), outcome) = reconcile gateway s p (db, g) in
        ReconcileOutcome s p db g db' g' outcome
  unfolding reconcile
  reconcile-outcome s p db g = elim (Bool-cases (is_status processing p)) [
    | inl y ↦ rw y (charge-outcome s p db g y)
    | inr n ↦ rw n (refund-outcome s p db g n)
  ]
