-- ===== src/Payments/Repository/Checks.antt =====
-- The CHECK constraints of the payments table, kept by every write of the repository.
use booking_flight_system_mi.Base.{
  ℕ, ◌≤◌, ◌≡◌, Bool, true, false, not, ◌||◌, Option, none, some, inl, inr, ◌⊎◌, Text, arith,
}
use booking_flight_system_mi.Money.{max_safe_integer}
use booking_flight_system_mi.Store.{
  Payment, PaymentStatus, processing, succeeded, failed, refund_pending, refunded, refund_failed,
}
use booking_flight_system_mi.Payments.Repository.{
  is_status, moved, to_refund, leased, rescheduled, is_due,
}

abbrev pub is_some {ℓ} : {A : Type ℓ} → Option A → Bool
is_some none = false
is_some (some a) = true

abbrev pub implies : Bool → Bool → Bool
implies a b = not a || b

-- CHK_payments_amount_positive and CHK_payments_amount_safe, CHK_payments_token,
-- CHK_payments_next_attempt, CHK_payments_provider_reference and CHK_payments_failure_reason. The
-- constraint on the status is the type of statuses.
pub record PaymentOk (p : Payment) : Type 0 where
  pub positive : 1 ≤ p.amount.amount
  pub exact : p.amount.amount ≤ max_safe_integer
  pub token : is_some p.payment_method_token ≡ is_status processing p
  pub next_attempt :
      is_some p.next_attempt_at ≡ (is_status processing p || is_status refund_pending p)
  pub reference :
      implies
        (is_status succeeded p
          || is_status refund_pending p
          || is_status refunded p
          || is_status refund_failed p)
        (is_some p.provider_reference)
      ≡ true
  pub reason : implies (is_status failed p) (is_some p.failure_reason) ≡ true

pub succeeded_ok :
    (now : ℕ) (reference : Text) (p : Payment)
    → PaymentOk p
    → PaymentOk (moved succeeded now (some reference) none p)
unfolding moved
succeeded_ok now reference p k = ground arith

pub failed_ok :
    (now : ℕ) (reason : Text) (p : Payment)
    → PaymentOk p
    → PaymentOk (moved failed now none (some reason) p)
unfolding moved
failed_ok now reason p k = ground arith

pub pending_ok :
    (now : ℕ) (reference : Text) (p : Payment)
    → PaymentOk p
    → PaymentOk (moved refund_pending now (some reference) none p)
unfolding moved
pending_ok now reference p k = ground arith

pub refunded_ok :
    (now : ℕ) (p : Payment)
    → is_status refund_pending p ≡ true
    → PaymentOk p
    → PaymentOk (moved refunded now none none p)
unfolding moved
refunded_ok now p h k = ground arith

pub refund_failed_ok :
    (now : ℕ) (reason : Text) (p : Payment)
    → is_status refund_pending p ≡ true
    → PaymentOk p
    → PaymentOk (moved refund_failed now none (some reason) p)
unfolding moved
refund_failed_ok now reason p h k = ground arith

pub to_refund_ok :
    (now : ℕ) (p : Payment)
    → is_status succeeded p ≡ true
    → PaymentOk p
    → PaymentOk (to_refund now p)
to_refund_ok now p h k = ground arith

pub leased_ok :
    (now until : ℕ) (locked : Payment → Bool) (p : Payment)
    → is_due now locked p ≡ true
    → PaymentOk p
    → PaymentOk (leased until p)
unfolding is_due
leased_ok now until locked p h k = ground arith

pub rescheduled_ok :
    (at : ℕ) (status : PaymentStatus) (p : Payment)
    → (status ≡ processing) ⊎ (status ≡ refund_pending)
    → is_status status p ≡ true
    → PaymentOk p
    → PaymentOk (rescheduled at p)
rescheduled_ok at status p (inl e) h k = ground arith
rescheduled_ok at status p (inr e) h k = ground arith
