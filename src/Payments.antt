-- ===== src/Payments.antt =====
-- api/src/payments and api/src/idempotency: payments, their idempotency keys, and the use cases.
pub mod Repository
pub mod Keys
pub mod Settle
pub mod Pay
pub mod Cleanup
pub mod Gateway
pub mod Reconcile
pub mod Validation
