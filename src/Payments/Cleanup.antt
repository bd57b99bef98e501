-- ===== src/Payments/Cleanup.antt =====
-- api/src/idempotency/cleanup-idempotency-keys.ts.
pub mod Kept
use booking_flight_system_mi.Base.{ℕ, ◌+◌, ◌-◌, ◌*◌, Bool, Result, ok}
use booking_flight_system_mi.Store.{Database, KeyRow}
use booking_flight_system_mi.Payments.Keys.{delete_completed_before}
use booking_flight_system_mi.Jobs.Batches.{BatchRun, run_batches}

abbrev pub idempotency_key_retention_ms : ℕ
idempotency_key_retention_ms = 24 * 60 * 60000

pub record Cleaning : Type 0 where
  pub now : ℕ
  pub locked : KeyRow → Bool
  pub batch_size : ℕ
  pub max_batches : ℕ

-- The cutoff of a run, for clocks after 1970-01-02.
abbrev pub cutoff : Cleaning → ℕ
cutoff c = c.now - idempotency_key_retention_ms

unfoldable pub cleanup_batch : Cleaning → ℕ → Database → Database × Result (ℕ × ℕ)
cleanup_batch c number db =
    let (db', count) = delete_completed_before (cutoff c) c.batch_size c.locked db in
    (db', ok (count, count))

unfoldable pub cleanup_idempotency_keys : Cleaning → Database → Database × Result (BatchRun ℕ)
cleanup_idempotency_keys c = run_batches ◌+◌ c.batch_size (cleanup_batch c) c.max_batches 0 0
