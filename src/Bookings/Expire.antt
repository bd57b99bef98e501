-- ===== src/Bookings/Expire.antt =====
-- api/src/bookings/expire-holds.ts.
pub mod Drained
use booking_flight_system_mi.Base.{
  ℕ, zero, suc, ◌+◌, Bool, Option, none, List, [], ◌∷◌, map, length, Text, text, Result, ok, thrown,
}
use booking_flight_system_mi.Store.{
  Database, BookingRow, Transaction, ◌>>=◌, ◌>>◌, return, audit, enqueue, run_transaction,
  resolve_correlation_id, AuditEntry, AuditActor, system_actor, booking_target, booking_expired,
  text_value, instant_value, Event, expired_event, booking_expired_queue,
}
use booking_flight_system_mi.Bookings.Repository.Rows.{ExpiredHold, expire_due_holds}
use booking_flight_system_mi.Bookings.Create.{join_codes}
use booking_flight_system_mi.Jobs.Batches.{BatchRun, run_batches}

abbrev pub hold_expiry_actor : AuditActor
hold_expiry_actor = system_actor (text "booking-hold-expiry")

-- What one run takes from its dependencies: its single instant, the generated ids by batch and
-- place in it, the bookings that other transactions have locked, and the limits.
pub record Expiring : Type 0 where
  pub now : ℕ
  pub audit_id : ℕ → ℕ → Text
  pub outbox_id : ℕ → ℕ → Text
  pub locked : BookingRow → Bool
  pub batch_size : ℕ
  pub max_batches : ℕ

unfoldable pub expired_audit : Expiring → Text → Text → ExpiredHold → AuditEntry
expired_audit x audit_id event_id hold = record {
  id = audit_id;
  action = booking_expired;
  actor = hold_expiry_actor;
  target = booking_target hold.booking_id;
  request_id = none;
  occurred_at = x.now;
  metadata =
      (text "flightId", text_value hold.flight_id)
      ∷ (text "reference", text_value hold.reference)
      ∷ (text "seats", text_value (join_codes hold.seats))
      ∷ (text "holdExpiresAt", instant_value hold.hold_expires_at)
      ∷ (text "correlationId", text_value (resolve_correlation_id none event_id))
      ∷ [];
}

unfoldable pub expired_event_of : Expiring → Text → ExpiredHold → Event
expired_event_of x event_id hold = record {
  event_id = event_id;
  correlation_id = resolve_correlation_id none event_id;
  occurred_at = x.now;
  body =
      expired_event hold.booking_id hold.reference hold.flight_id hold.hold_expires_at hold.seats;
}

-- The loop over the holds of a batch.
unfoldable pub announce_expired : Expiring → ℕ → ℕ → List ExpiredHold → Transaction (Unit {0})
announce_expired x number place [] = return tt
announce_expired x number place (hold ∷ holds) = do
  audit (expired_audit x (x.audit_id number place) (x.outbox_id number place) hold)
  enqueue booking_expired_queue (expired_event_of x (x.outbox_id number place) hold)
  announce_expired x number (suc place) holds

unfoldable pub expire_step : Expiring → ℕ → Transaction (ℕ × ℕ)
expire_step x number db =
    let (db', holds) = expire_due_holds x.now x.batch_size x.locked db in
    (do announce_expired x number 0 holds; return (length holds, length holds)) db'

unfoldable pub expire_batch : Expiring → ℕ → Database → Database × Result (ℕ × ℕ)
expire_batch x number = run_transaction (expire_step x number)

unfoldable pub expire_holds : Expiring → Database → Database × Result (BatchRun ℕ)
expire_holds x = run_batches ◌+◌ x.batch_size (expire_batch x) x.max_batches 0 0
