-- ===== src/Store/Transactions.antt =====
-- api/src/transactions: a transaction is a function on the tables that may throw; a throw rolls
-- back. `audit` and `enqueue` are `AuditRecorder.record` and `OutboxRepository.enqueue`.
use booking_flight_system_mi.Base.{List, ◌∷◌, Option, none, some, Text, Result, ok, thrown, false}
use booking_flight_system_mi.Store.Tables.{
  FlightRow, FareRow, SeatRow, BookingRow, PassengerRow, Payment, KeyRow,
}
use booking_flight_system_mi.Store.Journal.{AuditEntry, OutboxRow, Queue, Event}

-- In the lists of bookings, payments, keys, audit entries and events the newest row is first.
pub record Database : Type 0 where
  pub flights : List FlightRow
  pub fares : List FareRow
  pub seats : List SeatRow
  pub bookings : List BookingRow
  pub passengers : List PassengerRow
  pub payments : List Payment
  pub keys : List KeyRow
  pub audit_log : List AuditEntry
  pub outbox : List OutboxRow

abbrev pub Transaction : Type 0 → Type 0
Transaction A = Database → Result (Database × A)

infixl 5 ◌>>=◌ ◌>>◌
abbrev pub ◌>>=◌ : {A B : Type 0} → Transaction A → (A → Transaction B) → Transaction B
◌>>=◌ m f db = elim (m db) [ ok (db', a) ↦ f a db' | thrown e ↦ thrown e ]

abbrev pub ◌>>◌ : {B : Type 0} → Transaction (Unit {0}) → Transaction B → Transaction B
m >> k = m >>= λ _. k

abbrev pub return : {A : Type 0} → A → Transaction A
return a db = ok (db, a)

-- `TransactionRunner.run`: commit the final tables, or keep the tables as they were.
unfoldable pub run_transaction : {A : Type 0} → Transaction A → Database → Database × Result A
run_transaction t db = elim (t db) [ ok (db', a) ↦ (db', ok a) | thrown e ↦ (db, thrown e) ]

-- `resolveCorrelationId`.
unfoldable pub resolve_correlation_id : Option Text → Text → Text
resolve_correlation_id none event_id = event_id
resolve_correlation_id (some request_id) event_id = request_id

unfoldable pub audit : AuditEntry → Transaction (Unit {0})
audit entry db = ok (record db { audit_log = entry ∷ db.audit_log }, tt)

unfoldable pub enqueue : Queue → Event → Transaction (Unit {0})
enqueue queue event db = ok (
  record db {
    outbox =
        record {
          id = event.event_id;
          event_type = queue;
          payload = event;
          created_at = event.occurred_at;
          published = false;
        }
        ∷ db.outbox;
  },
  tt,
)

-- A step that may throw and writes nothing.
abbrev pub lift : {A : Type 0} → Result A → Transaction A
lift (ok a) db = ok (db, a)
lift (thrown e) db = thrown e

-- A read that may throw.
abbrev pub fetch : {A : Type 0} → (Database → Result A) → Transaction A
fetch f db = lift (f db) db
