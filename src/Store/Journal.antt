-- ===== src/Store/Journal.antt =====
-- What a transaction writes beside its business rows: the audit log
-- (api/src/audit/audit-recorder.ts) and the outbox (api/src/outbox/outbox-repository.ts), whose
-- payloads are the events of packages/contracts/src.
use booking_flight_system_mi.Base.{ℕ, Bool, List, Option, Text}
use booking_flight_system_mi.Money.{Money}
use booking_flight_system_mi.Store.Tables.{FareClass}

pub data AuditActor : Type 0 where
  account_actor : Text → AuditActor
  system_actor : Text → AuditActor

pub data AuditTarget : Type 0 where
  flight_target booking_target airport_target aircraft_target payment_target : Text → AuditTarget

pub data AuditAction : Type 0 where
  flight_created flight_opened booking_created booking_cancelled booking_expired : AuditAction
  booking_confirmed booking_seat_changed payment_failed payment_refund_pending : AuditAction
  payment_refunded payment_refund_failed airport_registered aircraft_registered : AuditAction

-- A flat value; `instant` is the ISO text of an instant.
pub data AuditValue : Type 0 where
  text_value : Text → AuditValue
  number_value instant_value : ℕ → AuditValue
  null_value : AuditValue

pub record AuditEntry : Type 0 where
  pub id : Text
  pub action : AuditAction
  pub actor : AuditActor
  pub target : AuditTarget
  pub request_id : Option Text
  pub occurred_at : ℕ
  pub metadata : List (Text × AuditValue)

pub record EventPassenger : Type 0 where
  pub name : Text
  pub seat : Text
  pub fare_class : FareClass
  pub price : Money

pub record StartedRefund : Type 0 where
  pub payment_id : Text
  pub amount : Money

-- The parts of an event that depend on its type.
pub data EventBody : Type 0 where
  held_event :
      (id reference flight_id : Text) (created_at hold_expires_at : ℕ)
      → List EventPassenger
      → Money
      → EventBody
  cancelled_event : (id reference flight_id : Text) → List Text → Option StartedRefund → EventBody
  expired_event : (id reference flight_id : Text) (hold_expires_at : ℕ) → List Text → EventBody
  confirmed_event :
      (id reference flight_id : Text)
      → List EventPassenger
      → Money
      → (payment_id : Text) → Money
      → EventBody

pub record Event : Type 0 where
  pub event_id : Text
  pub correlation_id : Text
  pub occurred_at : ℕ
  pub body : EventBody

pub data Queue : Type 0 where
  booking_held_queue booking_cancelled_queue booking_expired_queue : Queue
  booking_confirmed_queue : Queue

pub record OutboxRow : Type 0 where
  pub id : Text
  pub event_type : Queue
  pub payload : Event
  pub created_at : ℕ
  pub published : Bool
