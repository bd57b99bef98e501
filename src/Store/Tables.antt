-- ===== src/Store/Tables.antt =====
-- The rows of the tables (the entities and migrations under api/src). An id is the text of its
-- UUID; an instant is a number of milliseconds since 1970.
use booking_flight_system_mi.Base.{ℕ, List, Option, Text}
use booking_flight_system_mi.Money.{Money}
use booking_flight_system_mi.Aircraft.Position.{SeatPosition}
use booking_flight_system_mi.Flights.Lifecycle.{StoredFlightStatus}
use booking_flight_system_mi.Bookings.Lifecycle.{BookingStatus}

pub data FareClass : Type 0 where
  economy business : FareClass

pub record FlightRow : Type 0 where
  pub id : Text
  pub flight_number : Text
  pub departure_at : ℕ
  pub status : StoredFlightStatus

pub record FareRow : Type 0 where
  pub flight_id : Text
  pub fare_class : FareClass
  pub amount_vnd : ℕ

pub data SeatStatus : Type 0 where
  available seat_held booked : SeatStatus

pub record SeatRow : Type 0 where
  pub flight_id : Text
  pub position : SeatPosition
  pub fare_class : FareClass
  pub status : SeatStatus
  pub booking_id : Option Text

pub record BookingRow : Type 0 where
  pub id : Text
  pub reference : Text
  pub flight_id : Text
  pub owner_account_id : Text
  pub status : BookingStatus
  pub created_at : ℕ
  pub hold_expires_at : Option ℕ

pub record PassengerRow : Type 0 where
  pub booking_id : Text
  pub position : ℕ
  pub name : Text
  pub seat : Option SeatPosition
  pub fare_class : Option FareClass
  pub price_vnd : Option ℕ

pub data PaymentStatus : Type 0 where
  processing succeeded failed refund_pending refunded refund_failed : PaymentStatus

-- The row, which `mapPayment` turns into a `Payment` with the same fields.
pub record Payment : Type 0 where
  pub id : Text
  pub booking_id : Text
  pub account_id : Text
  pub amount : Money
  pub status : PaymentStatus
  pub provider_reference : Option Text
  pub failure_reason : Option Text
  pub payment_method_token : Option Text
  pub attempts : ℕ
  pub next_attempt_at : Option ℕ
  pub created_at : ℕ
  pub updated_at : ℕ

-- A passenger and a booking as the use cases see them.
pub record BookingPassenger : Type 0 where
  pub name : Text
  pub seat : Option Text
  pub fare_class : Option FareClass
  pub price : Option Money

pub record Booking : Type 0 where
  pub id : Text
  pub reference : Text
  pub flight_id : Text
  pub owner_account_id : Text
  pub passengers : List BookingPassenger
  pub total : Money
  pub created_at : ℕ
  pub status : BookingStatus
  pub hold_expires_at : Option ℕ

-- Whose bookings a caller may see or change.
pub data BookingAccessScope : Type 0 where
  owner : Text → BookingAccessScope
  admin : BookingAccessScope

pub record HeldSeat : Type 0 where
  pub seat : Text
  pub fare_class : FareClass
  pub price : Money

-- The final answer to a payment request, kept with its idempotency key.
pub data NotPayableReason : Type 0 where
  not_held under_margin refunded_meanwhile : NotPayableReason

pub data ResponseBody : Type 0 where
  confirmed_body : Payment → Booking → ResponseBody
  declined_body : Text → ResponseBody
  not_payable_body : NotPayableReason → ResponseBody
  not_found_body : ResponseBody

pub record StoredResponse : Type 0 where
  pub status : ℕ
  pub body : ResponseBody

pub data KeyStatus : Type 0 where
  in_progress completed : KeyStatus

pub record KeyRow : Type 0 where
  pub account_id : Text
  pub operation : Text
  pub key : Text
  pub request_fingerprint : Text
  pub status : KeyStatus
  pub response : Option StoredResponse
  pub payment_id : Option Text
  pub created_at : ℕ
  pub completed_at : Option ℕ
