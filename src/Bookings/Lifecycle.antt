-- ===== src/Bookings/Lifecycle.antt =====
-- api/src/bookings/booking-lifecycle.ts.
pub mod Laws
use booking_flight_system_mi.Base.{
  ℕ, ◌+◌, ◌-◌, ◌*◌, Bool, true, false, ◌&&◌, Option, none, some, leb, ltb, if◌then◌else◌, Result,
  ok, thrown, cancel_disagrees,
}

pub data BookingStatus : Type 0 where
  held confirmed cancelled expired : BookingStatus

unfoldable pub is_hold_lapsed : ℕ → ℕ → Bool
is_hold_lapsed hold_expires_at now = leb hold_expires_at now

unfoldable pub effective_booking_status : BookingStatus → Option ℕ → ℕ → BookingStatus
unfolding is_hold_lapsed
effective_booking_status held (some deadline) now =
    if is_hold_lapsed deadline now then expired else held
effective_booking_status status _ now = status

abbrev pub cancellation_window_ms : ℕ
cancellation_window_ms = 24 * 60 * 60 * 1000

-- For departures from 1970-01-02 on, which every flight of the system has.
abbrev pub cancellable_until : ℕ → ℕ
cancellable_until departure = departure - cancellation_window_ms

unfoldable pub is_cancellation_window_open : ℕ → ℕ → Bool
is_cancellation_window_open departure now = ltb now (cancellable_until departure)

pub data NotCancelled : Type 0 where
  already_cancelled : NotCancelled
  hold_expired : NotCancelled
  cancellation_window_closed : ℕ → NotCancelled

-- By the effective status.
classify_effective : BookingStatus → ℕ → ℕ → Result NotCancelled
unfolding is_cancellation_window_open
classify_effective cancelled departure now = ok already_cancelled
classify_effective expired departure now = ok hold_expired
classify_effective confirmed departure now =
    if is_cancellation_window_open departure now
    then thrown cancel_disagrees
    else ok (cancellation_window_closed (cancellable_until departure))
classify_effective held departure now = thrown cancel_disagrees

unfoldable pub classify_not_cancelled : BookingStatus → Option ℕ → ℕ → ℕ → Result NotCancelled
unfolding classify_effective effective_booking_status
classify_not_cancelled status hold_expires_at departure now =
    classify_effective (effective_booking_status status hold_expires_at now) departure now

-- The condition of `cancel()`'s UPDATE: a CONFIRMED booking more than 24 hours before departure,
-- or a HELD one before its deadline. A NULL deadline satisfies no comparison.
unfoldable pub cancel_condition : BookingStatus → Option ℕ → ℕ → ℕ → Bool
cancel_condition confirmed hold_expires_at departure now =
    ltb (now + cancellation_window_ms) departure
cancel_condition held (some deadline) departure now = ltb now deadline
cancel_condition _ _ departure now = false
