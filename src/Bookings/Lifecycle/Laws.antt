-- ===== src/Bookings/Lifecycle/Laws.antt =====
-- The read-time status, and the agreement of the cancel condition with its explanation.
use booking_flight_system_mi.Base.{ℕ, ◌≤◌, ◌≡◌, ◌≢◌, refl, Option, none, some, arith, not, is_ok}
use booking_flight_system_mi.Bookings.Lifecycle.{
  BookingStatus, held, confirmed, cancelled, expired, effective_booking_status,
  classify_not_cancelled, cancel_condition,
}

-- For a booking whose hold has a deadline, the condition of the UPDATE of `cancel()` holds exactly
-- when `classifyNotCancelled` throws: every booking that the UPDATE leaves alone gets a reason, and
-- no booking that it cancels would have got one.
pub cancel_condition-classify_not_cancelled :
    (status : BookingStatus) (deadline departure now : ℕ)
    → cancel_condition status (some deadline) departure now
      ≡ not (is_ok (classify_not_cancelled status (some deadline) departure now))
unfolding cancel_condition classify_not_cancelled
cancel_condition-classify_not_cancelled held deadline departure now = ground arith
cancel_condition-classify_not_cancelled confirmed deadline departure now = ground arith
cancel_condition-classify_not_cancelled cancelled deadline departure now = refl
cancel_condition-classify_not_cancelled expired deadline departure now = refl

-- While the stored status and the deadline of a booking stay, what readers see of it never goes
-- back: a booking that does not read as HELD at an instant reads the same at every later one, so a
-- hold that has lapsed stays lapsed, and no other status depends on the clock.
pub effective_booking_status_settled :
    (status : BookingStatus) (deadline : Option ℕ) (t u : ℕ)
    → t ≤ u
    → effective_booking_status status deadline t ≢ held
    → effective_booking_status status deadline u ≡ effective_booking_status status deadline t
unfolding effective_booking_status
effective_booking_status_settled held none t u h n = refl
effective_booking_status_settled held (some deadline) t u h n = ground arith
effective_booking_status_settled confirmed deadline t u h n = refl
effective_booking_status_settled cancelled deadline t u h n = refl
effective_booking_status_settled expired deadline t u h n = refl
