-- ===== src/Bookings/Repository/Rows/Held.antt =====
-- The test for a HELD row.
use booking_flight_system_mi.Base.{◌≡◌, refl, true}
use booking_flight_system_mi.Bookings.Lifecycle.{BookingStatus, held, confirmed, cancelled, expired}
use booking_flight_system_mi.Bookings.Repository.Rows.{is_held}

pub is_held-held : (status : BookingStatus) → is_held status ≡ true → status ≡ held
is_held-held held h = refl
is_held-held confirmed h = absurd (cc)
is_held-held cancelled h = absurd (cc)
is_held-held expired h = absurd (cc)
