-- ===== src/Bookings.antt =====
-- api/src/bookings: bookings, their seats, and the use cases on them.
pub mod Lifecycle
pub mod Repository
pub mod Validation
pub mod Create
pub mod Cancel
pub mod Reseat
pub mod Expire
