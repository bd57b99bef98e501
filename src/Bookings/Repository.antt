-- ===== src/Bookings/Repository.antt =====
-- api/src/bookings/postgres/postgres-booking-repository.ts: each method as a transaction on the
-- tables. A statement runs alone, on the rows that its locks let it see; `locked` says which rows
-- another transaction holds, where the statement skips those.
pub mod Seats
pub mod Hold
pub mod Rows
pub mod Change
pub mod Invariant
