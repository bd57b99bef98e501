-- ===== src/Flights.antt =====
-- api/src/flights: the lifecycle of a flight.
pub mod Lifecycle
pub mod Open
