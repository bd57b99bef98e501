-- ===== src/Tests.antt =====
-- A sample run of the program, and the theorems applied to it.
mod Sample
mod Paid
mod Later
mod Booked
mod Settled
mod Runs
mod Rules
mod Inputs
mod Jobs
