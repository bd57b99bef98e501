-- ===== src/Lib.antt =====
-- The booking system: the API that sells seats on flights (api/src), modelled from its tables up.
--
-- A request is validated, holds seats for 15 minutes in one transaction, and is paid in three phases:
-- a payment is started in a transaction, the gateway is called outside of any, and a second
-- transaction settles what the gateway answered. Jobs expire the holds that lapse, finish the payments
-- that a request could not, delete old keys, and send the outbox to the broker. Every transaction writes
-- its audit entries and its outbox events together with the rows it changes.
--
-- The parts, and where they are modelled:
-- - Base: lists, texts, Boolean tests and computations that may throw, shared by all parts.
-- - Money: api/src/money/money.ts. vnd, addMoney, sumMoney and parseVndFromDatabase are vnd,
--   add_money, sum_money and parse_vnd_from_database.
-- - Aircraft.Position: api/src/aircraft/seat-position.ts.
-- - Flights.Lifecycle: api/src/flights/flight-lifecycle.ts and postgres/on-sale-sql.ts beside it.
-- - Bookings.Lifecycle: api/src/bookings/booking-lifecycle.ts.
-- - Requests: api/src/validation.ts and the issues of api/src/types.ts; a body is a JSON value.
-- - Bookings.Validation: api/src/bookings/booking-validation.ts.
-- - Store: the tables (Store.Tables), the audit log and the outbox (Store.Journal), and transactions on
--   them (Store.Transactions), which are functions that may throw; a throw rolls back.
-- - Bookings.Repository: api/src/bookings/postgres/postgres-booking-repository.ts. Seats has the shared
--   statements on seats, Hold is holdSeats, Rows has create, cancel, expireDueHolds, confirmHold and
--   the lookups, Change is changeSeat.
-- - Bookings.Create: api/src/bookings/create-booking.ts.
-- - Bookings.Cancel: api/src/bookings/cancel-booking.ts, and Bookings.Reseat: change-seat.ts beside it.
-- - Bookings.Expire: api/src/bookings/expire-holds.ts.
-- - Aircraft.Layout: api/src/aircraft/seat-layout.ts. Limits, Distinct and Accepted are about the
--   accepted layouts.
-- - Pagination: api/src/pagination.ts.
-- - Flights.Open: api/src/flights/open-flight.ts, with changeStatus of the flight repository.
-- - Outbox: api/src/outbox/outbox-relay-job.ts and the repository it reads, over any publisher. The
--   publication of an entry and the UPDATE that marks it can each fail.
-- - Jobs.Scheduler: api/src/jobs/in-memory-job-scheduler.ts, with the timeouts and runs that the event
--   loop keeps for each job.
-- - Jobs.Batches: the loop over batches that the expiry, the key cleanup and the reconciliation share.
-- - Payments.Repository: api/src/payments/postgres/postgres-payment-repository.ts.
-- - Payments.Keys: api/src/idempotency/postgres/postgres-idempotency-repository.ts.
-- - Payments.Settle: api/src/payments/settle-payment.ts and payment-response.ts.
-- - Payments.Pay: api/src/payments/pay-for-booking.ts.
-- - Payments.Gateway: the port api/src/payments/payment-gateway.ts as a record of operations and laws,
--   with simulated-payment-gateway.ts as one gateway that has them (Simulated, Charges, Promise, Once).
-- - Payments.Reconcile: api/src/payments/reconcile-payments.ts, for any such gateway, whose calls may
--   also throw.
-- - Payments.Validation: api/src/payments/payment-validation.ts.
-- - Payments.Cleanup: api/src/idempotency/cleanup-idempotency-keys.ts.
-- - System: histories of committed transactions; the runs of the jobs are such histories (System.Runs).
-- - Tests: a sample run, and the theorems applied to it.
--
-- How the code corresponds to the model. An instant is a number of milliseconds since 1970, an id is
-- the text of its UUID, an amount is a natural number of dong. An SQL statement is a function on the
-- lists of rows; a transaction runs alone on the tables, as row locks make concurrent ones do, and what
-- other transactions hold at that time comes in as the argument `locked` of the statements with SKIP
-- LOCKED. Generated ids, drawn references and the clock are arguments; so are the answer of the gateway
-- to a request, and whether a call of the simulated gateway gets through before its timeout. The
-- gateway calls of one batch of the reconciliation, which overlap in the code, are made one after
-- another in the order of the claim. A claim of an idempotency key takes what other transactions do to
-- the keys between its two statements.
--
-- Bounds: the five attempts to draw a reference and the three to claim a key are those of the code,
-- which throws after them; a run of a job has the code's own limit of batches. No other loop needs fuel.
--
-- Not modelled: the creation and the search of flights, the registration of aircraft and airports, the
-- listings, authentication, the contracts of the events and the services that consume them; the HTTP
-- layer, configuration and logging; the messages of validation issues and the
-- JSON of answers; TypeORM, Postgres and RabbitMQ themselves. The subtractions in
-- cancellableUntil and in the cutoff of the key cleanup are read for instants after the first day of
-- 1970. Messages of log lines are left out.
pub mod Base
pub mod Money
pub mod Aircraft
pub mod Flights
pub mod Bookings
pub mod Store
pub mod Requests
pub mod Payments
pub mod Jobs
pub mod Pagination
pub mod Outbox
pub mod System
pub mod Tests
