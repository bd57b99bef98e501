-- ===== src/Flights/Open/Outcome.antt =====
-- What the opening of a flight leaves behind.
use booking_flight_system_mi.Base.{
  ℕ, ◌≡◌, refl, ◌⊎◌, inl, inr, Bool, true, false, Option, none, some, List, [], ◌∷◌, keep, length,
  ◌≤◌, Text, Result, ok, thrown, Bool-cases, Option-cases, arith,
}
use booking_flight_system_mi.Requests.{is_uuid}
use booking_flight_system_mi.Flights.Lifecycle.{
  StoredFlightStatus, FlightStatus, TransitionRejection, TransitionResult, allowed, rejected,
  effective_flight_status, transition_flight, is_bookable,
}
use booking_flight_system_mi.Store.{Database, FlightRow, find_flight, audit, run_transaction}
use booking_flight_system_mi.Flights.Open.{
  is_as_expected, set_flight_status, change_status, OpenFlightResult, opened, open_not_found,
  invalid_status, changed_meanwhile, Opening, opened_audit, opened_flight, after_change,
  open_transaction, may_open, open_found, open_flight, why_not,
}

abbrev pub is_opened : OpenFlightResult → Bool
is_opened (opened flight status) = true
is_opened _ = false

-- The primary key of the flights: a condition on an id selects at most one row.
abbrev pub UniqueFlights : List FlightRow → Type 0
UniqueFlights flights = (f : FlightRow) → length (keep (is_as_expected f.id f.status) flights) ≤ 1

-- What an attempt to open a flight leaves, by its answer.
pub data OpenOutcome (o : Opening) (id account_id : Text) (db db' : Database)
    : OpenFlightResult → Type 0 where
  now_open :
      (flight row : FlightRow)
      → find_flight id db.flights ≡ some flight
      → flight.status ≡ StoredFlightStatus.scheduled
      → is_bookable StoredFlightStatus.open_ flight.departure_at o.now ≡ true
      → keep (is_as_expected flight.id flight.status) (o.between db).flights ≡ row ∷ []
      → db'
        ≡ record (set_flight_status flight.id flight.status StoredFlightStatus.open_
            (o.between db)) {
              audit_log = opened_audit o account_id flight ∷ (o.between db).audit_log;
            }
      → OpenOutcome o id account_id db db' (opened_flight flight o.now)
  not_opened :
      (r : OpenFlightResult)
      → is_opened r ≡ false
      → (db' ≡ db) ⊎ (db' ≡ o.between db)
      → OpenOutcome o id account_id db db' r

allowed_bookable :
    (stored : StoredFlightStatus) (departure now : ℕ)
    → transition_flight
        (effective_flight_status stored departure now)
        FlightStatus.open_
        (record { departure_at = departure; now = now })
      ≡ allowed
    → (stored ≡ StoredFlightStatus.scheduled)
      × (is_bookable StoredFlightStatus.open_ departure now ≡ true)
unfolding transition_flight effective_flight_status is_bookable
allowed_bookable StoredFlightStatus.scheduled departure now e = (refl, ground arith)
allowed_bookable StoredFlightStatus.open_ departure now e = absurd (ground arith)
allowed_bookable StoredFlightStatus.cancelled departure now e = absurd (cc)

short_cases : {A : Type 0} (xs : List A) → length xs ≤ 1 → (xs ≡ []) ⊎ ((x : A) × (xs ≡ x ∷ []))
short_cases [] h = inl refl
short_cases (x ∷ []) h = inr (x, refl)
short_cases (x ∷ y ∷ xs) h = absurd (omega arith)

after_why-not_opened :
    (o : Opening) (account_id : Text) (flight : FlightRow) (found : Option FlightRow)
    (db : Database)
    → (r : OpenFlightResult) × (is_opened r ≡ false)
      × (after_change o account_id flight (why_not found) db ≡ ok (db, r))
unfolding after_change
after_why-not_opened o account_id flight none db = (open_not_found, refl, refl)
after_why-not_opened o account_id flight (some f) db =
    (changed_meanwhile (effective_flight_status f.status flight.departure_at o.now), refl, refl)

-- The transaction opens the flight as it was read, or writes nothing.
open_transaction-cases :
    (o : Opening) (account_id : Text) (flight : FlightRow) (db : Database)
    → UniqueFlights db.flights
    → ((row : FlightRow) × (keep (is_as_expected flight.id flight.status) db.flights ≡ row ∷ [])
        × (open_transaction o account_id flight db
            ≡ ok (
              record (set_flight_status flight.id flight.status StoredFlightStatus.open_ db) {
                audit_log = opened_audit o account_id flight ∷ db.audit_log;
              },
              opened_flight flight o.now,
            )))
      ⊎ ((r : OpenFlightResult) × (is_opened r ≡ false)
          × (open_transaction o account_id flight db ≡ ok (db, r)))
unfolding open_transaction change_status after_change audit
open_transaction-cases o account_id flight db unique =
    elim (short_cases (keep (is_as_expected flight.id flight.status) db.flights) (unique flight)) [
      | inr (row, e) ↦ inl (row, e, ground arith)
      | inl e ↦
          let (r, shut, told) =
            after_why-not_opened o account_id flight (find_flight flight.id db.flights) db in
          inr (r, shut, ground arith)
    ]

-- An answer of the code, on the tables that it leaves.
abbrev pub Answered : Opening → Text → Text → Database → Database × Result OpenFlightResult → Type 0
Answered o id account_id db (db', ok r) = OpenOutcome o id account_id db db' r
Answered o id account_id db (db', thrown e) = ⊥

open_found-rejected :
    (o : Opening) (account_id : Text) (flight : FlightRow) (db : Database)
    (reason : TransitionRejection)
    → may_open o flight ≡ rejected reason
    → open_found o account_id flight db ≡ (
      db,
      ok (invalid_status (effective_flight_status flight.status flight.departure_at o.now) reason),
    )
unfolding open_found
open_found-rejected o account_id flight db reason e = ground arith

open_found-allowed :
    (o : Opening) (account_id : Text) (flight : FlightRow) (db db' : Database)
    (r : OpenFlightResult)
    → may_open o flight ≡ allowed
    → open_transaction o account_id flight (o.between db) ≡ ok (db', r)
    → open_found o account_id flight db ≡ (db', ok r)
unfolding open_found run_transaction
open_found-allowed o account_id flight db db' r e h = ground arith

TransitionResult-cases :
    (t : TransitionResult)
    → (t ≡ allowed) ⊎ ((reason : TransitionRejection) × (t ≡ rejected reason))
TransitionResult-cases allowed = inl refl
TransitionResult-cases (rejected reason) = inr (reason, refl)

open_found-outcome :
    (o : Opening) (id account_id : Text) (flight : FlightRow) (db : Database)
    → UniqueFlights (o.between db).flights
    → find_flight id db.flights ≡ some flight
    → Answered o id account_id db (open_found o account_id flight db)
open_found-outcome o id account_id flight db unique found =
    elim (TransitionResult-cases (may_open o flight)) [
      | inr (reason, e) ↦
          rw (open_found-rejected o account_id flight db reason e) (not_opened _ refl (inl refl))
      | inl e ↦
          let (was, sells) = allowed_bookable flight.status flight.departure_at o.now e in
          elim (open_transaction-cases o account_id flight (o.between db) unique) [
            | inl (row, its, done) ↦
                rw (open_found-allowed o account_id flight db _ _ e done)
                  (now_open flight row found was sells its refl)
            | inr (r, no_open, done) ↦
                rw (open_found-allowed o account_id flight db _ r e done)
                  (not_opened r no_open (inr refl))
          ]
    ]

-- An attempt to open a flight always answers. It answers that the flight is open only if the row
-- was read as SCHEDULED more than an hour before the departure and had that status still when the
-- transaction began: then the row is stored as OPEN and is on sale at once, next to one audit entry.
-- With any other answer nothing is written. (Where flights are told apart by their id.)
pub open_flight-outcome :
    (o : Opening) (id account_id : Text) (db : Database)
    → UniqueFlights (o.between db).flights
    → Answered o id account_id db (open_flight o id account_id db)
unfolding open_flight
open_flight-outcome o id account_id db unique = elim (Bool-cases (is_uuid id)) [
  | inr n ↦ rw n (not_opened open_not_found refl (inl refl))
  | inl y ↦ elim (Option-cases (find_flight id db.flights)) [
    | inl missing ↦ rw (y, missing) (not_opened open_not_found refl (inl refl))
    | inr (flight, found) ↦
        rw (y, found) (open_found-outcome o id account_id flight db unique found)
  ]
]
