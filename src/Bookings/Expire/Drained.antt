-- ===== src/Bookings/Expire/Drained.antt =====
-- A run that was not stopped at its limit leaves no hold that is due.
use booking_flight_system_mi.Base.{
  ℕ, zero, suc, ◌+◌, ◌<◌, ◌≡◌, refl, ap, subst, Bool, true, false, List, [], ◌∷◌, length,
  length-map, take, keep, any, sort_by, insert_by, update_where, IsIn, All, All-IsIn, All-imp,
  Bool-cases, inl, inr, ◌⊎◌, same, same_refl, ok, arith,
}
use booking_flight_system_mi.Store.{Database, BookingRow, run_transaction, audit, enqueue}
use booking_flight_system_mi.Bookings.Lifecycle.{expired}
use booking_flight_system_mi.Bookings.Repository.Rows.{
  ExpiredHold, is_due, due_holds, is_one_of, deadline_leb, expire_due_holds,
}
use booking_flight_system_mi.Bookings.Repository.Invariant.{Consistent}
use booking_flight_system_mi.Bookings.Repository.Invariant.Preserved.{expire_due_holds-Consistent}
use booking_flight_system_mi.Jobs.Batches.{
  BatchRun, run_batches-last, run_batches_ok, run_batches_inv,
}
use booking_flight_system_mi.Bookings.Expire.{
  Expiring, announce_expired, expire_step, expire_batch, expire_holds,
}

take_short : {A : Type 0} (n : ℕ) (xs : List A) → length (take n xs) < n → take n xs ≡ xs
take_short zero xs h = absurd (omega arith)
take_short (suc n) [] h = refl
take_short (suc n) (x ∷ xs) h = ap (λ l. x ∷ l) (take_short n xs (omega arith))

any-keep :
    {A : Type 0} (p q : A → Bool) (a : A) (xs : List A)
    → p a ≡ true
    → q a ≡ true
    → IsIn a xs
    → any p (keep q xs) ≡ true
any-keep p q a [] h k i = absurd i
any-keep p q a (x ∷ xs) h k (inl e) =
    let here : q x ≡ true = subst (λ y. q y ≡ true) e k in
    let there : p x ≡ true = subst (λ y. p y ≡ true) e h in rw (here, there) refl
any-keep p q a (x ∷ xs) h k (inr i) =
    let rest = any-keep p q a xs h k i in
    elim (Bool-cases (q x)) [
      | inl y ↦ elim (Bool-cases (p x)) [ inl z ↦ rw (y, z) refl | inr z ↦ rw (y, z) rest ]
      | inr n ↦ rw n rest
    ]

any-insert_by :
    {A : Type 0} (le : A → A → Bool) (p : A → Bool) (a : A) (xs : List A)
    → any p (a ∷ xs) ≡ true
    → any p (insert_by le a xs) ≡ true
unfolding insert_by
any-insert_by le p a [] h = h
any-insert_by le p a (x ∷ xs) h = elim (Bool-cases (le a x)) [
  | inl y ↦ rw y h
  | inr n ↦ elim (Bool-cases (p x)) [
    | inl z ↦ rw (n, z) refl
    | inr z ↦ rw (n, z) (any-insert_by le p a xs (ground arith))
  ]
]

any-sort_by :
    {A : Type 0} (le : A → A → Bool) (p : A → Bool) (xs : List A)
    → any p xs ≡ true
    → any p (sort_by le xs) ≡ true
unfolding sort_by
any-sort_by le p [] h = h
any-sort_by le p (x ∷ xs) h =
    any-insert_by le p x (sort_by le xs) (elim (Bool-cases (p x)) [
      | inl y ↦ rw y refl
      | inr n ↦ rw n (any-sort_by le p xs (rw n at h))
    ])

keep-none :
    {A : Type 0} (p sel : A → Bool) (f : A → A) (xs : List A)
    → All (λ x. p x ≡ true → sel x ≡ true) xs
    → ((x : A) → p (f x) ≡ false)
    → keep p (update_where sel f xs) ≡ []
keep-none p sel f [] h out = refl
keep-none p sel f (x ∷ xs) h out = elim (Bool-cases (sel x)) [
  | inl y ↦ rw (y, out x) (keep-none p sel f xs h.1 out)
  | inr n ↦ elim (Bool-cases (p x)) [
    | inl y ↦ absurd (ground (arith, h.0 y))
    | inr m ↦ rw (n, m) (keep-none p sel f xs h.1 out)
  ]
]

expired_not_due :
    (now : ℕ) (locked : BookingRow → Bool) (b : BookingRow)
    → is_due now locked (record b { status = expired }) ≡ false
unfolding is_due
expired_not_due now locked b = refl

-- A short batch has taken every hold that was due.
short_batch :
    (now limit : ℕ) (locked : BookingRow → Bool) (db : Database)
    → length (expire_due_holds now limit locked db).1 < limit
    → keep (is_due now locked) (expire_due_holds now limit locked db).0.bookings ≡ []
unfolding expire_due_holds due_holds is_one_of
short_batch now limit locked db h =
    let due = keep (is_due now locked) db.bookings in
    let all : take limit (sort_by deadline_leb due) ≡ sort_by deadline_leb due =
      take_short limit (sort_by deadline_leb due)
        (omega (arith, length-map {0, 0} _ (take limit (sort_by deadline_leb due)))) in
    keep-none (is_due now locked) _ (λ b. record b { status = expired }) db.bookings
      (rw all (
        All-imp
          (λ b i y.
            any-sort_by deadline_leb (λ d. same d.id b.id) due
              (any-keep (λ d. same d.id b.id) (is_due now locked) b db.bookings (same_refl b.id) y
                i))
          db.bookings (All-IsIn db.bookings)))
      (expired_not_due now locked)

-- The journal of a batch changes no booking.
announce_expired-ok :
    (x : Expiring) (number place : ℕ) (holds : List ExpiredHold) (db : Database)
    → (db' : Database) × (announce_expired x number place holds db ≡ ok (db', tt))
      × (db'.bookings ≡ db.bookings)
      × (db'.seats ≡ db.seats)
unfolding announce_expired audit enqueue
announce_expired-ok x number place [] db = (db, refl, refl, refl)
announce_expired-ok x number place (hold ∷ holds) db =
    announce_expired-ok x number (suc place) holds _

-- A batch never throws: it leaves the bookings and seats of `expireDueHolds`, and its count.
expire_batch-final :
    (x : Expiring) (number : ℕ) (db : Database)
    → let (held, holds) = expire_due_holds x.now x.batch_size x.locked db in
      ((expire_batch x number db).1 ≡ ok (length holds, length holds))
      × ((expire_batch x number db).0.bookings ≡ held.bookings)
      × ((expire_batch x number db).0.seats ≡ held.seats)
unfolding expire_batch run_transaction expire_step
expire_batch-final x number db =
    let (held, holds) = expire_due_holds x.now x.batch_size x.locked db in
    let (db', e, bookings, seats) = announce_expired-ok x number 0 holds held in
    (ground arith, ground arith, ground arith)

-- The transaction of a batch, if it commits, keeps the seats in agreement with the bookings.
pub expire_step-Consistent :
    (x : Expiring) (number : ℕ) (db db' : Database) (found : ℕ × ℕ)
    → expire_step x number db ≡ ok (db', found)
    → Consistent db
    → Consistent db'
unfolding expire_batch run_transaction
expire_step-Consistent x number db db' found e h =
    let (_, bookings, seats) = expire_batch-final x number db in
    let final : (expire_batch x number db).0 ≡ db' = ground arith in
    subst Consistent final
      (rw (bookings, seats) (expire_due_holds-Consistent x.now x.batch_size x.locked db h))

expire_batch-Consistent :
    (x : Expiring) (number : ℕ) (db : Database)
    → Consistent db
    → Consistent (expire_batch x number db).0
expire_batch-Consistent x number db h =
    let (_, bookings, seats) = expire_batch-final x number db in
    rw (bookings, seats) (expire_due_holds-Consistent x.now x.batch_size x.locked db h)

last_batch :
    (x : Expiring) (number : ℕ) (db : Database) (n count : ℕ)
    → (expire_batch x number db).1 ≡ ok (n, count)
    → count < x.batch_size
    → keep (is_due x.now x.locked) (expire_batch x number db).0.bookings ≡ []
last_batch x number db n count e less =
    let (told, bookings, _) = expire_batch-final x number db in
    let short : length (expire_due_holds x.now x.batch_size x.locked db).1 ≡ count = ground arith in
    rw bookings (short_batch x.now x.batch_size x.locked db (omega arith))

drained :
    (x : Expiring) (db : Database) (run : BatchRun ℕ)
    → (expire_holds x db).1 ≡ ok run
    → run.exhausted ≡ false
    → keep (is_due x.now x.locked) (expire_holds x db).0.bookings ≡ []
unfolding expire_holds
drained x db run e stopped =
    let (number, before, n, count, here, less, final) =
      run_batches-last ◌+◌ x.batch_size (expire_batch x) x.max_batches 0 0 db run e stopped in
    rw final (last_batch x number before n count here less)

-- From consistent tables, one run of the expiry job never throws and keeps the seats in agreement
-- with the bookings; and unless it was stopped at its limit of batches, no HELD booking is left whose deadline had passed
-- at the instant of the run, but for those that other transactions had locked.
pub expire_holds-drained :
    (x : Expiring) (db : Database)
    → Consistent db
    → (run : BatchRun ℕ) × ((expire_holds x db).1 ≡ ok run)
      × Consistent (expire_holds x db).0
      × ((run.exhausted ≡ true)
          ⊎ (keep (is_due x.now x.locked) (expire_holds x db).0.bookings ≡ []))
unfolding expire_holds
expire_holds-drained x db h =
    let (run, e) =
      run_batches_ok ◌+◌ x.batch_size (expire_batch x)
        (λ number d. (_, (expire_batch-final x number d).0)) x.max_batches 0 0 db in
    (
      run,
      e,
      run_batches_inv ◌+◌ x.batch_size (expire_batch x) Consistent (expire_batch-Consistent x)
          x.max_batches 0 0 db h,
      elim (Bool-cases run.exhausted) [
        | inl y ↦ inl y
        | inr stopped ↦ inr (drained x db run e stopped)
      ],
    )
