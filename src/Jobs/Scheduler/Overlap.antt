-- ===== src/Jobs/Scheduler/Overlap.antt =====
-- The runs of a job do not overlap.
use booking_flight_system_mi.Base.{
  ℕ, zero, suc, ◌+◌, ◌≤◌, ◌≡◌, refl, sym, subst, ◌⊎◌, inl, inr, Bool, true, false, none, some, List,
  [], ◌∷◌, map, length, any, ◌==◌, All, All-append, All-imp, get_elem?, Bool-cases, arith,
}
use booking_flight_system_mi.Jobs.Scheduler.{
  Handle, Scheduler, new_handle, without, register, schedule_next, fire, finish, start_handle,
  start, stop_handle, stop, at_handle, Step, registers, starts, stops, fires, finishes, Life,
  created, then,
}

-- A job does nothing, waits for its timeout, or runs.
data HandleOk (started : Bool) (h : Handle) : Type 0 where
  idle : h.timers ≡ [] → h.runs ≡ [] → h.timer ≡ none → HandleOk started h
  waiting :
      (id : ℕ)
      → started ≡ true
      → h.timers ≡ id ∷ []
      → h.runs ≡ []
      → h.timer ≡ some id
      → HandleOk started h
  busy :
      (id : ℕ)
      → (started ≡ true) ⊎ (h.stopped ≡ true)
      → h.timers ≡ []
      → h.runs ≡ id ∷ []
      → h.timer ≡ none
      → HandleOk started h

without_itself : (id : ℕ) → without id (id ∷ []) ≡ []
without_itself id = ground arith

schedule_next_ok :
    (h : Handle)
    → h.timers ≡ []
    → h.runs ≡ []
    → h.timer ≡ none
    → (started : Bool) → (started ≡ true) ⊎ (h.stopped ≡ true)
    → HandleOk started (schedule_next h)
unfolding schedule_next
schedule_next_ok h t r n started w = elim (Bool-cases h.stopped) [
  | inl y ↦ idle (ground arith) (ground arith) (ground arith)
  | inr m ↦ waiting h.next (ground arith) (ground arith) (ground arith) (ground arith)
]

fire_ok :
    (started : Bool) (id : ℕ) (h : Handle)
    → any (λ t. t == id) h.timers ≡ true
    → HandleOk started h
    → HandleOk started (fire id h)
unfolding fire
fire_ok started id h i (idle t r n) = absurd (ground arith)
fire_ok started id h i (busy run w t r n) = absurd (ground arith)
fire_ok started id h i (waiting timer on t r n) =
    let its : timer ≡ id = ground arith in
    let cleared : without id h.timers ≡ [] = rw (t, its) (without_itself id) in
    elim (Bool-cases h.stopped) [
      | inl y ↦ idle (ground arith) (ground arith) (ground arith)
      | inr m ↦ busy h.next (inl on) (ground arith) (ground arith) (ground arith)
    ]

finish_ok :
    (started : Bool) (id : ℕ) (h : Handle)
    → any (λ r. r == id) h.runs ≡ true
    → HandleOk started h
    → HandleOk started (finish id h)
unfolding finish
finish_ok started id h i (idle t r n) = absurd (ground arith)
finish_ok started id h i (waiting timer on t r n) = absurd (ground arith)
finish_ok started id h i (busy run w t r n) =
    let its : run ≡ id = ground arith in
    let over : without id h.runs ≡ [] = rw (r, its) (without_itself id) in
    schedule_next_ok (record h { running = none; runs = without id h.runs }) t over n started w

stop_handle_ok : (started : Bool) (h : Handle) → HandleOk started h → HandleOk false (stop_handle h)
unfolding stop_handle
stop_handle_ok started h (idle t r n) = idle (ground arith) (ground arith) (ground arith)
stop_handle_ok started h (waiting id on t r n) =
    let cleared : without id h.timers ≡ [] = rw t (without_itself id) in
    idle (ground arith) (ground arith) (ground arith)
stop_handle_ok started h (busy run w t r n) =
    busy run (inr (ground arith)) (ground arith) (ground arith) (ground arith)

start_handle_ok : (h : Handle) → h.runs ≡ [] → HandleOk false h → HandleOk true (start_handle h)
start_handle_ok h quiet (idle t r n) =
    schedule_next_ok (record h { stopped = false }) t r n true (inl refl)
start_handle_ok h quiet (waiting id on t r n) = absurd (cc)
start_handle_ok h quiet (busy run w t r n) = absurd (cc)

All-map :
    {A : Type 0} (P Q : A → Type 0) (f : A → A)
    → ((a : A) → P a → Q (f a))
    → (xs : List A) → All P xs
    → All Q (map f xs)
All-map P Q f k [] h = tt
All-map P Q f k (x ∷ xs) h = (k x h.0, All-map P Q f k xs h.1)

All-both :
    {A : Type 0} (P Q : A → Type 0) (xs : List A) → All P xs → All Q xs → All (λ a. P a × Q a) xs
All-both P Q [] h k = tt
All-both P Q (x ∷ xs) h k = ((h.0, k.0), All-both P Q xs h.1 k.1)

All-at_handle :
    (P : Handle → Type 0) (n : ℕ) (f : Handle → Handle) (h : Handle) (hs : List Handle)
    → get_elem? hs n ≡ some h
    → (P h → P (f h))
    → All P hs
    → All P (at_handle n f hs)
All-at_handle P n f h [] e k a = a
All-at_handle P zero f h (g ∷ hs) e k a =
    let its : h ≡ g = ground arith in (subst (λ x. P (f x)) its (k (subst P (sym its) a.0)), a.1)
All-at_handle P (suc n) f h (g ∷ hs) e k a = (a.0, All-at_handle P n f h hs e k a.1)

start_ok :
    (s : Scheduler)
    → All (λ h. h.runs ≡ []) s.handles
    → All (HandleOk s.started) s.handles
    → All (HandleOk (start s).started) (start s).handles
unfolding start
start_ok s quiet a = elim (Bool-cases s.started) [
  | inl y ↦ let kept : start s ≡ s = ground arith in rw kept a
  | inr n ↦
      let begun : start s ≡ record { started = true; handles = map start_handle s.handles } =
        ground arith in
      rw begun (
        All-map (λ h. (h.runs ≡ []) × HandleOk false h) (HandleOk true) start_handle
          (λ h b. start_handle_ok h b.0 b.1) s.handles
          (All-both (λ h. h.runs ≡ []) (HandleOk false) s.handles quiet
            (subst (λ b. All (HandleOk b) s.handles) n a)))
]

Step-ok :
    {s s' : Scheduler}
    → Step s s'
    → All (HandleOk s.started) s.handles
    → All (HandleOk s'.started) s'.handles
unfolding register stop
Step-ok {s} {s'} registers a =
    All-append (HandleOk s.started) s.handles (new_handle ∷ []) a (idle refl refl refl, tt)
Step-ok {s} {s'} (starts quiet) a = start_ok s quiet a
Step-ok {s} {s'} stops a =
    All-map (HandleOk s.started) (HandleOk false) stop_handle (stop_handle_ok s.started) s.handles a
Step-ok {s} {s'} (fires n id h e i) a =
    All-at_handle (HandleOk s.started) n (fire id) h s.handles e (fire_ok s.started id h i) a
Step-ok {s} {s'} (finishes n id h e i) a =
    All-at_handle (HandleOk s.started) n (finish id) h s.handles e (finish_ok s.started id h i) a

Life-ok : {s : Scheduler} → Life s → All (HandleOk s.started) s.handles
Life-ok created = tt
Life-ok (then life step) = Step-ok step (Life-ok life)

-- A job has at most one timeout or run, and none but a run in progress once it is stopped.
abbrev pub NoOverlap : Bool → Handle → Type 0
NoOverlap started h = (length h.timers + length h.runs ≤ 1) × ((started ≡ true) ⊎ (h.timers ≡ []))

ok-NoOverlap : (started : Bool) (h : Handle) → HandleOk started h → NoOverlap started h
ok-NoOverlap started h (idle t r n) = (rw (t, r) (omega arith), inr t)
ok-NoOverlap started h (waiting id on t r n) = (rw (t, r) (omega arith), inl on)
ok-NoOverlap started h (busy run w t r n) = (rw (t, r) (omega arith), inr t)

-- Through every life of the scheduler in which a start waits for the runs in progress: no job ever
-- has two timeouts or runs, or one of each, so its runs do not overlap; and while the scheduler is
-- not started no timeout is pending.
pub Life-NoOverlap : {s : Scheduler} → Life s → All (NoOverlap s.started) s.handles
Life-NoOverlap {s} life = All-imp (ok-NoOverlap s.started) s.handles (Life-ok life)
