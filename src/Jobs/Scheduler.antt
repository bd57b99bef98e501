-- ===== src/Jobs/Scheduler.antt =====
-- api/src/jobs/in-memory-job-scheduler.ts: one state per registered job, with what the event loop
-- keeps for it. How long a timeout waits and what a run logs are left out.
pub mod Overlap
use booking_flight_system_mi.Base.{
  ℕ, zero, suc, Bool, true, false, not, Option, none, some, List, [], ◌∷◌, ◌++◌, map, keep, any,
  ◌==◌, if◌then◌else◌, All, get_elem?, ◌≡◌,
}

-- `timers` are the timeouts that have neither fired nor been cleared, `runs` the runs in progress;
-- `next` names them.
pub record Handle : Type 0 where
  pub timer : Option ℕ
  pub running : Option ℕ
  pub stopped : Bool
  pub timers : List ℕ
  pub runs : List ℕ
  pub next : ℕ

pub record Scheduler : Type 0 where
  pub started : Bool
  pub handles : List Handle

abbrev pub new_scheduler : Scheduler
new_scheduler = record { started = false; handles = [] }

abbrev pub new_handle : Handle
new_handle = record {
  timer = none;
  running = none;
  stopped = false;
  timers = [];
  runs = [];
  next = 0;
}

abbrev pub without : ℕ → List ℕ → List ℕ
without id = keep (λ other. not (other == id))

unfoldable pub register : Scheduler → Scheduler
register s = record s { handles = s.handles ++ new_handle ∷ [] }

unfoldable pub schedule_next : Handle → Handle
schedule_next h =
    if h.stopped
    then h
    else record h { timer = some h.next; timers = h.next ∷ h.timers; next = suc h.next }

-- The callback of the timeout `id`.
unfoldable pub fire : ℕ → Handle → Handle
fire id h =
    let fired = record h { timer = none; timers = without id h.timers } in
    if h.stopped
    then fired
    else record fired { running = some h.next; runs = h.next ∷ h.runs; next = suc h.next }

-- The end of the run `id`, whether its job threw or not.
unfoldable pub finish : ℕ → Handle → Handle
finish id h = schedule_next (record h { running = none; runs = without id h.runs })

abbrev pub start_handle : Handle → Handle
start_handle h = schedule_next (record h { stopped = false })

unfoldable pub start : Scheduler → Scheduler
start s = if s.started then s else record { started = true; handles = map start_handle s.handles }

abbrev clear : Option ℕ → Handle → Handle
clear none h = h
clear (some id) h = record h { timer = none; timers = without id h.timers }

unfoldable pub stop_handle : Handle → Handle
stop_handle h = clear h.timer (record h { stopped = true })

unfoldable pub stop : Scheduler → Scheduler
stop s = record { started = false; handles = map stop_handle s.handles }

abbrev pub at_handle : ℕ → (Handle → Handle) → List Handle → List Handle
at_handle n f [] = []
at_handle zero f (h ∷ hs) = f h ∷ hs
at_handle (suc n) f (h ∷ hs) = h ∷ at_handle n f hs

-- What can happen next. A start waits for the runs in progress, as the promise of `stop` does.
pub data Step (s : Scheduler) : Scheduler → Type 0 where
  registers : Step s (register s)
  starts : All (λ h. h.runs ≡ []) s.handles → Step s (start s)
  stops : Step s (stop s)
  fires :
      (n id : ℕ) (h : Handle)
      → get_elem? s.handles n ≡ some h
      → any (λ t. t == id) h.timers ≡ true
      → Step s (record s { handles = at_handle n (fire id) s.handles })
  finishes :
      (n id : ℕ) (h : Handle)
      → get_elem? s.handles n ≡ some h
      → any (λ r. r == id) h.runs ≡ true
      → Step s (record s { handles = at_handle n (finish id) s.handles })

-- A life of the scheduler, from the start of the process.
pub data Life : Scheduler → Type 0 where
  created : Life new_scheduler
  then : {s s' : Scheduler} → Life s → Step s s' → Life s'
