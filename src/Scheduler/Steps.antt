-- ===== src/Scheduler/Steps.antt =====
-- The threads around the scheduler, one step at a time: callers of AddTask, who set the timer after
-- the lock is released, in two accesses: they read the time of the current task, and then set the
-- timer to it; the timer of the system, which expires; and the threads it starts.
use iot_drive.Shared.{ℕ, suc, ◌≡◌, List, [], ◌∷◌, ◌++◌, Option, none, some}
use iot_drive.Scheduler.{Time, Item, Scheduler, new_scheduler, enqueue, set_timer, thread_func}
use iot_drive.Scheduler.Times.{NotLater}

-- A task that has been executed, with the time for which it was added, and when it was.
pub record Run (A : Type 0) : Type 0 where
  pub item : Item A
  pub started : Time

-- `unarmed` callers of AddTask are between the unlock and SetTime, and `expired` threads of the
-- timer have not yet the lock. `added` and `runs` are what has happened, newest first.
pub record World (A : Type 0) : Type 0 where
  pub sched : Scheduler A
  pub unarmed : ℕ
  -- The times that callers have read in SetTime and not yet set the timer to.
  pub copied : List Time
  pub expired : ℕ
  pub clock : Time
  pub added : List (Item A)
  pub runs : List (Run A)

abbrev pub start : {A : Type 0} → Time → World A
start clock = record {
  sched = new_scheduler;
  unarmed = 0;
  copied = [];
  expired = 0;
  clock = clock;
  added = [];
  runs = [];
}

-- The run of the task that ThreadFunc executes.
abbrev pub note_run : {A : Type 0} → Option A → Time → Time → List (Run A) → List (Run A)
note_run none due clock runs = runs
note_run (some task) due clock runs =
    record { item = record { task = task; time = due }; started = clock } ∷ runs

pub data Step {A : Type 0} : World A → World A → Type 0 where
  adds :
      (w : World A) (i : Item A)
      → Step w
          (record w { sched = enqueue i w.sched; unarmed = suc w.unarmed; added = i ∷ w.added })
  copies :
      (w : World A) (n : ℕ)
      → w.unarmed ≡ suc n
      → Step w (record w { unarmed = n; copied = w.sched.current_time ∷ w.copied })
  arms :
      (w : World A) (front back : List Time) (t : Time)
      → w.copied ≡ front ++ t ∷ back
      → Step w (record w { sched = set_timer t w.sched; copied = front ++ back })
  expires :
      (w : World A) (t : Time)
      → w.sched.timer ≡ some t
      → NotLater t w.clock
      → Step w (record w { sched = record (w.sched) { timer = none }; expired = suc w.expired })
  wakes :
      (w : World A) (n : ℕ)
      → w.expired ≡ suc n
      → Step w (record w {
        sched = (thread_func w.sched).1;
        expired = n;
        runs = note_run (thread_func w.sched).0 w.sched.current_time w.clock w.runs;
      })
  passes : (w : World A) (t : Time) → NotLater w.clock t → Step w (record w { clock = t })

pub data Reachable {A : Type 0} (clock : Time) : World A → Type 0 where
  begins : Reachable clock (start clock)
  continues : (w w' : World A) → Reachable clock w → Step w w' → Reachable clock w'
