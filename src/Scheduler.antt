-- ===== src/Scheduler.antt =====
-- scheduler.hpp and scheduler.cpp: tasks that run at their times, with one timer of the system;
-- and the AI of ai.cpp, a task that adds itself again until its function is done.
pub mod Times
pub mod Steps
pub mod Armed
pub mod Kept
pub mod Early
pub mod Late
use iot_drive.Shared.{
  ℕ, ◌+◌, ◌*◌, ◌/◌, ◌%◌, Bool, true, false, not, ◌&&◌, ◌||◌, List, [], ◌∷◌, Option, none, some, ltb,
  ◌==◌, if◌then◌else◌,
}
use iot_drive.Queue.{push, pop, is_empty}

-- `it_value` of the itimerspec; its interval is zero.
pub record Time : Type 0 where
  pub sec : ℕ
  pub nsec : ℕ

pub record Item (A : Type 0) : Type 0 where
  pub task : A
  pub time : Time

-- B_SEC_BIG(a, b) || (B_SEC_EQUAL(a, b) && B_NSEC_BIG(a, b)).
unfoldable pub earlier : Time → Time → Bool
earlier a b = ltb a.sec b.sec || (a.sec == b.sec && ltb a.nsec b.nsec)

-- The time `ms` milliseconds after the epoch.
unfoldable pub time_of : ℕ → Time
time_of ms = record { sec = ms / 1000; nsec = (ms % 1000) * 1000000 }

unfoldable pub comparator : {A : Type 0} → Item A → Item A → Bool
comparator a b = not (earlier a.time b.time)

-- `m_currentTask` has a null task (none) and its last time, or a task. `timer` is the time that
-- the timer is set to, until it expires.
pub record Scheduler (A : Type 0) : Type 0 where
  pub current : Option A
  pub current_time : Time
  pub queue : List (Item A)
  pub timer : Option Time

unfoldable pub new_scheduler : {A : Type 0} → Scheduler A
new_scheduler = record {
  current = none;
  current_time = record { sec = 0; nsec = 0 };
  queue = [];
  timer = none;
}

-- timer_settime, where it succeeds.
unfoldable pub set_timer : {A : Type 0} → Time → Scheduler A → Scheduler A
set_timer t s = record s { timer = some t }

-- SetTime under the lock.
unfoldable pub set_time : {A : Type 0} → Scheduler A → Scheduler A
set_time s = record s { timer = some s.current_time }

unfoldable pub make_current : {A : Type 0} → Item A → Scheduler A → Scheduler A
make_current i s = record s { current = some i.task; current_time = i.time }

-- AddTask up to `lock.unlock()`; SetTime follows outside of the lock.
unfoldable pub enqueue : {A : Type 0} → Item A → Scheduler A → Scheduler A
enqueue i s = elim (s.current) [
  | none ↦ make_current i s
  | some task ↦
      if earlier s.current_time i.time
      then record s { queue = push comparator i s.queue }
      else make_current i (record s {
        queue = push comparator (record { task = task; time = s.current_time }) s.queue;
      })
]

-- The item of AddTask(task, delta) at `now`.
unfoldable pub item_after : {A : Type 0} → ℕ → ℕ → A → Item A
item_after now delta task = record { task = task; time = time_of (now + delta) }

-- ThreadFunc up to the call of Execute: the task to execute, if any.
unfoldable pub thread_func : {A : Type 0} → Scheduler A → Option A × Scheduler A
thread_func s = elim (s.current) [
  | none ↦ (none, s)
  | some task ↦ (
    some task,
    elim (pop s.queue) [
      | some (i, rest) ↦ set_time (make_current i (record s { queue = rest }))
      | none ↦ record s { current = none }
    ],
  )
]

-- AI::Perform with the result of its function: the item to add again, if it is not done.
unfoldable pub perform : {A : Type 0} → Bool → ℕ → ℕ → A → Option (Item A)
perform true now time_to_check ai_task = none
perform false now time_to_check ai_task = some (item_after now time_to_check ai_task)
