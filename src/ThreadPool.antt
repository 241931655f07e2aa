-- ===== src/ThreadPool.antt =====
-- threadpool.hpp and threadpool.cpp: the threads that run the tasks, their pausing and their number.
pub mod Steps
pub mod Threads
pub mod Drain
pub mod Future
use iot_drive.Shared.{
  ℕ, zero, suc, ◌+◌, ◌-◌, Bool, true, false, List, [], ◌∷◌, Option, none, some, ltb, ◌==◌,
  if◌then◌else◌,
}
use iot_drive.Queue.{Popped, push, pop_timed, popped, lock_timeout, stayed_empty}

-- A task of the users, or one of the two AdminTPTask: PauseTask and Kill.
pub data Task (A : Type 0) : Type 0 where
  user : A → Task A
  pause_task : Task A
  kill_pill : Task A

abbrev pub admin : ℕ
admin = 3

abbrev pub admin_stop : ℕ
admin_stop = 4

pub record Entry (A : Type 0) : Type 0 where
  pub task : Task A
  pub priority : ℕ

pub data Priority : Type 0 where
  low normal high : Priority

abbrev pub rank : Priority → ℕ
rank low = 0
rank normal = 1
rank high = 2

unfoldable pub compare_entries : {A : Type 0} → Entry A → Entry A → Bool
compare_entries a b = ltb a.priority b.priority

-- `idle` threads are in the loop of ThreadFunc, `pause_ready` ones wait in PauseTask.
pub record ThreadPool (A : Type 0) : Type 0 where
  pub idle : ℕ
  pub pause_ready : ℕ
  pub tasks_pq : List (Entry A)
  pub thread_num : ℕ
  pub resume : Bool
  -- The tasks of the users that have been run, newest first.
  pub done : List A

unfoldable pub new_pool : {A : Type 0} → ℕ → ThreadPool A
new_pool n = record {
  idle = n;
  pause_ready = 0;
  tasks_pq = [];
  thread_num = n;
  resume = false;
  done = [];
}

unfoldable pub admin_add_task : {A : Type 0} → Task A → ℕ → ThreadPool A → ThreadPool A
admin_add_task task priority p = record p {
  tasks_pq = push compare_entries (record { task = task; priority = priority }) p.tasks_pq;
}

-- The loops that add one task `n` times.
unfoldable pub add_times : {A : Type 0} → ℕ → Task A → ℕ → ThreadPool A → ThreadPool A
add_times zero task priority p = p
add_times (suc n) task priority p = add_times n task priority (admin_add_task task priority p)

unfoldable pub add_task : {A : Type 0} → A → Priority → ThreadPool A → ThreadPool A
add_task a priority p = admin_add_task (user a) (rank priority) p

-- Pause between its two waiting loops: the first one has seen no paused thread.
unfoldable pub pause : {A : Type 0} → ThreadPool A → ThreadPool A
pause p = add_times p.thread_num pause_task admin (record p { resume = false })

unfoldable pub resume_all : {A : Type 0} → ThreadPool A → ThreadPool A
resume_all p = record p { resume = true }

-- SetNumThreads: either loop starts at the old number, so one of them has nothing to do.
unfoldable pub set_num_threads : {A : Type 0} → ℕ → ThreadPool A → ThreadPool A
set_num_threads n p =
    record (add_times (p.thread_num - n) kill_pill admin_stop
      (record p { idle = p.idle + (n - p.thread_num) })) { thread_num = n }

-- One round of the loop of the destructor, which adds a pill for each thread before it joins them.
unfoldable pub add_pill : {A : Type 0} → ThreadPool A → ThreadPool A
add_pill p = add_times 1 kill_pill admin_stop p

unfoldable pub run_task : {A : Type 0} → Task A → ThreadPool A → ThreadPool A
run_task (user a) p = record p { done = a ∷ p.done }
run_task pause_task p = record p { idle = p.idle - 1; pause_ready = p.pause_ready + 1 }
run_task kill_pill p = p

-- A thread that has popped an entry runs it; Kill does nothing, but its priority ends the loop.
unfoldable pub run_entry : {A : Type 0} → Entry A → ThreadPool A → ThreadPool A
run_entry e p =
    let ran = run_task e.task p in
    if e.priority == admin_stop then record ran { idle = ran.idle - 1 } else ran

-- One round of ThreadFunc; `locked` says whether the queue's mutex was had within a second.
unfoldable pub thread_func : {A : Type 0} → Bool → ThreadPool A → ThreadPool A
thread_func locked p = elim (pop_timed locked p.tasks_pq) [
  | popped e rest ↦ run_entry e (record p { tasks_pq = rest })
  | stayed_empty ↦ p
  | lock_timeout ↦ p
]

-- The end of PauseTask.
unfoldable pub end_pause : {A : Type 0} → ThreadPool A → ThreadPool A
end_pause p = record p { idle = p.idle + 1; pause_ready = p.pause_ready - 1 }
