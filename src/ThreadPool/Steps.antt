-- ===== src/ThreadPool/Steps.antt =====
-- The calls of the pool's users and the rounds of its threads, in any order. A call is one step:
-- the tasks that Pause and SetNumThreads add one by one are added together.
use iot_drive.Shared.{ℕ, ◌<◌, ◌≡◌, Bool, true}
use iot_drive.ThreadPool.{
  ThreadPool, Priority, new_pool, add_task, pause, resume_all, set_num_threads, thread_func,
  end_pause,
}

pub data Step {A : Type 0} : ThreadPool A → ThreadPool A → Type 0 where
  adds : (p : ThreadPool A) (a : A) (priority : Priority) → Step p (add_task a priority p)
  pauses : (p : ThreadPool A) → p.pause_ready ≡ 0 → Step p (pause p)
  resumes : (p : ThreadPool A) → Step p (resume_all p)
  resizes : (p : ThreadPool A) (n : ℕ) → Step p (set_num_threads n p)
  works : (p : ThreadPool A) (locked : Bool) → 0 < p.idle → Step p (thread_func locked p)
  awakes : (p : ThreadPool A) → 0 < p.pause_ready → p.resume ≡ true → Step p (end_pause p)

pub data Reachable {A : Type 0} (n : ℕ) : ThreadPool A → Type 0 where
  begins : Reachable n (new_pool n)
  continues : (p q : ThreadPool A) → Reachable n p → Step p q → Reachable n q
