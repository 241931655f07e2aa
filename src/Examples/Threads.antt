-- ===== src/Examples/Threads.antt =====
-- The scheduler and the thread pool.
use mathlib.Core.List.{Perm}
use iot_drive.Shared.{ℕ, some, List, All, ◌+◌, ◌≡◌, ◌≢◌, refl, true, false, ◌≤◌, [], ◌∷◌, arith}
use iot_drive.Scheduler.{Item, Time, earlier, time_of, item_after}
use iot_drive.Scheduler.Steps.{World, Reachable, start, begins, continues, adds}
use iot_drive.Scheduler.Armed.{IsWatched, Reachable-IsWatched}
use iot_drive.Scheduler.Kept.{IsOrdered, Reachable-IsOrdered, accounted, Reachable-accounted}
use iot_drive.Scheduler.Early.{runs_early}
use iot_drive.Scheduler.Late.{runs_late}
use iot_drive.Queue.{push, pop_timed}
use iot_drive.ThreadPool.{
  ThreadPool, new_pool, add_task, high, pause_task, add_pill, pause, add_times, admin_add_task,
  thread_func, run_entry, run_task,
}
use iot_drive.ThreadPool.Steps
use iot_drive.ThreadPool.Future
use iot_drive.ThreadPool.Future.{runs, gets}
use iot_drive.ThreadPool.Drain
use iot_drive.ThreadPool.Drain.{adds_pill, works, added, drain, rounds, rounds-drain}
use iot_drive.ThreadPool.Threads.{IsCounted, Reachable-IsCounted}

abbrev clock : Time
clock = record { sec = 1700000000; nsec = 0 }

abbrev soon : Item ℕ
soon = record { task = 1; time = clock }

abbrev later : Item ℕ
later = record { task = 2; time = record { sec = 1700000005; nsec = 0 } }

abbrev one_added : World ℕ
one_added = record (start clock) {
  sched = iot_drive.Scheduler.enqueue soon iot_drive.Scheduler.new_scheduler;
  unarmed = 1;
  added = soon ∷ [];
}

one_added-Reachable : Reachable clock one_added
one_added-Reachable = continues (start clock) _ begins (adds (start clock) soon)

Reachable-IsWatched_example : IsWatched one_added
Reachable-IsWatched_example = Reachable-IsWatched clock one_added one_added-Reachable

Reachable-IsOrdered_example : IsOrdered one_added.sched
Reachable-IsOrdered_example = Reachable-IsOrdered clock one_added one_added-Reachable

Reachable-accounted_example : Perm (accounted one_added) (soon ∷ [])
Reachable-accounted_example = Reachable-accounted clock one_added one_added-Reachable

soon_first : earlier soon.time later.time ≡ true
unfolding earlier
soon_first = refl

runs_late_example :
    (w : World ℕ) × Reachable clock w
    × (w.sched.current ≡ some 1)
    × (w.sched.current_time ≡ clock)
    × (w.sched.timer ≡ some later.time)
    × (w.unarmed ≡ 0)
    × (w.copied ≡ [])
    × (w.expired ≡ 0)
runs_late_example = runs_late soon later soon_first clock

runs_early_example :
    (w : World ℕ) × Reachable clock w
    × (w.clock ≡ clock)
    × (w.runs
        ≡ record { item = later; started = clock } ∷ record { item = soon; started = clock } ∷ [])
runs_early_example = runs_early soon later soon_first

abbrev busy : ThreadPool ℕ
busy = add_task 5 high (new_pool 4)

busy-Reachable : Steps.Reachable 4 busy
busy-Reachable = Steps.continues (new_pool 4) _ Steps.begins (Steps.adds (new_pool 4) 5 high)

Reachable-IsCounted_example : IsCounted busy
Reachable-IsCounted_example = Reachable-IsCounted 4 busy busy-Reachable

nobody_paused : busy.pause_ready ≡ 0
unfolding new_pool add_task admin_add_task
nobody_paused = refl

abbrev closing : List Drain.Event
closing = adds_pill ∷ works true ∷ adds_pill ∷ works true ∷ works false ∷ adds_pill ∷ adds_pill ∷ []

no_pause : All (λ e. e.task ≢ pause_task) busy.tasks_pq
unfolding new_pool add_task admin_add_task push
no_pause = (λ e. cc, tt)

four_pills : added closing ≡ busy.thread_num
unfolding new_pool add_task admin_add_task
four_pills = refl

few_left : (drain closing busy).idle ≤ 3
unfolding drain add_pill add_times thread_func run_entry run_task new_pool add_task admin_add_task
    push pop_timed iot_drive.ThreadPool.compare_entries
few_left = omega arith

rounds-drain_example :
    ((rounds (true ∷ false ∷ true ∷ true ∷ []) (drain closing busy)).idle ≡ 0)
    × ((rounds (true ∷ false ∷ true ∷ true ∷ []) (drain closing busy)).done
        ≡ (drain closing busy).done)
    × ((rounds (true ∷ false ∷ true ∷ true ∷ []) (drain closing busy)).pause_ready ≡ 0)
rounds-drain_example =
    rounds-drain 4 busy closing (true ∷ false ∷ true ∷ true ∷ []) busy-Reachable nobody_paused
      no_pause four_pills few_left

-- One thread, which has met the task of Pause.
abbrev paused : ThreadPool ℕ
paused = thread_func true (pause (new_pool 1))

paused-Reachable : Steps.Reachable 1 paused
unfolding new_pool pause add_times admin_add_task
paused-Reachable =
    Steps.continues (pause (new_pool 1)) _
      (Steps.continues (new_pool 1) _ Steps.begins (Steps.pauses (new_pool 1) refl))
      (Steps.works (pause (new_pool 1)) true (omega arith))

all_paused : paused.pause_ready ≡ paused.thread_num
unfolding new_pool pause add_times admin_add_task thread_func pop_timed push run_entry run_task
all_paused = refl

-- A caller that comes too early, then two runs, and three callers.
abbrev waits : List Future.Event
waits = gets ∷ runs 1 ∷ gets ∷ runs 2 ∷ runs 1 ∷ gets ∷ runs 2 ∷ gets ∷ gets ∷ []

abbrev value : ℕ → ℕ
value k = k + 40
