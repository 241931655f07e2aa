-- ===== src/Scheduler/Armed.antt =====
-- No task waits without a timer; how late the timer may be is in Late.
use iot_drive.Shared.{
  ◌+◌, ◌<◌, ◌≡◌, refl, ◌⊎◌, inl, inr, Option, List, [], ◌∷◌, none, some, arith, length,
}
use iot_drive.Queue.{pop}
use iot_drive.Scheduler.{
  Time, Item, Scheduler, new_scheduler, make_current, set_time, set_timer, thread_func,
}
use iot_drive.Scheduler.Steps.{
  World, Step, Reachable, begins, continues, adds, copies, arms, expires, wakes, passes,
}

-- If a task waits, the timer is set, or someone is about to set it or to look for tasks.
abbrev pub IsWatched : {A : Type 0} → World A → Type 0
IsWatched w =
    (w.sched.current ≡ none)
    ⊎ ((t : Time) × (w.sched.timer ≡ some t))
    ⊎ (0 < w.unarmed + length w.copied + w.expired)

-- ThreadFunc leaves no task without the timer.
thread_func-armed :
    {A : Type 0} (s : Scheduler A)
    → ((thread_func s).1.current ≡ none) ⊎ ((t : Time) × ((thread_func s).1.timer ≡ some t))
unfolding thread_func pop make_current set_time
thread_func-armed {A = A} s = by_both s.current s.queue
  where
    by_both :
        (c : Option A) (q : List (Item A))
        → ((thread_func (record s { current = c; queue = q })).1.current ≡ none)
          ⊎ ((t : Time) × ((thread_func (record s { current = c; queue = q })).1.timer ≡ some t))
    by_both none q = inl refl
    by_both (some task) [] = inl refl
    by_both (some task) (i ∷ q) = inr (i.time, refl)

IsWatched-Step : {A : Type 0} (w w' : World A) → IsWatched w → Step w w' → IsWatched w'
unfolding set_timer
IsWatched-Step w _ h (adds _ i) = inr (inr (omega arith))
IsWatched-Step w _ h (copies _ n e) = inr (inr (omega arith))
IsWatched-Step w _ h (arms _ front back t e) = inr (inl (t, refl))
IsWatched-Step w _ h (expires _ t e late) = inr (inr (omega arith))
IsWatched-Step w _ h (wakes _ n e) = elim (thread_func-armed w.sched) [
  | inl idle ↦ inl idle
  | inr set ↦ inr (inl set)
]
IsWatched-Step w _ h (passes _ t later) = h

-- In every reachable state in which a task waits, the timer is set to some time, or a thread is about
-- to set it or to look at the tasks: no task waits with the timer off. The time need not be that of
-- the first task.
pub Reachable-IsWatched :
    {A : Type 0} (clock : Time) (w : World A) → Reachable clock w → IsWatched w
unfolding new_scheduler
Reachable-IsWatched clock _ begins = inl refl
Reachable-IsWatched clock w (continues v _ r s) =
    IsWatched-Step v w (Reachable-IsWatched clock v r) s
