-- ===== src/Scheduler/Early.antt =====
-- AddTask sets the timer after it has released the lock.
use iot_drive.Shared.{ℕ, suc, ◌≡◌, refl, subst, inr, true, List, [], ◌∷◌, none, some, arith}
use iot_drive.Queue.{pop, push}
use iot_drive.Scheduler.{
  Item, Scheduler, earlier, new_scheduler, make_current, enqueue, set_time, set_timer, thread_func,
}
use iot_drive.Scheduler.Steps.{
  World, Run, Reachable, start, begins, continues, adds, copies, arms, expires, wakes,
}

module _ {A : Type 0} (a c : Item A) (h : earlier a.time c.time ≡ true) where
  -- Both are added, and nobody has set the timer yet.
  abbrev both : Scheduler A
  both = record { current = some a.task; current_time = a.time; queue = c ∷ []; timer = none }

  abbrev world : Scheduler A → ℕ → ℕ → List (Run A) → World A
  world s unarmed expired runs = record {
    sched = s;
    unarmed = unarmed;
    copied = [];
    expired = expired;
    clock = a.time;
    added = c ∷ a ∷ [];
    runs = runs;
  }

  both-enqueue : enqueue c (enqueue a new_scheduler) ≡ both
  unfolding enqueue make_current push new_scheduler
  both-enqueue = rw h refl

  both-Reachable : Reachable a.time (world both 2 0 [])
  both-Reachable =
      subst (λ s. Reachable a.time (world s 2 0 [])) both-enqueue
        (continues _ _ (continues _ _ begins (adds (start a.time) a)) (adds _ c))

  -- A caller sets the timer to the time of the first task, which is due.
  armed :
      (s : Scheduler A) (unarmed expired : ℕ)
      → Reachable a.time (world s (suc unarmed) expired [])
      → s ≡ both
      → Reachable a.time (world both unarmed (suc expired) [])
  unfolding set_timer
  armed s unarmed expired r e =
      let r' = subst (λ s. Reachable a.time (world s (suc unarmed) expired [])) e r in
      continues (world (record both { timer = some a.time }) unarmed expired []) _
        (continues (record (world both unarmed expired []) { copied = a.time ∷ [] }) _
          (continues (world both (suc unarmed) expired []) _ r' (copies _ unarmed refl))
          (arms _ [] [] a.time refl))
        (expires _ a.time refl (inr (refl, omega arith)))

  -- The timer expires for the first caller, is set to the same time by the second, and expires again.
  twice-Reachable : Reachable a.time (world both 0 2 [])
  twice-Reachable = armed both 0 1 (armed both 1 0 both-Reachable refl) refl

  -- For any two items at different times there is a run of the scheduler, from the time of the
  -- earlier one on, that executes the later one too before any time has passed: the second caller of
  -- AddTask sets the timer again, for a task that is already due, and the second thread of the timer
  -- takes the next task without a look at its time.
  pub runs_early :
      (w : World A) × Reachable a.time w
      × (w.clock ≡ a.time)
      × (w.runs
          ≡ record { item = c; started = a.time } ∷ record { item = a; started = a.time } ∷ [])
  unfolding thread_func pop make_current set_time
  runs_early = (
    _,
    continues _ _ (continues (world both 0 2 []) _ twice-Reachable (wakes _ 1 refl))
        (wakes _ 0 refl),
    refl,
    refl,
  )
