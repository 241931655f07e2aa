-- ===== src/Scheduler/Late.antt =====
-- AddTask reads the time for the timer, and sets the timer to it, after it has released the lock.
use iot_drive.Shared.{ℕ, ◌≡◌, refl, subst, true, false, List, [], ◌∷◌, none, some, arith}
use iot_drive.Queue.{push}
use iot_drive.Scheduler.{
  Time, Item, Scheduler, earlier, new_scheduler, make_current, enqueue, set_timer,
}
use iot_drive.Scheduler.Steps.{World, Reachable, start, begins, continues, adds, copies, arms}

module _ {A : Type 0} (a c : Item A) (h : earlier a.time c.time ≡ true) where
  not_later : earlier c.time a.time ≡ false
  unfolding earlier
  not_later = ground (arith, h)

  -- The earlier one is added second.
  abbrev both : Scheduler A
  both = record { current = some a.task; current_time = a.time; queue = c ∷ []; timer = none }

  both-enqueue : enqueue a (enqueue c new_scheduler) ≡ both
  unfolding enqueue make_current push new_scheduler
  both-enqueue = rw not_later refl

  abbrev world : Time → Scheduler A → ℕ → List Time → World A
  world clock s unarmed copied = record {
    sched = s;
    unarmed = unarmed;
    copied = copied;
    expired = 0;
    clock = clock;
    added = a ∷ c ∷ [];
    runs = [];
  }

  -- For any two items at different times there is a run of the scheduler after which the earlier one
  -- is the first, the timer is set to the time of the later one, and nobody is about to set it again
  -- or to look at the tasks: the caller that adds the later one reads its time for the timer, the
  -- other adds the earlier one and sets the timer, and then the first caller sets it to what it has
  -- read.
  pub runs_late :
      (clock : Time)
      → (w : World A) × Reachable clock w
        × (w.sched.current ≡ some a.task)
        × (w.sched.current_time ≡ a.time)
        × (w.sched.timer ≡ some c.time)
        × (w.unarmed ≡ 0)
        × (w.copied ≡ [])
        × (w.expired ≡ 0)
  unfolding enqueue make_current new_scheduler set_timer
  runs_late clock =
      let first = enqueue c new_scheduler in
      let added : Reachable clock (world clock (enqueue a first) 1 (c.time ∷ [])) =
        continues _ _
          (continues _ _ (continues _ _ begins (adds (start clock) c)) (copies _ 0 refl))
          (adds _ a) in
      let read : Reachable clock (world clock both 0 (a.time ∷ c.time ∷ [])) =
        continues (world clock both 1 (c.time ∷ [])) _
          (subst (λ s. Reachable clock (world clock s 1 (c.time ∷ []))) both-enqueue added)
          (copies _ 0 refl) in
      let set : Reachable clock
          (world clock (record both { timer = some a.time }) 0 (c.time ∷ [])) =
        continues _ _ read (arms _ [] (c.time ∷ []) a.time refl) in
      (_, continues _ _ set (arms _ [] [] c.time refl), refl, refl, refl, refl, refl, refl)
