-- ===== src/ThreadPool/Drain.antt =====
-- The end of the pool: the threads that the destructor joins.
use iot_drive.Shared.{
  ℕ, suc, ◌+◌, ◌-◌, ◌≤◌, ◌<◌, ◌≡◌, ◌≢◌, refl, sym, subst, ◌∙◌, Bool, true, false, List, [], ◌∷◌,
  arith, All, inl, inr, Bool-cases, ◌==◌, if◌then◌else◌,
}
use iot_drive.Queue.{push, pop_timed}
use iot_drive.Queue.Order.{InOrder}
use iot_drive.ThreadPool.{
  ThreadPool, Entry, Task, user, pause_task, kill_pill, admin_stop, add_pill, run_task, run_entry,
  thread_func, add_times, admin_add_task, compare_entries,
}
use iot_drive.ThreadPool.Steps.{Reachable}
use iot_drive.ThreadPool.Threads.{Fits, is_pill, pills, add_times-Added, Reachable-IsCounted}

-- The rounds of the threads that still live, each with the fate of its lock.
unfoldable pub rounds : {A : Type 0} → List Bool → ThreadPool A → ThreadPool A
rounds [] p = p
rounds (locked ∷ ls) p =
    let rest = rounds ls (thread_func locked p) in if p.idle == 0 then p else rest

-- What happens while the destructor adds its pills: one is added, or a thread has a round.
pub data Event : Type 0 where
  adds_pill : Event
  works : Bool → Event

unfoldable pub drain : {A : Type 0} → List Event → ThreadPool A → ThreadPool A
drain [] p = p
drain (adds_pill ∷ es) p = drain es (add_pill p)
drain (works locked ∷ es) p =
    let worked = drain es (thread_func locked p) in
    let unchanged = drain es p in if p.idle == 0 then unchanged else worked

abbrev pub added : List Event → ℕ
added [] = 0
added (adds_pill ∷ es) = suc (added es)
added (works locked ∷ es) = added es

-- How many rounds get the lock.
abbrev pub locked_rounds : List Bool → ℕ
locked_rounds [] = 0
locked_rounds (true ∷ ls) = suc (locked_rounds ls)
locked_rounds (false ∷ ls) = locked_rounds ls

-- A queue with a pill for each thread of the loop.
record IsEnding {A : Type 0} (p : ThreadPool A) : Type 0 where
  one_each : pills p.tasks_pq ≡ p.idle
  fits : All Fits p.tasks_pq
  in_order : InOrder (λ x y. y.priority ≤ x.priority) p.tasks_pq

module _ {A : Type 0} where
  no_pills :
      (x : Entry A) (q : List (Entry A))
      → x.priority < admin_stop
      → All (λ y. y.priority ≤ x.priority) q
      → pills q ≡ 0
  no_pills x [] small h = refl
  no_pills x (y ∷ q) small h = ground (arith, no_pills x q small h.1, h.0)

  -- The first of a queue with pills is one.
  first_pill :
      (task : Task A) (priority : ℕ) (q : List (Entry A))
      → All Fits (record { task = task; priority = priority } ∷ q)
      → InOrder (λ x y. y.priority ≤ x.priority) (record { task = task; priority = priority } ∷ q)
      → 0 < pills (record { task = task; priority = priority } ∷ q)
      → (task ≡ kill_pill) × (priority ≡ admin_stop)
  first_pill (user a) priority q fits order some_pill =
      let x : Entry A = record { task = user a; priority = priority } in
      let none_here : is_pill x ≡ 0 = ground (arith, fits.0) in
      absurd (omega (arith, some_pill, none_here, no_pills x q (omega (arith, fits.0)) order.0))
  first_pill pause_task priority q fits order some_pill =
      let x : Entry A = record { task = pause_task; priority = priority } in
      let none_here : is_pill x ≡ 0 = ground (arith, fits.0) in
      absurd (omega (arith, some_pill, none_here, no_pills x q (omega (arith, fits.0)) order.0))
  first_pill kill_pill priority q fits order some_pill = (refl, fits.0)

  -- What a round of one of the threads does.
  record Ended (p q : ThreadPool A) : Type 0 where
    one_less : q.idle + 1 ≡ p.idle
    same_done : q.done ≡ p.done
    same_ready : q.pause_ready ≡ p.pause_ready
    still : IsEnding q

  thread_func-Ended : (p : ThreadPool A) → 0 < p.idle → IsEnding p → Ended p (thread_func true p)
  unfolding thread_func pop_timed run_entry run_task
  thread_func-Ended p lives h = by_queue p.tasks_pq h
    where
      ran :
          (e : Entry A) (q : List (Entry A))
          → e.task ≡ kill_pill
          → e.priority ≡ admin_stop
          → run_entry e (record p { tasks_pq = q }) ≡ record p { tasks_pq = q; idle = p.idle - 1 }
      ran e q is_kill is_stop = rw (run_entry, is_kill, is_stop) refl

      by_queue :
          (q : List (Entry A))
          → IsEnding (record p { tasks_pq = q })
          → Ended (record p { tasks_pq = q }) (thread_func true (record p { tasks_pq = q }))
      by_queue [] h = absurd (omega (arith, h.one_each, lives))
      by_queue (e ∷ q) h =
          let (is_kill, is_stop) =
            first_pill e.task e.priority q h.fits h.in_order (omega (arith, h.one_each, lives)) in
          let left : is_pill e + pills q ≡ p.idle = h.one_each in
          let pill : is_pill e ≡ 1 = ground (arith, is_stop) in
          subst (Ended (record p { tasks_pq = e ∷ q })) (sym (ran e q is_kill is_stop)) (record {
            one_less = omega (arith, lives);
            same_done = refl;
            same_ready = refl;
            still = record {
              one_each = omega (arith, left, pill);
              fits = h.fits.1;
              in_order = h.in_order.1;
            };
          })

  rounds-IsEnding :
      (ls : List Bool) (p : ThreadPool A)
      → IsEnding p
      → p.idle ≤ locked_rounds ls
      → ((rounds ls p).idle ≡ 0)
        × ((rounds ls p).done ≡ p.done)
        × ((rounds ls p).pause_ready ≡ p.pause_ready)
  unfolding rounds thread_func pop_timed
  rounds-IsEnding [] p h enough = (omega (arith, enough), refl, refl)
  rounds-IsEnding (locked ∷ ls) p h enough = elim (Bool-cases (p.idle == 0)) [
    | inl y ↦ rw y (ground arith, refl, refl)
    | inr y ↦ rw y (by_lock locked (ground arith) enough (rounds-IsEnding ls))
  ]
    where
      by_lock :
          (locked : Bool)
          → 0 < p.idle
          → p.idle ≤ locked_rounds (locked ∷ ls)
          → ((q : ThreadPool A)
              → IsEnding q
              → q.idle ≤ locked_rounds ls
              → ((rounds ls q).idle ≡ 0)
                × ((rounds ls q).done ≡ q.done)
                × ((rounds ls q).pause_ready ≡ q.pause_ready))
          → ((rounds ls (thread_func locked p)).idle ≡ 0)
            × ((rounds ls (thread_func locked p)).done ≡ p.done)
            × ((rounds ls (thread_func locked p)).pause_ready ≡ p.pause_ready)
      by_lock false lives enough rest = rest p h enough
      by_lock true lives enough rest =
          let one = thread_func-Ended p lives h in
          let (a, b, c) =
            rest (thread_func true p) one.still (omega (arith, enough, one.one_less)) in
          (a, b ∙ one.same_done, c ∙ one.same_ready)

  -- The destructor is at work: a pill for each thread is in the queue or still to be added.
  record IsClosing (left : ℕ) (p : ThreadPool A) : Type 0 where
    one_each : pills p.tasks_pq + left ≡ p.idle
    fits : All Fits p.tasks_pq
    in_order : InOrder (λ x y. y.priority ≤ x.priority) p.tasks_pq
    no_pause : All (λ e. e.task ≢ pause_task) p.tasks_pq
    unpaused : p.pause_ready ≡ 0

  All-push :
      (P : Entry A → Type 0) (x : Entry A) (q : List (Entry A))
      → P x
      → All P q
      → All P (push compare_entries x q)
  unfolding push
  All-push P x [] h hs = (h, tt)
  All-push P x (y ∷ q) h hs = elim (Bool-cases (compare_entries y x)) [
    | inl e ↦
        subst (λ b. All P (if b then x ∷ y ∷ q else y ∷ push compare_entries x q)) (sym e) (h, hs)
    | inr e ↦
        subst (λ b. All P (if b then x ∷ y ∷ q else y ∷ push compare_entries x q)) (sym e)
          (hs.0, All-push P x q h hs.1)
  ]

  add_pill-IsClosing :
      (left : ℕ) (p : ThreadPool A) → IsClosing (suc left) p → IsClosing left (add_pill p)
  unfolding add_pill add_times admin_add_task
  add_pill-IsClosing left p h =
      let a = add_times-Added 1 kill_pill admin_stop p refl in
      record {
        one_each = omega (arith, h.one_each, a.pills_added, a.same_idle);
        fits = a.fits_added h.fits;
        in_order = a.order_kept h.in_order;
        no_pause =
            All-push _ (record { task = kill_pill; priority = admin_stop }) p.tasks_pq (λ e. cc)
              h.no_pause;
        unpaused = a.same_ready ∙ h.unpaused;
      }

  thread_func-IsClosing :
      (left : ℕ) (locked : Bool) (p : ThreadPool A)
      → IsClosing left p
      → IsClosing left (thread_func locked p)
  unfolding thread_func pop_timed run_entry run_task
  thread_func-IsClosing left false p h = h
  thread_func-IsClosing left true p h = by_queue p.tasks_pq h
    where
      by_task :
          (t : Task A) (priority : ℕ) (q : List (Entry A))
          → IsClosing left (record p { tasks_pq = record { task = t; priority = priority } ∷ q })
          → IsClosing left
              (run_entry (record { task = t; priority = priority }) (record p { tasks_pq = q }))
      by_task (user a) priority q h =
          let small : (priority == admin_stop) ≡ false = ground (arith, h.fits.0) in
          rw small (record {
            one_each = ground (arith, h.one_each, h.fits.0);
            fits = h.fits.1;
            in_order = h.in_order.1;
            no_pause = h.no_pause.1;
            unpaused = h.unpaused;
          })
      by_task pause_task priority q h = absurd (h.no_pause.0 refl)
      by_task kill_pill priority q h =
          let stop : (priority == admin_stop) ≡ true = ground (arith, h.fits.0) in
          rw stop (record {
            one_each = ground (arith, h.one_each, h.fits.0);
            fits = h.fits.1;
            in_order = h.in_order.1;
            no_pause = h.no_pause.1;
            unpaused = h.unpaused;
          })

      by_queue :
          (q : List (Entry A))
          → IsClosing left (record p { tasks_pq = q })
          → IsClosing left (thread_func true (record p { tasks_pq = q }))
      by_queue [] h = h
      by_queue (e ∷ q) h = by_task e.task e.priority q h

  drain-IsClosing :
      (es : List Event) (p : ThreadPool A) → IsClosing (added es) p → IsClosing 0 (drain es p)
  unfolding drain
  drain-IsClosing [] p h = h
  drain-IsClosing (adds_pill ∷ es) p h =
      drain-IsClosing es (add_pill p) (add_pill-IsClosing (added es) p h)
  drain-IsClosing (works locked ∷ es) p h = elim (Bool-cases (p.idle == 0)) [
    | inl e ↦ rw e (drain-IsClosing es p h)
    | inr e ↦
        rw e
          (drain-IsClosing es (thread_func locked p) (thread_func-IsClosing (added es) locked p h))
  ]

  -- The destructor of a pool with no thread in a pause and no pause waiting: it adds its pills one by
  -- one, while the threads go on taking tasks. Once all are added and as many rounds as there are
  -- threads left have got the lock of the queue, every thread has ended, so that the destructor
  -- returns; in these rounds no waiting task is run any more.
  pub rounds-drain :
      (n : ℕ) (p : ThreadPool A) (es : List Event) (ls : List Bool)
      → Reachable n p
      → p.pause_ready ≡ 0
      → All (λ e. e.task ≢ pause_task) p.tasks_pq
      → added es ≡ p.thread_num
      → (drain es p).idle ≤ locked_rounds ls
      → ((rounds ls (drain es p)).idle ≡ 0)
        × ((rounds ls (drain es p)).done ≡ (drain es p).done)
        × ((rounds ls (drain es p)).pause_ready ≡ 0)
  rounds-drain n p es ls r quiet no_pause all_added enough =
      let h = Reachable-IsCounted n p r in
      let c = drain-IsClosing es p (record {
        one_each = omega (arith, h.counted, quiet, all_added);
        fits = h.fits;
        in_order = h.in_order;
        no_pause = no_pause;
        unpaused = quiet;
      }) in
      let (e, d, z) =
        rounds-IsEnding ls (drain es p)
          (record { one_each = omega (arith, c.one_each); fits = c.fits; in_order = c.in_order })
          enough in
      (e, d, z ∙ c.unpaused)
