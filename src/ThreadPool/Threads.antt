-- ===== src/ThreadPool/Threads.antt =====
-- How many threads there are, and which tasks they take.
use iot_drive.Shared.{
  ℕ, zero, suc, ◌+◌, ◌-◌, ◌*◌, ◌≤◌, ◌<◌, ◌≡◌, refl, sym, ap, subst, inl, inr, Bool, true, false,
  List, [], ◌∷◌, arith, All, ◌==◌, if◌then◌else◌, Bool-cases,
}
use iot_drive.Queue.{push, pop_timed}
use iot_drive.Queue.Order.{InOrder, push-InOrder}
use iot_drive.ThreadPool.{
  ThreadPool, Entry, Task, user, pause_task, kill_pill, admin, admin_stop, rank, Priority,
  compare_entries, new_pool, admin_add_task, add_times, add_task, pause, resume_all,
  set_num_threads, run_task, run_entry, thread_func, end_pause,
}
use iot_drive.ThreadPool.Steps.{
  Step, Reachable, begins, continues, adds, pauses, resumes, resizes, works, awakes,
}

-- The number of kill pills that wait.
abbrev pub is_pill : {A : Type 0} → Entry A → ℕ
is_pill e = if e.priority == admin_stop then 1 else 0

abbrev pub pills : {A : Type 0} → List (Entry A) → ℕ
pills [] = 0
pills (e ∷ es) = is_pill e + pills es

-- The pills are just the entries of the highest priority.
abbrev pub Fits : {A : Type 0} → Entry A → Type 0
Fits e = elim (e.task) [
  | user a ↦ e.priority < admin
  | pause_task ↦ e.priority ≡ admin
  | kill_pill ↦ e.priority ≡ admin_stop
]

pub record IsCounted {A : Type 0} (p : ThreadPool A) : Type 0 where
  pub counted : p.idle + p.pause_ready ≡ p.thread_num + pills p.tasks_pq
  pub fits : All Fits p.tasks_pq
  pub in_order : InOrder (λ x y. y.priority ≤ x.priority) p.tasks_pq

module _ {A : Type 0} where
  pills-push :
      (e : Entry A) (q : List (Entry A)) → pills (push compare_entries e q) ≡ is_pill e + pills q
  unfolding push
  pills-push e [] = omega arith
  pills-push e (x ∷ q) = ground (arith, pills-push e q)

  Fits-push :
      (e : Entry A) (q : List (Entry A)) → Fits e → All Fits q → All Fits (push compare_entries e q)
  unfolding push
  Fits-push e [] h hs = (h, tt)
  Fits-push e (x ∷ q) h hs = elim (Bool-cases (compare_entries x e)) [
    | inl t ↦
        subst (λ b. All Fits (if b then e ∷ x ∷ q else x ∷ push compare_entries e q)) (sym t)
          (h, hs)
    | inr t ↦
        subst (λ b. All Fits (if b then e ∷ x ∷ q else x ∷ push compare_entries e q)) (sym t)
          (hs.0, Fits-push e q h hs.1)
  ]

  push-InOrder_rank :
      (e : Entry A) (q : List (Entry A))
      → InOrder (λ x y. y.priority ≤ x.priority) q
      → InOrder (λ x y. y.priority ≤ x.priority) (push compare_entries e q)
  unfolding compare_entries
  push-InOrder_rank e q h =
      push-InOrder (λ x y. y.priority ≤ x.priority) compare_entries (λ x y t. ground arith)
        (λ x y t. ground arith) (λ x y z t u. omega arith) e q h

  -- What adding a task `n` times does.
  pub record Added (n : ℕ) (e : Entry A) (p q : ThreadPool A) : Type 0 where
    pub pills_added : pills q.tasks_pq ≡ n * is_pill e + pills p.tasks_pq
    pub fits_added : All Fits p.tasks_pq → All Fits q.tasks_pq
    pub order_kept :
        InOrder (λ x y. y.priority ≤ x.priority) p.tasks_pq
        → InOrder (λ x y. y.priority ≤ x.priority) q.tasks_pq
    pub same_idle : q.idle ≡ p.idle
    pub same_ready : q.pause_ready ≡ p.pause_ready
    pub same_num : q.thread_num ≡ p.thread_num

  pub add_times-Added :
      (n : ℕ) (task : Task A) (priority : ℕ) (p : ThreadPool A)
      → Fits (record { task = task; priority = priority })
      → Added n (record { task = task; priority = priority }) p (add_times n task priority p)
  unfolding add_times admin_add_task
  add_times-Added zero task priority p f = record {
    pills_added = omega arith;
    fits_added = λ h. h;
    order_kept = λ h. h;
    same_idle = refl;
    same_ready = refl;
    same_num = refl;
  }
  add_times-Added (suc n) task priority p f =
      let e : Entry A = record { task = task; priority = priority } in
      let rest = add_times-Added n task priority (admin_add_task task priority p) f in
      record {
        pills_added = omega (arith, rest.pills_added, pills-push e p.tasks_pq);
        fits_added = λ h. rest.fits_added (Fits-push e p.tasks_pq f h);
        order_kept = λ h. rest.order_kept (push-InOrder_rank e p.tasks_pq h);
        same_idle = rest.same_idle;
        same_ready = rest.same_ready;
        same_num = rest.same_num;
      }

  add_task-IsCounted :
      (a : A) (priority : Priority) (p : ThreadPool A)
      → IsCounted p
      → IsCounted (add_task a priority p)
  unfolding add_task admin_add_task
  add_task-IsCounted a priority p h =
      let e : Entry A = record { task = user a; priority = rank priority } in
      let small : rank priority < admin = ground arith in
      record {
        counted = omega (arith, h.counted, pills-push e p.tasks_pq, is_pill_small e small);
        fits = Fits-push e p.tasks_pq small h.fits;
        in_order = push-InOrder_rank e p.tasks_pq h.in_order;
      }
    where
      is_pill_small : (e : Entry A) → e.priority < admin → is_pill e ≡ 0
      is_pill_small e h = ground arith

  pause-IsCounted : (p : ThreadPool A) → IsCounted p → IsCounted (pause p)
  unfolding pause
  pause-IsCounted p h =
      let a = add_times-Added p.thread_num pause_task admin (record p { resume = false }) refl in
      record {
        counted = omega (arith, h.counted, a.pills_added, a.same_idle, a.same_ready, a.same_num);
        fits = a.fits_added h.fits;
        in_order = a.order_kept h.in_order;
      }

  set_num_threads-IsCounted :
      (n : ℕ) (p : ThreadPool A) → IsCounted p → IsCounted (set_num_threads n p)
  unfolding set_num_threads
  set_num_threads-IsCounted n p h =
      let a =
        add_times-Added (p.thread_num - n) kill_pill admin_stop
          (record p { idle = p.idle + (n - p.thread_num) }) refl in
      record {
        counted = omega (arith, h.counted, a.pills_added, a.same_idle, a.same_ready);
        fits = a.fits_added h.fits;
        in_order = a.order_kept h.in_order;
      }

  -- What running an entry does: the queue and the number stay, a pill ends the thread.
  record Ran (e : Entry A) (p q : ThreadPool A) : Type 0 where
    same_queue : q.tasks_pq ≡ p.tasks_pq
    same_number : q.thread_num ≡ p.thread_num
    threads : q.idle + q.pause_ready + is_pill e ≡ p.idle + p.pause_ready

  run_entry-Ran :
      (task : Task A) (priority : ℕ) (p : ThreadPool A)
      → 0 < p.idle
      → Fits (record { task = task; priority = priority })
      → Ran
          (record { task = task; priority = priority })
          p
          (run_entry (record { task = task; priority = priority }) p)
  unfolding run_entry run_task
  run_entry-Ran (user a) priority p busy f = record {
    same_queue = ground arith;
    same_number = ground arith;
    threads = ground arith;
  }
  run_entry-Ran pause_task priority p busy f = record {
    same_queue = ground arith;
    same_number = ground arith;
    threads = ground arith;
  }
  run_entry-Ran kill_pill priority p busy f = record {
    same_queue = ground arith;
    same_number = ground arith;
    threads = ground arith;
  }

  thread_func-IsCounted :
      (locked : Bool) (p : ThreadPool A)
      → 0 < p.idle
      → IsCounted p
      → IsCounted (thread_func locked p)
  unfolding thread_func pop_timed
  thread_func-IsCounted false p busy h = h
  thread_func-IsCounted true p busy h = by_queue p.tasks_pq h
    where
      by_queue :
          (q : List (Entry A))
          → IsCounted (record p { tasks_pq = q })
          → IsCounted (thread_func true (record p { tasks_pq = q }))
      by_queue [] h = h
      by_queue (e ∷ q) h =
          let r = run_entry-Ran e.task e.priority (record p { tasks_pq = q }) busy h.fits.0 in
          record {
            counted = omega (arith, h.counted, r.threads, r.same_number, ap pills r.same_queue);
            fits = subst (All Fits) (sym r.same_queue) h.fits.1;
            in_order =
                subst (InOrder (λ x y. y.priority ≤ x.priority)) (sym r.same_queue) h.in_order.1;
          }

  IsCounted-Step : (p q : ThreadPool A) → IsCounted p → Step p q → IsCounted q
  unfolding resume_all end_pause
  IsCounted-Step p _ h (adds _ a priority) = add_task-IsCounted a priority p h
  IsCounted-Step p _ h (pauses _ r) = pause-IsCounted p h
  IsCounted-Step p _ h (resumes _) = record {
    counted = h.counted;
    fits = h.fits;
    in_order = h.in_order;
  }
  IsCounted-Step p _ h (resizes _ n) = set_num_threads-IsCounted n p h
  IsCounted-Step p _ h (works _ locked busy) = thread_func-IsCounted locked p busy h
  IsCounted-Step p _ h (awakes _ some_wait r) = record {
    counted = omega (arith, h.counted);
    fits = h.fits;
    in_order = h.in_order;
  }

  -- In every reachable state of a pool the threads that live, in their loop or paused, are as many as
  -- the number that was set last and the kill pills that still wait; and the queue is in the order of
  -- the priorities, with a kill pill before a pause task before any task of a user.
  pub Reachable-IsCounted : (n : ℕ) (p : ThreadPool A) → Reachable n p → IsCounted p
  unfolding new_pool
  Reachable-IsCounted n _ begins = record { counted = omega arith; fits = tt; in_order = tt }
  Reachable-IsCounted n q (continues p _ r s) = IsCounted-Step p q (Reachable-IsCounted n p r) s
