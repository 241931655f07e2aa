-- ===== src/Scheduler/Kept.antt =====
-- The scheduler keeps the waiting tasks in the order of their times and loses none.
use mathlib.Core.List.{Perm, perm_middle}
use mathlib.Core.List.Perm
use iot_drive.Shared.{
  ◌≡◌, refl, sym, subst, inl, inr, List, [], ◌∷◌, ◌++◌, Option, none, some, map, All, if◌then◌else◌,
  Bool-cases,
}
use iot_drive.Queue.{pop, push}
use iot_drive.Queue.Order.{InOrder, push-InOrder, push-Perm}
use iot_drive.Scheduler.{
  Time, Item, Scheduler, earlier, comparator, new_scheduler, make_current, enqueue, set_time,
  set_timer, thread_func,
}
use iot_drive.Scheduler.Times.{
  NotLater, NotLater-trans, comparator-behind, comparator-ahead, earlier-NotLater, late-NotLater,
}
use iot_drive.Scheduler.Steps.{
  World, Run, Step, Reachable, note_run, begins, continues, adds, copies, arms, expires, wakes,
  passes,
}

-- The items that wait, the current one first.
abbrev pub waiting : {A : Type 0} → Scheduler A → List (Item A)
waiting s = elim (s.current) [
  | none ↦ s.queue
  | some task ↦ record { task = task; time = s.current_time } ∷ s.queue
]

abbrev Ordered : {A : Type 0} → List (Item A) → Type 0
Ordered = InOrder (λ i j. NotLater i.time j.time)

pub record IsOrdered {A : Type 0} (s : Scheduler A) : Type 0 where
  pub in_order : Ordered (waiting s)
  pub idle : s.current ≡ none → s.queue ≡ []

module _ {A : Type 0} where
  push-Ordered : (i : Item A) (q : List (Item A)) → Ordered q → Ordered (push comparator i q)
  push-Ordered i q h =
      push-InOrder (λ i j. NotLater i.time j.time) comparator comparator-behind comparator-ahead
        (λ x y z. NotLater-trans x.time y.time z.time) i q h

  -- An item no later than the current one stays the first.
  All-later :
      (t u : Time) (q : List (Item A))
      → NotLater t u
      → All (λ j. NotLater u j.time) q
      → All (λ j. NotLater t j.time) q
  All-later t u [] h hs = tt
  All-later t u (j ∷ q) h hs = (NotLater-trans t u j.time h hs.0, All-later t u q h hs.1)

  All-push :
      (t : Time) (i : Item A) (q : List (Item A))
      → NotLater t i.time
      → All (λ j. NotLater t j.time) q
      → All (λ j. NotLater t j.time) (push comparator i q)
  unfolding push
  All-push t i [] h hs = (h, tt)
  All-push t i (j ∷ q) h hs = elim (Bool-cases (comparator j i)) [
    | inl e ↦
        subst (λ b. All (λ j. NotLater t j.time) (if b then i ∷ j ∷ q else j ∷ push comparator i q))
          (sym e) (h, hs)
    | inr e ↦
        subst (λ b. All (λ j. NotLater t j.time) (if b then i ∷ j ∷ q else j ∷ push comparator i q))
          (sym e) (hs.0, All-push t i q h hs.1)
  ]

  enqueue-IsOrdered : (i : Item A) (s : Scheduler A) → IsOrdered s → IsOrdered (enqueue i s)
  unfolding enqueue make_current
  enqueue-IsOrdered i s o = by_current s.current o
    where
      by_current :
          (c : Option A)
          → IsOrdered (record s { current = c })
          → IsOrdered (enqueue i (record s { current = c }))
      by_current none o = record {
        in_order = subst (λ q. Ordered (i ∷ q)) (sym (o.idle refl)) (tt, tt);
        idle = λ e. cc;
      }
      by_current (some task) o =
          let old : Item A = record { task = task; time = s.current_time } in
          let queued : Scheduler A = record s {
            current = some task;
            queue = push comparator i s.queue;
          } in
          let first : Scheduler A =
            make_current i
              (record s { current = some task; queue = push comparator old s.queue }) in
          elim (Bool-cases (earlier s.current_time i.time)) [
            | inl e ↦
                subst (λ b. IsOrdered (if b then queued else first)) (sym e)
                  (record {
                    in_order = (
                      All-push s.current_time i s.queue (earlier-NotLater s.current_time i.time e)
                          o.in_order.0,
                      push-Ordered i s.queue o.in_order.1,
                    );
                    idle = λ f. cc;
                  })
            | inr e ↦
                let no_later = late-NotLater s.current_time i.time e in
                subst (λ b. IsOrdered (if b then queued else first)) (sym e)
                  (record {
                    in_order = (
                      All-push i.time old s.queue no_later
                          (All-later i.time s.current_time s.queue no_later o.in_order.0),
                      push-Ordered old s.queue o.in_order.1,
                    );
                    idle = λ f. cc;
                  })
          ]

  thread_func-IsOrdered : (s : Scheduler A) → IsOrdered s → IsOrdered (thread_func s).1
  unfolding thread_func pop make_current set_time
  thread_func-IsOrdered s o = by_both s.current s.queue o
    where
      by_both :
          (c : Option A) (q : List (Item A))
          → IsOrdered (record s { current = c; queue = q })
          → IsOrdered (thread_func (record s { current = c; queue = q })).1
      by_both none q o = o
      by_both (some task) [] o = record { in_order = tt; idle = λ f. refl }
      by_both (some task) (i ∷ q) o = record { in_order = o.in_order.1; idle = λ f. cc }

  IsOrdered-Step : (w w' : World A) → IsOrdered w.sched → Step w w' → IsOrdered w'.sched
  unfolding set_timer
  IsOrdered-Step w _ h (adds _ i) = enqueue-IsOrdered i w.sched h
  IsOrdered-Step w _ h (copies _ n e) = h
  IsOrdered-Step w _ h (arms _ front back t e) = record { in_order = h.in_order; idle = h.idle }
  IsOrdered-Step w _ h (expires _ t e late) = record { in_order = h.in_order; idle = h.idle }
  IsOrdered-Step w _ h (wakes _ n e) = thread_func-IsOrdered w.sched h
  IsOrdered-Step w _ h (passes _ t later) = h

  -- In every reachable state the waiting items are in the order of their times, the current one
  -- first; without a current item the queue is empty.
  pub Reachable-IsOrdered : (clock : Time) (w : World A) → Reachable clock w → IsOrdered w.sched
  unfolding new_scheduler
  Reachable-IsOrdered clock _ begins = record { in_order = tt; idle = λ e. refl }
  Reachable-IsOrdered clock w (continues v _ r s) =
      IsOrdered-Step v w (Reachable-IsOrdered clock v r) s

  -- The items that are not yet, or have been, executed.
  abbrev pub accounted : World A → List (Item A)
  accounted w = map (λ r. r.item) w.runs ++ waiting w.sched

  enqueue-Perm :
      (i : Item A) (s : Scheduler A) → IsOrdered s → Perm (waiting (enqueue i s)) (i ∷ waiting s)
  unfolding enqueue make_current
  enqueue-Perm i s o = by_current s.current o.idle
    where
      by_current :
          (c : Option A)
          → (c ≡ none → s.queue ≡ [])
          → Perm
              (waiting (enqueue i (record s { current = c })))
              (i ∷ waiting (record s { current = c }))
      by_current none idle = Perm.refl (i ∷ s.queue)
      by_current (some task) idle =
          let old : Item A = record { task = task; time = s.current_time } in
          let queued : Scheduler A = record s {
            current = some task;
            queue = push comparator i s.queue;
          } in
          let first : Scheduler A =
            make_current i
              (record s { current = some task; queue = push comparator old s.queue }) in
          elim (Bool-cases (earlier s.current_time i.time)) [
            | inl e ↦
                subst (λ b. Perm (waiting (if b then queued else first)) (i ∷ old ∷ s.queue))
                  (sym e)
                  (Perm.trans (Perm.cons old (push-Perm comparator i s.queue))
                    (Perm.swap i old s.queue))
            | inr e ↦
                subst (λ b. Perm (waiting (if b then queued else first)) (i ∷ old ∷ s.queue))
                  (sym e) (Perm.cons i (push-Perm comparator old s.queue))
          ]

  wake-accounted :
      (w : World A) (runs : List (Run A))
      → (s : Scheduler A) → IsOrdered s
      → Perm
          (map (λ r. r.item) (note_run (thread_func s).0 s.current_time w.clock runs)
            ++ waiting (thread_func s).1)
          (map (λ r. r.item) runs ++ waiting s)
  unfolding thread_func pop make_current set_time
  wake-accounted w runs s o = by_both s.current s.queue
    where
      by_both :
          (c : Option A) (q : List (Item A))
          → Perm
              (map
                  (λ r. r.item)
                  (note_run
                    (thread_func (record s { current = c; queue = q })).0
                    s.current_time
                    w.clock
                    runs)
                ++ waiting (thread_func (record s { current = c; queue = q })).1)
              (map (λ r. r.item) runs ++ waiting (record s { current = c; queue = q }))
      by_both none q = Perm.refl _
      by_both (some task) [] = Perm.symm (perm_middle (map (λ r. r.item) runs) [])
      by_both (some task) (i ∷ q) = Perm.symm (perm_middle (map (λ r. r.item) runs) (i ∷ q))

  accounted-step :
      (w w' : World A)
      → IsOrdered w.sched
      → Step w w'
      → Perm (accounted w) w.added
      → Perm (accounted w') w'.added
  unfolding set_timer
  accounted-step w _ o (adds _ i) p =
      Perm.trans (Perm.append_left (map (λ r. r.item) w.runs) (enqueue-Perm i w.sched o))
        (Perm.trans (perm_middle (map (λ r. r.item) w.runs) (waiting w.sched)) (Perm.cons i p))
  accounted-step w _ o (copies _ n e) p = p
  accounted-step w _ o (arms _ front back t e) p = p
  accounted-step w _ o (expires _ t e late) p = p
  accounted-step w _ o (wakes _ n e) p = Perm.trans (wake-accounted w w.runs w.sched o) p
  accounted-step w _ o (passes _ t later) p = p

  -- In every reachable state the items that have been executed and those that wait are, up to order,
  -- the items that have been added: none is lost, and none is executed twice.
  pub Reachable-accounted :
      (clock : Time) (w : World A) → Reachable clock w → Perm (accounted w) w.added
  unfolding new_scheduler
  Reachable-accounted clock _ begins = Perm.nil
  Reachable-accounted clock w (continues v _ r s) =
      accounted-step v w (Reachable-IsOrdered clock v r) s (Reachable-accounted clock v r)
