-- ===== src/ThreadPool/Future.antt =====
-- FutureFuncTPTask of threadpool.hpp: a task whose output a thread can wait for. Its semaphore is
-- outside of the program, in its documented form: a counter that `sem_wait` waits for.
use iot_drive.Shared.{
  ℕ, zero, suc, ◌+◌, ◌≤◌, ◌≡◌, List, [], ◌∷◌, ◌++◌, Option, none, some, All, length, ◌==◌,
  if◌then◌else◌,
}

-- `output` holds nothing before Run; `outputs` are what the calls of GetOutput have returned.
pub record Future (O : Type 0) : Type 0 where
  pub sem : ℕ
  pub output : Option O
  pub outputs : List (Option O)

-- Where a thread is in Run: before the call of the function, before `sem_post`, or behind it.
pub data Place : Type 0 where
  calls posts finished : Place

module _ {O : Type 0} where
  unfoldable pub new_future : Future O
  new_future = record { sem = 0; output = none; outputs = [] }

  -- The next step of a thread in Run, with what the function gives to it.
  unfoldable pub run_task : O → Place → Future O → Future O × Place
  run_task value calls t = (record t { output = some value }, posts)
  run_task value posts t = (record t { sem = t.sem + 1 }, finished)
  run_task value finished t = (t, finished)

  -- An attempt of a call of GetOutput to get past `sem_wait`; a call that does not makes further ones.
  unfoldable pub get_output : Future O → Future O
  get_output t = elim (t.sem) [
    | zero ↦ t
    | suc n ↦ record t { sem = n; outputs = t.outputs ++ t.output ∷ [] }
  ]

-- The task with the threads that run it, and how many have.
pub record World (O : Type 0) : Type 0 where
  pub task : Future O
  pub place : ℕ → Place
  pub completed : ℕ

-- A step of Run in a thread, or an attempt of a call of GetOutput.
pub data Event : Type 0 where
  runs : ℕ → Event
  gets : Event

abbrev pub completes : Place → ℕ
completes calls = 0
completes posts = 1
completes finished = 0

module _ {O : Type 0} (func : ℕ → O) where
  unfoldable pub step : Event → World O → World O
  step (runs k) w =
      let next = run_task (func k) (w.place k) w.task in
      record {
        task = next.0;
        place = λ j. if j == k then next.1 else w.place j;
        completed = w.completed + completes (w.place k);
      }
  step gets w = record w { task = get_output w.task }

  unfoldable pub run : List Event → World O → World O
  run [] w = w
  run (e ∷ es) w = run es (step e w)

  abbrev pub start : World O
  start = record { task = new_future; place = λ k. calls; completed = 0 }

  -- An output of the function.
  abbrev pub Given : Option O → Type 0
  Given o = (k : ℕ) × (o ≡ some (func k))

  record Sound (w : World O) : Type 0 where
    placed : (k : ℕ) → w.place k ≡ posts → Given w.task.output
    there : 1 ≤ w.task.sem → Given w.task.output
    returned : All Given w.task.outputs
    counted : length w.task.outputs + w.task.sem ≡ w.completed
