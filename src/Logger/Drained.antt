-- ===== src/Logger/Drained.antt =====
-- The log file, if it is open, holds everything that was logged, in order.
use iot_drive.Shared.{
  ℕ, zero, suc, ◌<◌, ◌≡◌, refl, sym, ap, ◌∙◌, Bool, true, false, not, List, [], ◌∷◌, ◌++◌,
  append_assoc, append-nil, map, arith, length, All, All-append, codes, if◌then◌else◌,
}
use mathlib.Core.List.{map-append}
use iot_drive.Queue.{push, pop}
use iot_drive.Logger.{
  info, Severity, LogTask, Logger, new_logger, push_task, log, log_line, log_round, drop_logger,
  file_lines,
}

-- What happens to a logger: calls of Log from any thread, and rounds of its own thread.
pub data Event : Type 0 where
  logs : Severity → List ℕ → ℕ → Event
  rounds : Event

unfoldable pub run : (ℕ → List ℕ) → List Event → Logger → Logger
run put_time [] l = l
run put_time (logs severity text now ∷ es) l = run put_time es (log severity text now l)
run put_time (rounds ∷ es) l = run put_time es (log_round put_time l)

abbrev task_of : Severity → List ℕ → ℕ → LogTask
task_of severity text now = record {
  string_to_log = text;
  severity = severity;
  time = now;
  stop = false;
}

-- The tasks of the calls.
abbrev pub logged : List Event → List LogTask
logged [] = []
logged (logs severity text now ∷ es) = task_of severity text now ∷ logged es
logged (rounds ∷ es) = logged es

push-end : (task : LogTask) (q : List LogTask) → push (λ a b. false) task q ≡ q ++ task ∷ []
unfolding push
push-end task [] = refl
push-end task (x ∷ q) = ap (◌∷◌ x) (push-end task q)

-- The task of the destructor.
abbrev pub last_task : ℕ → LogTask
last_task now = record {
  string_to_log = codes "Log End\n";
  severity = info;
  time = now;
  stop = true;
}

module _ (put_time : ℕ → List ℕ) where
  abbrev lines : List LogTask → List (List ℕ)
  lines ts = map (log_line put_time) ts

  -- A logger that is at work, and what its file will hold.
  record Holds (all : List (List ℕ)) (l : Logger) : Type 0 where
    works : l.running ≡ true
    no_stop : All (λ t. t.stop ≡ false) l.wq
    kept : l.fout ++ lines l.wq ≡ all

  Holds-log :
      (severity : Severity) (text : List ℕ) (now : ℕ) (all : List (List ℕ)) (l : Logger)
      → Holds all l
      → Holds (all ++ log_line put_time (task_of severity text now) ∷ []) (log severity text now l)
  unfolding log push_task
  Holds-log severity text now all l h =
      let task = task_of severity text now in
      let end = push-end task l.wq in
      record {
        works = h.works;
        no_stop = rw end (All-append (λ t. t.stop ≡ false) l.wq (task ∷ []) h.no_stop (refl, tt));
        kept =
            ap (λ q. l.fout ++ lines q) end
            ∙ ap (λ bs. l.fout ++ bs) (map-append (log_line put_time) l.wq (task ∷ []))
            ∙ sym (append_assoc l.fout (lines l.wq) (log_line put_time task ∷ []))
            ∙ ap (λ bs. bs ++ log_line put_time task ∷ []) h.kept;
      }

  Holds-log_round :
      (all : List (List ℕ)) (l : Logger) → Holds all l → Holds all (log_round put_time l)
  unfolding log_round pop
  Holds-log_round all l h = by_state l.wq l.is_open l.fout l.running h
    where
      by_state :
          (q : List LogTask) (o : Bool) (out : List (List ℕ)) (b : Bool)
          → Holds all (record { wq = q; is_open = o; fout = out; running = b })
          → Holds all (log_round put_time (record { wq = q; is_open = o; fout = out; running = b }))
      by_state q o out false h = h
      by_state [] o out true h = h
      by_state (t ∷ q) o out true h = record {
        works = ap not h.no_stop.0;
        no_stop = h.no_stop.1;
        kept = append_assoc out (log_line put_time t ∷ []) (lines q) ∙ h.kept;
      }

  Holds-run :
      (es : List Event) (all : List (List ℕ)) (l : Logger)
      → Holds all l
      → Holds (all ++ lines (logged es)) (run put_time es l)
  unfolding run
  Holds-run [] all l h = rw (append-nil all) h
  Holds-run (logs severity text now ∷ es) all l h =
      rw
        (sym (
          append_assoc all (log_line put_time (task_of severity text now) ∷ [])
            (lines (logged es))))
        (Holds-run es (all ++ log_line put_time (task_of severity text now) ∷ [])
          (log severity text now l) (Holds-log severity text now all l h))
  Holds-run (rounds ∷ es) all l h =
      Holds-run es all (log_round put_time l) (Holds-log_round all l h)

  is_open-round : (l : Logger) → (log_round put_time l).is_open ≡ l.is_open
  unfolding log_round pop
  is_open-round l = by_state l.wq l.running
    where
      by_state :
          (q : List LogTask) (b : Bool)
          → (log_round put_time (record l { wq = q; running = b })).is_open ≡ l.is_open
      by_state q false = refl
      by_state [] true = refl
      by_state (t ∷ q) true = refl

  is_open-run : (es : List Event) (l : Logger) → (run put_time es l).is_open ≡ l.is_open
  unfolding run log push_task
  is_open-run [] l = refl
  is_open-run (logs severity text now ∷ es) l = is_open-run es (log severity text now l)
  is_open-run (rounds ∷ es) l = is_open-run es (log_round put_time l) ∙ is_open-round l

  abbrev pub log_rounds : ℕ → Logger → Logger
  log_rounds zero l = l
  log_rounds (suc n) l = log_rounds n (log_round put_time l)

  stopped_stays :
      (n : ℕ) (q : List LogTask) (o : Bool) (out : List (List ℕ))
      → log_rounds n (record { wq = q; is_open = o; fout = out; running = false })
        ≡ record { wq = q; is_open = o; fout = out; running = false }
  unfolding log_round
  stopped_stays zero q o out = refl
  stopped_stays (suc n) q o out = stopped_stays n q o out

  log_rounds-stop :
      (n : ℕ) (q : List LogTask) (stop : LogTask) (o : Bool) (out : List (List ℕ))
      → stop.stop ≡ true
      → All (λ t. t.stop ≡ false) q
      → length q < n
      → log_rounds n (record { wq = q ++ stop ∷ []; is_open = o; fout = out; running = true })
        ≡ record { wq = []; is_open = o; fout = out ++ lines (q ++ stop ∷ []); running = false }
  unfolding log_round pop log_line
  log_rounds-stop zero q stop o out is_stop h enough = absurd (omega arith)
  log_rounds-stop (suc n) [] stop o out is_stop h enough =
      rw is_stop (stopped_stays n [] o (out ++ log_line put_time stop ∷ []))
  log_rounds-stop (suc n) (t ∷ q) stop o out is_stop h enough = rw h.0 (
      log_rounds-stop n q stop o (out ++ log_line put_time t ∷ []) is_stop h.1
        (omega (arith, enough))
      ∙ ap (λ fs. record { wq = []; is_open = o; fout = fs; running = false })
          (append_assoc out (log_line put_time t ∷ []) (lines (q ++ stop ∷ []))))

  -- A logger, calls of Log from any threads and rounds of its own thread in any order, and then its
  -- destructor: once the thread has had a round for each line that waits and one more, it has ended,
  -- so that the destructor returns. If the file could be opened, it holds the headline, the lines of
  -- all calls in their order, and the last line; if not, nothing is written, and nobody is told.
  pub run-drop_logger :
      (opened : Bool) (headline : List ℕ) (es : List Event) (now n : ℕ)
      → length (run put_time es (new_logger opened headline)).wq < n
      → (let l = log_rounds n (drop_logger now (run put_time es (new_logger opened headline))) in
          (l.running ≡ false)
          × (l.wq ≡ [])
          × (file_lines l ≡ (
              if opened
              then headline ∷ lines (logged es) ++ log_line put_time (last_task now) ∷ []
              else [])))
  unfolding new_logger drop_logger push_task file_lines
  run-drop_logger opened headline es now n enough =
      let l = run put_time es (new_logger opened headline) in
      let h =
        Holds-run es (headline ∷ []) (new_logger opened headline)
          (record { works = refl; no_stop = tt; kept = refl }) in
      let stop = last_task now in
      let ended : log_rounds n (drop_logger now l) ≡ record {
        wq = [];
        is_open = opened;
        fout = headline ∷ lines (logged es) ++ log_line put_time stop ∷ [];
        running = false;
      } =
        rw (push-end stop l.wq, h.works, is_open-run es (new_logger opened headline))
          (log_rounds-stop n l.wq stop opened l.fout refl h.no_stop enough
            ∙ ap (λ fs. record { wq = []; is_open = opened; fout = fs; running = false })
                (ap (λ bs. l.fout ++ bs) (map-append (log_line put_time) l.wq (stop ∷ []))
                  ∙ sym (append_assoc l.fout (lines l.wq) (log_line put_time stop ∷ []))
                  ∙ ap (λ bs. bs ++ log_line put_time stop ∷ []) h.kept)) in
      (ap (λ q. q.running) ended, ap (λ q. q.wq) ended, ap file_lines ended)
