-- ===== src/Logger.antt =====
-- logger.hpp and logger.cpp: the log file, written by a thread of its own that takes tasks from a
-- WaitableQueue over std::queue. How a time is printed, and whether the file can be opened, are
-- parameters.
pub mod Drained
use iot_drive.Shared.{
  ℕ, Bool, true, false, not, List, [], ◌∷◌, ◌++◌, none, some, codes, if◌then◌else◌,
}
use iot_drive.Queue.{push, pop}

pub data Severity : Type 0 where
  info warning error : Severity

pub record LogTask : Type 0 where
  pub string_to_log : List ℕ
  pub severity : Severity
  pub time : ℕ
  pub stop : Bool

-- `fout` holds the lines that have been written to the stream, whose file is open or not; `running` is
-- the loop of LogThreadFunc.
pub record Logger : Type 0 where
  pub wq : List LogTask
  pub is_open : Bool
  pub fout : List (List ℕ)
  pub running : Bool

abbrev pub sever_str : Severity → List ℕ
sever_str info = codes "INFO - "
sever_str warning = codes "WARNING - "
sever_str error = codes "ERROR - "

-- LogTask::Run.
unfoldable pub log_line : (ℕ → List ℕ) → LogTask → List ℕ
log_line put_time task =
    put_time task.time ++ codes " - " ++ sever_str task.severity ++ task.string_to_log

-- The constructor; PhraseLine there only makes a string.
-- Nobody asks whether `m_fout.open` has opened the file; it does not make the directory `logs`.
unfoldable pub new_logger : Bool → List ℕ → Logger
new_logger opened headline = record {
  wq = [];
  is_open = opened;
  fout = headline ∷ [];
  running = true;
}

-- The lines of the file: a stream that is not open drops what is written to it.
unfoldable pub file_lines : Logger → List (List ℕ)
file_lines l = if l.is_open then l.fout else []

-- A push on std::queue.
unfoldable pub push_task : LogTask → Logger → Logger
push_task task l = record l { wq = push (λ a b. false) task l.wq }

unfoldable pub log : Severity → List ℕ → ℕ → Logger → Logger
log severity string_to_log now l =
    push_task
      (record { string_to_log = string_to_log; severity = severity; time = now; stop = false }) l

-- One round of LogThreadFunc, which waits while the queue is empty.
unfoldable pub log_round : (ℕ → List ℕ) → Logger → Logger
log_round put_time l = elim (l.running) [
  | false ↦ l
  | true ↦ elim (pop l.wq) [
    | none ↦ l
    | some (out, rest) ↦ record {
      wq = rest;
      is_open = l.is_open;
      fout = l.fout ++ log_line put_time out ∷ [];
      running = not out.stop;
    }
  ]
]

-- The destructor up to its `join`.
unfoldable pub drop_logger : ℕ → Logger → Logger
drop_logger now l =
    push_task
      (record { string_to_log = codes "Log End\n"; severity = info; time = now; stop = true }) l
