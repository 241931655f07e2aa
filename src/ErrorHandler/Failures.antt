-- ===== src/ErrorHandler/Failures.antt =====
-- Checks one after the other, until one fails, and what they leave in the log file.
use iot_drive.Shared.{
  ℕ, ◌<◌, ◌≡◌, refl, ap, subst, ◌∙◌, Bool, false, not, List, [], ◌∷◌, ◌++◌, Option, none, some, map,
  length, ◌==◌, if◌then◌else◌, inl, inr, Bool-cases, arith,
}
use iot_drive.Logger.{info, Logger, new_logger, file_lines, log, log_line, log_round, drop_logger}
use iot_drive.Logger.Drained
use iot_drive.Logger.Drained.{Event, logs, rounds, logged, last_task, log_rounds, run-drop_logger}
use iot_drive.ErrorHandler.{
  ℤ, Site, phrase_line, fail_text, success_text, is_negative, negative_check, equal_to_check,
  not_equal_to_check, just_log,
}

-- The calls of the program; the values of the equalities are pointers, checksums and codes.
pub data Test : Type 0 where
  negative : ℤ → Test
  equal not_equal : ℕ → ℕ → Test
  just : Test

pub record Check : Type 0 where
  pub test : Test
  pub message : List ℕ
  pub site : Site
  pub now : ℕ

unfoldable pub perform : Check → Logger → Logger × Option (List ℕ)
perform c l = elim (c.test) [
  | negative value ↦ negative_check value c.message c.site c.now l
  | equal value check_value ↦ equal_to_check ◌==◌ value check_value c.message c.site c.now l
  | not_equal value check_value ↦ not_equal_to_check ◌==◌ value check_value c.message c.site c.now l
  | just ↦ (just_log c.message c.site c.now l, none)
]

-- A check of the program, or a round of the thread of the logger.
pub data Step : Type 0 where
  checks : Check → Step
  logger_round : Step

abbrev unless_raised {ℓ} :
    {A : Type ℓ} → A × Option (List ℕ) → (A → A × Option (List ℕ)) → A × Option (List ℕ)
unless_raised (a, none) k = k a
unless_raised (a, some text) k = (a, some text)

-- The program runs up to the first exception.
unfoldable pub check_all : (ℕ → List ℕ) → List Step → Logger → Logger × Option (List ℕ)
check_all put_time [] l = (l, none)
check_all put_time (checks c ∷ ss) l = unless_raised (perform c l) (check_all put_time ss)
check_all put_time (logger_round ∷ ss) l = check_all put_time ss (log_round put_time l)

-- What the checks mean.
abbrev fails : Check → Bool
fails c = elim (c.test) [
  | negative value ↦ is_negative value
  | equal value check_value ↦ check_value == value
  | not_equal value check_value ↦ not (check_value == value)
  | just ↦ false
]

-- The line that a check writes.
abbrev line_of : Check → List ℕ
line_of c = elim (c.test) [
  | just ↦ phrase_line c.message c.site
  | _ ↦ phrase_line c.message c.site ++ (if fails c then fail_text else success_text)
]

-- Up to the first check that fails: the events of the log, and the exception.
abbrev pub events_of : List Step → List Event
events_of [] = []
events_of (logger_round ∷ ss) = rounds ∷ events_of ss
events_of (checks c ∷ ss) = logs info (line_of c) c.now ∷ (if fails c then [] else events_of ss)

abbrev pub raised : List Step → Option (List ℕ)
raised [] = none
raised (logger_round ∷ ss) = raised ss
raised (checks c ∷ ss) = if fails c then some (line_of c) else raised ss

perform_lem :
    (c : Check) (l : Logger)
    → perform c l ≡ (log info (line_of c) c.now l, if fails c then some (line_of c) else none)
unfolding perform negative_check equal_to_check not_equal_to_check just_log
perform_lem c l = ground arith

check_all-run :
    (put_time : ℕ → List ℕ) (ss : List Step) (l : Logger)
    → check_all put_time ss l ≡ (Drained.run put_time (events_of ss) l, raised ss)
unfolding check_all Drained.run
check_all-run put_time [] l = refl
check_all-run put_time (logger_round ∷ ss) l = check_all-run put_time ss (log_round put_time l)
check_all-run put_time (checks c ∷ ss) l = elim (Bool-cases (fails c)) [
  | inl y ↦ rw (perform_lem c l, y) refl
  | inr n ↦ rw (perform_lem c l, n) (check_all-run put_time ss (log info (line_of c) c.now l))
]

-- The checks and JustLog calls of a program, with the rounds of the thread of the logger in between:
-- the exception is that of the first check that fails, and none if no check fails. Once the logger is
-- destroyed and its thread has had a round for each line that waits and one more, the log file, if it
-- could be opened, holds the headline, one line for each call up to that one, and the last line; the
-- line of a check ends in FAIL for that one and in SUCCESS for those before, and that of JustLog in
-- its message. A file that could not be opened holds nothing.
pub check_all-drop_logger :
    (put_time : ℕ → List ℕ) (opened : Bool) (headline : List ℕ) (ss : List Step) (now n : ℕ)
    → length ((check_all put_time ss (new_logger opened headline)).0).wq < n
    → ((check_all put_time ss (new_logger opened headline)).1 ≡ raised ss)
      × (file_lines (
            log_rounds put_time n
              (drop_logger now ((check_all put_time ss (new_logger opened headline)).0)))
          ≡ (if opened
              then headline ∷ map (log_line put_time) (logged (events_of ss))
                ++ log_line put_time (last_task now) ∷ []
              else []))
check_all-drop_logger put_time opened headline ss now n enough =
    let e = check_all-run put_time ss (new_logger opened headline) in
    let logger : (check_all put_time ss (new_logger opened headline)).0
        ≡ Drained.run put_time (events_of ss) (new_logger opened headline) =
      ap (λ r. r.0) e in
    let (_, _, holds) =
      run-drop_logger put_time opened headline (events_of ss) now n
        (subst (λ l. length l.wq < n) logger enough) in
    (
      ap (λ r. r.1) e,
      ap (λ l. file_lines (log_rounds put_time n (drop_logger now l))) logger ∙ holds,
    )
