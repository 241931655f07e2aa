-- ===== src/Examples/Checks.antt =====
-- A program that stops at a checksum that does not match.
use iot_drive.Shared.{true, ℕ, ◌<◌, ◌≡◌, List, [], ◌∷◌, ◌++◌, map, length, codes, arith}
use iot_drive.Logger
use iot_drive.Logger.{new_logger, file_lines, drop_logger, log_line}
use iot_drive.Logger.Drained.{logged, last_task, log_rounds}
use iot_drive.ErrorHandler.{ℤ, pos, negsuc, Site}
use iot_drive.ErrorHandler.Failures.{
  Test, negative, not_equal, just, Check, Step, checks, logger_round, check_all, events_of, raised,
  check_all-drop_logger,
}

abbrev site : Site
site = record { file = codes "message.cpp"; line = 204; function = codes "FromBuffer" }

abbrev steps : List Step
steps =
    checks (record { test = negative (pos 3); message = codes "TCP read"; site = site; now = 1 })
    ∷ logger_round
    ∷ checks
        (record { test = not_equal 5 6; message = codes "Checksum Check"; site = site; now = 2 })
    ∷ checks (record { test = just; message = codes "OUT"; site = site; now = 3 })
    ∷ []

abbrev date : ℕ → List ℕ
date now = codes "now"

abbrev headline : List ℕ
headline = codes "Date"

one_waits : length ((check_all date steps (new_logger true headline)).0).wq < 2
unfolding check_all iot_drive.ErrorHandler.Failures.perform iot_drive.ErrorHandler.negative_check
    iot_drive.ErrorHandler.not_equal_to_check Logger.log Logger.push_task Logger.log_round
    new_logger iot_drive.Queue.push iot_drive.Queue.pop
one_waits = omega arith

check_all-drop_logger_example :
    ((check_all date steps (new_logger true headline)).1 ≡ raised steps)
    × (file_lines
          (log_rounds date 2 (drop_logger 4 ((check_all date steps (new_logger true headline)).0)))
        ≡ headline ∷ map (log_line date) (logged (events_of steps))
          ++ log_line date (last_task 4) ∷ [])
check_all-drop_logger_example = check_all-drop_logger date true headline steps 4 2 one_waits
