-- ===== src/Examples/Requests.antt =====
-- Several requests at once, two threads of a minion, and the log.
use iot_drive.Shared.{
  ℕ, ◌+◌, ◌%◌, ◌<◌, ◌≡◌, refl, true, false, List, [], ◌∷◌, ◌++◌, ok, arith, All, length, lookup,
  insert, take, replicate, codes, map,
}
use iot_drive.Message.Identity.{Uid}
use iot_drive.Response.{Watchlist, register_response}
use iot_drive.Response.Refinement.{answered}
use iot_drive.Storage.{write_at, slice}
use iot_drive.Command.Polling.{Poller, success_text, og_text, write_poll, read_poll}
use iot_drive.Command.Interleaved.{
  Silent, Other, write_polls, read_polls, answers, registers, Apart, write_poll-run, given_up_early,
  read_poll-run,
}
use iot_drive.Command.Interleaved
use iot_drive.Command.Race.{Access, access_all, Interleaved, write_accesses, write_accesses_race}
use iot_drive.Logger.{info, warning, log_line, new_logger, file_lines, drop_logger}
use iot_drive.Logger
use iot_drive.Logger.Drained
use iot_drive.Logger.Drained.{Event, logs, rounds, logged, log_rounds, last_task, run-drop_logger}
use iot_drive.Examples.Master.{process, used_file}

abbrev uid : ℕ → Uid
uid k = record { unique_counter = k; timestamp = 1700000000; pid = 4711; ip = k + 1 }

abbrev poller : Watchlist → Poller
poller w = record {
  master = record { process = process; watchlist = w; tcp_out = [] };
  og_counter = 0;
  backup_counter = 0;
}

abbrev both : Poller
both = poller (register_response (uid 2) (register_response (uid 1) []))

og_there : answered both.master.watchlist 1 ≡ true
unfolding register_response insert lookup
og_there = refl

backup_there : answered both.master.watchlist 2 ≡ true
unfolding register_response insert lookup
backup_there = refl

-- A second write is polled and answered, a read is polled, and a command registers its UID.
abbrev others : List Other
others = write_polls (uid 3) (uid 4) ∷ answers (uid 3) ∷ read_polls (uid 5) ∷ registers process ∷ []

others-Apart_1 : All (Apart 1) others
others-Apart_1 = ground arith

others-Apart_2 : All (Apart 2) others
others-Apart_2 = ground arith

write_poll-run_example :
    (t : Poller) × (u : Poller) × (Interleaved.run others both ≡ ok t)
    × (write_poll (uid 1) (uid 2) t ≡ ok (true, u))
    × (u.master.tcp_out ≡ t.master.tcp_out ++ success_text ∷ [])
write_poll-run_example =
    write_poll-run (uid 1) (uid 2) others both (omega arith) og_there backup_there others-Apart_1
      others-Apart_2

missing : (k : ℕ) → answered [] k ≡ false
unfolding lookup
missing k = refl

given_up_early_example :
    (t : Poller) × (u : Poller) × (Interleaved.run
        (replicate 49 (write_polls (uid 3) (uid 4)))
        (poller [])
      ≡ ok t)
    × (write_poll (uid 1) (uid 2) t ≡ ok (true, u))
    × (u.master.tcp_out ≡ take 15 og_text ∷ [])
given_up_early_example =
    given_up_early (uid 1) (uid 2) (uid 3) (uid 4) (poller []) (omega arith) (missing 3) (missing 4)
      (missing 1) refl refl

-- Its own poll comes among those of the others.
abbrev with_own : List Other
with_own = read_polls (uid 1) ∷ others

with_own-Silent : All (Silent 1) with_own
with_own-Silent = ground arith

read_poll-run_example :
    (t : Poller) × (u : Poller) × (Interleaved.run with_own (poller []) ≡ ok t)
    × (read_poll (uid 1) t ≡ (false, u))
    × (u.master.tcp_out ≡ t.master.tcp_out)
    × (answered u.master.watchlist 1 ≡ false)
read_poll-run_example = read_poll-run (uid 1) with_own (poller []) (missing 1) with_own-Silent

write_accesses_race_example :
    (calls : List Access) × Interleaved
      (write_accesses 0 (7 ∷ 8 ∷ []))
      (write_accesses 512 (9 ∷ []))
      calls
    × ((access_all calls used_file).content
        ≡ write_at (write_at (λ i. i % 256) 512 (7 ∷ 8 ∷ [])) 514 (9 ∷ []))
    × (slice (access_all calls used_file).content 0 2 ≡ slice (λ i. i % 256) 0 2)
write_accesses_race_example =
    write_accesses_race 0 512 (7 ∷ 8 ∷ []) (9 ∷ []) used_file refl (omega arith)

abbrev no_time : ℕ → List ℕ
no_time now = []

abbrev events : List Event
events = logs info (codes "one") 1 ∷ rounds ∷ logs warning (codes "two") 2 ∷ []

abbrev headline : List ℕ
headline = codes "Date"

one_waits : length (Drained.run no_time events (new_logger true headline)).wq < 2
unfolding Drained.run Logger.log Logger.push_task Logger.log_round new_logger iot_drive.Queue.push
    iot_drive.Queue.pop
one_waits = omega arith

run-drop_logger_example :
    let l =
      log_rounds no_time 2
        (drop_logger 3 (Drained.run no_time events (new_logger true headline))) in
    (l.running ≡ false)
    × (l.wq ≡ [])
    × (file_lines l
        ≡ headline ∷ map (log_line no_time) (logged events) ++ log_line no_time (last_task 3) ∷ [])
run-drop_logger_example = run-drop_logger no_time true headline events 3 2 one_waits
