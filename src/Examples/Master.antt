-- ===== src/Examples/Master.antt =====
-- The master: placement, commands, answers and polls.
use iot_drive.Shared.{
  ℕ, ◌*◌, ◌<◌, ◌≤◌, ◌≡◌, ◌≢◌, refl, ◌⊎◌, true, false, [], ◌∷◌, ok, fault, arith, replicate, lookup,
  insert, length-replicate, ◌%◌,
}
use iot_drive.Raid.{Target, minion_size, memory, mb, offset_to_proxy}
use iot_drive.Raid.Placement.{primary, backup, offset_to_proxy_bounds, offset_to_proxy_injective}
use iot_drive.Message.Identity.{Uid, new_uid}
use iot_drive.Message.Format.{UidFits}
use iot_drive.Storage.{BinFile, get_bin_file}
use iot_drive.Storage.Fresh.{IsReady, get_bin_file_first}
use iot_drive.Response.{Watchlist, register_command, register_response, has_response_recived}
use iot_drive.Response.Refinement.{answered}
use iot_drive.Proxy.{Memory, Process}
use iot_drive.Proxy.ResponseProxy.{Master}
use iot_drive.Command.{Minion}
use iot_drive.Command.Polling.{Poller}
use iot_drive.Command.LostAnswer.{polls, answers, run, Unconfirmed, answer_lost}
use iot_drive.Command.Requests.{ProcessFits}

-- Memory full of zeros.
abbrev pub memory_of_zeros : Memory
memory_of_zeros = record { fresh = λ n. replicate n 0; length-fresh = length-replicate 0 }

abbrev pub process : Process
process = record { counter = 7; now = 1700000000; pid = 4711 }

abbrev pub master : Master
master = record { process = process; watchlist = []; tcp_out = [] }

pub process-ProcessFits : ProcessFits process
process-ProcessFits = record {
  counter_fits = omega arith;
  now_fits = omega arith;
  pid_fits = omega arith;
  timely = omega arith;
}

abbrev pub og : Uid
og = record { unique_counter = 7; timestamp = 1700000000; pid = 4711; ip = 8 }

abbrev pub second : Uid
second = record { unique_counter = 8; timestamp = 1700000000; pid = 4711; ip = 9 }

pub og-UidFits : UidFits og
og-UidFits = record {
  counter_fits = omega arith;
  timestamp_fits = omega arith;
  pid_fits = omega arith;
  ip_fits = omega arith;
}

offset_to_proxy_bounds_example :
    ((9000000 < memory)
      × ((p : Target) × (b : Target) × (offset_to_proxy 9000000 ≡ ok (p, b))
          × (p.minion ≢ b.minion)
          × (p.minion < 3)
          × (b.minion < 3)
          × (p.offset < minion_size)
          × (minion_size ≤ b.offset)
          × (b.offset < 2 * minion_size)))
    ⊎ ((memory ≤ 9000000) × (offset_to_proxy 9000000 ≡ fault))
offset_to_proxy_bounds_example = offset_to_proxy_bounds 9000000

placed :
    (offset : ℕ) → offset < memory → offset_to_proxy offset ≡ ok (primary offset, backup offset)
unfolding offset_to_proxy
placed offset h = ground arith

-- Two offsets of the device.
abbrev one : ℕ
one = 9000000

abbrev other : ℕ
other = 5

offset_to_proxy_injective_example :
    (primary one ≡ primary other → one ≡ other)
    × (backup one ≡ backup other → one ≡ other)
    × (primary one ≢ backup other)
offset_to_proxy_injective_example =
    offset_to_proxy_injective one other (primary one) (backup one) (primary other) (backup other)
      (placed one (omega arith)) (placed other (omega arith))

registers :
    register_command 7 1700000000 4711 []
    ≡ ok (og, 8, insert 7 iot_drive.Response.processing_request [])
unfolding register_command new_uid
registers = refl

-- The first answer is there, the second not.
abbrev poller : Watchlist → Poller
poller w = record {
  master = record { process = process; watchlist = w; tcp_out = [] };
  og_counter = 0;
  backup_counter = 0;
}

one_answered : answered (register_response og []) 7 ≡ true
unfolding register_response insert lookup
one_answered = refl

other_missing : answered (register_response og []) 8 ≡ false
unfolding register_response insert lookup
other_missing = refl

answer_lost_example :
    (u : Poller) × (run og second
        (polls ∷ answers second ∷ polls ∷ [])
        (poller (register_response og []))
      ≡ ok u)
    × Unconfirmed u.master
answer_lost_example =
    answer_lost og second (answers second ∷ polls ∷ []) (poller (register_response og []))
      one_answered other_missing tt ((λ e. cc), (tt, tt))

abbrev two_answers : Watchlist
two_answers = register_response second (register_response og [])

og_there : answered two_answers 7 ≡ true
unfolding register_response insert lookup
og_there = refl

second_there : answered two_answers 8 ≡ true
unfolding register_response insert lookup
second_there = refl

-- A file of 8 MB that has been in use.
abbrev pub used_file : BinFile
used_file = record { content = λ i. i % 256; size = 8 * mb; pos = 0; good = true; is_init = false }

pub used_file-IsReady : IsReady used_file
used_file-IsReady = record { is_good = refl; has_run = refl; holds = omega arith }

abbrev pub minion : Minion
minion = record { process = process; file = used_file }

-- The file of a process that has just started, with the blocks of an earlier run.
abbrev reopened : BinFile
reopened = record used_file { is_init = true }

get_bin_file_first_example :
    IsReady (get_bin_file reopened) × ((i : ℕ) → i < 8 * mb → (get_bin_file reopened).content i ≡ 0)
get_bin_file_first_example = get_bin_file_first reopened refl refl refl
