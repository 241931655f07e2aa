-- ===== src/Examples/Disk.antt =====
-- A cluster of three minions with empty files, and a short session.
use iot_drive.Shared.{
  ℕ, ◌+◌, ◌%◌, ◌<◌, ◌≤◌, ◌*◌, ◌≡◌, refl, Bool, true, false, List, [], ◌∷◌, ◌++◌, some, ok, arith,
  All,
}
use iot_drive.Raid.{mb}
use iot_drive.ArgsKey.{ArgsKey, read_args, write_args, read_cmd_key, write_cmd_key}
use iot_drive.Storage.{BinFile}
use iot_drive.Storage.Fresh.{IsReady}
use iot_drive.Command.{Minion}
use iot_drive.Cluster.{Cluster}
use iot_drive.Cluster.Session.{
  Session, Timing, serve_all, disk_after_all, replies, IsRequest, a_read, a_write, Keeps,
}
use iot_drive.Cluster.Session.Refinement.{serve_all-refines}
use iot_drive.Raid.{memory, minion_size}
use iot_drive.Raid.Placement.{primary, backup}
use iot_drive.Response.Refinement.{answered}
use iot_drive.Storage.{write_at}
use iot_drive.Proxy.Delivery.{next_uid, tick}
use iot_drive.Command.{write_ai}
use iot_drive.Cluster.{perform}
use iot_drive.Cluster.Delivered.{files}
use iot_drive.Cluster.Device.{
  Io, reads, writes, Device, io_all, results, disk_with_all, IsIo, is_read, is_write, Rests,
  io_all-refines,
}
use iot_drive.Cluster.Crossing.{victim, perform_write_crossing}
use iot_drive.Examples.Master.{memory_of_zeros, process, process-ProcessFits, master}

abbrev zeros : BinFile
zeros = record { content = λ i. 0; size = 8 * mb; pos = 0; good = true; is_init = false }

zeros-IsReady : IsReady zeros
zeros-IsReady = record { is_good = refl; has_run = refl; holds = omega arith }

abbrev pub empty : Session
empty = record {
  cluster = record { master = master; minions = λ k. record { process = process; file = zeros } };
  og_counter = 0;
  backup_counter = 0;
}

pub empty-Keeps : Keeps (λ i. 0) empty
empty-Keeps = record {
  runs = record {
    fits = process-ProcessFits;
    works = λ k. record { timely = omega arith; ready = zeros-IsReady; bytes = λ i. omega arith };
  };
  mirrors = record { primary_copy = λ i lt. refl; backup_copy = λ i lt. refl };
}

abbrev at_once : Timing
at_once = record { early = 0; swapped = false }

abbrev waits : Timing
waits = record { early = 3; swapped = true }

-- Three bytes are written in the second chunk, the backup first and after three polls, and then four are read.
abbrev requests : List (Timing × ArgsKey)
requests =
    (waits, write_args write_cmd_key 5000000 3 (some (1 ∷ 2 ∷ 3 ∷ [])))
    ∷ (at_once, read_args read_cmd_key 4999999 4)
    ∷ []

requests-IsRequest : All (λ r. IsRequest (r.1)) requests
requests-IsRequest = (
  a_write 5000000 (1 ∷ 2 ∷ 3 ∷ []) (omega arith, omega arith)
      (omega arith, (omega arith, (omega arith, tt))),
  (a_read 4999999 4 (omega arith, omega arith), tt),
)

serve_all-refines_example :
    (flags : List Bool) × (s' : Session) × (serve_all true memory_of_zeros requests empty
      ≡ ok (flags, s'))
    × All (λ f. f ≡ true) flags
    × Keeps (disk_after_all requests (λ i. 0)) s'
    × (s'.cluster.master.tcp_out ≡ [] ++ replies requests (λ i. 0))
serve_all-refines_example =
    serve_all-refines true memory_of_zeros requests (λ i. 0) empty requests-IsRequest
      (omega arith, omega arith) empty-Keeps

-- What the block device is told.
replies_read :
    replies requests (λ i. 0) ≡ iot_drive.Command.Polling.success_text ∷ (0 ∷ 1 ∷ 2 ∷ 3 ∷ []) ∷ []
unfolding replies iot_drive.Cluster.Session.reply iot_drive.Cluster.Session.disk_after
    iot_drive.Storage.slice iot_drive.Storage.write_at
replies_read = refl

-- Eight bytes are written by the block device and four of them read, into a buffer of zeros.
abbrev pub idle : Device
idle = record { session = empty; to_master = []; to_client = [] }

abbrev calls : List (Timing × Io)
calls =
    (waits, writes 5000000 (1 ∷ 2 ∷ 3 ∷ 4 ∷ 5 ∷ 6 ∷ 7 ∷ 8 ∷ []))
    ∷ (at_once, reads 5000002 (0 ∷ 0 ∷ 0 ∷ 0 ∷ []))
    ∷ []

calls-IsIo : All (λ i. IsIo (i.1)) calls
calls-IsIo = (
  is_write 5000000 (1 ∷ 2 ∷ 3 ∷ 4 ∷ 5 ∷ 6 ∷ 7 ∷ 8 ∷ []) (omega arith, omega arith) (omega arith)
      (ground arith),
  (is_read 5000002 (0 ∷ 0 ∷ 0 ∷ 0 ∷ []) (omega arith, omega arith), tt),
)

pub idle-Rests : Rests (λ i. 0) idle
idle-Rests = record { keeps = empty-Keeps; nothing_asked = refl; nothing_told = refl }

io_all-refines_example :
    (d : Device) × (io_all true memory_of_zeros calls idle ≡ ok (results calls (λ i. 0), d))
    × Rests (disk_with_all calls (λ i. 0)) d
io_all-refines_example =
    io_all-refines true memory_of_zeros calls (λ i. 0) idle calls-IsIo (omega arith, omega arith)
      idle-Rests

-- Four bytes, two of which are in the next chunk.
perform_write_crossing_example :
    (c' : Cluster) × (perform true memory_of_zeros false
        (write_args write_cmd_key 4194302 4 (some (1 ∷ 2 ∷ 3 ∷ 4 ∷ [])))
        empty.cluster
      ≡ ok (write_ai (next_uid process) (next_uid (tick process)), c'))
    × (answered c'.master.watchlist 7 ≡ true)
    × (answered c'.master.watchlist 8 ≡ true)
    × ((t : ℕ)
        → t < 4
        → minion_size ≤ 4194302 % minion_size + t
        → 4194302 % minion_size + t < 2 * minion_size
        → 4194302 + t < memory
        → (files c' (primary (4194302 + t)).minion (primary (4194302 + t)).offset ≡ 0)
          × (files c' (backup (victim 4194302 t)).minion (backup (victim 4194302 t)).offset
              ≡ write_at (λ i. 0) 4194302 (1 ∷ 2 ∷ 3 ∷ 4 ∷ []) (4194302 + t)))
perform_write_crossing_example =
    perform_write_crossing 4194302 (1 ∷ 2 ∷ 3 ∷ 4 ∷ []) (λ i. 0) (omega arith) (omega arith)
      (ground arith) true memory_of_zeros empty.cluster empty-Keeps.runs false empty-Keeps.mirrors
