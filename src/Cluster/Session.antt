-- ===== src/Cluster/Session.antt =====
-- A session: requests of the block device one after the other, each polled until it is done.
pub mod Refinement
use iot_drive.Shared.{
  ℕ, zero, suc, false, ◌+◌, ◌%◌, ◌≤◌, ◌<◌, ◌≡◌, refl, sym, ap, subst, ◌∙◌, Bool, true, List, [],
  ◌∷◌, ◌++◌, append_assoc, append-nil, some, Outcome, ok, bind, arith, All, length,
}
use iot_drive.Raid.{minion_size, memory}
use iot_drive.ArgsKey.{
  ArgsKey, read_args, write_args, minion_read_args, minion_write_args, read_cmd_key, write_cmd_key,
}
use iot_drive.Message.Identity.{Uid}
use iot_drive.Response.Refinement.{answered, answered-has_response_recived}
use iot_drive.Storage.{slice, write_at}
use iot_drive.Proxy.{Memory}
use iot_drive.Proxy.Delivery.{tick, next_uid}
use iot_drive.Command.Requests.{
  ProcessFits, tick-ProcessFits, next_uid-UidFits, registered, run_master_task-read,
  run_master_task-write,
}
use iot_drive.Command.{AiFunc, read_ai, write_ai, run_master_task}
use iot_drive.Command.Polling.{Poller, success_text, read_poll, write_poll}
use iot_drive.Proxy.ResponseProxy.{Master}
use iot_drive.Response.{has_response_recived}
use iot_drive.Command.Waiting.{answered-registered, answered-registered_last, write_poll-unanswered}
use iot_drive.Command.BothAnswers.{write_poll_both}
use iot_drive.Cluster.{Cluster, deliver_all, arrive}
use iot_drive.Cluster.Mirror.{Mirrors}
use iot_drive.Cluster.Serve.{Runs, Works}
use iot_drive.Cluster.Delivered.{files}
use iot_drive.Cluster.Disk.{deliver_write}
use iot_drive.Cluster.Reading.{deliver_read}

-- The cluster with the two counters of WriteAIFunc.
pub record Session : Type 0 where
  pub cluster : Cluster
  pub og_counter : ℕ
  pub backup_counter : ℕ

abbrev pub poller : Session → Poller
poller s = record {
  master = s.cluster.master;
  og_counter = s.og_counter;
  backup_counter = s.backup_counter;
}

abbrev pub polled : Session → Poller → Session
polled s p = record {
  cluster = record (s.cluster) { master = p.master };
  og_counter = p.og_counter;
  backup_counter = p.backup_counter;
}

-- One run of an AI function by the scheduler; the flag says that it is done.
unfoldable pub poll : AiFunc → Session → Outcome (Bool × Session)
poll (read_ai uid) s = let (stops, p) = read_poll uid (poller s) in ok (stops, polled s p)
poll (write_ai og backup) s = bind (write_poll og backup (poller s)) λ r. ok (r.0, polled s (r.1))

-- Up to so many polls; the flag says that one of them has ended the request.
unfoldable pub polls : ℕ → AiFunc → Session → Outcome (Bool × Session)
polls zero ai s = ok (false, s)
polls (suc n) ai s =
    bind (poll ai s) λ r. elim (r.0) [ true ↦ ok (true, r.1) | false ↦ polls n ai (r.1) ]

-- When a request is polled, and in which order its datagrams are served: `early` polls come before any
-- of its answers, and one when all of them are in. No poll comes between two answers here.
pub record Timing : Type 0 where
  pub early : ℕ
  pub swapped : Bool

-- A request from its command to the poll that ends it. The flag says that this is the one that
-- comes after the answers.
unfoldable pub serve : Bool → Memory → Timing → ArgsKey → Session → Outcome (Bool × Session)
serve debug mem timing args s = bind (run_master_task debug mem args s.cluster.master) λ i.
    bind (polls timing.early i.ai (record s { cluster = record (s.cluster) { master = i.master } }))
      λ r. bind (deliver_all debug mem (arrive timing.swapped i.datagrams) r.1.cluster) λ c.
        elim (r.0) [
          | true ↦ ok (false, record (r.1) { cluster = c })
          | false ↦ poll i.ai (record (r.1) { cluster = c })
        ]

unfoldable pub serve_all :
    Bool → Memory → List (Timing × ArgsKey) → Session → Outcome (List Bool × Session)
serve_all debug mem [] s = ok ([], s)
serve_all debug mem ((timing, args) ∷ rs) s =
    bind (serve debug mem timing args s)
      λ r. bind (serve_all debug mem rs (r.1)) λ q. ok (r.0 ∷ q.0, q.1)

-- The device as it is promised: an array of bytes.
unfoldable pub disk_after : ArgsKey → (ℕ → ℕ) → ℕ → ℕ
disk_after (write_args key offset size (some bs)) disk = write_at disk offset bs
disk_after _ disk = disk

unfoldable pub reply : ArgsKey → (ℕ → ℕ) → List ℕ
reply (read_args key offset size) disk = slice disk offset size
reply _ disk = success_text

unfoldable pub disk_after_all : List (Timing × ArgsKey) → (ℕ → ℕ) → ℕ → ℕ
disk_after_all [] disk = disk
disk_after_all (r ∷ rs) disk = disk_after_all rs (disk_after (r.1) disk)

unfoldable pub replies : List (Timing × ArgsKey) → (ℕ → ℕ) → List (List ℕ)
replies [] disk = []
replies (r ∷ rs) disk = reply (r.1) disk ∷ replies rs (disk_after (r.1) disk)

-- A request of bytes of the device that lie in one of its 4 MB chunks.
abbrev pub InChunk : ℕ → ℕ → Type 0
InChunk offset n = (offset < memory) × (offset % minion_size + n ≤ minion_size)

pub data IsRequest : ArgsKey → Type 0 where
  a_read : (offset size : ℕ) → InChunk offset size → IsRequest (read_args read_cmd_key offset size)
  a_write :
      (offset : ℕ) (bs : List ℕ)
      → InChunk offset (length bs)
      → All (λ b. b < 256) bs
      → IsRequest (write_args write_cmd_key offset (length bs) (some bs))

-- A session that stands for a disk.
pub record Keeps (disk : ℕ → ℕ) (s : Session) : Type 0 where
  pub runs : Runs s.cluster
  pub mirrors : Mirrors (files s.cluster) disk

-- The polls of a write before its answers, which the counters of the process count.
abbrev pub counted : Timing → ArgsKey → ℕ
counted timing (write_args key offset size bytes) = timing.early
counted timing _ = 0

abbrev pub counted_all : List (Timing × ArgsKey) → ℕ
counted_all [] = 0
counted_all (r ∷ rs) = counted (r.0) (r.1) + counted_all rs

-- The counters are not full even after so many more polls.
abbrev pub Patient : ℕ → Session → Type 0
Patient n s = (s.og_counter + n ≤ 49) × (s.backup_counter + n ≤ 49)

-- The same for one request, which asks nothing of a read.
abbrev pub Waits : Timing → ArgsKey → ℕ → ℕ → Type 0
Waits timing (write_args key offset size bytes) og backup =
    (og + timing.early ≤ 49) × (backup + timing.early ≤ 49)
Waits timing _ og backup = Unit
