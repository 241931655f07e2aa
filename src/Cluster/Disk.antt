-- ===== src/Cluster/Disk.antt =====
-- A write of bytes in one chunk: it keeps the cluster a mirrored disk.
use iot_drive.Shared.{ℕ, ◌+◌, ◌%◌, ◌≤◌, ◌<◌, ◌≡◌, Bool, true, List, ok, arith, All, length}
use iot_drive.Raid.{minion_size, memory}
use iot_drive.Message.Identity.{Uid}
use iot_drive.Response.Refinement.{answered}
use iot_drive.Storage.{write_at}
use iot_drive.Proxy.{Memory}
use iot_drive.Message.Format.{UidFits}
use iot_drive.Cluster.{Cluster, deliver_all, arrive}
use iot_drive.Cluster.Mirror.{Mirrors, Wrote-Mirrors}
use iot_drive.Cluster.Serve.{Runs}
use iot_drive.Cluster.Delivered.{files}
use iot_drive.Cluster.Writing.{write_datagrams, deliver_write_any}

-- What a write command leaves once both answers are in, and what it promises of the device.
pub record Written (offset : ℕ) (bs : List ℕ) (disk : ℕ → ℕ) (out : List (List ℕ)) (u v : Uid)
    (c' : Cluster) : Type 0 where
  pub still_runs : Runs c'
  pub mirrors : Mirrors (files c') (write_at disk offset bs)
  pub og_answered : answered c'.master.watchlist u.unique_counter ≡ true
  pub backup_answered : answered c'.master.watchlist v.unique_counter ≡ true
  pub untold : c'.master.tcp_out ≡ out

pub deliver_write :
    (offset : ℕ) (bs : List ℕ) (disk : ℕ → ℕ)
    → offset < memory
    → offset % minion_size + length bs ≤ minion_size
    → All (λ b. b < 256) bs
    → (debug : Bool) (mem : Memory) (u v : Uid) → UidFits u
    → UidFits v
    → (c : Cluster) → Runs c
    → (swapped : Bool) → Mirrors (files c) disk
    → (c' : Cluster) × (deliver_all debug mem (arrive swapped (write_datagrams offset bs u v)) c
        ≡ ok c')
      × Written offset bs disk c.master.tcp_out u v c'
deliver_write offset bs disk inside in_chunk b debug mem u v u_fits v_fits c r swapped m =
    let (c', done, d) =
      deliver_write_any offset bs inside (omega (arith, in_chunk)) b debug mem u v u_fits v_fits c r
        swapped in
    (
      c',
      done,
      record {
        still_runs = d.still_runs;
        mirrors = Wrote-Mirrors offset bs (files c) (files c') disk inside in_chunk m d.wrote;
        og_answered = d.og_answered;
        backup_answered = d.backup_answered;
        untold = d.untold;
      },
    )
