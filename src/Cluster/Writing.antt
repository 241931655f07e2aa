-- ===== src/Cluster/Writing.antt =====
-- A write of the block device, from the command of the master to the last answer: which bytes of the
-- block files it changes, whatever its range.
use iot_drive.Shared.{
  ℕ, ◌^◌, ◌<◌, ◌≡◌, Bool, true, false, List, [], ◌∷◌, some, ok, arith, All, length,
}
use iot_drive.Raid.{memory}
use iot_drive.Raid.Placement.{primary, backup}
use iot_drive.ArgsKey.{write_args, write_cmd_key}
use iot_drive.Message.Identity.{Uid}
use iot_drive.Message.{new_write_msg}
use iot_drive.Message.Format.{encode, UidFits}
use iot_drive.Proxy.{Memory}
use iot_drive.Proxy.Delivery.{tick, next_uid}
use iot_drive.Command.{write_ai}
use iot_drive.Command.Requests.{tick-ProcessFits, next_uid-UidFits, run_master_task-write}
use iot_drive.Cluster.{Cluster, deliver, deliver_all, arrive, perform}
use iot_drive.Cluster.Serve.{Runs, after_write, deliver-write, after_write-Runs}
use iot_drive.Cluster.Delivered.{
  files, issued_write, issued_write-Runs, Delivered, Delivered-primary_first,
  Delivered-backup_first,
}

-- The two datagrams of the command.
abbrev pub write_datagrams : ℕ → List ℕ → Uid → Uid → List (ℕ × List ℕ)
write_datagrams offset bs u v =
    (
      (primary offset).minion,
      encode (new_write_msg (primary offset).offset (length bs) (some bs) u),
    )
    ∷ (
      (backup offset).minion,
      encode (new_write_msg (backup offset).offset (length bs) (some bs) v),
    )
    ∷ []

module _ (offset : ℕ) (bs : List ℕ) (inside : offset < memory) (short : length bs < 2 ^ 32)
    (b : All (λ b. b < 256) bs) where
  module _ (debug : Bool) (mem : Memory) (u v : Uid) (u_fits : UidFits u) (v_fits : UidFits v)
      (c : Cluster) (r : Runs c) where
    to_primary :
        (c : Cluster)
        → Runs c
        → deliver debug mem
            (
              (primary offset).minion,
              encode (new_write_msg (primary offset).offset (length bs) (some bs) u),
            )
            c
          ≡ ok (after_write (primary offset).minion (primary offset).offset bs u c)
    to_primary c' r' =
        deliver-write debug mem _ (primary offset).offset bs u c' r' u_fits (omega arith)
          (omega arith) b

    to_backup :
        (c : Cluster)
        → Runs c
        → deliver debug mem
            (
              (backup offset).minion,
              encode (new_write_msg (backup offset).offset (length bs) (some bs) v),
            )
            c
          ≡ ok (after_write (backup offset).minion (backup offset).offset bs v c)
    to_backup c' r' =
        deliver-write debug mem _ (backup offset).offset bs v c' r' v_fits (omega arith)
          (omega arith) b

    -- Their delivery in either order.
    pub deliver_write_any :
        (swapped : Bool)
        → (c' : Cluster) × (deliver_all debug mem (arrive swapped (write_datagrams offset bs u v)) c
            ≡ ok c')
          × Delivered offset bs (files c) c.master.tcp_out u v c'
    unfolding deliver_all
    deliver_write_any false = (
      _,
      rw (
        to_primary c r,
        to_backup (after_write (primary offset).minion (primary offset).offset bs u c)
            (after_write-Runs (primary offset).minion (primary offset).offset bs u c b r),
      ),
      Delivered-primary_first offset bs inside short b u v c r,
    )
    deliver_write_any true = (
      _,
      rw (
        to_backup c r,
        to_primary (after_write (backup offset).minion (backup offset).offset bs v c)
            (after_write-Runs (backup offset).minion (backup offset).offset bs v c b r),
      ),
      Delivered-backup_first offset bs inside short b u v c r,
    )

  module _ (debug : Bool) (mem : Memory) (c : Cluster) (r : Runs c) where
    abbrev og_uid : Uid
    og_uid = next_uid c.master.process

    abbrev backup_uid : Uid
    backup_uid = next_uid (tick c.master.process)

    pub perform_write_any :
        (swapped : Bool)
        → (c' : Cluster) × (perform debug mem swapped
              (write_args write_cmd_key offset (length bs) (some bs))
              c
            ≡ ok (write_ai og_uid backup_uid, c'))
          × Delivered offset bs (files c) c.master.tcp_out og_uid backup_uid c'
    unfolding perform
    perform_write_any swapped =
        let (c', done, d) =
          deliver_write_any debug mem og_uid backup_uid (next_uid-UidFits c.master.process r.fits)
            (next_uid-UidFits (tick c.master.process) (tick-ProcessFits c.master.process r.fits))
            (issued_write c) (issued_write-Runs c r) swapped in
        (
          c',
          rw (
            run_master_task-write debug mem c.master r.fits offset bs inside (omega arith) b,
            done,
          ),
          d,
        )
