-- ===== src/Cluster/Crossing.antt =====
-- A write that crosses the boundary of a 4 MB chunk.
use iot_drive.Shared.{
  ℕ, ◌+◌, ◌-◌, ◌*◌, ◌/◌, ◌%◌, ◌^◌, ◌≤◌, ◌<◌, ◌≡◌, sym, ap, ap₂, ◌∙◌, inl, Bool, true, List, some,
  ok, arith, All, length,
}
use iot_drive.Raid.{minion_size, memory}
use iot_drive.Raid.Placement.{primary, backup}
use iot_drive.ArgsKey.{write_args, write_cmd_key}
use iot_drive.Response.Refinement.{answered}
use iot_drive.Storage.{write_at}
use iot_drive.Storage.Slices.{write_at-outside, write_at-inside}
use iot_drive.Proxy.{Memory}
use iot_drive.Proxy.Delivery.{tick, next_uid}
use iot_drive.Command.{write_ai}
use iot_drive.Cluster.{Cluster, perform}
use iot_drive.Cluster.Mirror.{Mirrors, Wrote}
use iot_drive.Cluster.Serve.{Runs}
use iot_drive.Cluster.Delivered.{files}
use iot_drive.Cluster.Writing.{perform_write_any}

-- The byte whose backup copy has its place right where byte `t` of a write goes, behind the end of
-- the chunk.
abbrev pub victim : ℕ → ℕ → ℕ
victim offset t =
    (offset / minion_size + 2) % 3 * minion_size + (offset % minion_size + t - minion_size)

module _ (offset t : ℕ) (bs : List ℕ) (fs fs' : ℕ → ℕ → ℕ) (disk : ℕ → ℕ) (inside : offset < memory)
    (m : Mirrors fs disk) (w : Wrote offset bs fs fs') (sent : t < length bs)
    (behind : minion_size ≤ offset % minion_size + t)
    (near : offset % minion_size + t < 2 * minion_size) where
  primary_stays :
      offset + t < memory
      → fs' (primary (offset + t)).minion (primary (offset + t)).offset ≡ disk (offset + t)
  primary_stays lt =
      let l = (offset / minion_size + 1) % 3 in
      let j = (offset + t) % minion_size in
      let same : (offset + t) / minion_size ≡ l = omega arith in
      ap (λ k. fs' k j) same
      ∙ ap (λ f. f j) w.at_backup
      ∙ write_at-outside (fs l) (offset % minion_size + minion_size) bs j (inl (omega arith))
      ∙ ap (λ k. fs k j) (sym same)
      ∙ m.primary_copy (offset + t) lt

  backup_overwritten :
      fs' (backup (victim offset t)).minion (backup (victim offset t)).offset
      ≡ write_at disk offset bs (offset + t)
  backup_overwritten =
      let k = offset / minion_size in
      let p = offset % minion_size in
      let same : (victim offset t / minion_size + 1) % 3 ≡ k = omega arith in
      let place : victim offset t % minion_size + minion_size ≡ p + t = omega arith in
      ap₂ fs' same place
      ∙ ap (λ f. f (p + t)) w.at_primary
      ∙ write_at-inside (fs k) disk p offset bs t sent

-- A write that begins inside the device and goes on behind the end of its chunk: both minions answer
-- with success, and yet each byte behind the end, within the next chunk, is not in its primary copy,
-- which keeps its old value, but in the place of the backup copy of another byte. The cluster stands for a disk before, and no datagram is lost.
pub perform_write_crossing :
    (offset : ℕ) (bs : List ℕ) (disk : ℕ → ℕ)
    → offset < memory
    → length bs < 2 ^ 32
    → All (λ b. b < 256) bs
    → (debug : Bool) (mem : Memory) (c : Cluster) → Runs c
    → (swapped : Bool) → Mirrors (files c) disk
    → (c' : Cluster) × (perform debug mem swapped
          (write_args write_cmd_key offset (length bs) (some bs))
          c
        ≡ ok (write_ai (next_uid c.master.process) (next_uid (tick c.master.process)), c'))
      × (answered c'.master.watchlist (next_uid c.master.process).unique_counter ≡ true)
      × (answered c'.master.watchlist (next_uid (tick c.master.process)).unique_counter ≡ true)
      × ((t : ℕ)
          → t < length bs
          → minion_size ≤ offset % minion_size + t
          → offset % minion_size + t < 2 * minion_size
          → offset + t < memory
          → (files c' (primary (offset + t)).minion (primary (offset + t)).offset
              ≡ disk (offset + t))
            × (files c' (backup (victim offset t)).minion (backup (victim offset t)).offset
                ≡ write_at disk offset bs (offset + t)))
perform_write_crossing offset bs disk inside short b debug mem c r swapped m =
    let (c', done, d) = perform_write_any offset bs inside short b debug mem c r swapped in
    (
      c',
      done,
      d.og_answered,
      d.backup_answered,
      λ t sent behind near lt. (
        primary_stays offset t bs (files c) (files c') disk inside m d.wrote sent behind near lt,
        backup_overwritten offset t bs (files c) (files c') disk inside m d.wrote sent behind near,
      ),
    )
