-- ===== src/Cluster/Reading.antt =====
-- A read of the block device, from the command to the answer.
use iot_drive.Shared.{
  ℕ, ◌+◌, ◌%◌, ◌/◌, ◌≤◌, ◌<◌, ◌≡◌, ap, ap₂, ◌∙◌, Bool, true, false, List, [], ◌∷◌, ◌++◌, ok, arith,
}
use iot_drive.Raid.{minion_size, memory}
use iot_drive.Raid.Placement.{primary, backup}
use iot_drive.Response.Refinement.{answered, answered_last}
use iot_drive.Message.Identity.{Uid}
use iot_drive.Message.{new_read_msg}
use iot_drive.Message.Format.{encode, UidFits}
use iot_drive.Storage.{slice}
use iot_drive.Storage.Slices.{slice-cong}
use iot_drive.Proxy.{Memory}
use iot_drive.Cluster.{Cluster, deliver_all, arrive}
use iot_drive.Cluster.Mirror.{Mirrors}
use iot_drive.Cluster.Serve.{Runs, after_read, deliver-read, after_read-Runs}
use iot_drive.Cluster.Delivered.{files}

-- Serving a read changes no block.
files-after_read :
    (k p n j : ℕ) (u : Uid) (c : Cluster) → files (after_read k p n u c) j ≡ files c j
files-after_read k p n j u c = ground arith

Mirrors-cong :
    (fs gs : ℕ → ℕ → ℕ) (disk : ℕ → ℕ) → ((k : ℕ) → gs k ≡ fs k) → Mirrors fs disk → Mirrors gs disk
Mirrors-cong fs gs disk h m = record {
  primary_copy =
      λ i lt. ap (λ f. f (primary i).offset) (h (primary i).minion) ∙ m.primary_copy i lt;
  backup_copy = λ i lt. ap (λ f. f (backup i).offset) (h (backup i).minion) ∙ m.backup_copy i lt;
}

-- The bytes in the minion of the primary copies are those of the disk.
pub slice-primary :
    (fs : ℕ → ℕ → ℕ) (disk : ℕ → ℕ) (offset size : ℕ)
    → offset < memory
    → offset % minion_size + size ≤ minion_size
    → Mirrors fs disk
    → slice (fs (primary offset).minion) (primary offset).offset size ≡ slice disk offset size
slice-primary fs disk offset size inside in_chunk m =
    slice-cong (fs (offset / minion_size)) disk (offset % minion_size) offset size
      (λ i lt. ap₂ fs (chunk i lt) (place i lt) ∙ m.primary_copy (offset + i) (omega arith))
  where
    chunk : (i : ℕ) → i < size → offset / minion_size ≡ (offset + i) / minion_size
    chunk i lt = omega arith

    place : (i : ℕ) → i < size → offset % minion_size + i ≡ (offset + i) % minion_size
    place i lt = omega arith

-- What a read command leaves once its answer is in.
pub record WasRead (offset size : ℕ) (disk : ℕ → ℕ) (out : List (List ℕ)) (u : Uid) (c' : Cluster)
    : Type 0 where
  pub still_runs : Runs c'
  pub mirrors : Mirrors (files c') disk
  pub answered_it : answered c'.master.watchlist u.unique_counter ≡ true
  pub told : c'.master.tcp_out ≡ out ++ slice disk offset size ∷ []

-- The one datagram of the command.
abbrev pub read_datagrams : ℕ → ℕ → Uid → List (ℕ × List ℕ)
read_datagrams offset size u =
    ((primary offset).minion, encode (new_read_msg (primary offset).offset size u)) ∷ []

module _ (offset size : ℕ) (disk : ℕ → ℕ) (inside : offset < memory)
    (in_chunk : offset % minion_size + size ≤ minion_size) (debug : Bool) (mem : Memory) (u : Uid)
    (u_fits : UidFits u) (c : Cluster) (r : Runs c) (m : Mirrors (files c) disk) where
  read_done :
      (swapped : Bool)
      → deliver_all debug mem (arrive swapped (read_datagrams offset size u)) c
        ≡ ok (after_read (primary offset).minion (primary offset).offset size u c)
  unfolding deliver_all
  read_done false = rw (
      deliver-read debug mem (primary offset).minion (primary offset).offset size u c r u_fits
        (omega arith) (omega arith) (omega arith))
  read_done true = rw (
      deliver-read debug mem (primary offset).minion (primary offset).offset size u c r u_fits
        (omega arith) (omega arith) (omega arith))

  pub deliver_read :
      (swapped : Bool)
      → (c' : Cluster) × (deliver_all debug mem (arrive swapped (read_datagrams offset size u)) c
          ≡ ok c')
        × WasRead offset size disk c.master.tcp_out u c'
  deliver_read swapped = (
    _,
    read_done swapped,
    record {
      still_runs = after_read-Runs (primary offset).minion (primary offset).offset size u c r;
      mirrors =
          Mirrors-cong (files c) _ disk
            (λ j. files-after_read (primary offset).minion (primary offset).offset size j u c) m;
      answered_it = answered_last u _;
      told =
          ap (λ bs. c.master.tcp_out ++ bs ∷ [])
            (slice-primary (files c) disk offset size inside in_chunk m);
    },
  )
