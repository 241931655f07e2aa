-- ===== src/Cluster/Mirror.antt =====
-- The cluster as a mirrored disk: each byte of the device stands in two minions.
use iot_drive.Shared.{
  ℕ, ◌+◌, ◌/◌, ◌%◌, ◌≤◌, ◌<◌, ◌≡◌, ◌≢◌, sym, ap, ◌∙◌, inl, inr, List, arith, length,
}
use native.Mathlib.Decide.{ℕ_discrete}
use iot_drive.Raid.{minion_size, memory}
use iot_drive.Raid.Placement.{primary, backup}
use iot_drive.Storage.{write_at}
use iot_drive.Storage.Slices.{write_at-outside, write_at-agree}

-- Three block files stand for a disk.
pub record Mirrors (files : ℕ → ℕ → ℕ) (disk : ℕ → ℕ) : Type 0 where
  pub primary_copy : (i : ℕ) → i < memory → files (primary i).minion (primary i).offset ≡ disk i
  pub backup_copy : (i : ℕ) → i < memory → files (backup i).minion (backup i).offset ≡ disk i

-- `bytes` have been written to both places of `offset`, and nothing else has changed.
pub record Wrote (offset : ℕ) (bytes : List ℕ) (files files' : ℕ → ℕ → ℕ) : Type 0 where
  pub at_primary :
      files' (primary offset).minion
      ≡ write_at (files (primary offset).minion) (primary offset).offset bytes
  pub at_backup :
      files' (backup offset).minion
      ≡ write_at (files (backup offset).minion) (backup offset).offset bytes
  pub elsewhere :
      (k : ℕ) → k ≢ (primary offset).minion → k ≢ (backup offset).minion → files' k ≡ files k

module _ (offset : ℕ) (bytes : List ℕ) (files files' : ℕ → ℕ → ℕ) (disk : ℕ → ℕ)
    (inside : offset < memory) (in_chunk : offset % minion_size + length bytes ≤ minion_size)
    (m : Mirrors files disk) (w : Wrote offset bytes files files') where
  -- Bytes of other chunks keep their values.
  other_chunk :
      (i : ℕ) → i / minion_size ≢ offset / minion_size → write_at disk offset bytes i ≡ disk i
  other_chunk i ne = write_at-outside disk offset bytes i (ground arith)

  primary_after :
      (i : ℕ)
      → i < memory
      → files' (primary i).minion (primary i).offset ≡ write_at disk offset bytes i
  primary_after i lt = elim (ℕ_discrete (i / minion_size) (offset / minion_size)) [
    | yes same ↦
        ap (λ k. files' k (i % minion_size)) same
        ∙ ap (λ f. f (i % minion_size)) w.at_primary
        ∙ write_at-agree (files (offset / minion_size)) disk (offset % minion_size) offset bytes
            (i % minion_size) i
            (ap (λ k. files k (i % minion_size)) (sym same) ∙ m.primary_copy i lt) (omega arith)
    | no ne ↦ in_other_chunk i lt ne
  ]
    where
      in_other_chunk :
          (i : ℕ)
          → i < memory
          → i / minion_size ≢ offset / minion_size
          → files' (primary i).minion (primary i).offset ≡ write_at disk offset bytes i
      in_other_chunk i lt ne =
          elim (ℕ_discrete (i / minion_size) ((offset / minion_size + 1) % 3)) [
            | yes same ↦
                ap (λ k. files' k (i % minion_size)) same
                ∙ ap (λ f. f (i % minion_size)) w.at_backup
                ∙ write_at-outside (files ((offset / minion_size + 1) % 3))
                    (offset % minion_size + minion_size) bytes (i % minion_size) (inl (omega arith))
                ∙ ap (λ k. files k (i % minion_size)) (sym same)
                ∙ m.primary_copy i lt
                ∙ sym (other_chunk i ne)
            | no far ↦
                ap (λ f. f (i % minion_size)) (w.elsewhere (i / minion_size) ne far)
                ∙ m.primary_copy i lt
                ∙ sym (other_chunk i ne)
          ]

  backup_after :
      (i : ℕ)
      → i < memory
      → files' (backup i).minion (backup i).offset ≡ write_at disk offset bytes i
  backup_after i lt = elim (ℕ_discrete (i / minion_size) (offset / minion_size)) [
    | yes same ↦
        ap (λ k. files' ((k + 1) % 3) (i % minion_size + minion_size)) same
        ∙ ap (λ f. f (i % minion_size + minion_size)) w.at_backup
        ∙ write_at-agree (files ((offset / minion_size + 1) % 3)) disk
            (offset % minion_size + minion_size) offset bytes (i % minion_size + minion_size) i
            (ap (λ k. files ((k + 1) % 3) (i % minion_size + minion_size)) (sym same)
              ∙ m.backup_copy i lt)
            (omega arith)
    | no ne ↦ in_other_chunk i lt ne
  ]
    where
      in_other_chunk :
          (i : ℕ)
          → i < memory
          → i / minion_size ≢ offset / minion_size
          → files' (backup i).minion (backup i).offset ≡ write_at disk offset bytes i
      in_other_chunk i lt ne =
          elim (ℕ_discrete ((i / minion_size + 1) % 3) (offset / minion_size)) [
            | yes same ↦
                ap (λ k. files' k (i % minion_size + minion_size)) same
                ∙ ap (λ f. f (i % minion_size + minion_size)) w.at_primary
                ∙ write_at-outside (files (offset / minion_size)) (offset % minion_size) bytes
                    (i % minion_size + minion_size) (inr (omega arith))
                ∙ ap (λ k. files k (i % minion_size + minion_size)) (sym same)
                ∙ m.backup_copy i lt
                ∙ sym (other_chunk i ne)
            | no far ↦
                ap (λ f. f (i % minion_size + minion_size))
                  (w.elsewhere ((i / minion_size + 1) % 3) far (omega arith))
                ∙ m.backup_copy i lt
                ∙ sym (other_chunk i ne)
          ]

  pub Wrote-Mirrors : Mirrors files' (write_at disk offset bytes)
  Wrote-Mirrors = record { primary_copy = primary_after; backup_copy = backup_after }
