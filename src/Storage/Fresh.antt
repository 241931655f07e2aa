-- ===== src/Storage/Fresh.antt =====
-- The first command of a minion process.
use iot_drive.Shared.{
  ℕ, zero, suc, ◌+◌, ◌*◌, ◌≤◌, ◌<◌, ◌≡◌, ◌⊎◌, inl, refl, true, false, ◌∷◌, [], arith,
}
use iot_drive.Raid.{mb}
use iot_drive.Storage.{BinFile, write_at, seek, file_write, write_zeros, get_bin_file}

-- What `n` rounds of the loop make of a stream `f` in order.
record Zeroed (n : ℕ) (f g : BinFile) : Type 0 where
  inside : (i : ℕ) → f.pos ≤ i → i < f.pos + n → g.content i ≡ 0
  around : (i : ℕ) → (i < f.pos) ⊎ (f.pos + n ≤ i) → g.content i ≡ f.content i
  size_kept : f.size ≤ g.size
  size_reached : (n ≡ 0) ⊎ (f.pos + n ≤ g.size)
  still_good : g.good ≡ true

zero_written : (f : BinFile) → f.good ≡ true → Zeroed 1 f (file_write (0 ∷ []) f)
unfolding file_write write_at
zero_written f h = record {
  inside = λ i p q. ground arith;
  around = λ i p. ground arith;
  size_kept = ground arith;
  size_reached = ground arith;
  still_good = ground arith;
}

pos-file_write : (f : BinFile) → f.good ≡ true → (file_write (0 ∷ []) f).pos ≡ f.pos + 1
unfolding file_write
pos-file_write f h = ground arith

write_zeros-Zeroed : (n : ℕ) (f : BinFile) → f.good ≡ true → Zeroed n f (write_zeros n f)
unfolding write_zeros
write_zeros-Zeroed zero f h = record {
  inside = λ i p q. absurd (omega arith);
  around = λ i p. refl;
  size_kept = omega arith;
  size_reached = inl refl;
  still_good = h;
}
write_zeros-Zeroed (suc n) f h =
    let one = zero_written f h in
    let moved = pos-file_write f h in
    let rest = write_zeros-Zeroed n (file_write (0 ∷ []) f) one.still_good in
    record {
      inside = λ i p q. ground (arith, one.inside i, rest.inside i, rest.around i);
      around = λ i p. ground (arith, one.around i, rest.around i);
      size_kept = omega (arith, one.size_kept, rest.size_kept);
      size_reached = omega (arith, one.size_reached, rest.size_reached, rest.size_kept);
      still_good = rest.still_good;
    }

-- A stream that the commands of a minion can use: in order, initialised, of 8 MB at least.
pub record IsReady (f : BinFile) : Type 0 where
  pub is_good : f.good ≡ true
  pub has_run : f.is_init ≡ false
  pub holds : 8 * mb ≤ f.size

get_bin_file-IsReady :
    (f : BinFile) → f.good ≡ true → f.is_init ≡ true → f.pos ≡ 0 → IsReady (get_bin_file f)
unfolding get_bin_file seek
get_bin_file-IsReady f h first at_start =
    let z = write_zeros-Zeroed (8 * mb) f h in
    record {
      is_good = ground (arith, z.still_good);
      has_run = ground (arith, z.still_good);
      holds = ground (arith, z.still_good, z.size_reached);
    }

get_bin_file-zero :
    (f : BinFile) (i : ℕ)
    → f.good ≡ true
    → f.is_init ≡ true
    → f.pos ≡ 0
    → i < 8 * mb
    → (get_bin_file f).content i ≡ 0
unfolding get_bin_file seek
get_bin_file-zero f i h first at_start lt =
    let z = write_zeros-Zeroed (8 * mb) f h in ground (arith, z.still_good, z.inside i)

-- The first command that a minion process runs makes the file ready for use, and writes zeros over
-- all its 8 MB, whatever blocks the file held from an earlier run.
pub get_bin_file_first :
    (f : BinFile)
    → f.good ≡ true
    → f.is_init ≡ true
    → f.pos ≡ 0
    → IsReady (get_bin_file f) × ((i : ℕ) → i < 8 * mb → (get_bin_file f).content i ≡ 0)
get_bin_file_first f h first at_start =
    (get_bin_file-IsReady f h first at_start, λ i. get_bin_file-zero f i h first at_start)

pub get_bin_file_later : (f : BinFile) → f.is_init ≡ false → get_bin_file f ≡ f
unfolding get_bin_file
get_bin_file_later f h = ground arith
