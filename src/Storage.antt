-- ===== src/Storage.antt =====
-- `bin_file`, the std::fstream that a minion keeps its blocks in, and AMinionCmd::GetBinFile of
-- command.cpp. A stream has one position for reading and writing; once an operation has failed,
-- it does nothing more.
pub mod Slices
pub mod Fresh
use iot_drive.Shared.{
  ℕ, zero, suc, ◌+◌, ◌-◌, ◌*◌, Bool, true, false, List, [], ◌∷◌, ◌++◌, ltb, leb, ◌==◌,
  if◌then◌else◌, length, take, drop,
}
use iot_drive.Raid.{mb}

pub record BinFile : Type 0 where
  pub content : ℕ → ℕ
  pub size : ℕ
  pub pos : ℕ
  pub good : Bool
  -- The `is_init` of GetBinFile: no command has run yet.
  pub is_init : Bool

-- The bytes of `bs` over those of `content` from `p` on.
unfoldable pub write_at : (ℕ → ℕ) → ℕ → List ℕ → ℕ → ℕ
write_at content p [] i = content i
write_at content p (b ∷ bs) i = if i == p then b else write_at content (suc p) bs i

unfoldable pub slice : (ℕ → ℕ) → ℕ → ℕ → List ℕ
slice content p zero = []
slice content p (suc n) = content p ∷ slice content (suc p) n

-- seekg and seekp.
unfoldable pub seek : ℕ → BinFile → BinFile
seek p f = if f.good then record f { pos = p } else f

unfoldable pub file_write : List ℕ → BinFile → BinFile
file_write bs f =
    if f.good
    then record f {
      content = write_at f.content f.pos bs;
      size = if ltb f.size (f.pos + length bs) then f.pos + length bs else f.size;
      pos = f.pos + length bs;
    }
    else f

-- `file.read(data, n)` into a buffer that held `old`; a read that meets the end of the file leaves
-- the rest of the buffer and makes the stream fail.
unfoldable pub file_read : ℕ → List ℕ → BinFile → List ℕ × BinFile
file_read n old f =
    if f.good
    then if leb (f.pos + n) f.size
      then (slice f.content f.pos n ++ drop n old, record f { pos = f.pos + n })
      else (
        slice f.content f.pos (f.size - f.pos) ++ drop (f.size - f.pos) old,
        record f { pos = f.pos + (f.size - f.pos); good = false },
      )
    else (old, f)

-- The loop of GetBinFile: one zero byte at a time.
unfoldable pub write_zeros : ℕ → BinFile → BinFile
write_zeros zero f = f
write_zeros (suc n) f = write_zeros n (file_write (0 ∷ []) f)

unfoldable pub get_bin_file : BinFile → BinFile
get_bin_file f =
    if f.is_init then seek 0 (record (write_zeros (8 * mb) f) { is_init = false }) else f
