-- ===== src/Message.antt =====
-- message.hpp and message.cpp: the six messages, how each is laid out in a buffer, and how it is
-- read back. The classes under AMessage are the constructors of `Msg`, and a virtual method is a
-- function by clauses. `Outcome.fault` stands for the undefined cases of `memcpy`.
pub mod Identity
pub mod Checksum
pub mod Wire
pub mod Format
pub mod Encode
pub mod Decode
pub mod RoundTrip
pub mod Parse
pub mod Corruption
use iot_drive.Shared.{
  ℕ, ◌+◌, ◌≡◌, Bool, true, false, not, ◌&&◌, List, [], ◌∷◌, Option, none, some, Outcome, ok, throws,
  fault, ◌==◌, leb, if◌then◌else◌, length, take, drop,
}
use iot_drive.Buffer.{
  M, Cursor, pure, ◌>>=◌, ◌>>◌, put, put_here, skip, get, get_word, spanned, to_le, source_bytes,
}
use Identity.{Uid, uid_to_buffer, uid_from_buffer, uid_buffer_size}
use Checksum.{calculate_checksum}

-- The fields of AMessage.
pub record Header : Type 0 where
  pub key : ℕ
  pub size : ℕ
  pub uid : Uid

pub data Msg : Type 0 where
  read_msg : Header → ℕ → Msg
  write_msg : Header → ℕ → Option (List ℕ) → Msg
  minion_read_msg : Header → Bool → Option (List ℕ) → Msg
  minion_write_msg : Header → Bool → Msg
  nbd_read_msg : Header → ℕ → Msg
  nbd_write_msg : Header → ℕ → Option (List ℕ) → Msg

abbrev pub write_msg_key : ℕ
write_msg_key = 8

abbrev pub read_msg_key : ℕ
read_msg_key = 9

abbrev pub read_minion_msg_key : ℕ
read_minion_msg_key = 28

abbrev pub write_minion_msg_key : ℕ
write_minion_msg_key = 29

abbrev pub nbd_write_msg_key : ℕ
nbd_write_msg_key = 30

abbrev pub nbd_read_msg_key : ℕ
nbd_read_msg_key = 31

-- The constructors of the classes, with the UID that the caller or the default argument gives.
unfoldable pub new_read_msg : ℕ → ℕ → Uid → Msg
new_read_msg offset size_to_read uid =
    read_msg (record { key = read_msg_key; size = size_to_read; uid = uid }) offset

unfoldable pub new_write_msg : ℕ → ℕ → Option (List ℕ) → Uid → Msg
new_write_msg offset size_to_write bytes uid =
    write_msg (record { key = write_msg_key; size = size_to_write; uid = uid }) offset bytes

unfoldable pub new_minion_read_msg : Uid → Bool → Option (List ℕ) → ℕ → Msg
new_minion_read_msg uid is_success bytes size_to_read =
    minion_read_msg (record { key = read_minion_msg_key; size = size_to_read; uid = uid })
      is_success bytes

unfoldable pub new_minion_write_msg : Uid → Bool → Msg
new_minion_write_msg uid is_success =
    minion_write_msg (record { key = write_minion_msg_key; size = 0; uid = uid }) is_success

unfoldable pub new_nbd_read_msg : ℕ → ℕ → Uid → Msg
new_nbd_read_msg offset len uid =
    nbd_read_msg (record { key = nbd_read_msg_key; size = len; uid = uid }) offset

-- The data is copied when there is some, and stays null otherwise.
unfoldable pub new_nbd_write_msg : ℕ → ℕ → Option (List ℕ) → Uid → Outcome Msg
new_nbd_write_msg offset len none uid =
    ok (nbd_write_msg (record { key = nbd_write_msg_key; size = len; uid = uid }) offset none)
new_nbd_write_msg offset len (some bytes) uid = elim (source_bytes (some bytes) len) [
  | ok copy ↦
      ok (
        nbd_write_msg (record { key = nbd_write_msg_key; size = len; uid = uid }) offset
          (some copy))
  | throws ↦ throws
  | fault ↦ fault
]

unfoldable pub header : Msg → Header
header (read_msg h offset) = h
header (write_msg h offset bytes) = h
header (minion_read_msg h is_success bytes) = h
header (minion_write_msg h is_success) = h
header (nbd_read_msg h offset) = h
header (nbd_write_msg h offset bytes) = h

unfoldable pub get_uid : Msg → Uid
unfolding header
get_uid m = (header m).uid

unfoldable pub get_size : Msg → ℕ
unfolding header
get_size m = (header m).size

-- The `true` and `false` that C++ stores.
abbrev pub bool_byte : Bool → ℕ
bool_byte true = 1
bool_byte false = 0

-- GetBufferSize of each class. MinionReadMsg leaves its data out, and its callers add it.
unfoldable pub header_buffer_size : ℕ
unfolding uid_buffer_size
header_buffer_size = 4 + 4 + uid_buffer_size

unfoldable pub get_buffer_size : Msg → ℕ
unfolding header_buffer_size
get_buffer_size (read_msg h offset) = header_buffer_size + 8 + 1
get_buffer_size (write_msg h offset bytes) = header_buffer_size + 8 + h.size + 1
get_buffer_size (minion_read_msg h is_success bytes) = header_buffer_size + 1
get_buffer_size (minion_write_msg h is_success) = header_buffer_size + 1
get_buffer_size (nbd_read_msg h offset) = header_buffer_size + 8
get_buffer_size (nbd_write_msg h offset bytes) = header_buffer_size + 8 + h.size

pub data Kind : Type 0 where
  read write minion_read minion_write nbd_read nbd_write : Kind

unfoldable pub kind : Msg → Kind
kind (read_msg h offset) = read
kind (write_msg h offset bytes) = write
kind (minion_read_msg h is_success bytes) = minion_read
kind (minion_write_msg h is_success) = minion_write
kind (nbd_read_msg h offset) = nbd_read
kind (nbd_write_msg h offset bytes) = nbd_write

-- SupplyArgs: offset, size and data as each class fills the tuple.
unfoldable pub supply_args : Msg → ℕ × ℕ × Option (List ℕ)
supply_args (read_msg h offset) = (offset, h.size, none)
supply_args (write_msg h offset bytes) = (offset, h.size, bytes)
supply_args (minion_read_msg h is_success bytes) = (0, h.size, bytes)
supply_args (minion_write_msg h is_success) = (h.uid.unique_counter, bool_byte is_success, none)
supply_args (nbd_read_msg h offset) = (offset, h.size, none)
supply_args (nbd_write_msg h offset bytes) = (offset, h.size, bytes)
