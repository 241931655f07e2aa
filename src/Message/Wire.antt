-- ===== src/Message/Wire.antt =====
-- ToBuffer and FromBuffer of the classes in message.cpp. `Outcome.fault` stands for the undefined
-- cases of `memcpy`, and for a store or a load outside of the buffer.
use iot_drive.Shared.{
  ℕ, Bool, true, false, not, ◌&&◌, List, Option, none, some, ok, throws, fault, ◌==◌,
}
use iot_drive.Buffer.{
  M, pure, ◌>>=◌, ◌>>◌, put, put_here, skip, get, get_word, spanned, to_le, source_bytes,
}
use iot_drive.Message.Identity.{uid_to_buffer, uid_from_buffer}
use iot_drive.Message.Checksum.{calculate_checksum}
use iot_drive.Message.{
  Header, Msg, read_msg, write_msg, minion_read_msg, minion_write_msg, nbd_read_msg, nbd_write_msg,
  Kind, read, write, minion_read, minion_write, nbd_read, nbd_write, bool_byte,
}

unfoldable pub header_to_buffer : Header → M (Unit {0})
header_to_buffer h = do put (to_le 4 h.key); put (to_le 4 h.size); uid_to_buffer h.uid

-- `memcpy(buffer, bytes, n)`, by the store that follows it.
unfoldable pub copy : (List ℕ → M (Unit {0})) → Option (List ℕ) → ℕ → M (Unit {0})
copy store bytes n c = elim (source_bytes bytes n) [
  | ok bs ↦ store bs c
  | throws ↦ throws
  | fault ↦ fault
]

-- `if (m_data) memcpy(...); buffer += GetSize();`
unfoldable pub copy_or_skip : Option (List ℕ) → ℕ → M (Unit {0})
unfolding copy
copy_or_skip none n = skip n
copy_or_skip (some bytes) n = copy put (some bytes) n

-- ToBuffer of each class. MinionReadMsg assigns the result of `memcpy` to the pointer, which so
-- stays in front of the data.
unfoldable pub to_buffer : Msg → M (Unit {0})
unfolding header_to_buffer copy copy_or_skip
to_buffer (read_msg h offset) = do
  walked ← spanned (do header_to_buffer h; put (to_le 8 offset))
  put (to_le 1 (calculate_checksum (walked.0)))
to_buffer (write_msg h offset bytes) = do
  walked ← spanned (do header_to_buffer h; put (to_le 8 offset); copy_or_skip bytes h.size)
  put (to_le 1 (calculate_checksum (walked.0)))
to_buffer (minion_read_msg h is_success bytes) = do
  header_to_buffer h
  put (to_le 1 (bool_byte is_success))
  copy put_here bytes h.size
to_buffer (minion_write_msg h is_success) = do
  header_to_buffer h
  put (to_le 1 (bool_byte is_success))
to_buffer (nbd_read_msg h offset) = do header_to_buffer h; put (to_le 8 offset)
to_buffer (nbd_write_msg h offset bytes) = do
  header_to_buffer h
  put (to_le 8 offset)
  copy put bytes h.size

unfoldable pub header_from_buffer : M Header
header_from_buffer = do
  key ← get_word 4
  size ← get_word 4
  uid ← uid_from_buffer
  pure (record { key = key; size = size; uid = uid })

-- A byte read through `bool*`.
unfoldable pub get_bool : M Bool
get_bool = do b ← get_word 1; pure (not (b == 0))

-- NotEqualToCheck of the checksums, which throws; it is compiled out under NDEBUG.
unfoldable pub check_sum : Bool → ℕ → ℕ → M (Unit {0})
check_sum debug received calculated c = elim (debug && not (received == calculated)) [
  | true ↦ throws
  | false ↦ ok (tt, c)
]

unfoldable pub read_body : M (Header × ℕ)
unfolding header_from_buffer
read_body = do h ← header_from_buffer; offset ← get_word 8; pure (h, offset)

unfoldable pub write_body : M (Header × ℕ × List ℕ)
unfolding header_from_buffer
write_body = do
  h ← header_from_buffer
  offset ← get_word 8
  bytes ← get h.size
  pure (h, offset, bytes)

-- FromBuffer of each class, which assigns every field. `debug` is a build without NDEBUG.
unfoldable pub from_buffer : Bool → Kind → M Msg
unfolding header_from_buffer get_bool check_sum read_body write_body
from_buffer debug read = do
  walked ← spanned read_body
  received ← get_word 1
  check_sum debug received (calculate_checksum (walked.0))
  pure (read_msg (walked.1.0) (walked.1.1))
from_buffer debug write = do
  walked ← spanned write_body
  received ← get_word 1
  check_sum debug received (calculate_checksum (walked.0))
  pure (write_msg (walked.1.0) (walked.1.1) (some (walked.1.2)))
from_buffer debug minion_read = do
  h ← header_from_buffer
  is_success ← get_bool
  bytes ← get h.size
  pure (minion_read_msg h is_success (some bytes))
from_buffer debug minion_write = do
  h ← header_from_buffer
  is_success ← get_bool
  pure (minion_write_msg h is_success)
from_buffer debug nbd_read = do
  h ← header_from_buffer
  offset ← get_word 8
  pure (nbd_read_msg h offset)
from_buffer debug nbd_write = do
  h ← header_from_buffer
  offset ← get_word 8
  bytes ← get h.size
  pure (nbd_write_msg h offset (some bytes))
