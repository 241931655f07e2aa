-- ===== src/Message/Format.antt =====
-- The layout of the six messages, as one list of bytes each, apart from the code that walks over a
-- buffer. A message is well formed when its numbers fit their fields and its data has its size.
use iot_drive.Shared.{
  ℕ, ◌+◌, ◌^◌, ◌<◌, ◌≡◌, List, [], ◌++◌, Option, none, some, arith, All, All-append, length, refl,
  append_assoc, length-append, append_assoc, refl,
}
use iot_drive.Buffer.{to_le, length-to_le, to_le-All}
use iot_drive.Message.Identity.{Uid}
use iot_drive.Message.Checksum.{calculate_checksum}
use iot_drive.Message.{
  Header, Msg, read_msg, write_msg, minion_read_msg, minion_write_msg, nbd_read_msg, nbd_write_msg,
  bool_byte, header, get_buffer_size,
}

unfoldable pub uid_bytes : Uid → List ℕ
uid_bytes u = to_le 4 u.unique_counter ++ to_le 8 u.timestamp ++ to_le 4 u.pid ++ to_le 8 u.ip

unfoldable pub header_bytes : Header → List ℕ
header_bytes h = to_le 4 h.key ++ to_le 4 h.size ++ uid_bytes h.uid

abbrev pub data_bytes : Option (List ℕ) → List ℕ
data_bytes none = []
data_bytes (some bytes) = bytes

abbrev pub with_checksum : List ℕ → List ℕ
with_checksum body = body ++ to_le 1 (calculate_checksum body)

unfoldable pub encode : Msg → List ℕ
encode (read_msg h offset) = with_checksum (header_bytes h ++ to_le 8 offset)
encode (write_msg h offset bytes) =
    with_checksum (header_bytes h ++ to_le 8 offset ++ data_bytes bytes)
encode (minion_read_msg h is_success bytes) =
    header_bytes h ++ to_le 1 (bool_byte is_success) ++ data_bytes bytes
encode (minion_write_msg h is_success) = header_bytes h ++ to_le 1 (bool_byte is_success)
encode (nbd_read_msg h offset) = header_bytes h ++ to_le 8 offset
encode (nbd_write_msg h offset bytes) = header_bytes h ++ to_le 8 offset ++ data_bytes bytes

pub record UidFits (u : Uid) : Type 0 where
  pub counter_fits : u.unique_counter < 2 ^ 32
  pub timestamp_fits : u.timestamp < 2 ^ 64
  pub pid_fits : u.pid < 2 ^ 32
  pub ip_fits : u.ip < 2 ^ 64

pub record HeaderFits (h : Header) : Type 0 where
  pub key_fits : h.key < 2 ^ 32
  pub size_fits : h.size < 2 ^ 32
  pub uid_fits : UidFits h.uid

abbrev pub IsByte : ℕ → Type 0
IsByte b = b < 256

-- There is data, bytes of just the number that the header states.
abbrev pub HasSize : Option (List ℕ) → ℕ → Type 0
HasSize none n = ⊥
HasSize (some bytes) n = (length bytes ≡ n) × All IsByte bytes

abbrev pub IsValid : Msg → Type 0
IsValid (read_msg h offset) = HeaderFits h × (offset < 2 ^ 64)
IsValid (write_msg h offset bytes) = HeaderFits h × (offset < 2 ^ 64) × HasSize bytes h.size
IsValid (minion_read_msg h is_success bytes) = HeaderFits h × HasSize bytes h.size
IsValid (minion_write_msg h is_success) = HeaderFits h
IsValid (nbd_read_msg h offset) = HeaderFits h × (offset < 2 ^ 64)
IsValid (nbd_write_msg h offset bytes) = HeaderFits h × (offset < 2 ^ 64) × HasSize bytes h.size

pub length-header_bytes : (h : Header) → length (header_bytes h) ≡ 32
unfolding header_bytes uid_bytes
length-header_bytes h = simp (length-append, length-to_le)

-- The lengths of the parts of a layout.
pub ruleset layout_lengths = (length-append, length-to_le, length-header_bytes)

-- What a caller adds to GetBufferSize.
abbrev pub uncounted : Msg → ℕ
uncounted (minion_read_msg h is_success bytes) = h.size
uncounted _ = 0

-- GetBufferSize is the length of the message on the wire, but for the data of a MinionReadMsg,
-- which it leaves out.
pub length-encode : (m : Msg) → IsValid m → length (encode m) ≡ get_buffer_size m + uncounted m
unfolding encode get_buffer_size
length-encode (read_msg h offset) v = simp layout_lengths (omega arith)
length-encode (write_msg h offset (some bytes)) v = simp layout_lengths (omega arith)
length-encode (write_msg h offset none) v = absurd v.2
length-encode (minion_read_msg h is_success (some bytes)) v = simp layout_lengths (omega arith)
length-encode (minion_read_msg h is_success none) v = absurd v.1
length-encode (minion_write_msg h is_success) v = simp layout_lengths (omega arith)
length-encode (nbd_read_msg h offset) v = simp layout_lengths (omega arith)
length-encode (nbd_write_msg h offset (some bytes)) v = simp layout_lengths (omega arith)
length-encode (nbd_write_msg h offset none) v = absurd v.2

pub header_bytes-All : (h : Header) → All IsByte (header_bytes h)
unfolding header_bytes uid_bytes
header_bytes-All h = search (All-append, to_le-All)

-- Every layout begins with the header.
pub encode-header : (m : Msg) → (rest : List ℕ) × (encode m ≡ header_bytes (header m) ++ rest)
unfolding encode header
encode-header (read_msg h offset) = (_, append_assoc (header_bytes h) _ _)
encode-header (write_msg h offset bytes) = (
  to_le 8 offset
      ++ data_bytes bytes
      ++ to_le 1 (calculate_checksum (header_bytes h ++ to_le 8 offset ++ data_bytes bytes)),
  simp append_assoc,
)
encode-header (minion_read_msg h is_success bytes) = (_, append_assoc (header_bytes h) _ _)
encode-header (minion_write_msg h is_success) = (_, refl)
encode-header (nbd_read_msg h offset) = (_, refl)
encode-header (nbd_write_msg h offset bytes) = (_, append_assoc (header_bytes h) _ _)

pub HeaderFits-header : (m : Msg) → IsValid m → HeaderFits (header m)
unfolding header
HeaderFits-header (read_msg h offset) v = v.0
HeaderFits-header (write_msg h offset bytes) v = v.0
HeaderFits-header (minion_read_msg h is_success bytes) v = v.0
HeaderFits-header (minion_write_msg h is_success) v = v
HeaderFits-header (nbd_read_msg h offset) v = v.0
HeaderFits-header (nbd_write_msg h offset bytes) v = v.0
