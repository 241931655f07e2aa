-- ===== src/Examples/Wire.antt =====
-- Messages on the wire.
use iot_drive.Shared.{
  ◌+◌, ◌<◌, ◌≡◌, ◌≢◌, refl, inr, true, [], ◌∷◌, some, ok, throws, fault, arith, length, replicate,
  set, get_elem?,
}
use iot_drive.Buffer.{Cursor, at_start, contents, to_le}
use iot_drive.Message.Identity.{Uid}
use iot_drive.Message.{
  Header, Msg, read_msg, write_msg, write, kind, get_buffer_size, write_msg_key, read_msg_key,
}
use iot_drive.Message.Wire.{to_buffer, from_buffer}
use iot_drive.Message.Format.{encode, header_bytes, uid_bytes, IsValid, HeaderFits, uncounted}
use iot_drive.Message.RoundTrip.{from_buffer-to_buffer, to_buffer_overflows}
use iot_drive.Message.Corruption.{write_msg_corrupted}

abbrev uid : Uid
uid = record { unique_counter = 3; timestamp = 1700000000; pid = 4711; ip = 4 }

abbrev write_header : Header
write_header = record { key = write_msg_key; size = 3; uid = uid }

abbrev read_header : Header
read_header = record { key = read_msg_key; size = 512; uid = uid }

abbrev a_write : Msg
a_write = write_msg write_header 4096 (some (7 ∷ 0 ∷ 255 ∷ []))

abbrev a_read : Msg
a_read = read_msg read_header 4096

write_header-HeaderFits : HeaderFits write_header
write_header-HeaderFits = record {
  key_fits = omega arith;
  size_fits = omega arith;
  uid_fits = record {
    counter_fits = omega arith;
    timestamp_fits = omega arith;
    pid_fits = omega arith;
    ip_fits = omega arith;
  };
}

read_header-HeaderFits : HeaderFits read_header
read_header-HeaderFits = record {
  key_fits = omega arith;
  size_fits = omega arith;
  uid_fits = write_header-HeaderFits.uid_fits;
}

a_write-IsValid : IsValid a_write
a_write-IsValid =
    (write_header-HeaderFits, omega arith, (refl, (omega arith, (omega arith, (omega arith, tt)))))

a_read-IsValid : IsValid a_read
a_read-IsValid = (read_header-HeaderFits, omega arith)

a_write_size : 44 ≡ get_buffer_size a_write + uncounted a_write
unfolding get_buffer_size
a_write_size = refl

from_buffer-to_buffer_example :
    (c : Cursor) × (to_buffer a_write (at_start (replicate 44 170)) ≡ ok (tt, c))
    × (from_buffer true (kind a_write) (at_start (contents c))
        ≡ ok (a_write, record { before = contents c; rest = [] }))
from_buffer-to_buffer_example =
    from_buffer-to_buffer true a_write (replicate 44 170) a_write-IsValid a_write_size

too_short : 43 < get_buffer_size a_write + uncounted a_write
unfolding get_buffer_size
too_short = omega arith

to_buffer_overflows_example : to_buffer a_write (at_start (replicate 43 170)) ≡ fault
to_buffer_overflows_example =
    to_buffer_overflows a_write (replicate 43 170) a_write-IsValid too_short

data_changed : get_elem? (encode a_write) 40 ≢ some 9
unfolding encode header_bytes uid_bytes to_le
data_changed e = cc

inside_write : 40 < length (encode a_write)
unfolding encode header_bytes uid_bytes to_le
inside_write = omega arith

write_msg_corrupted_example : from_buffer true write (at_start (set (encode a_write) 40 9)) ≡ throws
write_msg_corrupted_example =
    write_msg_corrupted write_header 4096 (7 ∷ 0 ∷ 255 ∷ []) 40 9 a_write-IsValid
      (inr (omega arith)) inside_write data_changed
