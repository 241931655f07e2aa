-- ===== src/Message/RoundTrip.antt =====
-- Sending and receiving: ToBuffer into a buffer of the length that the callers allocate, then
-- FromBuffer of the class.
use iot_drive.Shared.{
  ℕ, ◌+◌, ◌<◌, ◌≡◌, Bool, List, [], ok, fault, arith, length, subst, sym, ◌∙◌, append-nil,
}
use iot_drive.Buffer.{Cursor, M, contents, at_start}
use iot_drive.Buffer.Loads.{Reads}
use iot_drive.Message.{Msg, kind, get_buffer_size}
use iot_drive.Message.Wire.{to_buffer, from_buffer}
use iot_drive.Message.Format.{encode, IsValid, uncounted, length-encode}
use iot_drive.Message.Encode.{to_buffer-Fills, to_buffer_short}
use iot_drive.Message.Decode.{Reads-encode}

pub Reads-alone :
    {A : Type 0} (p : M A) (bs : List ℕ) (a : A)
    → Reads p bs a
    → p (at_start bs) ≡ ok (a, record { before = bs; rest = [] })
Reads-alone p bs a h = rw (append-nil bs) at (h.at [] [])

-- A well-formed message of any class, written by ToBuffer into a buffer of GetBufferSize bytes (and
-- the data size for a MinionReadMsg, as its sender allocates), is what FromBuffer of its class reads
-- from that buffer, with or without the checksum test; neither step leaves the buffer or throws.
pub from_buffer-to_buffer :
    (debug : Bool) (m : Msg) (r : List ℕ)
    → IsValid m
    → length r ≡ get_buffer_size m + uncounted m
    → (c : Cursor) × (to_buffer m (at_start r) ≡ ok (tt, c))
      × (from_buffer debug (kind m) (at_start (contents c))
          ≡ ok (m, record { before = contents c; rest = [] }))
from_buffer-to_buffer debug m r v e =
    let (c, writes, holds) = to_buffer-Fills m r v (e ∙ sym (length-encode m v)) in
    (
      c,
      writes,
      subst
          (λ bs.
            from_buffer debug (kind m) (at_start bs) ≡ ok (m, record { before = bs; rest = [] }))
          (sym holds)
          (Reads-alone (from_buffer debug (kind m)) (encode m) m (Reads-encode debug m v)),
    )

-- ToBuffer of a well-formed message writes past the end of any buffer that is shorter than
-- GetBufferSize says (for a MinionReadMsg, than GetBufferSize and the data size together).
pub to_buffer_overflows :
    (m : Msg) (r : List ℕ)
    → IsValid m
    → length r < get_buffer_size m + uncounted m
    → to_buffer m (at_start r) ≡ fault
to_buffer_overflows m r v h = to_buffer_short m r v (omega (arith, length-encode m v))
