-- ===== src/Message/Encode.antt =====
-- ToBuffer stores just the bytes of the layout.
use mathlib.Core.Path.{fun_ext}
use iot_drive.Shared.{
  ℕ, ◌<◌, ◌≡◌, Bool, fault, refl, List, [], ◌++◌, none, some, ok, arith, length, append_assoc,
  append-nil, take-length,
}
use iot_drive.Buffer.{Cursor, M, ◌>>◌, contents, at_start, put, put_here, to_le, source_bytes}
use iot_drive.Buffer.Stores.{
  put-put, put_assoc, spanned-put, put-exact, put-put_here, put_short, put-put_here_short,
}
use iot_drive.Message.Identity.{Uid, uid_to_buffer}
use iot_drive.Message.{
  Header, Msg, read_msg, write_msg, minion_read_msg, minion_write_msg, nbd_read_msg, nbd_write_msg,
  bool_byte,
}
use iot_drive.Message.Wire.{header_to_buffer, copy, copy_or_skip, to_buffer}
use iot_drive.Message.Format.{uid_bytes, header_bytes, encode, IsValid}

uid_to_buffer-put : (u : Uid) → uid_to_buffer u ≡ put (uid_bytes u)
unfolding uid_to_buffer uid_bytes
uid_to_buffer-put u = simp (put-put, append_assoc)

header_to_buffer-put : (h : Header) → header_to_buffer h ≡ put (header_bytes h)
unfolding header_to_buffer header_bytes
header_to_buffer-put h = simp (uid_to_buffer-put, put-put, append_assoc)

copy-some :
    (store : List ℕ → M (Unit {0})) (bs : List ℕ) (n : ℕ)
    → length bs ≡ n
    → copy store (some bs) n ≡ store bs
unfolding copy source_bytes
copy-some store bs n e = fun_ext λ c. ground (arith, take-length bs)

-- Every class but MinionReadMsg leaves the pointer behind its last byte.
abbrev pub Advances : Msg → Type 0
Advances (minion_read_msg h is_success bytes) = ⊥
Advances _ = Unit

to_buffer-put : (m : Msg) → IsValid m → Advances m → to_buffer m ≡ put (encode m)
unfolding to_buffer encode copy_or_skip
to_buffer-put (read_msg h offset) v w = simp (header_to_buffer-put, put-put, spanned-put)
to_buffer-put (write_msg h offset (some bytes)) v w =
    simp
      (header_to_buffer-put, copy-some put bytes h.size (v.2.0), append_assoc, put-put, spanned-put)
to_buffer-put (write_msg h offset none) v w = absurd v.2
to_buffer-put (minion_read_msg h is_success bytes) v w = absurd w
to_buffer-put (minion_write_msg h is_success) v w = simp (header_to_buffer-put, put-put)
to_buffer-put (nbd_read_msg h offset) v w = simp (header_to_buffer-put, put-put)
to_buffer-put (nbd_write_msg h offset (some bytes)) v w =
    simp (header_to_buffer-put, copy-some put bytes h.size (v.2.0), append_assoc, put-put)
to_buffer-put (nbd_write_msg h offset none) v w = absurd v.2

to_buffer-put_here :
    (h : Header) (is_success : Bool) (bytes : List ℕ)
    → length bytes ≡ h.size
    → to_buffer (minion_read_msg h is_success (some bytes))
      ≡ (put (header_bytes h ++ to_le 1 (bool_byte is_success)) >> put_here bytes)
unfolding to_buffer
to_buffer-put_here h is_success bytes e =
    simp (header_to_buffer-put, copy-some put_here bytes h.size e, put_assoc)

-- A run of ToBuffer that stays within the allocation and leaves the layout there.
abbrev pub Fills : Msg → List ℕ → Type 0
Fills m r = (c : Cursor) × (to_buffer m (at_start r) ≡ ok (tt, c)) × (contents c ≡ encode m)

Fills-by_put :
    (m : Msg) (r : List ℕ) → IsValid m → Advances m → length r ≡ length (encode m) → Fills m r
Fills-by_put m r v w e = (
  record { before = encode m; rest = [] },
  rw (to_buffer-put m v w) (put-exact (encode m) r e),
  append-nil (encode m),
)

-- A buffer of the length of the layout is filled with it.
pub to_buffer-Fills : (m : Msg) (r : List ℕ) → IsValid m → length r ≡ length (encode m) → Fills m r
unfolding encode
to_buffer-Fills (minion_read_msg h is_success none) r v e = absurd v.1
to_buffer-Fills (minion_read_msg h is_success (some bytes)) r v e = (
  record { before = header_bytes h ++ to_le 1 (bool_byte is_success); rest = bytes },
  rw (to_buffer-put_here h is_success bytes v.1.0)
      (put-put_here (header_bytes h ++ to_le 1 (bool_byte is_success)) bytes r e),
  refl,
)
to_buffer-Fills m r v e = Fills-by_put m r v tt e

short_by_put :
    (m : Msg) (r : List ℕ)
    → IsValid m
    → Advances m
    → length r < length (encode m)
    → to_buffer m (at_start r) ≡ fault
short_by_put m r v w h = rw (to_buffer-put m v w) (put_short (encode m) (at_start r) h)

pub to_buffer_short :
    (m : Msg) (r : List ℕ)
    → IsValid m
    → length r < length (encode m)
    → to_buffer m (at_start r) ≡ fault
unfolding encode
to_buffer_short (minion_read_msg h is_success none) r v e = absurd v.1
to_buffer_short (minion_read_msg h is_success (some bytes)) r v e =
    rw (to_buffer-put_here h is_success bytes v.1.0)
      (put-put_here_short (header_bytes h ++ to_le 1 (bool_byte is_success)) bytes (at_start r) e)
to_buffer_short m r v e = short_by_put m r v tt e
