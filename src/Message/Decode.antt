-- ===== src/Message/Decode.antt =====
-- FromBuffer reads the layout back, whatever follows it in the buffer.
use iot_drive.Shared.{
  ℕ, ◌<◌, ◌^◌, ◌≡◌, Bool, true, false, ==_refl, List, [], ◌++◌, none, some, arith, All, All-append,
  length, append_assoc, append-nil,
}
use iot_drive.Buffer.{to_le, to_le-All}
use iot_drive.Buffer.Loads.{
  Reads, Reads-get, Reads-get_word, Reads-bind, Reads-pure, Reads-spanned, Reads-as,
}
use iot_drive.Message.Identity.{Uid, uid_from_buffer}
use iot_drive.Message.Checksum.{calculate_checksum-lt}
use iot_drive.Message.{
  Header, Msg, read_msg, write_msg, minion_read_msg, minion_write_msg, nbd_read_msg, nbd_write_msg,
  bool_byte, kind, read, write, minion_read, minion_write, nbd_read, nbd_write,
}
use iot_drive.Message.Wire.{
  header_from_buffer, get_bool, check_sum, read_body, write_body, from_buffer,
}
use iot_drive.Message.Format.{
  UidFits, HeaderFits, uid_bytes, header_bytes, header_bytes-All, encode, IsValid,
}

Reads-uid : (u : Uid) → UidFits u → Reads uid_from_buffer (uid_bytes u) u
unfolding uid_from_buffer uid_bytes
Reads-uid u v = Reads-as uid_from_buffer _ _ u (simp (append_assoc, append-nil)) (
    Reads-bind _ _ _ _ _ _ (Reads-get_word 4 u.unique_counter v.counter_fits) (
      Reads-bind _ _ _ _ _ _ (Reads-get_word 8 u.timestamp v.timestamp_fits) (
        Reads-bind _ _ _ _ _ _ (Reads-get_word 4 u.pid v.pid_fits)
          (Reads-bind _ _ _ _ _ _ (Reads-get_word 8 u.ip v.ip_fits) (Reads-pure u)))))

Reads-header : (h : Header) → HeaderFits h → Reads header_from_buffer (header_bytes h) h
unfolding header_from_buffer header_bytes
Reads-header h v = Reads-as header_from_buffer _ _ h (simp (append_assoc, append-nil)) (
    Reads-bind _ _ _ _ _ _ (Reads-get_word 4 h.key v.key_fits) (
      Reads-bind _ _ _ _ _ _ (Reads-get_word 4 h.size v.size_fits)
        (Reads-bind _ _ _ _ _ _ (Reads-uid h.uid v.uid_fits) (Reads-pure h))))

Reads-get_bool : (b : Bool) → Reads get_bool (to_le 1 (bool_byte b)) b
unfolding get_bool
Reads-get_bool true =
    Reads-as get_bool _ _ true (append-nil (to_le 1 1))
      (Reads-bind _ _ _ _ _ _ (Reads-get_word 1 1 (omega arith)) (Reads-pure true))
Reads-get_bool false =
    Reads-as get_bool _ _ false (append-nil (to_le 1 0))
      (Reads-bind _ _ _ _ _ _ (Reads-get_word 1 0 (omega arith)) (Reads-pure false))

-- Equal checksums pass in either build.
Reads-check_sum : (debug : Bool) (n : ℕ) → Reads (check_sum debug n n) [] tt
unfolding check_sum
Reads-check_sum debug n = record { at = λ d r. ground (arith, ==_refl n, append-nil d) }

Reads-read_body :
    (h : Header) (offset : ℕ)
    → HeaderFits h
    → offset < 2 ^ 64
    → Reads read_body (header_bytes h ++ to_le 8 offset) (h, offset)
unfolding read_body
Reads-read_body h offset v w =
    Reads-as read_body _ _ (h, offset) (simp append-nil)
      (Reads-bind _ _ _ _ _ _ (Reads-header h v)
        (Reads-bind _ _ _ _ _ _ (Reads-get_word 8 offset w) (Reads-pure (h, offset))))

Reads-write_body :
    (h : Header) (offset : ℕ) (bytes : List ℕ)
    → HeaderFits h
    → offset < 2 ^ 64
    → length bytes ≡ h.size
    → Reads write_body (header_bytes h ++ to_le 8 offset ++ bytes) (h, offset, bytes)
unfolding write_body
Reads-write_body h offset bytes v w e =
    Reads-as write_body _ _ (h, offset, bytes) (simp (append_assoc, append-nil))
      (Reads-bind _ _ _ _ _ _ (Reads-header h v) (
        Reads-bind _ _ _ _ _ _ (Reads-get_word 8 offset w)
          (Reads-bind _ _ _ _ _ _ (Reads-get h.size bytes e) (Reads-pure (h, offset, bytes)))))

pub read_body-All :
    (h : Header) (offset : ℕ) → All (λ b. b < 256) (header_bytes h ++ to_le 8 offset)
read_body-All h offset =
    All-append _ (header_bytes h) (to_le 8 offset) (header_bytes-All h) (to_le-All 8 offset)

pub write_body-All :
    (h : Header) (offset : ℕ) (bytes : List ℕ)
    → All (λ b. b < 256) bytes
    → All (λ b. b < 256) (header_bytes h ++ to_le 8 offset ++ bytes)
write_body-All h offset bytes v =
    All-append _ (header_bytes h ++ to_le 8 offset) bytes (read_body-All h offset) v

-- FromBuffer of the class of `m` gives `m` back from its layout, and ends behind it.
pub Reads-encode :
    (debug : Bool) (m : Msg) → IsValid m → Reads (from_buffer debug (kind m)) (encode m) m
unfolding from_buffer encode kind
Reads-encode debug (read_msg h offset) v =
    Reads-as (from_buffer debug read) _ _ (read_msg h offset) (simp append-nil) (
      Reads-bind _ _ _ _ _ _ (Reads-spanned _ _ _ (Reads-read_body h offset v.0 v.1)) (
        Reads-bind _ _ _ _ _ _
          (Reads-get_word 1 _ (calculate_checksum-lt _ (read_body-All h offset)))
          (Reads-bind _ _ _ _ _ _ (Reads-check_sum debug _) (Reads-pure (read_msg h offset)))))
Reads-encode debug (write_msg h offset none) v = absurd v.2
Reads-encode debug (write_msg h offset (some bytes)) v =
    Reads-as (from_buffer debug write) _ _ (write_msg h offset (some bytes)) (simp append-nil) (
      Reads-bind _ _ _ _ _ _ (Reads-spanned _ _ _ (Reads-write_body h offset bytes v.0 v.1 v.2.0)) (
        Reads-bind _ _ _ _ _ _
          (Reads-get_word 1 _ (calculate_checksum-lt _ (write_body-All h offset bytes v.2.1)))
          (Reads-bind _ _ _ _ _ _ (Reads-check_sum debug _)
            (Reads-pure (write_msg h offset (some bytes))))))
Reads-encode debug (minion_read_msg h is_success none) v = absurd v.1
Reads-encode debug (minion_read_msg h is_success (some bytes)) v =
    Reads-as (from_buffer debug minion_read) _ _ (minion_read_msg h is_success (some bytes))
      (simp (append_assoc, append-nil))
      (Reads-bind _ _ _ _ _ _ (Reads-header h v.0) (
        Reads-bind _ _ _ _ _ _ (Reads-get_bool is_success) (
          Reads-bind _ _ _ _ _ _ (Reads-get h.size bytes v.1.0)
            (Reads-pure (minion_read_msg h is_success (some bytes))))))
Reads-encode debug (minion_write_msg h is_success) v =
    Reads-as (from_buffer debug minion_write) _ _ (minion_write_msg h is_success) (simp append-nil)
      (Reads-bind _ _ _ _ _ _ (Reads-header h v) (
        Reads-bind _ _ _ _ _ _ (Reads-get_bool is_success)
          (Reads-pure (minion_write_msg h is_success))))
Reads-encode debug (nbd_read_msg h offset) v =
    Reads-as (from_buffer debug nbd_read) _ _ (nbd_read_msg h offset) (simp append-nil) (
      Reads-bind _ _ _ _ _ _ (Reads-header h v.0)
        (Reads-bind _ _ _ _ _ _ (Reads-get_word 8 offset v.1) (Reads-pure (nbd_read_msg h offset))))
Reads-encode debug (nbd_write_msg h offset none) v = absurd v.2
Reads-encode debug (nbd_write_msg h offset (some bytes)) v =
    Reads-as (from_buffer debug nbd_write) _ _ (nbd_write_msg h offset (some bytes))
      (simp (append_assoc, append-nil))
      (Reads-bind _ _ _ _ _ _ (Reads-header h v.0) (
        Reads-bind _ _ _ _ _ _ (Reads-get_word 8 offset v.1) (
          Reads-bind _ _ _ _ _ _ (Reads-get h.size bytes v.2.0)
            (Reads-pure (nbd_write_msg h offset (some bytes))))))
