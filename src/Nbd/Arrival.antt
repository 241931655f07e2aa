-- ===== src/Nbd/Arrival.antt =====
-- A request of the block device at the master: NBDProxy::GetArgsKey on a stream that begins with it.
use iot_drive.Shared.{
  ℕ, ◌+◌, ◌^◌, ◌<◌, ◌≤◌, ◌≡◌, refl, sym, ap, ◌∙◌, Bool, List, ◌++◌, some, ok, arith, All, length,
  take, drop, length-append, take-length, take-append_left, ap₂, drop-append_exact, drop_all,
  lookup, insert, le→leb,
}
use iot_drive.Buffer.{of_le, source_bytes}
use iot_drive.Factory.{create, add_ctor, Factory}
use iot_drive.ArgsKey.{read_args, write_args, read_cmd_key, write_cmd_key}
use iot_drive.Message.Identity.{Uid}
use iot_drive.Message.{
  Msg, Kind, header, kind, get_buffer_size, header_buffer_size, supply_args, new_nbd_read_msg,
  new_nbd_write_msg, nbd_write_msg, nbd_read_msg_key, nbd_write_msg_key,
}
use iot_drive.Message.Format.{encode, IsValid, length-encode}
use iot_drive.Proxy.{Memory, Process, received, peek_key, peek_size, receive_msg, create_msg}
use iot_drive.Proxy.Delivery.{
  IsTimely, tick, next_uid, fresh_uid_timely, send_msg-encode, peek_key-encode, peek_size-encode,
  receive_msg-encode, long_enough,
}
use iot_drive.Proxy.NbdProxy
use iot_drive.Command.Requests.{ProcessFits, next_uid-UidFits}
use iot_drive.Nbd.{nbd_read_request, nbd_write_request}

-- `recv` takes no more than its buffer holds.
pub received-prefix :
    (old packet rest : List ℕ)
    → length old ≤ length packet
    → received old (packet ++ rest) ≡ received old packet
unfolding received
received-prefix old packet rest h = ap₂ ◌++◌ (take-append_left (length old) packet rest h) (
    drop_all (length (packet ++ rest)) old (omega (arith, length-append packet rest))
    ∙ sym (drop_all (length packet) old h))

-- So a stream is peeked at and received as its first message is.
peek_key-stream :
    (mem : Memory) (packet rest : List ℕ)
    → 8 ≤ length packet
    → peek_key mem (packet ++ rest) ≡ peek_key mem packet
unfolding peek_key
peek_key-stream mem packet rest long =
    ap (λ bs. of_le (take 4 bs))
      (received-prefix (mem.fresh 8) packet rest (omega (arith, mem.length-fresh 8)))

peek_size-stream :
    (mem : Memory) (packet rest : List ℕ)
    → 8 ≤ length packet
    → peek_size mem (packet ++ rest) ≡ peek_size mem packet
unfolding peek_size
peek_size-stream mem packet rest long =
    ap (λ bs. of_le (take 4 (drop 4 bs)))
      (received-prefix (mem.fresh 8) packet rest (omega (arith, mem.length-fresh 8)))

receive_msg-stream :
    (debug : Bool) (mem : Memory) (factory : Factory Kind) (key extra : ℕ) (m : Msg) (rest : List ℕ)
    (p : Process)
    → IsValid m
    → IsTimely p
    → create key factory ≡ ok (kind m)
    → get_buffer_size (create_msg (kind m) (next_uid p)) + extra ≡ length (encode m)
    → receive_msg debug mem factory key extra (encode m ++ rest) p ≡ ok (m, tick p)
unfolding receive_msg
receive_msg-stream debug mem factory key extra m rest p v timely made fits =
    rw (sym (receive_msg-encode debug mem factory key extra m p v timely made fits)) (
      rw (
        made,
        fresh_uid_timely p timely,
        received-prefix (mem.fresh (get_buffer_size (create_msg (kind m) (next_uid p)) + extra))
            (encode m) rest
            (omega (
              arith,
              mem.length-fresh (get_buffer_size (create_msg (kind m) (next_uid p)) + extra),
              fits,
            )),
      ))

source_whole : (bytes : List ℕ) → source_bytes (some bytes) (length bytes) ≡ ok bytes
unfolding source_bytes
source_whole bytes = rw (le→leb (length bytes) (length bytes) (omega arith), take-length bytes)

module _ (debug : Bool) (mem : Memory) (p q : Process) (fits : ProcessFits p)
    (timely : IsTimely q) where
  nbd_read_msg-IsValid :
      (offset len : ℕ)
      → offset < 2 ^ 64
      → len < 2 ^ 32
      → IsValid (new_nbd_read_msg offset len (next_uid p))
  unfolding new_nbd_read_msg
  nbd_read_msg-IsValid offset len o n =
      (record { key_fits = omega arith; size_fits = n; uid_fits = next_uid-UidFits p fits }, o)

  nbd_write_msg-IsValid :
      (offset : ℕ) (bytes : List ℕ)
      → offset < 2 ^ 64
      → length bytes < 2 ^ 32
      → All (λ b. b < 256) bytes
      → IsValid (
          nbd_write_msg
            (record { key = nbd_write_msg_key; size = length bytes; uid = next_uid p })
            offset
            (some bytes))
  nbd_write_msg-IsValid offset bytes o n b = (
    record { key_fits = omega arith; size_fits = n; uid_fits = next_uid-UidFits p fits },
    o,
    (refl, b),
  )

  -- The request of NBDRead arrives as the arguments of a read, and what follows it on the stream is
  -- left there.
  pub nbd_read_request_arrives :
      (offset len : ℕ)
      → offset < 2 ^ 64
      → len < 2 ^ 32
      → (packet : List ℕ) × (nbd_read_request mem len offset p ≡ ok (packet, tick p))
        × ((rest : List ℕ)
            → NbdProxy.get_args_key debug mem (packet ++ rest) q
              ≡ ok (read_args read_cmd_key offset len, rest, tick q))
  unfolding nbd_read_request NbdProxy.get_args_key new_nbd_read_msg supply_args kind create add_ctor
      lookup insert get_buffer_size create_msg header header_buffer_size
  nbd_read_request_arrives offset len o n =
      let m : Msg = new_nbd_read_msg offset len (next_uid p) in
      let v = nbd_read_msg-IsValid offset len o n in
      (
        encode m,
        rw (fresh_uid_timely p fits.timely, send_msg-encode mem m v) refl,
        λ rest. rw (
          peek_key-stream mem (encode m) rest (long_enough m v),
          peek_key-encode mem m v,
          receive_msg-stream debug mem NbdProxy.nbd_read_factory nbd_read_msg_key 0 m rest q v
              timely refl (omega (arith, length-encode m v)),
          drop-append_exact 40 (encode m) rest (length-encode m v),
        ),
      )

  made_nbd_write_msg :
      (offset : ℕ) (bytes : List ℕ) (uid : Uid)
      → new_nbd_write_msg offset (length bytes) (some bytes) uid
        ≡ ok (
            nbd_write_msg
              (record { key = nbd_write_msg_key; size = length bytes; uid = uid })
              offset
              (some bytes))
  unfolding new_nbd_write_msg
  made_nbd_write_msg offset bytes uid = rw (source_whole bytes, new_nbd_write_msg)

  -- The request of NBDWrite arrives as the arguments of a write with its data, and what follows it on
  -- the stream is left there.
  pub nbd_write_request_arrives :
      (offset : ℕ) (bytes : List ℕ)
      → offset < 2 ^ 64
      → length bytes < 2 ^ 32
      → All (λ b. b < 256) bytes
      → (packet : List ℕ) × (nbd_write_request mem bytes (length bytes) offset p
          ≡ ok (packet, tick p))
        × ((rest : List ℕ)
            → NbdProxy.get_args_key debug mem (packet ++ rest) q
              ≡ ok (write_args write_cmd_key offset (length bytes) (some bytes), rest, tick q))
  unfolding nbd_write_request NbdProxy.get_args_key supply_args kind create add_ctor lookup insert
      get_buffer_size create_msg header header_buffer_size
  nbd_write_request_arrives offset bytes o n b =
      let m : Msg =
        nbd_write_msg (record { key = nbd_write_msg_key; size = length bytes; uid = next_uid p })
          offset (some bytes) in
      let v = nbd_write_msg-IsValid offset bytes o n b in
      (
        encode m,
        rw
            (
              fresh_uid_timely p fits.timely,
              made_nbd_write_msg offset bytes (next_uid p),
              send_msg-encode mem m v,
            )
            refl,
        λ rest. rw (
          peek_key-stream mem (encode m) rest (long_enough m v),
          peek_key-encode mem m v,
          peek_size-stream mem (encode m) rest (long_enough m v),
          peek_size-encode mem m v,
          receive_msg-stream debug mem NbdProxy.nbd_write_factory nbd_write_msg_key (length bytes) m
              rest q v timely refl (omega (arith, length-encode m v)),
          drop-append_exact (40 + length bytes) (encode m) rest (omega (arith, length-encode m v)),
        ),
      )
