-- ===== src/Proxy.antt =====
-- What the proxies of inputproxy.cpp share: buffers on the heap, the sockets, the creation of
-- message objects, and the way a message is sent and received. Sockets and the allocator are
-- outside of the program: a datagram or stream is the list of the bytes that `recv` can give, and
-- `Memory` says what fresh memory holds.
pub mod MinionProxy
pub mod MasterProxy
pub mod ResponseProxy
pub mod NbdProxy
pub mod Delivery
pub mod Distinct
use iot_drive.Shared.{
  ℕ, ◌+◌, ◌≡◌, List, ◌++◌, Bool, true, none, Outcome, ok, bind, length, take, drop,
}
use iot_drive.Buffer.{M, at_start, contents, of_le}
use iot_drive.Factory.{Factory, create}
use iot_drive.Message.Identity.{Uid, new_uid}
use iot_drive.Message.{
  Msg, Kind, read, write, minion_read, minion_write, nbd_read, nbd_write, nbd_write_msg,
  nbd_write_msg_key, new_read_msg, new_write_msg, new_minion_read_msg, new_minion_write_msg,
  new_nbd_read_msg, get_buffer_size,
}
use iot_drive.Message.Wire.{to_buffer, from_buffer}

-- `new char[n]`: n bytes, of which nothing else is known.
pub record Memory : Type 0 where
  pub fresh : ℕ → List ℕ
  pub length-fresh : (n : ℕ) → length (fresh n) ≡ n

-- The static UID counter of a process, the time it reads, and its id.
pub record Process : Type 0 where
  pub counter : ℕ
  pub now : ℕ
  pub pid : ℕ

-- `ThreadSafeUID()`.
unfoldable pub fresh_uid : Process → Outcome (Uid × Process)
fresh_uid p = bind (new_uid p.counter p.now p.pid) λ r. ok (r.0, record p { counter = r.1 })

-- CreateMinionReadMsg to CreateReadMsg: the default constructor of each class.
unfoldable pub create_msg : Kind → Uid → Msg
create_msg read uid = new_read_msg 0 0 uid
create_msg write uid = new_write_msg 0 0 none uid
create_msg minion_read uid = new_minion_read_msg uid true none 0
create_msg minion_write uid = new_minion_write_msg uid true
create_msg nbd_read uid = new_nbd_read_msg 0 0 uid
create_msg nbd_write uid =
    nbd_write_msg (record { key = nbd_write_msg_key; size = 0; uid = uid }) 0 none

-- `recv(buffer, n)` over `packet`, where the `n` bytes of the buffer were `old`.
unfoldable pub received : List ℕ → List ℕ → List ℕ
received old packet = take (length old) packet ++ drop (length packet) old

-- The key and the size, peeked at the front of the packet.
unfoldable pub peek_key : Memory → List ℕ → ℕ
peek_key mem packet = of_le (take 4 (received (mem.fresh 8) packet))

unfoldable pub peek_size : Memory → List ℕ → ℕ
peek_size mem packet = of_le (take 4 (drop 4 (received (mem.fresh 8) packet)))

-- ToBuffer into a new buffer of GetBufferSize bytes and `extra` more, which is then sent whole.
unfoldable pub send_msg : Memory → Msg → ℕ → Outcome (List ℕ)
send_msg mem m extra =
    bind (to_buffer m (at_start (mem.fresh (get_buffer_size m + extra)))) λ r. ok (contents (r.1))

-- Factory::Create, a new buffer of GetBufferSize bytes and `extra` more, `recv`, and FromBuffer.
unfoldable pub receive_msg :
    Bool → Memory → Factory Kind → ℕ → ℕ → List ℕ → Process → Outcome (Msg × Process)
receive_msg debug mem factory key extra packet p = bind (create key factory) λ k.
    bind (fresh_uid p) λ created.
      bind
        (from_buffer debug k (
          at_start
            (received (mem.fresh (get_buffer_size (create_msg k (created.0)) + extra)) packet)))
        λ r. ok (r.0, created.1)
