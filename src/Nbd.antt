-- ===== src/Nbd.antt =====
-- raz_nbd.cpp: the operations of the block device, which ask the master over TCP.
pub mod Arrival
pub mod Options
use iot_drive.Shared.{ℕ, List, some, Outcome, ok, bind}
use iot_drive.Message.{new_nbd_read_msg, new_nbd_write_msg}
use iot_drive.Proxy.{Memory, Process, fresh_uid, received, send_msg}

-- NBDRead up to Send: the bytes on the socket.
unfoldable pub nbd_read_request : Memory → ℕ → ℕ → Process → Outcome (List ℕ × Process)
nbd_read_request mem len offset p =
    bind (fresh_uid p)
      λ r. bind (send_msg mem (new_nbd_read_msg offset len (r.0)) 0) λ packet. ok (packet, r.1)

-- NBDWrite up to Send.
unfoldable pub nbd_write_request : Memory → List ℕ → ℕ → ℕ → Process → Outcome (List ℕ × Process)
nbd_write_request mem buf len offset p = bind (fresh_uid p) λ r.
    bind (new_nbd_write_msg offset len (some buf) (r.0))
      λ m. bind (send_msg mem m 0) λ packet. ok (packet, r.1)

-- The rest of NBDRead: one `recv` into the buffer of the request, and the error code.
unfoldable pub nbd_read_result : List ℕ → List ℕ → ℕ × List ℕ
nbd_read_result buf answer = (0, received buf answer)

-- The rest of NBDWrite: the answer is received and not looked at.
unfoldable pub nbd_write_result : List ℕ → ℕ
nbd_write_result answer = 0
