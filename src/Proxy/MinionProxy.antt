-- ===== src/Proxy/MinionProxy.antt =====
-- MinionProxy: the requests that the master sends to a minion.
use iot_drive.Shared.{ℕ, List, Option, Outcome}
use iot_drive.Message.Identity.{Uid}
use iot_drive.Message.{new_read_msg, new_write_msg}
use iot_drive.Proxy.{Memory, send_msg}

unfoldable pub read_request : Memory → ℕ → ℕ → Uid → Outcome (List ℕ)
read_request mem offset size uid = send_msg mem (new_read_msg offset size uid) 0

unfoldable pub write_request : Memory → ℕ → ℕ → Option (List ℕ) → Uid → Outcome (List ℕ)
write_request mem offset size bytes uid = send_msg mem (new_write_msg offset size bytes uid) 0
