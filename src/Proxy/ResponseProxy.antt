-- ===== src/Proxy/ResponseProxy.antt =====
-- ResponseProxy, in the master: the answers of the minions.
use iot_drive.Shared.{
  ℕ, Bool, true, false, List, [], ◌∷◌, ◌++◌, Option, Outcome, ok, bind, ◌==◌, if◌then◌else◌,
}
use iot_drive.Buffer.{source_bytes}
use iot_drive.Factory.{Factory, add_ctor}
use iot_drive.Message.{
  Msg, Kind, read_msg, write_msg, minion_read_msg, minion_write_msg, nbd_read_msg, nbd_write_msg,
  minion_read, minion_write, read_minion_msg_key, write_minion_msg_key, supply_args, get_uid,
}
use iot_drive.Response.{Watchlist, register_response}
use iot_drive.Proxy.{Memory, Process, peek_key, peek_size, receive_msg}

-- The master's state that answers and AI functions change. `tcp_out` are the writes to the socket
-- of the block device, oldest first.
pub record Master : Type 0 where
  pub process : Process
  pub watchlist : Watchlist
  pub tcp_out : List (List ℕ)

-- NBDProxy::NotifySucces and TCPSocket::Response.
unfoldable pub notify_succes : Option (List ℕ) → ℕ → Master → Outcome Master
notify_succes bytes size s =
    bind (source_bytes bytes size) λ bs. ok (record s { tcp_out = s.tcp_out ++ bs ∷ [] })

abbrev pub minion_read_factory : Factory Kind
minion_read_factory = add_ctor read_minion_msg_key minion_read []

abbrev pub minion_write_factory : Factory Kind
minion_write_factory = add_ctor write_minion_msg_key minion_write []

-- MinionReadMsg::GetIsSuccess and MinionWriteMsg::GetIsSuccess.
unfoldable pub get_is_success : Msg → Bool
get_is_success (minion_read_msg h is_success bytes) = is_success
get_is_success (minion_write_msg h is_success) = is_success
get_is_success (read_msg h offset) = false
get_is_success (write_msg h offset bytes) = false
get_is_success (nbd_read_msg h offset) = false
get_is_success (nbd_write_msg h offset bytes) = false

unfoldable pub on_write_answer : Msg → Master → Master
on_write_answer m s =
    let (offset, flag, bytes) = supply_args m in
    if flag == 1 then record s { watchlist = register_response (get_uid m) s.watchlist } else s

unfoldable pub on_read_answer : Msg → Master → Outcome Master
on_read_answer m s =
    let (offset, size, bytes) = supply_args m in
    if get_is_success m
    then notify_succes bytes size
        (record s { watchlist = register_response (get_uid m) s.watchlist })
    else ok s

-- GetArgsKey gives no arguments to the thread pool. The flag tells whether the datagram was taken
-- from the socket: one with another key is peeked at and stays.
unfoldable pub get_args_key : Bool → Memory → List ℕ → Master → Outcome (Bool × Master)
get_args_key debug mem packet s =
    let key = peek_key mem packet in
    let size = peek_size mem packet in
    let writes : Outcome (Bool × Master) =
      bind (receive_msg debug mem minion_write_factory key 0 packet s.process)
        λ r. ok (true, on_write_answer (r.0) (record s { process = r.1 })) in
    let reads : Outcome (Bool × Master) =
      bind (receive_msg debug mem minion_read_factory key size packet s.process)
        λ r. bind (on_read_answer (r.0) (record s { process = r.1 })) λ s'. ok (true, s') in
    if key == write_minion_msg_key
    then writes
    else if key == read_minion_msg_key
    then reads
    else ok (false, s)
