-- ===== src/Proxy/MasterProxy.antt =====
-- MasterProxy, in a minion: a request of the master becomes the arguments of a command, and the
-- answers go back.
use iot_drive.Shared.{ℕ, Bool, List, [], Option, Outcome, ok, bind, ◌==◌, if◌then◌else◌}
use iot_drive.Factory.{Factory, add_ctor}
use iot_drive.ArgsKey.{
  ArgsKey, minion_read_args, minion_write_args, minion_read_cmd_key, minion_write_cmd_key,
}
use iot_drive.Message.Identity.{Uid}
use iot_drive.Message.{
  Kind, read, write, read_msg_key, write_msg_key, new_minion_read_msg, new_minion_write_msg,
  supply_args, get_uid,
}
use iot_drive.Proxy.{Memory, Process, peek_key, peek_size, send_msg, receive_msg}

-- The factories that the constructor fills.
abbrev pub write_msg_factory : Factory Kind
write_msg_factory = add_ctor write_msg_key write []

abbrev pub read_msg_factory : Factory Kind
read_msg_factory = add_ctor read_msg_key read []

unfoldable pub get_args_key : Bool → Memory → List ℕ → Process → Outcome (ArgsKey × Process)
get_args_key debug mem packet p =
    let key = peek_key mem packet in
    let size = peek_size mem packet in
    let writes : Outcome (ArgsKey × Process) =
      bind (receive_msg debug mem write_msg_factory key size packet p) λ r.
        let (offset, n, bytes) = supply_args (r.0) in
        ok (minion_write_args minion_write_cmd_key offset n bytes (get_uid (r.0)), r.1) in
    let reads : Outcome (ArgsKey × Process) =
      bind (receive_msg debug mem read_msg_factory key 0 packet p) λ r.
        let (offset, n, bytes) = supply_args (r.0) in
        ok (minion_read_args minion_read_cmd_key offset n (get_uid (r.0)), r.1) in
    if key == write_msg_key then writes else reads

unfoldable pub read_response : Memory → Uid → Bool → Option (List ℕ) → ℕ → Outcome (List ℕ)
read_response mem uid is_success bytes size =
    send_msg mem (new_minion_read_msg uid is_success bytes size) size

unfoldable pub write_response : Memory → Uid → Bool → Outcome (List ℕ)
write_response mem uid is_success = send_msg mem (new_minion_write_msg uid is_success) 0
