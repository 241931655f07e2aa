-- ===== src/Proxy/NbdProxy.antt =====
-- NBDProxy, in the master: the requests of the block device over TCP.
use iot_drive.Shared.{ℕ, ◌+◌, Bool, List, [], Outcome, ok, bind, ◌==◌, if◌then◌else◌, drop}
use iot_drive.Factory.{Factory, add_ctor}
use iot_drive.ArgsKey.{ArgsKey, read_args, write_args, read_cmd_key, write_cmd_key}
use iot_drive.Message.{
  Kind, nbd_read, nbd_write, nbd_read_msg_key, nbd_write_msg_key, header_buffer_size, supply_args,
}
use iot_drive.Proxy.{Memory, Process, peek_key, peek_size, receive_msg}

abbrev pub nbd_read_factory : Factory Kind
nbd_read_factory = add_ctor nbd_read_msg_key nbd_read []

abbrev pub nbd_write_factory : Factory Kind
nbd_write_factory = add_ctor nbd_write_msg_key nbd_write []

-- GetArgsKey on the bytes that the stream can give, with what is left of the stream. The message
-- that Create makes has a GetBufferSize of a header and an offset.
unfoldable pub get_args_key :
    Bool → Memory → List ℕ → Process → Outcome (ArgsKey × List ℕ × Process)
unfolding header_buffer_size
get_args_key debug mem stream p =
    let key = peek_key mem stream in
    let size = peek_size mem stream in
    let writes : Outcome (ArgsKey × List ℕ × Process) =
      bind (receive_msg debug mem nbd_write_factory key size stream p) λ r.
        let (offset, n, bytes) = supply_args (r.0) in
        ok (
          write_args write_cmd_key offset n bytes,
          drop (header_buffer_size + 8 + size) stream,
          r.1,
        ) in
    let reads : Outcome (ArgsKey × List ℕ × Process) =
      bind (receive_msg debug mem nbd_read_factory key 0 stream p) λ r.
        let (offset, n, bytes) = supply_args (r.0) in
        ok (read_args read_cmd_key offset n, drop (header_buffer_size + 8) stream, r.1) in
    if key == nbd_write_msg_key then writes else reads
