-- ===== src/Command/Serving.antt =====
-- A request of the master, served by a minion from the datagram to the answer; and the answer,
-- taken in by the master.
use iot_drive.Shared.{
  ℕ, ◌+◌, ◌^◌, ◌≤◌, ◌<◌, ◌≡◌, refl, Bool, true, List, [], ◌∷◌, ◌++◌, some, ok, arith, lookup,
  insert, length, le→leb, take-length,
}
use iot_drive.Buffer.{source_bytes}
use iot_drive.ArgsKey.{get_key}
use iot_drive.Factory.{create, add_ctor}
use iot_drive.Message.Identity.{Uid}
use iot_drive.Message.{
  Msg, kind, header, get_buffer_size, get_uid, supply_args, new_read_msg, new_write_msg,
  new_minion_read_msg, new_minion_write_msg, read_minion_msg_key, write_minion_msg_key,
}
use iot_drive.Message.Format.{encode, IsValid, UidFits, length-encode}
use iot_drive.Storage.{slice}
use iot_drive.Storage.Fresh.{IsReady}
use iot_drive.Response.{register_response}
use iot_drive.Proxy.{Memory, create_msg, receive_msg}
use iot_drive.Proxy.Delivery.{IsTimely, tick, peek_key-encode, peek_size-encode, receive_msg-encode}
use iot_drive.Proxy.ResponseProxy
use iot_drive.Proxy.ResponseProxy.{
  Master, on_write_answer, on_read_answer, get_is_success, notify_succes,
}
use iot_drive.Command.Answers.{
  get_args_key-write, get_args_key-read, execute_minion_write_lem, execute_minion_read_lem, written,
  minion_write_msg-IsValid,
}
use iot_drive.Command.{Minion, run_minion_task, minion_serve}

module _ (debug : Bool) (mem : Memory) (m : Minion) (ready : IsReady m.file)
    (timely : IsTimely m.process) where
  -- A minion that is ready answers the datagram of a well-formed WriteMsg with success under the
  -- UID of the request, and its file then holds the bytes at the offset, with the position at 0.
  pub minion_serve-write :
      (offset : ℕ) (bytes : List ℕ) (uid : Uid)
      → IsValid (new_write_msg offset (length bytes) (some bytes) uid)
      → UidFits uid
      → minion_serve debug mem (encode (new_write_msg offset (length bytes) (some bytes) uid)) m
        ≡ ok (
          encode (new_minion_write_msg uid true),
          record { process = tick m.process; file = written offset bytes m.file },
        )
  unfolding minion_serve run_minion_task get_key create add_ctor lookup insert
  minion_serve-write offset bytes uid v u = rw (
    get_args_key-write debug mem m.process timely offset bytes uid v,
    execute_minion_write_lem mem offset bytes uid m.file ready u,
  )

  -- A minion that is ready answers the datagram of a well-formed ReadMsg, for a range inside its file
  -- of bytes, with the bytes of the range under the UID of the request, and changes no byte.
  pub minion_serve-read :
      (offset size : ℕ) (uid : Uid)
      → IsValid (new_read_msg offset size uid)
      → UidFits uid
      → size < 2 ^ 32
      → offset + size ≤ m.file.size
      → ((i : ℕ) → m.file.content i < 256)
      → minion_serve debug mem (encode (new_read_msg offset size uid)) m
        ≡ ok (
          encode (new_minion_read_msg uid true (some (slice m.file.content offset size)) size),
          record { process = tick m.process; file = record (m.file) { pos = 0 } },
        )
  unfolding minion_serve run_minion_task get_key create add_ctor lookup insert
  minion_serve-read offset size uid v u n inside b = rw (
    get_args_key-read debug mem m.process timely offset size uid v,
    execute_minion_read_lem mem offset size uid m.file ready u n inside b,
  )

module _ (debug : Bool) (mem : Memory) (s : Master) (timely : IsTimely s.process) where
  receive_write_answer :
      (uid : Uid)
      → UidFits uid
      → receive_msg debug mem ResponseProxy.minion_write_factory write_minion_msg_key 0
          (encode (new_minion_write_msg uid true))
          s.process
        ≡ ok (new_minion_write_msg uid true, tick s.process)
  unfolding new_minion_write_msg kind create add_ctor lookup insert get_buffer_size create_msg
  receive_write_answer uid u =
      let m : Msg = new_minion_write_msg uid true in
      let v = minion_write_msg-IsValid uid u in
      receive_msg-encode debug mem ResponseProxy.minion_write_factory write_minion_msg_key 0 m
        s.process v timely refl (omega (arith, length-encode m v))

  -- A write answer is taken from the socket and registered.
  pub get_args_key-write_answer :
      (uid : Uid)
      → UidFits uid
      → ResponseProxy.get_args_key debug mem (encode (new_minion_write_msg uid true)) s
        ≡ ok (
          true,
          record s { process = tick s.process; watchlist = register_response uid s.watchlist },
        )
  unfolding ResponseProxy.get_args_key on_write_answer new_minion_write_msg supply_args get_uid
      header
  get_args_key-write_answer uid u = rw (
    peek_key-encode mem (new_minion_write_msg uid true) (minion_write_msg-IsValid uid u),
    receive_write_answer uid u,
  )

  receive_read_answer :
      (uid : Uid) (bytes : List ℕ)
      → IsValid (new_minion_read_msg uid true (some bytes) (length bytes))
      → receive_msg debug mem ResponseProxy.minion_read_factory read_minion_msg_key
          (length bytes)
          (encode (new_minion_read_msg uid true (some bytes) (length bytes)))
          s.process
        ≡ ok (new_minion_read_msg uid true (some bytes) (length bytes), tick s.process)
  unfolding new_minion_read_msg kind create add_ctor lookup insert get_buffer_size create_msg
  receive_read_answer uid bytes v =
      let m : Msg = new_minion_read_msg uid true (some bytes) (length bytes) in
      receive_msg-encode debug mem ResponseProxy.minion_read_factory read_minion_msg_key
        (length bytes) m s.process v timely refl (omega (arith, length-encode m v))

  -- A read answer is taken from the socket and registered, and its data goes to the block device.
  pub get_args_key-read_answer :
      (uid : Uid) (bytes : List ℕ)
      → IsValid (new_minion_read_msg uid true (some bytes) (length bytes))
      → ResponseProxy.get_args_key debug mem
          (encode (new_minion_read_msg uid true (some bytes) (length bytes)))
          s
        ≡ ok (
          true,
          record {
            process = tick s.process;
            watchlist = register_response uid s.watchlist;
            tcp_out = s.tcp_out ++ bytes ∷ [];
          },
        )
  unfolding ResponseProxy.get_args_key on_read_answer new_minion_read_msg supply_args get_uid header
      get_is_success notify_succes source_bytes
  get_args_key-read_answer uid bytes v = rw (
    peek_key-encode mem (new_minion_read_msg uid true (some bytes) (length bytes)) v,
    peek_size-encode mem (new_minion_read_msg uid true (some bytes) (length bytes)) v,
    receive_read_answer uid bytes v,
    le→leb (length bytes) (length bytes) (omega arith),
    take-length bytes,
  )
