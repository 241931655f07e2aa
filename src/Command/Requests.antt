-- ===== src/Command/Requests.antt =====
-- The commands of the master: the datagrams that they send, to whom, and what they register.
use iot_drive.Shared.{
  ℕ, ◌^◌, ◌<◌, ◌≡◌, refl, Bool, List, [], ◌∷◌, some, ok, arith, insert, lookup, All, length,
}
use iot_drive.ArgsKey.{read_args, write_args, read_cmd_key, write_cmd_key, get_key}
use iot_drive.Factory.{create, add_ctor}
use iot_drive.Message.Identity.{Uid, new_uid}
use iot_drive.Message.{new_read_msg, new_write_msg}
use iot_drive.Message.Format.{encode, IsValid, UidFits}
use iot_drive.Raid.{memory}
use iot_drive.Raid.Placement.{primary, backup, offset_to_proxy_inside}
use iot_drive.Response.{processing_request, register_command}
use iot_drive.Proxy.{Memory, Process}
use iot_drive.Proxy.Delivery.{IsTimely, tick, next_uid, send_msg-encode}
use iot_drive.Proxy.MinionProxy.{read_request, write_request}
use iot_drive.Proxy.ResponseProxy.{Master}
use iot_drive.Command.{read_ai, write_ai, register, execute_read, execute_write, run_master_task}

-- The numbers of a process fit their fields, and its time is a time.
pub record ProcessFits (p : Process) : Type 0 where
  pub counter_fits : p.counter < 2 ^ 32
  pub now_fits : p.now < 2 ^ 64
  pub pid_fits : p.pid < 2 ^ 32
  pub timely : IsTimely p

pub tick-ProcessFits : (p : Process) → ProcessFits p → ProcessFits (tick p)
tick-ProcessFits p v = omega arith

pub next_uid-UidFits : (p : Process) → ProcessFits p → UidFits (next_uid p)
next_uid-UidFits p v = omega arith

-- The master after RegisterCommand.
abbrev pub registered : Master → Master
registered s = record s {
  process = tick s.process;
  watchlist = insert s.process.counter processing_request s.watchlist;
}

pub register_timely :
    (s : Master) → IsTimely s.process → register s ≡ ok (next_uid s.process, registered s)
unfolding register register_command new_uid
register_timely s h = ground arith

pub write_msg-IsValid :
    (offset size : ℕ) (bytes : List ℕ) (uid : Uid)
    → UidFits uid
    → offset < 2 ^ 64
    → size < 2 ^ 32
    → length bytes ≡ size
    → All (λ b. b < 256) bytes
    → IsValid (new_write_msg offset size (some bytes) uid)
unfolding new_write_msg
write_msg-IsValid offset size bytes uid u o s e b =
    (record { key_fits = omega arith; size_fits = s; uid_fits = u }, o, (e, b))

pub read_msg-IsValid :
    (offset size : ℕ) (uid : Uid)
    → UidFits uid
    → offset < 2 ^ 64
    → size < 2 ^ 32
    → IsValid (new_read_msg offset size uid)
unfolding new_read_msg
read_msg-IsValid offset size uid u o s =
    (record { key_fits = omega arith; size_fits = s; uid_fits = u }, o)

read_request-encode :
    (mem : Memory) (offset size : ℕ) (uid : Uid)
    → UidFits uid
    → offset < 2 ^ 64
    → size < 2 ^ 32
    → read_request mem offset size uid ≡ ok (encode (new_read_msg offset size uid))
unfolding read_request new_read_msg
read_request-encode mem offset size uid u o n =
    send_msg-encode mem (new_read_msg offset size uid) (read_msg-IsValid offset size uid u o n)

write_request-encode :
    (mem : Memory) (offset : ℕ) (bytes : List ℕ) (uid : Uid)
    → UidFits uid
    → offset < 2 ^ 64
    → length bytes < 2 ^ 32
    → All (λ b. b < 256) bytes
    → write_request mem offset (length bytes) (some bytes) uid
      ≡ ok (encode (new_write_msg offset (length bytes) (some bytes) uid))
unfolding write_request new_write_msg
write_request-encode mem offset bytes uid u o n b =
    send_msg-encode mem (new_write_msg offset (length bytes) (some bytes) uid)
      (write_msg-IsValid offset (length bytes) bytes uid u o n refl b)

module _ (debug : Bool) (mem : Memory) (s : Master) (fits : ProcessFits s.process) where
  -- A read inside the device sends one ReadMsg, to the minion of the primary copy and for the
  -- offset there, under a fresh UID that is registered, and is polled every five seconds.
  pub run_master_task-read :
      (offset size : ℕ)
      → offset < memory
      → size < 2 ^ 32
      → run_master_task debug mem (read_args read_cmd_key offset size) s
        ≡ ok (record {
          datagrams =
              (
                (primary offset).minion,
                encode (new_read_msg (primary offset).offset size (next_uid s.process)),
              )
              ∷ [];
          ai = read_ai (next_uid s.process);
          delay = 5000;
          master = registered s;
        })
  unfolding run_master_task get_key create add_ctor execute_read lookup insert
  run_master_task-read offset size inside small = rw (
    offset_to_proxy_inside offset inside,
    register_timely s fits.timely,
    read_request-encode mem (primary offset).offset size (next_uid s.process)
        (next_uid-UidFits s.process fits) (omega arith) small,
  )

  -- A write inside the device sends two WriteMsg of the whole data, to the minions of the two
  -- copies and for their offsets there, under two fresh UIDs that are registered.
  pub run_master_task-write :
      (offset : ℕ) (bytes : List ℕ)
      → offset < memory
      → length bytes < 2 ^ 32
      → All (λ b. b < 256) bytes
      → run_master_task debug mem (write_args write_cmd_key offset (length bytes) (some bytes)) s
        ≡ ok (record {
          datagrams =
              (
                (primary offset).minion,
                encode (
                    new_write_msg
                      (primary offset).offset
                      (length bytes)
                      (some bytes)
                      (next_uid s.process)),
              )
              ∷ (
                (backup offset).minion,
                encode (
                    new_write_msg
                      (backup offset).offset
                      (length bytes)
                      (some bytes)
                      (next_uid (tick s.process))),
              )
              ∷ [];
          ai = write_ai (next_uid s.process) (next_uid (tick s.process));
          delay = 500;
          master = registered (registered s);
        })
  unfolding run_master_task get_key create add_ctor execute_write lookup insert
  run_master_task-write offset bytes inside small b = rw (
    offset_to_proxy_inside offset inside,
    register_timely s fits.timely,
    register_timely (registered s) fits.timely,
    write_request-encode mem (primary offset).offset bytes (next_uid s.process)
        (next_uid-UidFits s.process fits) (omega arith) small b,
    write_request-encode mem (backup offset).offset bytes (next_uid (tick s.process))
        (next_uid-UidFits (tick s.process) (tick-ProcessFits s.process fits)) (omega arith) small b,
  )
