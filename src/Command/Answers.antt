-- ===== src/Command/Answers.antt =====
-- The commands of a minion, from the datagram to the answer, and the answer at the master.
use iot_drive.Shared.{
  ℕ, zero, suc, ◌+◌, ◌^◌, ◌≤◌, ◌<◌, ◌≡◌, refl, Bool, true, List, some, ok, arith, lookup, insert,
  All, length, take-length, drop_all, append-nil, le→leb,
}
use iot_drive.Buffer.{source_bytes}
use iot_drive.ArgsKey.{
  minion_read_args, minion_write_args, minion_read_cmd_key, minion_write_cmd_key,
}
use iot_drive.Factory.{create, add_ctor}
use iot_drive.Message.Identity.{Uid}
use iot_drive.Message.{
  Msg, kind, header, get_buffer_size, get_uid, supply_args, new_read_msg, new_write_msg,
  new_minion_read_msg, new_minion_write_msg, read_msg_key, write_msg_key,
}
use iot_drive.Message.Format.{encode, IsValid, UidFits, length-encode}
use iot_drive.Storage.{BinFile, write_at, slice, seek, file_read, file_write}
use iot_drive.Storage.Slices.{length-slice}
use iot_drive.Storage.Fresh.{IsReady, get_bin_file_later}
use iot_drive.Proxy.{Memory, Process, create_msg, receive_msg}
use iot_drive.Proxy.Delivery.{
  IsTimely, tick, send_msg-encode, peek_key-encode, peek_size-encode, receive_msg-encode,
}
use iot_drive.Proxy.MasterProxy
use iot_drive.Proxy.MasterProxy.{read_response, write_response}
use iot_drive.Command.{execute_minion_read, execute_minion_write}

module _ (debug : Bool) (mem : Memory) (p : Process) (timely : IsTimely p) where
  receive_write :
      (offset : ℕ) (bytes : List ℕ) (uid : Uid)
      → IsValid (new_write_msg offset (length bytes) (some bytes) uid)
      → receive_msg debug mem MasterProxy.write_msg_factory write_msg_key
          (length bytes)
          (encode (new_write_msg offset (length bytes) (some bytes) uid))
          p
        ≡ ok (new_write_msg offset (length bytes) (some bytes) uid, tick p)
  unfolding new_write_msg kind create add_ctor lookup insert get_buffer_size create_msg
  receive_write offset bytes uid v =
      let m : Msg = new_write_msg offset (length bytes) (some bytes) uid in
      receive_msg-encode debug mem MasterProxy.write_msg_factory write_msg_key (length bytes) m p v
        timely refl (omega (arith, length-encode m v))

  receive_read :
      (offset size : ℕ) (uid : Uid)
      → IsValid (new_read_msg offset size uid)
      → receive_msg debug mem MasterProxy.read_msg_factory read_msg_key 0
          (encode (new_read_msg offset size uid))
          p
        ≡ ok (new_read_msg offset size uid, tick p)
  unfolding new_read_msg kind create add_ctor lookup insert get_buffer_size create_msg
  receive_read offset size uid v =
      let m : Msg = new_read_msg offset size uid in
      receive_msg-encode debug mem MasterProxy.read_msg_factory read_msg_key 0 m p v timely refl
        (omega (arith, length-encode m v))

  -- The minion makes the arguments of a write command of a WriteMsg datagram.
  pub get_args_key-write :
      (offset : ℕ) (bytes : List ℕ) (uid : Uid)
      → IsValid (new_write_msg offset (length bytes) (some bytes) uid)
      → MasterProxy.get_args_key debug mem
          (encode (new_write_msg offset (length bytes) (some bytes) uid))
          p
        ≡ ok (minion_write_args minion_write_cmd_key offset (length bytes) (some bytes) uid, tick p)
  unfolding MasterProxy.get_args_key new_write_msg supply_args get_uid header
  get_args_key-write offset bytes uid v =
      let m : Msg = new_write_msg offset (length bytes) (some bytes) uid in
      rw (peek_key-encode mem m v, peek_size-encode mem m v, receive_write offset bytes uid v)

  pub get_args_key-read :
      (offset size : ℕ) (uid : Uid)
      → IsValid (new_read_msg offset size uid)
      → MasterProxy.get_args_key debug mem (encode (new_read_msg offset size uid)) p
        ≡ ok (minion_read_args minion_read_cmd_key offset size uid, tick p)
  unfolding MasterProxy.get_args_key new_read_msg supply_args get_uid header
  get_args_key-read offset size uid v =
      let m : Msg = new_read_msg offset size uid in
      rw (peek_key-encode mem m v, receive_read offset size uid v)

-- What the answers hold.
pub minion_write_msg-IsValid : (uid : Uid) → UidFits uid → IsValid (new_minion_write_msg uid true)
unfolding new_minion_write_msg
minion_write_msg-IsValid uid u = record {
  key_fits = omega arith;
  size_fits = omega arith;
  uid_fits = u;
}

pub minion_read_msg-IsValid :
    (uid : Uid) (bytes : List ℕ) (n : ℕ)
    → UidFits uid
    → n < 2 ^ 32
    → length bytes ≡ n
    → All (λ b. b < 256) bytes
    → IsValid (new_minion_read_msg uid true (some bytes) n)
unfolding new_minion_read_msg
minion_read_msg-IsValid uid bytes n u lt e b =
    (record { key_fits = omega arith; size_fits = lt; uid_fits = u }, (e, b))

write_response-encode :
    (mem : Memory) (uid : Uid)
    → UidFits uid
    → write_response mem uid true ≡ ok (encode (new_minion_write_msg uid true))
unfolding write_response new_minion_write_msg
write_response-encode mem uid u =
    send_msg-encode mem (new_minion_write_msg uid true) (minion_write_msg-IsValid uid u)

read_response-encode :
    (mem : Memory) (uid : Uid) (bytes : List ℕ) (n : ℕ)
    → UidFits uid
    → n < 2 ^ 32
    → length bytes ≡ n
    → All (λ b. b < 256) bytes
    → read_response mem uid true (some bytes) n
      ≡ ok (encode (new_minion_read_msg uid true (some bytes) n))
unfolding read_response new_minion_read_msg
read_response-encode mem uid bytes n u lt e b =
    send_msg-encode mem (new_minion_read_msg uid true (some bytes) n)
      (minion_read_msg-IsValid uid bytes n u lt e b)

-- The file after a write command.
abbrev pub written : ℕ → List ℕ → BinFile → BinFile
written offset bytes f = seek 0 (file_write bytes (seek offset f))

pub written-IsReady :
    (offset : ℕ) (bytes : List ℕ) (f : BinFile) → IsReady f → IsReady (written offset bytes f)
unfolding seek file_write
written-IsReady offset bytes f r = ground arith

pub content-written :
    (offset : ℕ) (bytes : List ℕ) (f : BinFile)
    → IsReady f
    → (written offset bytes f).content ≡ write_at f.content offset bytes
unfolding seek file_write
content-written offset bytes f r = ground arith

pub execute_minion_write_lem :
    (mem : Memory) (offset : ℕ) (bytes : List ℕ) (uid : Uid) (f : BinFile)
    → IsReady f
    → UidFits uid
    → execute_minion_write mem
        (minion_write_args minion_write_cmd_key offset (length bytes) (some bytes) uid)
        f
      ≡ ok (encode (new_minion_write_msg uid true), written offset bytes f)
unfolding execute_minion_write source_bytes
execute_minion_write_lem mem offset bytes uid f r u = rw (
  le→leb (length bytes) (length bytes) (omega arith),
  take-length bytes,
  write_response-encode mem uid u,
  get_bin_file_later f r.has_run,
)

pub slice-All : (c : ℕ → ℕ) (p n : ℕ) → ((i : ℕ) → c i < 256) → All (λ b. b < 256) (slice c p n)
unfolding slice
slice-All c p zero h = tt
slice-All c p (suc n) h = (h p, slice-All c (suc p) n h)

file_read_inside :
    (offset size : ℕ) (old : List ℕ) (f : BinFile)
    → f.good ≡ true
    → offset + size ≤ f.size
    → length old ≡ size
    → file_read size old (seek offset f)
      ≡ (slice f.content offset size, record f { pos = offset + size })
unfolding file_read seek
file_read_inside offset size old f good inside e = ground (
  arith,
  le→leb (offset + size) f.size,
  drop_all size old,
  append-nil (slice f.content offset size),
)

-- The file after a read command: the position is at the start, and nothing else has changed.
pub execute_minion_read_lem :
    (mem : Memory) (offset size : ℕ) (uid : Uid) (f : BinFile)
    → IsReady f
    → UidFits uid
    → size < 2 ^ 32
    → offset + size ≤ f.size
    → ((i : ℕ) → f.content i < 256)
    → execute_minion_read mem (minion_read_args minion_read_cmd_key offset size uid) f
      ≡ ok (
        encode (new_minion_read_msg uid true (some (slice f.content offset size)) size),
        record f { pos = 0 },
      )
unfolding execute_minion_read seek
execute_minion_read_lem mem offset size uid f r u n inside b = rw (
  get_bin_file_later f r.has_run,
  file_read_inside offset size (mem.fresh size) f r.is_good inside (mem.length-fresh size),
  read_response-encode mem uid (slice f.content offset size) size u n
      (length-slice f.content offset size) (slice-All f.content offset size b),
  r.is_good,
)
