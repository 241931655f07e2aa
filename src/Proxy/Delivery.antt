-- ===== src/Proxy/Delivery.antt =====
-- A message that is sent and received whole: the datagram is the layout of the message, the key
-- and the size can be peeked at, and the receiver of its key has the message back.
use iot_drive.Shared.{
  ℕ, ◌+◌, ◌%◌, ◌^◌, ◌≤◌, ◌<◌, ◌≡◌, sym, ap, ◌∙◌, Bool, List, ◌++◌, ok, arith, length, take, drop,
  append_assoc, append-nil, length-append, take-length, drop-length, window-take, drop_all,
  take-append_exact, drop-append_exact,
}
use iot_drive.Buffer.{to_le, of_le, length-to_le, of_le-to_le}
use iot_drive.Factory.{Factory, create}
use iot_drive.Message.Identity.{Uid, new_uid}
use iot_drive.Message.{Header, Msg, Kind, header, kind, get_buffer_size}
use iot_drive.Message.Wire.{from_buffer}
use iot_drive.Message.Format.{
  HeaderFits-header, encode-header, header_bytes, encode, IsValid, uncounted, length-encode,
  length-header_bytes,
}
use iot_drive.Message.Encode.{to_buffer-Fills}
use iot_drive.Message.Decode.{Reads-encode}
use iot_drive.Message.RoundTrip.{Reads-alone}
use iot_drive.Proxy.{
  Memory, Process, fresh_uid, create_msg, received, peek_key, peek_size, send_msg, receive_msg,
}

-- The time passes the test of a new UID: its lower half is not negative as an `int`.
abbrev pub IsTimely : Process → Type 0
IsTimely p = p.now % 2 ^ 32 < 2 ^ 31

-- The process after one more UID.
abbrev pub tick : Process → Process
tick p = record p { counter = (p.counter + 1) % 2 ^ 32 }

-- The UID that a process draws next.
abbrev pub next_uid : Process → Uid
next_uid p = record {
  unique_counter = p.counter;
  timestamp = p.now;
  pid = p.pid;
  ip = (p.counter + 1) % 2 ^ 32;
}

pub fresh_uid_timely : (p : Process) → IsTimely p → fresh_uid p ≡ ok (next_uid p, tick p)
unfolding fresh_uid new_uid
fresh_uid_timely p h = ground arith

pub send_msg-encode :
    (mem : Memory) (m : Msg) → IsValid m → send_msg mem m (uncounted m) ≡ ok (encode m)
unfolding send_msg
send_msg-encode mem m v =
    let (c, writes, holds) =
      to_buffer-Fills m (mem.fresh (get_buffer_size m + uncounted m)) v
        (mem.length-fresh _ ∙ sym (length-encode m v)) in
    rw writes (ap ok holds)

pub received-exact :
    (old packet : List ℕ) → length old ≡ length packet → received old packet ≡ packet
unfolding received
received-exact old packet h = rw (h, take-length packet, sym h, drop-length old) (append-nil packet)

-- Any window into the first eight bytes.
window-received :
    (a n : ℕ) (old packet : List ℕ)
    → a + n ≤ 8
    → length old ≡ 8
    → 8 ≤ length packet
    → take n (drop a (received old packet)) ≡ take n (drop a packet)
unfolding received
window-received a n old packet h e long =
    rw (drop_all (length packet) old (omega arith), append-nil (take (length old) packet), e)
      (window-take a n 8 packet h)

pub long_enough : (m : Msg) → IsValid m → 8 ≤ length (encode m)
long_enough m v =
    let (rest, e) = encode-header m in
    omega (
      arith,
      ap length e,
      length-append (header_bytes (header m)) rest,
      length-header_bytes (header m),
    )

key_bytes : (h : Header) (rest : List ℕ) → take 4 (header_bytes h ++ rest) ≡ to_le 4 h.key
unfolding header_bytes
key_bytes h rest = simp (append_assoc, take-append_exact 4 (to_le 4 h.key) _ (length-to_le 4 h.key))

size_bytes :
    (h : Header) (rest : List ℕ) → take 4 (drop 4 (header_bytes h ++ rest)) ≡ to_le 4 h.size
unfolding header_bytes
size_bytes h rest = simp (
  append_assoc,
  drop-append_exact 4 (to_le 4 h.key) _ (length-to_le 4 h.key),
  take-append_exact 4 (to_le 4 h.size) _ (length-to_le 4 h.size),
)

pub peek_key-encode :
    (mem : Memory) (m : Msg) → IsValid m → peek_key mem (encode m) ≡ (header m).key
unfolding peek_key
peek_key-encode mem m v =
    let (rest, e) = encode-header m in
    ap of_le (window-received 0 4 _ (encode m) (omega arith) (mem.length-fresh 8) (long_enough m v))
    ∙ ap (λ bs. of_le (take 4 bs)) e
    ∙ ap of_le (key_bytes (header m) rest)
    ∙ of_le-to_le 4 (header m).key (HeaderFits-header m v).key_fits

pub peek_size-encode :
    (mem : Memory) (m : Msg) → IsValid m → peek_size mem (encode m) ≡ (header m).size
unfolding peek_size
peek_size-encode mem m v =
    let (rest, e) = encode-header m in
    ap of_le (window-received 4 4 _ (encode m) (omega arith) (mem.length-fresh 8) (long_enough m v))
    ∙ ap (λ bs. of_le (take 4 (drop 4 bs))) e
    ∙ ap of_le (size_bytes (header m) rest)
    ∙ of_le-to_le 4 (header m).size (HeaderFits-header m v).size_fits

-- The receiver allocates just the length of the layout.
pub receive_msg-encode :
    (debug : Bool) (mem : Memory) (factory : Factory Kind) (key extra : ℕ) (m : Msg) (p : Process)
    → IsValid m
    → IsTimely p
    → create key factory ≡ ok (kind m)
    → get_buffer_size (create_msg (kind m) (next_uid p)) + extra ≡ length (encode m)
    → receive_msg debug mem factory key extra (encode m) p ≡ ok (m, tick p)
unfolding receive_msg
receive_msg-encode debug mem factory key extra m p v timely made fits = rw (
  made,
  fresh_uid_timely p timely,
  received-exact (mem.fresh (get_buffer_size (create_msg (kind m) (next_uid p)) + extra)) (encode m)
      (mem.length-fresh _ ∙ fits),
  Reads-alone (from_buffer debug (kind m)) (encode m) m (Reads-encode debug m v),
)
