-- ===== src/Cluster/Device.antt =====
-- The block device from end to end: NBDRead and NBDWrite of src/raz_nbd.cpp, which BUSE calls in a
-- thread of the master, their requests on the stream to the proxy of the master, the cluster behind
-- it, and the answer that they receive. One call is served before the next.
pub mod Repeated
use iot_drive.Shared.{
  ℕ, ◌+◌, ◌≤◌, ◌<◌, ◌≡◌, refl, sym, ap, ◌∙◌, Bool, List, [], ◌∷◌, ◌++◌, some, Outcome, ok, bind,
  arith, All, length, drop, append-nil, drop-append_exact, drop_all,
}
use iot_drive.Storage.{slice, write_at}
use iot_drive.Storage.Slices.{length-slice}
use iot_drive.ArgsKey.{ArgsKey, read_args, write_args, read_cmd_key, write_cmd_key}
use iot_drive.Proxy.{Memory, Process}
use iot_drive.Proxy.Delivery.{tick, received-exact}
use iot_drive.Proxy.NbdProxy
use iot_drive.Command.Polling.{success_text}
use iot_drive.Command.Requests.{ProcessFits, tick-ProcessFits}
use iot_drive.Nbd.{nbd_read_request, nbd_write_request, nbd_read_result, nbd_write_result}
use iot_drive.Nbd.Arrival.{nbd_read_request_arrives, nbd_write_request_arrives}
use iot_drive.Cluster.Session.{
  Session, Timing, Patient, Waits, counted, serve, InChunk, IsRequest, a_read, a_write, Keeps,
  disk_after, reply,
}
use iot_drive.Cluster.Session.Refinement.{serve-Served}

-- A call of the kernel: the offset and the buffer to fill, or the offset and the bytes to write.
pub data Io : Type 0 where
  reads writes : ℕ → List ℕ → Io

-- The master with the two directions of the stream between it and its client.
pub record Device : Type 0 where
  pub session : Session
  pub to_master : List ℕ
  pub to_client : List ℕ

abbrev pub process_of : Session → Process
process_of s = s.cluster.master.process

abbrev pub with_process : Process → Session → Session
with_process p s = record s {
  cluster = record (s.cluster) { master = record (s.cluster.master) { process = p } };
}

abbrev pub told_of : Session → List (List ℕ)
told_of s = s.cluster.master.tcp_out

abbrev pub flatten : List (List ℕ) → List ℕ
flatten [] = []
flatten (bs ∷ bss) = bs ++ flatten bss

-- The proxy of the master takes a request from the stream, which is served; what is written to the
-- socket goes to the client.
unfoldable pub answer : Bool → Memory → Timing → List ℕ → Process → Device → Outcome Device
answer debug mem timing packet p d =
    bind (NbdProxy.get_args_key debug mem (d.to_master ++ packet) p) λ a.
      bind (serve debug mem timing (a.0) (with_process (a.2) d.session)) λ r.
        let told = drop (length (told_of d.session)) (told_of (r.1)) in
        ok (record { session = r.1; to_master = a.1; to_client = d.to_client ++ flatten told })

-- NBDRead and NBDWrite: the error code, and the buffer of a read. The one `recv` of a call takes as
-- many bytes as the call has.
unfoldable pub io : Bool → Memory → Timing → Io → Device → Outcome (ℕ × List ℕ × Device)
io debug mem timing (reads offset buf) d =
    bind (nbd_read_request mem (length buf) offset (process_of d.session)) λ r.
      bind (answer debug mem timing (r.0) (r.1) d) λ d'.
        let (code, bytes) = nbd_read_result buf d'.to_client in
        ok (code, bytes, record d' { to_client = drop (length buf) d'.to_client })
io debug mem timing (writes offset buf) d =
    bind (nbd_write_request mem buf (length buf) offset (process_of d.session)) λ r.
      bind (answer debug mem timing (r.0) (r.1) d) λ d'. ok (
        nbd_write_result d'.to_client,
        [],
        record d' { to_client = drop (length buf) d'.to_client },
      )

unfoldable pub io_all :
    Bool → Memory → List (Timing × Io) → Device → Outcome (List (ℕ × List ℕ) × Device)
io_all debug mem [] d = ok ([], d)
io_all debug mem ((timing, i) ∷ is) d =
    bind (io debug mem timing i d)
      λ r. bind (io_all debug mem is (r.2)) λ q. ok ((r.0, r.1) ∷ q.0, q.1)

-- The device as the kernel sees it.
abbrev pub disk_with : Io → (ℕ → ℕ) → ℕ → ℕ
disk_with (reads offset buf) disk = disk
disk_with (writes offset buf) disk = write_at disk offset buf

abbrev pub result : Io → (ℕ → ℕ) → ℕ × List ℕ
result (reads offset buf) disk = (0, slice disk offset (length buf))
result (writes offset buf) disk = (0, [])

abbrev pub disk_with_all : List (Timing × Io) → (ℕ → ℕ) → ℕ → ℕ
disk_with_all [] disk = disk
disk_with_all (i ∷ is) disk = disk_with_all is (disk_with (i.1) disk)

-- The polls of a write before its answers.
abbrev pub counted_io : Timing × Io → ℕ
counted_io (timing, reads offset buf) = 0
counted_io (timing, writes offset buf) = timing.early

abbrev pub WaitsIo : Timing → Io → Session → Type 0
WaitsIo timing (reads offset buf) s = Unit
WaitsIo timing (writes offset buf) s = Patient timing.early s

Patient-WaitsIo :
    (timing : Timing) (i : Io) (n : ℕ) (s : Session)
    → Patient (counted_io (timing, i) + n) s
    → WaitsIo timing i s
Patient-WaitsIo timing (reads offset buf) n s low = tt
Patient-WaitsIo timing (writes offset buf) n s low = (omega (arith, low), omega (arith, low))

abbrev pub counted_ios : List (Timing × Io) → ℕ
counted_ios [] = 0
counted_ios (i ∷ is) = counted_io i + counted_ios is

abbrev pub results : List (Timing × Io) → (ℕ → ℕ) → List (ℕ × List ℕ)
results [] disk = []
results (i ∷ is) disk = result (i.1) disk ∷ results is (disk_with (i.1) disk)

-- Bytes inside of one chunk; a write is at least as long as its answer, `Success` with its zero.
pub data IsIo : Io → Type 0 where
  is_read : (offset : ℕ) (buf : List ℕ) → InChunk offset (length buf) → IsIo (reads offset buf)
  is_write :
      (offset : ℕ) (buf : List ℕ)
      → InChunk offset (length buf)
      → 8 ≤ length buf
      → All (λ b. b < 256) buf
      → IsIo (writes offset buf)

-- A device that stands for a disk, with nothing under way.
pub record Rests (disk : ℕ → ℕ) (d : Device) : Type 0 where
  pub keeps : Keeps disk d.session
  pub nothing_asked : d.to_master ≡ []
  pub nothing_told : d.to_client ≡ []

pub Keeps-with_process :
    (disk : ℕ → ℕ) (p : Process) (s : Session)
    → ProcessFits p
    → Keeps disk s
    → Keeps disk (with_process p s)
Keeps-with_process disk p s fits k = record {
  runs = record { fits = fits; works = k.runs.works };
  mirrors = k.mirrors;
}

-- A request that the master takes from an empty stream is served, and its answer goes behind what is
-- on the way to the client.
pub answer-Served :
    (debug : Bool) (mem : Memory) (timing : Timing) (packet : List ℕ) (args : ArgsKey)
    (disk : ℕ → ℕ) (d : Device)
    → IsRequest args
    → Waits timing args d.session.og_counter d.session.backup_counter
    → Keeps disk d.session
    → d.to_master ≡ []
    → ((rest : List ℕ)
        → NbdProxy.get_args_key debug mem (packet ++ rest) (tick (process_of d.session))
          ≡ ok (args, rest, tick (tick (process_of d.session))))
    → (d' : Device) × (answer debug mem timing packet (tick (process_of d.session)) d ≡ ok d')
      × Keeps (disk_after args disk) d'.session
      × (d'.to_master ≡ [])
      × (d'.to_client ≡ d.to_client ++ reply args disk)
      × (d'.session.og_counter ≡ d.session.og_counter + counted timing args)
      × (d'.session.backup_counter ≡ d.session.backup_counter + counted timing args)
unfolding answer
answer-Served debug mem timing packet args disk d is_request low keeps idle arrives =
    let p = process_of d.session in
    let fits = tick-ProcessFits (tick p) (tick-ProcessFits p keeps.runs.fits) in
    let s = with_process (tick (tick p)) d.session in
    let (s', served, w) =
      serve-Served debug mem timing args disk s is_request low
        (Keeps-with_process disk (tick (tick p)) d.session fits keeps) in
    let told : drop (length (told_of d.session)) (told_of s') ≡ reply args disk ∷ [] = rw w.told (
      drop-append_exact (length (told_of d.session)) (told_of d.session) (reply args disk ∷ [])
        refl) in
    let taken =
      ap (λ bs. NbdProxy.get_args_key debug mem bs (tick p)) (sym (append-nil packet))
      ∙ arrives [] in
    (
      record {
        session = s';
        to_master = [];
        to_client = d.to_client ++ flatten (reply args disk ∷ []);
      },
      rw (idle, taken, served, told) refl,
      w.keeps,
      refl,
      ap (λ bs. d.to_client ++ bs) (append-nil (reply args disk)),
      w.og_counted,
      w.backup_counted,
    )

pub io-result :
    (debug : Bool) (mem : Memory) (timing : Timing) (i : Io) (disk : ℕ → ℕ) (d : Device)
    → IsIo i
    → WaitsIo timing i d.session
    → Rests disk d
    → (d' : Device) × (io debug mem timing i d ≡ ok ((result i disk).0, (result i disk).1, d'))
      × Rests (disk_with i disk) d'
      × (d'.session.og_counter ≡ d.session.og_counter + counted_io (timing, i))
      × (d'.session.backup_counter ≡ d.session.backup_counter + counted_io (timing, i))
unfolding io nbd_read_result nbd_write_result disk_after reply
io-result debug mem timing _ disk d (is_read offset buf (inside, small)) low r =
    let p = process_of d.session in
    let (packet, sent, arrives) =
      nbd_read_request_arrives debug mem p (tick p) r.keeps.runs.fits
        (tick-ProcessFits p r.keeps.runs.fits).timely offset (length buf) (omega (arith, inside))
        (omega (arith, small)) in
    let (d', answered, keeps, empty, got, og_more, backup_more) =
      answer-Served debug mem timing packet (read_args read_cmd_key offset (length buf)) disk d
        (a_read offset (length buf) (inside, small)) low r.keeps r.nothing_asked arrives in
    let same = length-slice disk offset (length buf) in
    (
      record d' { to_client = [] },
      rw
          (
            sent,
            answered,
            got
                ∙ ap (λ bs. bs ++ reply (read_args read_cmd_key offset (length buf)) disk)
                    r.nothing_told,
            received-exact buf (slice disk offset (length buf)) (sym same),
            drop_all (length buf) (slice disk offset (length buf)) (omega (arith, same)),
          )
          refl,
      record { keeps = keeps; nothing_asked = empty; nothing_told = refl },
      og_more,
      backup_more,
    )
io-result debug mem timing _ disk d (is_write offset buf (inside, small) long b) low r =
    let p = process_of d.session in
    let (packet, sent, arrives) =
      nbd_write_request_arrives debug mem p (tick p) r.keeps.runs.fits
        (tick-ProcessFits p r.keeps.runs.fits).timely offset buf (omega (arith, inside))
        (omega (arith, small)) b in
    let (d', answered, keeps, empty, got, og_more, backup_more) =
      answer-Served debug mem timing packet
        (write_args write_cmd_key offset (length buf) (some buf)) disk d
        (a_write offset buf (inside, small) b) low r.keeps r.nothing_asked arrives in
    (
      record d' { to_client = [] },
      rw
          (
            sent,
            answered,
            got
                ∙ ap
                    (λ bs.
                      bs ++ reply (write_args write_cmd_key offset (length buf) (some buf)) disk)
                    r.nothing_told,
            drop_all (length buf) success_text (omega (arith, long)),
          )
          refl,
      record { keeps = keeps; nothing_asked = empty; nothing_told = refl },
      og_more,
      backup_more,
    )

-- Any calls of NBDRead and NBDWrite, one after the other, each of bytes in one 4 MB chunk of the
-- device, and each write at least as long as the text of its answer: every call returns 0, a read has
-- the bytes in its buffer that the last writes to its range have put there, and nothing is left on
-- the stream. Each request is polled any number of times before its answers come, then its datagrams
-- are served in either order with no poll in between, and then the next poll ends it, before the next
-- call. The counters of the process are below fifty even with all polls of writes before their
-- answers. The times are ones that a UID accepts, the files of the minions are in use and stand for
-- the disk at the start, a minion runs one command at a time, and no datagram is lost, so that none
-- is longer than UDP allows.
pub io_all-refines :
    (debug : Bool) (mem : Memory) (is : List (Timing × Io)) (disk : ℕ → ℕ) (d : Device)
    → All (λ i. IsIo (i.1)) is
    → Patient (counted_ios is) d.session
    → Rests disk d
    → (d' : Device) × (io_all debug mem is d ≡ ok (results is disk, d'))
      × Rests (disk_with_all is disk) d'
unfolding io_all
io_all-refines debug mem [] disk d h low r = (d, refl, r)
io_all-refines debug mem ((timing, i) ∷ is) disk d h low r =
    let (d₁, one, r₁, og_more, backup_more) =
      io-result debug mem timing i disk d h.0 (Patient-WaitsIo timing i _ d.session low) r in
    let (d', rest, r') =
      io_all-refines debug mem is (disk_with i disk) d₁ h.1
        (omega (arith, low, og_more), omega (arith, low, backup_more)) r₁ in
    (d', rw (one, rest) refl, r')
