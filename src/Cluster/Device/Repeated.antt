-- ===== src/Cluster/Device/Repeated.antt =====
-- An answer that the network repeats, and the reads of the block device after it.
use iot_drive.Shared.{
  ℕ, ◌<◌, ◌≡◌, refl, sym, ap, subst, ◌∙◌, Bool, true, List, [], ◌∷◌, ◌++◌, some, Outcome, ok, bind,
  arith, All, length, drop, append-nil, drop-append_exact,
}
use iot_drive.ArgsKey.{read_args, read_cmd_key}
use iot_drive.Raid.Placement.{primary}
use iot_drive.Message.Identity.{Uid}
use iot_drive.Message.{new_minion_read_msg}
use iot_drive.Message.Format.{encode, UidFits}
use iot_drive.Storage.{slice}
use iot_drive.Storage.Slices.{length-slice}
use iot_drive.Proxy.{Memory}
use iot_drive.Proxy.ResponseProxy
use iot_drive.Proxy.ResponseProxy.{Master}
use iot_drive.Proxy.Delivery.{tick, received-exact}
use iot_drive.Command.Requests.{tick-ProcessFits}
use iot_drive.Command.Answers.{minion_read_msg-IsValid, slice-All}
use iot_drive.Command.Serving.{get_args_key-read_answer}
use iot_drive.Nbd.{nbd_read_result}
use iot_drive.Nbd.Arrival.{nbd_read_request_arrives, received-prefix}
use iot_drive.Response.{register_response}
use iot_drive.Cluster.Reading.{slice-primary}
use iot_drive.Cluster.Delivered.{files}
use iot_drive.Cluster.Session.{Timing, InChunk, a_read, Keeps, disk_after, reply}
use iot_drive.Cluster.Device.{
  Io, reads, Device, process_of, told_of, flatten, io, io_all, Rests, result, is_read,
  answer-Served, io-result,
}

-- ResponseProxy takes a datagram between two calls; what it writes to the socket goes to the client.
unfoldable pub arrives : Bool → Memory → List ℕ → Device → Outcome Device
arrives debug mem packet d =
    bind (ResponseProxy.get_args_key debug mem packet d.session.cluster.master) λ r. ok (record {
      session = record (d.session) { cluster = record (d.session.cluster) { master = r.1 } };
      to_master = d.to_master;
      to_client = d.to_client ++ flatten (drop (length (told_of d.session)) (r.1).tcp_out);
    })

-- Reads of so many bytes.
pub data IsReadOf (n : ℕ) : Io → Type 0 where
  is_read_of :
      (offset : ℕ) (buf : List ℕ)
      → InChunk offset (length buf)
      → length buf ≡ n
      → IsReadOf n (reads offset buf)

-- Each call gets the bytes of the call before it.
abbrev pub late_results : List ℕ → List (Timing × Io) → (ℕ → ℕ) → List (ℕ × List ℕ)
late_results stale [] disk = []
late_results stale (i ∷ is) disk = (0, stale) ∷ late_results ((result (i.1) disk).1) is disk

-- What stays on the way to the client, and that the device goes on serving.
record Late (disk : ℕ → ℕ) (stale : List ℕ) (d : Device) : Type 0 where
  keeps : Keeps disk d.session
  nothing_asked : d.to_master ≡ []
  told : d.to_client ≡ stale

io-Late :
    (debug : Bool) (mem : Memory) (timing : Timing) (n : ℕ) (i : Io) (disk : ℕ → ℕ) (stale : List ℕ)
    (d : Device)
    → IsReadOf n i
    → length stale ≡ n
    → Late disk stale d
    → (d' : Device) × (io debug mem timing i d ≡ ok (0, stale, d'))
      × Late disk ((result i disk).1) d'
      × (length ((result i disk).1) ≡ n)
unfolding io nbd_read_result disk_after reply
io-Late debug mem timing n _ disk stale d (is_read_of offset buf (inside, small) same) long l =
    let p = process_of d.session in
    let (packet, sent, arrives) =
      nbd_read_request_arrives debug mem p (tick p) l.keeps.runs.fits
        (tick-ProcessFits p l.keeps.runs.fits).timely offset (length buf) (omega (arith, inside))
        (omega (arith, small)) in
    let (d', answered, keeps, empty, got, _, _) =
      answer-Served debug mem timing packet (read_args read_cmd_key offset (length buf)) disk d
        (a_read offset (length buf) (inside, small)) tt l.keeps l.nothing_asked arrives in
    let bs = slice disk offset (length buf) in
    let on_stream : d'.to_client ≡ stale ++ bs = got ∙ ap (λ s. s ++ bs) l.told in
    (
      record d' { to_client = bs },
      rw
          (
            sent,
            answered,
            on_stream,
            received-prefix buf stale bs (omega arith),
            received-exact buf stale (same ∙ sym long),
            drop-append_exact (length buf) stale bs (long ∙ sym same),
          )
          refl,
      record { keeps = keeps; nothing_asked = empty; told = refl },
      length-slice disk offset (length buf) ∙ same,
    )

io_all-Late :
    (debug : Bool) (mem : Memory) (n : ℕ) (is : List (Timing × Io)) (disk : ℕ → ℕ) (stale : List ℕ)
    (d : Device)
    → All (λ i. IsReadOf n (i.1)) is
    → length stale ≡ n
    → Late disk stale d
    → (d' : Device) × (io_all debug mem is d ≡ ok (late_results stale is disk, d'))
unfolding io_all
io_all-Late debug mem n [] disk stale d h long l = (d, refl)
io_all-Late debug mem n ((timing, i) ∷ is) disk stale d h long l =
    let (d₁, one, l₁, long₁) = io-Late debug mem timing n i disk stale d h.0 long l in
    let (d', rest) = io_all-Late debug mem n is disk ((result i disk).1) d₁ h.1 long₁ l₁ in
    (d', rw (one, rest) refl)

-- A second copy of the answer of a read is written to the stream like the first.
arrives-Late :
    (debug : Bool) (mem : Memory) (offset n : ℕ) (uid : Uid) (disk : ℕ → ℕ) (d : Device)
    → InChunk offset n
    → UidFits uid
    → Rests disk d
    → (d' : Device) × (arrives debug mem
          (encode (new_minion_read_msg uid true (some (slice disk offset n)) n))
          d
        ≡ ok d')
      × Late disk (slice disk offset n) d'
unfolding arrives
arrives-Late debug mem offset n uid disk d (inside, small) u r =
    let s = d.session.cluster.master in
    let k = (primary offset).minion in
    let bs = slice disk offset n in
    let there =
      slice-primary (files d.session.cluster) disk offset n inside small r.keeps.mirrors in
    let bytes = subst (All (λ b. b < 256)) there (
      slice-All (files d.session.cluster k) (primary offset).offset n
        (r.keeps.runs.works k).bytes) in
    let e = length-slice disk offset n in
    let m : Master = record {
      process = tick s.process;
      watchlist = register_response uid s.watchlist;
      tcp_out = s.tcp_out ++ bs ∷ [];
    } in
    let taken =
      subst
        (λ l.
          ResponseProxy.get_args_key debug mem (encode (new_minion_read_msg uid true (some bs) l)) s
          ≡ ok (true, m))
        e
        (get_args_key-read_answer debug mem s r.keeps.runs.fits.timely uid bs
          (minion_read_msg-IsValid uid bs (length bs) u (omega (arith, e, small)) refl bytes)) in
    let told : drop (length s.tcp_out) (s.tcp_out ++ bs ∷ []) ≡ bs ∷ [] =
      drop-append_exact (length s.tcp_out) s.tcp_out (bs ∷ []) refl in
    (
      record {
        session = record (d.session) { cluster = record (d.session.cluster) { master = m } };
        to_master = d.to_master;
        to_client = [] ++ flatten (bs ∷ []);
      },
      rw (taken, r.nothing_told, told) refl,
      record {
        keeps = record {
          runs = record {
            fits = tick-ProcessFits s.process r.keeps.runs.fits;
            works = r.keeps.runs.works;
          };
          mirrors = r.keeps.mirrors;
        };
        nothing_asked = r.nothing_asked;
        told = append-nil bs;
      },
    )

-- A read gets its bytes; if the network repeats its answer, under any UID, ResponseProxy writes the
-- second copy to the stream like the first. From then on each read of as many bytes returns 0 with
-- the bytes of the read before it. All reads are of bytes in one chunk, and at the start the device
-- stands for a disk with nothing under way, its times are ones that a UID accepts, and the files
-- of its minions are in use.
pub arrives-shifts :
    (debug : Bool) (mem : Memory) (timing : Timing) (offset : ℕ) (buf : List ℕ) (uid : Uid)
    (is : List (Timing × Io)) (disk : ℕ → ℕ) (d : Device)
    → InChunk offset (length buf)
    → UidFits uid
    → All (λ i. IsReadOf (length buf) (i.1)) is
    → Rests disk d
    → (d₁ : Device) × (io debug mem timing (reads offset buf) d
        ≡ ok (0, slice disk offset (length buf), d₁))
      × (d₂ : Device) × (arrives debug mem
            (encode
              (new_minion_read_msg uid true (some (slice disk offset (length buf))) (length buf)))
            d₁
          ≡ ok d₂)
      × (d₃ : Device) × (io_all debug mem is d₂
          ≡ ok (late_results (slice disk offset (length buf)) is disk, d₃))
arrives-shifts debug mem timing offset buf uid is disk d inside u h r =
    let (d₁, one, r₁, _, _) =
      io-result debug mem timing (reads offset buf) disk d (is_read offset buf inside) tt r in
    let (d₂, two, l) = arrives-Late debug mem offset (length buf) uid disk d₁ inside u r₁ in
    let (d₃, rest) =
      io_all-Late debug mem (length buf) is disk (slice disk offset (length buf)) d₂ h
        (length-slice disk offset (length buf)) l in
    (d₁, one, d₂, two, d₃, rest)
