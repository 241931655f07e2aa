-- ===== src/Cluster/Session/Refinement.antt =====
-- A session acts as an array of bytes.
use iot_drive.Shared.{
  ℕ, zero, suc, false, ◌+◌, ◌<◌, ◌≡◌, refl, sym, ap, subst, ◌∙◌, Bool, true, List, [], ◌∷◌, ◌++◌,
  append_assoc, append-nil, some, ok, arith, All, length,
}
use iot_drive.ArgsKey.{
  ArgsKey, read_args, write_args, minion_read_args, minion_write_args, read_cmd_key, write_cmd_key,
}
use iot_drive.Message.Identity.{Uid}
use iot_drive.Response.Refinement.{answered, answered-has_response_recived}
use iot_drive.Storage.{slice}
use iot_drive.Proxy.{Memory}
use iot_drive.Proxy.Delivery.{tick, next_uid}
use iot_drive.Command.Requests.{
  ProcessFits, tick-ProcessFits, next_uid-UidFits, registered, run_master_task-read,
  run_master_task-write,
}
use iot_drive.Command.{read_ai, write_ai}
use iot_drive.Command.Polling.{success_text, read_poll}
use iot_drive.Proxy.ResponseProxy.{Master}
use iot_drive.Response.{has_response_recived}
use iot_drive.Command.Waiting.{answered-registered, answered-registered_last, write_poll-unanswered}
use iot_drive.Command.BothAnswers.{write_poll_both}
use iot_drive.Cluster.Mirror.{Mirrors}
use iot_drive.Cluster.Serve.{Works}
use iot_drive.Cluster.Disk.{deliver_write}
use iot_drive.Cluster.Reading.{deliver_read}
use iot_drive.Cluster.Session.{
  Session, poller, polled, poll, polls, Timing, serve, serve_all, disk_after, reply, disk_after_all,
  replies, InChunk, IsRequest, a_read, a_write, Keeps, counted, counted_all, Patient, Waits,
}

-- What one request promises.
pub record Served (timing : Timing) (args : ArgsKey) (disk : ℕ → ℕ) (s s' : Session) : Type 0 where
  pub keeps : Keeps (disk_after args disk) s'
  pub told : s'.cluster.master.tcp_out ≡ s.cluster.master.tcp_out ++ reply args disk ∷ []
  pub og_counted : s'.og_counter ≡ s.og_counter + counted timing args
  pub backup_counted : s'.backup_counter ≡ s.backup_counter + counted timing args

-- A session after polls that have found nothing.
record Waited (n : ℕ) (s s' : Session) : Type 0 where
  same_minions : s'.cluster.minions ≡ s.cluster.minions
  same_process : s'.cluster.master.process ≡ s.cluster.master.process
  same_out : s'.cluster.master.tcp_out ≡ s.cluster.master.tcp_out
  og_more : s'.og_counter ≡ s.og_counter + n
  backup_more : s'.backup_counter ≡ s.backup_counter + n

Waited-Keeps :
    (n : ℕ) (disk : ℕ → ℕ) (s s' : Session) → Waited n s s' → Keeps disk s → Keeps disk s'
Waited-Keeps n disk s s' w k = record {
  runs = record {
    fits = subst ProcessFits (sym w.same_process) k.runs.fits;
    works = subst (λ f. (j : ℕ) → Works (f j)) (sym w.same_minions) k.runs.works;
  };
  mirrors = subst (λ f. Mirrors (λ j. (f j).file.content) disk) (sym w.same_minions) k.mirrors;
}

-- RegisterCommand leaves the disk alone.
issued-Keeps :
    (m : Master) (disk : ℕ → ℕ) (s : Session)
    → Keeps disk (record s { cluster = record (s.cluster) { master = m } })
    → Keeps disk (record s { cluster = record (s.cluster) { master = registered m } })
issued-Keeps m disk s k = record {
  runs = record { fits = tick-ProcessFits m.process k.runs.fits; works = k.runs.works };
  mirrors = k.mirrors;
}

write_waits :
    (n : ℕ) (u v : Uid) (s : Session)
    → answered s.cluster.master.watchlist u.unique_counter ≡ false
    → answered s.cluster.master.watchlist v.unique_counter ≡ false
    → Patient n s
    → (s' : Session) × (polls n (write_ai u v) s ≡ ok (false, s')) × Waited n s s'
unfolding polls poll
write_waits zero u v s h k low = (
  s,
  refl,
  record {
    same_minions = refl;
    same_process = refl;
    same_out = refl;
    og_more = omega arith;
    backup_more = omega arith;
  },
)
write_waits (suc n) u v s h k low =
    let (w, missing, kept) =
      write_poll-unanswered u v (poller s) h k (omega (arith, low)) (omega (arith, low)) in
    let t : Session = polled s (record {
      master = record (s.cluster.master) { watchlist = w };
      og_counter = s.og_counter + 1;
      backup_counter = s.backup_counter + 1;
    }) in
    let (s', waited, same) =
      write_waits n u v t (kept u.unique_counter h) (kept v.unique_counter k)
        (omega (arith, low), omega (arith, low)) in
    (
      s',
      rw (missing, waited) refl,
      record {
        same_minions = same.same_minions;
        same_process = same.same_process;
        same_out = same.same_out;
        og_more = omega (arith, same.og_more);
        backup_more = omega (arith, same.backup_more);
      },
    )

read_waits :
    (n : ℕ) (u : Uid) (s : Session)
    → answered s.cluster.master.watchlist u.unique_counter ≡ false
    → (s' : Session) × (polls n (read_ai u) s ≡ ok (false, s')) × Waited 0 s s'
unfolding polls poll read_poll
read_waits zero u s h = (
  s,
  refl,
  record {
    same_minions = refl;
    same_process = refl;
    same_out = refl;
    og_more = omega arith;
    backup_more = omega arith;
  },
)
read_waits (suc n) u s h =
    let first = answered-has_response_recived u s.cluster.master.watchlist in
    let t : Session = polled s (read_poll u (poller s)).1 in
    let none_yet : (has_response_recived u s.cluster.master.watchlist).0 ≡ false = first.0 ∙ h in
    let (s', waited, same) = read_waits n u t (ground (arith, first.1 u.unique_counter, h)) in
    (
      s',
      rw (none_yet, waited) refl,
      record {
        same_minions = same.same_minions;
        same_process = same.same_process;
        same_out = same.same_out;
        og_more = same.og_more;
        backup_more = same.backup_more;
      },
    )

poll-read :
    (u : Uid) (s : Session)
    → answered s.cluster.master.watchlist u.unique_counter ≡ true
    → poll (read_ai u) s ≡ ok (true, polled s (read_poll u (poller s)).1)
unfolding poll read_poll
poll-read u s h =
    let first = answered-has_response_recived u s.cluster.master.watchlist in
    ap (λ f. ok (f, polled s (read_poll u (poller s)).1)) (first.0 ∙ h)

serve-read :
    (debug : Bool) (mem : Memory) (timing : Timing) (offset size : ℕ) (disk : ℕ → ℕ) (s : Session)
    → InChunk offset size
    → Keeps disk s
    → (s' : Session) × (serve debug mem timing (read_args read_cmd_key offset size) s
        ≡ ok (true, s'))
      × Served timing (read_args read_cmd_key offset size) disk s s'
unfolding serve disk_after reply read_poll
serve-read debug mem timing offset size disk s (inside, in_chunk) k =
    let m = s.cluster.master in
    let u = next_uid m.process in
    let issued : Session = record s { cluster = record (s.cluster) { master = registered m } } in
    let (t, waited, w) = read_waits timing.early u issued (answered-registered_last m) in
    let k₁ = Waited-Keeps 0 disk issued t w (issued-Keeps m disk s k) in
    let (c', done, r) =
      deliver_read offset size disk inside in_chunk debug mem u
        (next_uid-UidFits m.process k.runs.fits) t.cluster k₁.runs k₁.mirrors timing.swapped in
    (
      polled (record t { cluster = c' }) (read_poll u (poller (record t { cluster = c' }))).1,
      rw (
        run_master_task-read debug mem m k.runs.fits offset size inside (omega (arith, in_chunk)),
        waited,
        done,
        poll-read u (record t { cluster = c' }) r.answered_it,
      ),
      record {
        keeps = record {
          runs = record { fits = r.still_runs.fits; works = r.still_runs.works };
          mirrors = r.mirrors;
        };
        told = r.told ∙ ap (λ o. o ++ slice disk offset size ∷ []) w.same_out;
        og_counted = w.og_more;
        backup_counted = w.backup_more;
      },
    )

serve-write :
    (debug : Bool) (mem : Memory) (timing : Timing) (offset : ℕ) (bs : List ℕ) (disk : ℕ → ℕ)
    (s : Session)
    → InChunk offset (length bs)
    → All (λ b. b < 256) bs
    → Patient timing.early s
    → Keeps disk s
    → (s' : Session) × (serve debug mem timing
          (write_args write_cmd_key offset (length bs) (some bs))
          s
        ≡ ok (true, s'))
      × Served timing (write_args write_cmd_key offset (length bs) (some bs)) disk s s'
unfolding serve poll disk_after reply
serve-write debug mem timing offset bs disk s (inside, in_chunk) b low k =
    let m = s.cluster.master in
    let u = next_uid m.process in
    let v = next_uid (tick m.process) in
    let issued : Session = record s {
      cluster = record (s.cluster) { master = registered (registered m) };
    } in
    let once : Session = record s { cluster = record (s.cluster) { master = registered m } } in
    let fresh = answered-registered m k.runs.fits in
    let (t, waited, w) = write_waits timing.early u v issued fresh.0 fresh.1 low in
    let k₁ =
      Waited-Keeps timing.early disk issued t w
        (issued-Keeps (registered m) disk once (issued-Keeps m disk s k)) in
    let (c', done, r) =
      deliver_write offset bs disk inside in_chunk b debug mem u v
        (next_uid-UidFits m.process k.runs.fits)
        (next_uid-UidFits (tick m.process) (tick-ProcessFits m.process k.runs.fits)) t.cluster
        k₁.runs timing.swapped k₁.mirrors in
    let (p, told, out, _, _, same_og, same_backup, same) =
      write_poll_both u v (poller (record t { cluster = c' }))
        (omega (arith, k.runs.fits.counter_fits)) r.og_answered r.backup_answered in
    (
      polled (record t { cluster = c' }) p,
      rw (
        run_master_task-write debug mem m k.runs.fits offset bs inside (omega (arith, in_chunk)) b,
        waited,
        done,
        told,
      ),
      record {
        keeps = record {
          runs = record {
            fits = subst ProcessFits (sym same) r.still_runs.fits;
            works = r.still_runs.works;
          };
          mirrors = r.mirrors;
        };
        told = out ∙ ap (λ o. o ++ success_text ∷ []) (r.untold ∙ w.same_out);
        og_counted = same_og ∙ w.og_more;
        backup_counted = same_backup ∙ w.backup_more;
      },
    )

Patient-Waits :
    (timing : Timing) (args : ArgsKey) (n : ℕ) (s : Session)
    → Patient (counted timing args + n) s
    → Waits timing args s.og_counter s.backup_counter
Patient-Waits timing args n s low = by_args args low
  where
    by_args :
        (args : ArgsKey)
        → Patient (counted timing args + n) s
        → Waits timing args s.og_counter s.backup_counter
    by_args (write_args key offset size bytes) low = (omega (arith, low), omega (arith, low))
    by_args (read_args key offset size) low = tt
    by_args (minion_read_args key offset size uid) low = tt
    by_args (minion_write_args key offset size bytes uid) low = tt

pub serve-Served :
    (debug : Bool) (mem : Memory) (timing : Timing) (args : ArgsKey) (disk : ℕ → ℕ) (s : Session)
    → IsRequest args
    → Waits timing args s.og_counter s.backup_counter
    → Keeps disk s
    → (s' : Session) × (serve debug mem timing args s ≡ ok (true, s'))
      × Served timing args disk s s'
serve-Served debug mem timing args disk s (a_read offset size h) low k =
    serve-read debug mem timing offset size disk s h k
serve-Served debug mem timing args disk s (a_write offset bs h b) low k =
    serve-write debug mem timing offset bs disk s h b low k

-- A session of requests, each of bytes in one 4 MB chunk of the device, is that of an array of bytes:
-- each write is told as a success and overwrites its bytes, each read tells the bytes of its range,
-- and afterwards the three block files hold two copies of the array. Each request is polled any
-- number of times before its answers come, then its datagrams are served in either order with no
-- poll in between, and then the next poll ends it, before the next request begins. The counters of
-- the process are below fifty even with all polls of writes before their answers. The processes run
-- with times that a UID accepts and with files in use, a minion runs one command at a time, and no
-- datagram is lost, so that none is longer than UDP allows.
pub serve_all-refines :
    (debug : Bool) (mem : Memory) (rs : List (Timing × ArgsKey)) (disk : ℕ → ℕ) (s : Session)
    → All (λ r. IsRequest (r.1)) rs
    → Patient (counted_all rs) s
    → Keeps disk s
    → (flags : List Bool) × (s' : Session) × (serve_all debug mem rs s ≡ ok (flags, s'))
      × All (λ f. f ≡ true) flags
      × Keeps (disk_after_all rs disk) s'
      × (s'.cluster.master.tcp_out ≡ s.cluster.master.tcp_out ++ replies rs disk)
unfolding serve_all disk_after_all replies
serve_all-refines debug mem [] disk s h low k =
    ([], s, refl, tt, k, sym (append-nil s.cluster.master.tcp_out))
serve_all-refines debug mem ((timing, args) ∷ rs) disk s h low k =
    let (t, one, served) =
      serve-Served debug mem timing args disk s h.0 (Patient-Waits timing args _ s low) k in
    let (flags, s', rest, all_true, kept, out) =
      serve_all-refines debug mem rs (disk_after args disk) t h.1
        (omega (arith, low, served.og_counted), omega (arith, low, served.backup_counted))
        served.keeps in
    (
      true ∷ flags,
      s',
      rw (one, rest),
      (refl, all_true),
      kept,
      out
          ∙ ap (λ o. o ++ replies rs (disk_after args disk)) served.told
          ∙ append_assoc s.cluster.master.tcp_out (reply args disk ∷ []) _,
    )
