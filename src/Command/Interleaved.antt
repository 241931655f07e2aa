-- ===== src/Command/Interleaved.antt =====
-- A write among other requests: their polls, answers and registrations come between.
use iot_drive.Shared.{
  ℕ, zero, suc, ◌+◌, ◌≤◌, ◌≡◌, ◌≢◌, refl, ap, take, ◌∙◌, inl, inr, Bool, true, false, ◌&&◌, List,
  [], ◌∷◌, ◌++◌, ◌%◌, ◌^◌, insert, lookup-insert, Outcome, ok, bind, ◌==◌, if◌then◌else◌, arith,
  All, Bool-cases, replicate,
}
use iot_drive.Buffer.{source_bytes}
use iot_drive.Message.Identity.{Uid, new_uid}
use iot_drive.Response.{
  Watchlist, processing_request, has_response_recived, register_response, register_command,
}
use iot_drive.Response.Refinement.{
  answered, answered-register_response, answered-has_response_recived,
}
use iot_drive.Proxy.{Process}
use iot_drive.Proxy.Delivery.{IsTimely, next_uid}
use iot_drive.Proxy.ResponseProxy.{Master, notify_succes}
use iot_drive.Command.Polling.{Poller, success_text, og_text, give_up, read_poll, write_poll}
use iot_drive.Command.BothAnswers.{write_poll_both}
use iot_drive.Command.LostAnswer.{give_up-GivesUp, write_poll_missing}

-- What other requests do: the polls of their AI functions, their answers, and RegisterCommand in a
-- process with a counter, a time and an id.
pub data Other : Type 0 where
  write_polls : Uid → Uid → Other
  read_polls : Uid → Other
  answers : Uid → Other
  registers : Process → Other

unfoldable pub step : Other → Poller → Outcome Poller
step (write_polls og backup) s = bind (write_poll og backup s) λ r. ok (r.1)
step (read_polls uid) s = ok (read_poll uid s).1
step (answers uid) s = ok (record s {
  master = record (s.master) { watchlist = register_response uid s.master.watchlist };
})
step (registers p) s =
    bind (register_command p.counter p.now p.pid s.master.watchlist)
      λ r. ok (record s { master = record (s.master) { watchlist = r.2 } })

unfoldable pub run : List Other → Poller → Outcome Poller
run [] s = ok s
run (e ∷ es) s = bind (step e s) (run es)

-- A request under other keys than `k`.
abbrev pub Apart : ℕ → Other → Type 0
Apart k (write_polls og backup) = (og.unique_counter ≢ k) × (backup.unique_counter ≢ k)
Apart k (read_polls uid) = uid.unique_counter ≢ k
Apart k (answers uid) = uid.unique_counter ≢ k
Apart k (registers p) = (p.counter ≢ k) × IsTimely p

-- A poll of a write takes its two keys out of the set of the answered ones, and never fails.
write_poll-answered :
    (og backup : Uid) (s : Poller)
    → (r : Bool × Poller) × (write_poll og backup s ≡ ok r)
      × ((k : ℕ)
          → og.unique_counter ≢ k
          → backup.unique_counter ≢ k
          → answered (r.1).master.watchlist k ≡ answered s.master.watchlist k)
      × ((k : ℕ)
          → answered s.master.watchlist k ≡ false
          → answered (r.1).master.watchlist k ≡ false)
unfolding write_poll notify_succes source_bytes
write_poll-answered og backup s =
    let first = answered-has_response_recived og s.master.watchlist in
    let w = (has_response_recived og s.master.watchlist).1 in
    let second = answered-has_response_recived backup w in
    let a = (has_response_recived og s.master.watchlist).0 in
    let b = (has_response_recived backup w).0 in
    let w' = (has_response_recived backup w).1 in
    let m : Master = record (s.master) { watchlist = w' } in
    let kept : (k : ℕ)
        → og.unique_counter ≢ k
        → backup.unique_counter ≢ k
        → answered w' k ≡ answered s.master.watchlist k =
      λ k n n'. ground (arith, first.1 k, second.1 k, n, n') in
    let missing : (k : ℕ) → answered s.master.watchlist k ≡ false → answered w' k ≡ false =
      λ k x. ground (arith, first.1 k, second.1 k, x) in
    elim (Bool-cases (a && b)) [
      | inl y ↦ (
        (true, record s { master = record m { tcp_out = m.tcp_out ++ success_text ∷ [] } }),
        rw y refl,
        kept,
        missing,
      )
      | inr y ↦
          let t : Poller = record {
            master = m;
            og_counter = if a then s.og_counter else s.og_counter + 1;
            backup_counter = if b then s.backup_counter else s.backup_counter + 1;
          } in
          let g = give_up-GivesUp t in
          (
            g.result,
            rw (y, g.returns) refl,
            λ k n n'. rw g.same_watchlist (kept k n n'),
            λ k x. rw g.same_watchlist (missing k x),
          )
    ]

register_command-timely :
    (p : Process) (w : Watchlist)
    → IsTimely p
    → register_command p.counter p.now p.pid w
      ≡ ok (next_uid p, (p.counter + 1) % 2 ^ 32, insert p.counter processing_request w)
unfolding register_command new_uid
register_command-timely p w h = ground arith

step-answered :
    (e : Other) (s : Poller)
    → (j : ℕ) → Apart j e
    → (t : Poller) × (step e s ≡ ok t)
      × ((k : ℕ) → Apart k e → answered t.master.watchlist k ≡ answered s.master.watchlist k)
unfolding step read_poll
step-answered (write_polls og backup) s j h =
    let (r, e, kept, _) = write_poll-answered og backup s in (r.1, rw e refl, λ k n. kept k n.0 n.1)
step-answered (read_polls uid) s j h =
    let first = answered-has_response_recived uid s.master.watchlist in
    (_, refl, λ k n. ground (arith, first.1 k, n))
step-answered (answers uid) s j h =
    (_, refl, λ k n. ground (arith, answered-register_response uid s.master.watchlist k, n))
step-answered (registers p) s j h =
    let w = s.master.watchlist in
    (
      record s { master = record (s.master) { watchlist = insert p.counter processing_request w } },
      rw (step, register_command-timely p w h.1) refl,
      λ k n. ground (arith, lookup-insert p.counter k processing_request w, n),
    )

run-answered :
    (es : List Other) (s : Poller) (j : ℕ)
    → All (Apart j) es
    → (t : Poller) × (run es s ≡ ok t)
      × ((k : ℕ) → All (Apart k) es → answered t.master.watchlist k ≡ answered s.master.watchlist k)
unfolding run
run-answered [] s j h = (s, refl, λ k n. refl)
run-answered (e ∷ es) s j h =
    let (t, one, kept) = step-answered e s j h.0 in
    let (u, rest, still) = run-answered es t j h.1 in
    (u, rw (one, rest) refl, λ k n. still k n.1 ∙ kept k n.0)

-- A write whose two answers have arrived under different UIDs is told as a success by its next poll,
-- whatever other requests, under other UIDs, do before it: their polls, which may give up, their
-- answers, and their registrations at times that a UID accepts. None of these fails. Each call of the
-- watchlist and each poll runs by itself, which the source leaves to luck: it has no lock.
pub write_poll-run :
    (og backup : Uid) (es : List Other) (s : Poller)
    → og.unique_counter ≢ backup.unique_counter
    → answered s.master.watchlist og.unique_counter ≡ true
    → answered s.master.watchlist backup.unique_counter ≡ true
    → All (Apart og.unique_counter) es
    → All (Apart backup.unique_counter) es
    → (t : Poller) × (u : Poller) × (run es s ≡ ok t)
      × (write_poll og backup t ≡ ok (true, u))
      × (u.master.tcp_out ≡ t.master.tcp_out ++ success_text ∷ [])
write_poll-run og backup es s ne h k apart apart' =
    let (t, ran, kept) = run-answered es s og.unique_counter apart in
    let (u, told, out, _, _, _, _, _) =
      write_poll_both og backup t ne (kept og.unique_counter apart ∙ h)
        (kept backup.unique_counter apart' ∙ k) in
    (t, u, ran, told, out)

-- Polls of a write that is not answered, as long as its counters are not full.
polls_count :
    (n : ℕ) (og backup : Uid) (s : Poller)
    → og.unique_counter ≢ backup.unique_counter
    → answered s.master.watchlist og.unique_counter ≡ false
    → answered s.master.watchlist backup.unique_counter ≡ false
    → s.og_counter + n ≤ 49
    → s.backup_counter + n ≤ 49
    → (t : Poller) × (run (replicate n (write_polls og backup)) s ≡ ok t)
      × (t.og_counter ≡ s.og_counter + n)
      × (t.master.tcp_out ≡ s.master.tcp_out)
      × ((k : ℕ) → answered s.master.watchlist k ≡ false → answered t.master.watchlist k ≡ false)
unfolding run step write_poll give_up
polls_count zero og backup s ne h k low low' = (s, refl, omega arith, refl, λ j x. x)
polls_count (suc n) og backup s ne h k low low' =
    let first = answered-has_response_recived og s.master.watchlist in
    let w = (has_response_recived og s.master.watchlist).1 in
    let second = answered-has_response_recived backup w in
    let w' = (has_response_recived backup w).1 in
    let none_yet : (has_response_recived og s.master.watchlist).0 ≡ false = first.0 ∙ h in
    let none_yet' : (has_response_recived backup w).0 ≡ false =
      ground (arith, second.0, first.1 backup.unique_counter, k) in
    let t : Poller = record {
      master = record (s.master) { watchlist = w' };
      og_counter = s.og_counter + 1;
      backup_counter = s.backup_counter + 1;
    } in
    let kept : (j : ℕ) → answered s.master.watchlist j ≡ false → answered w' j ≡ false =
      λ j x. ground (arith, first.1 j, second.1 j, x) in
    let (u, ran, counted, quiet, still) =
      polls_count n og backup t ne (kept og.unique_counter h) (kept backup.unique_counter k)
        (omega (arith, low)) (omega (arith, low')) in
    let not_full : (s.og_counter + 1 == 50) ≡ false = ground (arith, low) in
    let not_full' : (s.backup_counter + 1 == 50) ≡ false = ground (arith, low') in
    (
      u,
      rw (none_yet, none_yet', not_full, not_full', ran) refl,
      omega (arith, counted),
      quiet,
      λ j x. still j (kept j x),
    )

-- The counters of the missing answers are shared by all writes of the process: a write whose first answer is
-- not there yet is given up at its first poll, if another write, that is not answered, has been polled
-- forty-nine times before, from counters at 0.
pub given_up_early :
    (og backup other_og other_backup : Uid) (s : Poller)
    → other_og.unique_counter ≢ other_backup.unique_counter
    → answered s.master.watchlist other_og.unique_counter ≡ false
    → answered s.master.watchlist other_backup.unique_counter ≡ false
    → answered s.master.watchlist og.unique_counter ≡ false
    → s.og_counter ≡ 0
    → s.backup_counter ≡ 0
    → (t : Poller) × (u : Poller) × (run (replicate 49 (write_polls other_og other_backup)) s
        ≡ ok t)
      × (write_poll og backup t ≡ ok (true, u))
      × (u.master.tcp_out ≡ s.master.tcp_out ++ take 15 og_text ∷ [])
unfolding give_up notify_succes source_bytes
given_up_early og backup other_og other_backup s ne h k x zero_og zero_backup =
    let (t, ran, counted, quiet, still) =
      polls_count 49 other_og other_backup s ne h k (omega (arith, zero_og))
        (omega (arith, zero_backup)) in
    let (v, moved, _, same, more) = write_poll_missing og backup t (still og.unique_counter x) in
    let full : (v.og_counter == 50) ≡ true = ground (arith, counted, more, zero_og) in
    (
      t,
      record {
        master = record (v.master) { tcp_out = v.master.tcp_out ++ take 15 og_text ∷ [] };
        og_counter = 0;
        backup_counter = 0;
      },
      ran,
      rw (moved, give_up, full) refl,
      ap (λ o. o ++ take 15 og_text ∷ []) (same ∙ quiet),
    )

-- Anything but the answer under the key `k`, the polls of that request included.
abbrev pub Silent : ℕ → Other → Type 0
Silent k (write_polls og backup) = Unit
Silent k (read_polls uid) = Unit
Silent k (answers uid) = uid.unique_counter ≢ k
Silent k (registers p) = IsTimely p

step-unanswered :
    (e : Other) (s : Poller) (k : ℕ)
    → Silent k e
    → answered s.master.watchlist k ≡ false
    → (t : Poller) × (step e s ≡ ok t) × (answered t.master.watchlist k ≡ false)
unfolding step read_poll
step-unanswered (write_polls og backup) s k h x =
    let (r, e, _, missing) = write_poll-answered og backup s in (r.1, rw e refl, missing k x)
step-unanswered (read_polls uid) s k h x =
    let first = answered-has_response_recived uid s.master.watchlist in
    (_, refl, ground (arith, first.1 k, x))
step-unanswered (answers uid) s k h x =
    (_, refl, ground (arith, answered-register_response uid s.master.watchlist k, h, x))
step-unanswered (registers p) s k h x =
    let w = s.master.watchlist in
    (
      record s { master = record (s.master) { watchlist = insert p.counter processing_request w } },
      rw (step, register_command-timely p w h) refl,
      ground (arith, lookup-insert p.counter k processing_request w, x),
    )

run-unanswered :
    (es : List Other) (s : Poller) (k : ℕ)
    → All (Silent k) es
    → answered s.master.watchlist k ≡ false
    → (t : Poller) × (run es s ≡ ok t) × (answered t.master.watchlist k ≡ false)
unfolding run
run-unanswered [] s k h x = (s, refl, x)
run-unanswered (e ∷ es) s k h x =
    let (t, one, y) = step-unanswered e s k h.0 x in
    let (u, rest, z) = run-unanswered es t k h.1 y in (u, rw (one, rest) refl, z)

-- A read whose answer does not come is never done: after any sequence of polls, its own included, of
-- answers under other UIDs, and of registrations at times that a UID accepts, the next poll of the
-- read says that it goes on, tells the block device nothing and leaves the read unanswered. Each call
-- of the watchlist runs by itself, which the source leaves to luck: it has no lock.
pub read_poll-run :
    (uid : Uid) (es : List Other) (s : Poller)
    → answered s.master.watchlist uid.unique_counter ≡ false
    → All (Silent uid.unique_counter) es
    → (t : Poller) × (u : Poller) × (run es s ≡ ok t)
      × (read_poll uid t ≡ (false, u))
      × (u.master.tcp_out ≡ t.master.tcp_out)
      × (answered u.master.watchlist uid.unique_counter ≡ false)
unfolding read_poll
read_poll-run uid es s h silent =
    let (t, ran, still) = run-unanswered es s uid.unique_counter silent h in
    let first = answered-has_response_recived uid t.master.watchlist in
    let w = (has_response_recived uid t.master.watchlist).1 in
    (
      t,
      record t { master = record (t.master) { watchlist = w } },
      ran,
      rw (first.0 ∙ still) refl,
      refl,
      ground (arith, first.1 uid.unique_counter, still),
    )
