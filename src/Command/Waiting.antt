-- ===== src/Command/Waiting.antt =====
-- UIDs that are not answered yet, and a poll of a write before its answers.
use iot_drive.Shared.{ℕ, ◌+◌, ◌≤◌, ◌≡◌, refl, ◌∙◌, false, ok, ◌==◌, arith, lookup-insert}
use iot_drive.Message.Identity.{Uid}
use iot_drive.Response.{Watchlist, processing_request, has_response_recived}
use iot_drive.Response.Refinement.{answered, answered-has_response_recived}
use iot_drive.Proxy.ResponseProxy.{Master}
use iot_drive.Proxy.Delivery.{tick}
use iot_drive.Command.Requests.{ProcessFits, registered}
use iot_drive.Command.Polling.{Poller, give_up, write_poll}

-- The UID that has just been registered is not answered.
pub answered-registered_last :
    (s : Master) → answered (registered s).watchlist s.process.counter ≡ false
answered-registered_last s =
    ground (arith, lookup-insert s.process.counter s.process.counter processing_request s.watchlist)

-- Neither of two UIDs that have just been registered is answered.
pub answered-registered :
    (s : Master)
    → ProcessFits s.process
    → (answered (registered (registered s)).watchlist s.process.counter ≡ false)
      × (answered (registered (registered s)).watchlist (tick s.process).counter ≡ false)
answered-registered s fits = (
  ground (
    arith,
    lookup-insert (tick s.process).counter s.process.counter processing_request
        (registered s).watchlist,
    lookup-insert s.process.counter s.process.counter processing_request s.watchlist,
  ),
  ground (
    arith,
    lookup-insert (tick s.process).counter (tick s.process).counter processing_request
        (registered s).watchlist,
  ),
)

-- It goes on, unless a counter gets full.
pub write_poll-unanswered :
    (og backup : Uid) (s : Poller)
    → answered s.master.watchlist og.unique_counter ≡ false
    → answered s.master.watchlist backup.unique_counter ≡ false
    → s.og_counter + 1 ≤ 49
    → s.backup_counter + 1 ≤ 49
    → (w : Watchlist) × (write_poll og backup s
        ≡ ok (
          false,
          record {
            master = record (s.master) { watchlist = w };
            og_counter = s.og_counter + 1;
            backup_counter = s.backup_counter + 1;
          },
        ))
      × ((k : ℕ) → answered s.master.watchlist k ≡ false → answered w k ≡ false)
unfolding write_poll give_up
write_poll-unanswered og backup s h k low low' =
    let first = answered-has_response_recived og s.master.watchlist in
    let w = (has_response_recived og s.master.watchlist).1 in
    let second = answered-has_response_recived backup w in
    let none_yet : (has_response_recived og s.master.watchlist).0 ≡ false = first.0 ∙ h in
    let none_yet' : (has_response_recived backup w).0 ≡ false =
      ground (arith, second.0, first.1 backup.unique_counter, k) in
    let not_full : (s.og_counter + 1 == 50) ≡ false = ground (arith, low) in
    let not_full' : (s.backup_counter + 1 == 50) ≡ false = ground (arith, low') in
    (
      (has_response_recived backup w).1,
      rw (none_yet, none_yet', not_full, not_full') refl,
      λ j x. ground (arith, first.1 j, second.1 j, x),
    )
