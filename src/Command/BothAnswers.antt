-- ===== src/Command/BothAnswers.antt =====
-- A write whose two answers have arrived before a poll.
use iot_drive.Shared.{◌≡◌, ◌≢◌, refl, ◌∙◌, true, false, [], ◌∷◌, ◌++◌, ok, arith}
use iot_drive.Buffer.{source_bytes}
use iot_drive.Message.Identity.{Uid}
use iot_drive.Response.{has_response_recived}
use iot_drive.Response.Refinement.{answered, answered-has_response_recived}
use iot_drive.Proxy.ResponseProxy.{notify_succes}
use iot_drive.Command.Polling.{Poller, success_text, write_poll}

-- A write whose two answers are both there at a poll is told as a success by that poll, which ends
-- the polling and takes both answers out; the counters stay.
pub write_poll_both :
    (og backup : Uid) (s : Poller)
    → og.unique_counter ≢ backup.unique_counter
    → answered s.master.watchlist og.unique_counter ≡ true
    → answered s.master.watchlist backup.unique_counter ≡ true
    → (u : Poller) × (write_poll og backup s ≡ ok (true, u))
      × (u.master.tcp_out ≡ s.master.tcp_out ++ success_text ∷ [])
      × (answered u.master.watchlist og.unique_counter ≡ false)
      × (answered u.master.watchlist backup.unique_counter ≡ false)
      × (u.og_counter ≡ s.og_counter)
      × (u.backup_counter ≡ s.backup_counter)
      × (u.master.process ≡ s.master.process)
unfolding write_poll notify_succes source_bytes
write_poll_both og backup s ne h k =
    let first = answered-has_response_recived og s.master.watchlist in
    let w = (has_response_recived og s.master.watchlist).1 in
    let second = answered-has_response_recived backup w in
    let found = first.0 ∙ h in
    let found' : (has_response_recived backup w).0 ≡ true =
      ground (arith, second.0, first.1 backup.unique_counter) in
    (
      record s {
        master = record (s.master) {
          watchlist = (has_response_recived backup w).1;
          tcp_out = s.master.tcp_out ++ success_text ∷ [];
        };
      },
      rw (found, found'),
      refl,
      ground (arith, first.1 og.unique_counter, second.1 og.unique_counter),
      ground (arith, second.1 backup.unique_counter),
      refl,
      refl,
      refl,
    )
