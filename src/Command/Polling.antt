-- ===== src/Command/Polling.antt =====
-- ReadAIFunc and WriteAIFunc of command.cpp: asking for the answers until they are there.
use iot_drive.Shared.{
  ℕ, ◌+◌, Bool, true, false, ◌&&◌, ◌||◌, List, [], ◌∷◌, ◌++◌, some, Outcome, ok, bind, ◌==◌,
  if◌then◌else◌,
}
use iot_drive.Message.Identity.{Uid}
use iot_drive.Response.{has_response_recived}
use iot_drive.Proxy.ResponseProxy.{Master, notify_succes}

-- The string literals, with the zero at their end.
abbrev pub success_text : List ℕ
success_text = b'S' ∷ b'u' ∷ b'c' ∷ b'c' ∷ b'e' ∷ b's' ∷ b's' ∷ 0 ∷ []

abbrev couldnt_write : List ℕ
couldnt_write =
    b'c' ∷ b'o' ∷ b'u' ∷ b'l' ∷ b'd' ∷ b'n' ∷ b't' ∷ b' ' ∷ b'w' ∷ b'r' ∷ b'i' ∷ b't' ∷ b'e' ∷ b' '
    ∷ []

abbrev pub og_text : List ℕ
og_text = couldnt_write ++ b'o' ∷ b'g' ∷ 0 ∷ []

abbrev pub backup_text : List ℕ
backup_text = couldnt_write ++ b'b' ∷ b'a' ∷ b'c' ∷ b'k' ∷ b'u' ∷ b'p' ∷ 0 ∷ []

-- The two counters are static: every WriteAIFunc of the process counts with them.
pub record Poller : Type 0 where
  pub master : Master
  pub og_counter : ℕ
  pub backup_counter : ℕ

unfoldable pub read_poll : Uid → Poller → Bool × Poller
read_poll uid s =
    let (answered, w) = has_response_recived uid s.master.watchlist in
    (answered, record s { master = record (s.master) { watchlist = w } })

-- The end of WriteAIFunc::operator(), with the counters as they have been stepped.
unfoldable pub give_up : Poller → Outcome (Bool × Poller)
give_up s =
    let told : Outcome Master =
      if s.og_counter == 50
      then notify_succes (some og_text) 15 s.master
      else notify_succes (some backup_text) 20 s.master in
    if s.og_counter == 50 || s.backup_counter == 50
    then (bind told λ m. ok (true, record { master = m; og_counter = 0; backup_counter = 0 }))
    else ok (false, s)

unfoldable pub write_poll : Uid → Uid → Poller → Outcome (Bool × Poller)
unfolding give_up
write_poll og_uid backup_uid s =
    let (og, w) = has_response_recived og_uid s.master.watchlist in
    let (backup, w') = has_response_recived backup_uid w in
    let m = record (s.master) { watchlist = w' } in
    if og && backup
    then (bind (notify_succes (some success_text) 8 m) λ m'. ok (true, record s { master = m' }))
    else give_up (record {
      master = m;
      og_counter = if og then s.og_counter else s.og_counter + 1;
      backup_counter = if backup then s.backup_counter else s.backup_counter + 1;
    })
