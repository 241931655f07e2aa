-- ===== src/Command/LostAnswer.antt =====
-- A write whose two answers arrive between different polls.
use iot_drive.Shared.{
  ℕ, ◌+◌, ◌≡◌, ◌≢◌, refl, sym, subst, ◌∙◌, inl, inr, Bool, true, false, List, [], ◌∷◌, ◌++◌, some,
  Outcome, ok, bind, ◌==◌, if◌then◌else◌, arith, All, All-append, Bool-cases,
}
use iot_drive.Buffer.{source_bytes}
use iot_drive.Message.Identity.{Uid}
use iot_drive.Response.{has_response_recived, register_response}
use iot_drive.Response.Refinement.{
  answered, answered-register_response, answered-has_response_recived,
}
use iot_drive.Proxy.ResponseProxy.{Master, notify_succes}
use iot_drive.Command.Polling.{Poller, success_text, og_text, backup_text, give_up, write_poll}

-- What happens to a write while it waits: its AI polls, or an answer arrives.
pub data Event : Type 0 where
  polls : Event
  answers : Uid → Event

unfoldable pub step : Uid → Uid → Event → Poller → Outcome Poller
step og backup polls s = bind (write_poll og backup s) λ r. ok (r.1)
step og backup (answers uid) s = ok (record s {
  master = record (s.master) { watchlist = register_response uid s.master.watchlist };
})

unfoldable pub run : Uid → Uid → List Event → Poller → Outcome Poller
run og backup [] s = ok s
run og backup (e ∷ es) s = bind (step og backup e s) (run og backup es)

-- What the block device gets to read on its socket; nothing there says `Success`.
abbrev pub Unconfirmed : Master → Type 0
Unconfirmed m = All (λ bs. bs ≢ success_text) m.tcp_out

Unconfirmed-tell :
    (m : Master) (bs : List ℕ)
    → bs ≢ success_text
    → Unconfirmed m
    → Unconfirmed (record m { tcp_out = m.tcp_out ++ bs ∷ [] })
Unconfirmed-tell m bs ne h = All-append _ m.tcp_out (bs ∷ []) h (ne, tt)

-- The outcome of `give_up`: it never fails, and says no more than that a write failed.
pub record GivesUp (s : Poller) (o : Outcome (Bool × Poller)) : Type 0 where
  pub result : Bool × Poller
  pub returns : o ≡ ok result
  pub same_watchlist : result.1.master.watchlist ≡ s.master.watchlist
  pub unconfirmed : Unconfirmed s.master → Unconfirmed result.1.master

GivesUp-by :
    (s : Poller) (text : List ℕ) (n : ℕ) (bs : List ℕ)
    → source_bytes (some text) n ≡ ok bs
    → bs ≢ success_text
    → GivesUp s (
        bind
          (notify_succes (some text) n s.master)
          λ m. ok (true, record { master = m; og_counter = 0; backup_counter = 0 }))
unfolding notify_succes
GivesUp-by s text n bs e ne = record {
  result = (
    true,
    record {
      master = record (s.master) { tcp_out = s.master.tcp_out ++ bs ∷ [] };
      og_counter = 0;
      backup_counter = 0;
    },
  );
  returns = rw e;
  same_watchlist = refl;
  unconfirmed = Unconfirmed-tell s.master bs ne;
}

pub give_up-GivesUp : (s : Poller) → GivesUp s (give_up s)
unfolding give_up source_bytes
give_up-GivesUp s = elim (Bool-cases (s.og_counter == 50)) [
  | inl yes50 ↦ rw (yes50, give_up) (GivesUp-by s og_text 15 _ refl (λ e. cc))
  | inr not50 ↦ elim (Bool-cases (s.backup_counter == 50)) [
    | inl yes50 ↦ rw (not50, yes50, give_up) (GivesUp-by s backup_text 20 _ refl (λ e. cc))
    | inr still ↦
        rw (not50, still, give_up)
          (record {
            result = (false, s);
            returns = refl;
            same_watchlist = refl;
            unconfirmed = λ h. h;
          })
  ]
]

-- A poll that does not find the first answer comes to `give_up`, over a watchlist in which that
-- answer is still missing.
pub write_poll_missing :
    (og backup : Uid) (s : Poller)
    → answered s.master.watchlist og.unique_counter ≡ false
    → (t : Poller) × (write_poll og backup s ≡ give_up t)
      × (answered t.master.watchlist og.unique_counter ≡ false)
      × (t.master.tcp_out ≡ s.master.tcp_out)
      × (t.og_counter ≡ s.og_counter + 1)
unfolding write_poll
write_poll_missing og backup s h =
    let first = answered-has_response_recived og s.master.watchlist in
    let w = (has_response_recived og s.master.watchlist).1 in
    let second = answered-has_response_recived backup w in
    let none_yet = first.0 ∙ h in
    (
      record {
        master = record (s.master) { watchlist = (has_response_recived backup w).1 };
        og_counter = s.og_counter + 1;
        backup_counter =
            if (has_response_recived backup w).0 then s.backup_counter else s.backup_counter + 1;
      },
      ground (arith, none_yet),
      ground (arith, first.1 og.unique_counter, second.1 og.unique_counter),
      refl,
      refl,
    )

-- A poll that finds the first answer without the second takes the first one out of the watchlist.
write_poll_early :
    (og backup : Uid) (s : Poller)
    → answered s.master.watchlist og.unique_counter ≡ true
    → answered s.master.watchlist backup.unique_counter ≡ false
    → (t : Poller) × (write_poll og backup s ≡ give_up t)
      × (answered t.master.watchlist og.unique_counter ≡ false)
      × (t.master.tcp_out ≡ s.master.tcp_out)
unfolding write_poll
write_poll_early og backup s h k =
    let first = answered-has_response_recived og s.master.watchlist in
    let w = (has_response_recived og s.master.watchlist).1 in
    let second = answered-has_response_recived backup w in
    let found = first.0 ∙ h in
    (
      record {
        master = record (s.master) { watchlist = (has_response_recived backup w).1 };
        og_counter = s.og_counter;
        backup_counter = s.backup_counter + 1;
      },
      ground (arith, found, second.0, first.1 backup.unique_counter),
      ground (arith, first.1 og.unique_counter, second.1 og.unique_counter),
      refl,
    )

-- The state in which the first answer has been used up and no success has been told.
record Lost (og : Uid) (s : Poller) : Type 0 where
  missing : answered s.master.watchlist og.unique_counter ≡ false
  unconfirmed : Unconfirmed s.master

Lost-polled :
    (og backup : Uid) (s t : Poller)
    → write_poll og backup s ≡ give_up t
    → Lost og t
    → (u : Poller) × (step og backup polls s ≡ ok u) × Lost og u
unfolding step
Lost-polled og backup s t e l =
    let g = give_up-GivesUp t in
    (
      g.result.1,
      rw (e, g.returns),
      record { missing = rw g.same_watchlist l.missing; unconfirmed = g.unconfirmed l.unconfirmed },
    )

-- Each UID is answered once: no further answer for `og` comes.
abbrev pub NoMore : Uid → Event → Type 0
NoMore og polls = Unit
NoMore og (answers uid) = uid.unique_counter ≢ og.unique_counter

Lost-step :
    (og backup : Uid) (e : Event) (s : Poller)
    → NoMore og e
    → Lost og s
    → (u : Poller) × (step og backup e s ≡ ok u) × Lost og u
unfolding step
Lost-step og backup polls s n l =
    let (t, e, missing, same, _) = write_poll_missing og backup s l.missing in
    Lost-polled og backup s t e (record {
      missing = missing;
      unconfirmed = subst (All (λ bs. bs ≢ success_text)) (sym same) l.unconfirmed;
    })
Lost-step og backup (answers uid) s n l = (
  _,
  refl,
  record {
    missing =
        ground
          (arith, answered-register_response uid s.master.watchlist og.unique_counter, l.missing);
    unconfirmed = l.unconfirmed;
  },
)

Lost-run :
    (og backup : Uid) (es : List Event) (s : Poller)
    → All (NoMore og) es
    → Lost og s
    → (u : Poller) × (run og backup es s ≡ ok u) × Lost og u
unfolding run
Lost-run og backup [] s n l = (s, refl, l)
Lost-run og backup (e ∷ es) s n l =
    let (t, moved, lt) = Lost-step og backup e s n.0 l in
    let (u, ran, lu) = Lost-run og backup es t n.1 lt in (u, rw moved ran, lu)

-- If a poll of a write falls between its two answers, so that it finds the first and not the
-- second, then no later poll tells the block device of success, whatever arrives afterwards, the
-- second answer included; each UID is answered once. The first answer was dropped by that poll.
pub answer_lost :
    (og backup : Uid) (es : List Event) (s : Poller)
    → answered s.master.watchlist og.unique_counter ≡ true
    → answered s.master.watchlist backup.unique_counter ≡ false
    → Unconfirmed s.master
    → All (NoMore og) es
    → (u : Poller) × (run og backup (polls ∷ es) s ≡ ok u) × Unconfirmed u.master
unfolding run
answer_lost og backup es s h k quiet n =
    let (t, e, missing, same) = write_poll_early og backup s h k in
    let (t', moved, lt) = Lost-polled og backup s t e (record {
      missing = missing;
      unconfirmed = subst (All (λ bs. bs ≢ success_text)) (sym same) quiet;
    }) in
    let (u, ran, lu) = Lost-run og backup es t' n lt in (u, rw moved ran, lu.unconfirmed)
