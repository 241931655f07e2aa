-- ===== src/Command/Unanswered.antt =====
-- A write that is never answered: its AI polls until the counter of the missing answers is full.
use iot_drive.Shared.{
  ℕ, zero, suc, ◌+◌, ◌≤◌, ◌<◌, ◌≡◌, ◌≢◌, refl, sym, subst, ◌⊎◌, inl, inr, Bool, true, false,
  Outcome, ok, bind, ◌==◌, arith, All, Bool-cases,
}
use iot_drive.Buffer.{source_bytes}
use iot_drive.Message.Identity.{Uid}
use iot_drive.Response.Refinement.{answered}
use iot_drive.Proxy.ResponseProxy.{notify_succes}
use iot_drive.Command.Polling.{Poller, success_text, give_up, write_poll}
use iot_drive.Command.LostAnswer.{Unconfirmed, give_up-GivesUp, write_poll_missing}

-- At most `n` runs of AI::Perform of one write, which stop with the first that is done; no other
-- write is polled in between.
unfoldable pub poll_until : ℕ → Uid → Uid → Poller → Outcome (Bool × Poller)
poll_until zero og backup s = ok (false, s)
poll_until (suc n) og backup s =
    bind (write_poll og backup s)
      λ r. elim (r.0) [ true ↦ ok (true, r.1) | false ↦ poll_until n og backup (r.1) ]

-- What `give_up` says of its end.
abbrev Ends : Poller → Type 0
Ends t =
    ((u : Poller) × (give_up t ≡ ok (true, u)) × (u.og_counter ≡ 0) × (u.backup_counter ≡ 0))
    ⊎ ((give_up t ≡ ok (false, t)) × (t.og_counter ≢ 50))

give_up-Ends : (t : Poller) → Ends t
unfolding give_up notify_succes source_bytes
give_up-Ends t = elim (Bool-cases (t.og_counter == 50)) [
  | inl full ↦ rw (full, give_up) (inl (_, refl, refl, refl))
  | inr not_full ↦ elim (Bool-cases (t.backup_counter == 50)) [
    | inl full ↦ rw (not_full, full, give_up) (inl (_, refl, refl, refl))
    | inr still ↦ rw (not_full, still, give_up) (inr (refl, ground (arith, not_full)))
  ]
]

same_result : (o : Outcome (Bool × Poller)) (x y : Bool × Poller) → o ≡ ok x → o ≡ ok y → x ≡ y
same_result o x y e f = cc

-- An AI whose first answer never comes, from a counter that is not full and over enough polls, ends
-- in a state with both counters at 0, and has told the block device of no success.
record Ended (o : Outcome (Bool × Poller)) : Type 0 where
  last : Poller
  ends : o ≡ ok (true, last)
  quiet : Unconfirmed last.master
  og_reset : last.og_counter ≡ 0
  backup_reset : last.backup_counter ≡ 0

poll_until-Ended :
    (n : ℕ) (og backup : Uid) (s : Poller)
    → answered s.master.watchlist og.unique_counter ≡ false
    → s.og_counter < 50
    → 50 ≤ s.og_counter + n
    → Unconfirmed s.master
    → Ended (poll_until n og backup s)
unfolding poll_until
poll_until-Ended zero og backup s h low high quiet = absurd (omega arith)
poll_until-Ended (suc n) og backup s h low high quiet =
    let (t, moved, missing, same, counted) = write_poll_missing og backup s h in
    let quiet' : Unconfirmed t.master = subst (All (λ bs. bs ≢ success_text)) (sym same) quiet in
    let g = give_up-GivesUp t in
    elim (give_up-Ends t) [
      | inl (u, ended, zero_og, zero_backup) ↦ record {
        last = u;
        ends = rw (moved, ended) refl;
        quiet =
            subst (λ r. Unconfirmed r.1.master)
              (same_result (give_up t) g.result (true, u) g.returns ended) (g.unconfirmed quiet');
        og_reset = zero_og;
        backup_reset = zero_backup;
      }
      | inr (goes_on, low') ↦
          let r =
            poll_until-Ended n og backup t missing (omega (arith, counted)) (omega (arith, counted))
              quiet' in
          record {
            last = r.last;
            ends = rw (moved, goes_on) r.ends;
            quiet = r.quiet;
            og_reset = r.og_reset;
            backup_reset = r.backup_reset;
          }
    ]

-- The polls of a write whose first answer never comes end, if no other write is polled in between,
-- with which it would share the counters: from a counter of it below fifty, at the fiftieth poll at
-- the latest, with both counters at 0, and without a word of success.
pub poll_until_ends :
    (og backup : Uid) (s : Poller)
    → answered s.master.watchlist og.unique_counter ≡ false
    → s.og_counter < 50
    → Unconfirmed s.master
    → (u : Poller) × (poll_until 50 og backup s ≡ ok (true, u))
      × Unconfirmed u.master
      × (u.og_counter ≡ 0)
      × (u.backup_counter ≡ 0)
poll_until_ends og backup s h low quiet =
    let r = poll_until-Ended 50 og backup s h low (omega arith) quiet in
    (r.last, r.ends, r.quiet, r.og_reset, r.backup_reset)
