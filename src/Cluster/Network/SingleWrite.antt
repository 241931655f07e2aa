-- ===== src/Cluster/Network/SingleWrite.antt =====
-- One write command over a network that loses, repeats and reorders datagrams.
use iot_drive.Shared.{
  ℕ, zero, suc, ◌^◌, ◌<◌, ◌≡◌, ◌≢◌, refl, Bool, true, false, List, [], ◌∷◌, some, ok, arith, All,
  length,
}
use iot_drive.Raid.{memory}
use iot_drive.Raid.Placement.{primary, backup}
use iot_drive.ArgsKey.{write_args, write_cmd_key}
use iot_drive.Response.Refinement.{answered}
use iot_drive.Storage.{slice}
use iot_drive.Proxy.{Memory}
use iot_drive.Proxy.ResponseProxy.{Master}
use iot_drive.Proxy.Delivery.{tick, next_uid}
use iot_drive.Command.{Issued, run_master_task}
use iot_drive.Command.Requests.{
  tick-ProcessFits, next_uid-UidFits, registered, run_master_task-write,
}
use iot_drive.Cluster.{Cluster}
use iot_drive.Cluster.Serve.{Runs}
use iot_drive.Cluster.Network.{Net, Event, run}
use iot_drive.Cluster.Network.Datagrams.{Sent, IsSent, Disjoint, content_of, datagram}
use iot_drive.Cluster.Network.Lossy.{run-Stored}
use iot_drive.Command.Waiting.{answered-registered}

-- The two datagrams of the command.
abbrev copies : ℕ → List ℕ → Master → ℕ → Sent
copies offset bs s zero = record {
  minion = (primary offset).minion;
  offset = (primary offset).offset;
  bytes = bs;
  uid = next_uid s.process;
}
copies offset bs s (suc i) = record {
  minion = (backup offset).minion;
  offset = (backup offset).offset;
  bytes = bs;
  uid = next_uid (tick s.process);
}

-- A write inside the device whose two datagrams, and their answers, are served, lost, repeated and
-- reordered in any way, by minions that run the command of one datagram before the next: no step
-- fails, and for each of its two UIDs that is answered at the end the minion of that copy has the
-- bytes of the write at the place of the copy. At the start nothing else is under way, the times are
-- ones that a UID accepts, and the files of the minions are in use.
pub run_master_task-run :
    (debug : Bool) (mem : Memory) (offset : ℕ) (bs : List ℕ) (c : Cluster) (es : List Event)
    → offset < memory
    → length bs < 2 ^ 32
    → All (λ b. b < 256) bs
    → Runs c
    → (i : Issued) × (run_master_task debug mem
          (write_args write_cmd_key offset (length bs) (some bs))
          c.master
        ≡ ok i)
      × (c' : Net) × (run debug mem es (record {
        master = i.master;
        minions = c.minions;
        requests = i.datagrams;
        answers = [];
      })
          ≡ ok c')
      × (answered c'.master.watchlist (next_uid c.master.process).unique_counter ≡ true
          → slice (content_of c' (primary offset).minion) (primary offset).offset (length bs) ≡ bs)
      × (answered c'.master.watchlist (next_uid (tick c.master.process)).unique_counter ≡ true
          → slice (content_of c' (backup offset).minion) (backup offset).offset (length bs) ≡ bs)
run_master_task-run debug mem offset bs c es inside short b r =
    let s = c.master in
    let f = r.fits in
    let fresh = answered-registered s f in
    let (c', ran, stored) =
      run-Stored debug mem 2 (copies offset bs s) well disjoint own_uid
        (record {
          master = registered (registered s);
          minions = c.minions;
          requests = datagram (copies offset bs s 0) ∷ datagram (copies offset bs s 1) ∷ [];
          answers = [];
        })
        es r.works (tick-ProcessFits (tick s.process) (tick-ProcessFits s.process f))
        ((0, omega arith, refl), ((1, omega arith, refl), tt)) refl (unanswered fresh.0 fresh.1) in
    (
      _,
      run_master_task-write debug mem s f offset bs inside short b,
      c',
      ran,
      stored 0 (omega arith),
      stored 1 (omega arith),
    )
  where
    well : (i : ℕ) → i < 2 → IsSent (copies offset bs c.master i)
    well zero lt = record {
      uid_fits = next_uid-UidFits c.master.process r.fits;
      offset_fits = omega arith;
      short = short;
      are_bytes = b;
    }
    well (suc i) lt = record {
      uid_fits =
          next_uid-UidFits (tick c.master.process) (tick-ProcessFits c.master.process r.fits);
      offset_fits = omega arith;
      short = short;
      are_bytes = b;
    }

    disjoint :
        (i j : ℕ)
        → i < 2
        → j < 2
        → i ≢ j
        → (copies offset bs c.master i).minion ≡ (copies offset bs c.master j).minion
        → Disjoint (copies offset bs c.master i) (copies offset bs c.master j)
    disjoint zero zero lt lt' ne e = absurd (ne refl)
    disjoint zero (suc j) lt lt' ne e = absurd (omega (arith, e, inside))
    disjoint (suc i) zero lt lt' ne e = absurd (omega (arith, e, inside))
    disjoint (suc i) (suc j) lt lt' ne e = absurd (ne (omega arith))

    own_uid :
        (i j : ℕ)
        → i < 2
        → j < 2
        → i ≢ j
        → (copies offset bs c.master i).uid.unique_counter
          ≢ (copies offset bs c.master j).uid.unique_counter
    own_uid zero zero lt lt' ne = absurd (ne refl)
    own_uid zero (suc j) lt lt' ne = let fits = r.fits.counter_fits in λ e. omega (arith, fits, e)
    own_uid (suc i) zero lt lt' ne = let fits = r.fits.counter_fits in λ e. omega (arith, fits, e)
    own_uid (suc i) (suc j) lt lt' ne = absurd (ne (omega arith))

    unanswered :
        answered (registered (registered c.master)).watchlist c.master.process.counter ≡ false
        → answered (registered (registered c.master)).watchlist (tick c.master.process).counter
          ≡ false
        → (i : ℕ) → i < 2
        → answered
            (registered (registered c.master)).watchlist
            (copies offset bs c.master i).uid.unique_counter
          ≡ false
    unanswered one two zero lt = one
    unanswered one two (suc i) lt = two
