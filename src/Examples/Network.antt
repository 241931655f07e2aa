-- ===== src/Examples/Network.antt =====
-- Writes over a network that loses, repeats and reorders datagrams.
use iot_drive.Shared.{
  ℕ, zero, suc, ◌+◌, ◌%◌, ◌<◌, ◌≤◌, ◌*◌, ◌≡◌, ◌≢◌, refl, Bool, true, false, List, [], ◌∷◌, ◌++◌,
  some, ok, arith, inl, inr,
}
use iot_drive.Raid.Placement.{primary, backup}
use iot_drive.ArgsKey.{write_args, write_cmd_key}
use iot_drive.Storage.{slice}
use iot_drive.Response.Refinement.{answered}
use iot_drive.Proxy.Delivery.{next_uid, tick}
use iot_drive.Command.{Issued, run_master_task}
use iot_drive.Cluster.Network.{
  Net, Event, serves, takes, loses_request, repeats_request, loses_answer, repeats_answer, run,
}
use iot_drive.Cluster.Network.Datagrams.{Sent, IsSent, datagram, content_of, Stored, Disjoint}
use iot_drive.Cluster.Network.Lossy.{run-Stored}
use iot_drive.Cluster.Network.SingleWrite.{run_master_task-run}
use iot_drive.Examples.Master.{memory_of_zeros, master, process-ProcessFits, og, second, og-UidFits}
use iot_drive.Message.{new_minion_read_msg}
use iot_drive.Message.Format.{encode}
use iot_drive.Cluster.Session.{Timing}
use iot_drive.Cluster.Device.{Io, reads, Device, io, io_all}
use iot_drive.Cluster.Device.Repeated.{arrives, late_results, is_read_of, arrives-shifts}
use iot_drive.Examples.Disk.{empty, empty-Keeps, idle, idle-Rests}

-- Two neighbours in the file of minion 1.
abbrev sent : ℕ → Sent
sent zero = record { minion = 1; offset = 40; bytes = 1 ∷ 2 ∷ []; uid = og }
sent (suc i) = record { minion = 1; offset = 42; bytes = 3 ∷ []; uid = second }

sent-IsSent : (i : ℕ) → i < 2 → IsSent (sent i)
sent-IsSent zero lt = record {
  uid_fits = og-UidFits;
  offset_fits = omega arith;
  short = omega arith;
  are_bytes = (omega arith, (omega arith, tt));
}
sent-IsSent (suc i) lt = record {
  uid_fits = record {
    counter_fits = omega arith;
    timestamp_fits = omega arith;
    pid_fits = omega arith;
    ip_fits = omega arith;
  };
  offset_fits = omega arith;
  short = omega arith;
  are_bytes = (omega arith, tt);
}

sent-Disjoint :
    (i j : ℕ)
    → i < 2
    → j < 2
    → i ≢ j
    → (sent i).minion ≡ (sent j).minion
    → Disjoint (sent i) (sent j)
sent-Disjoint zero zero lt lt' ne e = absurd (ne refl)
sent-Disjoint zero (suc j) lt lt' ne e = inl (omega arith)
sent-Disjoint (suc i) zero lt lt' ne e = inr (omega arith)
sent-Disjoint (suc i) (suc j) lt lt' ne e = absurd (ne (omega arith))

sent-own_uid :
    (i j : ℕ) → i < 2 → j < 2 → i ≢ j → (sent i).uid.unique_counter ≢ (sent j).uid.unique_counter
sent-own_uid zero zero lt lt' ne = absurd (ne refl)
sent-own_uid zero (suc j) lt lt' ne = λ e. omega (arith, e)
sent-own_uid (suc i) zero lt lt' ne = λ e. omega (arith, e)
sent-own_uid (suc i) (suc j) lt lt' ne = absurd (ne (omega arith))

abbrev net : Net
net = record {
  master = master;
  minions = empty.cluster.minions;
  requests = datagram (sent 0) ∷ datagram (sent 1) ∷ [];
  answers = [];
}

-- The second request is repeated, served twice and answered, the first is lost.
abbrev events : List Event
events =
    repeats_request 1
    ∷ serves 0
    ∷ serves 1
    ∷ loses_request 0
    ∷ repeats_answer 1
    ∷ loses_answer 0
    ∷ takes 1
    ∷ takes 0
    ∷ []

run-Stored_example :
    (c' : Net) × (run true memory_of_zeros events net ≡ ok c')
    × ((i : ℕ)
        → i < 2
        → answered c'.master.watchlist (sent i).uid.unique_counter ≡ true
        → Stored (sent i) (content_of c'))
unfolding iot_drive.Shared.lookup
run-Stored_example =
    run-Stored true memory_of_zeros 2 sent sent-IsSent sent-Disjoint sent-own_uid net events
      empty-Keeps.runs.works process-ProcessFits
      ((0, omega arith, refl), ((1, omega arith, refl), tt)) refl (λ i lt. refl)

run_master_task-run_example :
    (i : Issued) × (run_master_task true memory_of_zeros
        (write_args write_cmd_key 5000000 2 (some (1 ∷ 2 ∷ [])))
        empty.cluster.master
      ≡ ok i)
    × (c' : Net) × (run true memory_of_zeros events (record {
      master = i.master;
      minions = empty.cluster.minions;
      requests = i.datagrams;
      answers = [];
    })
        ≡ ok c')
    × (answered c'.master.watchlist (next_uid empty.cluster.master.process).unique_counter ≡ true
        → slice (content_of c' (primary 5000000).minion) (primary 5000000).offset 2 ≡ 1 ∷ 2 ∷ [])
    × (answered c'.master.watchlist (next_uid (tick empty.cluster.master.process)).unique_counter
          ≡ true
        → slice (content_of c' (backup 5000000).minion) (backup 5000000).offset 2 ≡ 1 ∷ 2 ∷ [])
run_master_task-run_example =
    run_master_task-run true memory_of_zeros 5000000 (1 ∷ 2 ∷ []) empty.cluster events (omega arith)
      (omega arith) (omega arith, (omega arith, tt)) empty-Keeps.runs

-- Two reads of other places, after one whose answer is repeated.
abbrev at_once : Timing
at_once = record { early = 0; swapped = false }

abbrev later : List (Timing × Io)
later =
    (record { early = 1; swapped = true }, reads 4096 (8 ∷ 8 ∷ []))
    ∷ (at_once, reads 5000000 (9 ∷ 9 ∷ []))
    ∷ []

arrives-shifts_example :
    (d₁ : Device) × (io true memory_of_zeros at_once (reads 100 (7 ∷ 7 ∷ [])) idle
      ≡ ok (0, slice (λ i. 0) 100 2, d₁))
    × (d₂ : Device) × (arrives true memory_of_zeros
          (encode (new_minion_read_msg og true (some (slice (λ i. 0) 100 2)) 2))
          d₁
        ≡ ok d₂)
    × (d₃ : Device) × (io_all true memory_of_zeros later d₂
        ≡ ok (late_results (slice (λ i. 0) 100 2) later (λ i. 0), d₃))
arrives-shifts_example =
    arrives-shifts true memory_of_zeros at_once 100 (7 ∷ 7 ∷ []) og later (λ i. 0) idle
      (omega arith, omega arith) og-UidFits
      (
        is_read_of 4096 (8 ∷ 8 ∷ []) (omega arith, omega arith) refl,
        (is_read_of 5000000 (9 ∷ 9 ∷ []) (omega arith, omega arith) refl, tt),
      )
      idle-Rests
