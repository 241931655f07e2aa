-- ===== src/Examples/Events.antt =====
-- Requests on the stream, polls without an answer, and the small parts under them.
use iot_drive.Shared.{
  Bool, none, ◌⊎◌, ◌==◌, ◌&&◌, ℕ, ◌≤◌, ◌≡◌, refl, true, false, List, [], ◌∷◌, Option, some, ok,
  fault, arith, lookup,
}
use iot_drive.Message.Identity.{Uid, uid_eq}
use iot_drive.Response.Refinement.{answered}
use iot_drive.Proxy.Distinct.{uid_at, uid_at-distinct}
use iot_drive.Command.Polling.{Poller}
use iot_drive.Command.LostAnswer.{Unconfirmed}
use iot_drive.Command.Unanswered.{poll_until, poll_until_ends}
use iot_drive.Singleton
use iot_drive.Singleton.{World, start, calls, returns, supplied}
use iot_drive.Singleton.Instance.{run_once}
use iot_drive.Dispatcher
use iot_drive.Dispatcher.{
  new_dispatcher, registers, unregisters, drops, drop_dispatcher, drop_callback,
}
use iot_drive.Dispatcher.Lifetime.{all_drops, lifetimes_safe, unregister_dangles}
use iot_drive.Reactor.{Reactor, read, write, Key, Sets, listen}
use iot_drive.Reactor.Ready.{Asked, contains, is_ready, listen_lem, listen_other_mode}
use iot_drive.Examples.Master.{process, master}

abbrev og : Uid
og = record { unique_counter = 7; timestamp = 1700000000; pid = 4711; ip = 8 }

abbrev second : Uid
second = record { unique_counter = 8; timestamp = 1700000000; pid = 4711; ip = 9 }

abbrev late : Poller
late = record { master = master; og_counter = 48; backup_counter = 12 }

nothing_there : answered [] 7 ≡ false
unfolding lookup
nothing_there = refl

poll_until_ends_example :
    (u : Poller) × (poll_until 50 og second late ≡ ok (true, u))
    × Unconfirmed u.master
    × (u.og_counter ≡ 0)
    × (u.backup_counter ≡ 0)
poll_until_ends_example = poll_until_ends og second late nothing_there (omega arith) tt

uid_at-distinct_example :
    (u : Uid) × (v : Uid) × (uid_at (λ k. 1700000000) 2 process ≡ ok u)
    × (uid_at (λ k. 1700000000) 5 process ≡ ok v)
    × (uid_eq u v ≡ false)
uid_at-distinct_example =
    uid_at-distinct (λ k. 1700000000) 2 3 process (λ k. omega arith) (omega arith) (omega arith)
      (omega arith)

-- Two threads that meet at the lock, and a third that comes later.
abbrev schedule : List (ℕ × Bool)
schedule =
    (0, true)
    ∷ (1, true)
    ∷ (0, true)
    ∷ (1, true)
    ∷ (0, true)
    ∷ (1, true)
    ∷ (0, true)
    ∷ (0, true)
    ∷ (0, true)
    ∷ (0, true)
    ∷ (0, true)
    ∷ (1, true)
    ∷ (1, true)
    ∷ (1, true)
    ∷ (2, true)
    ∷ (2, false)
    ∷ []

abbrev callers : World
callers = record { shared = start; place = λ t. calls }

run_once_example :
    ((Singleton.run schedule callers).shared.made ≤ 1)
    × ((t : ℕ) (temp : Option ℕ)
        → (Singleton.run schedule callers).place t ≡ returns temp
        → temp ≡ some 0)
    × ((t : ℕ) (temp : Option ℕ)
        → (Singleton.run schedule callers).place t ≡ supplied temp
        → (temp ≡ none) ⊎ (temp ≡ some 0))
run_once_example = run_once schedule

-- The third caller sees the flag and an old pointer.
gets_null : (Singleton.run schedule callers).place 2 ≡ supplied none
unfolding Singleton.run Singleton.turn Singleton.advance
gets_null = refl

lifetimes_safe_example :
    (d : Dispatcher.Dispatcher) × (d' : Dispatcher.Dispatcher) × (d'' : Dispatcher.Dispatcher)
    × (Dispatcher.run (registers 1 ∷ registers 2 ∷ drops 1 ∷ []) new_dispatcher ≡ ok d)
    × (drop_dispatcher d ≡ ok d')
    × (Dispatcher.run (all_drops (2 ∷ [])) d' ≡ ok d'')
lifetimes_safe_example =
    lifetimes_safe (registers 1 ∷ registers 2 ∷ drops 1 ∷ []) (2 ∷ []) (tt, (tt, (tt, tt)))

unregister_dangles_example :
    (d₁ : Dispatcher.Dispatcher) × (d₂ : Dispatcher.Dispatcher) × (Dispatcher.run
        (registers 1 ∷ unregisters 1 ∷ [])
        new_dispatcher
      ≡ ok d₁)
    × (drop_dispatcher d₁ ≡ ok d₂)
    × (drop_callback 1 d₂ ≡ fault)
unregister_dangles_example = unregister_dangles 1 new_dispatcher refl

-- The two sockets of the master, of which the second is readable; and one socket in both modes.
abbrev tcp : Key
tcp = record { fd = 3; mode = read }

abbrev udp : Key
udp = record { fd = 4; mode = read }

abbrev udp_write : Key
udp_write = record { fd = 4; mode = write }

abbrev udp_readable : Sets
udp_readable = record { readable = λ fd. fd == 4; writable = λ fd. false }

master-Asked : Asked (tcp ∷ udp ∷ []) udp_readable
unfolding contains
master-Asked = record { of_read = λ fd e. ground arith; of_write = λ fd e. cc }

master_reads_only : (fd : ℕ) → contains (record { fd = fd; mode = write }) (tcp ∷ udp ∷ []) ≡ false
unfolding contains
master_reads_only fd = ground arith

abbrev reactor : Reactor ℕ
reactor = record { handlers = (tcp, 0) ∷ []; is_stopped = false }

-- The handler of the second socket.
abbrev handler : ℕ
handler = 1

listen_lem_example :
    contains udp (listen (some udp_readable) (tcp ∷ udp ∷ []))
    ≡ (contains udp (tcp ∷ udp ∷ []) && is_ready udp_readable udp)
listen_lem_example =
    listen_lem (tcp ∷ udp ∷ []) udp_readable udp master-Asked (λ fd e. master_reads_only fd)

write_registered : contains udp_write (udp ∷ udp_write ∷ []) ≡ true
unfolding contains
write_registered = refl

listen_other_mode_example :
    (is_ready udp_readable udp_write ≡ false)
    × (contains udp_write (listen (some udp_readable) (udp ∷ udp_write ∷ [])) ≡ true)
listen_other_mode_example =
    listen_other_mode (udp ∷ udp_write ∷ []) udp_readable 4 write_registered refl refl
