-- ===== src/Singleton.antt =====
-- singleton.hpp: GetInstance by double-checked locking, one access of the shared variables at a time.
-- What a thread reads without the mutex may be old: `m_instance` is loaded with no order, and
-- `m_supply_flag` is a plain bool. Either variable changes once, so that an old value is its first.
pub mod Instance
use iot_drive.Shared.{
  ℕ, zero, suc, ◌+◌, ◌&&◌, Bool, true, false, List, [], ◌∷◌, Option, none, some, ◌==◌,
  if◌then◌else◌,
}

-- `m_instance` points to the n-th object that `new` has made, or is null; `lock` is the thread that
-- holds `m_mutex`, and `made` counts the objects.
pub record Shared : Type 0 where
  pub instance : Option ℕ
  pub supply_flag : Bool
  pub lock : Option ℕ
  pub made : ℕ

-- Where a thread is in GetInstance; `temp` is its local variable.
pub data Place : Type 0 where
  -- Before the test of `m_supply_flag`.
  calls : Place
  -- In Init before the first load, in Supply before its load.
  init supply : Place
  -- Before the lock, and with the lock before the second load.
  waits checks : Place
  -- Before `new`, before the store, before the flag, before the unlock.
  creates : Place
  stores flags unlocks : ℕ → Place
  returns : Option ℕ → Place
  -- The result of Supply.
  supplied : Option ℕ → Place

abbrev pub start : Shared
start = record { instance = none; supply_flag = false; lock = none; made = 0 }

-- A load of `m_instance`, which is up to date or not.
abbrev pub load_instance : Bool → Shared → Option ℕ
load_instance true s = s.instance
load_instance false s = none

-- The next access of thread `t`; a thread that waits for the lock stays where it is. `fresh` says
-- whether a read without the mutex is up to date.
unfoldable pub advance : Bool → ℕ → Shared → Place → Shared × Place
advance fresh t s calls = (s, if fresh && s.supply_flag then supply else init)
advance fresh t s supply = (s, supplied (load_instance fresh s))
advance fresh t s init =
    (s, elim (load_instance fresh s) [ none ↦ waits | some temp ↦ returns (some temp) ])
advance fresh t s (supplied temp) = (s, supplied temp)
advance fresh t s waits = elim (s.lock) [
  | none ↦ (record s { lock = some t }, checks)
  | some other ↦ (s, waits)
]
advance fresh t s checks = (s, elim (s.instance) [ none ↦ creates | some temp ↦ unlocks temp ])
advance fresh t s creates = (record s { made = s.made + 1 }, stores s.made)
advance fresh t s (stores temp) = (record s { instance = some temp }, flags temp)
advance fresh t s (flags temp) = (record s { supply_flag = true }, unlocks temp)
advance fresh t s (unlocks temp) = (record s { lock = none }, returns (some temp))
advance fresh t s (returns temp) = (s, returns temp)

pub record World : Type 0 where
  pub shared : Shared
  pub place : ℕ → Place

-- Threads in the order in which they are scheduled.
unfoldable pub turn : ℕ × Bool → World → World
turn (t, fresh) w =
    let next = advance fresh t w.shared (w.place t) in
    record { shared = next.0; place = λ u. if u == t then next.1 else w.place u }

unfoldable pub run : List (ℕ × Bool) → World → World
run [] w = w
run (t ∷ ts) w = run ts (turn t w)
