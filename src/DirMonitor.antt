-- ===== src/DirMonitor.antt =====
-- dirmonitor.hpp and dirmonitor.cpp: the thread that reads the events of the directory of plug-ins,
-- and the loader of the plug-ins. Bytes are read from the buffer that `read` fills, as they lie there.
pub mod Layout
pub mod Events
pub mod Loader
use iot_drive.Shared.{
  ℕ, zero, suc, ◌+◌, ◌-◌, ◌*◌, ◌/◌, ◌%◌, Bool, true, false, not, ◌&&◌, ◌||◌, List, [], ◌∷◌, ◌++◌,
  Option, none, some, Outcome, ok, throws, fault, bind, ltb, leb, ◌==◌, if◌then◌else◌, length, take,
  drop, replicate, codes, same_text,
}
use iot_drive.Buffer.{of_le}

abbrev pub event_size : ℕ
event_size = 16

abbrev pub event_buf_len : ℕ
event_buf_len = 1024 * (event_size + 16)

-- The bits IN_ATTRIB, IN_MOVED_TO and IN_CREATE of a mask.
abbrev pub in_attrib : ℕ → Bool
in_attrib mask = mask / 4 % 2 == 1

abbrev pub in_moved_to : ℕ → Bool
in_moved_to mask = mask / 128 % 2 == 1

abbrev pub in_create : ℕ → Bool
in_create mask = mask / 256 % 2 == 1

-- A field of four bytes that begins at byte `n` behind the pointer.
unfoldable pub load_word : ℕ → List ℕ → Outcome ℕ
load_word n p = if leb (n + 4) (length p) then ok (of_le (take 4 (drop n p))) else fault

-- The string at a pointer, up to its zero.
unfoldable pub c_string : List ℕ → Outcome (List ℕ)
c_string [] = fault
c_string (b ∷ bs) = if b == 0 then ok [] else bind (c_string bs) λ s. ok (b ∷ s)

-- One event: the end of Monitor, or the name that is notified, if any, and the step of `i`.
pub data Round : Type 0 where
  exits : Round
  goes_on : Option (List ℕ) → ℕ → Round

-- The test of the last three characters of the name, which begin 13 bytes behind the event and the
-- length of the name, and what depends on it.
unfoldable pub monitor_name : ℕ → ℕ → List ℕ → List ℕ → Outcome Round
monitor_name mask len p name = bind (c_string (drop (length name) (drop 13 p))) λ ending.
    if same_text ending (codes ".so")
    then ok (
        goes_on (if in_create mask || in_moved_to mask then some name else none) (event_size + len))
    else if same_text name (codes "exit.txt") && in_attrib mask
    then ok exits
    else ok (goes_on none (event_size + len))

-- The body of the inner loop at the event that `p` points to.
unfoldable pub monitor_event : List ℕ → Outcome Round
unfolding monitor_name
monitor_event p = bind (load_word 12 p) λ len.
    if len == 0
    then ok (goes_on none (event_size + len))
    else bind (load_word 4 p) λ mask. bind (c_string (drop event_size p)) (monitor_name mask len p)

-- What a thread of the monitor has done: the names that it has notified, and whether it has returned.
pub record Seen : Type 0 where
  pub names : List (List ℕ)
  pub returned : Bool

abbrev pub nothing_seen : Seen
nothing_seen = record { names = []; returned = false }

unfoldable pub note : Option (List ℕ) → Seen → Seen
note none s = s
note (some name) s = record s { names = name ∷ s.names }

-- `while(i < len)`: `left` bytes of the result of `read` lie at `p` and behind. A round takes at least
-- 16 of them, so that `left` rounds are enough; `none` is the lack of fuel.
unfoldable pub monitor_events : ℕ → ℕ → List ℕ → Outcome (Option Seen)
monitor_events zero left p = ok (if left == 0 then some nothing_seen else none)
monitor_events (suc fuel) left p =
    if left == 0
    then ok (some nothing_seen)
    else bind (monitor_event p) λ r. elim r [
      | exits ↦ ok (some (record { names = []; returned = true }))
      | goes_on name n ↦
          bind (monitor_events fuel (left - n) (drop n p))
            λ rest. ok (elim rest [ none ↦ none | some s ↦ some (note name s) ])
    ]

-- The array that a call of `read` leaves: its bytes and zeros behind them.
unfoldable pub event_buffer : List ℕ → List ℕ
event_buffer bytes = bytes ++ replicate (event_buf_len - length bytes) 0

-- Monitor over the results of its calls of `read`, with -1 as `none`; after the last one given the
-- thread waits in the next call.
unfoldable pub monitor : List (Option (List ℕ)) → Outcome (Option Seen)
monitor [] = ok (some nothing_seen)
monitor (none ∷ reads) = throws
monitor (some bytes ∷ reads) =
    bind (monitor_events (length bytes) (length bytes) (event_buffer bytes)) λ r. elim r [
      | none ↦ ok none
      | some s ↦
          if s.returned
          then ok (some s)
          else bind (monitor reads) λ rest.
            ok (elim rest [ none ↦ none | some t ↦ some (record t { names = s.names ++ t.names }) ])
    ]

-- `m_path + '/' + event->name`
unfoldable pub plugin_path : List ℕ → List ℕ → List ℕ
plugin_path dir name = dir ++ codes "/" ++ name

-- The descriptors of a monitor; -1 is `none`.
pub record DirMonitor : Type 0 where
  pub inotify_fd : Option ℕ
  pub watcher : Option ℕ

-- The constructor over the results of `inotify_init` and `inotify_add_watch`: both of its tests look
-- at the first.
unfoldable pub new_dir_monitor : Option ℕ → Option ℕ → Outcome DirMonitor
new_dir_monitor none watch = throws
new_dir_monitor (some fd) watch = ok (record { inotify_fd = some fd; watcher = watch })

-- The calls of the destructor: the `touch` of `exit.txt`, the wait for the thread, and what is closed.
pub data Call : Type 0 where
  touch_exit joins : Call
  rm_watch : ℕ → ℕ → Call
  closes : ℕ → Call

-- `if (fd > 0)`.
abbrev pub when_positive : Option ℕ → (ℕ → List Call) → List Call
when_positive none calls = []
when_positive (some zero) calls = []
when_positive (some (suc n)) calls = calls (suc n)

unfoldable pub drop_dir_monitor : DirMonitor → List Call
drop_dir_monitor m =
    touch_exit
      ∷ joins
      ∷ when_positive m.watcher
          (λ w. elim (m.inotify_fd) [ none ↦ [] | some fd ↦ rm_watch fd w ∷ [] ])
    ++ when_positive m.inotify_fd (λ fd. closes fd ∷ [])
