-- ===== src/Scheduler/Times.antt =====
-- The times of the scheduler, in milliseconds, seconds and nanoseconds.
use iot_drive.Shared.{ℕ, ◌≤◌, ◌<◌, ◌≡◌, true, false, ◌⊎◌, ltb, arith}
use iot_drive.Scheduler.{Time, Item, earlier, time_of, comparator}

-- Seconds and nanoseconds order the times just as the milliseconds that they are made from do, and
-- are a time of timer_settime: less than 10^9 nanoseconds.
pub earlier-time_of :
    (a b : ℕ) → (earlier (time_of a) (time_of b) ≡ ltb a b) × ((time_of a).nsec < 1000000000)
unfolding earlier time_of
earlier-time_of a b = (ground arith, omega arith)

-- `a` is no later than `b`.
abbrev pub NotLater : Time → Time → Type 0
NotLater a b = (a.sec < b.sec) ⊎ ((a.sec ≡ b.sec) × (a.nsec ≤ b.nsec))

pub earlier-NotLater : (a b : Time) → earlier a b ≡ true → NotLater a b
unfolding earlier
earlier-NotLater a b h = ground arith

pub late-NotLater : (a b : Time) → earlier a b ≡ false → NotLater b a
unfolding earlier
late-NotLater a b h = ground arith

pub NotLater-trans : (a b c : Time) → NotLater a b → NotLater b c → NotLater a c
NotLater-trans a b c h k = ground arith

pub comparator-behind : {A : Type 0} (x y : Item A) → comparator y x ≡ true → NotLater x.time y.time
unfolding comparator earlier
comparator-behind x y h = ground arith

pub comparator-ahead : {A : Type 0} (x y : Item A) → comparator y x ≡ false → NotLater y.time x.time
unfolding comparator earlier
comparator-ahead x y h = ground arith
