-- ===== src/Message/Identity.antt =====
-- ThreadSafeUID: identifiers drawn from a process-wide counter, and their bytes.
use iot_drive.Shared.{
  ℕ, ◌+◌, ◌%◌, ◌^◌, Bool, true, false, not, ◌||◌, ◌==◌, ltb, if◌then◌else◌, Outcome, ok, throws,
}
use iot_drive.Buffer.{M, pure, ◌>>=◌, ◌>>◌, put, get_word, to_le}

-- `m_pid` is kept as the bit pattern of the `pid_t`.
pub record Uid : Type 0 where
  pub unique_counter : ℕ
  pub timestamp : ℕ
  pub pid : ℕ
  pub ip : ℕ

-- The constructor: `counter` is the bit pattern of `m_static_counter`, `now` is the value of
-- `time(nullptr)` as a `u_int64_t`. NegativeCheck takes the time as an `int`.
unfoldable pub new_uid : ℕ → ℕ → ℕ → Outcome (Uid × ℕ)
new_uid counter now pid =
    if ltb (now % 2 ^ 32) (2 ^ 31)
    then ok (
      record { unique_counter = counter; timestamp = now; pid = pid; ip = (counter + 1) % 2 ^ 32 },
      (counter + 1) % 2 ^ 32,
    )
    else throws

-- operator==. `difftime` is the difference of two times, 0 for equal ones alone.
unfoldable pub uid_eq : Uid → Uid → Bool
uid_eq u v =
    if not (u.unique_counter == v.unique_counter)
      || not (u.timestamp == v.timestamp)
      || not (u.pid == v.pid)
      || not (u.ip == v.ip)
    then false
    else true

unfoldable pub uid_to_buffer : Uid → M (Unit {0})
uid_to_buffer u = do
  put (to_le 4 u.unique_counter)
  put (to_le 8 u.timestamp)
  put (to_le 4 u.pid)
  put (to_le 8 u.ip)

unfoldable pub uid_from_buffer : M Uid
uid_from_buffer = do
  counter ← get_word 4
  timestamp ← get_word 8
  pid ← get_word 4
  ip ← get_word 8
  pure (record { unique_counter = counter; timestamp = timestamp; pid = pid; ip = ip })

unfoldable pub uid_buffer_size : ℕ
uid_buffer_size = 4 + 8 + 4 + 8
