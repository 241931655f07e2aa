-- ===== src/Response.antt =====
-- response_manger.hpp and response_manger.cpp: which requests have been answered.
pub mod Refinement
use iot_drive.Shared.{
  ℕ, ◌≡◌, Bool, true, false, List, Option, none, some, Outcome, ok, throws, fault, lookup, insert,
  erase,
}
use iot_drive.Message.Identity.{Uid, new_uid}

pub data Status : Type 0 where
  processing_request done : Status

abbrev pub Watchlist : Type 0
Watchlist = List (ℕ × Status)

-- `m_watchlist[key] = PROCESSING_REQUEST` for a fresh UID; the counter, time and process id are
-- those of its constructor.
unfoldable pub register_command : ℕ → ℕ → ℕ → Watchlist → Outcome (Uid × ℕ × Watchlist)
register_command counter now pid w = elim (new_uid counter now pid) [
  | ok (uid, counter') ↦ ok (uid, counter', insert uid.unique_counter processing_request w)
  | throws ↦ throws
  | fault ↦ fault
]

unfoldable pub register_response : Uid → Watchlist → Watchlist
register_response uid w = insert uid.unique_counter done w

-- `if (m_watchlist[key])`: a missing key is entered with the value 0, PROCESSING_REQUEST.
unfoldable pub has_response_recived : Uid → Watchlist → Bool × Watchlist
has_response_recived uid w = elim (lookup uid.unique_counter w) [
  | none ↦ (false, insert uid.unique_counter processing_request w)
  | some processing_request ↦ (false, w)
  | some done ↦ (true, erase uid.unique_counter w)
]
