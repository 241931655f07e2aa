-- ===== src/Response/Refinement.antt =====
-- The watchlist as the set of the keys that are answered and not yet asked for.
use iot_drive.Shared.{
  ℕ, ◌≡◌, Bool, true, false, not, ◌&&◌, ◌||◌, none, some, ok, lookup, lookup-insert, lookup-erase,
  ◌==◌, arith,
}
use iot_drive.Message.Identity.{Uid}
use iot_drive.Response.{
  processing_request, done, Watchlist, register_command, register_response, has_response_recived,
}

-- The abstract state: is the key answered?
abbrev pub answered : Watchlist → ℕ → Bool
answered w k = elim (lookup k w) [
  | none ↦ false
  | some processing_request ↦ false
  | some done ↦ true
]

-- RegisterResponse adds its key to the set and changes nothing else.
pub answered-register_response :
    (uid : Uid) (w : Watchlist) (k : ℕ)
    → answered (register_response uid w) k ≡ (uid.unique_counter == k || answered w k)
unfolding register_response
answered-register_response uid w k = ground (arith, lookup-insert uid.unique_counter k done w)

-- HasResponseRecived tells whether its key is in the set, and takes that key out of it.
pub answered-has_response_recived :
    (uid : Uid) (w : Watchlist)
    → ((has_response_recived uid w).0 ≡ answered w uid.unique_counter)
      × ((k : ℕ)
          → answered (has_response_recived uid w).1 k
            ≡ (not (uid.unique_counter == k) && answered w k))
unfolding has_response_recived
answered-has_response_recived uid w = (
  ground arith,
  λ k. ground (
    arith,
    lookup-insert uid.unique_counter k processing_request w,
    lookup-erase uid.unique_counter k w,
  ),
)

-- RegisterCommand takes the key of its new UID out of the set and changes nothing else.
pub answered-register_command :
    (counter now pid : ℕ) (w : Watchlist) (uid : Uid) (counter' : ℕ) (w' : Watchlist) (k : ℕ)
    → register_command counter now pid w ≡ ok (uid, counter', w')
    → answered w' k ≡ (not (uid.unique_counter == k) && answered w k)
unfolding register_command
answered-register_command counter now pid w uid counter' w' k e =
    ground (arith, lookup-insert uid.unique_counter k processing_request w)

pub answered_last :
    (u : Uid) (w : Watchlist) → answered (register_response u w) u.unique_counter ≡ true
answered_last u w = ground (arith, answered-register_response u w u.unique_counter)

pub answered_before :
    (u v : Uid) (w : Watchlist)
    → answered (register_response v (register_response u w)) u.unique_counter ≡ true
answered_before u v w = ground (
  arith,
  answered-register_response v (register_response u w) u.unique_counter,
  answered_last u w,
)
