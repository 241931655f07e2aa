-- ===== src/Queue.antt =====
-- priority_queue.hpp: WaitableQueue over PQ, which adapts std::priority_queue. A priority queue is
-- the list of its items in the order in which they will be popped. `after a b` is the comparator:
-- `a` goes behind `b`. Which of two items of the same rank comes first is left open by the heap.
pub mod Order
use iot_drive.Shared.{Bool, true, false, List, [], ◌∷◌, Option, none, some, if◌then◌else◌}

unfoldable pub push {ℓ} : {A : Type ℓ} → (A → A → Bool) → A → List A → List A
push after x [] = x ∷ []
push after x (y ∷ ys) = let rest = push after x ys in if after y x then x ∷ y ∷ ys else y ∷ rest

unfoldable pub is_empty {ℓ} : {A : Type ℓ} → List A → Bool
is_empty [] = true
is_empty (x ∷ xs) = false

-- The timed Pop: -2 if the mutex was not had in time, -1 if the queue stayed empty, 0 else.
pub data Popped {ℓ} (A : Type ℓ) : Type ℓ where
  lock_timeout : Popped A
  stayed_empty : Popped A
  popped : A → List A → Popped A

unfoldable pub pop_timed {ℓ} : {A : Type ℓ} → Bool → List A → Popped A
pop_timed false q = lock_timeout
pop_timed true [] = stayed_empty
pop_timed true (x ∷ xs) = popped x xs

-- The blocking Pop, in its caller's place: it waits on an empty queue.
unfoldable pub pop {ℓ} : {A : Type ℓ} → List A → Option (A × List A)
pop [] = none
pop (x ∷ xs) = some (x, xs)
