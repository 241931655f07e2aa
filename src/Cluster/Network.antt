-- ===== src/Cluster/Network.antt =====
-- The cluster over a network that keeps, loses, repeats and reorders datagrams, as UDP may: what
-- happens to it is a list of events. A minion runs the command of a datagram before the next is served;
-- what two threads of a minion can do to each other is in Command.Race.
pub mod Datagrams
pub mod Served
pub mod Lossy
pub mod SingleWrite
use iot_drive.Shared.{ℕ, zero, suc, Bool, List, [], ◌∷◌, Option, none, some, Outcome, ok, bind}
use iot_drive.Proxy.{Memory}
use iot_drive.Proxy.ResponseProxy
use iot_drive.Proxy.ResponseProxy.{Master}
use iot_drive.Command.{Minion, minion_serve}
use iot_drive.Cluster.{update}

-- Requests on their way, each with its minion, and answers on their way to the master.
pub record Net : Type 0 where
  pub master : Master
  pub minions : ℕ → Minion
  pub requests : List (ℕ × List ℕ)
  pub answers : List (List ℕ)

-- A request by its place in the list reaches its minion, which serves it; an answer reaches the master;
-- or a datagram gets lost, or is there twice.
pub data Event : Type 0 where
  serves takes : ℕ → Event
  loses_request repeats_request : ℕ → Event
  loses_answer repeats_answer : ℕ → Event

abbrev pub behind {ℓ} : {A : Type ℓ} → A → Option (A × List A) → Option (A × List A)
behind x none = none
behind x (some (y, ys)) = some (y, x ∷ ys)

-- An element by its place, and the others.
unfoldable pub pick {ℓ} : {A : Type ℓ} → ℕ → List A → Option (A × List A)
pick i [] = none
pick zero (x ∷ xs) = some (x, xs)
pick (suc i) (x ∷ xs) = behind x (pick i xs)

unfoldable pub serve_request : Bool → Memory → ℕ × List ℕ → Net → Outcome Net
serve_request debug mem (k, packet) c =
    bind (minion_serve debug mem packet (c.minions k))
      λ r. ok (record c { minions = update c.minions k (r.1); answers = r.0 ∷ c.answers })

unfoldable pub take_answer : Bool → Memory → List ℕ → Net → Outcome Net
take_answer debug mem packet c =
    bind (ResponseProxy.get_args_key debug mem packet c.master) λ r. ok (record c { master = r.1 })

unfoldable pub step : Bool → Memory → Event → Net → Outcome Net
step debug mem (serves i) c = elim (pick i c.requests) [
  | none ↦ ok c
  | some (d, rest) ↦ serve_request debug mem d (record c { requests = rest })
]
step debug mem (takes i) c = elim (pick i c.answers) [
  | none ↦ ok c
  | some (packet, rest) ↦ take_answer debug mem packet (record c { answers = rest })
]
step debug mem (loses_request i) c = elim (pick i c.requests) [
  | none ↦ ok c
  | some (d, rest) ↦ ok (record c { requests = rest })
]
step debug mem (repeats_request i) c = elim (pick i c.requests) [
  | none ↦ ok c
  | some (d, rest) ↦ ok (record c { requests = d ∷ c.requests })
]
step debug mem (loses_answer i) c = elim (pick i c.answers) [
  | none ↦ ok c
  | some (packet, rest) ↦ ok (record c { answers = rest })
]
step debug mem (repeats_answer i) c = elim (pick i c.answers) [
  | none ↦ ok c
  | some (packet, rest) ↦ ok (record c { answers = packet ∷ c.answers })
]

unfoldable pub run : Bool → Memory → List Event → Net → Outcome Net
run debug mem [] c = ok c
run debug mem (e ∷ es) c = bind (step debug mem e c) (run debug mem es)
