-- ===== src/Reactor.antt =====
-- reactor.hpp and reactor.cpp: handlers of descriptors that are ready, and FDListen, which asks
-- `select` for them. The order of an unordered map is not specified: the list of the handlers has a
-- new key at its end, and nothing that is stated depends on the order.
pub mod Ready
use iot_drive.Shared.{
  ℕ, Bool, true, false, not, ◌&&◌, ◌||◌, List, [], ◌∷◌, Option, none, some, Outcome, ok, bind, map,
  ◌==◌, if◌then◌else◌,
}

pub data Mode : Type 0 where
  read write : Mode

pub record Key : Type 0 where
  pub fd : ℕ
  pub mode : Mode

abbrev pub same_mode : Mode → Mode → Bool
same_mode read read = true
same_mode write write = true
same_mode read write = false
same_mode write read = false

abbrev pub same : Key → Key → Bool
same a b = a.fd == b.fd && same_mode a.mode b.mode

pub record Reactor (H : Type 0) : Type 0 where
  pub handlers : List (Key × H)
  pub is_stopped : Bool

module _ {H : Type 0} where
  unfoldable pub find : Key → List (Key × H) → Option H
  find k [] = none
  find k (entry ∷ rest) = if same k (entry.0) then some (entry.1) else find k rest

  unfoldable pub enter : Key → H → List (Key × H) → List (Key × H)
  enter k h [] = (k, h) ∷ []
  enter k h (entry ∷ rest) = if same k (entry.0) then (k, h) ∷ rest else entry ∷ enter k h rest

  unfoldable pub leave : Key → List (Key × H) → List (Key × H)
  leave k [] = []
  leave k (entry ∷ rest) = if same k (entry.0) then leave k rest else entry ∷ leave k rest

  unfoldable pub register : Key → H → Reactor H → Reactor H
  register k h r = record r { handlers = enter k h r.handlers }

  unfoldable pub unregister : Key → Reactor H → Reactor H
  unregister k r = record r { handlers = leave k r.handlers }

  unfoldable pub stop : Reactor H → Reactor H
  stop r = record r { is_stopped = true }

  -- A handler acts on the reactor and on a state `S` of its own, or throws.
  module _ {S : Type 0} (act : H → Key → Reactor H × S → Outcome (Reactor H × S)) where
    -- The end of a round of Run: each ready key is looked up when its turn comes.
    unfoldable pub dispatch : List Key → Reactor H × S → Outcome (Reactor H × S)
    dispatch [] w = ok w
    dispatch (k ∷ ks) w =
        bind (elim (find k (w.0).handlers) [ none ↦ ok w | some h ↦ act h k w ]) (dispatch ks)

    unfoldable pub round : (List Key → List Key) → Reactor H × S → Outcome (Reactor H × S)
    round listen w = dispatch (listen (map (λ e. e.0) (w.0).handlers)) w

    -- Run, with what the listener does in each round: whether the loop has ended, and the state.
    unfoldable pub run :
        List (List Key → List Key) → Reactor H × S → Outcome (Bool × (Reactor H × S))
    run [] w = ok ((w.0).is_stopped, w)
    run (listen ∷ listens) w = elim ((w.0).is_stopped) [
      | true ↦ ok (true, w)
      | false ↦ bind (round listen w) (run listens)
    ]

-- The sets that `select` leaves, of readable and of writable descriptors.
pub record Sets : Type 0 where
  pub readable : ℕ → Bool
  pub writable : ℕ → Bool

-- The loop that collects the result: a key whose descriptor is in either set.
unfoldable pub collect : Sets → List Key → List Key
collect sets [] = []
collect sets (k ∷ ks) =
    let rest = collect sets ks in
    if sets.readable k.fd || sets.writable k.fd then k ∷ rest else rest

-- Listen; `none` is a result of `select` that is not positive, upon which all keys are returned.
unfoldable pub listen : Option Sets → List Key → List Key
listen none ks = ks
listen (some sets) ks = collect sets ks
