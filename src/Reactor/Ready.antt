-- ===== src/Reactor/Ready.antt =====
-- What Listen returns, and which handlers a round calls.
use iot_drive.Shared.{
  ℕ, ◌≡◌, refl, ap, ◌∙◌, Bool, true, false, ◌&&◌, ◌||◌, List, [], ◌∷◌, none, some, if◌then◌else◌,
  arith,
}
use iot_drive.Reactor.{
  Mode, read, write, Key, same, Reactor, find, enter, leave, register, unregister, Sets, collect,
  listen,
}

unfoldable pub contains : Key → List Key → Bool
contains k [] = false
contains k (j ∷ js) = same k j || contains k js

-- Ready in the mode of the key.
abbrev pub is_ready : Sets → Key → Bool
is_ready sets k = elim (k.mode) [ read ↦ sets.readable k.fd | write ↦ sets.writable k.fd ]

-- The sets know descriptors only.
fd_of_same :
    (sets : Sets) (fd : ℕ) (mode : Mode) (j : Key)
    → same (record { fd = fd; mode = mode }) j ≡ true
    → (sets.readable j.fd || sets.writable j.fd) ≡ (sets.readable fd || sets.writable fd)
fd_of_same sets fd mode j h =
    let e : j.fd ≡ fd = ground arith in ap (λ f. sets.readable f || sets.writable f) e

contains-collect :
    (sets : Sets) (fd : ℕ) (mode : Mode) (ks : List Key)
    → contains (record { fd = fd; mode = mode }) (collect sets ks)
      ≡ (contains (record { fd = fd; mode = mode }) ks && (sets.readable fd || sets.writable fd))
unfolding contains collect
contains-collect sets fd mode [] = refl
contains-collect sets fd mode (j ∷ js) =
    ground (arith, contains-collect sets fd mode js, fd_of_same sets fd mode j)

-- `select` leaves descriptors that were asked for.
pub record Asked (ks : List Key) (sets : Sets) : Type 0 where
  pub of_read :
      (fd : ℕ) → sets.readable fd ≡ true → contains (record { fd = fd; mode = read }) ks ≡ true
  pub of_write :
      (fd : ℕ) → sets.writable fd ≡ true → contains (record { fd = fd; mode = write }) ks ≡ true

find-enter :
    {H : Type 0} (k j : Key) (h : H) (m : List (Key × H))
    → find j (enter k h m) ≡ (if same k j then some h else find j m)
unfolding find enter
find-enter k j h [] = ground arith
find-enter k j h (e ∷ m) = ground (arith, find-enter k j h m)

find-leave :
    {H : Type 0} (k j : Key) (m : List (Key × H))
    → find j (leave k m) ≡ (if same k j then none else find j m)
unfolding find leave
find-leave k j [] = ground arith
find-leave k j (e ∷ m) = ground (arith, find-leave k j m)

-- The handler that is found under a key is the one registered last for its descriptor and mode, and
-- none after an Unregister; other keys keep theirs.
pub find-register :
    {H : Type 0} (k j : Key) (h : H) (r : Reactor H)
    → (find j (register k h r).handlers ≡ (if same k j then some h else find j r.handlers))
      × (find j (unregister k r).handlers ≡ (if same k j then none else find j r.handlers))
unfolding register unregister
find-register k j h r = (find-enter k j h r.handlers, find-leave k j r.handlers)

-- If no descriptor is registered in both modes, and `select` leaves descriptors that were asked for,
-- Listen returns just the keys that are registered and ready in their mode.
pub listen_lem :
    (ks : List Key) (sets : Sets) (k : Key)
    → Asked ks sets
    → ((fd : ℕ)
        → contains (record { fd = fd; mode = read }) ks ≡ true
        → contains (record { fd = fd; mode = write }) ks ≡ false)
    → contains k (listen (some sets) ks) ≡ (contains k ks && is_ready sets k)
unfolding listen
listen_lem ks sets k asked single = contains-collect sets k.fd k.mode ks ∙ by_mode k.mode
  where
    by_mode :
        (m : Mode)
        → (contains (record { fd = k.fd; mode = m }) ks
            && (sets.readable k.fd || sets.writable k.fd))
          ≡ (contains (record { fd = k.fd; mode = m }) ks
              && is_ready sets (record { fd = k.fd; mode = m }))
    by_mode read = ground (arith, asked.of_write k.fd, single k.fd)
    by_mode write = ground (arith, asked.of_read k.fd, single k.fd)

-- A descriptor that is registered in both modes and is readable only is returned for writing too.
pub listen_other_mode :
    (ks : List Key) (sets : Sets) (fd : ℕ)
    → contains (record { fd = fd; mode = write }) ks ≡ true
    → sets.readable fd ≡ true
    → sets.writable fd ≡ false
    → (is_ready sets (record { fd = fd; mode = write }) ≡ false)
      × (contains (record { fd = fd; mode = write }) (listen (some sets) ks) ≡ true)
unfolding listen
listen_other_mode ks sets fd both ready not_ready =
    (not_ready, contains-collect sets fd write ks ∙ ground (arith, both, ready))
