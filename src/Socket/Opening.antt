-- ===== src/Socket/Opening.antt =====
-- Which address a stream socket is made for, and what becomes of the descriptors.
use iot_drive.Shared.{
  ℕ, suc, ◌≡◌, refl, Bool, true, false, List, [], ◌∷◌, Option, none, some, ok, fault, if◌then◌else◌,
  ==_refl,
}
use iot_drive.Socket.{
  Role, server, client, Attempt, Socket, Made, made, undefined, thrown, close, try_addresses,
  new_stream_socket, new_tcp_socket, tcp_connect,
}

-- The first address at which the loop ends: its number, its descriptor, and whether its option was
-- set.
abbrev pub first_end : Role → List Attempt → ℕ → Option (ℕ × ℕ × Bool)
first_end role [] n = none
first_end role (a ∷ rest) n = elim (a.socket_fd) [
  | none ↦ first_end role rest (suc n)
  | some fd ↦
      if a.sets_option
      then elim role [
        | client ↦ some (n, fd, true)
        | server ↦ if a.binds then some (n, fd, true) else first_end server rest (suc n)
      ]
      else some (n, fd, false)
]

-- What the constructor and a TCPConnect then give.
abbrev pub Opened : Option (ℕ × ℕ × Bool) → Made → List ℕ → Type 0
Opened none m opened =
    (s : Socket) × (m ≡ made s opened) × (tcp_connect (new_tcp_socket s client) ≡ fault)
Opened (some (n, fd, true)) m opened =
    (s : Socket) × (m ≡ made s (fd ∷ opened))
    × (s ≡ record { socket_fd = some fd; addrinfo = some n })
    × (tcp_connect (new_tcp_socket s client) ≡ ok tt)
Opened (some (n, fd, false)) m opened = m ≡ thrown (fd ∷ opened)

close_opened : (fd : ℕ) (opened : List ℕ) → close fd (fd ∷ opened) ≡ opened
unfolding close
close_opened fd opened = rw (==_refl fd) refl

try_addresses-Opened :
    (role : Role) (addresses : List Attempt) (n : ℕ) (last : Option ℕ) (opened : List ℕ)
    → Opened (first_end role addresses n) (try_addresses role addresses n last opened) opened
unfolding try_addresses tcp_connect new_tcp_socket
try_addresses-Opened role [] n last opened =
    (record { socket_fd = last; addrinfo = none }, refl, refl)
try_addresses-Opened role (a ∷ rest) n last opened =
    by_result a.socket_fd a.sets_option a.binds role
      (λ l. try_addresses-Opened role rest (suc n) l opened)
  where
    by_result :
        (fd : Option ℕ) (sets binds : Bool) (role : Role)
        → ((l : Option ℕ)
            → Opened
                (first_end role rest (suc n))
                (try_addresses role rest (suc n) l opened)
                opened)
        → Opened
            (first_end role (record { socket_fd = fd; sets_option = sets; binds = binds } ∷ rest) n)
            (try_addresses role
              (record { socket_fd = fd; sets_option = sets; binds = binds } ∷ rest)
              n
              last
              opened)
            opened
    by_result none sets binds role ih = ih none
    by_result (some fd) false binds role ih = refl
    by_result (some fd) true binds client ih =
        (record { socket_fd = some fd; addrinfo = some n }, refl, refl, refl)
    by_result (some fd) true true server ih =
        (record { socket_fd = some fd; addrinfo = some n }, refl, refl, refl)
    by_result (some fd) true false server ih = rw (close_opened fd opened) (ih (some fd))

-- What the constructor gives in both cases of `getaddrinfo`.
abbrev pub MadeFor : Role → Option (List Attempt) → Made → List ℕ → Type 0
MadeFor role none m opened = m ≡ undefined
MadeFor role (some addresses) m opened = Opened (first_end role addresses 0) m opened

-- A stream socket is made for the first address of `getaddrinfo` that gives a descriptor and, on the
-- side of the server, is bound. Just this descriptor is open then beside those that were, and TCPConnect
-- has an address to use; an option that cannot be set ends the constructor by an exception and leaves
-- its descriptor open. If there are addresses and none serves, no exception tells of it: nothing
-- stays open, and TCPConnect follows the null pointer. If `getaddrinfo` fails, the constructor follows
-- a pointer that is not set.
pub new_stream_socket-Opened :
    (role : Role) (addresses : Option (List Attempt)) (socket_fd : Option ℕ) (opened : List ℕ)
    → MadeFor role addresses (new_stream_socket role addresses socket_fd opened) opened
unfolding new_stream_socket
new_stream_socket-Opened role none socket_fd opened = refl
new_stream_socket-Opened role (some addresses) socket_fd opened =
    try_addresses-Opened role addresses 0 socket_fd opened
