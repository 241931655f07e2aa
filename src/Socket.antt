-- ===== src/Socket.antt =====
-- socket.hpp and socket.cpp: which descriptors the classes of sockets open, use and close. The calls
-- of the operating system are parameters: what they give is -1, here `none`, or a number.
pub mod Opening
use iot_drive.Shared.{
  ℕ, suc, ◌-◌, Bool, true, false, List, [], ◌∷◌, ◌++◌, Option, none, some, Outcome, ok, throws,
  fault, bind, ◌==◌, if◌then◌else◌, lookup, erase,
}

pub data Role : Type 0 where
  server client : Role

-- What `socket`, `setsockopt` and `bind` give for one of the addresses of `getaddrinfo`.
pub record Attempt : Type 0 where
  pub socket_fd : Option ℕ
  pub sets_option : Bool
  pub binds : Bool

-- `m_socket_fd`, and `m_addrinfo` by its index in the list, which is null behind the end of it.
pub record Socket : Type 0 where
  pub socket_fd : Option ℕ
  pub addrinfo : Option ℕ

-- How a constructor ends, with the descriptors that the process has open.
pub data Made : Type 0 where
  made : Socket → List ℕ → Made
  -- `m_addrinfo` is followed although nothing has set it.
  undefined : Made
  -- By an exception of CheckAndLog.
  thrown : List ℕ → Made

unfoldable pub close : ℕ → List ℕ → List ℕ
close fd [] = []
close fd (g ∷ gs) = if g == fd then gs else g ∷ close fd gs

-- The loop over the addresses from number `n` on, with the descriptor that the last round has left.
unfoldable pub try_addresses : Role → List Attempt → ℕ → Option ℕ → List ℕ → Made
try_addresses role [] n last opened = made (record { socket_fd = last; addrinfo = none }) opened
try_addresses role (a ∷ rest) n last opened = elim (a.socket_fd) [
  | none ↦ try_addresses role rest (suc n) none opened
  | some fd ↦
      if a.sets_option
      then elim role [
        | client ↦ made (record { socket_fd = some fd; addrinfo = some n }) (fd ∷ opened)
        | server ↦
            let next = try_addresses role rest (suc n) (some fd) (close fd (fd ∷ opened)) in
            if a.binds
            then made (record { socket_fd = some fd; addrinfo = some n }) (fd ∷ opened)
            else next
      ]
      else thrown (fd ∷ opened)
]

-- The constructor of a stream socket, over the addresses that `getaddrinfo` gives, or its failure,
-- which nobody looks at: it leaves `m_addrinfo` as it was, and no constructor has set it.
unfoldable pub new_stream_socket : Role → Option (List Attempt) → Option ℕ → List ℕ → Made
new_stream_socket role none socket_fd opened = undefined
new_stream_socket role (some addresses) socket_fd opened =
    try_addresses role addresses 0 socket_fd opened

-- The constructor of a datagram socket: the result of `bind` is printed, and `m_addrinfo` is not set.
unfoldable pub new_datagram_socket : Role → Attempt → List ℕ → Made
new_datagram_socket role a opened = elim (a.socket_fd) [
  | none ↦ thrown opened
  | some fd ↦
      if a.sets_option
      then made (record { socket_fd = some fd; addrinfo = none }) (fd ∷ opened)
      else thrown (fd ∷ opened)
]

-- The destructor, with `m_open_sockets`, which no function enters anything into.
unfoldable pub drop_socket : Socket → List (ℕ × ℕ) → List ℕ → List (ℕ × ℕ) × List ℕ
drop_socket s open_sockets opened = elim (s.socket_fd) [
  | none ↦ (open_sockets, opened)
  | some fd ↦ elim (lookup fd open_sockets) [
    | none ↦ (open_sockets, opened)
    | some address ↦ (erase fd open_sockets, close fd opened)
  ]
]

-- TCPSocket beside its base.
pub record TcpSocket : Type 0 where
  pub base : Socket
  pub role : Role
  pub child_socket : Option ℕ

unfoldable pub new_tcp_socket : Socket → Role → TcpSocket
new_tcp_socket base role = record { base = base; role = role; child_socket = none }

-- NegativeCheck of an error handler.
unfoldable pub negative_check : Option ℕ → Outcome ℕ
negative_check none = throws
negative_check (some n) = ok n

-- TCPListen, over `listen`.
unfoldable pub tcp_listen : (Option ℕ → Option ℕ) → TcpSocket → Outcome ℕ
tcp_listen sys_listen s = negative_check (sys_listen s.base.socket_fd)

-- TCPConnect: `m_addrinfo` is followed, the result is not looked at.
unfoldable pub tcp_connect : TcpSocket → Outcome (Unit {0})
tcp_connect s = elim (s.base.addrinfo) [ none ↦ fault | some address ↦ ok tt ]

-- TCPAccept, over `accept`, which opens a descriptor.
unfoldable pub tcp_accept : (Option ℕ → Option ℕ) → TcpSocket → Outcome (ℕ × TcpSocket)
tcp_accept sys_accept s =
    let child = sys_accept s.base.socket_fd in
    bind (negative_check child) λ fd. ok (fd, record s { child_socket = child })

-- Send and Recive, over `send` and `recv` on a descriptor: the bytes that were sent or taken.
unfoldable pub tcp_send : (Option ℕ → List ℕ → Option ℕ) → List ℕ → TcpSocket → Outcome ℕ
tcp_send sys_send buffer s = negative_check (sys_send s.base.socket_fd buffer)

unfoldable pub tcp_receive : (Option ℕ → ℕ → Option (List ℕ)) → ℕ → TcpSocket → Outcome (List ℕ)
tcp_receive sys_recv size s =
    let rec_socket : Option ℕ = elim (s.role) [
      | server ↦ s.child_socket
      | client ↦ s.base.socket_fd
    ] in
    elim (sys_recv rec_socket size) [ none ↦ throws | some bytes ↦ ok bytes ]

-- Response: the descriptor that it writes to; the result is not looked at.
unfoldable pub tcp_response : TcpSocket → Option ℕ
tcp_response s = s.child_socket
