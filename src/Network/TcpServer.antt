-- ===== src/Network/TcpServer.antt =====
-- src/network/tcp_server.cpp: the listening socket. What the system calls answer is an argument, with the
-- text of `strerror` where the code uses it; the calls made are recorded.
use market_networks.Base.{
  Bool, List, Option, Text, [], arith, codes, false, if◌then◌else◌, none, some, true, ℕ, ◌&&◌, ◌++◌,
  ◌||◌, ◌∷◌, ◌≡◌,
}
use market_networks.Network.Sockets.{
  SystemCall, opened, closed, nonblocking, no_delay, Answer, SocketAnswer, Lookup, peer_name,
  create_listening_socket, set_nonblocking, left_open,
}

pub record TcpServer : Type 0 where
  pub host : Text
  pub port : ℕ
  -- `none` is -1.
  pub fd : Option ℕ
  pub error : Text

unfoldable pub tcp_server : Text → ℕ → TcpServer
tcp_server host port = record { host = host; port = port; fd = none; error = [] }

module _ (inet_pton : Text → Option ℕ) (getaddrinfo : Text → Lookup) where
  -- Whether the server listens, the server, and the calls made; the error is written on failure only.
  unfoldable pub start :
      ℕ
      → SocketAnswer
      → Answer
      → Answer
      → Answer
      → Answer
      → TcpServer
      → Bool × TcpServer × List SystemCall
  unfolding create_listening_socket
  start backlog socket bind listen get_flags set_flags l =
      let (fd, why, calls) =
        create_listening_socket inet_pton getaddrinfo l.host l.port backlog socket bind listen
          get_flags set_flags in
      elim fd [
        | none ↦ (false, record l { fd = none; error = why }, calls)
        | some k ↦ (true, record l { fd = some k }, calls)
      ]

-- The destructor.
unfoldable pub close_server : TcpServer → List SystemCall
close_server l = elim l.fd [ none ↦ [] | some fd ↦ closed fd ∷ [] ]

-- The `errno` of an `accept` that fails.
pub data AcceptErrno : Type 0 where
  eagain ewouldblock econnaborted eintr emfile enfile enobufs enomem other_errno : AcceptErrno

unfoldable pub would_block : AcceptErrno → Bool
would_block eagain = true
would_block ewouldblock = true
would_block _ = false

unfoldable pub is_aborted : AcceptErrno → Bool
is_aborted econnaborted = true
is_aborted eintr = true
is_aborted _ = false

unfoldable pub is_exhausted : AcceptErrno → Bool
is_exhausted emfile = true
is_exhausted enfile = true
is_exhausted enobufs = true
is_exhausted enomem = true
is_exhausted _ = false

-- What `accept` comes to, and where it gives a descriptor, `fcntl` and `inet_ntop` after it: the address
-- and the port of the peer.
pub data AcceptCall : Type 0 where
  connected : ℕ → Option (Text × ℕ) → AcceptCall
  fcntl_failed : ℕ → Text → AcceptCall
  not_accepted : AcceptErrno → Text → AcceptCall

-- The result of `accept_connection`: the descriptor, `again`, `exhausted` and the peer's name.
pub record Accepted : Type 0 where
  pub fd : Option ℕ
  pub again : Bool
  pub exhausted : Bool
  pub peer : Text

-- No connection.
unfoldable pub nobody : Bool → Bool → Accepted
nobody again exhausted = record { fd = none; again = again; exhausted = exhausted; peer = [] }

unfoldable pub accept_failed : Text → TcpServer → TcpServer
accept_failed why l = record l { error = codes "accept() failed: " ++ why }

unfoldable pub accept_connection : AcceptCall → TcpServer → Accepted × TcpServer × List SystemCall
unfolding nobody accept_failed peer_name would_block is_aborted is_exhausted
accept_connection (connected fd peer) l = (
  record { fd = some fd; again = false; exhausted = false; peer = peer_name peer },
  l,
  opened fd ∷ nonblocking fd ∷ no_delay fd ∷ [],
)
accept_connection (fcntl_failed fd why) l = (
  nobody false false,
  record l { error = codes "fcntl(O_NONBLOCK) failed: " ++ why },
  opened fd ∷ nonblocking fd ∷ closed fd ∷ [],
)
accept_connection (not_accepted errno why) l =
    if would_block errno
    then (nobody true false, l, [])
    else if is_aborted errno
    then (nobody false false, l, [])
    else if is_exhausted errno
    then (nobody false true, accept_failed why l, [])
    else (nobody false false, accept_failed why l, [])

-- The descriptors that a server keeps.
abbrev pub kept : Option ℕ → List ℕ
kept none = []
kept (some fd) = fd ∷ []

abbrev pub is_open : Option ℕ → Bool
is_open none = false
is_open (some fd) = true

-- The text that a call of `accept_connection` reports; where it reports none, the last one stays.
abbrev pub error_after : AcceptCall → Text → Text
error_after (fcntl_failed fd why) last = codes "fcntl(O_NONBLOCK) failed: " ++ why
error_after (connected fd peer) last = last
error_after (not_accepted eagain why) last = last
error_after (not_accepted ewouldblock why) last = last
error_after (not_accepted econnaborted why) last = last
error_after (not_accepted eintr why) last = last
error_after (not_accepted _ why) last = codes "accept() failed: " ++ why

-- A listening socket from its creation to its destruction, however the system calls answer. `start`
-- succeeds exactly if there is a socket afterwards, and the destructor closes it: nothing stays open. A
-- call of `accept_connection` leaves open the descriptor that it gives and no other, keeps the
-- listening socket, gives a descriptor only with neither flag set, never sets both, and changes the
-- error text only where it reports one.
pub start-accept_connection :
    (inet_pton : Text → Option ℕ) (getaddrinfo : Text → Lookup) (backlog : ℕ)
    (socket : SocketAnswer) (bind listen get_flags set_flags : Answer) (l : TcpServer)
    (call : AcceptCall)
    → let (ok, m, made) =
        start inet_pton getaddrinfo backlog socket bind listen get_flags set_flags l in
      let (r, m', taken) = accept_connection call m in
      (ok ≡ is_open m.fd)
      × (left_open (made ++ close_server m) ≡ [])
      × (left_open taken ≡ kept r.fd)
      × (m'.fd ≡ m.fd)
      × ((is_open r.fd && (r.again || r.exhausted)) ≡ false)
      × ((r.again && r.exhausted) ≡ false)
      × (m'.error ≡ error_after call m.error)
unfolding start close_server create_listening_socket set_nonblocking accept_connection
start-accept_connection inet_pton getaddrinfo backlog socket bind listen get_flags set_flags l
      call =
    (
      ground arith,
      ground arith,
      ground arith,
      ground arith,
      ground arith,
      ground arith,
      ground arith,
    )
