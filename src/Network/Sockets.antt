-- ===== src/Network/Sockets.antt =====
-- src/network/socket_utils.cpp: the calls that set a socket up. What each system call answers is an
-- argument, with the text of `strerror` where it fails; `trace` records the calls that are made.
use market_networks.Protocol.Integer.{to_string}
use market_networks.Base.{
  Bool, List, Option, Text, [], arith, codes, false, if◌then◌else◌, ltb, none, some, text_eq, true,
  ℕ, ◌%◌, ◌++◌, ◌==◌, ◌^◌, ◌||◌, ◌↔◌, ◌∷◌, ◌≡◌,
}

-- The calls that are recorded; each carries its descriptor first.
pub data SystemCall : Type 0 where
  opened closed : ℕ → SystemCall
  reuse_address nonblocking no_delay shut_down : ℕ → SystemCall
  send_buffer : ℕ → ℕ → SystemCall
  bound connected_to : ℕ → ℕ → ℕ → SystemCall
  listening : ℕ → ℕ → SystemCall

-- A call that fails with a text, or succeeds.
pub data Answer : Type 0 where
  succeeded : Answer
  failed : Text → Answer

-- The answer of `socket`.
pub data SocketAnswer : Type 0 where
  socket_fd : ℕ → SocketAnswer
  no_socket : Text → SocketAnswer

-- What `getaddrinfo` answers.
pub data Lookup : Type 0 where
  address : ℕ → Lookup
  unresolved : Text → Lookup

-- The answers of the calls of `fcntl` in `set_nonblocking`: F_GETFL, then F_SETFL.
unfoldable pub set_nonblocking : Answer → Answer → Answer
set_nonblocking (failed why) set = failed why
set_nonblocking succeeded set = set

-- The answer of `setsockopt`.
unfoldable pub set_tcp_nodelay : Answer → Bool
set_tcp_nodelay succeeded = true
set_tcp_nodelay (failed why) = false

-- `getrlimit`, `setrlimit` and `getrlimit` again: the soft and the hard limit before, the soft limit
-- after; `none` is -1.
unfoldable pub raise_fd_limit : Option (ℕ × ℕ) → (ℕ → ℕ) → Option ℕ
raise_fd_limit none set = none
raise_fd_limit (some (soft, hard)) set = some (if ltb soft hard then set hard else soft)

-- The bytes that the kernel applies; `none` is -1.
unfoldable pub set_send_buffer : Answer → Option ℕ → Option ℕ
set_send_buffer (failed why) applied = none
set_send_buffer succeeded applied = applied

-- `getpeername` and `inet_ntop` together give the address's text and the port, or fail.
unfoldable pub peer_name : Option (Text × ℕ) → Text
unfolding to_string
peer_name none = codes "<unknown>"
peer_name (some (host, port)) = host ++ (codes ":" ++ to_string port)

-- INADDR_ANY
abbrev pub any_address : ℕ
any_address = 0

-- A step that fails closes the descriptor and gives -1.
unfoldable pub give_up : ℕ → Text → Text → List SystemCall → Option ℕ × Text × List SystemCall
give_up fd what why trace = (none, what ++ why, trace ++ closed fd ∷ [])

-- `inet_pton` and `getaddrinfo` are parameters.
module _ (inet_pton : Text → Option ℕ) (getaddrinfo : Text → Lookup) where
  unfoldable pub resolve_ipv4 : Text → Lookup
  unfolding text_eq
  resolve_ipv4 host =
      if text_eq host [] || text_eq host (codes "*")
      then address any_address
      else elim (inet_pton host) [
        | some a ↦ address a
        | none ↦ elim (getaddrinfo host) [
          | address a ↦ address a
          | unresolved why ↦
              unresolved (codes "cannot resolve host '" ++ (host ++ (codes "': " ++ why)))
        ]
      ]

  -- The descriptor, `err`, and the calls made. The port goes through `uint16_t`.
  unfoldable pub create_listening_socket :
      Text
      → ℕ
      → ℕ
      → SocketAnswer
      → Answer
      → Answer
      → Answer
      → Answer
      → Option ℕ × Text × List SystemCall
  unfolding resolve_ipv4 give_up set_nonblocking
  create_listening_socket host port backlog socket bind listen get_flags set_flags =
      elim (resolve_ipv4 host) [
        | unresolved why ↦ (none, why, [])
        | address a ↦ elim socket [
          | no_socket why ↦ (none, codes "socket() failed: " ++ why, [])
          | socket_fd fd ↦
              let made = opened fd ∷ reuse_address fd ∷ bound fd a (port % 2 ^ 16) ∷ [] in
              elim bind [
                | failed why ↦ give_up fd (codes "bind() failed: ") why made
                | succeeded ↦
                    let listened = made ++ listening fd backlog ∷ [] in
                    elim listen [
                      | failed why ↦ give_up fd (codes "listen() failed: ") why listened
                      | succeeded ↦
                          let set = listened ++ nonblocking fd ∷ [] in
                          elim (set_nonblocking get_flags set_flags) [
                            | failed why ↦ give_up fd (codes "fcntl(O_NONBLOCK) failed: ") why set
                            | succeeded ↦ (some fd, [], set)
                          ]
                    ]
              ]
        ]
      ]

  unfoldable pub connect_to : Text → ℕ → SocketAnswer → Answer → Option ℕ × Text × List SystemCall
  unfolding resolve_ipv4 give_up text_eq
  connect_to host port socket connect =
      elim (resolve_ipv4 (if text_eq host [] then codes "127.0.0.1" else host)) [
        | unresolved why ↦ (none, why, [])
        | address a ↦ elim socket [
          | no_socket why ↦ (none, codes "socket() failed: " ++ why, [])
          | socket_fd fd ↦
              let made = opened fd ∷ connected_to fd a (port % 2 ^ 16) ∷ [] in
              elim connect [
                | failed why ↦ give_up fd (codes "connect() failed: ") why made
                | succeeded ↦ (some fd, [], made)
              ]
        ]
      ]

abbrev pub is_address : Lookup → Bool
is_address (address a) = true
is_address (unresolved why) = false

abbrev pub is_closed : ℕ → List SystemCall → Bool
is_closed fd [] = false
is_closed fd (closed k ∷ calls) = k == fd || is_closed fd calls
is_closed fd (_ ∷ calls) = is_closed fd calls

-- The descriptors that a trace opens and does not close afterwards.
abbrev pub left_open : List SystemCall → List ℕ
left_open [] = []
left_open (opened fd ∷ calls) =
    let rest = left_open calls in if is_closed fd calls then rest else fd ∷ rest
left_open (_ ∷ calls) = left_open calls

-- What a set-up comes to: the descriptor that it gives is the one it leaves open; where it fails it
-- leaves none open.
abbrev pub IsClean : Option ℕ × Text × List SystemCall → Type 0
IsClean (none, err, trace) = left_open trace ≡ []
IsClean (some fd, err, trace) = (left_open trace ≡ fd ∷ []) × (err ≡ [])

module _ (inet_pton : Text → Option ℕ) (getaddrinfo : Text → Lookup) (host : Text) (port : ℕ)
    (socket : SocketAnswer) where
  -- Setting up a listening socket and connecting leak no descriptor: on every path that fails, the
  -- descriptor opened is closed again, and on success the one given is the only one left open. Each
  -- succeeds exactly if the address is resolved and every call succeeds.
  pub sockets-IsClean :
      (backlog fd : ℕ) (bind listen get_flags set_flags connect : Answer)
      → let made =
          create_listening_socket inet_pton getaddrinfo host port backlog socket bind listen
            get_flags set_flags in
        let joined = connect_to inet_pton getaddrinfo host port socket connect in
        IsClean made
        × IsClean joined
        × ((made.0 ≡ some fd) ↔ (
            (is_address (resolve_ipv4 inet_pton getaddrinfo host) ≡ true)
            × (socket ≡ socket_fd fd)
            × (bind ≡ succeeded)
            × (listen ≡ succeeded)
            × (set_nonblocking get_flags set_flags ≡ succeeded)))
        × ((joined.0 ≡ some fd) ↔ (
            (is_address (
                resolve_ipv4 inet_pton getaddrinfo
                  (if text_eq host [] then codes "127.0.0.1" else host))
              ≡ true)
            × (socket ≡ socket_fd fd)
            × (connect ≡ succeeded)))
  unfolding create_listening_socket connect_to set_nonblocking
  sockets-IsClean backlog fd bind listen get_flags set_flags connect =
      (ground arith, ground arith, (ground arith), (ground arith))
