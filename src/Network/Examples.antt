-- ===== src/Network/Examples.antt =====
-- The theorems about framing, the client connection and the event loop at concrete inputs.
use market_networks.Base.{
  Bool, List, Option, Text, [], arith, codes, false, if◌then◌else◌, none, refl, some, text_eq, true,
  ℕ, ◌&&◌, ◌++◌, ◌==◌, ◌||◌, ◌↔◌, ◌∷◌, ◌≡◌,
}
use market_networks.Base.Assoc.{insert}
use market_networks.Network.Framing.{IsLine, drain_lines, drain_lines-append}
use market_networks.Network.TcpClient.Sending.{send_message-wire, send_message-delivers}
use market_networks.Network.TcpClient.Receiving.{receive_messages-stream}
use market_networks.Network.TcpClient.{
  TcpClient, SendAnswer, wrote, interrupted, would_block, RecvAnswer, received, recv_interrupted,
  closed, delivered, send_message, receive_messages, stream,
}
use market_networks.Network.EventLoop.{
  kqueue, Event, EventLoop, Change, read_filter, write_filter, interest_of, kq_apply, kq_remove,
  event_loop,
}
use market_networks.Network.EventLoop.Filters.{
  Kernel, Mirrors, apply_calls, apply_changes, kqueue-Mirrors,
}
use market_networks.Network.EventLoop.Waiting.{
  evfilt_read, evfilt_write, Kevent, kqueue_ready, kq_wait,
}
use market_networks.Network.EventLoop.Waiting.Coalescing.{Coalesced, kq_wait-Coalesced}
use market_networks.Network.TcpServer
use market_networks.Network.TcpServer.{
  tcp_server, accept_connection, not_accepted, emfile, close_server, is_open, kept, error_after,
  start-accept_connection,
}
use market_networks.Network.Sockets.{
  left_open, succeeded, failed, socket_fd, Lookup, unresolved, set_nonblocking, resolve_ipv4,
  create_listening_socket, connect_to, is_address, IsClean, sockets-IsClean,
}

-- A message split in two, with a carriage return.
two_pieces : drain_lines (codes "OK\r\nBOU") ≡ (codes "OK" ∷ [], codes "BOU")
unfolding drain_lines
two_pieces = refl

drain_lines-append_example :
    let (lines, left) = drain_lines (codes "OK\nBOU") in
    let (later, left') = drain_lines (left ++ codes "GHT\nX") in
    (drain_lines (codes "OK\nBOU" ++ codes "GHT\nX") ≡ (lines ++ later, left')) × IsLine left
drain_lines-append_example = drain_lines-append (codes "OK\nBOU") (codes "GHT\nX")

abbrev connected : TcpClient
connected = record { fd = some 3; inbuf = codes "BOU"; error = [] }

-- Two bytes, a signal, no room for a while, then the other two.
abbrev slow_kernel : List SendAnswer
slow_kernel = wrote 1 ∷ interrupted ∷ would_block ∷ wrote 1 ∷ []

slow_send : (send_message (codes "abcd") connected slow_kernel).1 ≡ codes "abcd"
unfolding send_message
slow_send = refl

send_message-wire_example :
    let (sent, wire, c', rest) = send_message (codes "abcd") connected (wrote 1 ∷ []) in
    (left : Text) × (wire ++ left ≡ codes "abcd") × ((sent ≡ delivered) ↔ (left ≡ []))
send_message-wire_example = send_message-wire (codes "abcd") 3 connected (wrote 1 ∷ []) refl

send_message-delivers_example :
    ((send_message (codes "abcd") connected slow_kernel).0 ≡ delivered)
    × ((send_message (codes "abcd") connected slow_kernel).1 ≡ codes "abcd")
send_message-delivers_example = send_message-delivers (codes "abcd") 3 connected slow_kernel refl tt

abbrev two_reads : List RecvAnswer
two_reads = recv_interrupted ∷ received (codes "GHT\nSOLD\nX") ∷ closed ∷ []

receive_messages-stream_example :
    let (alive, out, c', rest) = receive_messages two_reads [] connected in
    let (later, left) = drain_lines (c'.inbuf ++ stream rest) in
    drain_lines (connected.inbuf ++ stream two_reads) ≡ (out ++ later, left)
receive_messages-stream_example = receive_messages-stream two_reads connected

-- A kernel that keeps its filters as a function of the descriptor.
abbrev apply_read : ℕ → Bool → (ℕ → Bool × Bool) → Option (ℕ → Bool × Bool)
apply_read fd on f =
    if on || (f fd).0 then some (λ k. if fd == k then (on, (f k).1) else f k) else none

abbrev apply_write : ℕ → Bool → (ℕ → Bool × Bool) → Option (ℕ → Bool × Bool)
apply_write fd on f =
    if on || (f fd).1 then some (λ k. if fd == k then ((f k).0, on) else f k) else none

abbrev applying : Change → (ℕ → Bool × Bool) → Option (ℕ → Bool × Bool)
applying (read_filter fd on) f = apply_read fd on f
applying (write_filter fd on) f = apply_write fd on f

abbrev kernel : Kernel
kernel = record {
  Filters = ℕ → Bool × Bool;
  has = λ f. f;
  no_filters = λ k. (false, false);
  apply_change = applying;
  nothing_yet = λ k. refl;
  reads = λ fd on f h. (_, rw h refl, λ k. refl);
  writes = λ fd on f h. (_, rw h refl, λ k. refl);
}

-- A kqueue that watches descriptor 5 for reading.
abbrev reading : EventLoop
reading = record (event_loop true true kqueue []) {
  kq_interest = insert 5 (true, false) [];
  kevent_changes = (read_filter 5 true ∷ []) ∷ [];
}

reading-Mirrors : Mirrors kernel reading
unfolding event_loop apply_calls apply_changes insert interest_of
reading-Mirrors = ((λ k. if 5 == k then (true, false) else (false, false)), refl, λ k. ground arith)

kqueue-Mirrors_example :
    ((kq_apply 5 false true reading).0 ≡ true)
    × Mirrors kernel (kq_apply 5 false true reading).1
    × Mirrors kernel (kq_remove 5 reading)
unfolding event_loop
kqueue-Mirrors_example = kqueue-Mirrors kernel 5 false true reading tt reading-Mirrors

abbrev watching : EventLoop
watching = record (event_loop true true kqueue []) { kq_interest = insert 5 (true, true) [] }

-- Both filters of one descriptor, and the end of the stream of another.
abbrev reported : List Kevent
reported =
    (record { ident = 5; filter = evfilt_read; ev_eof = false; ev_error = false })
    ∷ (record { ident = 7; filter = evfilt_read; ev_eof = true; ev_error = false })
    ∷ (record { ident = 5; filter = evfilt_write; ev_eof = false; ev_error = false })
    ∷ []

kq_wait-Coalesced_example :
    (out : List Event) × (kq_wait (kqueue_ready reported) watching ≡ some out)
    × Coalesced reported out
unfolding insert
kq_wait-Coalesced_example = kq_wait-Coalesced reported watching (omega arith)

-- The address is known and `listen` fails; `connect` is refused.
abbrev known_host : Text → Option ℕ
known_host host = some 2130706433

abbrev no_lookup : Text → Lookup
no_lookup host = unresolved (codes "unknown")

sockets-IsClean_example :
    let made =
      create_listening_socket known_host no_lookup
        (codes "127.0.0.1")
        5000
        128
        (socket_fd 4)
        succeeded
        (failed (codes "in use"))
        succeeded
        succeeded in
    let joined =
      connect_to known_host no_lookup
        (codes "127.0.0.1")
        5000
        (socket_fd 4)
        (failed (codes "refused")) in
    IsClean made
    × IsClean joined
    × ((made.0 ≡ some 4) ↔ (
        (is_address (resolve_ipv4 known_host no_lookup (codes "127.0.0.1")) ≡ true)
        × (socket_fd 4 ≡ socket_fd 4)
        × (succeeded ≡ succeeded)
        × (failed (codes "in use") ≡ succeeded)
        × (set_nonblocking succeeded succeeded ≡ succeeded)))
    × ((joined.0 ≡ some 4) ↔ (
        (is_address (
            resolve_ipv4 known_host no_lookup
              (if text_eq (codes "127.0.0.1") [] then codes "127.0.0.1" else codes "127.0.0.1"))
          ≡ true)
        × (socket_fd 4 ≡ socket_fd 4)
        × (failed (codes "refused") ≡ succeeded)))
sockets-IsClean_example =
    sockets-IsClean known_host no_lookup (codes "127.0.0.1") 5000 (socket_fd 4) 128 4 succeeded
      (failed (codes "in use")) succeeded succeeded (failed (codes "refused"))

-- The socket listens, and the process runs out of descriptors.
start-accept_connection_example :
    let (ok, m, made) =
      TcpServer.start
        (λ t. none)
        (λ t. unresolved [])
        128
        (socket_fd 3)
        succeeded
        succeeded
        succeeded
        succeeded
        (tcp_server [] 9000) in
    let (r, m', taken) = accept_connection (not_accepted emfile (codes "EMFILE")) m in
    (ok ≡ is_open m.fd)
    × (left_open (made ++ close_server m) ≡ [])
    × (left_open taken ≡ kept r.fd)
    × (m'.fd ≡ m.fd)
    × ((is_open r.fd && (r.again || r.exhausted)) ≡ false)
    × ((r.again && r.exhausted) ≡ false)
    × (m'.error ≡ error_after (not_accepted emfile (codes "EMFILE")) m.error)
start-accept_connection_example =
    start-accept_connection (λ t. none) (λ t. unresolved []) 128 (socket_fd 3) succeeded succeeded
      succeeded succeeded (tcp_server [] 9000) (not_accepted emfile (codes "EMFILE"))
