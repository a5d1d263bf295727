-- ===== src/Server/Accept.antt =====
-- The accepting side of src/exchange_server.cpp. Time is a number of milliseconds; 0.0 is the number 0.
use market_networks.Base.{
  Bool, List, Text, [], false, if◌then◌else◌, ltb, none, some, true, ℕ, ◌++◌, ◌+◌, ◌==◌, ◌||◌, ◌∷◌,
}
use market_networks.Base.Assoc.{find, erase}
use market_networks.Network.EventLoop
use market_networks.Network.Sockets.{closed, send_buffer}
use market_networks.Network.TcpServer.{AcceptCall, accept_connection}
use market_networks.Server.State.{Server, new_session, put_session}

abbrev pub accept_backoff : ℕ
accept_backoff = 1000

-- `loop_.update(listener_.fd(), r, false)`; both calls come after `start`, so there is a descriptor.
unfoldable pub watch_listener : Bool → Server → EventLoop.EventLoop
watch_listener r s = elim s.listener.fd [
  | none ↦ s.loop
  | some fd ↦ (EventLoop.update fd r false s.loop).1
]

-- `now` is what the monotonic clock says.
unfoldable pub pause_accepting : ℕ → Server → Server
unfolding watch_listener
pause_accepting now s =
    if s.accept_resume_at == 0
    then record s { accept_resume_at = now + accept_backoff; loop = watch_listener false s }
    else s

unfoldable pub resume_accepting_if_due : ℕ → Server → Server
unfolding watch_listener
resume_accepting_if_due now s =
    if s.accept_resume_at == 0 || ltb now s.accept_resume_at
    then s
    else record s { accept_resume_at = 0; loop = watch_listener true s }

-- The registration of a new connection's descriptor; where it fails the session goes again, and the
-- descriptor is closed.
unfoldable pub enrol_client : ℕ → Server → Server
unfolding erase
enrol_client fd s =
    let (registered, loop) = EventLoop.add fd true false s.loop in
    if registered
    then record s { loop = loop }
    else record s { loop = loop; sessions = erase fd s.sessions; calls = s.calls ++ closed fd ∷ [] }

-- A new connection; `emplace` leaves a session that is there as it is.
unfoldable pub register_client : ℕ → Text → Server → Server
unfolding find put_session new_session enrol_client
register_client fd peer s =
    enrol_client fd
      (elim (find fd s.sessions) [ none ↦ put_session fd (new_session fd peer) s | some x ↦ s ])

-- `set_send_buffer`, if a size is configured; what it answers is not looked at.
unfoldable pub size_buffer : ℕ → Server → Server
size_buffer fd s = record s {
  calls =
      s.calls
      ++ (if ltb 0 s.send_buffer_bytes then send_buffer fd s.send_buffer_bytes ∷ [] else []);
}

-- The answers of the calls of `accept`, in order; the queue is empty where the list ends.
unfoldable pub accept_pending : ℕ → List AcceptCall → Server → Server
unfolding accept_connection pause_accepting size_buffer register_client
accept_pending now [] s = s
accept_pending now (call ∷ calls) s =
    let (r, l, made) = accept_connection call s.listener in
    let t : Server = record s { listener = l; calls = s.calls ++ made } in
    elim r.fd [
      | some fd ↦ accept_pending now calls (register_client fd r.peer (size_buffer fd t))
      | none ↦ if r.again then t else if r.exhausted then pause_accepting now t else t
    ]
