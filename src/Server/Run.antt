-- ===== src/Server/Run.antt =====
-- The event loop of `ExchangeServer::run` in src/exchange_server.cpp. Where a signal stops the server,
-- the batch is cut off: a shorter list of events.
use market_networks.Base.{
  Bool, List, Option, [], false, if◌then◌else◌, none, some, ℕ, ◌++◌, ◌==◌, ◌>>=◌, ◌∷◌,
}
use market_networks.Base.Assoc.{Assoc, find}
use market_networks.Network.Sockets.{SystemCall, closed, shut_down}
use market_networks.Network.EventLoop.{Event}
use market_networks.Server.State.{ClientSession, Server}
use market_networks.Server.Output.{on_writable, drop_client}
use market_networks.Server.Input.{RecvAnswer, on_readable}
use market_networks.Network.TcpServer.{AcceptCall}
use market_networks.Server.Accept.{accept_pending, resume_accepting_if_due}

-- An event, with what the kernel will answer while it is handled.
pub record Occasion : Type 0 where
  pub event : Event
  pub accepts : List AcceptCall
  pub receives : List RecvAnswer

-- One round of the loop: what the clock says, and the batch.
pub record Batch : Type 0 where
  pub now : ℕ
  pub occasions : List Occasion

-- `f` unless the session is gone.
unfoldable pub if_live : ℕ → (Server → Option Server) → Server → Option Server
unfolding find
if_live fd f s = elim (find fd s.sessions) [ none ↦ some s | some x ↦ f s ]

unfoldable pub client_event : Event → List RecvAnswer → Server → Option Server
unfolding if_live on_writable on_readable drop_client
client_event e receives s = do
  s1 ← if_live e.fd (λ t. if e.writable then on_writable e.fd t else some t) s
  s2 ← if_live e.fd (λ t. if e.readable then on_readable e.fd receives t else some t) s1
  if_live e.fd (λ t. if e.hangup then drop_client e.fd t else some t) s2

-- `ev.fd == listener_.fd()`; an event's descriptor is never -1.
unfoldable pub is_descriptor : Option ℕ → ℕ → Bool
is_descriptor none k = false
is_descriptor (some fd) k = k == fd

unfoldable pub handle_event : ℕ → Occasion → Server → Option Server
unfolding client_event accept_pending is_descriptor
handle_event now o s =
    if is_descriptor s.listener.fd o.event.fd
    then some (accept_pending now o.accepts s)
    else client_event o.event o.receives s

unfoldable pub handle_events : ℕ → List Occasion → Server → Option Server
unfolding handle_event
handle_events now [] s = some s
handle_events now (o ∷ os) s = do s' ← handle_event now o s; handle_events now os s'

-- `for (int fd : closed_fds_) close(fd);`
unfoldable pub close_all : List ℕ → List SystemCall
close_all [] = []
close_all (fd ∷ fds) = closed fd ∷ close_all fds

unfoldable pub reap_closed : Server → Server
unfolding close_all
reap_closed s = record s { calls = s.calls ++ close_all s.closed_fds; closed_fds = [] }

unfoldable pub run_batch : Batch → Server → Option Server
unfolding resume_accepting_if_due handle_events reap_closed
run_batch b s = do
  s' ← handle_events b.now b.occasions (resume_accepting_if_due b.now s)
  some (reap_closed s')

unfoldable pub run : List Batch → Server → Option Server
unfolding run_batch
run [] s = some s
run (b ∷ bs) s = do s' ← run_batch b s; run bs s'

-- Each session's descriptor is shut down in both directions and closed.
unfoldable pub shut_each : Assoc ClientSession → List SystemCall
shut_each [] = []
shut_each ((fd, x) ∷ m) = shut_down fd ∷ closed fd ∷ shut_each m

unfoldable pub shutdown_all : Server → Server
unfolding reap_closed shut_each
shutdown_all s = reap_closed (record s { calls = s.calls ++ shut_each s.sessions; sessions = [] })
