-- ===== src/Server/Main.antt =====
-- `main` of src/exchange_server.cpp from the settings to the exit status, with `start` of
-- src/network/tcp_server.cpp. The kernel's answers are arguments.
use market_networks.Base.{
  Bool, Bool-cases, List, Option, Option-cases, Text, [], ap, arith, false, if◌then◌else◌, inl, inr,
  none, refl, some, subst, sym, ℕ, ◌&&◌, ◌>>=◌, ◌∙◌, ◌≡◌,
}
use market_networks.Network.EventLoop.{event_loop, KeventAnswer}
use market_networks.Network.EventLoop.Poll.{event_loop-Indexed}
use market_networks.Network.Sockets.{left_open, Lookup, SocketAnswer, Answer}
use market_networks.Network.TcpServer
use market_networks.Network.TcpServer.{tcp_server}
use market_networks.Server.State.{Server, SendAnswer, new_server, start}
use market_networks.Server.Run.{Batch, run, shutdown_all}
use market_networks.Server.Settings.{Settings, Outcome, exits, serves}
use market_networks.Server.Sound.{IsSound}
use market_networks.Server.Sound.Serving.{OpensRun, run-Ends, start-IsSound, start-IsTidy}
use market_networks.Server.Sound.Closing.{shutdown_all-closes}
use market_networks.Server.Holding.{IsTidy}

-- What the kernel answers while the server sets itself up, and to `kevent` and `send` later.
pub record SetUp : Type 0 where
  pub kqueue_opened : Bool
  pub kevents : List KeventAnswer
  pub socket : SocketAnswer
  pub bind : Answer
  pub listen : Answer
  pub get_flags : Answer
  pub set_flags : Answer
  pub sends : List SendAnswer

-- EXCHANGE_HAVE_KQUEUE, SOMAXCONN and the resolver are arguments.
module _ (have_kqueue : Bool) (somaxconn : ℕ) (inet_pton : Text → Option ℕ)
    (getaddrinfo : Text → Lookup) where
  -- `start`, on a server just constructed; `none` where it gives false.
  unfoldable pub start_server : Settings → SetUp → Option Server
  unfolding TcpServer.start tcp_server event_loop new_server start
  start_server c k =
      let (listens, listener, calls) =
        TcpServer.start inet_pton getaddrinfo somaxconn k.socket k.bind k.listen k.get_flags
          k.set_flags (tcp_server c.host c.port) in
      let loop = event_loop have_kqueue k.kqueue_opened c.backend k.kevents in
      let (registered, s) =
        start listener (new_server c.host c.port loop c.send_buffer_bytes k.sends) in
      if listens && registered then some s else none

  -- The exit status; `none` is undefined behaviour.
  unfoldable pub main : Outcome → SetUp → List Batch → Option (ℕ × Option Server)
  unfolding start_server run shutdown_all
  main (exits status) k batches = some (status, none)
  main (serves c) k batches = elim (start_server c k) [
    | none ↦ some (1, none)
    | some s ↦ do s' ← run batches s; some (0, some (shutdown_all s'))
  ]

  start_server-IsSound :
      (c : Settings) (k : SetUp) (s : Server) → start_server c k ≡ some s → IsSound s × IsTidy s
  unfolding start_server
  start_server-IsSound c k s e =
      let (listens, l, calls) =
        TcpServer.start inet_pton getaddrinfo somaxconn k.socket k.bind k.listen k.get_flags
          k.set_flags (tcp_server c.host c.port) in
      let loop = event_loop have_kqueue k.kqueue_opened c.backend k.kevents in
      let v =
        start-IsSound l c.host c.port loop c.send_buffer_bytes k.sends
          (event_loop-Indexed have_kqueue k.kqueue_opened c.backend k.kevents) in
      let t = start-IsTidy l c.host c.port loop c.send_buffer_bytes k.sends in
      elim (Bool-cases
        (listens && (start l (new_server c.host c.port loop c.send_buffer_bytes k.sends)).0)) [
          | inl r ↦ subst (λ u. IsSound u × IsTidy u) (ground arith) (v, t)
          | inr r ↦ absurd (ground arith)
        ]

  -- The program ends with an exit status and never reaches undefined behaviour, whatever it is started
  -- with, whatever clients send and however the kernel answers, refused registrations included, as
  -- long as `accept` returns no descriptor that is still open. Where it served, the status is 0 and
  -- no connection leaks: each descriptor that `accept` gave it is closed afterwards, be it because
  -- the new connection could not be set up or registered, because its client was dropped, or in the
  -- end.
  pub main-Ends :
      (outcome : Outcome) (k : SetUp) (batches : List Batch)
      → ((c : Settings) (s : Server)
          → outcome ≡ serves c
          → start_server c k ≡ some s
          → OpensRun batches s)
      → (status : ℕ) × (last : Option Server) × (main outcome k batches ≡ some (status, last))
        × ((s : Server) → last ≡ some s → (status ≡ 0) × (left_open s.calls ≡ []))
  unfolding main
  main-Ends (exits status) k batches h = (status, none, refl, λ s e. absurd (cc))
  main-Ends (serves c) k batches h = elim (Option-cases (start_server c k)) [
    | inl n ↦ (1, none, rw (main, n) refl, λ s e. absurd (cc))
    | inr (s, n) ↦
        let (v, t) = start_server-IsSound c k s n in
        let (s', e, _, kept) = run-Ends batches s v (h c s refl n) in
        let closes = shutdown_all-closes s' (kept false t) in
        (
          0,
          some (shutdown_all s'),
          rw (main, n, e) refl,
          λ u f. (
            refl,
            ap (λ (o : Option Server). elim o [ none ↦ [] | some x ↦ left_open x.calls ]) (sym f)
                ∙ closes,
          ),
        )
  ]
