-- ===== src/Client/Programs.antt =====
-- src/trader_client.cpp and src/market_data_client.cpp: what the programs make of their arguments, and
-- `connect_to_server` of src/network/tcp_client.cpp. `arguments` is `argv` without the program's name.
pub mod Requests
use market_networks.Base.{
  List, Option, Text, [], codes, drop, if◌then◌else◌, length, ltb, none, not, some, ℕ, ◌++◌, ◌>>=◌,
  ◌∷◌,
}
use market_networks.Arguments.{ℤ, port_of}
use market_networks.Protocol.Command.{is_valid_instrument}
use market_networks.Network.Sockets.{Lookup, SocketAnswer, Answer, connect_to}
use market_networks.Network.TcpClient.{TcpClient, SendAnswer}
use market_networks.Client.Shell.{Shell, Flow, Round, run_client_shell}

-- Without the texts that are only printed.
pub record ClientShellOptions : Type 0 where
  pub host : Text
  pub port : ℕ
  pub initial_commands : List Text

abbrev pub default_options : ClientShellOptions
default_options = record { host = codes "127.0.0.1"; port = 5000; initial_commands = [] }

-- argc >= 2
unfoldable pub set_host : List Text → ClientShellOptions → ClientShellOptions
set_host [] o = o
set_host (host ∷ arguments) o = record o { host = host }

-- argc >= 4
unfoldable pub set_login : List Text → ClientShellOptions → ClientShellOptions
set_login (host ∷ port ∷ name ∷ arguments) o = record o {
  initial_commands = o.initial_commands ++ (codes "LOGIN " ++ name) ∷ [];
}
set_login _ o = o

-- The loop over the instruments; `none` is the exit status 2, here and below.
unfoldable pub set_subscriptions : List Text → ClientShellOptions → Option ClientShellOptions
set_subscriptions [] o = some o
set_subscriptions (name ∷ arguments) o =
    let rest =
      set_subscriptions arguments
        (record o { initial_commands = o.initial_commands ++ (codes "SUBSCRIBE " ++ name) ∷ [] }) in
    if not (is_valid_instrument name) then none else rest

module _ (atoi : Text → ℤ) where
  -- argc >= 3
  unfoldable pub set_port : List Text → ClientShellOptions → Option ClientShellOptions
  unfolding port_of
  set_port (host ∷ port ∷ arguments) o = elim (port_of (atoi port)) [
    | none ↦ none
    | some n ↦ some (record o { port = n })
  ]
  set_port _ o = some o

  unfoldable pub trader_options : List Text → Option ClientShellOptions
  unfolding set_host set_port set_login
  trader_options arguments = if ltb 3 (length arguments) then none else do
    o ← set_port arguments (set_host arguments default_options)
    some (set_login arguments o)

  unfoldable pub market_data_options : List Text → Option ClientShellOptions
  unfolding set_host set_port set_subscriptions
  market_data_options arguments = do
    o ← set_port arguments (set_host arguments default_options)
    set_subscriptions (drop 2 arguments) o

module _ (inet_pton : Text → Option ℕ) (getaddrinfo : Text → Lookup) where
  -- The descriptor is then non-blocking, with TCP_NODELAY; neither answer is looked at.
  unfoldable pub connect_to_server : Text → ℕ → SocketAnswer → Answer → TcpClient
  unfolding connect_to
  connect_to_server host port socket connect =
      let (fd, error, calls) = connect_to inet_pton getaddrinfo host port socket connect in
      record { fd = fd; inbuf = []; error = error }

  -- The end of both programs' `main`.
  unfoldable pub run_program :
      Option ClientShellOptions
      → SocketAnswer
      → Answer
      → List SendAnswer
      → List Round
      → Option (Flow × Shell)
  unfolding connect_to_server run_client_shell
  run_program options socket connect sends rounds = do
    o ← options
    some (
        run_client_shell (connect_to_server o.host o.port socket connect) o.initial_commands sends
          rounds)
