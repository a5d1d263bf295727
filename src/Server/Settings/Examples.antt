-- ===== src/Server/Settings/Examples.antt =====
-- The theorems about the start and the end of the server's program at concrete inputs.
use market_networks.Base.{
  List, Option, Text, [], ap, codes, false, keep, length, none, refl, some, subst, text_eq, true, ℕ,
  ◌<◌, ◌||◌, ◌∙◌, ◌∷◌, ◌≡◌, ◌≤◌,
}
use market_networks.Arguments.{ℤ, pos}
use market_networks.Network.EventLoop.{poll, kqueue, parse_backend}
use market_networks.Network.Sockets.{Lookup, unresolved, socket_fd, succeeded}
use market_networks.Server.State.{Server}
use market_networks.Network.TcpServer
use market_networks.Network.TcpServer.{tcp_server, connected, not_accepted, eagain}
use market_networks.Server.Accept.{
  resume_accepting_if_due, register_client, enrol_client, size_buffer,
}
use market_networks.Server.State
use market_networks.Server.State.{new_server, put_session}
use market_networks.Server.Input.{received}
use market_networks.Network.EventLoop
use market_networks.Network.EventLoop.{event_loop, applied, refused}
use market_networks.Server.Sound.Serving.{OpensRun}
use market_networks.Base.Assoc.{find}
use market_networks.Network.Sockets.{left_open}
use market_networks.Server.Main.{start_server}
use market_networks.Server.Settings.{Outcome, exits}
use market_networks.Server.Run.{Batch}
use market_networks.Server.Settings.{
  Settings, serves, Flags, is_verbose, is_backend, is_help, is_option, read_arguments, settings_of,
  env_flag, env_bytes, env_backend,
}
use market_networks.Server.Settings.Arguments.{
  first_stop, any_verbose, last_backend, is_positional, flags_after, conclude, read_arguments_lem,
  settings_of-serves,
}
use market_networks.Server.Main.{SetUp, main, main-Ends}

abbrev command_line : List Text
command_line = codes "-v" ∷ codes "--backend=poll" ∷ codes "0.0.0.0" ∷ codes "6000" ∷ []

abbrev no_flags : Flags
no_flags = record { verbose = false; backend = kqueue; positional = [] }

read_arguments_lem_example :
    read_arguments true command_line no_flags
    ≡ conclude (first_stop command_line) (flags_after true command_line no_flags)
read_arguments_lem_example = read_arguments_lem true command_line no_flags

-- `atoi` of the one number that the test needs.
abbrev six_thousand : Text → ℤ
six_thousand text = pos 6000

abbrev chosen : Settings
chosen = record {
  host = codes "0.0.0.0";
  port = 6000;
  backend = poll;
  verbose = true;
  send_buffer_bytes = 0;
}

chosen_settings : settings_of true six_thousand none none none command_line ≡ serves chosen
unfolding settings_of is_verbose is_backend is_help is_option parse_backend text_eq
chosen_settings = refl

settings_of-serves_example :
    (first_stop command_line ≡ none)
    × (0 < 6000)
    × (6000 ≤ 65535)
    × (length (keep is_positional command_line) ≤ 2)
    × (true ≡ (env_flag none || any_verbose command_line))
    × (poll ≡ last_backend true command_line (env_backend true none))
    × (0 ≡ env_bytes true six_thousand none)
settings_of-serves_example =
    settings_of-serves true six_thousand none none none command_line chosen chosen_settings

abbrev numeric : Text → Option ℕ
numeric host = some 0

abbrev nowhere : Text → Lookup
nowhere host = unresolved (codes "unknown")

abbrev smooth : SetUp
smooth = record {
  kqueue_opened = true;
  kevents = applied ∷ refused ∷ [];
  socket = socket_fd 3;
  bind = succeeded;
  listen = succeeded;
  get_flags = succeeded;
  set_flags = succeeded;
  sends = [];
}

-- Two clients connect, one says who it is.
abbrev busy : List Batch
busy =
    record {
      now = 0;
      occasions =
          record {
            event = record { fd = 3; readable = true; writable = false; hangup = false };
            accepts = connected 5 none ∷ connected 6 none ∷ not_accepted eagain [] ∷ [];
            receives = [];
          }
          ∷ record {
            event = record { fd = 6; readable = true; writable = false; hangup = false };
            accepts = [];
            receives = received (codes "LOGIN a\n") ∷ [];
          }
          ∷ [];
    }
    ∷ []

abbrev by_kqueue : Settings
by_kqueue = record chosen { backend = kqueue }

abbrev or_nobody : Option Server → Server
or_nobody none = new_server [] 0 (event_loop false false poll []) 0 []
or_nobody (some s) = s

abbrev or_chosen : Outcome → Settings
or_chosen (exits status) = chosen
or_chosen (serves c) = c

started-Opens : OpensRun busy (or_nobody (start_server true 128 numeric nowhere by_kqueue smooth))
unfolding start_server TcpServer.start tcp_server event_loop new_server State.start find
    resume_accepting_if_due register_client enrol_client put_session size_buffer EventLoop.add
started-Opens = ((λ _. (refl, (refl, tt)), λ t _. (λ _. tt, λ t' _. tt)), λ t _. tt)

busy-Opens :
    (c : Settings) (s : Server)
    → serves by_kqueue ≡ serves c
    → start_server true 128 numeric nowhere c smooth ≡ some s
    → OpensRun busy s
busy-Opens c s e f =
    subst (λ o. OpensRun busy (or_nobody o))
      (ap (λ o. start_server true 128 numeric nowhere (or_chosen o) smooth) e ∙ f) started-Opens

main-Ends_example :
    (status : ℕ) × (last : Option Server) × (main true 128 numeric nowhere
        (serves by_kqueue)
        smooth
        busy
      ≡ some (status, last))
    × ((s : Server) → last ≡ some s → (status ≡ 0) × (left_open s.calls ≡ []))
main-Ends_example = main-Ends true 128 numeric nowhere (serves by_kqueue) smooth busy busy-Opens
