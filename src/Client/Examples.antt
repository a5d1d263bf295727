-- ===== src/Client/Examples.antt =====
-- The theorems about the clients at concrete inputs.
use market_networks.Base.{
  List, Text, [], codes, drop, false, inr, refl, some, text_eq, true, ◌<◌, ◌∷◌, ◌≡◌, ◌≤◌,
}
use market_networks.Network.Framing.{drain_lines}
use market_networks.Network.TcpClient.{TcpClient, wrote, interrupted}
use market_networks.Arguments.{ℤ, pos}
use market_networks.Protocol.Command.{is_valid_instrument}
use market_networks.Client.Shell.{
  Shell, going, start_shell, send_initial, shell_loop, Round, ready, typed, end_of_input,
  poll_interrupted,
}
use market_networks.Client.Shell.Typing.{shell_loop-Types}
use market_networks.Client.Shell.Typing.Lines.{Types}
use market_networks.Client.Programs.{ClientShellOptions, market_data_options}
use market_networks.Client.Programs.Requests.{Follows, options-port, send_initial-Follows}

abbrev connection : TcpClient
connection = record { fd = some 3; inbuf = []; error = [] }

-- A command in two reads, an empty line, QUIT, and a line after it.
abbrev session : List Round
session =
    ready false [] (typed (codes "SUB JN"))
    ∷ poll_interrupted
    ∷ ready false [] (typed (codes "ST\n\nQUIT\nX\n"))
    ∷ ready false [] end_of_input
    ∷ []

session_result :
    (shell_loop session (start_shell connection (wrote 9 ∷ wrote 5 ∷ []))).1.wire
    ≡ codes "SUB JNST\nQUIT\n"
unfolding shell_loop start_shell
session_result = refl

shell_loop-Types_example :
    let s = start_shell connection (wrote 9 ∷ wrote 5 ∷ []) in
    Types s s.stdin_buffer session (shell_loop session s)
unfolding start_shell
shell_loop-Types_example =
    shell_loop-Types session 3 (start_shell connection (wrote 9 ∷ wrote 5 ∷ [])) refl refl refl tt

-- `atoi` of the one number that the tests need.
abbrev five_thousand : Text → ℤ
five_thousand text = pos 5000

abbrev follows_one : List Text
follows_one = codes "localhost" ∷ codes "5000" ∷ codes "IMCT" ∷ []

abbrev follows_one_options : ClientShellOptions
follows_one_options = record {
  host = codes "localhost";
  port = 5000;
  initial_commands = codes "SUBSCRIBE IMCT" ∷ [];
}

follows_one_accepted : market_data_options five_thousand follows_one ≡ some follows_one_options
unfolding market_data_options is_valid_instrument text_eq
follows_one_accepted = refl

options-port_example : (0 < 5000) × (5000 ≤ 65535)
options-port_example =
    options-port five_thousand follows_one follows_one_options (inr follows_one_accepted)

abbrev started : Shell
started = record {
  client = connection;
  send_answers = wrote 4 ∷ interrupted ∷ wrote 9 ∷ [];
  wire = [];
  half_closed = false;
  printed = [];
  stdin_buffer = [];
  stdin_open = true;
  sent_quit = false;
  status = 0;
}

started_going : (send_initial (codes "SUBSCRIBE IMCT" ∷ []) started).0 ≡ going
unfolding send_initial
started_going = refl

send_initial-Follows_example :
    let (lines, left) = drain_lines (send_initial (codes "SUBSCRIBE IMCT" ∷ []) started).1.wire in
    (left ≡ []) × Follows lines (drop 2 follows_one)
send_initial-Follows_example =
    send_initial-Follows five_thousand follows_one follows_one_options 3 started
      follows_one_accepted refl refl started_going
