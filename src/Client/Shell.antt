-- ===== src/Client/Shell.antt =====
-- src/client_shell.cpp: the interactive loop that both clients share. What the kernel answers to
-- `poll`, `recv`, `read` and `send` is given: by the rounds of the loop, and by a list in the state for
-- `send`. A signal ends the list of rounds.
pub mod Forwarding
pub mod Typing
use market_networks.Base.{
  Bool, List, Text, [], codes, false, if◌then◌else◌, length, none, some, suc, text_eq, true, zero,
  ℕ, ◌++◌, ◌∷◌,
}
use market_networks.Network.Framing.{next_line, strip_return}
use market_networks.Network.TcpClient.{
  TcpClient, SendAnswer, Sent, delivered, blocked, failed, send_message, RecvAnswer,
  receive_messages, disconnect,
}

pub record Shell : Type 0 where
  pub client : TcpClient
  pub send_answers : List SendAnswer
  -- What the kernel took of the messages sent, and whether FIN follows it.
  pub wire : Text
  pub half_closed : Bool
  pub printed : List Text
  pub stdin_buffer : Text
  pub stdin_open : Bool
  pub sent_quit : Bool
  pub status : ℕ

-- What becomes of the loop: `waiting` is a `send_message` that the kernel never lets return.
pub data Flow : Type 0 where
  going ended waiting : Flow

pub data StdinAnswer : Type 0 where
  typed : Text → StdinAnswer
  end_of_input read_interrupted read_failed not_ready : StdinAnswer

-- One call of `poll`: whether the socket is ready, and what `recv` and `read` then answer.
pub data Round : Type 0 where
  poll_interrupted poll_failed : Round
  ready : Bool → List RecvAnswer → StdinAnswer → Round

abbrev pub quit_line : Text
quit_line = codes "QUIT"

unfoldable pub send : Text → Shell → Sent × Shell
unfolding send_message
send line s =
    let (sent, wire, c, rest) = send_message line s.client s.send_answers in
    (sent, record s { client = c; send_answers = rest; wire = s.wire ++ wire })

unfoldable pub shutdown_writes : Shell → Shell
shutdown_writes s = elim s.client.fd [ none ↦ s | some fd ↦ record s { half_closed = true } ]

-- The loop over the lines of `stdin_buffer`, on fuel. A failed send ends the shell (`g_stop`), and QUIT
-- ends the input.
unfoldable pub shell_lines : ℕ → Shell → Flow × Shell
unfolding next_line strip_return send shutdown_writes text_eq
shell_lines zero s = (waiting, s)
shell_lines (suc fuel) s = elim (next_line s.stdin_buffer) [
  | none ↦ (going, s)
  | some (raw, rest) ↦
      let line = strip_return raw in
      let t : Shell = record s { stdin_buffer = rest } in
      elim (text_eq line []) [
        | true ↦ shell_lines fuel t
        | false ↦
            let (sent, u) = send (line ++ 10 ∷ []) t in
            elim sent [
              | blocked ↦ (waiting, u)
              | failed ↦ (ended, record u { status = 1 })
              | delivered ↦ elim (text_eq line quit_line) [
                | true ↦
                    (going, shutdown_writes (record u { sent_quit = true; stdin_open = false }))
                | false ↦ shell_lines fuel u
              ]
            ]
      ]
]

-- End of input: the shell leaves politely; whether QUIT could be sent is not looked at.
unfoldable pub leave : Shell → Flow × Shell
unfolding send shutdown_writes
leave s =
    if s.sent_quit
    then (going, s)
    else (let (sent, t) = send (quit_line ++ 10 ∷ []) (record s { sent_quit = true }) in
        elim sent as (λ _. Flow × Shell) [
          | blocked ↦ (waiting, t)
          | failed ↦ (going, shutdown_writes t)
          | delivered ↦ (going, shutdown_writes t)
        ])

unfoldable pub read_stdin : StdinAnswer → Shell → Flow × Shell
unfolding shell_lines leave
read_stdin (typed bytes) s =
    let buffer = s.stdin_buffer ++ bytes in
    shell_lines (suc (length buffer)) (record s { stdin_buffer = buffer })
read_stdin end_of_input s = leave (record s { stdin_open = false })
read_stdin read_interrupted s = (going, s)
read_stdin read_failed s = (going, record s { stdin_open = false })
read_stdin not_ready s = (going, s)

-- Server messages first: whether the connection is alive.
unfoldable pub read_socket : Bool → List RecvAnswer → Shell → Bool × Shell
unfolding receive_messages
read_socket false answers s = (true, s)
read_socket true answers s =
    let (alive, messages, c, rest) = receive_messages answers [] s.client in
    (alive, record s { client = c; printed = s.printed ++ messages })

unfoldable pub shell_round : Round → Shell → Flow × Shell
unfolding read_socket read_stdin
shell_round poll_interrupted s = (going, s)
shell_round poll_failed s = (ended, record s { status = 1 })
shell_round (ready socket answers stdin) s =
    let (alive, t) = read_socket socket answers s in
    elim alive [
      | false ↦ (ended, t)
      | true ↦ elim s.stdin_open [ true ↦ read_stdin stdin t | false ↦ (going, t) ]
    ]

unfoldable pub shell_loop : List Round → Shell → Flow × Shell
unfolding shell_round
shell_loop [] s = (going, s)
shell_loop (r ∷ rounds) s =
    let (flow, t) = shell_round r s in
    elim flow [ going ↦ shell_loop rounds t | ended ↦ (ended, t) | waiting ↦ (waiting, t) ]

-- The commands sent right after connecting. A failure ends the program with status 1.
unfoldable pub send_initial : List Text → Shell → Flow × Shell
unfolding send
send_initial [] s = (going, s)
send_initial (command ∷ commands) s =
    let (sent, t) = send (command ++ 10 ∷ []) s in
    elim sent [
      | blocked ↦ (waiting, t)
      | failed ↦ (ended, record t { status = 1 })
      | delivered ↦ send_initial commands t
    ]

-- The end of the program.
unfoldable pub shell_end : Shell → Shell
unfolding shutdown_writes disconnect
shell_end s =
    let t = if s.sent_quit then s else shutdown_writes s in
    record t { client = disconnect t.client }

unfoldable pub start_shell : TcpClient → List SendAnswer → Shell
start_shell client answers = record {
  client = client;
  send_answers = answers;
  wire = [];
  half_closed = false;
  printed = [];
  stdin_buffer = [];
  stdin_open = true;
  sent_quit = false;
  status = 0;
}

-- `run_client_shell` on a client that `connect_to_server` has tried to connect.
unfoldable pub run_client_shell :
    TcpClient → List Text → List SendAnswer → List Round → Flow × Shell
unfolding start_shell send_initial shell_loop shell_end
run_client_shell client commands answers rounds =
    let s = start_shell client answers in
    elim client.fd [
      | none ↦ (ended, record s { status = 1 })
      | some fd ↦
          let (flow, t) = send_initial commands s in
          elim flow [
            | ended ↦ (ended, t)
            | waiting ↦ (waiting, t)
            | going ↦
                let (flow', u) = shell_loop rounds t in
                elim flow' [
                  | waiting ↦ (waiting, u)
                  | ended ↦ (ended, shell_end u)
                  | going ↦ (ended, shell_end u)
                ]
          ]
    ]
