-- ===== src/Client/Shell/Typing.antt =====
-- The whole loop of src/client_shell.cpp: what the server is sent of all that the user types.
mod Rounds
pub mod Lines
mod Sending
use market_networks.Base.{
  Bool, Bool-cases, List, Text, [], ap, append-nil, append_assoc, false, inl, inr, refl, some,
  subst, sym, true, ℕ, ◌++◌, ◌∙◌, ◌∷◌, ◌≡◌,
}
use market_networks.Network.Framing.{IsLine, drain_lines}
use market_networks.Network.TcpClient.{RecvAnswer}
use market_networks.Client.Shell.{
  Shell, Flow, ended, read_stdin, read_socket, shell_round, shell_loop, StdinAnswer, typed,
  end_of_input, read_interrupted, read_failed, not_ready, Round, poll_interrupted, poll_failed,
  ready,
}
use market_networks.Client.Shell.Forwarding.{until_quit, commands, as_text}
use market_networks.Client.Shell.Typing.Rounds.{
  typed_text, ends_input, farewell, Reaches, read_socket-same, loop-going, loop-stop, dead-round,
  open-round, closed-Reaches, stopped-Reaches,
}
use market_networks.Client.Shell.Typing.Lines.{lines_of, Types, silent}
use market_networks.Client.Shell.Typing.Sending.{typed-Types, leave-Types}

-- The same from a state with the same wire and buffer.
Types-wire :
    (s t : Shell) (buffer : Text) (rounds : List Round) (r : Flow × Shell)
    → t.wire ≡ s.wire
    → Types t buffer rounds r
    → Types s buffer rounds r
Types-wire s t buffer rounds r w h =
    subst
      (λ x.
        Reaches x (as_text (until_quit (lines_of buffer rounds)))
          (farewell (ends_input rounds) (lines_of buffer rounds)) r)
      w h

-- A round after which the connection is alive and the input still open: `s` before the input is read.
open-Types :
    (rounds : List Round) (fd : ℕ) (t s : Shell) (socket : Bool) (answers : List RecvAnswer)
    (stdin : StdinAnswer)
    → s.client.fd ≡ some fd
    → s.stdin_open ≡ true
    → s.sent_quit ≡ false
    → IsLine s.stdin_buffer
    → shell_round (ready socket answers stdin) t ≡ read_stdin stdin s
    → ((u : Shell)
        → u.client.fd ≡ some fd
        → u.stdin_open ≡ true
        → u.sent_quit ≡ false
        → IsLine u.stdin_buffer
        → Types u u.stdin_buffer rounds (shell_loop rounds u))
    → Types s s.stdin_buffer
        (ready socket answers stdin ∷ rounds)
        (shell_loop (ready socket answers stdin ∷ rounds) t)
unfolding read_stdin
open-Types rounds fd t s socket answers (typed bytes) e o q h turn later =
    subst
      (λ x.
        Reaches s.wire (as_text (until_quit (commands (drain_lines x).0)))
          (farewell (ends_input rounds) (commands (drain_lines x).0))
          (shell_loop (ready socket answers (typed bytes) ∷ rounds) t))
      (append_assoc s.stdin_buffer bytes (typed_text rounds))
      (typed-Types bytes rounds fd s t (ready socket answers (typed bytes)) e o q turn later)
open-Types rounds fd t s socket answers end_of_input e o q h turn later =
    rw (silent s (ready socket answers end_of_input ∷ rounds) h refl) (
      leave-Types rounds fd (record s { stdin_open = false }) t (ready socket answers end_of_input)
        e q refl turn)
open-Types rounds fd t s socket answers read_interrupted e o q h turn later =
    rw (loop-going (ready socket answers read_interrupted) rounds t s turn) (later s e o q h)
open-Types rounds fd t s socket answers read_failed e o q h turn later =
    let u : Shell = record s { stdin_open = false } in
    rw
      (
        silent s (ready socket answers read_failed ∷ rounds) h refl,
        loop-going (ready socket answers read_failed) rounds t u turn,
      )
      (closed-Reaches rounds u s.wire [] [] [] [] refl (sym (append-nil s.wire)) refl)
open-Types rounds fd t s socket answers not_ready e o q h turn later =
    rw (loop-going (ready socket answers not_ready) rounds t s turn) (later s e o q h)

-- However `read` cuts the input into pieces, and whatever the kernel answers to `send` and `recv`, the
-- server is sent a prefix of this text: of what the user types, the whole lines up to the first QUIT,
-- empty ones left out, and QUIT after them if the input ends without one. If the loop goes on after
-- the rounds given, it is sent all of these lines, and of the last QUIT what the kernel took. The
-- conditions: the client is connected, its input open, QUIT not sent, and no whole line buffered.
pub shell_loop-Types :
    (rounds : List Round) (fd : ℕ) (s : Shell)
    → s.client.fd ≡ some fd
    → s.stdin_open ≡ true
    → s.sent_quit ≡ false
    → IsLine s.stdin_buffer
    → Types s s.stdin_buffer rounds (shell_loop rounds s)
unfolding shell_loop shell_round
shell_loop-Types [] fd s e o q h =
    let lines = silent s [] h refl in
    rw lines (([], refl), λ g. ([], [], refl, sym (append-nil s.wire)))
shell_loop-Types (poll_interrupted ∷ rounds) fd s e o q h = shell_loop-Types rounds fd s e o q h
shell_loop-Types (poll_failed ∷ rounds) fd s e o q h =
    stopped-Reaches s.wire _ _ _ ended (record s { status = 1 }) (λ g. cc) refl
shell_loop-Types (ready socket answers stdin ∷ rounds) fd s e o q h =
    let (w, f, b, o', q') = read_socket-same socket answers s in
    let t = (read_socket socket answers s).1 in
    elim (Bool-cases (read_socket socket answers s).0) [
      | inl alive ↦
          Types-wire s t s.stdin_buffer (ready socket answers stdin ∷ rounds)
            (shell_loop (ready socket answers stdin ∷ rounds) s) w
            (subst
              (λ x.
                Types t x (ready socket answers stdin ∷ rounds)
                  (shell_loop (ready socket answers stdin ∷ rounds) s))
              b
              (open-Types rounds fd s t socket answers stdin (f ∙ e) (o' ∙ o) (q' ∙ q)
                (subst IsLine (sym b) h) (open-round socket answers stdin s alive o)
                (λ u. shell_loop-Types rounds fd u)))
      | inr dead ↦
          rw
            (loop-stop (ready socket answers stdin) rounds s t ended
              (dead-round socket answers stdin s dead) (λ g. cc))
            (stopped-Reaches s.wire
              (as_text (until_quit (lines_of s.stdin_buffer (ready socket answers stdin ∷ rounds))))
              (farewell (ends_input (ready socket answers stdin ∷ rounds))
                (lines_of s.stdin_buffer (ready socket answers stdin ∷ rounds)))
              _ ended t (λ g. cc)
              (ap
                (λ x.
                  x
                  ++ (as_text
                        (until_quit (lines_of s.stdin_buffer (ready socket answers stdin ∷ rounds)))
                      ++ farewell (ends_input (ready socket answers stdin ∷ rounds))
                          (lines_of s.stdin_buffer (ready socket answers stdin ∷ rounds))))
                w))
    ]
