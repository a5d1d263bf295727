-- ===== src/Client/Shell/Typing/Sending.antt =====
-- The rounds of the loop of src/client_shell.cpp in which the user types or the input ends.
use market_networks.Base.{
  Bool-cases, List, Text, [], ap, append-nil, append_assoc, arith, false, inl, inr, length, refl,
  some, subst, suc, sym, true, ℕ, ◌++◌, ◌∙◌, ◌∷◌, ◌≡◌, ◌≢◌,
}
use market_networks.Network.Framing.{IsLine, drain_lines-append}
use market_networks.Network.TcpClient.{Sent, blocked}
use market_networks.Network.TcpClient.Sending.{send_message-wire}
use market_networks.Client.Shell.{
  Shell, Flow, going, waiting, quit_line, send, shutdown_writes, shell_lines, leave, read_stdin,
  shell_round, shell_loop, typed, Round,
}
use market_networks.Client.Shell.Forwarding.{
  until_quit, has_quit, as_text, send-prefix, Sent-cases, shutdown_writes-same, Result,
  shell_lines-Result,
}
use market_networks.Client.Shell.Typing.Rounds.{
  ends_input, farewell, Reaches, loop-going, loop-stop, Flow-cases, closed-Reaches, stopped-Reaches,
}
use market_networks.Client.Shell.Typing.Lines.{
  lines_of, Types, first, text-quit, text-next, text-first, Reaches-after,
}

-- A round in which the user types: `s` before the bytes are read, the lines of the buffer then sent.
module _ (bytes : Text) (rounds : List Round) (fd : ℕ) (s t : Shell) (r : Round)
    (e : s.client.fd ≡ some fd) (o : s.stdin_open ≡ true) (q : s.sent_quit ≡ false)
    (turn : shell_round r t ≡ read_stdin (typed bytes) s)
    (later_rounds : (u : Shell)
      → u.client.fd ≡ some fd
      → u.stdin_open ≡ true
      → u.sent_quit ≡ false
      → IsLine u.stdin_buffer
      → Types u u.stdin_buffer rounds (shell_loop rounds u)) where
  abbrev pub buffer : Text
  buffer = s.stdin_buffer ++ bytes

  abbrev before : Shell
  before = record s { stdin_buffer = s.stdin_buffer ++ bytes }

  abbrev result : Flow × Shell
  result = shell_lines (suc (length buffer)) before

  sends : Result before result
  sends = shell_lines-Result (suc (length buffer)) fd before e (omega arith)

  turned : shell_round r t ≡ (result.0, result.1)
  unfolding read_stdin
  turned = turn

  quit-Types :
      result.0 ≡ going
      → has_quit (first buffer rounds) ≡ true
      → Types s buffer rounds (shell_loop (r ∷ rounds) t)
  quit-Types g h =
      rw
        (
          loop-going r rounds t result.1 (turned ∙ ap (λ x. (x, result.1)) g),
          (text-quit buffer rounds h).0,
          (text-quit buffer rounds h).1,
        )
        (closed-Reaches rounds result.1 s.wire (as_text (until_quit (first buffer rounds))) [] [] []
          (sends.quits g h).0 (sends.whole g ∙ ap (λ x. s.wire ++ x) (sym (append-nil _))) refl)

  more-Types :
      result.0 ≡ going
      → has_quit (first buffer rounds) ≡ false
      → Types s buffer rounds (shell_loop (r ∷ rounds) t)
  more-Types g h =
      let (a, b, c) = sends.stays g h in
      rw
        (
          loop-going r rounds t result.1 (turned ∙ ap (λ x. (x, result.1)) g),
          (text-next buffer rounds h).0,
          (text-next buffer rounds h).1,
        )
        (Reaches-after s.wire (as_text (until_quit (first buffer rounds))) _ _ result.1.wire
          (shell_loop rounds result.1) (sends.whole g)
          (subst (λ x. Types result.1 x rounds (shell_loop rounds result.1)) a
            (later_rounds result.1 (sends.connected ∙ e) (b ∙ o) (c ∙ q)
              (subst IsLine (sym a) (drain_lines-append buffer []).1))))

  stop-Types : result.0 ≢ going → Types s buffer rounds (shell_loop (r ∷ rounds) t)
  stop-Types stop =
      let (rest, p) = sends.prefix in
      let (more, m) = text-first buffer rounds in
      let bye = farewell (ends_input rounds) (lines_of buffer rounds) in
      rw (loop-stop r rounds t result.1 result.0 turned stop) (
        stopped-Reaches s.wire _ bye (rest ++ (more ++ bye)) result.0 result.1 stop (
          sym (append_assoc result.1.wire rest (more ++ bye))
          ∙ ap (λ x. x ++ (more ++ bye)) p
          ∙ append_assoc s.wire _ (more ++ bye)
          ∙ ap (λ x. s.wire ++ x)
              (sym (append_assoc (as_text (until_quit (first buffer rounds))) more bye)
                ∙ ap (λ x. x ++ bye) (sym m))))

  pub typed-Types : Types s buffer rounds (shell_loop (r ∷ rounds) t)
  typed-Types = elim (Flow-cases result.0) [
    | inl g ↦ elim (Bool-cases (has_quit (first buffer rounds))) [
      | inl quit ↦ quit-Types g quit
      | inr more ↦ more-Types g more
    ]
    | inr stop ↦ stop-Types stop
  ]

-- The input ends: the shell sends QUIT, or as much of it as the kernel takes.
module _ (rounds : List Round) (fd : ℕ) (s t : Shell) (r : Round) (e : s.client.fd ≡ some fd)
    (q : s.sent_quit ≡ false) (c : s.stdin_open ≡ false) (turn : shell_round r t ≡ leave s) where
  abbrev told : Sent × Shell
  told = send (quit_line ++ 10 ∷ []) (record s { sent_quit = true })

  leave-Reaches :
      told.0 ≢ blocked
      → leave s ≡ (going, shutdown_writes told.1)
      → Reaches s.wire [] (quit_line ++ 10 ∷ []) (shell_loop (r ∷ rounds) t)
  unfolding send
  leave-Reaches _ turned =
      let (left, whole, _) =
        send_message-wire (quit_line ++ 10 ∷ []) fd s.client s.send_answers e in
      let (w, o, _, _) = shutdown_writes-same told.1 in
      rw (loop-going r rounds t (shutdown_writes told.1) (turn ∙ turned)) (
        closed-Reaches rounds (shutdown_writes told.1) s.wire [] _ left (quit_line ++ 10 ∷ [])
          (o ∙ c) w whole)

  pub leave-Types : Reaches s.wire [] (quit_line ++ 10 ∷ []) (shell_loop (r ∷ rounds) t)
  unfolding leave
  leave-Types = elim (Sent-cases told.0) [
    | inl d ↦ leave-Reaches (λ g. cc) (rw (leave, q, d))
    | inr (inl b) ↦
        let (left, whole, _) =
          send-prefix (quit_line ++ 10 ∷ []) fd (record s { sent_quit = true }) e in
        rw (loop-stop r rounds t told.1 waiting (turn ∙ rw (leave, q, b)) (λ g. cc))
          (stopped-Reaches s.wire [] (quit_line ++ 10 ∷ []) left waiting told.1 (λ g. cc) whole)
    | inr (inr f) ↦ leave-Reaches (λ g. cc) (rw (leave, q, f))
  ]
