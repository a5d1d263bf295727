-- ===== src/Client/Shell/Typing/Rounds.antt =====
-- The rounds of the loop of src/client_shell.cpp one by one, and the rounds after which nothing more is
-- sent.
use market_networks.Base.{
  Bool, Bool-cases, List, Text, [], ap, append_assoc, arith, false, if◌then◌else◌, inl, inr, not,
  refl, true, ◌&&◌, ◌++◌, ◌∙◌, ◌∷◌, ◌≡◌, ◌≢◌, ◌⊎◌,
}
use market_networks.Network.TcpClient.{RecvAnswer}
use market_networks.Network.TcpClient.Receiving.{receive_messages-fd}
use market_networks.Client.Shell.{
  Shell, Flow, going, ended, waiting, quit_line, read_stdin, read_socket, shell_round, shell_loop,
  StdinAnswer, typed, end_of_input, read_failed, Round, poll_interrupted, poll_failed, ready,
}
use market_networks.Client.Shell.Forwarding.{has_quit}

-- The bytes that the user types before the input ends or fails.
abbrev pub typed_text : List Round → Text
typed_text [] = []
typed_text (ready _ _ (typed bytes) ∷ rounds) = bytes ++ typed_text rounds
typed_text (ready _ _ end_of_input ∷ rounds) = []
typed_text (ready _ _ read_failed ∷ rounds) = []
typed_text (_ ∷ rounds) = typed_text rounds

-- Whether the input ends.
abbrev pub ends_input : List Round → Bool
ends_input [] = false
ends_input (ready _ _ end_of_input ∷ rounds) = true
ends_input (ready _ _ read_failed ∷ rounds) = false
ends_input (_ ∷ rounds) = ends_input rounds

-- The shell takes its leave where the user did not.
abbrev pub farewell : Bool → List Text → Text
farewell ends lines = if ends && not (has_quit lines) then quit_line ++ 10 ∷ [] else []

-- The wire holds a prefix of the two texts; if the loop went on to the end, all of the first.
abbrev pub Reaches : Text → Text → Text → Flow × Shell → Type 0
Reaches wire lines bye r =
    ((left : Text) × (r.1.wire ++ left ≡ wire ++ (lines ++ bye)))
    × (r.0 ≡ going → (q left : Text) × (q ++ left ≡ bye) × (r.1.wire ≡ wire ++ (lines ++ q)))

pub read_socket-same :
    (socket : Bool) (answers : List RecvAnswer) (s : Shell)
    → let t = (read_socket socket answers s).1 in
      (t.wire ≡ s.wire)
      × (t.client.fd ≡ s.client.fd)
      × (t.stdin_buffer ≡ s.stdin_buffer)
      × (t.stdin_open ≡ s.stdin_open)
      × (t.sent_quit ≡ s.sent_quit)
unfolding read_socket
read_socket-same false answers s = (refl, refl, refl, refl, refl)
read_socket-same true answers s = (refl, receive_messages-fd answers [] s.client, refl, refl, refl)

pub loop-going :
    (r : Round) (rounds : List Round) (s t : Shell)
    → shell_round r s ≡ (going, t)
    → shell_loop (r ∷ rounds) s ≡ shell_loop rounds t
unfolding shell_loop
loop-going r rounds s t e =
    rw (shell_loop, ap (λ (x : Flow × Shell). x.0) e, ap (λ (x : Flow × Shell). x.1) e)

pub loop-stop :
    (r : Round) (rounds : List Round) (s t : Shell) (flow : Flow)
    → shell_round r s ≡ (flow, t)
    → flow ≢ going
    → shell_loop (r ∷ rounds) s ≡ (flow, t)
unfolding shell_loop
loop-stop r rounds s t going e h = absurd (h refl)
loop-stop r rounds s t ended e h =
    rw (shell_loop, ap (λ (x : Flow × Shell). x.0) e, ap (λ (x : Flow × Shell). x.1) e)
loop-stop r rounds s t waiting e h =
    rw (shell_loop, ap (λ (x : Flow × Shell). x.0) e, ap (λ (x : Flow × Shell). x.1) e)

pub Flow-cases : (x : Flow) → (x ≡ going) ⊎ (x ≢ going)
Flow-cases going = inl refl
Flow-cases ended = inr (λ e. cc)
Flow-cases waiting = inr (λ e. cc)

pub dead-round :
    (socket : Bool) (answers : List RecvAnswer) (stdin : StdinAnswer) (s : Shell)
    → (read_socket socket answers s).0 ≡ false
    → shell_round (ready socket answers stdin) s ≡ (ended, (read_socket socket answers s).1)
unfolding shell_round
dead-round socket answers stdin s dead = rw (shell_round, dead)

closed-round :
    (socket : Bool) (answers : List RecvAnswer) (stdin : StdinAnswer) (s : Shell)
    → (read_socket socket answers s).0 ≡ true
    → s.stdin_open ≡ false
    → shell_round (ready socket answers stdin) s ≡ (going, (read_socket socket answers s).1)
unfolding shell_round
closed-round socket answers stdin s alive h = ground arith

pub open-round :
    (socket : Bool) (answers : List RecvAnswer) (stdin : StdinAnswer) (s : Shell)
    → (read_socket socket answers s).0 ≡ true
    → s.stdin_open ≡ true
    → shell_round (ready socket answers stdin) s ≡ read_stdin stdin (read_socket socket answers s).1
unfolding shell_round
open-round socket answers stdin s alive h = ground arith

-- Once the input is closed nothing more is sent.
closed-wire :
    (rounds : List Round) (s : Shell) → s.stdin_open ≡ false → (shell_loop rounds s).1.wire ≡ s.wire
unfolding shell_loop shell_round
closed-wire [] s h = refl
closed-wire (poll_interrupted ∷ rounds) s h = closed-wire rounds s h
closed-wire (poll_failed ∷ rounds) s h = refl
closed-wire (ready socket answers stdin ∷ rounds) s h =
    let (w, _, _, o, _) = read_socket-same socket answers s in
    let t = (read_socket socket answers s).1 in
    elim (Bool-cases (read_socket socket answers s).0) [
      | inl alive ↦
          ap (λ (r : Flow × Shell). r.1.wire)
            (loop-going (ready socket answers stdin) rounds s t
              (closed-round socket answers stdin s alive h))
          ∙ closed-wire rounds t (o ∙ h)
          ∙ w
      | inr dead ↦
          ap (λ (r : Flow × Shell). r.1.wire)
            (loop-stop (ready socket answers stdin) rounds s t ended
              (dead-round socket answers stdin s dead) (λ e. cc))
          ∙ w
    ]

-- Where nothing more is sent.
pub closed-Reaches :
    (rounds : List Round) (s : Shell) (wire lines q left bye : Text)
    → s.stdin_open ≡ false
    → s.wire ≡ wire ++ (lines ++ q)
    → q ++ left ≡ bye
    → Reaches wire lines bye (shell_loop rounds s)
closed-Reaches rounds s wire lines q left bye h e f =
    let w : (shell_loop rounds s).1.wire ≡ wire ++ (lines ++ q) = closed-wire rounds s h ∙ e in
    (
      (
        left,
        ap (λ x. x ++ left) w
            ∙ append_assoc wire (lines ++ q) left
            ∙ ap (λ x. wire ++ x) (append_assoc lines q left ∙ ap (λ x. lines ++ x) f),
      ),
      λ _. (q, left, f, w),
    )

-- Where the loop ends early.
pub stopped-Reaches :
    (wire lines bye left : Text) (flow : Flow) (t : Shell)
    → flow ≢ going
    → t.wire ++ left ≡ wire ++ (lines ++ bye)
    → Reaches wire lines bye (flow, t)
stopped-Reaches wire lines bye left flow t stop e = ((left, e), λ g. absurd (stop g))
