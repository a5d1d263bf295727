-- ===== src/Network/TcpClient.antt =====
-- src/network/tcp_client.hpp and tcp_client.cpp. The kernel's answers to the successive calls of
-- `send`, `poll` and `recv` are a list that the caller of the model gives; texts of `strerror` come
-- with them.
pub mod Sending
pub mod Receiving
use market_networks.Base.{
  Bool, List, Option, Text, [], codes, drop, false, if◌then◌else◌, length, ltb, none, some, suc,
  take, true, zero, ℕ, ◌++◌, ◌-◌, ◌∷◌,
}
use market_networks.Network.Framing.{drain_lines}

pub record TcpClient : Type 0 where
  -- `none` is the descriptor -1.
  pub fd : Option ℕ
  pub inbuf : Text
  pub error : Text

-- What `send` answers: `wrote n` is n + 1 bytes taken, `wrote_nothing` is 0. After `would_block` the
-- client waits in `poll` for room; `poll_failed` is a `would_block` whose `poll` fails.
pub data SendAnswer : Type 0 where
  wrote : ℕ → SendAnswer
  wrote_nothing : Text → SendAnswer
  interrupted : SendAnswer
  would_block : SendAnswer
  poll_failed : Text → SendAnswer
  send_failed : Text → SendAnswer

pub data RecvAnswer : Type 0 where
  received : Text → RecvAnswer
  closed : RecvAnswer
  recv_interrupted : RecvAnswer
  recv_would_block : RecvAnswer
  recv_failed : Text → RecvAnswer

-- What a call of `send_message` comes to: `blocked` where the list of answers ends first.
pub data Sent : Type 0 where
  delivered blocked failed : Sent

-- The loop of `send_message`: `left` is the part of the line not yet written, `wire` what the kernel
-- has taken. `send` writes at most what it is given.
pub send_loop :
    Text → Text → TcpClient → List SendAnswer → Sent × Text × TcpClient × List SendAnswer
send_loop [] wire c answers = (delivered, wire, c, answers)
send_loop (b ∷ bs) wire c [] = (blocked, wire, c, [])
send_loop (b ∷ bs) wire c (wrote_nothing why ∷ answers) =
    (failed, wire, record c { error = codes "send() failed: " ++ why }, answers)
send_loop (b ∷ bs) wire c (wrote n ∷ answers) =
    send_loop (drop n bs) (wire ++ (b ∷ take n bs)) c answers
send_loop (b ∷ bs) wire c (interrupted ∷ answers) = send_loop (b ∷ bs) wire c answers
send_loop (b ∷ bs) wire c (would_block ∷ answers) = send_loop (b ∷ bs) wire c answers
send_loop (b ∷ bs) wire c (poll_failed why ∷ answers) =
    (failed, wire, record c { error = codes "poll() failed: " ++ why }, answers)
send_loop (b ∷ bs) wire c (send_failed why ∷ answers) =
    (failed, wire, record c { error = codes "send() failed: " ++ why }, answers)

unfoldable pub send_message :
    Text → TcpClient → List SendAnswer → Sent × Text × TcpClient × List SendAnswer
unfolding send_loop
send_message line c answers = elim c.fd [
  | none ↦ (failed, [], c, answers)
  | some fd ↦ send_loop line [] c answers
]

abbrev pub buffer_bytes : ℕ
buffer_bytes = 8192

-- The loop of `receive_messages`, `out` the messages so far: whether the connection is alive, the
-- messages, the client, and the answers not used.
pub receive_loop :
    List RecvAnswer → List Text → TcpClient → Bool × List Text × TcpClient × List RecvAnswer
receive_loop [] out c = (true, out, c, [])
receive_loop (received bytes ∷ answers) out c =
    let (lines, left) = drain_lines (c.inbuf ++ bytes) in
    let c' : TcpClient = record c { inbuf = left } in
    let more = receive_loop answers (out ++ lines) c' in
    if ltb (length bytes) buffer_bytes then (true, out ++ lines, c', answers) else more
receive_loop (closed ∷ answers) out c =
    (false, out, record c { error = codes "server closed the connection" }, answers)
receive_loop (recv_interrupted ∷ answers) out c = receive_loop answers out c
receive_loop (recv_would_block ∷ answers) out c = (true, out, c, answers)
receive_loop (recv_failed why ∷ answers) out c =
    (false, out, record c { error = codes "recv() failed: " ++ why }, answers)

unfoldable pub receive_messages :
    List RecvAnswer → List Text → TcpClient → Bool × List Text × TcpClient × List RecvAnswer
unfolding receive_loop
receive_messages answers out c = receive_loop answers out c

unfoldable pub disconnect : TcpClient → TcpClient
disconnect c = record c { fd = none }

-- What the kernel hands over in a list of answers.
abbrev pub stream : List RecvAnswer → Text
stream [] = []
stream (received bytes ∷ answers) = bytes ++ stream answers
stream (_ ∷ answers) = stream answers

-- The answers let a message of so many bytes through: the kernel takes enough and nothing fails.
abbrev pub Admits : ℕ → List SendAnswer → Type 0
Admits zero answers = Unit {0}
Admits (suc k) [] = ⊥
Admits (suc k) (wrote n ∷ answers) = Admits (k - n) answers
Admits (suc k) (interrupted ∷ answers) = Admits (suc k) answers
Admits (suc k) (would_block ∷ answers) = Admits (suc k) answers
Admits (suc k) (_ ∷ answers) = ⊥
