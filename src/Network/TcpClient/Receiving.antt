-- ===== src/Network/TcpClient/Receiving.antt =====
-- `receive_messages` of src/network/tcp_client.cpp.
use market_networks.Base.{
  Bool-cases, List, Text, [], append_assoc, arith, inl, inr, length, ltb, refl, ◌++◌, ◌∙◌, ◌∷◌, ◌≡◌,
}
use market_networks.Network.Framing.{drain_lines, drain_lines-append}
use market_networks.Network.TcpClient.{
  TcpClient, RecvAnswer, buffer_bytes, receive_loop, receive_messages, stream, received, closed,
  recv_interrupted, recv_would_block, recv_failed,
}

received_round :
    (bytes later : Text) (out : List Text) (c : TcpClient)
    → let (lines, left) = drain_lines (c.inbuf ++ bytes) in
      let whole = drain_lines (c.inbuf ++ (bytes ++ later)) in
      ◌≡◌ {A = List Text × Text}
        (out ++ whole.0, whole.1)
        ((out ++ lines) ++ (drain_lines (left ++ later)).0, (drain_lines (left ++ later)).1)
received_round bytes later out c =
    rw (← append_assoc c.inbuf bytes later, (drain_lines-append (c.inbuf ++ bytes) later).0)
      (ground (
        arith,
        append_assoc out (drain_lines (c.inbuf ++ bytes)).0
            (drain_lines ((drain_lines (c.inbuf ++ bytes)).1 ++ later)).0,
      ))

receive_loop-stream :
    (answers : List RecvAnswer) (out : List Text) (c : TcpClient)
    → let (alive, out', c', rest) = receive_loop answers out c in
      let (later, left) = drain_lines (c'.inbuf ++ stream rest) in
      ◌≡◌ {A = List Text × Text}
        (
          out ++ (drain_lines (c.inbuf ++ stream answers)).0,
          (drain_lines (c.inbuf ++ stream answers)).1,
        )
        (out' ++ later, left)
unfolding receive_loop
receive_loop-stream [] out c = refl
receive_loop-stream (received bytes ∷ answers) out c =
    let (lines, left) = drain_lines (c.inbuf ++ bytes) in
    let c' : TcpClient = record c { inbuf = left } in
    elim (Bool-cases (ltb (length bytes) buffer_bytes)) [
      | inl short ↦ rw short (received_round bytes (stream answers) out c)
      | inr full ↦ rw full (
          received_round bytes (stream answers) out c
          ∙ receive_loop-stream answers (out ++ lines) c')
    ]
receive_loop-stream (closed ∷ answers) out c = refl
receive_loop-stream (recv_interrupted ∷ answers) out c = receive_loop-stream answers out c
receive_loop-stream (recv_would_block ∷ answers) out c = refl
receive_loop-stream (recv_failed why ∷ answers) out c = refl

-- Whatever the sizes of the pieces in which `recv` hands the stream over, the messages of a call and
-- the buffer that it leaves account for every byte: with the rest of the stream they make exactly
-- the messages of the whole.
pub receive_messages-stream :
    (answers : List RecvAnswer) (c : TcpClient)
    → let (alive, out, c', rest) = receive_messages answers [] c in
      let (later, left) = drain_lines (c'.inbuf ++ stream rest) in
      drain_lines (c.inbuf ++ stream answers) ≡ (out ++ later, left)
unfolding receive_messages
receive_messages-stream answers c = receive_loop-stream answers [] c

receive_loop-fd :
    (answers : List RecvAnswer) (out : List Text) (c : TcpClient)
    → (receive_loop answers out c).2.fd ≡ c.fd
unfolding receive_loop
receive_loop-fd [] out c = refl
receive_loop-fd (received bytes ∷ answers) out c =
    let (lines, left) = drain_lines (c.inbuf ++ bytes) in
    let c' : TcpClient = record c { inbuf = left } in
    elim (Bool-cases (ltb (length bytes) buffer_bytes)) [
      | inl short ↦ rw short
      | inr full ↦ rw full (receive_loop-fd answers (out ++ lines) c')
    ]
receive_loop-fd (closed ∷ answers) out c = refl
receive_loop-fd (recv_interrupted ∷ answers) out c = receive_loop-fd answers out c
receive_loop-fd (recv_would_block ∷ answers) out c = refl
receive_loop-fd (recv_failed why ∷ answers) out c = refl

-- Receiving leaves the connection's descriptor alone.
pub receive_messages-fd :
    (answers : List RecvAnswer) (out : List Text) (c : TcpClient)
    → (receive_messages answers out c).2.fd ≡ c.fd
unfolding receive_messages
receive_messages-fd answers out c = receive_loop-fd answers out c
