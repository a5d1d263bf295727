-- ===== src/Network/TcpClient/Sending.antt =====
-- `send_message` of src/network/tcp_client.cpp.
use market_networks.Base.{
  List, Option-cases, Text, [], ap, append-nil, append_assoc, drop, inl, inr, length, length-drop,
  refl, some, sym, take, take-append-drop, ℕ, ◌++◌, ◌↔◌, ◌∙◌, ◌∷◌, ◌≡◌,
}
use market_networks.Network.TcpClient.{
  TcpClient, SendAnswer, wrote, wrote_nothing, interrupted, would_block, poll_failed, send_failed,
  Sent, delivered, send_loop, send_message, Admits,
}

abbrev Accounts : Text → Text → Sent × Text × TcpClient × List SendAnswer → Type 0
Accounts line wire r =
    (left : Text) × (r.1 ++ left ≡ wire ++ line) × ((r.0 ≡ delivered) ↔ (left ≡ []))

send_loop-Accounts :
    (line wire : Text) (c : TcpClient) (answers : List SendAnswer)
    → Accounts line wire (send_loop line wire c answers)
unfolding send_loop
send_loop-Accounts [] wire c answers = ([], refl, ((λ e. refl), λ e. refl))
send_loop-Accounts (b ∷ bs) wire c [] = (b ∷ bs, refl, ((λ e. cc), λ e. cc))
send_loop-Accounts (b ∷ bs) wire c (wrote n ∷ answers) =
    let (left, e, f) = send_loop-Accounts (drop n bs) (wire ++ (b ∷ take n bs)) c answers in
    (
      left,
      e
          ∙ append_assoc wire (b ∷ take n bs) (drop n bs)
          ∙ ap (λ t. wire ++ (b ∷ t)) (take-append-drop n bs),
      f,
    )
send_loop-Accounts (b ∷ bs) wire c (interrupted ∷ answers) =
    send_loop-Accounts (b ∷ bs) wire c answers
send_loop-Accounts (b ∷ bs) wire c (would_block ∷ answers) =
    send_loop-Accounts (b ∷ bs) wire c answers
send_loop-Accounts (b ∷ bs) wire c (_ ∷ answers) = (b ∷ bs, refl, ((λ e. cc), λ e. cc))

send_loop-delivers :
    (line wire : Text) (c : TcpClient) (answers : List SendAnswer)
    → Admits (length line) answers
    → (send_loop line wire c answers).0 ≡ delivered
unfolding send_loop
send_loop-delivers [] wire c answers h = refl
send_loop-delivers (b ∷ bs) wire c [] h = absurd h
send_loop-delivers (b ∷ bs) wire c (wrote n ∷ answers) h =
    send_loop-delivers (drop n bs) (wire ++ (b ∷ take n bs)) c answers (rw (length-drop n bs) h)
send_loop-delivers (b ∷ bs) wire c (interrupted ∷ answers) h =
    send_loop-delivers (b ∷ bs) wire c answers h
send_loop-delivers (b ∷ bs) wire c (would_block ∷ answers) h =
    send_loop-delivers (b ∷ bs) wire c answers h
send_loop-delivers (b ∷ bs) wire c (_ ∷ answers) h = absurd h

send_loop-fd :
    (line wire : Text) (c : TcpClient) (answers : List SendAnswer)
    → (send_loop line wire c answers).2.fd ≡ c.fd
unfolding send_loop
send_loop-fd [] wire c answers = refl
send_loop-fd (b ∷ bs) wire c [] = refl
send_loop-fd (b ∷ bs) wire c (wrote n ∷ answers) =
    send_loop-fd (drop n bs) (wire ++ (b ∷ take n bs)) c answers
send_loop-fd (b ∷ bs) wire c (interrupted ∷ answers) = send_loop-fd (b ∷ bs) wire c answers
send_loop-fd (b ∷ bs) wire c (would_block ∷ answers) = send_loop-fd (b ∷ bs) wire c answers
send_loop-fd (b ∷ bs) wire c (wrote_nothing why ∷ answers) = refl
send_loop-fd (b ∷ bs) wire c (poll_failed why ∷ answers) = refl
send_loop-fd (b ∷ bs) wire c (send_failed why ∷ answers) = refl

-- Sending leaves the connection's descriptor alone.
pub send_message-fd :
    (line : Text) (c : TcpClient) (answers : List SendAnswer)
    → (send_message line c answers).2.fd ≡ c.fd
unfolding send_message
send_message-fd line c answers = elim (Option-cases c.fd) [
  | inl e ↦ rw (send_message, e) e
  | inr (fd, e) ↦ rw (send_message, e) (send_loop-fd line [] c answers ∙ e)
]

-- On an open connection the kernel takes a prefix of the message, in order; it is the whole message
-- exactly if the call succeeds.
pub send_message-wire :
    (line : Text) (fd : ℕ) (c : TcpClient) (answers : List SendAnswer)
    → c.fd ≡ some fd
    → let (sent, wire, c', rest) = send_message line c answers in
      (left : Text) × (wire ++ left ≡ line) × ((sent ≡ delivered) ↔ (left ≡ []))
unfolding send_message
send_message-wire line fd c answers e = rw (e, send_message) (send_loop-Accounts line [] c answers)

-- The loop ends with success as soon as the kernel has taken enough bytes, however often it
-- interrupts the call or has no room.
pub send_message-delivers :
    (line : Text) (fd : ℕ) (c : TcpClient) (answers : List SendAnswer)
    → c.fd ≡ some fd
    → Admits (length line) answers
    → ((send_message line c answers).0 ≡ delivered) × ((send_message line c answers).1 ≡ line)
send_message-delivers line fd c answers e h =
    let sent : (send_message line c answers).0 ≡ delivered =
      unfold send_message in rw (e, send_message) (send_loop-delivers line [] c answers h) in
    let (left, whole, iff) = send_message-wire line fd c answers e in
    (
      sent,
      sym (append-nil _)
          ∙ ap (λ t. (send_message line c answers).1 ++ t) (sym (iff.0 sent))
          ∙ whole,
    )
