-- ===== src/Server/Consuming.antt =====
-- `consume_messages` of src/exchange_server.cpp against the lines of the buffer, cut beforehand.
use market_networks.Base.{
  Bool, Bool-cases, List, Option, Option-cases, Text, [], ap, arith, false, inl, inr, length, none,
  refl, some, suc, sym, true, zero, ℕ, ◌<◌, ◌∙◌, ◌∷◌, ◌≡◌,
}
use market_networks.Base.Assoc.{find}
use market_networks.Network.Framing.{next_line, next_line-length, strip_return, drain_lines}
use market_networks.Network.Framing.Cuts.{cuts_from, cuts, lines_of, lines_of-cuts}
use market_networks.Server.State.{ClientSession, Server, put_session}
use market_networks.Server.Handlers.{handle_message}
use market_networks.Server.Input.{keep_partial, consume_loop, consume_messages}
use market_networks.Server.Sound.{IsSound}
use market_networks.Server.Sound.Dispatching.{handle_message-Steps}
use market_networks.Server.Sound.Reading.{
  with_input-IsSound, with_input-found, consume_messages-Answers,
}

-- The session with another buffer.
unfoldable pub with_input : ℕ → Text → Server → Server
unfolding find put_session
with_input fd inbuf s = elim (find fd s.sessions) [
  | none ↦ s
  | some x ↦ put_session fd (record x { inbuf = inbuf }) s
]

-- The lines are handled one after another, until the client is gone or closes; then what is left is
-- kept, if it is not too long.
unfoldable pub serve : ℕ → List (Text × Text) → Server → Option (Bool × Server)
unfolding find keep_partial handle_message with_input
serve fd [] s = elim (find fd s.sessions) [ none ↦ some (false, s) | some x ↦ keep_partial fd x s ]
serve fd ((line, rest) ∷ more) s = elim (handle_message fd line (with_input fd rest s)) [
  | none ↦ none
  | some s' ↦ elim (find fd s'.sessions) [
    | none ↦ some (false, s')
    | some y ↦ elim y.closing [ true ↦ some (true, s') | false ↦ serve fd more s' ]
  ]
]

with_input-found_session :
    (fd : ℕ) (inbuf : Text) (x : ClientSession) (s : Server)
    → find fd s.sessions ≡ some x
    → with_input fd inbuf s ≡ put_session fd (record x { inbuf = inbuf }) s
unfolding with_input
with_input-found_session fd inbuf x s e = rw (with_input, e) refl

consume_loop-serve :
    (fuel fd : ℕ) (x : ClientSession) (s : Server)
    → IsSound s
    → find fd s.sessions ≡ some x
    → length x.inbuf < fuel
    → consume_loop fuel fd s ≡ serve fd (cuts_from fuel x.inbuf) s
unfolding consume_loop serve
consume_loop-serve zero fd x s v e h = absurd (omega arith)
consume_loop-serve (suc fuel) fd x s v e h = elim (Option-cases (next_line x.inbuf)) [
  | inl n ↦ rw (consume_loop, e, n, serve, e) refl
  | inr ((line, rest), n) ↦
      let y : ClientSession = record x { inbuf = rest } in
      let t : Server = put_session fd y s in
      let (s', f, w, b) =
        handle_message-Steps fd (strip_return line) y t (with_input-IsSound fd x s v e rest)
          (with_input-found fd x s v e rest) in
      let at = with_input-found_session fd rest x s e in
      elim (Option-cases (find fd s'.sessions)) [
        | inl gone ↦ rw (consume_loop, e, n, serve, f, gone, at, f, gone) refl
        | inr (z, there) ↦ elim (Bool-cases z.closing) [
          | inl c ↦ rw (consume_loop, e, n, serve, f, there, c, at, f, there, c) refl
          | inr c ↦
              let (y', was, (shorter, same)) = b.0.0 fd z there in
              let before : y'.inbuf ≡ rest =
                ap (λ (o : Option ClientSession). elim o [ none ↦ rest | some u ↦ u.inbuf ])
                  (sym was ∙ with_input-found fd x s v e rest) in
              let left = (same c).1 ∙ before in
              let short : length z.inbuf < fuel =
                omega (arith, ap length left, next_line-length x.inbuf line rest n) in
              rw (consume_loop, e, n, serve, f, there, c, at, f, there, c)
                (consume_loop-serve fuel fd z s' w there short
                  ∙ ap (λ i. serve fd (cuts_from fuel i) s') left)
        ]
      ]
]

consume_messages-eq :
    (fd : ℕ) (x : ClientSession) (s : Server)
    → IsSound s
    → find fd s.sessions ≡ some x
    → consume_messages fd s ≡ serve fd (cuts x.inbuf) s
unfolding consume_messages
consume_messages-eq fd x s v e =
    rw (consume_messages, e) (consume_loop-serve (suc (length x.inbuf)) fd x s v e (omega arith))

-- The messages of a client. `consume_messages` ends, without undefined behaviour and with the server sound
-- again, and it handles the lines of the client's buffer, which are those that the framing of the
-- clients would cut, each once and in their order: the next line is handled on what the one before leaves,
-- until the client is gone or closes, and the part of a line that remains is kept for the next call or,
-- if it is too long, ends the connection. The conditions: the server is sound, and the client connected.
pub consume_messages-serve :
    (fd : ℕ) (x : ClientSession) (s : Server)
    → IsSound s
    → find fd s.sessions ≡ some x
    → (alive : Bool) × (s' : Server) × (consume_messages fd s ≡ some (alive, s'))
      × (serve fd (cuts x.inbuf) s ≡ some (alive, s'))
      × IsSound s'
      × (lines_of (cuts x.inbuf) ≡ (drain_lines x.inbuf).0)
consume_messages-serve fd x s v e =
    let (alive, s', h, w, _) = consume_messages-Answers fd s v in
    (alive, s', h, sym (consume_messages-eq fd x s v e) ∙ h, w, lines_of-cuts x.inbuf)
