-- ===== src/Server/Input.antt =====
-- The input path of src/exchange_server.cpp: `consume_messages` and `on_readable`. The kernel's
-- answers to the calls of `recv` in one `on_readable` are a list; when it ends, the socket is dry.
use market_networks.Base.{
  Bool, List, Option, Text, [], codes, false, if◌then◌else◌, length, ltb, none, not, some, suc,
  true, zero, ℕ, ◌&&◌, ◌*◌, ◌++◌, ◌>>=◌, ◌∷◌,
}
use market_networks.Base.Assoc.{find}
use market_networks.Protocol.Integer.{to_string}
use market_networks.Protocol.Response.{error_message}
use market_networks.Network.Framing.{next_line, strip_return}
use market_networks.Server.State.{ClientSession, Server, put_session}
use market_networks.Server.Output.{read_chunk, drop_client, send_to, begin_orderly_close}
use market_networks.Server.Handlers.{handle_message}

abbrev pub max_line_bytes : ℕ
max_line_bytes = 64 * 1024

unfoldable pub too_long : Text
unfolding error_message to_string
too_long =
    error_message
      (codes "Message exceeds " ++ (to_string max_line_bytes ++ codes " bytes without a newline"))

-- A buffer with no newline: a partial message, or one that is too long.
unfoldable pub keep_partial : ℕ → ClientSession → Server → Option (Bool × Server)
unfolding send_to begin_orderly_close too_long
keep_partial fd x s =
    if ltb max_line_bytes (length x.inbuf)
    then (do s1 ← send_to fd too_long s; s2 ← begin_orderly_close fd s1; some (false, s2))
    else some (true, s)

-- On fuel; running out of it is a fault, which `consume_messages` is shown to avoid.
unfoldable pub consume_loop : ℕ → ℕ → Server → Option (Bool × Server)
consume_loop zero fd s = none
consume_loop (suc fuel) fd s = elim (find fd s.sessions) [
  | none ↦ some (false, s)
  | some x ↦ elim (next_line x.inbuf) [
    | none ↦ keep_partial fd x s
    | some (line, rest) ↦
        elim (handle_message fd (strip_return line)
          (put_session fd (record x { inbuf = rest }) s)) [
            | none ↦ none
            | some s' ↦ elim (find fd s'.sessions) [
              | none ↦ some (false, s')
              | some y ↦ elim y.closing [ true ↦ some (true, s') | false ↦ consume_loop fuel fd s' ]
            ]
          ]
  ]
]

-- Each round takes a line off the session's buffer.
unfoldable pub consume_messages : ℕ → Server → Option (Bool × Server)
unfolding consume_loop keep_partial next_line strip_return put_session handle_message find
consume_messages fd s = elim (find fd s.sessions) [
  | none ↦ some (false, s)
  | some x ↦ consume_loop (suc (length x.inbuf)) fd s
]

pub data RecvAnswer : Type 0 where
  received : Text → RecvAnswer
  closed interrupted would_block failed : RecvAnswer

unfoldable pub on_readable : ℕ → List RecvAnswer → Server → Option Server
unfolding consume_messages find put_session begin_orderly_close drop_client
on_readable fd [] s = some s
on_readable fd (answer ∷ answers) s = elim (find fd s.sessions) [
  | none ↦ some s
  | some x ↦ elim x.closing [
    | true ↦ some s
    | false ↦ elim answer [
      | received bytes ↦
          elim (consume_messages fd (put_session fd (record x { inbuf = x.inbuf ++ bytes }) s)) [
            | none ↦ none
            | some (alive, s') ↦ elim (alive && not (ltb (length bytes) read_chunk)) [
              | true ↦ on_readable fd answers s'
              | false ↦ some s'
            ]
          ]
      | closed ↦ begin_orderly_close fd s
      | interrupted ↦ on_readable fd answers s
      | would_block ↦ some s
      | failed ↦ drop_client fd s
    ]
  ]
]
