-- ===== src/Server/Sound/Dispatching.antt =====
-- Soundness of `dispatch` and `handle_message` of src/exchange_server.cpp.
use market_networks.Base.{Text, codes, if_cases, inl, inr, refl, some, true, ℕ, ◌≡◌}
use market_networks.Base.Assoc.{find}
use market_networks.Protocol.Command.{
  CommandType, login, buy, sell, cancel, subscribe, unsubscribe, quit, ParsedCommand,
}
use market_networks.Protocol.Parse.{parse}
use market_networks.Protocol.Response.{error_message}
use market_networks.Server.State.{ClientSession, Server}
use market_networks.Server.Handlers.{handle_order, handle_cancel, dispatch, handle_message}
use market_networks.Server.Sound.{live_in, IsSound, Steps}
use market_networks.Server.Sound.Flushing.{send_to-Steps, begin_orderly_close-Steps}
use market_networks.Server.Sound.Handling.{submit_order-Steps, withdraw_order-Steps}
use market_networks.Server.Sound.Roles.{
  handle_login-Steps, handle_subscription-Steps, require_logged_in_trader-cases,
}

-- A client that is logged in has a name.
pub live_of :
    (fd : ℕ) (x : ClientSession) (s : Server)
    → find fd s.sessions ≡ some x
    → x.logged_in ≡ true
    → live_in s fd ≡ true
live_of fd x s e l = rw (e, l)

handle_order-Steps :
    (fd : ℕ) (cmd : ParsedCommand) (x : ClientSession) (s : Server)
    → IsSound s
    → find fd s.sessions ≡ some x
    → Steps s (handle_order fd cmd s)
unfolding handle_order
handle_order-Steps fd cmd x s v e = elim (require_logged_in_trader-cases fd cmd.type x s v e) [
  | inl (l, r) ↦ rw r (submit_order-Steps fd cmd s v (live_of fd x s e l))
  | inr (t, r, w, b) ↦ rw r (t, refl, w, b)
]

handle_cancel-Steps :
    (fd : ℕ) (cmd : ParsedCommand) (x : ClientSession) (s : Server)
    → IsSound s
    → find fd s.sessions ≡ some x
    → Steps s (handle_cancel fd cmd s)
unfolding handle_cancel
handle_cancel-Steps fd cmd x s v e = elim (require_logged_in_trader-cases fd cmd.type x s v e) [
  | inl (_, r) ↦ rw r (withdraw_order-Steps fd cmd.order_id s v)
  | inr (t, r, w, b) ↦ rw r (t, refl, w, b)
]

dispatch-Steps :
    (fd : ℕ) (type : CommandType) (cmd : ParsedCommand) (x : ClientSession) (s : Server)
    → IsSound s
    → find fd s.sessions ≡ some x
    → Steps s (dispatch fd type cmd s)
unfolding dispatch
dispatch-Steps fd quit cmd x s v e = begin_orderly_close-Steps fd s v
dispatch-Steps fd login cmd x s v e = handle_login-Steps fd cmd x s v e
dispatch-Steps fd subscribe cmd x s v e = handle_subscription-Steps fd cmd x s v e
dispatch-Steps fd unsubscribe cmd x s v e = handle_subscription-Steps fd cmd x s v e
dispatch-Steps fd buy cmd x s v e = handle_order-Steps fd cmd x s v e
dispatch-Steps fd sell cmd x s v e = handle_order-Steps fd cmd x s v e
dispatch-Steps fd cancel cmd x s v e = handle_cancel-Steps fd cmd x s v e
dispatch-Steps fd CommandType.unknown cmd x s v e =
    send_to-Steps fd (error_message (codes "Unknown command")) s v

-- Whatever line a client of a sound server sends, handling it is defined behaviour and leaves the
-- server sound; no session is new after it, and none has more input waiting.
pub handle_message-Steps :
    (fd : ℕ) (line : Text) (x : ClientSession) (s : Server)
    → IsSound s
    → find fd s.sessions ≡ some x
    → Steps s (handle_message fd line s)
unfolding handle_message
handle_message-Steps fd line x s v e =
    if_cases (Steps s) (parse line).valid
      (λ _. dispatch-Steps fd (parse line).type (parse line) x s v e)
      (λ _. send_to-Steps fd (error_message (parse line).error) s v)
