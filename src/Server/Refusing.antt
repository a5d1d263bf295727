-- ===== src/Server/Refusing.antt =====
-- The refusals of src/exchange_server.cpp: who may not trade.
use market_networks.Base.{
  Bool, Bool-cases, Option, Text, codes, false, if◌then◌else◌, inl, inr, none, refl, some, sym,
  true, ℕ, ◌++◌, ◌>>=◌, ◌||◌, ◌∙◌, ◌≡◌,
}
use market_networks.Base.Assoc.{find}
use market_networks.Protocol.Command.{
  CommandType, unknown, login, buy, sell, cancel, subscribe, unsubscribe, quit, ParsedCommand, verb,
}
use market_networks.Protocol.Parse.{parse}
use market_networks.Protocol.Response.{error_message}
use market_networks.Server.State
use market_networks.Server.State.{trader, ClientSession, Server}
use market_networks.Server.Output.{send_to}
use market_networks.Server.Handlers.{
  role_name, same_role, wrong_role, reject_wrong_role, require_logged_in_trader, handle_order,
  handle_cancel, dispatch, handle_message,
}
use market_networks.Server.Sending.Stream.{Sends, send_to-FlushedAt}
use market_networks.Server.Sending.Keeping.{shared, send_to-Keeps}
use market_networks.Server.Sound.{IsSound}
use market_networks.Server.Sound.Dispatching.{handle_message-Steps}

-- The commands that only a trader may send.
abbrev pub is_trading : CommandType → Bool
is_trading buy = true
is_trading sell = true
is_trading cancel = true
is_trading _ = false

abbrev not_logged_in : Text
not_logged_in = codes "Not logged in: send LOGIN <username> before trading"

abbrev answering : Bool → Server → Option (Bool × Server)
answering b s = some (b, s)

-- A reply, and then nothing more of the command.
relay-false :
    (r : Option Server) (f : Server → Option Server)
    → (r >>= answering false >>= (λ x. if x.0 then f x.1 else some x.1)) ≡ r
relay-false none f = refl
relay-false (some s) f = refl

relay_twice :
    (r : Option Server) (g : Server → Option (Bool × Server)) (f : Server → Option Server)
    → (r
        >>= answering true
        >>= (λ x. if x.0 then answering false x.1 else g x.1)
        >>= (λ x. if x.0 then f x.1 else some x.1))
      ≡ r
relay_twice none g f = refl
relay_twice (some s) g f = refl

-- An error is sent, and that is all.
abbrev Refuses : ℕ → Server → Option Server → Type 0
Refuses fd s r = (why : Text) × (r ≡ send_to fd (error_message why) s)

module _ (fd : ℕ) (x : ClientSession) (s : Server) (e : find fd s.sessions ≡ some x)
    (l : x.logged_in ≡ false) where
  wrong : CommandType → Text
  wrong type =
      verb type ++ (codes " is not permitted for a " ++ (role_name x.role ++ codes " client"))

  handle_order-Refuses : (cmd : ParsedCommand) → Refuses fd s (handle_order fd cmd s)
  unfolding handle_order require_logged_in_trader reject_wrong_role wrong_role wrong
  handle_order-Refuses cmd =
      elim (Bool-cases (same_role x.role State.unknown || same_role x.role trader)) [
        | inl h ↦ (
          not_logged_in,
          rw (e, h, e, l) (relay-false (send_to fd (error_message not_logged_in) s) _),
        )
        | inr h ↦ (
          wrong cmd.type,
          rw (e, h) (relay_twice (send_to fd (error_message (wrong cmd.type)) s) _ _),
        )
      ]

  handle_cancel-Refuses : (cmd : ParsedCommand) → Refuses fd s (handle_cancel fd cmd s)
  unfolding handle_cancel require_logged_in_trader reject_wrong_role wrong_role wrong
  handle_cancel-Refuses cmd =
      elim (Bool-cases (same_role x.role State.unknown || same_role x.role trader)) [
        | inl h ↦ (
          not_logged_in,
          rw (e, h, e, l) (relay-false (send_to fd (error_message not_logged_in) s) _),
        )
        | inr h ↦ (
          wrong cmd.type,
          rw (e, h) (relay_twice (send_to fd (error_message (wrong cmd.type)) s) _ _),
        )
      ]

  dispatch-Refuses :
      (type : CommandType) (cmd : ParsedCommand)
      → is_trading type ≡ true
      → Refuses fd s (dispatch fd type cmd s)
  unfolding dispatch
  dispatch-Refuses buy cmd h = handle_order-Refuses cmd
  dispatch-Refuses sell cmd h = handle_order-Refuses cmd
  dispatch-Refuses cancel cmd h = handle_cancel-Refuses cmd
  dispatch-Refuses unknown cmd h = cc
  dispatch-Refuses login cmd h = cc
  dispatch-Refuses subscribe cmd h = cc
  dispatch-Refuses unsubscribe cmd h = cc
  dispatch-Refuses quit cmd h = cc

  handle_message-Refuses :
      (line : Text) → is_trading (parse line).type ≡ true → Refuses fd s (handle_message fd line s)
  unfolding handle_message
  handle_message-Refuses line h = elim (Bool-cases (parse line).valid) [
    | inl valid ↦
        let (why, done) = dispatch-Refuses (parse line).type (parse line) h in
        (why, rw (handle_message, valid) done)
    | inr invalid ↦ ((parse line).error, rw (handle_message, invalid) refl)
  ]

-- Only those who are logged in trade. A line whose verb is BUY, SELL or CANCEL, well formed or not, of a
-- client that is not logged in, whatever its role, is answered with an error that is appended to its
-- stream. No other stream and no other session changes, the client's own role, name and subscriptions do
-- not, and the book, the lists of subscribers and the names stay, unless sending the error drops the
-- client. The conditions: the server is sound, and the client connected.
pub handle_message-refuses :
    (fd : ℕ) (line : Text) (s : Server) (x : ClientSession)
    → IsSound s
    → find fd s.sessions ≡ some x
    → x.logged_in ≡ false
    → is_trading (parse line).type ≡ true
    → (why : Text) × (s' : Server) × (handle_message fd line s ≡ some s')
      × Sends fd (error_message why) x s s'
      × ((y : ClientSession) → find fd s'.sessions ≡ some y → shared s' ≡ shared s)
handle_message-refuses fd line s x v e l h =
    let w = v.sessions fd x e in
    let (why, refused) = handle_message-Refuses fd x s e l line h in
    let (s', f, _, _) = handle_message-Steps fd line x s v e in
    let sent = sym refused ∙ f in
    (
      why,
      s',
      f,
      send_to-FlushedAt fd (error_message why) s s' x w.keyed w.consumed e sent,
      send_to-Keeps fd (error_message why) s s' x w.keyed e sent,
    )
