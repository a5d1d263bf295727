-- ===== src/Server/Handlers.antt =====
-- The protocol handlers of src/exchange_server.cpp. `sessions_[fd]` on a descriptor without a session
-- would make one up; here that is a fault, `none`, which never happens (`handle_message` is called
-- for a session that is there, and each handler reads it before it sends anything).
use market_networks.Base.{
  Bool, List, Option, Text, [], codes, false, if◌then◌else◌, none, not, some, true, ℕ, ◌&&◌, ◌++◌,
  ◌>>=◌, ◌||◌, ◌∷◌,
}
use market_networks.Base.Assoc.{find}
use market_networks.Protocol.Command.{
  CommandType, login, buy, sell, cancel, subscribe, unsubscribe, quit, ParsedCommand, verb,
}
use market_networks.Protocol.Parse.{parse}
use market_networks.Protocol.Response.{
  ok_message, error_message, order_accepted, order_cancelled, bought, sold, trade,
}
use market_networks.Trading.OrderBook.{add_order, cancel_order, Cancelled, done, refused}
use market_networks.Trading.OrderBook.Queue.{Side}
use market_networks.Trading.OrderBook.Matching.{TradeExecution}
use market_networks.Server.State.{
  ClientRole, unknown, trader, market_data, ClientSession, Server, has_text, insert_text,
  erase_text, insert_fd, erase_fd, put_subscribers, put_session,
}
use market_networks.Server.Output.{send_to, begin_orderly_close}

unfoldable pub role_name : ClientRole → Text
role_name trader = codes "trader"
role_name _ = codes "market-data"

unfoldable pub same_role : ClientRole → ClientRole → Bool
same_role unknown unknown = true
same_role trader trader = true
same_role market_data market_data = true
same_role _ _ = false

unfoldable pub wrong_role : ClientRole → CommandType → Text
unfolding error_message verb role_name
wrong_role role type =
    error_message
      (verb type ++ (codes " is not permitted for a " ++ (role_name role ++ codes " client")))

-- `reject_wrong_role`: whether the command was rejected.
unfoldable pub reject_wrong_role : ℕ → ClientRole → CommandType → Server → Option (Bool × Server)
unfolding find same_role wrong_role send_to
reject_wrong_role fd required type s = do
  x ← find fd s.sessions
  if same_role x.role unknown || same_role x.role required
      then some (false, s)
      else do s' ← send_to fd (wrong_role x.role type) s; some (true, s')

-- `handle_login` of a client whose role allows it.
unfoldable pub login_client : ℕ → Text → ClientSession → Server → Option Server
unfolding has_text insert_text put_session send_to error_message ok_message
login_client fd username x s =
    if x.logged_in
    then send_to fd (error_message (codes "Already logged in as " ++ x.username)) s
    else if has_text username s.usernames
    then send_to fd (error_message (codes "Username " ++ (username ++ codes " is already in use")))
        s
    else do
      let y : ClientSession = record x { role = trader; username = username; logged_in = true }
      let s' = put_session fd y s
      send_to fd ok_message (record s' { usernames = insert_text username s.usernames })

unfoldable pub first_or : Text → List Text → Text
first_or d [] = d
first_or d (t ∷ ts) = t

unfoldable pub handle_login : ℕ → ParsedCommand → Server → Option Server
unfolding reject_wrong_role login_client find first_or
handle_login fd cmd s = do
  (rejected, s') ← reject_wrong_role fd trader cmd.type s
  if rejected
      then some s'
      else do x ← find fd s'.sessions; login_client fd (first_or [] cmd.args) x s'

unfoldable pub is_subscribe : CommandType → Bool
is_subscribe subscribe = true
is_subscribe _ = false

unfoldable pub change_subscription : ℕ → Text → Bool → ClientSession → Server → Option Server
unfolding has_text insert_text erase_text insert_fd erase_fd put_subscribers put_session send_to
    error_message ok_message same_role
change_subscription fd i subscribing x s =
    if not subscribing && not (has_text i x.subscriptions)
    then send_to fd (error_message (codes "Not subscribed to " ++ i)) s
    else do
      let y : ClientSession = record x {
        role = if same_role x.role unknown then market_data else x.role;
        subscriptions =
            if subscribing then insert_text i x.subscriptions else erase_text i x.subscriptions;
      }
      let s' = put_session fd y s
      send_to fd ok_message (record s' {
        subscribers =
            put_subscribers i
              (if subscribing
                then insert_fd fd (s.subscribers i)
                else erase_fd fd (s.subscribers i))
              s.subscribers;
      })

unfoldable pub handle_subscription : ℕ → ParsedCommand → Server → Option Server
unfolding reject_wrong_role change_subscription find is_subscribe
handle_subscription fd cmd s = do
  (rejected, s') ← reject_wrong_role fd market_data cmd.type s
  if rejected then some s' else do
    x ← find fd s'.sessions
    change_subscription fd cmd.instrument (is_subscribe cmd.type) x s'

unfoldable pub require_logged_in_trader : ℕ → CommandType → Server → Option (Bool × Server)
unfolding reject_wrong_role find send_to error_message
require_logged_in_trader fd type s = do
  (rejected, s') ← reject_wrong_role fd trader type s
  if rejected then some (false, s') else do
    x ← find fd s'.sessions
    if x.logged_in then some (true, s') else do
      s'' ←
          send_to fd (error_message (codes "Not logged in: send LOGIN <username> before trading"))
            s'
      some (false, s'')

-- `for (int subscriber_fd : targets) send_to(subscriber_fd, update);`
unfoldable pub send_each : List ℕ → Text → Server → Option Server
unfolding send_to
send_each [] message s = some s
send_each (fd ∷ fds) message s = do s' ← send_to fd message s; send_each fds message s'

-- The subscriber list is copied when the trade is published.
unfoldable pub publish : TradeExecution → Server → Option Server
unfolding send_to send_each bought sold trade
publish e s = do
  s1 ← send_to e.buyer_fd (bought e.instrument e.quantity e.price) s
  s2 ← send_to e.seller_fd (sold e.instrument e.quantity e.price) s1
  send_each (s2.subscribers e.instrument) (trade e.instrument e.quantity e.price) s2

-- Stops when the submitting client is gone.
unfoldable pub publish_each : ℕ → List TradeExecution → Server → Option Server
unfolding publish find
publish_each fd [] s = some s
publish_each fd (e ∷ es) s = do
  s' ← publish e s
  elim (find fd s'.sessions) [ none ↦ some s' | some x ↦ publish_each fd es s' ]

unfoldable pub side_of : CommandType → Side
side_of buy = Side.buy
side_of _ = Side.sell

unfoldable pub submit_order : ℕ → ParsedCommand → Server → Option Server
unfolding add_order side_of send_to order_accepted publish_each
submit_order fd cmd s = do
  let (order_id, executions, book) =
      add_order fd cmd.instrument (side_of cmd.type) cmd.quantity cmd.price [] s.book
  s' ← send_to fd (order_accepted order_id) (record s { book = book })
  publish_each fd executions s'

unfoldable pub handle_order : ℕ → ParsedCommand → Server → Option Server
unfolding require_logged_in_trader submit_order
handle_order fd cmd s = do
  (allowed, s') ← require_logged_in_trader fd cmd.type s
  if allowed then submit_order fd cmd s' else some s'

unfoldable pub answer_cancel : ℕ → ℕ → Cancelled × Server → Option Server
unfolding send_to order_cancelled error_message
answer_cancel fd order_id (done, s) = send_to fd (order_cancelled order_id) s
answer_cancel fd order_id (refused why, s) = send_to fd (error_message why) s

unfoldable pub withdraw_order : ℕ → ℕ → Server → Option Server
unfolding cancel_order answer_cancel
withdraw_order fd order_id s = do
  (answer, book) ← cancel_order order_id fd s.book
  answer_cancel fd order_id (answer, record s { book = book })

unfoldable pub handle_cancel : ℕ → ParsedCommand → Server → Option Server
unfolding require_logged_in_trader withdraw_order
handle_cancel fd cmd s = do
  (allowed, s') ← require_logged_in_trader fd cmd.type s
  if allowed then withdraw_order fd cmd.order_id s' else some s'

unfoldable pub dispatch : ℕ → CommandType → ParsedCommand → Server → Option Server
unfolding begin_orderly_close handle_login handle_subscription handle_order handle_cancel send_to
    error_message
dispatch fd quit cmd s = begin_orderly_close fd s
dispatch fd login cmd s = handle_login fd cmd s
dispatch fd subscribe cmd s = handle_subscription fd cmd s
dispatch fd unsubscribe cmd s = handle_subscription fd cmd s
dispatch fd buy cmd s = handle_order fd cmd s
dispatch fd sell cmd s = handle_order fd cmd s
dispatch fd cancel cmd s = handle_cancel fd cmd s
dispatch fd CommandType.unknown cmd s = send_to fd (error_message (codes "Unknown command")) s

unfoldable pub handle_message : ℕ → Text → Server → Option Server
unfolding parse dispatch send_to error_message
handle_message fd line s =
    let cmd = parse line in
    if cmd.valid then dispatch fd cmd.type cmd s else send_to fd (error_message cmd.error) s
