-- ===== src/Server/Trading.antt =====
-- An order in src/exchange_server.cpp, from the line that a trader sends to what everybody is told.
use market_networks.Base.{Text, [], refl, some, true, ℕ, ◌≡◌}
use market_networks.Base.Assoc.{find}
use market_networks.Protocol.Command.{ParsedCommand}
use market_networks.Protocol.Parse.Grammar.{Request, place_buy, place_sell, command_of}
use market_networks.Protocol.Parse.RoundTrip.{spell, print, IsRequest, parse-print}
use market_networks.Protocol.Response.{order_accepted}
use market_networks.Trading.OrderBook.{add_order}
use market_networks.Trading.OrderBook.Queue.{Side, buy, sell}
use market_networks.Server.State.{trader, ClientSession, Server}
use market_networks.Server.Handlers.{
  same_role, reject_wrong_role, require_logged_in_trader, submit_order, side_of, handle_order,
  dispatch, handle_message,
}
use market_networks.Server.Sending.Telling.{only}
use market_networks.Server.Sending.Ordering.{Publishes, submit_order-Publishes}
use market_networks.Server.Sound.{IsSound}
use market_networks.Server.Sound.Dispatching.{live_of}

-- The request for an order.
abbrev pub place : Side → Text → ℕ → ℕ → Request
place buy i q p = place_buy i q p
place sell i q p = place_sell i q p

abbrev command : Side → Text → ℕ → ℕ → ParsedCommand
command side i q p = command_of (spell (place side i q p)) (place side i q p)

module _ (fd : ℕ) (s : Server) (x : ClientSession) (e : find fd s.sessions ≡ some x)
    (r : x.role ≡ trader) (l : x.logged_in ≡ true) where
  order-handled :
      (side : Side) (i : Text) (q p : ℕ)
      → IsRequest (place side i q p)
      → handle_message fd (print (place side i q p)) s ≡ submit_order fd (command side i q p) s
  unfolding handle_message dispatch handle_order require_logged_in_trader reject_wrong_role
      same_role
  order-handled buy i q p h = rw (parse-print (place buy i q p) h, e, r, e, l) refl
  order-handled sell i q p h = rw (parse-print (place sell i q p) h, e, r, e, l) refl

-- A BUY or SELL line of a client that is logged in. Its owner is told ORDER_ACCEPTED with the id that
-- the book gives, then each execution is told, in the book's order, to its two traders and to the clients
-- that are subscribed to its instrument, and nobody is told anything else: to a client that takes part in
-- several, the texts one after another. All the executions are told unless the owner of the order is
-- dropped on the way. Every queue of the book is then what the order made of it, without the orders of
-- the clients that were dropped. The conditions: the server is sound, and the line is an order of the
-- protocol, for a listed instrument with quantity and price in range.
pub handle_message-Publishes :
    (fd : ℕ) (side : Side) (i : Text) (q p : ℕ) (s : Server) (x : ClientSession)
    → IsSound s
    → find fd s.sessions ≡ some x
    → x.logged_in ≡ true
    → IsRequest (place side i q p)
    → let (order_id, executions, book) = add_order fd i side q p [] s.book in
      Publishes fd executions
        (only fd (order_accepted order_id))
        book
        s
        (handle_message fd (print (place side i q p)) s)
unfolding side_of
handle_message-Publishes fd buy i q p s x v e l h =
    rw (order-handled fd s x e ((v.sessions fd x e).trading l) l buy i q p h)
      (submit_order-Publishes fd (command buy i q p) s v (live_of fd x s e l))
handle_message-Publishes fd sell i q p s x v e l h =
    rw (order-handled fd s x e ((v.sessions fd x e).trading l) l sell i q p h)
      (submit_order-Publishes fd (command sell i q p) s v (live_of fd x s e l))
