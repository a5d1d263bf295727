-- ===== src/Server/Cancelling.antt =====
-- A cancellation in src/exchange_server.cpp, from the line that a trader sends to the answer.
use market_networks.Base.{Text, refl, some, sym, true, ℕ, ◌<◌, ◌∙◌, ◌≡◌}
use market_networks.Base.Assoc.{find}
use market_networks.Protocol.Integer.{integer_limit}
use market_networks.Protocol.Parse.Grammar.{withdraw}
use market_networks.Protocol.Parse.RoundTrip.{print, parse-print}
use market_networks.Protocol.Response.{order_cancelled, error_message}
use market_networks.Trading.OrderBook.{OrderBook, Cancelled, done, refused, cancel_order}
use market_networks.Trading.OrderBook.Cancel.{cancel_order-IsValid}
use market_networks.Server.State.{trader, ClientSession, Server}
use market_networks.Server.Output.{send_to}
use market_networks.Server.Handlers.{
  same_role, reject_wrong_role, require_logged_in_trader, answer_cancel, withdraw_order,
  handle_cancel, dispatch, handle_message,
}
use market_networks.Server.Sending.Stream.{Sends, send_to-FlushedAt}
use market_networks.Server.Sending.Keeping.{shared, send_to-Keeps}
use market_networks.Server.Sound.{IsSound}
use market_networks.Server.Sound.Dispatching.{handle_message-Steps}

-- The answer to a cancellation.
abbrev pub answer_of : ℕ → Cancelled → Text
answer_of id done = order_cancelled id
answer_of id (refused why) = error_message why

answer_cancel-send :
    (fd id : ℕ) (answer : Cancelled) (s : Server)
    → answer_cancel fd id (answer, s) ≡ send_to fd (answer_of id answer) s
unfolding answer_cancel
answer_cancel-send fd id done s = refl
answer_cancel-send fd id (refused why) s = refl

module _ (fd id : ℕ) (s : Server) (x : ClientSession) (e : find fd s.sessions ≡ some x)
    (r : x.role ≡ trader) (l : x.logged_in ≡ true) (short : id < integer_limit) (answer : Cancelled)
    (book : OrderBook) (outcome : cancel_order id fd s.book ≡ some (answer, book)) where
  cancel-handled :
      handle_message fd (print (withdraw id)) s
      ≡ send_to fd (answer_of id answer) (record s { book = book })
  unfolding handle_message dispatch handle_cancel require_logged_in_trader reject_wrong_role
      same_role withdraw_order
  cancel-handled =
      rw (parse-print (withdraw id) short, e, r, e, l, outcome)
        (answer_cancel-send fd id answer (record s { book = book }))

-- A CANCEL line of a client that is logged in. The book decides by the id and the client, the client is
-- told ORDER_CANCELLED or the reason, and no other stream and no other session changes; the book is
-- the one that the cancellation leaves, unless sending the answer drops the client. The conditions: the
-- server is sound, and the id is below 10^18.
pub handle_message-cancels :
    (fd id : ℕ) (s : Server) (x : ClientSession)
    → IsSound s
    → find fd s.sessions ≡ some x
    → x.logged_in ≡ true
    → id < integer_limit
    → (answer : Cancelled) × (book : OrderBook) × (s' : Server) × (cancel_order id fd s.book
        ≡ some (answer, book))
      × (handle_message fd (print (withdraw id)) s ≡ some s')
      × Sends fd (answer_of id answer) x s s'
      × ((y : ClientSession)
          → find fd s'.sessions ≡ some y
          → shared s' ≡ (book, s.subscribers, s.usernames))
handle_message-cancels fd id s x v e l short =
    let w = v.sessions fd x e in
    let (answer, book, outcome, _) = cancel_order-IsValid id fd s.book v.book in
    let (s', h, _, _) = handle_message-Steps fd (print (withdraw id)) x s v e in
    let sent = sym (cancel-handled fd id s x e (w.trading l) l short answer book outcome) ∙ h in
    let t : Server = record s { book = book } in
    (
      answer,
      book,
      s',
      outcome,
      h,
      send_to-FlushedAt fd (answer_of id answer) t s' x w.keyed w.consumed e sent,
      send_to-Keeps fd (answer_of id answer) t s' x w.keyed e sent,
    )
