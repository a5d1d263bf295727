-- ===== src/Server/Sound/Handling.antt =====
-- Soundness of the protocol handlers of src/exchange_server.cpp.
use market_networks.Base.{
  List, Option, Option-cases, Text, [], inl, inr, refl, true, ℕ, ◌>>=◌, ◌∷◌, ◌≡◌,
}
use market_networks.Base.Assoc.{find}
use market_networks.Protocol.Command.{ParsedCommand}
use market_networks.Protocol.Response.{error_message, order_accepted, order_cancelled, bought, sold}
use market_networks.Trading.OrderBook.{OrderBook, add_order, Cancelled, done, refused}
use market_networks.Trading.OrderBook.Matching.{TradeExecution}
use market_networks.Trading.OrderBook.Valid.{IsValid}
use market_networks.Trading.OrderBook.Valid.Adding.{add_order-IsValid}
use market_networks.Trading.OrderBook.Cancel.{cancel_order-keeps, erase_at-IsValid_at}
use market_networks.Trading.OrderBook.Owners.{IsOwned, add_order-IsOwned, erase_at-IsOwned}
use market_networks.Server.State.{Server}
use market_networks.Server.Output.{send_to}
use market_networks.Server.Handlers.{
  send_each, publish, publish_each, side_of, submit_order, answer_cancel, withdraw_order,
}
use market_networks.Server.Sound.{live_in, IsSound, Subsides-refl, Subsides-trans, Steps}
use market_networks.Server.Sound.Flushing.{send_to-Steps}

-- One step after another.
pub Steps-then :
    (s : Server) (r : Option Server) (f : Server → Option Server)
    → Steps s r
    → ((t : Server) → IsSound t → Steps t (f t))
    → Steps s (r >>= f)
Steps-then s r f (t, e, v, b) g =
    let (u, e', w, b') = g t v in (u, rw e e', w, Subsides-trans s t u b b')

-- The server with another book.
pub with_book-IsSound :
    (s : Server) (b : OrderBook)
    → IsSound s
    → IsValid b
    → IsOwned (live_in s) b
    → IsSound (record s { book = b })
with_book-IsSound s b v w o = record {
  sessions = v.sessions;
  subscribed = v.subscribed;
  distinct = v.distinct;
  names = v.names;
  book = w;
  owned = o;
  indexed = v.indexed;
}

pub send_each-Steps :
    (fds : List ℕ) (message : Text) (s : Server) → IsSound s → Steps s (send_each fds message s)
unfolding send_each
send_each-Steps [] message s v = (s, refl, v, Subsides-refl s)
send_each-Steps (fd ∷ fds) message s v =
    Steps-then s (send_to fd message s) (send_each fds message) (send_to-Steps fd message s v)
      (λ t w. send_each-Steps fds message t w)

pub publish-Steps : (e : TradeExecution) (s : Server) → IsSound s → Steps s (publish e s)
unfolding publish
publish-Steps e s v =
    Steps-then s (send_to e.buyer_fd (bought e.instrument e.quantity e.price) s) _
      (send_to-Steps e.buyer_fd _ s v)
      (λ s1 v1.
        Steps-then s1 (send_to e.seller_fd (sold e.instrument e.quantity e.price) s1) _
          (send_to-Steps e.seller_fd _ s1 v1)
          (λ s2 v2. send_each-Steps (s2.subscribers e.instrument) _ s2 v2))

publish_each-Steps :
    (fd : ℕ) (es : List TradeExecution) (s : Server) → IsSound s → Steps s (publish_each fd es s)
unfolding publish_each
publish_each-Steps fd [] s v = (s, refl, v, Subsides-refl s)
publish_each-Steps fd (e ∷ es) s v = Steps-then s (publish e s) _ (publish-Steps e s v) (λ t w.
    elim (Option-cases (find fd t.sessions)) [
      | inl gone ↦ rw gone (t, refl, w, Subsides-refl t)
      | inr (x, there) ↦ rw there (publish_each-Steps fd es t w)
    ])

-- The order of a client that is logged in, in the book.
pub added-IsSound :
    (fd : ℕ) (cmd : ParsedCommand) (s : Server)
    → IsSound s
    → live_in s fd ≡ true
    → IsSound (record s {
      book = (add_order fd cmd.instrument (side_of cmd.type) cmd.quantity cmd.price [] s.book).2;
    })
added-IsSound fd cmd s v live =
    let side = side_of cmd.type in
    with_book-IsSound s _ v
      (add_order-IsValid fd cmd.instrument side cmd.quantity cmd.price s.book v.book)
      (add_order-IsOwned (live_in s) fd cmd.instrument side cmd.quantity cmd.price s.book live
        v.owned)

pub submit_order-Steps :
    (fd : ℕ) (cmd : ParsedCommand) (s : Server)
    → IsSound s
    → live_in s fd ≡ true
    → Steps s (submit_order fd cmd s)
unfolding submit_order
submit_order-Steps fd cmd s v live =
    let (id, executions, book) =
      add_order fd cmd.instrument (side_of cmd.type) cmd.quantity cmd.price [] s.book in
    Steps-then s (send_to fd (order_accepted id) (record s { book = book }))
      (publish_each fd executions)
      (send_to-Steps fd (order_accepted id) (record s { book = book })
        (added-IsSound fd cmd s v live))
      (λ t u. publish_each-Steps fd executions t u)

answer_cancel-Steps :
    (fd id : ℕ) (answer : Cancelled) (s : Server)
    → IsSound s
    → Steps s (answer_cancel fd id (answer, s))
unfolding answer_cancel
answer_cancel-Steps fd id done s v = send_to-Steps fd (order_cancelled id) s v
answer_cancel-Steps fd id (refused why) s v = send_to-Steps fd (error_message why) s v

pub withdraw_order-Steps : (fd id : ℕ) (s : Server) → IsSound s → Steps s (withdraw_order fd id s)
unfolding withdraw_order
withdraw_order-Steps fd id s v =
    let (answer, book, e, w) =
      cancel_order-keeps id fd s.book (λ b. IsValid b × IsOwned (live_in s) b) v.book
        (v.book, v.owned)
        (λ l at. (
          erase_at-IsValid_at id fd s.book v.book l at,
          erase_at-IsOwned (live_in s) id l s.book v.owned,
        )) in
    rw e (
      answer_cancel-Steps fd id answer (record s { book = book })
        (with_book-IsSound s book v w.0 w.1))
