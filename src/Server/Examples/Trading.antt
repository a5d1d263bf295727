-- ===== src/Server/Examples/Trading.antt =====
-- The theorems about requests, from the line to the reply, with two traders at the server.
use market_networks.Base.{
  Text, [], ap, arith, codes, false, if◌then◌else◌, inl, refl, some, text_eq, true, ℕ, ◌&&◌, ◌++◌,
  ◌==◌, ◌≡◌, ◌≢◌,
}
use market_networks.Base.Assoc.{find, insert}
use market_networks.Network.EventLoop
use market_networks.Network.EventLoop.{event_loop}
use market_networks.Protocol.Parse
use market_networks.Protocol.Parse.RoundTrip.{print}
use market_networks.Protocol.Command.{ParsedCommand}
use market_networks.Protocol.Parse.Grammar.{withdraw}
use market_networks.Protocol.Response.{error_message, ok_message, order_accepted}
use market_networks.Trading.OrderBook.{OrderBook, Cancelled, add_order, cancel_order}
use market_networks.Trading.OrderBook.Queue.{buy}
use market_networks.Server.State.{
  trader, market_data, has_fd, Server, ClientSession, new_server, start, new_session, put_session,
  has_text, insert_text,
}
use market_networks.Server.Handlers.{side_of, handle_message}
use market_networks.Server.Accept.{register_client, enrol_client}
use market_networks.Server.Names.{IsNamed-enter}
use market_networks.Server.Sending.Telling.{only}
use market_networks.Server.Sending.Ordering.{Publishes}
use market_networks.Server.Sound.{IsSound, name_of, name_in}
use market_networks.Server.Sound.Dropping.{name-put_session, put_named-IsSound}
use market_networks.Server.Sound.Handling.{added-IsSound}
use market_networks.Server.Trading.{place, handle_message-Publishes}
use market_networks.Server.Sending.{pending}
use market_networks.Server.Sending.Stream.{Sends, sent_to, identity}
use market_networks.Server.Sending.Keeping.{shared}
use market_networks.Server.Cancelling.{answer_of, handle_message-cancels}
use market_networks.Server.Refusing.{handle_message-refuses}
use market_networks.Protocol.Words.{words}
use market_networks.Protocol.Command.{verb_of, is_valid_instrument}
use market_networks.Protocol.Integer.{parse_integer}
use market_networks.Server.Following.{wish, followed, handle_message-subscribes}
use market_networks.Server.Examples.{
  one_client, one_client-IsSound, one_client-found, two_clients, two_clients-IsSound,
}

abbrev trading : ℕ → Text → ClientSession
trading fd name = record (new_session fd name) { role = trader; username = name; logged_in = true }

-- A client logs in.
abbrev joined : ℕ → Text → Server → Server
joined fd name s = record (put_session fd (trading fd name) s) {
  usernames = insert_text name s.usernames;
}

joined-IsSound :
    (fd : ℕ) (name : Text) (s : Server)
    → IsSound s
    → find fd s.sessions ≡ some (new_session fd name)
    → has_text name s.usernames ≡ false
    → IsSound (joined fd name s)
unfolding new_session has_text
joined-IsSound fd name s v e free =
    put_named-IsSound fd (new_session fd name) (trading fd name) s (insert_text name s.usernames) v
      e
      (record {
        keyed = refl;
        consumed = omega arith;
        trading = λ _. refl;
        watching = λ i h. absurd (ground arith);
      })
      (λ i. refl)
      (IsNamed-enter s.usernames (name_in s) (name_in (put_session fd (trading fd name) s)) fd
        v.names name (ap name_of e) free (λ k. name-put_session fd k (trading fd name) s))
      (λ k l. ground (arith, name-put_session fd k (trading fd name) s))

abbrev one_trader : Server
one_trader = joined 5 (codes "a") two_clients

abbrev two_traders : Server
two_traders = joined 6 (codes "b") one_trader

one_trader-IsSound : IsSound one_trader
unfolding find has_text register_client enrol_client put_session insert start new_server
    EventLoop.add event_loop
one_trader-IsSound = joined-IsSound 5 (codes "a") two_clients two_clients-IsSound refl refl

two_traders-IsSound : IsSound two_traders
unfolding find has_text insert_text text_eq register_client enrol_client put_session insert start
    new_server EventLoop.add event_loop
two_traders-IsSound = joined-IsSound 6 (codes "b") one_trader one_trader-IsSound refl refl

two_traders-found :
    (find 5 two_traders.sessions ≡ some (trading 5 (codes "a")))
    × (find 6 two_traders.sessions ≡ some (trading 6 (codes "b")))
unfolding find put_session insert
two_traders-found = (refl, refl)

-- Trader 6 offers four lots.
abbrev offer : ParsedCommand
offer = Parse.parse (codes "SELL JNST 4 2")

abbrev offered : Server
offered = record two_traders {
  book =
      (add_order 6 offer.instrument (side_of offer.type) offer.quantity offer.price []
        two_traders.book).2;
}

offered-IsSound : IsSound offered
unfolding find put_session insert
offered-IsSound = added-IsSound 6 offer two_traders two_traders-IsSound refl

handle_message-Publishes_example :
    let (order_id, executions, book) = add_order 5 (codes "JNST") buy 1 2 [] offered.book in
    Publishes 5 executions
      (only 5 (order_accepted order_id))
      book
      offered
      (handle_message 5 (print (place buy (codes "JNST") 1 2)) offered)
handle_message-Publishes_example =
    handle_message-Publishes 5 buy (codes "JNST") 1 2 offered (trading 5 (codes "a"))
      offered-IsSound two_traders-found.0 refl
      (inl refl, omega arith, omega arith, omega arith, omega arith)

handle_message-cancels_example :
    (answer : Cancelled) × (book : OrderBook) × (s' : Server) × (cancel_order 1 6 offered.book
      ≡ some (answer, book))
    × (handle_message 6 (print (withdraw 1)) offered ≡ some s')
    × Sends 6 (answer_of 1 answer) (trading 6 (codes "b")) offered s'
    × ((y : ClientSession)
        → find 6 s'.sessions ≡ some y
        → shared s' ≡ (book, offered.subscribers, offered.usernames))
handle_message-cancels_example =
    handle_message-cancels 6 1 offered (trading 6 (codes "b")) offered-IsSound two_traders-found.1
      refl (omega arith)

new_session_free : (new_session 5 (codes "a")).role ≢ trader
unfolding new_session
new_session_free e = cc

handle_message-subscribes_example :
    (s' : Server) × (rest : Text) × (handle_message 5 (print (wish true (codes "JNST"))) one_client
      ≡ some s')
    × (sent_to 5 s'.wire ++ rest
        ≡ (sent_to 5 one_client.wire ++ pending (new_session 5 (codes "a"))) ++ ok_message)
    × ((y : ClientSession)
        → find 5 s'.sessions ≡ some y
        → (pending y ≡ rest)
          × (identity y ≡ (
            market_data,
            (new_session 5 (codes "a")).username,
            (new_session 5 (codes "a")).logged_in,
            followed true (codes "JNST") (new_session 5 (codes "a")),
          ))
          × ((k : ℕ) (j : Text)
              → has_fd k (s'.subscribers j) ≡ (
                  if 5 == k && text_eq j (codes "JNST")
                  then true
                  else has_fd k (one_client.subscribers j))))
    × ((k : ℕ)
        → (k == 5) ≡ false
        → (sent_to k s'.wire ≡ sent_to k one_client.wire)
          × (find k s'.sessions ≡ find k one_client.sessions))
handle_message-subscribes_example =
    handle_message-subscribes 5 true (codes "JNST") one_client (new_session 5 (codes "a"))
      one_client-IsSound one_client-found new_session_free (inl refl) (λ h. cc)

handle_message-refuses_example :
    (why : Text) × (s' : Server) × (handle_message 5 (codes "BUY JNST 1 2") one_client ≡ some s')
    × Sends 5 (error_message why) (new_session 5 (codes "a")) one_client s'
    × ((y : ClientSession) → find 5 s'.sessions ≡ some y → shared s' ≡ shared one_client)
unfolding new_session Parse.parse words verb_of text_eq is_valid_instrument parse_integer
handle_message-refuses_example =
    handle_message-refuses 5 (codes "BUY JNST 1 2") one_client (new_session 5 (codes "a"))
      one_client-IsSound one_client-found refl refl
