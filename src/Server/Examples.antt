-- ===== src/Server/Examples.antt =====
-- The theorems about the server at a concrete run: two clients connect, log in and trade.
mod Trading
mod Watching
use market_networks.Base.{
  Bool, List, Option, Text, [], ap, arith, codes, false, none, refl, some, sym, true, ℕ, ◌++◌, ◌==◌,
  ◌∙◌, ◌∷◌, ◌≡◌,
}
use market_networks.Base.Assoc.{find, insert}
use market_networks.Network.EventLoop
use market_networks.Network.EventLoop.{event_loop, poll}
use market_networks.Network.EventLoop.Poll.{event_loop-Indexed}
use market_networks.Protocol.Response.{
  ok_message, error_message, order_accepted, order_cancelled, bought, sold, trade,
}
use market_networks.Server.Replies.{IsReply, replies-IsReply}
use market_networks.Server.State.{
  unknown, trader, wrote, interrupted, would_block, Server, new_server, start, ClientSession,
  new_session, put_session, has_text,
}
use market_networks.Server.Output.{send_to}
use market_networks.Server.Handlers.{handle_message, publish}
use market_networks.Server.Input.{received, consume_messages}
use market_networks.Network.TcpServer.{TcpServer, tcp_server, connected, not_accepted, eagain}
use market_networks.Server.Accept.{
  register_client, enrol_client, resume_accepting_if_due, size_buffer,
}
use market_networks.Server.Run.{Occasion, Batch, run}
use market_networks.Server.Sound.{IsSound}
use market_networks.Server.Sound.Dropping.{put_session-IsSound}
use market_networks.Server.Sound.Flushing.{send_to-Steps}
use market_networks.Network.Framing.{drain_lines}
use market_networks.Network.Framing.Cuts.{cuts, lines_of}
use market_networks.Server.Consuming.{serve, consume_messages-serve}
use market_networks.Server.Sound.Accepting.{register_client-IsSound}
use market_networks.Server.Sound.Serving.{start-IsSound, run-IsSound, OpensRun}
use market_networks.Server.Admitting.{handle_message-admits}
use market_networks.Protocol.Words.{is_space, IsWord}
use market_networks.Protocol.Parse.Grammar.{log_in}
use market_networks.Protocol.Parse.RoundTrip.{print}
use market_networks.Server.Sending.{pending}
use market_networks.Trading.OrderBook.Matching.{TradeExecution}
use market_networks.Server.Sending.Telling.{Tells}
use market_networks.Server.Sending.Publishing.{news, publish-Tells}
use market_networks.Server.Sending.Stream.{Sends, sent_to, identity, send_to-Stream}

-- A socket that listens.
abbrev pub listening : TcpServer
listening = record (tcp_server [] 9000) { fd = some 3 }

abbrev pub empty_server : Server
empty_server =
    (start listening (
      new_server [] 9000 (event_loop false false poll []) 0
        (wrote 1 ∷ interrupted ∷ wrote 99 ∷ would_block ∷ []))).1

pub empty_server-IsSound : IsSound empty_server
empty_server-IsSound =
    start-IsSound listening [] 9000 (event_loop false false poll []) 0
      (wrote 1 ∷ interrupted ∷ wrote 99 ∷ would_block ∷ []) (event_loop-Indexed false false poll [])

abbrev arrival : Occasion
arrival = record {
  event = record { fd = 3; readable = true; writable = false; hangup = false };
  accepts = connected 5 (some (codes "a", 7)) ∷ connected 6 none ∷ not_accepted eagain [] ∷ [];
  receives = [];
}

abbrev says : ℕ → Text → Occasion
says fd line = record {
  event = record { fd = fd; readable = true; writable = false; hangup = false };
  accepts = [];
  receives = received line ∷ [];
}

abbrev pub batches : List Batch
batches =
    record {
      now = 0;
      occasions =
          arrival
          ∷ says 5 (codes "LOGIN a\nSELL JNST 5 7\n")
          ∷ says 6 (codes "LOGIN b\nBUY JNST 5 7\n")
          ∷ [];
    }
    ∷ []

pub batches-Opens : OpensRun batches empty_server
unfolding find resume_accepting_if_due register_client size_buffer start new_server EventLoop.add
    event_loop
batches-Opens =
    ((λ _. (refl, (refl, tt)), λ t _. (λ _. tt, λ t' _. (λ _. tt, λ t'' _. tt))), λ t _. tt)

run-IsSound_example : (s' : Server) × (run batches empty_server ≡ some s') × IsSound s'
run-IsSound_example = run-IsSound batches empty_server empty_server-IsSound batches-Opens

-- A server with a new client, 5.
abbrev pub one_client : Server
one_client = register_client 5 (codes "a") empty_server

pub one_client-IsSound : IsSound one_client
unfolding find start new_server EventLoop.add event_loop
one_client-IsSound = register_client-IsSound 5 (codes "a") empty_server empty_server-IsSound refl

pub one_client-found : find 5 one_client.sessions ≡ some (new_session 5 (codes "a"))
unfolding find register_client enrol_client put_session start new_server EventLoop.add event_loop
one_client-found = refl

-- The same server, with two lines and a part of one waiting.
abbrev lines_waiting : Server
lines_waiting =
    put_session 5 (record (new_session 5 (codes "a")) { inbuf = codes "LOGIN a\nQUIT\nBU" })
      one_client

lines_waiting-IsSound : IsSound lines_waiting
lines_waiting-IsSound =
    put_session-IsSound 5 (new_session 5 (codes "a"))
      (record (new_session 5 (codes "a")) { inbuf = codes "LOGIN a\nQUIT\nBU" }) one_client
      one_client-IsSound one_client-found
      (let w = one_client-IsSound.sessions 5 (new_session 5 (codes "a")) one_client-found in
        record {
          keyed = w.keyed;
          consumed = w.consumed;
          trading = w.trading;
          watching = w.watching;
        })
      (λ i. refl) refl

abbrev waiting : Text
waiting = codes "LOGIN a\nQUIT\nBU"

lines_waiting-found :
    find 5 lines_waiting.sessions ≡ some (record (new_session 5 (codes "a")) { inbuf = waiting })
unfolding find put_session insert
lines_waiting-found = refl

consume_messages-serve_example :
    (alive : Bool) × (s' : Server) × (consume_messages 5 lines_waiting ≡ some (alive, s'))
    × (serve 5 (cuts waiting) lines_waiting ≡ some (alive, s'))
    × IsSound s'
    × (lines_of (cuts waiting) ≡ (drain_lines waiting).0)
consume_messages-serve_example =
    consume_messages-serve 5 (record (new_session 5 (codes "a")) { inbuf = waiting }) lines_waiting
      lines_waiting-IsSound lines_waiting-found

replies-IsReply_example :
    IsReply ok_message
    × IsReply (error_message (codes "no"))
    × IsReply (order_accepted 12)
    × IsReply (order_cancelled 12)
    × IsReply (bought (codes "JNST") 3 4)
    × IsReply (sold (codes "JNST") 3 4)
    × IsReply (trade (codes "JNST") 3 4)
replies-IsReply_example =
    replies-IsReply (codes "JNST") (codes "no") 3 4 12 (refl, (refl, (refl, (refl, tt))))
      (refl, (refl, tt))

abbrev greeting : Text
greeting = codes "OK\n"

abbrev value_of : Option Server → Server
value_of none = one_client
value_of (some s) = s

-- The server after the greeting has been sent to the client 5.
abbrev greeted : Server
greeted = value_of (send_to 5 greeting one_client)

greeted-some : send_to 5 greeting one_client ≡ some greeted
greeted-some =
    let (s', e, _, _) = send_to-Steps 5 greeting one_client one_client-IsSound in
    e ∙ ap some (sym (ap value_of e))

send_to-Stream_example : Sends 5 greeting (new_session 5 (codes "a")) one_client greeted
send_to-Stream_example =
    send_to-Stream 5 greeting one_client greeted (new_session 5 (codes "a")) one_client-IsSound
      one_client-found greeted-some

new_session_unknown : (new_session 5 (codes "a")).role ≡ unknown
unfolding new_session
new_session_unknown = refl

bob-IsWord : IsWord (codes "bob")
unfolding is_space
bob-IsWord = ((λ e. cc), (refl, (refl, (refl, tt))))

bob_free : has_text (codes "bob") one_client.usernames ≡ false
unfolding has_text register_client enrol_client put_session start new_server EventLoop.add
    event_loop
bob_free = refl

handle_message-admits_example :
    (s' : Server) × (rest : Text) × (handle_message 5 (print (log_in (codes "bob"))) one_client
      ≡ some s')
    × (sent_to 5 s'.wire ++ rest
        ≡ (sent_to 5 one_client.wire ++ pending (new_session 5 (codes "a"))) ++ ok_message)
    × ((y : ClientSession)
        → find 5 s'.sessions ≡ some y
        → (pending y ≡ rest)
          × (identity y ≡ (trader, codes "bob", true, (new_session 5 (codes "a")).subscriptions)))
    × ((k : ℕ)
        → (k == 5) ≡ false
        → (sent_to k s'.wire ≡ sent_to k one_client.wire)
          × (find k s'.sessions ≡ find k one_client.sessions))
handle_message-admits_example =
    handle_message-admits 5 (codes "bob") one_client (new_session 5 (codes "a")) one_client-IsSound
      one_client-found new_session_unknown bob-IsWord (omega arith) bob_free

-- A second client, 6.
abbrev pub two_clients : Server
two_clients = register_client 6 (codes "b") one_client

pub two_clients-IsSound : IsSound two_clients
unfolding find register_client enrol_client put_session insert start new_server EventLoop.add
    event_loop
two_clients-IsSound = register_client-IsSound 6 (codes "b") one_client one_client-IsSound refl

abbrev execution : TradeExecution
execution = record {
  buyer_fd = 5;
  seller_fd = 6;
  instrument = codes "JNST";
  quantity = 3;
  price = 7;
}

publish-Tells_example :
    (s' : Server) × (publish execution two_clients ≡ some s')
    × Tells (news execution two_clients) two_clients s'
publish-Tells_example = publish-Tells execution two_clients two_clients-IsSound
