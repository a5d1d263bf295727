-- ===== src/Lib.antt =====
-- A model of the exchange of this repository, a C++ program in which trader and market data clients
-- talk to a single-threaded server over TCP, and the theorems that make its parts correct.
--
-- The parts, and how they interact. The server's loop (src/exchange_server.cpp) waits on an event
-- loop (src/network/event_loop.cpp), accepts connections (src/network/tcp_server.cpp), reads bytes
-- into a session (src/network/client_session.hpp), cuts them into lines, parses each line
-- (src/protocol/message_parser.cpp) and dispatches the command: orders go to the order book
-- (src/trading/order_book.cpp), whose executions become replies to the two traders and a TRADE line
-- for the subscribers. Replies are buffered in the session and written when the socket takes them.
-- The clients send what the user types (src/client_shell.cpp) and receive lines by
-- src/network/tcp_client.cpp. All sockets are set up by src/network/socket_utils.cpp.
--
-- Base: the shared library; Base.Assoc is a hash map, Base.Fault the chaining of results that may
--   be undefined, Base.Tests the Boolean tests, Base.Bytes texts as lists of byte values.
-- Protocol.Words: the extraction of words by `std::istringstream`. Protocol.Integer:
--   `parse_integer` and `std::to_string`. Protocol.Command: command types, verbs, instruments.
--   Protocol.Parse: `parse`, with its grammar, its round trip and the types of its commands below
--   it. Protocol.Response: the reply helpers.
-- Trading.OrderBook: the state and the operations of `OrderBook`; its queue is a list in
--   OrderBook.Queue, its index an association list in OrderBook.Entries, the matching loop in
--   OrderBook.Matching. OrderBook.Owners is about who owns the resting orders. OrderBook.Valid
--   states when a book is well formed. A `std::list` iterator is the id of the order that it points
--   to, and a dereference of one that dangles is `none`.
-- Network.Framing: the cutting of a stream into lines, which server and clients share; Framing.Cuts
--   keeps what follows each line.
-- Network.TcpClient: `send_message` and `receive_messages`; Sending and Receiving are about them.
--   Network.EventLoop: registration under poll and kqueue; EventLoop.Registry states what both
--   promise, EventLoop.Filters sets the changelists of kqueue against the kernel's filters;
--   Network.EventLoop.Waiting: `poll_wait` and `kq_wait`. Network.Sockets:
--   src/network/socket_utils.cpp, Network.TcpServer: src/network/tcp_server.cpp.
-- Client.Shell: the interactive loop of src/client_shell.cpp; below it Forwarding is about the
--   lines of one read, Typing about the whole loop. Client.Programs: src/trader_client.cpp and
--   src/market_data_client.cpp. Arguments: numbers on the command lines.
-- ConnGen: the options of the load generator src/tools/conn_gen.cpp; ConnGen.Connecting: its loop.
-- Server.State, Output, Handlers, Input, Accept and Run: `ExchangeServer`, one function for each of
--   its member functions, with the same name (`drop` is drop_client). Server.Sound states what
--   holds between any two steps; its child modules follow the call graph: Dropping, Replacing,
--   Flushing, Handling, Roles, Dispatching, Reading, Events, Accepting, Enrolling, Closing,
--   Serving. Server.Watched is about what the event loop waits for on behalf of the sessions,
--   Server.Holding about the descriptors that are open. Server.Names is about the names in use,
--   Server.Sets about the sets that are lists. Server.Consuming is about the lines of a client's
--   buffer, Server.Admitting about the login, from the line to the reply, Server.Trading about an
--   order, Server.Cancelling about a cancellation, Server.Following about a subscription.
--   Server.Settings and Server.Main: `main`, from the environment and the arguments to the exit
--   status. Server.Sending is about buffered output (below it Stream is about one message, Keeping
--   about what a message leaves alone, Telling about steps of several messages, Clearing about the
--   orders of clients dropped on the way, Publishing about executions, Ordering about orders),
--   Server.Refusing about who may not trade, Server.Replies about the replies as the client's
--   framing sees them.
--
-- State is passed explicitly. A text is a list of byte values. `Option` around a state is `none`
-- where the C++ is undefined. What the kernel answers to `send`, `recv`, `accept`, `poll` and
-- `kevent` is an argument, a list of answers of every kind that the code tells apart, so a theorem
-- holds for every such behaviour that its conditions admit. `send` never takes more than it is
-- given. `long` values are natural numbers, since the parser admits no sign; their overflow is written
-- out where numbers are read and shown not to occur. Quantities that only shrink, and ids, counted up
-- one at a time from 1, are not bounded.
--
-- Fuel: the loops over lines and over the parts between commas run on one more than the length of the
-- text, and each round shortens it. Printing of a number runs on one more than the number, which exceeds
-- its count of digits. All other loops are structural, over a queue, the index, the arguments or the
-- list of the kernel's answers; where such a list could end before the code does, the result says so
-- (`blocked`, `waiting`), and how long a list is enough is proved for the sending and the connecting
-- loops.
--
-- Not modelled: what the system calls do, the timeouts of `poll` and `kevent`, signal handlers (a signal
-- ends a list of rounds, batches or attempts), the statistics and messages printed to the terminal, and
-- the clock of the load generator's idle hold. `inet_pton`, `getaddrinfo`, `atoi` and `atol` are
-- parameters of any behaviour; the filters of a kqueue are a parameter that does what kqueue(2)
-- documents of EV_ADD and EV_DELETE.
pub mod Base
pub mod Arguments
pub mod Protocol
pub mod Trading
pub mod Network
pub mod Server
pub mod Client
pub mod ConnGen
