-- ===== src/Server/State.antt =====
-- src/network/client_session.hpp and the members of `ExchangeServer` in src/exchange_server.cpp. A
-- set is a list without repetition; what the server prints is left out. The kernel's answers to the
-- calls of `send` are a list in the state, and `wire` records what the kernel took, call by call.
use market_networks.Base.{
  Bool, List, Text, [], false, if◌then◌else◌, length, none, some, text_eq, true, ℕ, ◌++◌, ◌-◌, ◌==◌,
  ◌||◌, ◌∷◌,
}
use market_networks.Base.Assoc.{Assoc, insert}
use market_networks.Network.EventLoop
use market_networks.Network.Sockets.{SystemCall}
use market_networks.Network.TcpServer
use market_networks.Trading.OrderBook.{OrderBook, empty_book}

pub data ClientRole : Type 0 where
  unknown trader market_data : ClientRole

pub record ClientSession : Type 0 where
  pub fd : ℕ
  pub role : ClientRole
  pub inbuf : Text
  pub outbuf : Text
  pub out_start : ℕ
  pub closing : Bool
  pub backlogged : Bool
  pub write_interest : Bool
  pub read_interest : Bool
  pub peer : Text
  pub username : Text
  pub logged_in : Bool
  pub subscriptions : List Text

-- `ClientSession(fd)` with the peer's name.
unfoldable pub new_session : ℕ → Text → ClientSession
new_session fd peer = record {
  fd = fd;
  role = unknown;
  inbuf = [];
  outbuf = [];
  out_start = 0;
  closing = false;
  backlogged = false;
  write_interest = false;
  read_interest = true;
  peer = peer;
  username = [];
  logged_in = false;
  subscriptions = [];
}

unfoldable pub pending_bytes : ClientSession → ℕ
pending_bytes x = length x.outbuf - x.out_start

-- What `send` answers: `wrote n` is n + 1 bytes taken; `failed` is any other error, or 0 bytes.
pub data SendAnswer : Type 0 where
  wrote : ℕ → SendAnswer
  interrupted would_block failed : SendAnswer

pub record Server : Type 0 where
  pub listener : TcpServer.TcpServer
  pub loop : EventLoop.EventLoop
  pub sessions : Assoc ClientSession
  pub subscribers : Text → List ℕ
  pub usernames : List Text
  pub closed_fds : List ℕ
  pub book : OrderBook
  -- 0 while accepting.
  pub accept_resume_at : ℕ
  pub send_buffer_bytes : ℕ
  -- What was asked of the kernel about the clients' descriptors, apart from `send` and `recv`.
  pub calls : List SystemCall
  pub send_answers : List SendAnswer
  pub wire : List (ℕ × Text)

unfoldable pub has_text : Text → List Text → Bool
has_text t [] = false
has_text t (u ∷ us) = text_eq u t || has_text t us

unfoldable pub erase_text : Text → List Text → List Text
erase_text t [] = []
erase_text t (u ∷ us) = let rest = erase_text t us in if text_eq u t then rest else u ∷ rest

unfoldable pub insert_text : Text → List Text → List Text
unfolding has_text
insert_text t us = if has_text t us then us else us ++ t ∷ []

unfoldable pub has_fd : ℕ → List ℕ → Bool
has_fd k [] = false
has_fd k (j ∷ js) = j == k || has_fd k js

unfoldable pub erase_fd : ℕ → List ℕ → List ℕ
erase_fd k [] = []
erase_fd k (j ∷ js) = let rest = erase_fd k js in if j == k then rest else j ∷ rest

unfoldable pub insert_fd : ℕ → List ℕ → List ℕ
unfolding has_fd
insert_fd k js = if has_fd k js then js else js ++ k ∷ []

-- `subscribers_[i]` with its set replaced.
unfoldable pub put_subscribers : Text → List ℕ → (Text → List ℕ) → Text → List ℕ
put_subscribers i fds m j = if text_eq j i then fds else m j

unfoldable pub put_session : ℕ → ClientSession → Server → Server
unfolding insert
put_session fd x s = record s { sessions = insert fd x s.sessions }

-- `ExchangeServer(…)` with its event loop; the answers are the kernel's.
unfoldable pub new_server : Text → ℕ → EventLoop.EventLoop → ℕ → List SendAnswer → Server
unfolding TcpServer.tcp_server
new_server host port loop send_buffer_bytes answers = record {
  listener = TcpServer.tcp_server host port;
  loop = loop;
  sessions = [];
  subscribers = λ i. [];
  usernames = [];
  closed_fds = [];
  book = empty_book;
  accept_resume_at = 0;
  send_buffer_bytes = send_buffer_bytes;
  calls = [];
  send_answers = answers;
  wire = [];
}

-- `start`, given the listener after its own `start`.
unfoldable pub start : TcpServer.TcpServer → Server → Bool × Server
start l s = elim l.fd [
  | none ↦ (false, record s { listener = l })
  | some fd ↦
      let (registered, loop) = EventLoop.add fd true false s.loop in
      (registered, record s { listener = l; loop = loop })
]
