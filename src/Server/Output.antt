-- ===== src/Server/Output.antt =====
-- The output path of src/exchange_server.cpp: `drop`, `flush`, `send_to`, `begin_orderly_close`.
-- `none` is undefined behaviour in a part of the server.
use market_networks.Base.{
  Bool, List, Option, Text, [], drop, false, if◌then◌else◌, length, ltb, min, none, not, some, suc,
  take, true, ℕ, ◌&&◌, ◌*◌, ◌++◌, ◌+◌, ◌-◌, ◌==◌, ◌>>=◌, ◌||◌, ◌∷◌,
}
use market_networks.Base.Assoc.{find, erase}
use market_networks.Network.EventLoop
use market_networks.Trading.OrderBook.{OrderBook, remove_orders_of}
use market_networks.Server.State.{
  ClientSession, pending_bytes, SendAnswer, wrote, interrupted, would_block, failed, Server,
  erase_text, erase_fd, put_subscribers, put_session,
}

abbrev pub max_output_bytes : ℕ
max_output_bytes = 16 * 1024 * 1024

abbrev pub read_chunk : ℕ
read_chunk = 65536

-- `for (instrument : session.subscriptions) subscribers_[instrument].erase(fd);`
unfoldable pub unsubscribe_all : ℕ → List Text → (Text → List ℕ) → Text → List ℕ
unfolding erase_fd put_subscribers
unsubscribe_all fd [] m = m
unsubscribe_all fd (i ∷ is) m = unsubscribe_all fd is (put_subscribers i (erase_fd fd (m i)) m)

-- What `drop` leaves of the server, the book without the client's orders and the event loop without
-- its descriptor given.
unfoldable pub forget_client : ℕ → ClientSession → OrderBook → EventLoop.EventLoop → Server → Server
unfolding unsubscribe_all erase_text erase
forget_client fd x book loop s = record s {
  subscribers = unsubscribe_all fd x.subscriptions s.subscribers;
  usernames = if x.logged_in then erase_text x.username s.usernames else s.usernames;
  book = book;
  sessions = erase fd s.sessions;
  loop = loop;
  closed_fds = s.closed_fds ++ fd ∷ [];
}

unfoldable pub drop_session : ℕ → ClientSession → Server → Option Server
unfolding forget_client
drop_session fd x s = do
  book ← remove_orders_of fd s.book
  loop ← EventLoop.remove fd s.loop
  some (forget_client fd x book loop s)

-- The reason is for the log only.
unfoldable pub drop_client : ℕ → Server → Option Server
unfolding drop_session find
drop_client fd s = elim (find fd s.sessions) [ none ↦ some s | some x ↦ drop_session fd x s ]

-- The loop of `flush`: what it leaves of `out_start` and of the answers, what the kernel took, and
-- whether the connection is broken. Where no answer is left the socket takes nothing more.
pub record Written : Type 0 where
  pub out_start : ℕ
  pub answers : List SendAnswer
  pub taken : List (ℕ × Text)
  pub broken : Bool

unfoldable pub write_pending : ℕ → Text → ℕ → List SendAnswer → Written
write_pending fd outbuf out_start [] = record {
  out_start = out_start;
  answers = [];
  taken = [];
  broken = false;
}
write_pending fd outbuf out_start (a ∷ answers) =
    let pending = length outbuf - out_start in
    let n : ℕ = elim a [
      | wrote k ↦ min (suc k) pending
      | interrupted ↦ 0
      | would_block ↦ 0
      | failed ↦ 0
    ] in
    let more = write_pending fd outbuf (out_start + n) answers in
    if pending == 0
    then record { out_start = out_start; answers = a ∷ answers; taken = []; broken = false }
    else elim a [
      | wrote k ↦ record more { taken = (fd, take n (drop out_start outbuf)) ∷ more.taken }
      | interrupted ↦ more
      | would_block ↦ record {
        out_start = out_start;
        answers = answers;
        taken = [];
        broken = false;
      }
      | failed ↦ record { out_start = out_start; answers = answers; taken = []; broken = true }
    ]

-- Reclaims the consumed prefix.
unfoldable pub reclaim : ClientSession → ClientSession
unfolding pending_bytes
reclaim x =
    if pending_bytes x == 0
    then record x { outbuf = []; out_start = 0 }
    else if ltb read_chunk x.out_start
    then record x { outbuf = drop x.out_start x.outbuf; out_start = 0 }
    else x

unfoldable pub differ : Bool → Bool → Bool
differ true b = not b
differ false b = b

-- The end of `flush`: interests follow what there is to do, and a call of `update` is made only when
-- they change.
unfoldable pub register_interest : ClientSession → Server → Server
unfolding differ put_session pending_bytes
register_interest x s =
    let want_read = not x.closing in
    let want_write = ltb 0 (pending_bytes x) in
    let y : ClientSession = record x { read_interest = want_read; write_interest = want_write } in
    if differ want_read x.read_interest || differ want_write x.write_interest
    then record (put_session x.fd y s) {
      loop = (EventLoop.update x.fd want_read want_write s.loop).1;
    }
    else put_session x.fd x s

unfoldable pub settle : ClientSession → Server → Option Server
unfolding register_interest drop_client pending_bytes put_session
settle x s =
    let y : ClientSession = record x { backlogged = ltb 0 (pending_bytes x) } in
    if ltb max_output_bytes (pending_bytes x)
    then drop_client x.fd (put_session x.fd x s)
    else if pending_bytes x == 0 && x.closing
    then drop_client x.fd (put_session x.fd y s)
    else some (register_interest y s)

unfoldable pub flush : ClientSession → Server → Option Server
unfolding write_pending settle reclaim drop_client put_session
flush x s =
    let w = write_pending x.fd x.outbuf x.out_start s.send_answers in
    let y : ClientSession = record x { out_start = w.out_start } in
    let s' : Server = record s { send_answers = w.answers; wire = s.wire ++ w.taken } in
    if w.broken then drop_client x.fd (put_session x.fd y s') else settle (reclaim y) s'

unfoldable pub send_to : ℕ → Text → Server → Option Server
unfolding flush find
send_to fd message s = elim (find fd s.sessions) [
  | none ↦ some s
  | some x ↦ flush (record x { outbuf = x.outbuf ++ message }) s
]

unfoldable pub on_writable : ℕ → Server → Option Server
unfolding flush find
on_writable fd s = elim (find fd s.sessions) [ none ↦ some s | some x ↦ flush x s ]

unfoldable pub begin_orderly_close : ℕ → Server → Option Server
unfolding drop_client find pending_bytes put_session
begin_orderly_close fd s = elim (find fd s.sessions) [
  | none ↦ some s
  | some x ↦
      let y : ClientSession = record x { closing = true; inbuf = [] } in
      let z : ClientSession = record y { read_interest = false; write_interest = true } in
      if pending_bytes y == 0
      then drop_client fd (put_session fd y s)
      else some (record (put_session fd z s) { loop = (EventLoop.update fd false true s.loop).1 })
]
