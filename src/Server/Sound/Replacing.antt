-- ===== src/Server/Sound/Replacing.antt =====
-- Sessions of src/exchange_server.cpp that are written back with other buffers and flags.
use market_networks.Base.{Bool, Text, ap, arith, false, length, refl, some, ℕ, ◌∙◌, ◌≡◌, ◌≤◌}
use market_networks.Base.Assoc.{find}
use market_networks.Network.EventLoop
use market_networks.Server.State.{ClientSession, Server, has_text, put_session}
use market_networks.Server.Output.{drop_client}
use market_networks.Server.Watched.{put_session-IsWatchedBut}
use market_networks.Server.Sound.{
  IsSession, name_of, IsSound, Follows, Follows-refl, Waits, Waits-trans, Steps,
}
use market_networks.Server.Sound.Dropping.{
  put_session-IsSound, put_session-Waits, drop_client-Drops,
}

-- `y` may take the place of `x`: the same client, with no more input waiting.
pub record Replaces (x y : ClientSession) : Type 0 where
  pub fd : y.fd ≡ x.fd
  pub role : y.role ≡ x.role
  pub logged_in : y.logged_in ≡ x.logged_in
  pub username : y.username ≡ x.username
  pub subscriptions : y.subscriptions ≡ x.subscriptions
  pub consumed : y.out_start ≤ length y.outbuf
  pub waiting : Follows x y

-- Changes of the buffers and the flags.
pub updated :
    (x y : ClientSession) (outbuf inbuf : Text) (out_start : ℕ) (c b w i : Bool)
    → Replaces x y
    → out_start ≤ length outbuf
    → (length inbuf ≤ length x.inbuf) × (c ≡ false → (x.closing ≡ false) × (inbuf ≡ x.inbuf))
    → Replaces x (record y {
      outbuf = outbuf;
      inbuf = inbuf;
      out_start = out_start;
      closing = c;
      backlogged = b;
      write_interest = w;
      read_interest = i;
    })
updated x y outbuf inbuf out_start c b w i r h k = record {
  fd = r.fd;
  role = r.role;
  logged_in = r.logged_in;
  username = r.username;
  subscriptions = r.subscriptions;
  consumed = h;
  waiting = k;
}

pub Replaces-IsSession :
    (k : ℕ) (x y : ClientSession) → IsSession k x → Replaces x y → IsSession k y
Replaces-IsSession k x y w r = record {
  keyed = cc (w.keyed, r.fd);
  consumed = r.consumed;
  trading = λ h. ground (arith, w.trading, r.role, r.logged_in);
  watching = λ i h. r.role ∙ w.watching i (rw (← r.subscriptions) h);
}

pub Replaces-refl : (k : ℕ) (x : ClientSession) → IsSession k x → Replaces x x
Replaces-refl k x w = record {
  fd = refl;
  role = refl;
  logged_in = refl;
  username = refl;
  subscriptions = refl;
  consumed = w.consumed;
  waiting = Follows-refl x;
}

Replaces-name : (x y : ClientSession) → Replaces x y → name_of (some y) ≡ name_of (some x)
Replaces-name x y r = rw (r.logged_in, r.username)

pub put_session-Steps :
    (fd : ℕ) (x y : ClientSession) (s : Server)
    → IsSound s
    → find fd s.sessions ≡ some x
    → Replaces x y
    → IsSound (put_session fd y s) × Waits s (put_session fd y s)
put_session-Steps fd x y s v e r = (
  put_session-IsSound fd x y s v e (Replaces-IsSession fd x y (v.sessions fd x e) r)
      (λ i. ap (has_text i) r.subscriptions) (Replaces-name x y r),
  put_session-Waits fd x y s e r.waiting,
)

-- A drop after the session was written back.
pub drop-put_session-Steps :
    (fd : ℕ) (x y : ClientSession) (s : Server)
    → IsSound s
    → find fd s.sessions ≡ some x
    → Replaces x y
    → Steps s (drop_client fd (put_session fd y s))
drop-put_session-Steps fd x y s v e r =
    let (w, b) = put_session-Steps fd x y s v e r in
    let (s', f, w', b', h) = drop_client-Drops fd (put_session fd y s) w in
    (
      s',
      f,
      w',
      (Waits-trans s (put_session fd y s) s' b b', λ u. h (put_session-IsWatchedBut fd y s u)),
    )

pub with_loop-IsSound :
    (s : Server) (loop : EventLoop.EventLoop)
    → IsSound s
    → EventLoop.Poll.Indexed loop
    → IsSound (record s { loop = loop })
with_loop-IsSound s loop v u = record {
  sessions = v.sessions;
  subscribed = v.subscribed;
  distinct = v.distinct;
  names = v.names;
  book = v.book;
  owned = v.owned;
  indexed = u;
}
