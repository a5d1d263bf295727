-- ===== src/Server/Following.antt =====
-- A subscription in src/exchange_server.cpp, from the line that a client sends to the reply.
use market_networks.Base.{
  ==_refl, Bool, List, Text, ap, arith, false, if◌then◌else◌, refl, some, sym, text_eq, text_eq_iff,
  true, ℕ, ◌&&◌, ◌++◌, ◌==◌, ◌||◌, ◌∙◌, ◌≡◌, ◌≢◌,
}
use market_networks.Base.Assoc.{find, find-insert}
use market_networks.Protocol.Parse.Grammar.{Request, follow, unfollow, IsListed}
use market_networks.Protocol.Parse.RoundTrip.{print, parse-print}
use market_networks.Protocol.Response.{ok_message}
use market_networks.Server.State.{
  ClientRole, unknown, trader, market_data, ClientSession, Server, has_text, insert_text,
  erase_text, has_fd, insert_fd, erase_fd, put_subscribers, put_session,
}
use market_networks.Server.Output.{send_to}
use market_networks.Server.Handlers.{
  same_role, reject_wrong_role, is_subscribe, change_subscription, handle_subscription, dispatch,
  handle_message,
}
use market_networks.Server.Sets.{has_fd-insert_fd, has_fd-erase_fd}
use market_networks.Server.Sending.{pending}
use market_networks.Server.Sending.Stream.{sent_to, identity, send_to-FlushedAt}
use market_networks.Server.Sending.Keeping.{send_to-Keeps}
use market_networks.Server.Sound.{IsSound}
use market_networks.Server.Sound.Dispatching.{handle_message-Steps}

-- SUBSCRIBE or UNSUBSCRIBE.
abbrev pub wish : Bool → Text → Request
wish true i = follow i
wish false i = unfollow i

-- The instruments that the client follows then.
abbrev pub followed : Bool → Text → ClientSession → List Text
followed subscribing i x =
    if subscribing then insert_text i x.subscriptions else erase_text i x.subscriptions

abbrev follower : Bool → Text → ClientSession → ClientSession
follower subscribing i x = record x {
  role = if same_role x.role unknown then market_data else x.role;
  subscriptions = followed subscribing i x;
}

-- The server with the subscription changed, before the reply.
abbrev changed : ℕ → Bool → Text → ClientSession → Server → Server
changed fd subscribing i x s = record (put_session fd (follower subscribing i x) s) {
  subscribers =
      put_subscribers i
        (if subscribing then insert_fd fd (s.subscribers i) else erase_fd fd (s.subscribers i))
        s.subscribers;
}

admitted_role :
    (r : ClientRole) → r ≢ trader → (same_role r unknown || same_role r market_data) ≡ true
unfolding same_role
admitted_role unknown h = refl
admitted_role trader h = absurd (h refl)
admitted_role market_data h = refl

follower_role :
    (r : ClientRole) → r ≢ trader → (if same_role r unknown then market_data else r) ≡ market_data
unfolding same_role
follower_role unknown h = refl
follower_role trader h = absurd (h refl)
follower_role market_data h = refl

module _ (fd : ℕ) (i : Text) (s : Server) (x : ClientSession) (e : find fd s.sessions ≡ some x)
    (r : x.role ≢ trader) (listed : IsListed i) where
  subscription-handled :
      (subscribing : Bool)
      → (subscribing ≡ false → has_text i x.subscriptions ≡ true)
      → handle_message fd (print (wish subscribing i)) s
        ≡ send_to fd ok_message (changed fd subscribing i x s)
  unfolding handle_message dispatch handle_subscription reject_wrong_role change_subscription
      is_subscribe
  subscription-handled true h =
      rw (parse-print (follow i) listed, e, admitted_role x.role r, e) refl
  subscription-handled false h =
      rw (parse-print (unfollow i) listed, e, admitted_role x.role r, e, h refl) refl

changed-subscribers :
    (fd : ℕ) (subscribing : Bool) (i : Text) (x : ClientSession) (s : Server) (k : ℕ) (j : Text)
    → has_fd k ((changed fd subscribing i x s).subscribers j)
      ≡ (if fd == k && text_eq j i then subscribing else has_fd k (s.subscribers j))
unfolding put_session put_subscribers
changed-subscribers fd subscribing i x s k j = ground (
  arith,
  has_fd-insert_fd k fd (s.subscribers i),
  has_fd-erase_fd k fd (s.subscribers i),
  text_eq_iff j i,
)

-- A SUBSCRIBE or UNSUBSCRIBE line of a client that is not a trader. The client becomes a market data
-- client with that subscription added or taken away, unless sending the reply drops it, and it alone
-- enters or leaves the list of that instrument's subscribers. `OK` is appended to its stream, and no
-- other session and no other stream changes. The conditions: the server is sound, the instrument is
-- listed, and an UNSUBSCRIBE is for an instrument that the client follows.
pub handle_message-subscribes :
    (fd : ℕ) (subscribing : Bool) (i : Text) (s : Server) (x : ClientSession)
    → IsSound s
    → find fd s.sessions ≡ some x
    → x.role ≢ trader
    → IsListed i
    → (subscribing ≡ false → has_text i x.subscriptions ≡ true)
    → (s' : Server) × (rest : Text) × (handle_message fd (print (wish subscribing i)) s ≡ some s')
      × (sent_to fd s'.wire ++ rest ≡ (sent_to fd s.wire ++ pending x) ++ ok_message)
      × ((y : ClientSession)
          → find fd s'.sessions ≡ some y
          → (pending y ≡ rest)
            × (identity y ≡ (market_data, x.username, x.logged_in, followed subscribing i x))
            × ((k : ℕ) (j : Text)
                → has_fd k (s'.subscribers j)
                  ≡ (if fd == k && text_eq j i then subscribing else has_fd k (s.subscribers j))))
      × ((k : ℕ)
          → (k == fd) ≡ false
          → (sent_to k s'.wire ≡ sent_to k s.wire) × (find k s'.sessions ≡ find k s.sessions))
unfolding put_session
handle_message-subscribes fd subscribing i s x v e r listed h =
    let w = v.sessions fd x e in
    let z = follower subscribing i x in
    let t = changed fd subscribing i x s in
    let there : find fd t.sessions ≡ some z =
      find-insert fd fd z s.sessions ∙ rw (==_refl fd) refl in
    let (s', f, _, _) = handle_message-Steps fd (print (wish subscribing i)) x s v e in
    let sent = sym (subscription-handled fd i s x e r listed subscribing h) ∙ f in
    let (rest, whole, here, others) =
      send_to-FlushedAt fd ok_message t s' z w.keyed w.consumed there sent in
    let kept = send_to-Keeps fd ok_message t s' z w.keyed there sent in
    (
      s',
      rest,
      f,
      whole,
      λ y g. (
        (here y g).0,
        (here y g).1
            ∙ ap (λ role. (role, x.username, x.logged_in, followed subscribing i x))
                (follower_role x.role r),
        λ k j. ap (λ m. has_fd k (m.1 j)) (kept y g) ∙ changed-subscribers fd subscribing i x s k j,
      ),
      λ k other.
          ((others k other).0, (others k other).1 ∙ find-insert fd k z s.sessions ∙ ground arith),
    )
