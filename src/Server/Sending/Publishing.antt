-- ===== src/Server/Sending/Publishing.antt =====
-- `publish` of src/exchange_server.cpp: who is told of an execution.
use market_networks.Base.{
  Bool, Bool-cases, List, Text, [], ap, append-nil, arith, false, if◌then◌else◌, inl, inr, refl,
  some, subst, sym, ℕ, ◌++◌, ◌==◌, ◌∙◌, ◌∷◌, ◌≡◌,
}
use market_networks.Base.Assoc.{find}
use market_networks.Protocol.Response.{bought, sold, trade}
use market_networks.Trading.OrderBook.Matching.{TradeExecution}
use market_networks.Server.State.{ClientRole, ClientSession, Server, has_text, has_fd}
use market_networks.Server.Handlers.{publish}
use market_networks.Server.Sound.{IsSound, is_subscribed}
use market_networks.Server.Sound.Flushing.{send_to-Steps}
use market_networks.Server.Sound.Handling.{send_each-Steps}
use market_networks.Server.Sending.Telling.{
  Tells, Tells-trans, Tells-agree, Tells-identity, only, each, send_to-Tells, send_each-Tells,
}
use market_networks.Server.Sets.{IsDistinct}

-- To distinct clients a message goes once.
each-IsDistinct :
    (fds : List ℕ) (message : Text) (k : ℕ)
    → IsDistinct fds
    → each fds message k ≡ (if has_fd k fds then message else [])
unfolding has_fd
each-IsDistinct [] message k d = refl
each-IsDistinct (fd ∷ fds) message k (new, d) = elim (Bool-cases (fd == k)) [
  | inl h ↦
      let p : fd ≡ k = ground arith in
      let once : has_fd k fds ≡ false = subst (λ j. has_fd j fds ≡ false) p new in
      rw (h, each-IsDistinct fds message k d, once) (append-nil message)
  | inr h ↦ rw (h, each-IsDistinct fds message k d) refl
]

-- What a client is told of a trade that it may follow.
abbrev pub followed_trade : TradeExecution → Server → ℕ → Text
followed_trade e s k =
    if is_subscribed e.instrument (find k s.sessions)
    then trade e.instrument e.quantity e.price
    else []

-- What a client is told of an execution.
abbrev pub news : TradeExecution → Server → ℕ → Text
news e s k =
    only e.buyer_fd (bought e.instrument e.quantity e.price) k
    ++ (only e.seller_fd (sold e.instrument e.quantity e.price) k ++ followed_trade e s k)

-- A client that stays connected keeps its subscriptions.
pub Tells-subscribed :
    (f : ℕ → Text) (s t : Server)
    → Tells f s t
    → (i : Text) (k : ℕ) (y : ClientSession) → find k t.sessions ≡ some y
    → is_subscribed i (find k t.sessions) ≡ is_subscribed i (find k s.sessions)
Tells-subscribed f s t a i k y h =
    let (x, e, same) = Tells-identity f s t a k y h in
    ap (is_subscribed i) h
    ∙ ap (λ (u : ClientRole × Text × Bool × List Text). has_text i u.3) same
    ∙ ap (is_subscribed i) (sym e)

-- An execution is published to the two traders and to the subscribers of its instrument: the buyer's
-- stream grows by BOUGHT, then the seller's by SOLD, then the stream of each client that is subscribed
-- to the instrument by TRADE, once, and no other stream grows. A client that is dropped on the way gets
-- a part of its text only, and nobody's identity changes. The condition: the server is sound.
pub publish-Tells :
    (e : TradeExecution) (s : Server)
    → IsSound s
    → (s' : Server) × (publish e s ≡ some s') × Tells (news e s) s s'
unfolding publish
publish-Tells e s v =
    let b = bought e.instrument e.quantity e.price in
    let c = sold e.instrument e.quantity e.price in
    let m = trade e.instrument e.quantity e.price in
    let (s1, h1, v1, _) = send_to-Steps e.buyer_fd b s v in
    let (s2, h2, v2, _) = send_to-Steps e.seller_fd c s1 v1 in
    let fds = s2.subscribers e.instrument in
    let (s3, h3, _, _) = send_each-Steps fds m s2 v2 in
    let first = send_to-Tells e.buyer_fd b s s1 v h1 in
    let second = send_to-Tells e.seller_fd c s1 s2 v1 h2 in
    let both = Tells-trans (only e.buyer_fd b) (only e.seller_fd c) s s1 s2 first second in
    let last =
      Tells-agree (each fds m) (followed_trade e s) s2 s3 (send_each-Tells fds m s2 s3 v2 h3)
        (λ k y h.
          each-IsDistinct fds m k (v2.distinct e.instrument)
          ∙ ap (λ (is_one : Bool). if is_one then m else [])
              (v2.subscribed k e.instrument ∙ Tells-subscribed _ s s2 both e.instrument k y h)) in
    (
      s3,
      rw (publish, h1, h2, h3) refl,
      Tells-trans (only e.buyer_fd b) (λ k. only e.seller_fd c k ++ followed_trade e s k) s s1 s3
          first (Tells-trans (only e.seller_fd c) (followed_trade e s) s1 s2 s3 second last),
    )
