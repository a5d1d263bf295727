-- ===== src/Server/Sending/Clearing/Steps.antt =====
-- The book after the messages of `publish` and of an order in src/exchange_server.cpp.
use market_networks.Base.{
  List, Option, Option-cases, Text, [], inl, inr, refl, some, ℕ, ◌>>=◌, ◌∷◌, ◌≡◌,
}
use market_networks.Base.Assoc.{find}
use market_networks.Server.State.{Server}
use market_networks.Server.Output.{send_to}
use market_networks.Server.Handlers.{send_each, publish, publish_each}
use market_networks.Trading.OrderBook.Matching.{TradeExecution}
use market_networks.Protocol.Response.{bought, sold}
use market_networks.Server.Sound.{IsSound}
use market_networks.Server.Sound.Flushing.{send_to-Steps}
use market_networks.Server.Sending.Clearing.{Clears, Clears-refl, Clears-trans, send_to-Clears}

-- A step that clears the book.
abbrev pub Clearing : Server → Option Server → Type 0
Clearing s r = (s' : Server) × (r ≡ some s') × IsSound s' × Clears s s'

send_to-Clearing :
    (fd : ℕ) (message : Text) (s : Server) → IsSound s → Clearing s (send_to fd message s)
send_to-Clearing fd message s v =
    let (t, e, w, _) = send_to-Steps fd message s v in (t, e, w, send_to-Clears fd message s t v e)

Clearing-then :
    (s : Server) (r : Option Server) (f : Server → Option Server)
    → Clearing s r
    → ((t : Server) → IsSound t → Clearing t (f t))
    → Clearing s (r >>= f)
Clearing-then s r f (t, e, v, c) g =
    let (u, e', w, d) = g t v in (u, rw e e', w, Clears-trans s t u c d)

send_each-Clearing :
    (fds : List ℕ) (message : Text) (s : Server) → IsSound s → Clearing s (send_each fds message s)
unfolding send_each
send_each-Clearing [] message s v = (s, refl, v, Clears-refl s v)
send_each-Clearing (fd ∷ fds) message s v =
    Clearing-then s (send_to fd message s) (send_each fds message) (send_to-Clearing fd message s v)
      (λ t w. send_each-Clearing fds message t w)

pub publish-Clearing : (e : TradeExecution) (s : Server) → IsSound s → Clearing s (publish e s)
unfolding publish
publish-Clearing e s v =
    Clearing-then s (send_to e.buyer_fd (bought e.instrument e.quantity e.price) s) _
      (send_to-Clearing e.buyer_fd _ s v)
      (λ s1 v1.
        Clearing-then s1 (send_to e.seller_fd (sold e.instrument e.quantity e.price) s1) _
          (send_to-Clearing e.seller_fd _ s1 v1)
          (λ s2 v2. send_each-Clearing (s2.subscribers e.instrument) _ s2 v2))

pub publish_each-Clearing :
    (fd : ℕ) (es : List TradeExecution) (s : Server) → IsSound s → Clearing s (publish_each fd es s)
unfolding publish_each
publish_each-Clearing fd [] s v = (s, refl, v, Clears-refl s v)
publish_each-Clearing fd (e ∷ es) s v =
    Clearing-then s (publish e s) _ (publish-Clearing e s v) (λ t w.
      elim (Option-cases (find fd t.sessions)) [
        | inl gone ↦ rw gone (t, refl, w, Clears-refl t w)
        | inr (x, there) ↦ rw there (publish_each-Clearing fd es t w)
      ])

-- An order is accepted and its executions published.
pub accepted-Clearing :
    (fd : ℕ) (message : Text) (es : List TradeExecution) (s : Server)
    → IsSound s
    → Clearing s (send_to fd message s >>= publish_each fd es)
accepted-Clearing fd message es s v =
    Clearing-then s (send_to fd message s) (publish_each fd es) (send_to-Clearing fd message s v)
      (λ t w. publish_each-Clearing fd es t w)
