-- ===== src/Server/Sending/Ordering.antt =====
-- `handle_order` of src/exchange_server.cpp: who is told what of an order that is accepted, and the book.
use market_networks.Base.{
  List, Option, Option-cases, Text, [], ap, inl, inr, none, refl, some, subst, sym, true, ℕ, ◌++◌,
  ◌>>=◌, ◌∙◌, ◌∷◌, ◌≡◌, ◌≢◌,
}
use market_networks.Base.Assoc.{find}
use market_networks.Protocol.Command.{ParsedCommand}
use market_networks.Protocol.Response.{order_accepted}
use market_networks.Trading.OrderBook.{OrderBook, queue_of, add_order}
use market_networks.Trading.OrderBook.Queue.{Side}
use market_networks.Trading.OrderBook.Matching.{TradeExecution}
use market_networks.Server.Output.{send_to}
use market_networks.Server.State.{ClientSession, Server}
use market_networks.Server.Handlers.{publish, publish_each, side_of, submit_order}
use market_networks.Server.Sending.Telling.{
  Tells, Tells-refl, Tells-trans, Tells-agree, only, send_to-Tells,
}
use market_networks.Server.Sending.Publishing.{news, Tells-subscribed, publish-Tells}
use market_networks.Server.Sending.Clearing.{of_connected}
use market_networks.Server.Sending.Clearing.Steps.{accepted-Clearing}
use market_networks.Server.Sound.{live_in, IsSound}
use market_networks.Server.Sound.Flushing.{send_to-Steps}
use market_networks.Server.Sound.Handling.{publish-Steps, added-IsSound}

-- What a client is told of executions, one after another.
abbrev pub all_news : List TradeExecution → Server → ℕ → Text
all_news [] s k = []
all_news (e ∷ es) s k = news e s k ++ all_news es s k

-- The executions are told in their order, all of them unless the client `fd` is gone.
abbrev Telling : ℕ → List TradeExecution → (ℕ → Text) → Server → Server → Type 0
Telling fd es before s s' =
    (told : List TradeExecution) × (rest : List TradeExecution) × (told ++ rest ≡ es)
    × (rest ≢ [] → find fd s'.sessions ≡ none)
    × Tells (λ k. before k ++ all_news told s k) s s'

-- So they are, and of the orders of `book` those of the clients that are still connected are left.
abbrev pub Publishes :
    ℕ → List TradeExecution → (ℕ → Text) → OrderBook → Server → Option Server → Type 0
Publishes fd es before book s r =
    (s' : Server) × (r ≡ some s')
    × Telling fd es before s s'
    × ((side : Side) (i : Text) → queue_of s'.book side i ≡ of_connected s' (queue_of book side i))

-- Who stays connected is told the same whether one looks before or after a step.
all_news-same :
    (f : ℕ → Text) (es : List TradeExecution) (s t : Server)
    → Tells f s t
    → (k : ℕ) (x : ClientSession) → find k t.sessions ≡ some x
    → all_news es t k ≡ all_news es s k
all_news-same f [] s t a k x h = refl
all_news-same f (e ∷ es) s t a k x h =
    rw (Tells-subscribed f s t a e.instrument k x h, all_news-same f es s t a k x h) refl

same_server : (s t : Server) → some s ≡ some t → s ≡ t
same_server s t e = ap (λ (o : Option Server). elim o [ none ↦ s | some u ↦ u ]) e

-- What comes after the first execution.
abbrev onward : ℕ → List TradeExecution → Server → Option Server
onward fd es t = elim (find fd t.sessions) [ none ↦ some t | some x ↦ publish_each fd es t ]

publish_each-next :
    (fd : ℕ) (e : TradeExecution) (es : List TradeExecution) (s t : Server)
    → publish e s ≡ some t
    → publish_each fd (e ∷ es) s ≡ onward fd es t
unfolding publish_each
publish_each-next fd e es s t h = ap (λ (r : Option Server). r >>= onward fd es) h

publish_each-Telling :
    (fd : ℕ) (es : List TradeExecution) (s : Server)
    → IsSound s
    → (s' : Server) × (publish_each fd es s ≡ some s') × Telling fd es (λ k. []) s s'
unfolding publish_each
publish_each-Telling fd [] s v = (s, refl, ([], [], refl, λ h. absurd (h refl), Tells-refl s))
publish_each-Telling fd (e ∷ es) s v =
    let (t, h, tells) = publish-Tells e s v in
    let (t', h', w', _) = publish-Steps e s v in
    let w : IsSound t = subst IsSound (same_server t' t (sym h' ∙ h)) w' in
    elim (Option-cases (find fd t.sessions)) [
      | inl gone ↦ (
        t,
        publish_each-next fd e es s t h ∙ rw (onward, gone) refl,
        (e ∷ [], es, refl, λ _. gone, Tells-trans (news e s) (λ k. []) s t t tells (Tells-refl t)),
      )
      | inr (x, there) ↦
          let (u, h2, (told, rest, whole, stop, more)) = publish_each-Telling fd es t w in
          (
            u,
            publish_each-next fd e es s t h ∙ rw (onward, there) h2,
            (
              e ∷ told,
              rest,
              ap (◌∷◌ e) whole,
              stop,
              Tells-trans (news e s) (all_news told s) s t u tells (
                  Tells-agree (all_news told t) (all_news told s) t u more
                    (all_news-same (news e s) told s t tells)),
            ),
          )
    ]

-- The order of a client that is logged in, its command checked.
pub submit_order-Publishes :
    (fd : ℕ) (cmd : ParsedCommand) (s : Server)
    → IsSound s
    → live_in s fd ≡ true
    → let (order_id, executions, book) =
        add_order fd cmd.instrument (side_of cmd.type) cmd.quantity cmd.price [] s.book in
      Publishes fd executions (only fd (order_accepted order_id)) book s (submit_order fd cmd s)
unfolding submit_order
submit_order-Publishes fd cmd s v live =
    let (id, executions, book) =
      add_order fd cmd.instrument (side_of cmd.type) cmd.quantity cmd.price [] s.book in
    let s1 : Server = record s { book = book } in
    let v1 = added-IsSound fd cmd s v live in
    let (t, h, u, _) = send_to-Steps fd (order_accepted id) s1 v1 in
    let (s', h', (told, rest, whole, stop, more)) = publish_each-Telling fd executions t u in
    let (z, f, _, cleared) = accepted-Clearing fd (order_accepted id) executions s1 v1 in
    let sent : send_to fd (order_accepted id) s1 >>= publish_each fd executions ≡ some s' =
      rw h h' in
    let same : z ≡ s' = same_server z s' (sym f ∙ sent) in
    let accepted = send_to-Tells fd (order_accepted id) s1 t v1 h in
    (
      s',
      sent,
      (
        told,
        rest,
        whole,
        stop,
        Tells-trans (only fd (order_accepted id)) (all_news told s) s t s' accepted (
            Tells-agree (all_news told t) (all_news told s) t s' more
              (all_news-same (only fd (order_accepted id)) told s t accepted)),
      ),
      subst
          (λ (y : Server).
            (side : Side) (i : Text)
            → queue_of y.book side i ≡ of_connected y (queue_of book side i))
          same cleared.1,
    )
