-- ===== src/Server/Sending/Keeping.antt =====
-- What `send_to` of src/exchange_server.cpp leaves as it is: the book, the lists of subscribers and the
-- names, unless the client is dropped.
use market_networks.Base.{
  ==_refl, Bool-cases, List, Option-cases, Text, ap, arith, if_cases, inl, inr, ltb, none, not,
  refl, some, subst, sym, ℕ, ◌&&◌, ◌++◌, ◌==◌, ◌||◌, ◌∙◌, ◌≡◌,
}
use market_networks.Base.Assoc.{find, find-erase}
use market_networks.Network.EventLoop
use market_networks.Trading.OrderBook.{OrderBook, remove_orders_of}
use market_networks.Server.State.{ClientSession, pending_bytes, Server, put_session}
use market_networks.Server.Output.{
  write_pending, Written, reclaim, drop_client, drop_session, forget_client, register_interest,
  settle, flush, send_to, differ, max_output_bytes,
}
use market_networks.Server.Sending.Stream.{reclaim-fd}

abbrev Shared : Type 0
Shared = OrderBook × (Text → List ℕ) × List Text

abbrev pub shared : Server → Shared
shared s = (s.book, s.subscribers, s.usernames)

abbrev pub Keeps : ℕ → Server → Server → Type 0
Keeps fd s s' = (y : ClientSession) → find fd s'.sessions ≡ some y → shared s' ≡ shared s

-- A dropped client has no session.
drop_client-none :
    (fd : ℕ) (s s' : Server) → drop_client fd s ≡ some s' → find fd s'.sessions ≡ none
unfolding drop_client drop_session forget_client
drop_client-none fd s s' e = elim (Option-cases (find fd s.sessions)) [
  | inl n ↦
      let same : s ≡ s' = ground arith in ap (λ (t : Server). find fd t.sessions) (sym same) ∙ n
  | inr (x, n) ↦ elim (Option-cases (remove_orders_of fd s.book)) [
    | inl b ↦ absurd (ground arith)
    | inr (book, b) ↦ elim (Option-cases (EventLoop.remove fd s.loop)) [
      | inl l ↦ absurd (ground arith)
      | inr (loop, l) ↦
          let same : forget_client fd x book loop s ≡ s' = ground arith in
          ap (λ (t : Server). find fd t.sessions) (sym same)
          ∙ rw (find-erase fd fd s.sessions, ==_refl fd) refl
    ]
  ]
]

drop_client-Keeps : (fd : ℕ) (s t s' : Server) → drop_client fd s ≡ some s' → Keeps fd t s'
drop_client-Keeps fd s t s' e y f = absurd (ground (arith, drop_client-none fd s s' e))

register_interest-Keeps :
    (y : ClientSession) (s : Server) → shared (register_interest y s) ≡ shared s
unfolding register_interest put_session
register_interest-Keeps y s =
    if_cases (λ t. shared t ≡ shared s)
      (differ (not y.closing) y.read_interest || differ (ltb 0 (pending_bytes y)) y.write_interest)
      (λ _. refl) (λ _. refl)

settle-Keeps : (y : ClientSession) (s s' : Server) → settle y s ≡ some s' → Keeps y.fd s s'
unfolding settle
settle-Keeps y s s' e =
    let z : ClientSession = record y { backlogged = ltb 0 (pending_bytes y) } in
    elim (Bool-cases (ltb max_output_bytes (pending_bytes y))) [
      | inl over ↦ drop_client-Keeps y.fd (put_session y.fd y s) s s' (ground arith)
      | inr fits ↦ elim (Bool-cases (pending_bytes y == 0 && y.closing)) [
        | inl done ↦ drop_client-Keeps y.fd (put_session y.fd z s) s s' (ground arith)
        | inr more ↦
            let same : register_interest z s ≡ s' = ground arith in
            λ u f. ap shared (sym same) ∙ register_interest-Keeps z s
      ]
    ]

flush-Keeps : (x : ClientSession) (s s' : Server) → flush x s ≡ some s' → Keeps x.fd s s'
unfolding flush
flush-Keeps x s s' e =
    let w : Written = write_pending x.fd x.outbuf x.out_start s.send_answers in
    let y : ClientSession = record x { out_start = w.out_start } in
    let s1 : Server = record s { send_answers = w.answers; wire = s.wire ++ w.taken } in
    elim (Bool-cases w.broken) [
      | inl broken ↦ drop_client-Keeps x.fd (put_session x.fd y s1) s s' (ground arith)
      | inr whole ↦
          subst (λ k. Keeps k s s') (reclaim-fd y) (settle-Keeps (reclaim y) s1 s' (ground arith))
    ]

-- Sending to a client that is still connected afterwards changes neither the book nor the lists of
-- subscribers nor the names.
pub send_to-Keeps :
    (fd : ℕ) (message : Text) (s s' : Server) (x : ClientSession)
    → x.fd ≡ fd
    → find fd s.sessions ≡ some x
    → send_to fd message s ≡ some s'
    → Keeps fd s s'
unfolding send_to
send_to-Keeps fd message s s' x keyed e h =
    subst (λ k. Keeps k s s') keyed
      (flush-Keeps (record x { outbuf = x.outbuf ++ message }) s s' (ground arith))
