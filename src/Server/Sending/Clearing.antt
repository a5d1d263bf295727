-- ===== src/Server/Sending/Clearing.antt =====
-- What `send_to` of src/exchange_server.cpp does to the book: the orders of the clients that it drops go.
pub mod Steps
use market_networks.Base.{
  ==_refl, Bool, Bool-cases, List, Option-cases, Text, [], ap, arith, false, inl, inr, keep, ltb,
  none, not, refl, some, subst, sym, true, ℕ, ◌&&◌, ◌++◌, ◌==◌, ◌∙◌, ◌∷◌, ◌≡◌,
}
use market_networks.Base.Assoc.{find}
use market_networks.Network.EventLoop
use market_networks.Trading.OrderBook.{OrderBook, queue_of}
use market_networks.Trading.OrderBook.Queue.{Side, Order}
use market_networks.Trading.OrderBook.Valid.{IsValid}
use market_networks.Trading.OrderBook.Departure.{foreign, remove_orders_of-keep}
use market_networks.Trading.OrderBook.Owners.{Owned}
use market_networks.Server.State.{ClientSession, pending_bytes, Server, put_session}
use market_networks.Server.Output.{
  write_pending, Written, reclaim, drop_client, drop_session, forget_client, register_interest,
  settle, flush, send_to, max_output_bytes,
}
use market_networks.Server.Holding.{is_some, is_connected}
use market_networks.Server.Sending.Stream.{reclaim-fd, send_to-FlushedAt}
use market_networks.Server.Sending.Keeping.{send_to-Keeps}
use market_networks.Server.Sending.Telling.{send_to-absent}
use market_networks.Server.Sound.{IsSound, live_in}
use market_networks.Server.Sound.Dropping.{find-put_session}

-- The orders of the clients that are connected.
abbrev pub of_connected : Server → List Order → List Order
of_connected s os = keep (λ (o : Order). is_connected s o.owner_fd) os

-- Nobody connects, and of every queue the orders of those who stay connected are left, in their order.
abbrev pub Clears : Server → Server → Type 0
Clears s s' =
    ((k : ℕ) → is_connected s' k ≡ true → is_connected s k ≡ true)
    × ((t : Side) (i : Text) → queue_of s'.book t i ≡ of_connected s' (queue_of s.book t i))

keep-keep :
    (f g : Order → Bool) (os : List Order)
    → ((o : Order) → g o ≡ true → f o ≡ true)
    → keep g (keep f os) ≡ keep g os
keep-keep f g [] h = refl
keep-keep f g (o ∷ os) h = elim (Bool-cases (f o)) [
  | inl e ↦ rw e (elim (Bool-cases (g o)) [
    | inl e' ↦ rw e' (ap (◌∷◌ o) (keep-keep f g os h))
    | inr e' ↦ rw e' (keep-keep f g os h)
  ])
  | inr e ↦ elim (Bool-cases (g o)) [
    | inl e' ↦ absurd (ground (arith, h o e'))
    | inr e' ↦ rw (e, e') (keep-keep f g os h)
  ]
]

-- Where two tests agree on the orders that `live` admits.
keep-Owned :
    (live : ℕ → Bool) (f g : Order → Bool) (os : List Order)
    → ((o : Order) → live o.owner_fd ≡ true → f o ≡ g o)
    → Owned live os
    → keep f os ≡ keep g os
keep-Owned live f g [] h v = refl
keep-Owned live f g (o ∷ os) h v = rw (h o v.0, keep-Owned live f g os h v.1) refl

keep-all : (os : List Order) → keep (λ o. true) os ≡ os
keep-all [] = refl
keep-all (o ∷ os) = ap (◌∷◌ o) (keep-all os)

pub Clears-trans : (s t u : Server) → Clears s t → Clears t u → Clears s u
Clears-trans s t u (m, c) (n, d) = (
  λ k h. m k (n k h),
  λ side i.
      d side i
      ∙ ap (of_connected u) (c side i)
      ∙ keep-keep (λ o. is_connected t o.owner_fd) (λ o. is_connected u o.owner_fd)
          (queue_of s.book side i) (λ o h. n o.owner_fd h),
)

live-connected : (s : Server) (k : ℕ) → live_in s k ≡ true → is_connected s k ≡ true
live-connected s k h = elim (Option-cases (find k s.sessions)) [
  | inl e ↦ absurd (ground arith)
  | inr (x, e) ↦ rw e refl
]

-- The book stays, and everybody stays connected.
same-Clears :
    (s s' : Server)
    → IsSound s
    → s'.book ≡ s.book
    → ((k : ℕ) → is_connected s' k ≡ is_connected s k)
    → Clears s s'
same-Clears s s' v b same = (
  λ k h. sym (same k) ∙ h,
  λ t i.
      ap (λ c. queue_of c t i) b
      ∙ sym (keep-all (queue_of s.book t i))
      ∙ keep-Owned (live_in s) (λ o. true) (λ o. is_connected s' o.owner_fd) (queue_of s.book t i)
          (λ o l. sym (same o.owner_fd ∙ live-connected s o.owner_fd l)) (v.owned t i),
)

pub Clears-refl : (s : Server) → IsSound s → Clears s s
Clears-refl s v = same-Clears s s v refl (λ k. refl)

-- If the client is gone, so are its orders, and no others.
abbrev Removes : ℕ → OrderBook → Server → Type 0
Removes fd b s' =
    find fd s'.sessions ≡ none
    → (t : Side) (i : Text) → queue_of s'.book t i ≡ keep (foreign fd) (queue_of b t i)

drop_client-Removes :
    (fd : ℕ) (s s' : Server) (x : ClientSession)
    → IsValid s.book
    → find fd s.sessions ≡ some x
    → drop_client fd s ≡ some s'
    → Removes fd s.book s'
unfolding drop_client drop_session forget_client
drop_client-Removes fd s s' x v n e gone t i =
    let (book, b, q, _) = remove_orders_of-keep fd s.book v in
    elim (Option-cases (EventLoop.remove fd s.loop)) [
      | inl l ↦ absurd (ground arith)
      | inr (loop, l) ↦
          let same : forget_client fd x book loop s ≡ s' = ground arith in
          ap (λ (u : Server). queue_of u.book t i) (sym same) ∙ q t i
    ]

register_interest-some :
    (y : ClientSession) (s : Server) → is_connected (register_interest y s) y.fd ≡ true
unfolding register_interest
register_interest-some y s = ground (
  arith,
  find-put_session y.fd y.fd y s,
  find-put_session y.fd y.fd
      (record y { read_interest = not y.closing; write_interest = ltb 0 (pending_bytes y) }) s,
)

put_session-found :
    (fd : ℕ) (y : ClientSession) (s : Server) → find fd (put_session fd y s).sessions ≡ some y
put_session-found fd y s = find-put_session fd fd y s ∙ rw (==_refl fd) refl

settle-Removes :
    (y : ClientSession) (s s' : Server)
    → IsValid s.book
    → settle y s ≡ some s'
    → Removes y.fd s.book s'
unfolding settle put_session
settle-Removes y s s' v e gone =
    let z : ClientSession = record y { backlogged = ltb 0 (pending_bytes y) } in
    elim (Bool-cases (ltb max_output_bytes (pending_bytes y))) [
      | inl over ↦
          drop_client-Removes y.fd (put_session y.fd y s) s' y v (put_session-found y.fd y s)
            (ground arith) gone
      | inr fits ↦ elim (Bool-cases (pending_bytes y == 0 && y.closing)) [
        | inl done ↦
            drop_client-Removes y.fd (put_session y.fd z s) s' z v (put_session-found y.fd z s)
              (ground arith) gone
        | inr more ↦
            let same : register_interest z s ≡ s' = ground arith in
            let there : is_connected s' y.fd ≡ true =
              ap (λ u. is_connected u y.fd) (sym same) ∙ register_interest-some z s in
            absurd (ground (arith, there, gone))
      ]
    ]

flush-Removes :
    (x : ClientSession) (s s' : Server)
    → IsValid s.book
    → flush x s ≡ some s'
    → Removes x.fd s.book s'
unfolding flush put_session
flush-Removes x s s' v e =
    let w : Written = write_pending x.fd x.outbuf x.out_start s.send_answers in
    let y : ClientSession = record x { out_start = w.out_start } in
    let s1 : Server = record s { send_answers = w.answers; wire = s.wire ++ w.taken } in
    elim (Bool-cases w.broken) [
      | inl broken ↦
          drop_client-Removes x.fd (put_session x.fd y s1) s' y v (put_session-found x.fd y s1)
            (ground arith)
      | inr whole ↦
          subst (λ k. Removes k s.book s') (reclaim-fd y)
            (settle-Removes (reclaim y) s1 s' v (ground arith))
    ]

send_to-Removes :
    (fd : ℕ) (message : Text) (s s' : Server) (x : ClientSession)
    → IsValid s.book
    → x.fd ≡ fd
    → find fd s.sessions ≡ some x
    → send_to fd message s ≡ some s'
    → Removes fd s.book s'
unfolding send_to
send_to-Removes fd message s s' x v keyed e h =
    subst (λ k. Removes k s.book s') keyed
      (flush-Removes (record x { outbuf = x.outbuf ++ message }) s s' v (ground arith))

dropped-Clears :
    (fd : ℕ) (s s' : Server)
    → IsSound s
    → find fd s'.sessions ≡ none
    → ((k : ℕ) → (k == fd) ≡ false → find k s'.sessions ≡ find k s.sessions)
    → Removes fd s.book s'
    → Clears s s'
dropped-Clears fd s s' v gone others removes =
    let here : (k : ℕ) → (k == fd) ≡ false → is_connected s' k ≡ is_connected s k =
      λ k other. ap is_some (others k other) in
    let left : (k : ℕ) → (k == fd) ≡ true → is_connected s' k ≡ false = λ k own.
      let p : fd ≡ k = ground arith in subst (λ j. is_connected s' j ≡ false) p (ap is_some gone) in
    (
      λ k h. elim (Bool-cases (k == fd)) [
        | inl own ↦ absurd (ground (arith, left k own, h))
        | inr other ↦ sym (here k other) ∙ h
      ],
      λ t i.
          removes gone t i
          ∙ keep-Owned (live_in s) (foreign fd) (λ o. is_connected s' o.owner_fd)
              (queue_of s.book t i)
              (λ o l. elim (Bool-cases (o.owner_fd == fd)) [
                | inl own ↦ rw (left o.owner_fd own) (rw own refl)
                | inr other ↦
                    rw (here o.owner_fd other, live-connected s o.owner_fd l) (rw other refl)
              ])
              (v.owned t i),
    )

-- Sending drops the client or nobody, and the book is cleared accordingly.
pub send_to-Clears :
    (fd : ℕ) (message : Text) (s s' : Server)
    → IsSound s
    → send_to fd message s ≡ some s'
    → Clears s s'
send_to-Clears fd message s s' v h = elim (Option-cases (find fd s.sessions)) [
  | inl n ↦ subst (Clears s) (send_to-absent fd message s s' n h) (Clears-refl s v)
  | inr (x, e) ↦
      let w = v.sessions fd x e in
      let (_, _, _, others) = send_to-FlushedAt fd message s s' x w.keyed w.consumed e h in
      elim (Option-cases (find fd s'.sessions)) [
        | inl gone ↦
            dropped-Clears fd s s' v gone (λ k other. (others k other).1)
              (send_to-Removes fd message s s' x v.book w.keyed e h)
        | inr (y, f) ↦
            same-Clears s s' v (ap (λ m. m.0) (send_to-Keeps fd message s s' x w.keyed e h y f))
              (λ k. elim (Bool-cases (k == fd)) [
                | inl own ↦
                    let p : fd ≡ k = ground arith in
                    subst (λ j. is_connected s' j ≡ is_connected s j) p (rw (e, f) refl)
                | inr other ↦ ap is_some (others k other).1
              ])
      ]
]
