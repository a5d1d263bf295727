-- ===== src/Server/Holding.antt =====
-- The clients' descriptors that the server of src/exchange_server.cpp holds, and those that it has open.
use market_networks.Base.{
  Bool, Bool-cases, List, Option, [], ap, arith, false, inl, inr, none, refl, some, subst, sym,
  true, ℕ, ◌++◌, ◌==◌, ◌||◌, ◌∙◌, ◌∷◌, ◌≡◌, ◌⊎◌,
}
use market_networks.Base.Assoc.{find, find-insert, find-erase}
use market_networks.Network.EventLoop
use market_networks.Network.Sockets.{
  SystemCall, opened, closed, reuse_address, nonblocking, no_delay, shut_down, send_buffer, bound,
  connected_to, listening, is_closed, left_open,
}
use market_networks.Trading.OrderBook.{OrderBook}
use market_networks.Server.State.{ClientSession, Server, has_fd, put_session}
use market_networks.Server.Output.{forget_client}

abbrev pub is_some : {A : Type 0} → Option A → Bool
is_some none = false
is_some (some x) = true

abbrev pub is_connected : Server → ℕ → Bool
is_connected s k = is_some (find k s.sessions)

-- A client's, or one that is about to be closed.
abbrev pub is_held : Server → ℕ → Bool
is_held s k = is_connected s k || has_fd k s.closed_fds

-- Every descriptor that is open is held.
abbrev pub IsTidy : Server → Type 0
IsTidy s = (k : ℕ) → has_fd k (left_open s.calls) ≡ true → is_held s k ≡ true

-- What is held stays so, and nothing is opened or closed.
abbrev pub Retains : Server → Server → Type 0
Retains s s' = (s'.calls ≡ s.calls) × ((k : ℕ) → is_held s k ≡ true → is_held s' k ≡ true)

pub Retains-refl : (s : Server) → Retains s s
Retains-refl s = (refl, λ k h. h)

pub Retains-trans : (s t u : Server) → Retains s t → Retains t u → Retains s u
Retains-trans s t u f g = (g.0 ∙ f.0, λ k h. g.1 k (f.1 k h))

pub Retains-IsTidy : (s s' : Server) → Retains s s' → IsTidy s → IsTidy s'
Retains-IsTidy s s' r t k h =
    r.1 k (t k (ap (λ (c : List SystemCall). has_fd k (left_open c)) (sym r.0) ∙ h))

pub put_session-Retains : (fd : ℕ) (y : ClientSession) (s : Server) → Retains s (put_session fd y s)
unfolding put_session
put_session-Retains fd y s = (refl, λ k h. ground (arith, find-insert fd k y s.sessions))

has_fd-own : (k : ℕ) (l : List ℕ) → has_fd k (l ++ k ∷ []) ≡ true
unfolding has_fd
has_fd-own k [] = ground arith
has_fd-own k (j ∷ js) = ground (arith, has_fd-own k js)

has_fd-left : (j k : ℕ) (l : List ℕ) → has_fd j l ≡ true → has_fd j (l ++ k ∷ []) ≡ true
unfolding has_fd
has_fd-left j k [] h = absurd cc
has_fd-left j k (i ∷ is) h = ground (arith, has_fd-left j k is)

-- A client that is dropped waits to be closed.
pub forget_client-Retains :
    (fd : ℕ) (x : ClientSession) (book : OrderBook) (loop : EventLoop.EventLoop) (s : Server)
    → Retains s (forget_client fd x book loop s)
unfolding forget_client
forget_client-Retains fd x book loop s = (
  refl,
  λ k h. elim (Bool-cases (fd == k)) [
    | inl own ↦
        let p : fd ≡ k = ground arith in
        let last : has_fd k (s.closed_fds ++ fd ∷ []) ≡ true =
          subst (λ j. has_fd j (s.closed_fds ++ fd ∷ []) ≡ true) p (has_fd-own fd s.closed_fds) in
        ground (arith, last)
    | inr other ↦ ground (arith, find-erase fd k s.sessions, has_fd-left k fd s.closed_fds)
  ],
)

is_closed-after :
    (k : ℕ) (calls more : List SystemCall)
    → is_closed k (calls ++ more) ≡ (is_closed k calls || is_closed k more)
is_closed-after k [] more = refl
is_closed-after k (closed j ∷ calls) more = ground (arith, is_closed-after k calls more)
is_closed-after k (opened j ∷ calls) more = is_closed-after k calls more
is_closed-after k (reuse_address j ∷ calls) more = is_closed-after k calls more
is_closed-after k (nonblocking j ∷ calls) more = is_closed-after k calls more
is_closed-after k (no_delay j ∷ calls) more = is_closed-after k calls more
is_closed-after k (shut_down j ∷ calls) more = is_closed-after k calls more
is_closed-after k (send_buffer j n ∷ calls) more = is_closed-after k calls more
is_closed-after k (bound j a b ∷ calls) more = is_closed-after k calls more
is_closed-after k (connected_to j a b ∷ calls) more = is_closed-after k calls more
is_closed-after k (listening j a ∷ calls) more = is_closed-after k calls more

-- What is open after more calls was open before and is not closed by them, or is opened by them.
abbrev pub IsLeft : ℕ → List SystemCall → List SystemCall → Type 0
IsLeft k calls more =
    (has_fd k (left_open calls) ≡ true) × (is_closed k more ≡ false)
    ⊎ (has_fd k (left_open more) ≡ true)

pub left_open-after :
    (k : ℕ) (calls more : List SystemCall)
    → has_fd k (left_open (calls ++ more)) ≡ true
    → IsLeft k calls more
unfolding has_fd
left_open-after k [] more h = inr h
left_open-after k (opened j ∷ calls) more h = elim (Bool-cases (is_closed j (calls ++ more))) [
  | inl c ↦ elim (left_open-after k calls more (ground (arith, h, c))) [
    | inl (a, b) ↦ elim (Bool-cases (is_closed j calls)) [
      | inl d ↦ inl (rw d a, b)
      | inr d ↦ inl (rw d (ground (arith, a)), b)
    ]
    | inr b ↦ inr b
  ]
  | inr c ↦
      let q : (is_closed j calls ≡ false) × (is_closed j more ≡ false) =
        ground (arith, is_closed-after j calls more, c) in
      elim (Bool-cases (j == k)) [
        | inl own ↦
            let p : j ≡ k = ground arith in
            inl (rw (q.0) (ground (arith, own)), subst (λ i. is_closed i more ≡ false) p q.1)
        | inr other ↦ elim (left_open-after k calls more (ground (arith, h, c, other))) [
          | inl (a, b) ↦ inl (rw (q.0) (ground (arith, a)), b)
          | inr b ↦ inr b
        ]
      ]
]
left_open-after k (closed j ∷ calls) more h = left_open-after k calls more h
left_open-after k (reuse_address j ∷ calls) more h = left_open-after k calls more h
left_open-after k (nonblocking j ∷ calls) more h = left_open-after k calls more h
left_open-after k (no_delay j ∷ calls) more h = left_open-after k calls more h
left_open-after k (shut_down j ∷ calls) more h = left_open-after k calls more h
left_open-after k (send_buffer j n ∷ calls) more h = left_open-after k calls more h
left_open-after k (bound j a b ∷ calls) more h = left_open-after k calls more h
left_open-after k (connected_to j a b ∷ calls) more h = left_open-after k calls more h
left_open-after k (listening j a ∷ calls) more h = left_open-after k calls more h
