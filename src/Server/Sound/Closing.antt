-- ===== src/Server/Sound/Closing.antt =====
-- The descriptors that src/exchange_server.cpp accepts, until they are closed.
use market_networks.Base.{
  Bool, Bool-cases, List, Option, Text, [], arith, false, if_cases, if◌then◌else◌, inl, inr, ltb,
  refl, true, ℕ, ◌++◌, ◌==◌, ◌||◌, ◌∷◌, ◌≡◌,
}
use market_networks.Base.Assoc.{Assoc, find, find-insert, find-erase}
use market_networks.Network.EventLoop
use market_networks.Network.Sockets.{
  SystemCall, opened, closed, nonblocking, peer_name, send_buffer, is_closed, left_open,
}
use market_networks.Network.TcpServer.{
  AcceptCall, connected, fcntl_failed, not_accepted, emfile, enfile, enobufs, enomem, would_block,
  is_aborted, is_exhausted, accept_failed, accept_connection,
}
use market_networks.Server.State.{ClientSession, Server, has_fd, new_session, put_session}
use market_networks.Server.Accept.{
  pause_accepting, resume_accepting_if_due, register_client, enrol_client, accept_pending,
  size_buffer,
}
use market_networks.Server.Run.{close_all, reap_closed, shut_each, shutdown_all}
use market_networks.Server.Holding.{is_some, is_held, IsTidy, left_open-after}
use market_networks.Server.Sound.Accepting.{Opens, taken, refused}

-- Calls that leave nothing open.
abbrev OpensNone : List SystemCall → Type 0
OpensNone more = (k : ℕ) → has_fd k (left_open more) ≡ false

called-IsTidy :
    (more : List SystemCall) (s : Server)
    → OpensNone more
    → IsTidy s
    → IsTidy (record s { calls = s.calls ++ more })
called-IsTidy more s none_more t k h = elim (left_open-after k s.calls more h) [
  | inl (a, b) ↦ t k a
  | inr b ↦ absurd (ground (arith, none_more k, b))
]

-- As for `IsTidy`, but for the connection that is being taken.
abbrev IsTidyBut : ℕ → Server → Type 0
IsTidyBut fd s =
    (k : ℕ) → has_fd k (left_open s.calls) ≡ true → (fd == k) ≡ false → is_held s k ≡ true

buffer-OpensNone : (b : Bool) (fd n : ℕ) → OpensNone (if b then send_buffer fd n ∷ [] else [])
unfolding has_fd
buffer-OpensNone true fd n k = refl
buffer-OpensNone false fd n k = refl

taken-IsTidyBut :
    (fd : ℕ) (peer : Option (Text × ℕ)) (s : Server)
    → IsTidy s
    → IsTidyBut fd (taken (connected fd peer) fd s)
unfolding size_buffer accept_connection has_fd
taken-IsTidyBut fd peer s t k h other =
    let made = (accept_connection (connected fd peer) s.listener).2 in
    elim (left_open-after k (s.calls ++ made) _ h) [
      | inl (a, _) ↦ elim (left_open-after k s.calls made a) [
        | inl (b, _) ↦ t k b
        | inr b ↦ absurd (ground (arith, b, other))
      ]
      | inr b ↦
          absurd (
            ground
              (arith, buffer-OpensNone (ltb 0 s.send_buffer_bytes) fd s.send_buffer_bytes k, b))
    ]

-- The connection has a session then, or is closed again.
enrol_client-IsTidy :
    (fd : ℕ) (x : ClientSession) (s : Server)
    → IsTidyBut fd s
    → IsTidy (enrol_client fd (put_session fd x s))
unfolding enrol_client put_session has_fd
enrol_client-IsTidy fd x s t =
    if_cases IsTidy (EventLoop.add fd true false s.loop).0
      (λ _ k h. elim (Bool-cases (fd == k)) [
        | inl own ↦ ground (arith, find-insert fd k x s.sessions)
        | inr other ↦ ground (arith, find-insert fd k x s.sessions, t k h other)
      ])
      (λ _ k h. elim (left_open-after k s.calls (closed fd ∷ []) h) [
        | inl (a, b) ↦
            let other : (fd == k) ≡ false = ground (arith, b) in
            ground (
              arith,
              find-erase fd k ((put_session fd x s).sessions),
              find-insert fd k x s.sessions,
              t k a other,
            )
        | inr b ↦ absurd cc
      ])

pause_accepting-IsTidy : (now : ℕ) (s : Server) → IsTidy s → IsTidy (pause_accepting now s)
unfolding pause_accepting
pause_accepting-IsTidy now s t = if_cases IsTidy (s.accept_resume_at == 0) (λ _. t) (λ _. t)

pub resume_accepting_if_due-IsTidy :
    (now : ℕ) (s : Server) → IsTidy s → IsTidy (resume_accepting_if_due now s)
unfolding resume_accepting_if_due
resume_accepting_if_due-IsTidy now s t =
    if_cases IsTidy (s.accept_resume_at == 0 || ltb now s.accept_resume_at) (λ _. t) (λ _. t)

refused-IsTidy : (why : Text) (s : Server) → IsTidy s → IsTidy (refused why s)
unfolding has_fd
refused-IsTidy why s t = called-IsTidy [] s (λ k. refl) t

pub accept_pending-IsTidy :
    (now : ℕ) (calls : List AcceptCall) (s : Server)
    → Opens calls s
    → IsTidy s
    → IsTidy (accept_pending now calls s)
unfolding accept_pending accept_connection accept_failed size_buffer would_block is_aborted
    is_exhausted has_fd register_client
accept_pending-IsTidy now [] s o t = t
accept_pending-IsTidy now (connected fd peer ∷ calls) s (new, later) t =
    let s' = taken (connected fd peer) fd s in
    accept_pending-IsTidy now calls (register_client fd (peer_name peer) s') later (
      rw (register_client, new)
        (enrol_client-IsTidy fd (new_session fd (peer_name peer)) s' (taken-IsTidyBut fd peer s t)))
accept_pending-IsTidy now (fcntl_failed fd why ∷ calls) s o t =
    called-IsTidy (opened fd ∷ nonblocking fd ∷ closed fd ∷ []) s (λ k. ground arith) t
accept_pending-IsTidy now (not_accepted emfile why ∷ calls) s o t =
    pause_accepting-IsTidy now (refused why s) (refused-IsTidy why s t)
accept_pending-IsTidy now (not_accepted enfile why ∷ calls) s o t =
    pause_accepting-IsTidy now (refused why s) (refused-IsTidy why s t)
accept_pending-IsTidy now (not_accepted enobufs why ∷ calls) s o t =
    pause_accepting-IsTidy now (refused why s) (refused-IsTidy why s t)
accept_pending-IsTidy now (not_accepted enomem why ∷ calls) s o t =
    pause_accepting-IsTidy now (refused why s) (refused-IsTidy why s t)
accept_pending-IsTidy now (_ ∷ calls) s o t = called-IsTidy [] s (λ k. refl) t

is_closed-close_all : (k : ℕ) (fds : List ℕ) → is_closed k (close_all fds) ≡ has_fd k fds
unfolding close_all has_fd
is_closed-close_all k [] = refl
is_closed-close_all k (fd ∷ fds) = ground (arith, is_closed-close_all k fds)

close_all-OpensNone : (fds : List ℕ) → OpensNone (close_all fds)
unfolding close_all has_fd
close_all-OpensNone [] k = refl
close_all-OpensNone (fd ∷ fds) k = close_all-OpensNone fds k

pub reap_closed-IsTidy : (s : Server) → IsTidy s → IsTidy (reap_closed s)
unfolding reap_closed has_fd
reap_closed-IsTidy s t k h = elim (left_open-after k s.calls (close_all s.closed_fds) h) [
  | inl (a, b) ↦ ground (arith, t k a, is_closed-close_all k s.closed_fds, b)
  | inr b ↦ absurd (ground (arith, close_all-OpensNone s.closed_fds k, b))
]

is_closed-shut_each :
    (k : ℕ) (m : Assoc ClientSession) → is_closed k (shut_each m) ≡ is_some (find k m)
unfolding shut_each find
is_closed-shut_each k [] = refl
is_closed-shut_each k ((fd, x) ∷ m) = ground (arith, is_closed-shut_each k m)

shut_each-OpensNone : (m : Assoc ClientSession) → OpensNone (shut_each m)
unfolding shut_each has_fd
shut_each-OpensNone [] k = refl
shut_each-OpensNone ((fd, x) ∷ m) k = shut_each-OpensNone m k

nobody_left : (fds : List ℕ) → ((k : ℕ) → has_fd k fds ≡ false) → fds ≡ []
unfolding has_fd
nobody_left [] h = refl
nobody_left (fd ∷ fds) h = absurd (ground (arith, h fd))

-- After `shutdown_all` no connection is left open.
pub shutdown_all-closes : (s : Server) → IsTidy s → left_open (shutdown_all s).calls ≡ []
unfolding shutdown_all reap_closed
shutdown_all-closes s t =
    let shut = shut_each s.sessions in
    let last = close_all s.closed_fds in
    nobody_left (left_open ((s.calls ++ shut) ++ last)) (λ k.
      elim (Bool-cases (has_fd k (left_open ((s.calls ++ shut) ++ last)))) [
        | inl h ↦ elim (left_open-after k (s.calls ++ shut) last h) [
          | inl (a, b) ↦ elim (left_open-after k s.calls shut a) [
            | inl (c, d) ↦ absurd (
                ground (
                  arith,
                  t k c,
                  is_closed-shut_each k s.sessions,
                  is_closed-close_all k s.closed_fds,
                  b,
                  d,
                ))
            | inr c ↦ absurd (ground (arith, shut_each-OpensNone s.sessions k, c))
          ]
          | inr b ↦ absurd (ground (arith, close_all-OpensNone s.closed_fds k, b))
        ]
        | inr h ↦ h
      ])
