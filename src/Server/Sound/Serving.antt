-- ===== src/Server/Sound/Serving.antt =====
-- Soundness of the loop `run` of src/exchange_server.cpp, and of the server when it starts.
use market_networks.Base.{
  List, Option, Option-cases, Text, [], arith, false, if_cases, inl, inr, none, refl, some, true, ℕ,
  ◌∷◌, ◌≡◌,
}
use market_networks.Base.Assoc.{find}
use market_networks.Network.EventLoop
use market_networks.Network.EventLoop.Registry.Chosen.{IsObliging, add-Indexed, add-accepted}
use market_networks.Trading.OrderBook.Valid.{empty_book-IsValid}
use market_networks.Trading.OrderBook.Owners.{empty_book-IsOwned}
use market_networks.Network.TcpServer.{TcpServer}
use market_networks.Server.State.{SendAnswer, Server, new_server, start, has_text, has_fd}
use market_networks.Server.Accept.{accept_pending, resume_accepting_if_due}
use market_networks.Server.Run.{
  Occasion, Batch, handle_event, handle_events, is_descriptor, reap_closed, run_batch, run,
}
use market_networks.Server.Sound.{IsSound}
use market_networks.Server.Watched.{IsWatched}
use market_networks.Server.Sound.Reading.{Tends-of, Tends-refl, Ends, Ends-trans}
use market_networks.Server.Sound.Closing.{
  accept_pending-IsTidy, resume_accepting_if_due-IsTidy, reap_closed-IsTidy,
}
use market_networks.Server.Holding.{IsTidy}
use market_networks.Server.Sound.Enrolling.{
  accept_pending-IsWatched, resume_accepting_if_due-IsWatched,
}
use market_networks.Server.Sound.Events.{client_event-Ends}
use market_networks.Server.Sound.Accepting.{
  Opens, accept_pending-IsSound, resume_accepting_if_due-IsSound,
}

-- The same for the batches of a run.
abbrev pub OpensEvents : ℕ → List Occasion → Server → Type 0
OpensEvents now [] s = Unit {0}
OpensEvents now (o ∷ os) s =
    (s.listener.fd ≡ some o.event.fd → Opens o.accepts s)
    × ((t : Server) → handle_event now o s ≡ some t → OpensEvents now os t)

abbrev pub OpensRun : List Batch → Server → Type 0
OpensRun [] s = Unit {0}
OpensRun (b ∷ bs) s =
    OpensEvents b.now b.occasions (resume_accepting_if_due b.now s)
    × ((t : Server) → run_batch b s ≡ some t → OpensRun bs t)

listens : (l : Option ℕ) (k : ℕ) → is_descriptor l k ≡ true → l ≡ some k
unfolding is_descriptor
listens none k h = cc
listens (some fd) k h = ground arith

handle_event-Ends :
    (now : ℕ) (o : Occasion) (s : Server)
    → IsSound s
    → (s.listener.fd ≡ some o.event.fd → Opens o.accepts s)
    → Ends s (handle_event now o s)
unfolding handle_event
handle_event-Ends now o s v opens =
    if_cases (Ends s) (is_descriptor s.listener.fd o.event.fd)
      (λ h.
        let opened = opens (listens s.listener.fd o.event.fd h) in
        (
          _,
          refl,
          accept_pending-IsSound now o.accepts s v opened,
          Tends-of s (accept_pending now o.accepts s)
              (accept_pending-IsWatched now o.accepts s v opened)
              (accept_pending-IsTidy now o.accepts s opened),
        ))
      (λ _. client_event-Ends o.event o.receives s v)

handle_events-Ends :
    (now : ℕ) (os : List Occasion) (s : Server)
    → IsSound s
    → OpensEvents now os s
    → Ends s (handle_events now os s)
unfolding handle_events
handle_events-Ends now [] s v h = (s, refl, v, Tends-refl s)
handle_events-Ends now (o ∷ os) s v h =
    let (t, e, w, b) = handle_event-Ends now o s v h.0 in
    rw e (Ends-trans s t _ b (handle_events-Ends now os t w (h.1 t e)))

run_batch-Ends :
    (b : Batch) (s : Server)
    → IsSound s
    → OpensEvents b.now b.occasions (resume_accepting_if_due b.now s)
    → Ends s (run_batch b s)
unfolding run_batch reap_closed
run_batch-Ends b s v h =
    let (t, e, w, kept) =
      handle_events-Ends b.now b.occasions (resume_accepting_if_due b.now s)
        (resume_accepting_if_due-IsSound b.now s v) h in
    (
      reap_closed t,
      rw e,
      record {
        sessions = w.sessions;
        subscribed = w.subscribed;
        distinct = w.distinct;
        names = w.names;
        book = w.book;
        owned = w.owned;
        indexed = w.indexed;
      },
      Tends-of s (reap_closed t) (λ u. kept true (resume_accepting_if_due-IsWatched b.now s v u))
          (λ u. reap_closed-IsTidy t (kept false (resume_accepting_if_due-IsTidy b.now s u))),
    )

pub run-Ends : (bs : List Batch) (s : Server) → IsSound s → OpensRun bs s → Ends s (run bs s)
unfolding run
run-Ends [] s v h = (s, refl, v, Tends-refl s)
run-Ends (b ∷ bs) s v h =
    let (t, e, w, kept) = run_batch-Ends b s v h.0 in
    rw e (Ends-trans s t _ kept (run-Ends bs t w (h.1 t e)))

-- The server's loop. Whatever the clients send and however the kernel answers, as long as `accept`
-- returns no descriptor that is still open, a sound server runs through any number of batches of
-- events without undefined behaviour, every loop ends, and the server is sound again: no client is
-- both trader and subscriber, the subscriber lists are those of the live sessions without repetition,
-- the names in use are those of the clients logged in and no two are alike, the book is well formed,
-- every resting order belongs to a client that is logged in, and the event loop's index is consistent.
pub run-IsSound :
    (bs : List Batch) (s : Server)
    → IsSound s
    → OpensRun bs s
    → (s' : Server) × (run bs s ≡ some s') × IsSound s'
run-IsSound bs s v h = let (s', e, w, _) = run-Ends bs s v h in (s', e, w)

-- No client is forgotten by the event loop. As long as `accept` returns no descriptor that is still open,
-- and `kevent` refuses no registration (under poll none can be refused), a run of a sound server through
-- any number of batches is defined behaviour, and if before it the loop watched every client for what
-- its session says, it does so after it: input is waited for from exactly the clients that are not
-- closing, and room to write exactly for those with output pending, so that output is never left with
-- nothing to wake the server for it. The listener's own descriptor is left out.
pub run-IsWatched :
    (bs : List Batch) (s : Server)
    → IsSound s
    → OpensRun bs s
    → IsWatched s
    → (s' : Server) × (run bs s ≡ some s') × IsWatched s'
run-IsWatched bs s v h w = let (s', e, _, kept) = run-Ends bs s v h in (s', e, kept true w)

constructed-IsSound :
    (l : TcpServer) (host : Text) (port : ℕ) (loop : EventLoop.EventLoop) (bytes : ℕ)
    (answers : List SendAnswer)
    → EventLoop.Poll.Indexed loop
    → IsSound (record (new_server host port loop bytes answers) { listener = l })
unfolding new_server find has_fd has_text
constructed-IsSound l host port loop bytes answers u = record {
  sessions = λ k x e. cc;
  subscribed = λ k i. refl;
  distinct = λ i. tt;
  names = record { used = λ k t e. cc; held = λ t e. absurd cc; unique = λ j k t e f. cc };
  book = empty_book-IsValid;
  owned = empty_book-IsOwned _;
  indexed = u;
}

-- The server is sound when it starts.
pub start-IsSound :
    (l : TcpServer) (host : Text) (port : ℕ) (loop : EventLoop.EventLoop) (bytes : ℕ)
    (answers : List SendAnswer)
    → EventLoop.Poll.Indexed loop
    → IsSound (start l (new_server host port loop bytes answers)).1
unfolding start new_server
start-IsSound l host port loop bytes answers u = elim (Option-cases l.fd) [
  | inl e ↦ rw (start, e) (constructed-IsSound l host port loop bytes answers u)
  | inr (fd, e) ↦
      rw (start, e)
        (constructed-IsSound l host port (EventLoop.add fd true false loop).1 bytes answers
          (add-Indexed fd true false loop u))
]

-- No client is connected when it starts.
pub start-IsWatched :
    (l : TcpServer) (host : Text) (port : ℕ) (loop : EventLoop.EventLoop) (bytes : ℕ)
    (answers : List SendAnswer)
    → EventLoop.Poll.Indexed loop
    → IsObliging loop
    → IsWatched (start l (new_server host port loop bytes answers)).1
unfolding start new_server find
start-IsWatched l host port loop bytes answers u e = elim (Option-cases l.fd) [
  | inl n ↦ rw (start, n) (e, λ k x apart h. cc)
  | inr (fd, listens) ↦
      let (_, e', _) = add-accepted fd true false loop u e in
      rw (start, listens) (e', λ k x apart h. cc)
]

pub start-IsTidy :
    (l : TcpServer) (host : Text) (port : ℕ) (loop : EventLoop.EventLoop) (bytes : ℕ)
    (answers : List SendAnswer)
    → IsTidy (start l (new_server host port loop bytes answers)).1
unfolding start new_server has_fd
start-IsTidy l host port loop bytes answers = elim (Option-cases l.fd) [
  | inl n ↦ rw (start, n) (λ k h. cc)
  | inr (fd, listens) ↦ rw (start, listens) (λ k h. cc)
]
