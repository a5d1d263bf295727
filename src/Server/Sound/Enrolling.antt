-- ===== src/Server/Sound/Enrolling.antt =====
-- What the event loop waits for when src/exchange_server.cpp accepts a connection or pauses.
use market_networks.Base.{
  Bool, List, Option, Option-cases, Text, [], arith, false, if_cases, inl, inr, ltb, none, refl,
  some, true, ℕ, ◌+◌, ◌==◌, ◌||◌, ◌∙◌, ◌∷◌, ◌≡◌,
}
use market_networks.Base.Assoc.{find}
use market_networks.Network.EventLoop
use market_networks.Network.EventLoop.Poll.{Indexed}
use market_networks.Network.EventLoop.Registry.{view}
use market_networks.Network.EventLoop.Registry.Chosen.{IsObliging, add-accepted, update-accepted}
use market_networks.Network.Sockets.{peer_name}
use market_networks.Network.TcpServer.{
  AcceptCall, connected, not_accepted, emfile, enfile, enobufs, enomem, would_block, is_aborted,
  is_exhausted, accept_failed, accept_connection,
}
use market_networks.Server.State.{Server, new_session, pending_bytes}
use market_networks.Server.Accept.{
  accept_backoff, watch_listener, pause_accepting, resume_accepting_if_due, register_client,
  enrol_client, accept_pending, size_buffer,
}
use market_networks.Server.Run.{is_descriptor}
use market_networks.Server.Watched.{IsWatched, watched_but, put_session-registered}
use market_networks.Server.Sound.{IsSound}
use market_networks.Server.Sound.Accepting.{
  Opens, taken, taken-IsSound, refused, refused-IsSound, register_client-IsSound,
}

other_descriptor :
    (l : Option ℕ) (fd k : ℕ) → l ≡ some fd → is_descriptor l k ≡ false → (fd == k) ≡ false
unfolding is_descriptor
other_descriptor l fd k e h = ground (arith)

-- The listener's registration is nobody else's.
watch_listener-view :
    (r : Bool) (s : Server)
    → Indexed s.loop
    → IsObliging s.loop
    → IsObliging (watch_listener r s)
      × ((k : ℕ)
          → is_descriptor s.listener.fd k ≡ false
          → view (watch_listener r s) k ≡ view s.loop k)
unfolding watch_listener
watch_listener-view r s v b = elim (Option-cases s.listener.fd) [
  | inl e ↦ rw (watch_listener, e) (b, λ k _. refl)
  | inr (fd, e) ↦
      let (b', there) = update-accepted fd r false s.loop v b in
      rw (watch_listener, e)
        (b', λ k apart. there k ∙ rw (other_descriptor (some fd) fd k refl apart) refl)
]

relooped-IsWatched :
    (r : Bool) (at : ℕ) (s : Server)
    → IsSound s
    → IsWatched s
    → IsWatched (record s { accept_resume_at = at; loop = watch_listener r s })
relooped-IsWatched r at s v (b, h) =
    let (b', there) = watch_listener-view r s v.indexed b in
    (b', λ k x apart e. let (a, a', a'') = h k x apart e in (there k apart ∙ a, a', a''))

pause_accepting-IsWatched :
    (now : ℕ) (s : Server) → IsSound s → IsWatched s → IsWatched (pause_accepting now s)
unfolding pause_accepting
pause_accepting-IsWatched now s v h =
    if_cases IsWatched (s.accept_resume_at == 0)
      (λ _. relooped-IsWatched false (now + accept_backoff) s v h) (λ _. h)

pub resume_accepting_if_due-IsWatched :
    (now : ℕ) (s : Server) → IsSound s → IsWatched s → IsWatched (resume_accepting_if_due now s)
unfolding resume_accepting_if_due
resume_accepting_if_due-IsWatched now s v h =
    if_cases IsWatched (s.accept_resume_at == 0 || ltb now s.accept_resume_at) (λ _. h)
      (λ _. relooped-IsWatched true 0 s v h)

-- A new connection is watched for input.
register_client-IsWatched :
    (fd : ℕ) (peer : Text) (s : Server)
    → IsSound s
    → find fd s.sessions ≡ none
    → IsWatched s
    → IsWatched (register_client fd peer s)
unfolding register_client enrol_client EventLoop.update EventLoop.add new_session pending_bytes
register_client-IsWatched fd peer s v new h =
    let x = new_session fd peer in
    let (accepted, _, _) = add-accepted fd true false s.loop v.indexed h.0 in
    rw (register_client, new)
      (if_cases IsWatched (EventLoop.add fd true false s.loop).0
        (λ _.
          put_session-registered fd x s true false v.indexed (watched_but fd s h) refl refl refl
            refl)
        (λ refused. absurd cc))

pub accept_pending-IsWatched :
    (now : ℕ) (calls : List AcceptCall) (s : Server)
    → IsSound s
    → Opens calls s
    → IsWatched s
    → IsWatched (accept_pending now calls s)
unfolding accept_pending accept_connection accept_failed size_buffer would_block is_aborted
    is_exhausted
accept_pending-IsWatched now [] s v o h = h
accept_pending-IsWatched now (connected fd peer ∷ calls) s v (new, later) h =
    let t = taken (connected fd peer) fd s in
    let u = taken-IsSound (connected fd peer) fd s v in
    accept_pending-IsWatched now calls (register_client fd (peer_name peer) t)
      (register_client-IsSound fd (peer_name peer) t u new) later
      (register_client-IsWatched fd (peer_name peer) t u new h)
accept_pending-IsWatched now (not_accepted emfile why ∷ calls) s v o h =
    pause_accepting-IsWatched now (refused why s) (refused-IsSound why s v) h
accept_pending-IsWatched now (not_accepted enfile why ∷ calls) s v o h =
    pause_accepting-IsWatched now (refused why s) (refused-IsSound why s v) h
accept_pending-IsWatched now (not_accepted enobufs why ∷ calls) s v o h =
    pause_accepting-IsWatched now (refused why s) (refused-IsSound why s v) h
accept_pending-IsWatched now (not_accepted enomem why ∷ calls) s v o h =
    pause_accepting-IsWatched now (refused why s) (refused-IsSound why s v) h
accept_pending-IsWatched now (_ ∷ calls) s v o h = h
