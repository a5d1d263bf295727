-- ===== src/Server/Sound/Accepting.antt =====
-- Soundness of the accepting side of src/exchange_server.cpp.
use market_networks.Base.{
  Bool, Bool-cases, List, Option-cases, Text, [], ap, arith, false, if_cases, if◌then◌else◌, inl,
  inr, ltb, none, refl, sym, true, ℕ, ◌++◌, ◌==◌, ◌||◌, ◌∙◌, ◌∷◌, ◌≡◌,
}
use market_networks.Base.Assoc.{find, erase, find-erase, find-insert}
use market_networks.Network.EventLoop
use market_networks.Network.EventLoop.Registry.Chosen.{update-Indexed, add-Indexed}
use market_networks.Trading.OrderBook.Owners.{IsOwned-mono}
use market_networks.Server.State.{Server, new_session, put_session, has_text}
use market_networks.Network.Sockets.{SystemCall, peer_name}
use market_networks.Network.TcpServer.{
  TcpServer, AcceptCall, connected, not_accepted, emfile, enfile, enobufs, enomem, would_block,
  is_aborted, is_exhausted, accept_failed, accept_connection,
}
use market_networks.Server.Accept.{
  watch_listener, pause_accepting, resume_accepting_if_due, register_client, enrol_client,
  accept_pending, size_buffer,
}
use market_networks.Server.Names.{IsNamed-same, IsNamed-leave_unnamed}
use market_networks.Server.Sound.{
  IsSession, is_subscribed, name_of, name_in, is_live, live_in, IsSound,
}
use market_networks.Server.Sound.Dropping.{name-put_session, put_session-some, erase-some}

-- A connection is taken from the listener.
abbrev pub taken : AcceptCall → ℕ → Server → Server
taken call fd s =
    size_buffer fd (record s { calls = s.calls ++ (accept_connection call s.listener).2 })

-- `accept` never returns a descriptor that is still open.
abbrev pub Opens : List AcceptCall → Server → Type 0
Opens [] s = Unit {0}
Opens (connected fd peer ∷ calls) s =
    (find fd s.sessions ≡ none)
    × Opens calls (register_client fd (peer_name peer) (taken (connected fd peer) fd s))
Opens (_ ∷ calls) s = Unit {0}

new_session-IsSession : (fd : ℕ) (peer : Text) → IsSession fd (new_session fd peer)
unfolding new_session has_text
new_session-IsSession fd peer = record {
  keyed = refl;
  consumed = omega arith;
  trading = λ h. cc;
  watching = λ i h. cc;
}

module _ (fd : ℕ) (peer : Text) (s : Server) (v : IsSound s) (new : find fd s.sessions ≡ none) where
  new_name : (k : ℕ) → name_in (put_session fd (new_session fd peer) s) k ≡ name_in s k
  unfolding new_session
  new_name k = elim (Bool-cases (fd == k)) [
    | inl h ↦
        let p : fd ≡ k = ground arith in
        name-put_session fd k (new_session fd peer) s
        ∙ rw h (ap name_of (sym new) ∙ ap (name_in s) p)
    | inr h ↦ name-put_session fd k (new_session fd peer) s ∙ rw h
  ]

  opened-IsSound : IsSound (put_session fd (new_session fd peer) s)
  unfolding put_session new_session has_text
  opened-IsSound = record {
    sessions = λ k z f. elim (put_session-some fd k (new_session fd peer) z s f) [
      | inl (p, q) ↦ rw (p, q) (new_session-IsSession fd peer)
      | inr g ↦ v.sessions k z g
    ];
    subscribed =
        λ k i. ground (arith, v.subscribed k i, find-insert fd k (new_session fd peer) s.sessions);
    distinct = v.distinct;
    names =
        IsNamed-same s.usernames (name_in s) (name_in (put_session fd (new_session fd peer) s))
          v.names new_name;
    book = v.book;
    owned =
        IsOwned-mono (live_in s) (live_in (put_session fd (new_session fd peer) s)) s.book
          (λ k l. ap is_live (new_name k) ∙ l) v.owned;
    indexed = v.indexed;
  }

  opened-unnamed : name_in (put_session fd (new_session fd peer) s) fd ≡ none
  opened-unnamed = new_name fd ∙ ap name_of new

  opened-unsubscribed :
      (i : Text)
      → is_subscribed i (find fd (put_session fd (new_session fd peer) s).sessions) ≡ false
  unfolding put_session new_session has_text
  opened-unsubscribed i = rw (find-insert fd fd (new_session fd peer) s.sessions) (ground arith)

name-erase :
    (fd k : ℕ) (s : Server)
    → name_of (find k (erase fd s.sessions)) ≡ (if fd == k then none else name_in s k)
name-erase fd k s = elim (Bool-cases (fd == k)) [
  | inl h ↦ rw (find-erase fd k s.sessions, h)
  | inr h ↦ rw (find-erase fd k s.sessions, h)
]

-- A session that has no subscriptions and no name may be taken out again.
enrol_client-IsSound :
    (fd : ℕ) (s : Server)
    → IsSound s
    → ((i : Text) → is_subscribed i (find fd s.sessions) ≡ false)
    → name_in s fd ≡ none
    → IsSound (enrol_client fd s)
unfolding enrol_client
enrol_client-IsSound fd s v none_yet unnamed =
    let u = add-Indexed fd true false s.loop v.indexed in
    if_cases IsSound (EventLoop.add fd true false s.loop).0
      (λ _. record {
        sessions = v.sessions;
        subscribed = v.subscribed;
        distinct = v.distinct;
        names = v.names;
        book = v.book;
        owned = v.owned;
        indexed = u;
      })
      (λ _. record {
        sessions = λ k z h. v.sessions k z (erase-some fd k z s.sessions h);
        subscribed =
            λ k i. ground (arith, v.subscribed k i, none_yet i, find-erase fd k s.sessions);
        book = v.book;
        owned =
            IsOwned-mono (live_in s) _ s.book
              (λ k l. ap is_live (name-erase fd k s) ∙ ground (arith, ap is_live unnamed)) v.owned;
        distinct = v.distinct;
        names =
            IsNamed-leave_unnamed s.usernames (name_in s) _ fd v.names unnamed
              (λ k. name-erase fd k s);
        indexed = u;
      })

pub register_client-IsSound :
    (fd : ℕ) (peer : Text) (s : Server)
    → IsSound s
    → find fd s.sessions ≡ none
    → IsSound (register_client fd peer s)
unfolding register_client
register_client-IsSound fd peer s v new =
    rw (register_client, new)
      (enrol_client-IsSound fd (put_session fd (new_session fd peer) s)
        (opened-IsSound fd peer s v new) (opened-unsubscribed fd peer s v new)
        (opened-unnamed fd peer s v new))

watch_listener-Indexed :
    (r : Bool) (s : Server) → IsSound s → EventLoop.Poll.Indexed (watch_listener r s)
unfolding watch_listener
watch_listener-Indexed r s v = elim (Option-cases s.listener.fd) [
  | inl e ↦ rw (watch_listener, e) v.indexed
  | inr (fd, e) ↦ rw (watch_listener, e) (update-Indexed fd r false s.loop v.indexed)
]

-- The listener, the clock and the event loop do not matter otherwise.
relooped-IsSound :
    (s : Server) (l : TcpServer) (at : ℕ) (loop : EventLoop.EventLoop) (made : List SystemCall)
    → IsSound s
    → EventLoop.Poll.Indexed loop
    → IsSound (record s { listener = l; accept_resume_at = at; loop = loop; calls = made })
relooped-IsSound s l at loop made v u = record {
  sessions = v.sessions;
  subscribed = v.subscribed;
  distinct = v.distinct;
  names = v.names;
  book = v.book;
  owned = v.owned;
  indexed = u;
}

listener-IsSound :
    (s : Server) (l : TcpServer) (made : List SystemCall)
    → IsSound s
    → IsSound (record s { listener = l; calls = made })
listener-IsSound s l made v = relooped-IsSound s l s.accept_resume_at s.loop made v v.indexed

pub taken-IsSound :
    (call : AcceptCall) (fd : ℕ) (s : Server) → IsSound s → IsSound (taken call fd s)
unfolding size_buffer
taken-IsSound call fd s v = listener-IsSound s s.listener (taken call fd s).calls v

pause_accepting-IsSound : (now : ℕ) (s : Server) → IsSound s → IsSound (pause_accepting now s)
unfolding pause_accepting
pause_accepting-IsSound now s v =
    if_cases IsSound (s.accept_resume_at == 0)
      (λ _. relooped-IsSound s s.listener _ _ s.calls v (watch_listener-Indexed false s v)) (λ _. v)

pub resume_accepting_if_due-IsSound :
    (now : ℕ) (s : Server) → IsSound s → IsSound (resume_accepting_if_due now s)
unfolding resume_accepting_if_due
resume_accepting_if_due-IsSound now s v =
    if_cases IsSound (s.accept_resume_at == 0 || ltb now s.accept_resume_at) (λ _. v)
      (λ _. relooped-IsSound s s.listener 0 _ s.calls v (watch_listener-Indexed true s v))

-- The kernel is out of a resource.
abbrev pub refused : Text → Server → Server
refused why s = record s { listener = accept_failed why s.listener; calls = s.calls ++ [] }

pub refused-IsSound : (why : Text) (s : Server) → IsSound s → IsSound (refused why s)
refused-IsSound why s v = listener-IsSound s (accept_failed why s.listener) (s.calls ++ []) v

pub accept_pending-IsSound :
    (now : ℕ) (calls : List AcceptCall) (s : Server)
    → IsSound s
    → Opens calls s
    → IsSound (accept_pending now calls s)
unfolding accept_pending accept_connection size_buffer would_block is_aborted is_exhausted
accept_pending-IsSound now [] s v o = v
accept_pending-IsSound now (connected fd peer ∷ calls) s v (new, later) =
    let t = taken (connected fd peer) fd s in
    accept_pending-IsSound now calls (register_client fd (peer_name peer) t)
      (register_client-IsSound fd (peer_name peer) t (taken-IsSound (connected fd peer) fd s v) new)
      later
accept_pending-IsSound now (not_accepted emfile why ∷ calls) s v o =
    pause_accepting-IsSound now (refused why s) (refused-IsSound why s v)
accept_pending-IsSound now (not_accepted enfile why ∷ calls) s v o =
    pause_accepting-IsSound now (refused why s) (refused-IsSound why s v)
accept_pending-IsSound now (not_accepted enobufs why ∷ calls) s v o =
    pause_accepting-IsSound now (refused why s) (refused-IsSound why s v)
accept_pending-IsSound now (not_accepted enomem why ∷ calls) s v o =
    pause_accepting-IsSound now (refused why s) (refused-IsSound why s v)
accept_pending-IsSound now (_ ∷ calls) s v o = listener-IsSound s _ _ v
