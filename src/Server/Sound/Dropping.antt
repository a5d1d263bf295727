-- ===== src/Server/Sound/Dropping.antt =====
-- Soundness of `put_session` and of `drop` in src/exchange_server.cpp.
use market_networks.Base.{
  Bool-cases, List, Option, Option-cases, Text, ap, arith, false, if◌then◌else◌, inl, inr, keep,
  none, some, subst, sym, true, ℕ, ◌==◌, ◌∙◌, ◌≡◌, ◌⊎◌,
}
use market_networks.Trading.OrderBook.{OrderBook, queue_of}
use market_networks.Trading.OrderBook.Valid.{IsValid}
use market_networks.Network.EventLoop.Poll.{Indexed}
use market_networks.Base.Assoc.{Assoc, find, erase, find-erase, find-insert}
use market_networks.Network.EventLoop
use market_networks.Network.EventLoop.Registry.Chosen.{remove-Indexed}
use market_networks.Trading.OrderBook.Departure.{foreign, remove_orders_of-keep}
use market_networks.Trading.OrderBook.Owners.{IsOwned-mono, keep-IsOwned}
use market_networks.Trading.OrderBook.Queue.{Side}
use market_networks.Server.State.{ClientSession, Server, has_text, put_session}
use market_networks.Server.Holding.{put_session-Retains, forget_client-Retains}
use market_networks.Server.Watched.{
  IsWatched, IsWatchedBut, interests, watched_but, put_session-IsWatched, forget_client-IsWatched,
}
use market_networks.Server.Names.{IsNamed, IsNamed-same, IsNamed-leave, IsNamed-leave_unnamed}
use market_networks.Server.Sets.{has_fd-unsubscribe_all, unsubscribe_all-IsDistinct}
use market_networks.Server.Output.{drop_client, drop_session, forget_client}
use market_networks.Server.Sound.{
  IsSession, name_of, name_in, is_live, live_in, IsSound, Follows, Follows-refl, Subsides, Steps,
  Waits, Waits-refl,
}

pub find-put_session :
    (fd k : ℕ) (y : ClientSession) (s : Server)
    → find k (put_session fd y s).sessions ≡ (if fd == k then some y else find k s.sessions)
unfolding put_session
find-put_session fd k y s = find-insert fd k y s.sessions

pub put_session-some :
    (fd k : ℕ) (y z : ClientSession) (s : Server)
    → find k (put_session fd y s).sessions ≡ some z
    → (k ≡ fd) × (z ≡ y) ⊎ (find k s.sessions ≡ some z)
put_session-some fd k y z s f = ground (arith, find-put_session fd k y s)

-- A session may be replaced by one with the same subscriptions, if the names in use are its server's.
pub put_named-IsSound :
    (fd : ℕ) (x y : ClientSession) (s : Server) (usernames : List Text)
    → IsSound s
    → find fd s.sessions ≡ some x
    → IsSession fd y
    → ((i : Text) → has_text i y.subscriptions ≡ has_text i x.subscriptions)
    → IsNamed usernames (name_in (put_session fd y s))
    → ((k : ℕ) → live_in s k ≡ true → live_in (put_session fd y s) k ≡ true)
    → IsSound (record (put_session fd y s) { usernames = usernames })
unfolding put_session
put_named-IsSound fd x y s usernames v e w same named live = record {
  distinct = v.distinct;
  names = named;
  sessions = λ k z f. elim (put_session-some fd k y z s f) [
    | inl (p, q) ↦ rw (p, q) w
    | inr g ↦ v.sessions k z g
  ];
  subscribed = λ k i. ground (arith, v.subscribed k i, find-insert fd k y s.sessions, same i);
  book = v.book;
  owned = IsOwned-mono (live_in s) (live_in (put_session fd y s)) s.book live v.owned;
  indexed = v.indexed;
}

pub name-put_session :
    (fd k : ℕ) (y : ClientSession) (s : Server)
    → name_in (put_session fd y s) k ≡ (if fd == k then name_of (some y) else name_in s k)
name-put_session fd k y s = elim (Bool-cases (fd == k)) [
  | inl h ↦ rw (find-put_session fd k y s, h)
  | inr h ↦ rw (find-put_session fd k y s, h)
]

pub name-kept :
    (fd k : ℕ) (x y : ClientSession) (s : Server)
    → find fd s.sessions ≡ some x
    → name_of (some y) ≡ name_of (some x)
    → name_in (put_session fd y s) k ≡ name_in s k
name-kept fd k x y s e n = elim (Bool-cases (fd == k)) [
  | inl h ↦
      let p : fd ≡ k = ground arith in
      name-put_session fd k y s ∙ rw h (n ∙ ap name_of (sym e) ∙ ap (name_in s) p)
  | inr h ↦ name-put_session fd k y s ∙ rw h
]

-- The same client in another session.
pub put_session-IsSound :
    (fd : ℕ) (x y : ClientSession) (s : Server)
    → IsSound s
    → find fd s.sessions ≡ some x
    → IsSession fd y
    → ((i : Text) → has_text i y.subscriptions ≡ has_text i x.subscriptions)
    → name_of (some y) ≡ name_of (some x)
    → IsSound (put_session fd y s)
unfolding put_session
put_session-IsSound fd x y s v e w same n =
    put_named-IsSound fd x y s s.usernames v e w same
      (IsNamed-same s.usernames (name_in s) (name_in (put_session fd y s)) v.names
        (λ k. name-kept fd k x y s e n))
      (λ k h. ap is_live (name-kept fd k x y s e n) ∙ h)

pub put_session-Waits :
    (fd : ℕ) (x y : ClientSession) (s : Server)
    → find fd s.sessions ≡ some x
    → Follows x y
    → Waits s (put_session fd y s)
put_session-Waits fd x y s e h = (
  λ k z f. elim (put_session-some fd k y z s f) [
    | inl (p, q) ↦ (x, rw p e, rw q h)
    | inr g ↦ (z, g, Follows-refl z)
  ],
  put_session-Retains fd y s,
)

pub put_session-Subsides :
    (fd : ℕ) (x y : ClientSession) (s : Server)
    → find fd s.sessions ≡ some x
    → Follows x y
    → interests y ≡ interests x
    → Subsides s (put_session fd y s)
put_session-Subsides fd x y s e h same =
    (put_session-Waits fd x y s e h, put_session-IsWatched fd y s x e same)

pub erase-some :
    (fd k : ℕ) (z : ClientSession) (m : Assoc ClientSession)
    → find k (erase fd m) ≡ some z
    → find k m ≡ some z
erase-some fd k z m h = ground (arith, find-erase fd k m)

module _ (fd : ℕ) (x : ClientSession) (s : Server) (v : IsSound s) (book : OrderBook)
    (loop : EventLoop.EventLoop) where
  forgotten-name :
      (k : ℕ) → name_in (forget_client fd x book loop s) k ≡ (if fd == k then none else name_in s k)
  unfolding forget_client
  forgotten-name k = elim (Bool-cases (fd == k)) [
    | inl h ↦ rw (find-erase fd k s.sessions, h)
    | inr h ↦ rw (find-erase fd k s.sessions, h)
  ]

  forget_client-IsNamed :
      find fd s.sessions ≡ some x
      → (x.logged_in ≡ true) ⊎ (x.logged_in ≡ false)
      → IsNamed
          (forget_client fd x book loop s).usernames
          (name_in (forget_client fd x book loop s))
  unfolding forget_client
  forget_client-IsNamed e (inl l) =
      subst (λ us. IsNamed us (name_in (forget_client fd x book loop s))) (ground arith)
        (IsNamed-leave s.usernames (name_in s) (name_in (forget_client fd x book loop s)) fd v.names
          x.username (ground arith) forgotten-name)
  forget_client-IsNamed e (inr l) =
      subst (λ us. IsNamed us (name_in (forget_client fd x book loop s))) (ground arith)
        (IsNamed-leave_unnamed s.usernames (name_in s) (name_in (forget_client fd x book loop s)) fd
          v.names (ground arith) forgotten-name)

  forget_client-IsSound :
      find fd s.sessions ≡ some x
      → IsValid book
      → ((t : Side) (i : Text) → queue_of book t i ≡ keep (foreign fd) (queue_of s.book t i))
      → Indexed loop
      → IsSound (forget_client fd x book loop s)
  unfolding forget_client
  forget_client-IsSound e w q u = record {
    sessions = λ k z h. v.sessions k z (erase-some fd k z s.sessions h);
    subscribed = λ k i. ground (
      arith,
      v.subscribed k i,
      find-erase fd k s.sessions,
      has_fd-unsubscribe_all k fd i x.subscriptions s.subscribers,
    );
    distinct = unsubscribe_all-IsDistinct fd x.subscriptions s.subscribers v.distinct;
    names = forget_client-IsNamed e (Bool-cases x.logged_in);
    book = w;
    owned =
        keep-IsOwned (live_in s) (live_in (forget_client fd x book loop s)) fd s.book book
          (λ k l h. ground (arith, forgotten-name k)) q v.owned;
    indexed = u;
  }

  forget_client-Waits : Waits s (forget_client fd x book loop s)
  unfolding forget_client
  forget_client-Waits = (
    λ k z h. (z, erase-some fd k z s.sessions h, Follows-refl z),
    forget_client-Retains fd x book loop s,
  )

-- A drop, whatever the event loop watches for that client before.
abbrev pub Drops : ℕ → Server → Option Server → Type 0
Drops fd s r =
    (s' : Server) × (r ≡ some s') × IsSound s' × Waits s s' × (IsWatchedBut fd s → IsWatched s')

drop_session-Drops :
    (fd : ℕ) (x : ClientSession) (s : Server)
    → IsSound s
    → find fd s.sessions ≡ some x
    → Drops fd s (drop_session fd x s)
unfolding drop_session
drop_session-Drops fd x s v e =
    let (book, f, q, w) = remove_orders_of-keep fd s.book v.book in
    let (loop, g, u) = remove-Indexed fd s.loop v.indexed in
    (
      forget_client fd x book loop s,
      rw (f, g),
      forget_client-IsSound fd x s v book loop e w q u,
      forget_client-Waits fd x s v book loop,
      forget_client-IsWatched fd x book loop s v.indexed g,
    )

pub drop_client-Drops : (fd : ℕ) (s : Server) → IsSound s → Drops fd s (drop_client fd s)
unfolding drop_client
drop_client-Drops fd s v = elim (Option-cases (find fd s.sessions)) [
  | inl e ↦ (
    s,
    rw (e, drop_client),
    v,
    Waits-refl s,
    λ (b, h). (b, λ k x apart f. h k x apart (ground arith) f),
  )
  | inr (x, e) ↦ rw (e, drop_client) (drop_session-Drops fd x s v e)
]

-- Dropping a client of a sound server, its orders, subscriptions and name with it, is defined
-- behaviour and leaves the server sound, with no new session.
pub drop_client-Steps : (fd : ℕ) (s : Server) → IsSound s → Steps s (drop_client fd s)
drop_client-Steps fd s v =
    let (s', e, w, b, h) = drop_client-Drops fd s v in (s', e, w, (b, λ u. h (watched_but fd s u)))
