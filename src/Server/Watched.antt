-- ===== src/Server/Watched.antt =====
-- What the event loop waits for on behalf of the sessions of src/exchange_server.cpp.
use market_networks.Base.{
  Bool, Text, arith, false, inl, inr, length, ltb, not, refl, some, subst, sym, true, ℕ, ◌-◌, ◌==◌,
  ◌∙◌, ◌≡◌, ◌⊎◌,
}
use market_networks.Base.Assoc.{find, find-erase, find-insert}
use market_networks.Network.EventLoop
use market_networks.Network.EventLoop.Poll.{Indexed}
use market_networks.Network.EventLoop.Registry.{view}
use market_networks.Network.EventLoop.Registry.Chosen.{IsObliging, update-accepted, remove-accepted}
use market_networks.Trading.OrderBook.{OrderBook}
use market_networks.Server.State.{ClientSession, pending_bytes, Server, put_session}
use market_networks.Server.Output.{forget_client}
use market_networks.Server.Run.{is_descriptor}

-- The loop watches a descriptor for what its session's flags say: for input unless the session closes,
-- and for room to write exactly when output is pending.
abbrev pub Watches : EventLoop.EventLoop → ℕ → ClientSession → Type 0
Watches l k x =
    (view l k ≡ some (x.read_interest, x.write_interest))
    × (x.read_interest ≡ not x.closing)
    × (x.write_interest ≡ ltb 0 (pending_bytes x))

-- So for every session, or for every one but that of `fd`. The listener's own descriptor, which the
-- kernel gives to no connection, is left out: the loop is told of it apart from the sessions.
abbrev pub IsWatched : Server → Type 0
IsWatched s =
    IsObliging s.loop
    × ((k : ℕ) (x : ClientSession)
        → is_descriptor s.listener.fd k ≡ false
        → find k s.sessions ≡ some x
        → Watches s.loop k x)

abbrev pub IsWatchedBut : ℕ → Server → Type 0
IsWatchedBut fd s =
    IsObliging s.loop
    × ((k : ℕ) (x : ClientSession)
        → is_descriptor s.listener.fd k ≡ false
        → (fd == k) ≡ false
        → find k s.sessions ≡ some x
        → Watches s.loop k x)

-- What a session shows to the event loop.
abbrev pub interests : ClientSession → Bool × Bool × Bool × Text × ℕ
interests x = (x.read_interest, x.write_interest, x.closing, x.outbuf, x.out_start)

abbrev Shown : ℕ → EventLoop.EventLoop → Bool × Bool × Bool × Text × ℕ → Type 0
Shown k l (r, w, c, outbuf, out_start) =
    (view l k ≡ some (r, w)) × (r ≡ not c) × (w ≡ ltb 0 (length outbuf - out_start))

Watches-same :
    (l : EventLoop.EventLoop) (k : ℕ) (x y : ClientSession)
    → interests y ≡ interests x
    → Watches l k x
    → Watches l k y
unfolding pending_bytes
Watches-same l k x y e h = subst (Shown k l) (sym e) h

pub watched_but : (fd : ℕ) (s : Server) → IsWatched s → IsWatchedBut fd s
watched_but fd s (b, h) = (b, λ k x apart _ e. h k x apart e)

module _ (fd : ℕ) (y : ClientSession) (s : Server) where
  abbrev Apart : ℕ → Type 0
  Apart k = is_descriptor s.listener.fd k ≡ false

  placed :
      (k : ℕ) (z : ClientSession)
      → find k (put_session fd y s).sessions ≡ some z
      → ((fd == k) ≡ true) × (k ≡ fd) × (z ≡ y) ⊎ ((fd == k) ≡ false) × (find k s.sessions ≡ some z)
  unfolding put_session
  placed k z f = ground (arith, find-insert fd k y s.sessions)

  pub put_session-IsWatchedBut : IsWatched s → IsWatchedBut fd (put_session fd y s)
  unfolding put_session
  put_session-IsWatchedBut (b, h) =
      (b, λ k x apart other e. h k x apart (ground (arith, find-insert fd k y s.sessions)))

  pub put_session-IsWatched :
      (x : ClientSession)
      → find fd s.sessions ≡ some x
      → interests y ≡ interests x
      → IsWatched s
      → IsWatched (put_session fd y s)
  unfolding put_session
  put_session-IsWatched x e same (b, h) = (
    b,
    λ k z apart f. elim (placed k z f) [
      | inl (_, at, is) ↦
          rw (at, is) (Watches-same s.loop fd x y same (h fd x (subst Apart at apart) e))
      | inr (_, g) ↦ h k z apart g
    ],
  )

  -- The session is written back, its flags as they were.
  pub put_session-kept :
      (x : ClientSession)
      → find fd s.sessions ≡ some x
      → y.read_interest ≡ x.read_interest
      → y.write_interest ≡ x.write_interest
      → y.read_interest ≡ not y.closing
      → y.write_interest ≡ ltb 0 (pending_bytes y)
      → IsWatched s
      → IsWatched (put_session fd y s)
  unfolding put_session
  put_session-kept x e er ew p q (b, h) = (
    b,
    λ k z apart f. elim (placed k z f) [
      | inl (_, at, is) ↦ rw (at, is) ((h fd x (subst Apart at apart) e).0 ∙ rw (er, ew) refl, p, q)
      | inr (_, g) ↦ h k z apart g
    ],
  )

  -- The session is written back and its interest registered.
  pub put_session-registered :
      (r w : Bool)
      → Indexed s.loop
      → IsWatchedBut fd s
      → y.read_interest ≡ r
      → y.write_interest ≡ w
      → y.read_interest ≡ not y.closing
      → y.write_interest ≡ ltb 0 (pending_bytes y)
      → IsWatched (record (put_session fd y s) { loop = (EventLoop.update fd r w s.loop).1 })
  unfolding put_session
  put_session-registered r w v (b, h) er ew p q =
      let (b', there) = update-accepted fd r w s.loop v b in
      (
        b',
        λ k z apart f. elim (placed k z f) [
          | inl (own, at, is) ↦ rw is (there k ∙ rw own (rw (er, ew) refl), p, q)
          | inr (other, g) ↦
              let (a, a', a'') = h k z apart other g in (there k ∙ rw other a, a', a'')
        ],
      )

-- A client that is forgotten is not watched any more, the others are as before.
pub forget_client-IsWatched :
    (fd : ℕ) (x : ClientSession) (book : OrderBook) (loop : EventLoop.EventLoop) (s : Server)
    → Indexed s.loop
    → EventLoop.remove fd s.loop ≡ some loop
    → IsWatchedBut fd s
    → IsWatched (forget_client fd x book loop s)
unfolding forget_client
forget_client-IsWatched fd x book loop s v e (b, h) =
    let (b', there) = remove-accepted fd s.loop loop v b e in
    (
      b',
      λ k z apart f.
          let (other, g) : ((fd == k) ≡ false) × (find k s.sessions ≡ some z) =
            ground (arith, find-erase fd k s.sessions) in
          let (a, a', a'') = h k z apart other g in (there k ∙ rw other a, a', a''),
    )
