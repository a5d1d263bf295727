-- ===== src/Server/Sending/Stream.antt =====
-- Buffered output of src/exchange_server.cpp as a stream: what `send_to` adds to it.
use market_networks.Base.{
  ==_refl, All, Bool, Bool-cases, List, Option, Option-cases, Text, [], ap, append-nil,
  append_assoc, arith, drop-append, false, if_cases, if◌then◌else◌, inl, inr, length, ltb, none,
  not, refl, some, subst, sym, ℕ, ◌&&◌, ◌++◌, ◌==◌, ◌||◌, ◌∙◌, ◌∷◌, ◌≡◌, ◌≤◌,
}
use market_networks.Base.Assoc.{find, insert, find-erase, find-insert}
use market_networks.Network.EventLoop
use market_networks.Trading.OrderBook.{remove_orders_of}
use market_networks.Server.State.{ClientRole, ClientSession, pending_bytes, Server, put_session}
use market_networks.Server.Output.{
  write_pending, Written, reclaim, drop_client, drop_session, forget_client, register_interest,
  settle, flush, send_to, differ, max_output_bytes,
}
use market_networks.Server.Sending.{pending, taken_text, write_pending-reclaim}
use market_networks.Server.Sound.{IsSound}

-- What the kernel took for a client, all calls together.
abbrev pub sent_to : ℕ → List (ℕ × Text) → Text
sent_to k [] = []
sent_to k ((fd, t) ∷ more) = let rest = sent_to k more in if fd == k then t ++ rest else rest

sent_to-append : (k : ℕ) (a b : List (ℕ × Text)) → sent_to k (a ++ b) ≡ sent_to k a ++ sent_to k b
sent_to-append k [] b = refl
sent_to-append k ((fd, t) ∷ a) b = elim (Bool-cases (fd == k)) [
  | inl e ↦ rw (e, sent_to-append k a b) (sym (append_assoc t (sent_to k a) (sent_to k b)))
  | inr e ↦ rw e (sent_to-append k a b)
]

sent_to-own : (fd : ℕ) (l : List (ℕ × Text)) → All (λ t. t.0 ≡ fd) l → sent_to fd l ≡ taken_text l
sent_to-own fd [] h = refl
sent_to-own fd ((k, t) ∷ l) h = ground (arith, sent_to-own fd l h.1)

sent_to-other :
    (k fd : ℕ) (l : List (ℕ × Text)) → All (λ t. t.0 ≡ fd) l → (k == fd) ≡ false → sent_to k l ≡ []
sent_to-other k fd [] h e = refl
sent_to-other k fd ((j, t) ∷ l) h e = ground (arith, sent_to-other k fd l h.1 e)

-- Who a client is: its role, name and login, and what it follows.
abbrev pub identity : ClientSession → ClientRole × Text × Bool × List Text
identity x = (x.role, x.username, x.logged_in, x.subscriptions)

abbrev Seen : Type 0
Seen = Text × (ClientRole × Text × Bool × List Text)

abbrev seen : ClientSession → Seen
seen x = (pending x, identity x)

-- A step that keeps the wire, the other sessions, and what is seen of the session of `fd` as long as
-- there is one.
abbrev Leaves : ℕ → Seen → Server → Server → Type 0
Leaves fd rest s s' =
    (s'.wire ≡ s.wire)
    × ((k : ℕ) → (k == fd) ≡ false → find k s'.sessions ≡ find k s.sessions)
    × ((y : ClientSession) → find fd s'.sessions ≡ some y → seen y ≡ rest)

drop_client-Leaves :
    (fd : ℕ) (rest : Seen) (s s' : Server) → drop_client fd s ≡ some s' → Leaves fd rest s s'
unfolding drop_client drop_session forget_client
drop_client-Leaves fd rest s s' e = elim (Option-cases (find fd s.sessions)) [
  | inl n ↦
      let same : s ≡ s' = ground arith in
      subst (Leaves fd rest s) same (refl, λ k h. refl, λ y f. absurd (ground arith))
  | inr (x, n) ↦ elim (Option-cases (remove_orders_of fd s.book)) [
    | inl b ↦ absurd (ground arith)
    | inr (book, b) ↦ elim (Option-cases (EventLoop.remove fd s.loop)) [
      | inl l ↦ absurd (ground arith)
      | inr (loop, l) ↦
          let same : forget_client fd x book loop s ≡ s' = ground arith in
          subst (Leaves fd rest s) same (
            refl,
            λ k h. ground (arith, find-erase fd k s.sessions),
            λ y f. absurd (ground (arith, find-erase fd fd s.sessions)),
          )
    ]
  ]
]

put_session-Leaves :
    (fd : ℕ) (rest : Seen) (x : ClientSession) (s s' : Server)
    → Leaves fd rest (put_session fd x s) s'
    → Leaves fd rest s s'
unfolding put_session
put_session-Leaves fd rest x s s' (w, o, p) =
    (w, λ k h. o k h ∙ ground (arith, find-insert fd k x s.sessions), p)

placed-Leaves :
    (fd : ℕ) (rest : Seen) (z : ClientSession) (s s' : Server)
    → s'.wire ≡ s.wire
    → s'.sessions ≡ insert fd z s.sessions
    → seen z ≡ rest
    → Leaves fd rest s s'
placed-Leaves fd rest z s s' w e p =
    let at = λ (k : ℕ). ap (find k) e ∙ find-insert fd k z s.sessions in
    (
      w,
      λ k h. at k ∙ ground arith,
      λ y f.
          let here : some z ≡ some y = sym (at fd ∙ rw (==_refl fd) refl) ∙ f in
          ap (λ (o : Option ClientSession). elim o [ none ↦ rest | some u ↦ seen u ]) (sym here)
          ∙ p,
    )

register_interest-Leaves :
    (y : ClientSession) (s : Server) → Leaves y.fd (seen y) s (register_interest y s)
unfolding register_interest put_session
register_interest-Leaves y s =
    let want_read = not y.closing in
    let want_write = ltb 0 (pending_bytes y) in
    let z : ClientSession = record y { read_interest = want_read; write_interest = want_write } in
    let changed : Server = record (put_session y.fd z s) {
      loop = (EventLoop.update y.fd want_read want_write s.loop).1;
    } in
    if_cases (Leaves y.fd (seen y) s)
      (differ want_read y.read_interest || differ want_write y.write_interest)
      (λ _. placed-Leaves y.fd (seen y) z s changed refl refl refl)
      (λ _. placed-Leaves y.fd (seen y) y s (put_session y.fd y s) refl refl refl)

settle-Leaves :
    (y : ClientSession) (s s' : Server) → settle y s ≡ some s' → Leaves y.fd (seen y) s s'
unfolding settle
settle-Leaves y s s' e =
    let z : ClientSession = record y { backlogged = ltb 0 (pending_bytes y) } in
    elim (Bool-cases (ltb max_output_bytes (pending_bytes y))) [
      | inl over ↦
          put_session-Leaves y.fd (seen y) y s s'
            (drop_client-Leaves y.fd (seen y) (put_session y.fd y s) s' (ground arith))
      | inr fits ↦ elim (Bool-cases (pending_bytes y == 0 && y.closing)) [
        | inl done ↦
            put_session-Leaves y.fd (seen y) z s s'
              (drop_client-Leaves y.fd (seen y) (put_session y.fd z s) s' (ground arith))
        | inr more ↦
            let same : register_interest z s ≡ s' = ground arith in
            subst (Leaves y.fd (seen y) s) same (register_interest-Leaves z s)
      ]
    ]

-- What `flush` does with a session: the kernel takes some of what is pending, the rest stays pending as
-- long as there is a session, and nothing is sent to anyone else.
abbrev FlushedAt : ℕ → ClientSession → Server → Server → Type 0
FlushedAt fd x s s' =
    (rest : Text) × (sent_to fd s'.wire ++ rest ≡ sent_to fd s.wire ++ pending x)
    × ((y : ClientSession)
        → find fd s'.sessions ≡ some y
        → (pending y ≡ rest) × (identity y ≡ identity x))
    × ((k : ℕ)
        → (k == fd) ≡ false
        → (sent_to k s'.wire ≡ sent_to k s.wire) × (find k s'.sessions ≡ find k s.sessions))

pub reclaim-fd : (x : ClientSession) → (reclaim x).fd ≡ x.fd
unfolding reclaim
reclaim-fd x = ground arith

reclaim-identity : (x : ClientSession) → identity (reclaim x) ≡ identity x
unfolding reclaim
reclaim-identity x = ground arith

flush-FlushedAt : (x : ClientSession) (s s' : Server) → flush x s ≡ some s' → FlushedAt x.fd x s s'
unfolding flush
flush-FlushedAt x s s' e =
    let w : Written = write_pending x.fd x.outbuf x.out_start s.send_answers in
    let y : ClientSession = record x { out_start = w.out_start } in
    let s1 : Server = record s { send_answers = w.answers; wire = s.wire ++ w.taken } in
    let (whole, own) = write_pending-reclaim x s.send_answers in
    let left : Leaves x.fd (seen (reclaim y)) s1 s' = elim (Bool-cases w.broken) [
      | inl broken ↦
          put_session-Leaves x.fd (seen (reclaim y)) y s1 s'
            (drop_client-Leaves x.fd (seen (reclaim y)) (put_session x.fd y s1) s' (ground arith))
      | inr whole_left ↦
          subst (λ k. Leaves k (seen (reclaim y)) s1 s') (reclaim-fd y)
            (settle-Leaves (reclaim y) s1 s' (ground arith))
    ] in
    let (wire, others, here) = left in
    (
      pending (reclaim y),
      ap (λ l. sent_to x.fd l ++ pending (reclaim y)) wire
          ∙ ap (λ t. t ++ pending (reclaim y)) (sent_to-append x.fd s.wire w.taken)
          ∙ append_assoc (sent_to x.fd s.wire) (sent_to x.fd w.taken) (pending (reclaim y))
          ∙ ap (λ t. sent_to x.fd s.wire ++ t)
              (ap (λ t. t ++ pending (reclaim y)) (sent_to-own x.fd w.taken own) ∙ whole),
      λ z f. (
        ap (λ (v : Seen). v.0) (here z f),
        ap (λ (v : Seen). v.1) (here z f) ∙ reclaim-identity y,
      ),
      λ k h. (
        ap (sent_to k) wire
            ∙ sent_to-append k s.wire w.taken
            ∙ ap (λ t. sent_to k s.wire ++ t) (sent_to-other k x.fd w.taken own h)
            ∙ append-nil (sent_to k s.wire),
        others k h,
      ),
    )

-- The message is appended to the stream of `fd`: what the kernel took, then `rest`. The client keeps its
-- identity, and nothing changes for the others.
abbrev pub Sends : ℕ → Text → ClientSession → Server → Server → Type 0
Sends fd message x s s' =
    (rest : Text) × (sent_to fd s'.wire ++ rest ≡ (sent_to fd s.wire ++ pending x) ++ message)
    × ((y : ClientSession)
        → find fd s'.sessions ≡ some y
        → (pending y ≡ rest) × (identity y ≡ identity x))
    × ((k : ℕ)
        → (k == fd) ≡ false
        → (sent_to k s'.wire ≡ sent_to k s.wire) × (find k s'.sessions ≡ find k s.sessions))

-- The same for `send_to`.
pub send_to-FlushedAt :
    (fd : ℕ) (message : Text) (s s' : Server) (x : ClientSession)
    → x.fd ≡ fd
    → x.out_start ≤ length x.outbuf
    → find fd s.sessions ≡ some x
    → send_to fd message s ≡ some s'
    → Sends fd message x s s'
unfolding send_to
send_to-FlushedAt fd message s s' x keyed consumed e h =
    let y : ClientSession = record x { outbuf = x.outbuf ++ message } in
    let (rest, whole, here, others) =
      subst (λ k. FlushedAt k y s s') keyed (flush-FlushedAt y s s' (ground arith)) in
    (
      rest,
      whole
          ∙ ap (λ t. sent_to fd s.wire ++ t) (drop-append x.out_start x.outbuf message consumed)
          ∙ sym (append_assoc (sent_to fd s.wire) (pending x) message),
      here,
      others,
    )

-- Sending a message to a client appends exactly that message to the client's stream: what the kernel has
-- taken for it, followed by what is still pending. The kernel may take any part of the stream, and where
-- the client is dropped the rest of it is lost; nothing is repeated, reordered or sent to another client.
-- The client keeps its role, its name, its login and its subscriptions, and the other sessions stay as
-- they are. The conditions: the server is sound, and the client connected.
pub send_to-Stream :
    (fd : ℕ) (message : Text) (s s' : Server) (x : ClientSession)
    → IsSound s
    → find fd s.sessions ≡ some x
    → send_to fd message s ≡ some s'
    → Sends fd message x s s'
send_to-Stream fd message s s' x v e h =
    let r = v.sessions fd x e in send_to-FlushedAt fd message s s' x r.keyed r.consumed e h
