-- ===== src/Server/Sending/Telling.antt =====
-- What a step of src/exchange_server.cpp tells each client, as growth of the clients' streams.
use market_networks.Base.{
  Bool-cases, List, Option, Option-cases, Text, [], ap, append-nil, append_assoc, arith, false,
  if◌then◌else◌, inl, inr, none, refl, some, subst, sym, ℕ, ◌++◌, ◌==◌, ◌>>=◌, ◌∙◌, ◌∷◌, ◌≡◌,
}
use market_networks.Base.Assoc.{find}
use market_networks.Server.State.{ClientSession, Server}
use market_networks.Server.Output.{send_to}
use market_networks.Server.Handlers.{send_each}
use market_networks.Server.Sending.{pending}
use market_networks.Server.Sending.Stream.{sent_to, identity, send_to-FlushedAt}
use market_networks.Server.Sound.{IsSound}
use market_networks.Server.Sound.Flushing.{send_to-Steps}

-- The stream of `k` grows by the text `told`, of which a client that is dropped on the way gets a part
-- only. It keeps its identity, and where there is no session none comes.
abbrev pub Grown : ℕ → Server → Server → ClientSession → Text → Type 0
Grown k s s' x told =
    (rest : Text) × (sent_to k s'.wire ++ rest ≡ (sent_to k s.wire ++ pending x) ++ told)
    × ((y : ClientSession)
        → find k s'.sessions ≡ some y
        → (pending y ≡ rest) × (identity y ≡ identity x))

abbrev pub TellsAt : Text → Server → Server → ℕ → Type 0
TellsAt told s s' k =
    ((x : ClientSession) → find k s.sessions ≡ some x → Grown k s s' x told)
    × (find k s.sessions ≡ none
        → (sent_to k s'.wire ≡ sent_to k s.wire) × (find k s'.sessions ≡ none))

-- Every client's stream grows by the text that `told` says.
abbrev pub Tells : (ℕ → Text) → Server → Server → Type 0
Tells told s s' = (k : ℕ) → TellsAt (told k) s s' k

pub same_session : (x y : ClientSession) → some y ≡ some x → y ≡ x
same_session x y e = ap (λ (o : Option ClientSession). elim o [ none ↦ x | some u ↦ u ]) e

-- Nothing is sent to `k`, and its session stays.
still-TellsAt :
    (s s' : Server) (k : ℕ)
    → sent_to k s'.wire ≡ sent_to k s.wire
    → find k s'.sessions ≡ find k s.sessions
    → TellsAt [] s s' k
still-TellsAt s s' k w f = (
  (λ x e. (
    pending x,
    ap (λ t. t ++ pending x) w ∙ sym (append-nil _),
    λ y h. let q = same_session x y (sym h ∙ f ∙ e) in (ap pending q, ap identity q),
  )),
  λ e. (w, f ∙ e),
)

pub Tells-refl : (s : Server) → Tells (λ k. []) s s
Tells-refl s k = still-TellsAt s s k refl refl

pub Tells-trans :
    (f g : ℕ → Text) (s t u : Server) → Tells f s t → Tells g t u → Tells (λ k. f k ++ g k) s u
Tells-trans f g s t u a b k = (
  (λ x e.
      let (rest, whole, here) = (a k).0 x e in
      elim (Option-cases (find k t.sessions)) [
        | inl gone ↦
            let (same, none_left) = (b k).1 gone in
            (
              rest ++ g k,
              ap (λ w. w ++ (rest ++ g k)) same
                  ∙ sym (append_assoc (sent_to k t.wire) rest (g k))
                  ∙ ap (λ w. w ++ g k) whole
                  ∙ append_assoc (sent_to k s.wire ++ pending x) (f k) (g k),
              λ y h. absurd (ground arith),
            )
        | inr (y, n) ↦
            let (rest', whole', here') = (b k).0 y n in
            (
              rest',
              whole'
                  ∙ ap (λ p. (sent_to k t.wire ++ p) ++ g k) (here y n).0
                  ∙ ap (λ w. w ++ g k) whole
                  ∙ append_assoc (sent_to k s.wire ++ pending x) (f k) (g k),
              λ z h. ((here' z h).0, (here' z h).1 ∙ (here y n).1),
            )
      ]),
  λ e. let (same, gone) = (a k).1 e in let (same', gone') = (b k).1 gone in (same' ∙ same, gone'),
)

-- Only the texts for clients that are connected matter.
pub Tells-agree :
    (f g : ℕ → Text) (s t : Server)
    → Tells f s t
    → ((k : ℕ) (x : ClientSession) → find k s.sessions ≡ some x → f k ≡ g k)
    → Tells g s t
Tells-agree f g s t a h k =
    ((λ x e. let r = (a k).0 x e in subst (Grown k s t x) (h k x e) r), (a k).1)

-- Who is connected afterwards was so before, with the same identity.
pub Tells-identity :
    (f : ℕ → Text) (s t : Server)
    → Tells f s t
    → (k : ℕ) (y : ClientSession) → find k t.sessions ≡ some y
    → (x : ClientSession) × (find k s.sessions ≡ some x) × (identity y ≡ identity x)
Tells-identity f s t a k y h = elim (Option-cases (find k s.sessions)) [
  | inl n ↦ absurd (ground (arith, (a k).1 n))
  | inr (x, e) ↦ let (_, _, here) = (a k).0 x e in (x, e, (here y h).1)
]

-- A message to one client.
abbrev pub only : ℕ → Text → ℕ → Text
only fd message k = if fd == k then message else []

-- A client that is not connected is told nothing.
pub send_to-absent :
    (fd : ℕ) (message : Text) (s s' : Server)
    → find fd s.sessions ≡ none
    → send_to fd message s ≡ some s'
    → s ≡ s'
unfolding send_to
send_to-absent fd message s s' n h = ground arith

send_to-TellsAt-own :
    (fd : ℕ) (message : Text) (s s' : Server)
    → IsSound s
    → send_to fd message s ≡ some s'
    → TellsAt message s s' fd
send_to-TellsAt-own fd message s s' v h = (
  (λ x e.
      let r = v.sessions fd x e in
      let (rest, whole, here, _) = send_to-FlushedAt fd message s s' x r.keyed r.consumed e h in
      (rest, whole, here)),
  λ e.
      let q = send_to-absent fd message s s' e h in
      (
        ap (λ (t : Server). sent_to fd t.wire) (sym q),
        ap (λ (t : Server). find fd t.sessions) (sym q) ∙ e,
      ),
)

send_to-TellsAt-other :
    (fd : ℕ) (message : Text) (s s' : Server)
    → IsSound s
    → send_to fd message s ≡ some s'
    → (k : ℕ) → (k == fd) ≡ false
    → TellsAt [] s s' k
send_to-TellsAt-other fd message s s' v h k other = elim (Option-cases (find fd s.sessions)) [
  | inl n ↦
      let q = send_to-absent fd message s s' n h in
      still-TellsAt s s' k (ap (λ (t : Server). sent_to k t.wire) (sym q))
        (ap (λ (t : Server). find k t.sessions) (sym q))
  | inr (x, n) ↦
      let r = v.sessions fd x n in
      let (_, _, _, others) = send_to-FlushedAt fd message s s' x r.keyed r.consumed n h in
      still-TellsAt s s' k (others k other).0 (others k other).1
]

pub send_to-Tells :
    (fd : ℕ) (message : Text) (s s' : Server)
    → IsSound s
    → send_to fd message s ≡ some s'
    → Tells (only fd message) s s'
send_to-Tells fd message s s' v h k = elim (Bool-cases (fd == k)) [
  | inl e ↦
      let p : fd ≡ k = ground arith in
      rw e (subst (TellsAt message s s') p (send_to-TellsAt-own fd message s s' v h))
  | inr e ↦ rw e (send_to-TellsAt-other fd message s s' v h k (ground arith))
]

-- A message to each client of a list.
abbrev pub each : List ℕ → Text → ℕ → Text
each [] message k = []
each (fd ∷ fds) message k = only fd message k ++ each fds message k

pub send_each-Tells :
    (fds : List ℕ) (message : Text) (s s' : Server)
    → IsSound s
    → send_each fds message s ≡ some s'
    → Tells (each fds message) s s'
unfolding send_each
send_each-Tells [] message s s' v h =
    let q : s ≡ s' = ground arith in
    λ k.
      still-TellsAt s s' k (ap (λ (t : Server). sent_to k t.wire) (sym q))
        (ap (λ (t : Server). find k t.sessions) (sym q))
send_each-Tells (fd ∷ fds) message s s' v h =
    let (t, e, w, _) = send_to-Steps fd message s v in
    Tells-trans (only fd message) (each fds message) s t s' (send_to-Tells fd message s t v e) (
      send_each-Tells fds message t s' w
        (ap (λ (r : Option Server). r >>= send_each fds message) (sym e) ∙ h))
