-- ===== src/Server/Sound/Reading.antt =====
-- Soundness of the input path of src/exchange_server.cpp: `consume_messages` and `on_readable`.
use market_networks.Base.{
  Bool, Bool-cases, List, Option, Option-cases, Text, [], ap, arith, false, if_cases, inl, inr,
  length, ltb, none, not, refl, some, suc, sym, true, zero, ℕ, ◌&&◌, ◌++◌, ◌<◌, ◌∙◌, ◌∷◌, ◌≡◌,
}
use market_networks.Base.Assoc.{find}
use market_networks.Network.Framing.{next_line, next_line-length, strip_return}
use market_networks.Server.State.{ClientSession, Server, put_session}
use market_networks.Server.Output.{read_chunk}
use market_networks.Server.Input.{
  max_line_bytes, too_long, keep_partial, consume_loop, consume_messages, RecvAnswer, received,
  closed, interrupted, would_block, failed, on_readable,
}
use market_networks.Server.Sound.{IsSound, Steps, Subsides}
use market_networks.Server.Holding.{IsTidy, Retains-IsTidy, put_session-Retains}
use market_networks.Server.Watched.{IsWatched, put_session-IsWatched}
use market_networks.Server.Sound.Dropping.{find-put_session, put_session-IsSound, drop_client-Steps}
use market_networks.Server.Sound.Flushing.{send_to-Steps, begin_orderly_close-Steps}
use market_networks.Server.Sound.Dispatching.{handle_message-Steps}

-- What a step tends: the event loop watches the sessions, and every open descriptor is held.
abbrev pub Tended : Bool → Server → Type 0
Tended true s = IsWatched s
Tended false s = IsTidy s

abbrev pub Tends : Server → Server → Type 0
Tends s s' = (b : Bool) → Tended b s → Tended b s'

pub Tends-of : (s s' : Server) → (IsWatched s → IsWatched s') → (IsTidy s → IsTidy s') → Tends s s'
Tends-of s s' f g true = f
Tends-of s s' f g false = g

pub Tends-refl : (s : Server) → Tends s s
Tends-refl s b h = h

Tends-trans : (s t u : Server) → Tends s t → Tends t u → Tends s u
Tends-trans s t u f g b h = g b (f b h)

Tends-Subsides : (s s' : Server) → Subsides s s' → Tends s s'
Tends-Subsides s s' h = Tends-of s s' h.1 (Retains-IsTidy s s' h.0.1)

-- Where a step ends: sound again, and what is tended was not let go.
abbrev pub Ends : Server → Option Server → Type 0
Ends s r = (s' : Server) × (r ≡ some s') × IsSound s' × Tends s s'

-- A step that also answers whether the session is still there.
abbrev pub Answers : Server → Option (Bool × Server) → Type 0
Answers s r = (alive : Bool) × (s' : Server) × (r ≡ some (alive, s')) × IsSound s' × Tends s s'

pub Ends-Steps : (s : Server) (r : Option Server) → Steps s r → Ends s r
Ends-Steps s r (s', e, w, b) = (s', e, w, Tends-Subsides s s' b)

pub Ends-trans : (s t : Server) (r : Option Server) → Tends s t → Ends t r → Ends s r
Ends-trans s t r f (u, e, w, g) = (u, e, w, λ b h. g b (f b h))

keep_partial-Answers :
    (fd : ℕ) (x : ClientSession) (s : Server) → IsSound s → Answers s (keep_partial fd x s)
unfolding keep_partial
keep_partial-Answers fd x s v =
    if_cases (Answers s) (ltb max_line_bytes (length x.inbuf))
      (λ _.
        let (s1, e1, v1, b1) = send_to-Steps fd too_long s v in
        let (s2, e2, v2, b2) = begin_orderly_close-Steps fd s1 v1 in
        (
          false,
          s2,
          rw (e1, e2),
          v2,
          Tends-trans s s1 s2 (Tends-Subsides s s1 b1) (Tends-Subsides s1 s2 b2),
        ))
      (λ _. (true, s, refl, v, Tends-refl s))

module _ (fd : ℕ) (x : ClientSession) (s : Server) (v : IsSound s)
    (e : find fd s.sessions ≡ some x) where
  pub with_input-IsSound : (inbuf : Text) → IsSound (put_session fd (record x { inbuf = inbuf }) s)
  with_input-IsSound inbuf =
      let w = v.sessions fd x e in
      put_session-IsSound fd x (record x { inbuf = inbuf }) s v e
        (record {
          keyed = w.keyed;
          consumed = w.consumed;
          trading = w.trading;
          watching = w.watching;
        })
        (λ i. refl) refl

  with_input-Tends : (inbuf : Text) → Tends s (put_session fd (record x { inbuf = inbuf }) s)
  with_input-Tends inbuf =
      Tends-of s (put_session fd (record x { inbuf = inbuf }) s)
        (put_session-IsWatched fd (record x { inbuf = inbuf }) s x e refl)
        (Retains-IsTidy s (put_session fd (record x { inbuf = inbuf }) s)
          (put_session-Retains fd (record x { inbuf = inbuf }) s))

  pub with_input-found :
      (inbuf : Text)
      → find fd (put_session fd (record x { inbuf = inbuf }) s).sessions
        ≡ some (record x { inbuf = inbuf })
  with_input-found inbuf = ground (arith, find-put_session fd fd (record x { inbuf = inbuf }) s)

  with_input-length :
      (inbuf : Text) (z : ClientSession)
      → find fd (put_session fd (record x { inbuf = inbuf }) s).sessions ≡ some z
      → length z.inbuf ≡ length inbuf
  with_input-length inbuf z f =
      ap (λ (o : Option ClientSession). elim o [ none ↦ 0 | some y ↦ length y.inbuf ])
        (sym f ∙ with_input-found inbuf)

-- Fuel beyond the length of the session's buffer is enough.
consume_loop-Answers :
    (fuel fd : ℕ) (x : ClientSession) (s : Server)
    → IsSound s
    → find fd s.sessions ≡ some x
    → length x.inbuf < fuel
    → Answers s (consume_loop fuel fd s)
unfolding consume_loop
consume_loop-Answers zero fd x s v e h = absurd (omega arith)
consume_loop-Answers (suc fuel) fd x s v e h = elim (Option-cases (next_line x.inbuf)) [
  | inl n ↦ rw (consume_loop, e, n) (keep_partial-Answers fd x s v)
  | inr ((line, rest), n) ↦
      let y : ClientSession = record x { inbuf = rest } in
      let t : Server = put_session fd y s in
      let (s', f, w, b) =
        handle_message-Steps fd (strip_return line) y t (with_input-IsSound fd x s v e rest)
          (with_input-found fd x s v e rest) in
      let kept : Tends s s' =
        Tends-trans s t s' (with_input-Tends fd x s v e rest) (Tends-Subsides t s' b) in
      elim (Option-cases (find fd s'.sessions)) [
        | inl gone ↦ (false, s', rw (consume_loop, e, n, f, gone), w, kept)
        | inr (z, there) ↦ elim (Bool-cases z.closing) [
          | inl c ↦ (true, s', rw (consume_loop, e, n, f, there, c), w, kept)
          | inr c ↦
              let (y', at, shorter) = b.0.0 fd z there in
              let (alive, u, g, u', later) = consume_loop-Answers fuel fd z s' w there (
                omega (
                  arith,
                  shorter,
                  with_input-length fd x s v e rest y' at,
                  next_line-length x.inbuf line rest n,
                )) in
              (alive, u, rw (consume_loop, e, n, f, there, c) g, u', Tends-trans s s' u kept later)
        ]
      ]
]

-- On a sound server the loop of `consume_messages` ends, without undefined behaviour, and the server
-- is sound again: the fuel, one more than the length of the buffer, is never used up.
pub consume_messages-Answers : (fd : ℕ) (s : Server) → IsSound s → Answers s (consume_messages fd s)
unfolding consume_messages
consume_messages-Answers fd s v = elim (Option-cases (find fd s.sessions)) [
  | inl e ↦ (false, s, rw (consume_messages, e), v, Tends-refl s)
  | inr (x, e) ↦
      let (alive, t, f, w, g) =
        consume_loop-Answers (suc (length x.inbuf)) fd x s v e (omega arith) in
      (alive, t, rw (consume_messages, e, f), w, g)
]

on_readable-open :
    (fd : ℕ) (answer : RecvAnswer) (answers : List RecvAnswer) (x : ClientSession) (s : Server)
    → IsSound s
    → find fd s.sessions ≡ some x
    → x.closing ≡ false
    → ((t : Server) → IsSound t → Ends t (on_readable fd answers t))
    → Ends s (on_readable fd (answer ∷ answers) s)
unfolding on_readable
on_readable-open fd (received bytes) answers x s v e c later =
    let t = put_session fd (record x { inbuf = x.inbuf ++ bytes }) s in
    let (alive, u, f, w, g) =
      consume_messages-Answers fd t (with_input-IsSound fd x s v e (x.inbuf ++ bytes)) in
    let kept : Tends s u = Tends-trans s t u (with_input-Tends fd x s v e (x.inbuf ++ bytes)) g in
    elim (Bool-cases (alive && not (ltb (length bytes) read_chunk))) [
      | inl more ↦ rw (on_readable, e, c, f, more) (Ends-trans s u _ kept (later u w))
      | inr stop ↦ (u, rw (on_readable, e, c, f, stop), w, kept)
    ]
on_readable-open fd closed answers x s v e c later =
    rw (on_readable, e, c) (Ends-Steps s _ (begin_orderly_close-Steps fd s v))
on_readable-open fd interrupted answers x s v e c later = rw (on_readable, e, c) (later s v)
on_readable-open fd would_block answers x s v e c later =
    (s, rw (on_readable, e, c), v, Tends-refl s)
on_readable-open fd failed answers x s v e c later =
    rw (on_readable, e, c) (Ends-Steps s _ (drop_client-Steps fd s v))

pub on_readable-Ends :
    (fd : ℕ) (answers : List RecvAnswer) (s : Server)
    → IsSound s
    → Ends s (on_readable fd answers s)
unfolding on_readable
on_readable-Ends fd [] s v = (s, refl, v, Tends-refl s)
on_readable-Ends fd (answer ∷ answers) s v = elim (Option-cases (find fd s.sessions)) [
  | inl e ↦ (s, rw (on_readable, e), v, Tends-refl s)
  | inr (x, e) ↦ elim (Bool-cases x.closing) [
    | inl c ↦ (s, rw (on_readable, e, c), v, Tends-refl s)
    | inr c ↦ on_readable-open fd answer answers x s v e c (λ t w. on_readable-Ends fd answers t w)
  ]
]
