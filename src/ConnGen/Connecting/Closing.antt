-- ===== src/ConnGen/Connecting/Closing.antt =====
-- The connections of src/tools/conn_gen.cpp: how many there are, and that all are closed.
use market_networks.Base.{
  Bool-cases, List, Option, Text, [], ap, append-nil, arith, inl, inr, length, length-append, ltb,
  none, not, refl, subst, suc, zero, ℕ, ◌&&◌, ◌*◌, ◌++◌, ◌+◌, ◌∙◌, ◌∷◌, ◌≡◌, ◌≢◌, ◌≤◌,
}
use market_networks.ConnGen.{Plan}
use market_networks.Network.Sockets.{Lookup, left_open}
use market_networks.ConnGen.Connecting.{
  Try, is_transient, bad_host, Generator, Ending, finished, gave_up, refused, faulted, waiting,
  attempt, connect_loop, close_each, conclude, generate,
}
use market_networks.ConnGen.Connecting.Attempts.{
  Settled, Settled-append, Gives, Attempt-cases, attempt-Gives, attempt-bad_host,
  close_each-AllClosed, left_open-close_each,
}

module _ (inet_pton : Text → Option ℕ) (getaddrinfo : Text → Lookup) (p : Plan) where
  -- What the loop keeps: nothing is open but the connections, and there are not too many.
  record Connected (left : ℕ) (g : Generator) (ending : Ending) (g' : Generator) : Type 0 where
    settled : Settled g'.connections g'.calls
    few : length g'.connections ≤ length g.connections + left
    defined : ending ≢ faulted
    numeric : ending ≡ refused → (k : ℕ) (t : Try) → attempt inet_pton getaddrinfo p k t ≡ bad_host

  stay-Connected :
      (left : ℕ) (g : Generator) (ending : Ending)
      → Settled g.connections g.calls
      → ending ≢ faulted
      → ending ≢ refused
      → Connected left g ending g
  stay-Connected left g ending v f h = record {
    settled = v;
    few = omega arith;
    defined = f;
    numeric = λ e. absurd (h e);
  }

  step-Connected :
      (left left' : ℕ) (g next g' : Generator) (ending : Ending)
      → length next.connections + left' ≤ length g.connections + left
      → Connected left' next ending g'
      → Connected left g ending g'
  step-Connected left left' g next g' ending h c = record {
    settled = c.settled;
    few = omega (arith, h, c.few);
    defined = c.defined;
    numeric = c.numeric;
  }

  connect_loop-Connected :
      (tries : List Try) (left retried : ℕ) (g : Generator)
      → Settled g.connections g.calls
      → let (ending, g') = connect_loop inet_pton getaddrinfo p tries left retried g in
        Connected left g ending g'
  unfolding connect_loop
  connect_loop-Connected tries zero retried g v = stay-Connected 0 g finished v (λ e. cc) (λ e. cc)
  connect_loop-Connected [] (suc left) retried g v =
      stay-Connected (suc left) g waiting v (λ e. cc) (λ e. cc)
  connect_loop-Connected (t ∷ tries) (suc left) retried g v =
      let gives = attempt-Gives inet_pton getaddrinfo p (length g.connections) t in
      elim (Attempt-cases (attempt inet_pton getaddrinfo p (length g.connections) t)) [
        | inl e ↦ absurd (subst Gives e gives)
        | inr (inl e) ↦
            rw (connect_loop, e)
              (record {
                settled = v;
                few = omega arith;
                defined = λ f. cc;
                numeric = λ f. attempt-bad_host inet_pton getaddrinfo p (length g.connections) t e;
              })
        | inr (inr (inl (fd, made, e))) ↦
            let next : Generator = record g {
              connections = g.connections ++ fd ∷ [];
              calls = g.calls ++ made;
            } in
            let w : Settled next.connections next.calls =
              Settled-append g.connections (fd ∷ []) g.calls made v (subst Gives e gives) in
            let more = length-append g.connections (fd ∷ []) in
            elim (Bool-cases t.stopped) [
              | inl stop ↦
                  rw (connect_loop, e, stop)
                    (step-Connected (suc left) 0 g next next finished (omega (arith, more))
                      (stay-Connected 0 next finished w (λ f. cc) (λ f. cc)))
              | inr on ↦
                  rw (connect_loop, e, on)
                    (step-Connected (suc left) left g next _ _ (omega (arith, more))
                      (connect_loop-Connected tries left 0 next w))
            ]
        | inr (inr (inr (made, e))) ↦
            let spent : Generator = record g { calls = g.calls ++ made } in
            let w : Settled g.connections spent.calls =
              subst (λ fds. Settled fds spent.calls) (append-nil g.connections)
                (Settled-append g.connections [] g.calls made v (subst Gives e gives)) in
            let again : Generator = record spent { retries = suc spent.retries } in
            elim (Bool-cases (is_transient t.errno && ltb retried 200 && not t.stopped)) [
              | inl retry ↦
                  rw (connect_loop, e, retry)
                    (step-Connected (suc left) (suc left) g again _ _ (omega arith)
                      (connect_loop-Connected tries (suc left) (suc retried) again w))
              | inr over ↦
                  rw (connect_loop, e, over)
                    (step-Connected (suc left) (suc left) g spent spent gave_up (omega arith)
                      (stay-Connected (suc left) spent gave_up w (λ f. cc) (λ f. cc)))
            ]
      ]

  -- Enough answers: 201 for each connection.
  connect_loop-ends :
      (tries : List Try) (left retried : ℕ) (g : Generator)
      → retried ≤ 200
      → 201 * left ≤ length tries + retried
      → (connect_loop inet_pton getaddrinfo p tries left retried g).0 ≢ waiting
  unfolding connect_loop
  connect_loop-ends tries zero retried g h k = λ e. cc
  connect_loop-ends [] (suc left) retried g h k = absurd (omega arith)
  connect_loop-ends (t ∷ tries) (suc left) retried g h k =
      elim (Attempt-cases (attempt inet_pton getaddrinfo p (length g.connections) t)) [
        | inl e ↦ rw (connect_loop, e) (λ f. cc)
        | inr (inl e) ↦ rw (connect_loop, e) (λ f. cc)
        | inr (inr (inl (fd, made, e))) ↦ elim (Bool-cases t.stopped) [
          | inl stop ↦ rw (connect_loop, e, stop) (λ f. cc)
          | inr on ↦
              rw (connect_loop, e, on)
                (connect_loop-ends tries left 0 _ (omega arith) (omega arith))
        ]
        | inr (inr (inr (made, e))) ↦
            elim (Bool-cases (is_transient t.errno && ltb retried 200 && not t.stopped)) [
              | inl retry ↦
                  rw (connect_loop, e, retry)
                    (connect_loop-ends tries (suc left) (suc retried) _ (ground arith)
                      (omega arith))
              | inr over ↦ rw (connect_loop, e, over) (λ f. cc)
            ]
      ]

  refused-same :
      (tries : List Try) (left : ℕ) (g : Generator)
      → ((k : ℕ) (t : Try) → attempt inet_pton getaddrinfo p k t ≡ bad_host)
      → (connect_loop inet_pton getaddrinfo p tries left 0 g).1 ≡ g
  unfolding connect_loop
  refused-same tries zero g bad = refl
  refused-same [] (suc left) g bad = refl
  refused-same (t ∷ tries) (suc left) g bad = rw (connect_loop, bad (length g.connections) t) refl

  conclude-closes :
      (ending : Ending) (g start : Generator) (left : ℕ)
      → Connected left start ending g
      → (ending ≡ refused → left_open g.calls ≡ [])
      → let (status, last) = conclude ending g in
        (length last.connections ≤ length start.connections + left)
        × (status ≢ none → left_open last.calls ≡ [])
        × (ending ≢ waiting → status ≢ none)
  unfolding conclude
  conclude-closes finished g start left c r = (
    c.few,
    λ _.
        c.settled (close_each g.connections) (close_each-AllClosed g.connections)
        ∙ left_open-close_each g.connections,
    λ _ e. cc,
  )
  conclude-closes gave_up g start left c r = (
    c.few,
    λ _.
        c.settled (close_each g.connections) (close_each-AllClosed g.connections)
        ∙ left_open-close_each g.connections,
    λ _ e. cc,
  )
  conclude-closes refused g start left c r = (c.few, λ _. r refl, λ _ e. cc)
  conclude-closes faulted g start left c r = absurd (c.defined refl)
  conclude-closes waiting g start left c r = (c.few, λ h. absurd (h refl), λ h. absurd (h refl))

  -- The generator never makes more connections than it is asked for, and every descriptor that it opens,
  -- also in an attempt that fails, is closed by the time it ends. It ends: 201 answers for each connection
  -- are enough, whatever they are, since an attempt is repeated at most 200 times.
  pub generate-closes :
      (tries : List Try)
      → let (status, g) = generate inet_pton getaddrinfo p tries in
        (length g.connections ≤ p.target)
        × (status ≢ none → left_open g.calls ≡ [])
        × (201 * p.target ≤ length tries → status ≢ none)
  unfolding generate
  generate-closes tries =
      let start : Generator = record { connections = []; retries = 0; calls = [] } in
      let end = connect_loop inet_pton getaddrinfo p tries p.target 0 start in
      let c = connect_loop-Connected tries p.target 0 start (λ rest h. refl) in
      let (few, closes, ends) = conclude-closes end.0 end.1 start p.target c (λ e.
        ap (λ (g : Generator). left_open g.calls)
          (refused-same tries p.target start (c.numeric e))) in
      (
        omega (arith, few),
        closes,
        λ h. ends (connect_loop-ends tries p.target 0 start (omega arith) (omega (arith, h))),
      )
