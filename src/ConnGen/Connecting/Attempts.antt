-- ===== src/ConnGen/Connecting/Attempts.antt =====
-- One attempt to connect in src/tools/conn_gen.cpp: the calls that it makes and what they leave open.
use market_networks.Base.{
  ==_refl, All, All-parts, List, List-cases, Option, Option-cases, Text, [], ap, append_assoc,
  arith, inl, inr, length, none, refl, some, suc, sym, true, zero, ℕ, ◌%◌, ◌++◌, ◌<◌, ◌∙◌, ◌∷◌, ◌≡◌,
  ◌≢◌, ◌⊎◌,
}
use market_networks.ConnGen.{Plan}
use market_networks.Network.Sockets.{
  SystemCall, opened, closed, reuse_address, nonblocking, no_delay, shut_down, send_buffer, bound,
  connected_to, listening, Lookup, connect_to, left_open, is_closed, give_up,
}
use market_networks.ConnGen.Connecting.{
  Try, Attempt, tried, bad_host, undefined, source_at, connect_from, attempt, close_each,
  bind_source,
}

-- Calls after which nothing is open but what `fds` names.
abbrev pub AllClosed : List ℕ → List SystemCall → Type 0
AllClosed fds calls = All (λ fd. is_closed fd calls ≡ true) fds

abbrev pub Settled : List ℕ → List SystemCall → Type 0
Settled fds calls =
    (rest : List SystemCall) → AllClosed fds rest → left_open (calls ++ rest) ≡ left_open rest

is_closed-append :
    (fd : ℕ) (calls rest : List SystemCall)
    → is_closed fd rest ≡ true
    → is_closed fd (calls ++ rest) ≡ true
is_closed-append fd [] rest h = h
is_closed-append fd (closed k ∷ calls) rest h = ground (arith, is_closed-append fd calls rest h)
is_closed-append fd (opened k ∷ calls) rest h = is_closed-append fd calls rest h
is_closed-append fd (reuse_address k ∷ calls) rest h = is_closed-append fd calls rest h
is_closed-append fd (nonblocking k ∷ calls) rest h = is_closed-append fd calls rest h
is_closed-append fd (no_delay k ∷ calls) rest h = is_closed-append fd calls rest h
is_closed-append fd (shut_down k ∷ calls) rest h = is_closed-append fd calls rest h
is_closed-append fd (send_buffer k n ∷ calls) rest h = is_closed-append fd calls rest h
is_closed-append fd (bound k a b ∷ calls) rest h = is_closed-append fd calls rest h
is_closed-append fd (connected_to k a b ∷ calls) rest h = is_closed-append fd calls rest h
is_closed-append fd (listening k a ∷ calls) rest h = is_closed-append fd calls rest h

AllClosed-append :
    (fds : List ℕ) (calls rest : List SystemCall)
    → AllClosed fds rest
    → AllClosed fds (calls ++ rest)
AllClosed-append [] calls rest h = tt
AllClosed-append (fd ∷ fds) calls rest h =
    (is_closed-append fd calls rest h.0, AllClosed-append fds calls rest h.1)

pub Settled-append :
    (fds more : List ℕ) (calls made : List SystemCall)
    → Settled fds calls
    → Settled more made
    → Settled (fds ++ more) (calls ++ made)
Settled-append fds more calls made f g rest h =
    ap left_open (append_assoc calls made rest)
    ∙ f (made ++ rest) (AllClosed-append fds made rest (All-parts _ fds more h).0)
    ∙ g rest (All-parts _ fds more h).1

-- The calls of an attempt leave open what it gives, and nothing where it fails.
abbrev pub given : Option ℕ → List ℕ
given none = []
given (some fd) = fd ∷ []

source_at-some :
    (i : ℕ) (l : List Text) → i < length l → (source : Text) × (source_at i l ≡ some source)
unfolding source_at
source_at-some i [] h = absurd (omega arith)
source_at-some zero (address ∷ addresses) h = (address, refl)
source_at-some (suc i) (address ∷ addresses) h = source_at-some i addresses (omega arith)

pub close_each-AllClosed : (fds : List ℕ) → AllClosed fds (close_each fds)
unfolding close_each
close_each-AllClosed [] = tt
close_each-AllClosed (fd ∷ fds) = (
  rw (==_refl fd) refl,
  AllClosed-append fds (closed fd ∷ []) (close_each fds) (close_each-AllClosed fds),
)

pub left_open-close_each : (fds : List ℕ) → left_open (close_each fds) ≡ []
unfolding close_each
left_open-close_each [] = refl
left_open-close_each (fd ∷ fds) = left_open-close_each fds

abbrev pub Gives : Attempt → Type 0
Gives (tried fd made) = Settled (given fd) made
Gives bad_host = Unit {0}
Gives undefined = ⊥

pub Attempt-cases :
    (a : Attempt)
    → (a ≡ undefined)
      ⊎ ((a ≡ bad_host)
          ⊎ (((fd : ℕ) × (made : List SystemCall) × (a ≡ tried (some fd) made))
              ⊎ ((made : List SystemCall) × (a ≡ tried none made))))
Attempt-cases undefined = inl refl
Attempt-cases bad_host = inr (inl refl)
Attempt-cases (tried (some fd) made) = inr (inr (inl (fd, made, refl)))
Attempt-cases (tried none made) = inr (inr (inr (made, refl)))

module _ (inet_pton : Text → Option ℕ) (getaddrinfo : Text → Lookup) (p : Plan) where
  connect_to-Settled :
      (t : Try)
      → let (fd, error, made) = connect_to inet_pton getaddrinfo p.host p.port t.socket t.connect in
        Settled (given fd) made
  unfolding connect_to give_up
  connect_to-Settled t rest h = ground arith

  connect_from-Gives :
      (source : Text) (remote : ℕ) (t : Try)
      → Gives (connect_from inet_pton getaddrinfo source remote p.port t)
  unfolding connect_from bind_source
  connect_from-Gives source remote t = ground arith

  attempt-from :
      (count : ℕ) (t : Try) (address : Text) (addresses : List Text) (remote : ℕ)
      → p.options.source_addresses ≡ address ∷ addresses
      → inet_pton p.host ≡ some remote
      → (source : Text) × (attempt inet_pton getaddrinfo p count t
          ≡ connect_from inet_pton getaddrinfo source remote p.port t)
  unfolding attempt
  attempt-from count t address addresses remote given_some good =
      let (source, e) =
        source_at-some (count % length (address ∷ addresses)) (address ∷ addresses) (omega arith) in
      (source, rw (attempt, given_some, good, e) refl)

  pub attempt-Gives : (count : ℕ) (t : Try) → Gives (attempt inet_pton getaddrinfo p count t)
  unfolding attempt
  attempt-Gives count t = elim (List-cases p.options.source_addresses) [
    | inl none_given ↦ rw (attempt, none_given) (connect_to-Settled t)
    | inr (address, addresses, some_given) ↦ elim (Option-cases (inet_pton p.host)) [
      | inl bad ↦ rw (attempt, some_given, bad) tt
      | inr (remote, good) ↦
          let (source, e) = attempt-from count t address addresses remote some_given good in
          rw e (connect_from-Gives source remote t)
    ]
  ]

  connect_from-bad_host :
      (source : Text) (remote : ℕ) (t : Try)
      → connect_from inet_pton getaddrinfo source remote p.port t ≢ bad_host
  unfolding connect_from bind_source
  connect_from-bad_host source remote t e = ground arith

  -- A host that is no numeric address is refused by the first attempt and by every other.
  pub attempt-bad_host :
      (count : ℕ) (t : Try)
      → attempt inet_pton getaddrinfo p count t ≡ bad_host
      → (k : ℕ) (u : Try) → attempt inet_pton getaddrinfo p k u ≡ bad_host
  unfolding attempt
  attempt-bad_host count t h k u = elim (List-cases p.options.source_addresses) [
    | inl none_given ↦ absurd (ground arith)
    | inr (address, addresses, some_given) ↦ elim (Option-cases (inet_pton p.host)) [
      | inl bad ↦ rw (attempt, some_given, bad) refl
      | inr (remote, good) ↦
          let (source, e) = attempt-from count t address addresses remote some_given good in
          absurd (connect_from-bad_host source remote t (sym e ∙ h))
    ]
  ]
