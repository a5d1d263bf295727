-- ===== src/Client/Programs/Requests.antt =====
-- What src/trader_client.cpp and src/market_data_client.cpp send right after connecting, and what the
-- server makes of it.
use market_networks.Base.{
  All, Bool-cases, List, Option-cases, Text, [], ap, append-nil, append_assoc, arith, codes, drop,
  false, inl, inr, refl, some, subst, sym, ℕ, ◌++◌, ◌<◌, ◌==◌, ◌∙◌, ◌∷◌, ◌≡◌, ◌≤◌, ◌⊎◌,
}
use market_networks.Network.Framing.{IsLine, strip_return, drain_lines, drain_lines-line}
use market_networks.Network.TcpClient.{delivered}
use market_networks.Protocol.Words.{is_space, IsSolid}
use market_networks.Protocol.Command.{is_valid_instrument, is_valid_instrument_iff}
use market_networks.Protocol.Parse.{parse}
use market_networks.Protocol.Parse.Grammar.{follow, command_of, IsListed}
use market_networks.Protocol.Parse.RoundTrip.{spell, parse-print}
use market_networks.Arguments.{ℤ, port_of, port_of_iff}
use market_networks.Client.Shell.{Shell, Flow, going, send, send_initial}
use market_networks.Client.Shell.Forwarding.{as_text, send-prefix, send-fd, Sent-cases}
use market_networks.Client.Programs.{
  ClientShellOptions, default_options, set_host, set_login, set_port, set_subscriptions,
  trader_options, market_data_options,
}

-- Neither a newline nor a carriage return.
abbrev IsPlain : Text → Type 0
IsPlain t = All (λ c. ((c == 10) ≡ false) × ((c == 13) ≡ false)) t

IsPlain-IsLine : (t : Text) → IsPlain t → IsLine t
IsPlain-IsLine [] h = tt
IsPlain-IsLine (c ∷ cs) h = (h.0.0, IsPlain-IsLine cs h.1)

IsPlain-strip_return : (t : Text) → IsPlain t → strip_return t ≡ t
unfolding strip_return
IsPlain-strip_return [] h = refl
IsPlain-strip_return (c ∷ []) h = ground arith
IsPlain-strip_return (c ∷ d ∷ cs) h = ap (◌∷◌ c) (IsPlain-strip_return (d ∷ cs) h.1)

IsSolid-IsPlain : (t : Text) → IsSolid t → IsPlain t
unfolding is_space
IsSolid-IsPlain [] h = tt
IsSolid-IsPlain (c ∷ cs) h = ((ground arith, ground arith), IsSolid-IsPlain cs h.1)

-- The receiver's framing gives back the lines that were sent.
drain_lines-as_text :
    (lines : List Text) → All IsPlain lines → drain_lines (as_text lines) ≡ (lines, [])
drain_lines-as_text [] h = unfold drain_lines in refl
drain_lines-as_text (l ∷ ls) h =
    ap drain_lines (append_assoc l (10 ∷ []) (as_text ls))
    ∙ drain_lines-line l (as_text ls) (IsPlain-IsLine l h.0)
    ∙ rw (IsPlain-strip_return l h.0, drain_lines-as_text ls h.1) refl

-- The initial commands are sent whole, unless the program ends or is kept waiting.
send_initial-wire :
    (commands : List Text) (fd : ℕ) (s : Shell)
    → s.client.fd ≡ some fd
    → (send_initial commands s).0 ≡ going
    → (send_initial commands s).1.wire ≡ s.wire ++ as_text commands
unfolding send_initial
send_initial-wire [] fd s e g = sym (append-nil s.wire)
send_initial-wire (c ∷ cs) fd s e g =
    let t : Shell = (send (c ++ 10 ∷ []) s).1 in
    let step : (send (c ++ 10 ∷ []) s).0 ≡ delivered → send_initial (c ∷ cs) s ≡ send_initial cs t =
      λ d. rw (send_initial, d) refl in
    elim (Sent-cases (send (c ++ 10 ∷ []) s).0) [
      | inl d ↦
          let (left, whole, iff) = send-prefix (c ++ 10 ∷ []) fd s e in
          let all : t.wire ≡ s.wire ++ (c ++ 10 ∷ []) =
            sym (append-nil t.wire) ∙ ap (λ x. t.wire ++ x) (sym (iff.0 d)) ∙ whole in
          let later : (send_initial cs t).0 ≡ going =
            ap (λ (x : Flow × Shell). x.0) (sym (step d)) ∙ g in
          ap (λ (x : Flow × Shell). x.1.wire) (step d)
          ∙ send_initial-wire cs fd t (send-fd (c ++ 10 ∷ []) s ∙ e) later
          ∙ ap (λ x. x ++ as_text cs) all
          ∙ append_assoc s.wire (c ++ 10 ∷ []) (as_text cs)
      | inr (inl b) ↦ absurd (ground arith)
      | inr (inr f) ↦ absurd (ground arith)
    ]

-- Every line is a request that the server accepts, to follow the instrument at the same place.
abbrev pub Follows : List Text → List Text → Type 0
Follows [] [] = Unit
Follows (line ∷ lines) (name ∷ names) =
    (IsListed name × (parse line ≡ command_of (spell (follow name)) (follow name)))
    × Follows lines names
Follows _ _ = ⊥

subscriptions : List Text → List Text
subscriptions [] = []
subscriptions (name ∷ names) = (codes "SUBSCRIBE " ++ name) ∷ subscriptions names

subscriptions-Follows :
    (names : List Text) → All IsListed names → Follows (subscriptions names) names
unfolding subscriptions
subscriptions-Follows [] h = tt
subscriptions-Follows (name ∷ names) h =
    ((h.0, parse-print (follow name) h.0), subscriptions-Follows names h.1)

subscriptions-IsPlain : (names : List Text) → All IsListed names → All IsPlain (subscriptions names)
unfolding subscriptions
subscriptions-IsPlain [] h = tt
subscriptions-IsPlain (name ∷ names) (inl e, h) =
    (rw e (ground arith), subscriptions-IsPlain names h)
subscriptions-IsPlain (name ∷ names) (inr e, h) =
    (rw e (ground arith), subscriptions-IsPlain names h)

set_subscriptions-some :
    (names : List Text) (o o' : ClientShellOptions)
    → set_subscriptions names o ≡ some o'
    → All IsListed names
      × (o'.initial_commands ≡ o.initial_commands ++ subscriptions names)
      × (o'.port ≡ o.port)
unfolding set_subscriptions subscriptions
set_subscriptions-some [] o o' h = (tt, ground (arith, append-nil o.initial_commands), ground arith)
set_subscriptions-some (name ∷ names) o o' h = elim (Bool-cases (is_valid_instrument name)) [
  | inl v ↦
      let next : ClientShellOptions = record o {
        initial_commands = o.initial_commands ++ (codes "SUBSCRIBE " ++ name) ∷ [];
      } in
      let (listed, commands, port) = set_subscriptions-some names next o' (ground arith) in
      (
        ((is_valid_instrument_iff name).0 v, listed),
        commands
            ∙ append_assoc o.initial_commands ((codes "SUBSCRIBE " ++ name) ∷ [])
                (subscriptions names),
        port,
      )
  | inr v ↦ absurd (ground arith)
]

abbrev IsPort : ℕ → Type 0
IsPort n = (0 < n) × (n ≤ 65535)

set_host-port : (arguments : List Text) → IsPort (set_host arguments default_options).port
unfolding set_host
set_host-port [] = ground arith
set_host-port (host ∷ arguments) = ground arith

set_host-commands :
    (arguments : List Text) → (set_host arguments default_options).initial_commands ≡ []
unfolding set_host
set_host-commands [] = refl
set_host-commands (host ∷ arguments) = refl

set_login-port :
    (arguments : List Text) (o : ClientShellOptions) → o.port ≡ (set_login arguments o).port
unfolding set_login
set_login-port [] o = refl
set_login-port (host ∷ []) o = refl
set_login-port (host ∷ port ∷ []) o = refl
set_login-port (host ∷ port ∷ name ∷ arguments) o = refl

module _ (atoi : Text → ℤ) where
  set_port-some :
      (arguments : List Text) (o o' : ClientShellOptions)
      → IsPort o.port
      → set_port atoi arguments o ≡ some o'
      → IsPort o'.port × (o'.initial_commands ≡ o.initial_commands)
  unfolding set_port
  set_port-some [] o o' h e = ground arith
  set_port-some (host ∷ []) o o' h e = ground arith
  set_port-some (host ∷ port ∷ arguments) o o' h e = elim (Option-cases (port_of (atoi port))) [
    | inl n ↦ absurd (ground arith)
    | inr (n, q) ↦ ground (arith, (port_of_iff (atoi port) n).0 q)
  ]

  -- Neither client program ever tries to connect to a port outside 1 to 65535, whatever `atoi` makes of
  -- the text.
  pub options-port :
      (arguments : List Text) (o : ClientShellOptions)
      → (trader_options atoi arguments ≡ some o) ⊎ (market_data_options atoi arguments ≡ some o)
      → (0 < o.port) × (o.port ≤ 65535)
  unfolding trader_options market_data_options set_host set_login
  options-port arguments o (inl e) =
      elim (Option-cases (set_port atoi arguments (set_host arguments default_options))) [
        | inl n ↦ absurd (ground arith)
        | inr (p, n) ↦
            let h =
              (set_port-some arguments (set_host arguments default_options) p
                (set_host-port arguments) n).0 in
            subst IsPort (set_login-port arguments p ∙ ground arith) h
      ]
  options-port arguments o (inr e) =
      elim (Option-cases (set_port atoi arguments (set_host arguments default_options))) [
        | inl n ↦ absurd (ground arith)
        | inr (p, n) ↦
            let h =
              (set_port-some arguments (set_host arguments default_options) p
                (set_host-port arguments) n).0 in
            let (_, _, same) = set_subscriptions-some (drop 2 arguments) p o (ground arith) in
            subst IsPort (sym same) h
      ]

  -- What the market data client sends on connecting arrives as it should. If its arguments are accepted
  -- and the initial commands are sent whole, the server's framing finds as many lines as instruments
  -- were named and nothing else, and parses each as a valid request to follow that instrument, one that
  -- the exchange lists. The condition: the client is connected and has sent nothing.
  pub send_initial-Follows :
      (arguments : List Text) (o : ClientShellOptions) (fd : ℕ) (s : Shell)
      → market_data_options atoi arguments ≡ some o
      → s.client.fd ≡ some fd
      → s.wire ≡ []
      → (send_initial o.initial_commands s).0 ≡ going
      → let (lines, left) = drain_lines (send_initial o.initial_commands s).1.wire in
        (left ≡ []) × Follows lines (drop 2 arguments)
  unfolding market_data_options
  send_initial-Follows arguments o fd s e f w g =
      elim (Option-cases (set_port atoi arguments (set_host arguments default_options))) [
        | inl n ↦ absurd (ground arith)
        | inr (p, n) ↦
            let (_, none_yet) =
              set_port-some arguments (set_host arguments default_options) p
                (set_host-port arguments) n in
            let (listed, commands, _) =
              set_subscriptions-some (drop 2 arguments) p o (ground arith) in
            let asked : o.initial_commands ≡ subscriptions (drop 2 arguments) =
              commands
              ∙ ap (λ x. x ++ subscriptions (drop 2 arguments))
                  (none_yet ∙ set_host-commands arguments) in
            let cut : drain_lines (send_initial o.initial_commands s).1.wire
                ≡ (subscriptions (drop 2 arguments), []) =
              ap drain_lines (
                send_initial-wire o.initial_commands fd s f g
                ∙ ap (λ x. x ++ as_text o.initial_commands) w
                ∙ ap as_text asked)
              ∙ drain_lines-as_text (subscriptions (drop 2 arguments))
                  (subscriptions-IsPlain (drop 2 arguments) listed) in
            (
              ap (λ (x : List Text × Text). x.1) cut,
              subst (λ x. Follows x (drop 2 arguments))
                  (ap (λ (x : List Text × Text). x.0) (sym cut))
                  (subscriptions-Follows (drop 2 arguments) listed),
            )
      ]
