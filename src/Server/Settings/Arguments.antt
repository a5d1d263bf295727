-- ===== src/Server/Settings/Arguments.antt =====
-- What the arguments of src/exchange_server.cpp come to, described without the loop that reads them.
use market_networks.Base.{
  Bool, Bool-cases, List, Option, Option-cases, Text, [], ap, append-nil, append_assoc, arith, drop,
  false, if◌then◌else◌, inl, inr, keep, length, none, not, refl, some, sym, true, ℕ, ◌&&◌, ◌++◌,
  ◌<◌, ◌||◌, ◌∙◌, ◌∷◌, ◌≡◌, ◌≢◌, ◌≤◌,
}
use market_networks.Arguments.{ℤ, port_of, port_of_iff}
use market_networks.Network.EventLoop.{Backend, parse_backend}
use market_networks.Server.Settings.{
  Settings, exits, serves, Flags, Reading, stops, goes_on, is_verbose, is_help, is_backend,
  is_option, read_argument, read_arguments, env_backend, env_flag, env_bytes, place, outcome_of,
  settings_of,
}

-- An argument at which the program stops: a call for help, or an option that is not known.
abbrev pub is_stop : Text → Bool
is_stop arg = not (is_verbose arg || is_backend arg) && (is_help arg || is_option arg)

abbrev pub is_positional : Text → Bool
is_positional arg = not (is_verbose arg || is_backend arg || is_help arg || is_option arg)

-- The first argument at which the program stops.
abbrev pub first_stop : List Text → Option Text
first_stop [] = none
first_stop (arg ∷ arguments) =
    let rest = first_stop arguments in if is_stop arg then some arg else rest

abbrev pub any_verbose : List Text → Bool
any_verbose [] = false
any_verbose (arg ∷ arguments) = is_verbose arg || any_verbose arguments

-- The backend that the last `--backend=` names.
abbrev pub last_backend : Bool → List Text → Backend → Backend
last_backend have_kqueue [] b = b
last_backend have_kqueue (arg ∷ arguments) b = last_backend have_kqueue arguments (
    if is_backend arg && not (is_verbose arg)
    then (parse_backend have_kqueue (drop 10 arg)).0
    else b)

abbrev pub flags : Bool → Backend → List Text → Flags
flags v b p = record { verbose = v; backend = b; positional = p }

-- The flags after all the arguments, if none of them stops the program.
abbrev pub flags_after : Bool → List Text → Flags → Flags
flags_after have_kqueue arguments f =
    flags (f.verbose || any_verbose arguments) (last_backend have_kqueue arguments f.backend)
      (f.positional ++ keep is_positional arguments)

abbrev pub conclude : Option Text → Flags → Reading
conclude (some arg) f = stops (if is_help arg then 0 else 2)
conclude none f = goes_on f

or_true : (a : Bool) → (a || true) ≡ true
or_true true = refl
or_true false = refl

and_false : (a : Bool) → (a && false) ≡ false
and_false true = refl
and_false false = refl

or_false : (a : Bool) → (a || false) ≡ a
or_false true = refl
or_false false = refl

same-conclude :
    {o o' : Option Text} {f f' : Flags} → o ≡ o' → f ≡ f' → conclude o f ≡ conclude o' f'
same-conclude {o} {o'} {f} {f'} e g = ap (λ x. conclude x f) e ∙ ap (conclude o') g

same_flags :
    {v v' : Bool} {b b' : Backend} {p p' : List Text}
    → v ≡ v'
    → b ≡ b'
    → p ≡ p'
    → flags v b p ≡ flags v' b' p'
same_flags e f g = cc

module _ (have_kqueue : Bool) where
  -- The loop over the arguments comes to what the arguments say. It stops at the first argument that
  -- asks for help, with status 0, or is an option that is not known, with status 2. Where there is none,
  -- it is verbose if it was or some argument asks for it, the backend is the one that the last
  -- `--backend=` names, and the arguments that are no options are added to the positional ones in their
  -- order.
  pub read_arguments_lem :
      (arguments : List Text) (f : Flags)
      → read_arguments have_kqueue arguments f
        ≡ conclude (first_stop arguments) (flags_after have_kqueue arguments f)
  unfolding read_arguments read_argument
  read_arguments_lem [] f =
      ap goes_on (same_flags (sym (or_false f.verbose)) refl (sym (append-nil f.positional)))
  read_arguments_lem (arg ∷ arguments) f = elim (Bool-cases (is_verbose arg)) [
    | inl v ↦
        rw (read_arguments, read_argument, v)
          (read_arguments_lem arguments (record f { verbose = true })
            ∙ same-conclude refl
                (same_flags (sym (or_true f.verbose)) (rw (and_false (is_backend arg)) refl) refl))
    | inr v ↦ elim (Bool-cases (is_backend arg)) [
      | inl b ↦
          rw (read_arguments, read_argument, v, b)
            (read_arguments_lem arguments
              (record f { backend = (parse_backend have_kqueue (drop 10 arg)).0 }))
      | inr b ↦ elim (Bool-cases (is_help arg)) [
        | inl h ↦ rw (read_arguments, read_argument, v, b, h) (rw h refl)
        | inr h ↦ elim (Bool-cases (is_option arg)) [
          | inl o ↦ rw (read_arguments, read_argument, v, b, h, o) (rw h refl)
          | inr o ↦
              rw (read_arguments, read_argument, v, b, h, o)
                (read_arguments_lem arguments (record f { positional = f.positional ++ arg ∷ [] })
                  ∙ same-conclude refl (
                      same_flags refl refl
                        (append_assoc f.positional (arg ∷ []) (keep is_positional arguments))))
        ]
      ]
    ]
  ]

  exits-serves : {n : ℕ} {c : Settings} → exits n ≢ serves c
  exits-serves e = cc

  module _ (atoi : Text → ℤ) where
    place-serves :
        (positional : List Text) (s c : Settings)
        → place have_kqueue atoi positional s ≡ serves c
        → (0 < s.port) × (s.port ≤ 65535)
        → (0 < c.port)
          × (c.port ≤ 65535)
          × (length positional ≤ 2)
          × (c.verbose ≡ s.verbose)
          × (c.backend ≡ s.backend)
          × (c.send_buffer_bytes ≡ s.send_buffer_bytes)
    unfolding place
    place-serves [] s c e h = ground arith
    place-serves (host ∷ []) s c e h = ground arith
    place-serves (host ∷ port ∷ []) s c e h = elim (Option-cases (port_of (atoi port))) [
      | inl n ↦ absurd (ground arith)
      | inr (p, n) ↦ ground (arith, (port_of_iff (atoi port) p).0 n)
    ]
    place-serves (_ ∷ _ ∷ _ ∷ _) s c e h = absurd (ground arith)

    -- The server starts to serve only on arguments that it knows, at most two of them positional, and on
    -- a port from 1 to 65535. It is verbose if the environment or one of the arguments asks for it, and
    -- its backend is the one that the last `--backend=` names, the environment's where there is none.
    pub settings_of-serves :
        (verbose sndbuf backend : Option Text) (arguments : List Text) (c : Settings)
        → settings_of have_kqueue atoi verbose sndbuf backend arguments ≡ serves c
        → (first_stop arguments ≡ none)
          × (0 < c.port)
          × (c.port ≤ 65535)
          × (length (keep is_positional arguments) ≤ 2)
          × (c.verbose ≡ (env_flag verbose || any_verbose arguments))
          × (c.backend ≡ last_backend have_kqueue arguments (env_backend have_kqueue backend))
          × (c.send_buffer_bytes ≡ env_bytes have_kqueue atoi sndbuf)
    unfolding settings_of outcome_of
    settings_of-serves verbose sndbuf backend arguments c e =
        let start = flags (env_flag verbose) (env_backend have_kqueue backend) [] in
        let after = flags_after have_kqueue arguments start in
        let read : outcome_of have_kqueue atoi (env_bytes have_kqueue atoi sndbuf)
              (conclude (first_stop arguments) after)
            ≡ serves c =
          ap (outcome_of have_kqueue atoi (env_bytes have_kqueue atoi sndbuf))
            (sym (read_arguments_lem arguments start))
          ∙ e in
        elim (Option-cases (first_stop arguments)) [
          | inl n ↦
              let (a, b, d, v, k, w) =
                place-serves (keep is_positional arguments) _ c
                  (ap
                      (λ o.
                        outcome_of have_kqueue atoi (env_bytes have_kqueue atoi sndbuf)
                          (conclude o after))
                      (sym n)
                    ∙ read)
                  (omega arith, omega arith) in
              (n, a, b, d, v, k, w)
          | inr (arg, n) ↦ absurd (
              exits-serves (
                ap
                  (λ o.
                    outcome_of have_kqueue atoi (env_bytes have_kqueue atoi sndbuf)
                      (conclude o after))
                  (sym n)
                ∙ read))
        ]
