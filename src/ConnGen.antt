-- ===== src/ConnGen.antt =====
-- src/tools/conn_gen.cpp: the load generator's options. `arguments` is `argv` without the program's
-- name.
pub mod Splitting
pub mod Connecting
mod Examples
use market_networks.Base.{
  Bool, List, Option, Text, [], codes, false, if◌then◌else◌, length, none, some, suc, text_eq, true,
  zero, ℕ, ◌==◌, ◌>>=◌, ◌∷◌,
}
use market_networks.Arguments.{ℤ, pos, negsuc, port_of}

-- `find(',', start)` and the two `substr`: the part before the next comma, and what follows it.
unfoldable pub next_part : Text → Option (Text × Text)
next_part [] = none
next_part (c ∷ cs) =
    let later = next_part cs in
    if c == 44
    then some ([], cs)
    else elim later [ none ↦ none | some (part, rest) ↦ some (c ∷ part, rest) ]

-- The loop of `split_commas`, on fuel. `start` never passes the end of the text.
split_loop : ℕ → Text → List Text
unfolding next_part
split_loop zero text = []
split_loop (suc fuel) text = elim (next_part text) [
  | none ↦ text ∷ []
  | some (part, rest) ↦ part ∷ split_loop fuel rest
]

-- Each round shortens the rest.
unfoldable pub split_commas : Text → List Text
unfolding split_loop
split_commas text = split_loop (suc (length text)) text

pub record Options : Type 0 where
  pub report_every : ℕ
  pub hold : Bool
  pub hold_seconds : ℤ
  pub source_addresses : List Text

-- The default; -1 is "until interrupted".
abbrev pub default_options : Options
default_options = record {
  report_every = 5000;
  hold = true;
  hold_seconds = negsuc 0;
  source_addresses = [];
}

-- What `main` knows when it starts to connect.
pub record Plan : Type 0 where
  pub host : Text
  pub port : ℕ
  pub target : ℕ
  pub options : Options

unfoldable pub plain_option : Text → Options → Option Options
unfolding text_eq
plain_option arg o =
    if text_eq arg (codes "--hold")
    then some (record o { hold = true })
    else if text_eq arg (codes "--no-hold")
    then some (record o { hold = false })
    else none

-- `std::atol` is a parameter.
module _ (atol : Text → ℤ) where
  unfoldable pub positive_or : ℕ → Text → ℕ
  positive_or n text = elim (atol text) [ pos zero ↦ n | pos (suc m) ↦ suc m | negsuc m ↦ n ]

  unfoldable pub valued_option : Text → Text → Options → Option Options
  unfolding text_eq positive_or split_commas
  valued_option arg value o =
      if text_eq arg (codes "--report-every")
      then some (record o { report_every = positive_or 5000 value })
      else if text_eq arg (codes "--src-ips")
      then some (record o { source_addresses = split_commas value })
      else if text_eq arg (codes "--hold-seconds")
      then some (record o { hold = true; hold_seconds = atol value })
      else none

  -- The loop over the options; `none` is the exit status 2, here and below.
  unfoldable pub read_options : List Text → Options → Option Options
  unfolding plain_option valued_option
  read_options [] o = some o
  read_options (arg ∷ []) o = plain_option arg o
  read_options (arg ∷ value ∷ arguments) o = elim (valued_option arg value o) [
    | some o' ↦ read_options arguments o'
    | none ↦ elim (plain_option arg o) [
      | some o' ↦ read_options (value ∷ arguments) o'
      | none ↦ none
    ]
  ]

  module _ (atoi : Text → ℤ) where
    unfoldable pub plan_of : List Text → Option Plan
    unfolding port_of positive_or read_options
    plan_of (host ∷ port ∷ count ∷ arguments) = elim (port_of (atoi port)) [
      | none ↦ none
      | some n ↦ if positive_or 0 count == 0 then none else do
        o ← read_options arguments default_options
        some (record { host = host; port = n; target = positive_or 0 count; options = o })
    ]
    plan_of _ = none
