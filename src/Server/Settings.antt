-- ===== src/Server/Settings.antt =====
-- `main` of src/exchange_server.cpp: what the server makes of its environment and its arguments.
-- `arguments` is `argv` without the program's name.
pub mod Arguments
mod Examples
use market_networks.Base.{
  Bool, List, Option, Text, [], codes, drop, false, if◌then◌else◌, none, not, some, text_eq, true,
  ℕ, ◌&&◌, ◌++◌, ◌==◌, ◌||◌, ◌∷◌,
}
use market_networks.Arguments.{ℤ, pos, negsuc, port_of}
use market_networks.Network.EventLoop.{Backend, default_backend, parse_backend}

pub record Settings : Type 0 where
  pub host : Text
  pub port : ℕ
  pub backend : Backend
  pub verbose : Bool
  pub send_buffer_bytes : ℕ

-- `exits` carries the exit status.
pub data Outcome : Type 0 where
  exits : ℕ → Outcome
  serves : Settings → Outcome

-- What the loop over the arguments changes.
pub record Flags : Type 0 where
  pub verbose : Bool
  pub backend : Backend
  pub positional : List Text

pub data Reading : Type 0 where
  stops : ℕ → Reading
  goes_on : Flags → Reading

unfoldable pub is_verbose : Text → Bool
unfolding text_eq
is_verbose arg = text_eq arg (codes "-v") || text_eq arg (codes "--verbose")

unfoldable pub is_help : Text → Bool
unfolding text_eq
is_help arg = text_eq arg (codes "-h") || text_eq arg (codes "--help")

-- `arg.rfind(prefix, 0) == 0`
unfoldable pub has_prefix : Text → Text → Bool
has_prefix [] arg = true
has_prefix (c ∷ prefix) [] = false
has_prefix (c ∷ prefix) (d ∷ arg) = c == d && has_prefix prefix arg

unfoldable pub is_backend : Text → Bool
unfolding has_prefix
is_backend arg = has_prefix (codes "--backend=") arg

-- `!arg.empty() && arg[0] == '-'`
unfoldable pub is_option : Text → Bool
is_option [] = false
is_option (c ∷ cs) = c == 45

-- A value that is set, not empty and not "0".
unfoldable pub env_flag : Option Text → Bool
unfolding text_eq
env_flag none = false
env_flag (some value) = not (text_eq value []) && not (text_eq value (codes "0"))

-- EXCHANGE_HAVE_KQUEUE is an argument.
module _ (have_kqueue : Bool) where
  -- The body of the loop.
  unfoldable pub read_argument : Text → Flags → Reading
  read_argument arg f =
      if is_verbose arg
      then goes_on (record f { verbose = true })
      else if is_backend arg
      then goes_on (record f { backend = (parse_backend have_kqueue (drop 10 arg)).0 })
      else if is_help arg
      then stops 0
      else if is_option arg
      then stops 2
      else goes_on (record f { positional = f.positional ++ arg ∷ [] })

  unfoldable pub read_arguments : List Text → Flags → Reading
  unfolding read_argument
  read_arguments [] f = goes_on f
  read_arguments (arg ∷ arguments) f = elim (read_argument arg f) [
    | stops status ↦ stops status
    | goes_on g ↦ read_arguments arguments g
  ]

  -- EXCHANGE_BACKEND
  unfoldable pub env_backend : Option Text → Backend
  unfolding default_backend parse_backend
  env_backend none = default_backend have_kqueue
  env_backend (some name) = (parse_backend have_kqueue name).0

  module _ (atoi : Text → ℤ) where
    -- EXCHANGE_SNDBUF
    unfoldable pub env_bytes : Option Text → ℕ
    env_bytes none = 0
    env_bytes (some value) = elim (atoi value) [ pos n ↦ n | negsuc n ↦ 0 ]

    -- The positional arguments.
    unfoldable pub place : List Text → Settings → Outcome
    unfolding port_of
    place [] s = serves s
    place (host ∷ []) s = serves (record s { host = host })
    place (host ∷ port ∷ []) s = elim (port_of (atoi port)) [
      | none ↦ exits 2
      | some n ↦ serves (record s { host = host; port = n })
    ]
    place (_ ∷ _ ∷ _ ∷ _) s = exits 2

    -- After the loop, with the number of bytes from the environment.
    unfoldable pub outcome_of : ℕ → Reading → Outcome
    unfolding place
    outcome_of bytes (stops status) = exits status
    outcome_of bytes (goes_on f) = place f.positional (record {
      host = codes "127.0.0.1";
      port = 5000;
      backend = f.backend;
      verbose = f.verbose;
      send_buffer_bytes = bytes;
    })

    -- `getenv` of EXCHANGE_VERBOSE, EXCHANGE_SNDBUF and EXCHANGE_BACKEND, then the arguments.
    unfoldable pub settings_of : Option Text → Option Text → Option Text → List Text → Outcome
    unfolding env_flag env_bytes env_backend read_arguments outcome_of
    settings_of verbose sndbuf backend arguments = outcome_of (env_bytes sndbuf) (
        read_arguments arguments
          (record { verbose = env_flag verbose; backend = env_backend backend; positional = [] }))
