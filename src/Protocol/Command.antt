-- ===== src/Protocol/Command.antt =====
-- The command types, the verbs and the parsed command of src/protocol/message_parser.hpp and
-- message_parser.cpp.
use market_networks.Base.{
  Bool, List, Text, [], arith, codes, eq_of_text_eq, false, if◌then◌else◌, refl, text_eq,
  text_eq_iff, true, ℕ, ◌||◌, ◌↔◌, ◌∷◌, ◌≡◌, ◌≢◌, ◌⊎◌,
}

pub data CommandType : Type 0 where
  unknown login buy sell cancel subscribe unsubscribe quit : CommandType

pub record ParsedCommand : Type 0 where
  pub type : CommandType
  pub args : List Text
  pub valid : Bool
  pub error : Text
  pub instrument : Text
  pub quantity : ℕ
  pub price : ℕ
  pub order_id : ℕ

-- `ParsedCommand cmd;`
abbrev pub default_command : ParsedCommand
default_command = record {
  type = unknown;
  args = [];
  valid = false;
  error = [];
  instrument = [];
  quantity = 0;
  price = 0;
  order_id = 0;
}

-- kInstruments
abbrev pub instruments : List Text
instruments = codes "JNST" ∷ codes "IMCT" ∷ []

is_one_of : List Text → Text → Bool
is_one_of [] instrument = false
is_one_of (name ∷ names) instrument = text_eq instrument name || is_one_of names instrument

unfoldable pub is_valid_instrument : Text → Bool
unfolding is_one_of
is_valid_instrument instrument = is_one_of instruments instrument

unfoldable pub verb : CommandType → Text
verb login = codes "LOGIN"
verb buy = codes "BUY"
verb sell = codes "SELL"
verb cancel = codes "CANCEL"
verb subscribe = codes "SUBSCRIBE"
verb unsubscribe = codes "UNSUBSCRIBE"
verb quit = codes "QUIT"
verb unknown = codes "UNKNOWN"

unfoldable pub verb_of : Text → CommandType
verb_of token =
    if text_eq token (codes "LOGIN")
    then login
    else if text_eq token (codes "BUY")
    then buy
    else if text_eq token (codes "SELL")
    then sell
    else if text_eq token (codes "CANCEL")
    then cancel
    else if text_eq token (codes "SUBSCRIBE")
    then subscribe
    else if text_eq token (codes "UNSUBSCRIBE")
    then unsubscribe
    else if text_eq token (codes "QUIT")
    then quit
    else unknown

-- Every verb reads back as its command type.
pub verb_of-verb : (t : CommandType) → verb_of (verb t) ≡ t
unfolding verb_of verb text_eq
verb_of-verb login = refl
verb_of-verb buy = refl
verb_of-verb sell = refl
verb_of-verb cancel = refl
verb_of-verb subscribe = refl
verb_of-verb unsubscribe = refl
verb_of-verb quit = refl
verb_of-verb unknown = refl

-- A token that is read as a command is exactly that command's verb.
pub verb_of-eq : (token : Text) → verb_of token ≢ unknown → token ≡ verb (verb_of token)
unfolding verb_of verb
verb_of-eq token h = ground (
  arith,
  eq_of_text_eq token (codes "LOGIN"),
  eq_of_text_eq token (codes "BUY"),
  eq_of_text_eq token (codes "SELL"),
  eq_of_text_eq token (codes "CANCEL"),
  eq_of_text_eq token (codes "SUBSCRIBE"),
  eq_of_text_eq token (codes "UNSUBSCRIBE"),
  eq_of_text_eq token (codes "QUIT"),
)

-- The valid instruments are the two that the exchange lists.
pub is_valid_instrument_iff :
    (i : Text) → (is_valid_instrument i ≡ true) ↔ ((i ≡ codes "JNST") ⊎ (i ≡ codes "IMCT"))
unfolding is_valid_instrument
is_valid_instrument_iff i =
    ground (arith, text_eq_iff i (codes "JNST"), text_eq_iff i (codes "IMCT"))
