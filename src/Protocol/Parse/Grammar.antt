-- ===== src/Protocol/Parse/Grammar.antt =====
-- The messages of the protocol as an abstract syntax, and `parse` of
-- src/protocol/message_parser.cpp against it.
pub mod Completeness
pub mod Soundness
use market_networks.Base.{List, Text, [], codes, length, true, ℕ, ◌<◌, ◌∷◌, ◌≡◌, ◌≤◌, ◌⊎◌}
use market_networks.Protocol.Integer.{decimal, IsInteger}
use market_networks.Protocol.Command.{
  CommandType, login, buy, sell, cancel, subscribe, unsubscribe, quit, ParsedCommand,
  default_command,
}

-- What a client can ask.
pub data Request : Type 0 where
  log_in : Text → Request
  place_buy place_sell : Text → ℕ → ℕ → Request
  withdraw : ℕ → Request
  follow unfollow : Text → Request
  leave : Request

abbrev pub IsListed : Text → Type 0
IsListed i = (i ≡ codes "JNST") ⊎ (i ≡ codes "IMCT")

-- A word that is a number of the protocol, and the number.
abbrev pub IsNumber : Text → ℕ → Type 0
IsNumber t n = IsInteger t × (decimal t ≡ n)

abbrev pub DenotesOrder : Text → List Text → Text → ℕ → ℕ → Type 0
DenotesOrder name ws i q p =
    (tq : Text) × (tp : Text) × (ws ≡ name ∷ i ∷ tq ∷ tp ∷ [])
    × IsListed i
    × IsNumber tq q
    × (0 < q)
    × IsNumber tp p
    × (0 < p)

-- The words of a message that makes a request: the grammar of the protocol.
abbrev pub Denotes : List Text → Request → Type 0
Denotes ws (log_in name) = (ws ≡ codes "LOGIN" ∷ name ∷ []) × (length name ≤ 64)
Denotes ws (place_buy i q p) = DenotesOrder (codes "BUY") ws i q p
Denotes ws (place_sell i q p) = DenotesOrder (codes "SELL") ws i q p
Denotes ws (withdraw n) = (t : Text) × (ws ≡ codes "CANCEL" ∷ t ∷ []) × IsNumber t n
Denotes ws (follow i) = (ws ≡ codes "SUBSCRIBE" ∷ i ∷ []) × IsListed i
Denotes ws (unfollow i) = (ws ≡ codes "UNSUBSCRIBE" ∷ i ∷ []) × IsListed i
Denotes ws leave = ws ≡ codes "QUIT" ∷ []

abbrev pub arguments : List Text → List Text
arguments [] = []
arguments (w ∷ ws) = ws

-- The parsed command that carries a request, with the words that it was read from.
abbrev pub command_of : List Text → Request → ParsedCommand
command_of ws (log_in name) = record default_command {
  type = login;
  args = arguments ws;
  valid = true;
}
command_of ws (place_buy i q p) = record default_command {
  type = buy;
  args = arguments ws;
  valid = true;
  instrument = i;
  quantity = q;
  price = p;
}
command_of ws (place_sell i q p) = record default_command {
  type = sell;
  args = arguments ws;
  valid = true;
  instrument = i;
  quantity = q;
  price = p;
}
command_of ws (withdraw n) = record default_command {
  type = cancel;
  args = arguments ws;
  valid = true;
  order_id = n;
}
command_of ws (follow i) = record default_command {
  type = subscribe;
  args = arguments ws;
  valid = true;
  instrument = i;
}
command_of ws (unfollow i) = record default_command {
  type = unsubscribe;
  args = arguments ws;
  valid = true;
  instrument = i;
}
command_of ws leave = record default_command { type = quit; args = arguments ws; valid = true }

abbrev pub started : CommandType → List Text → ParsedCommand
started t args = record default_command { type = t; args = args }
