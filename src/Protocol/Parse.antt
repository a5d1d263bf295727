-- ===== src/Protocol/Parse.antt =====
-- `parse` of src/protocol/message_parser.cpp.
pub mod Grammar
pub mod RoundTrip
pub mod Typing
use market_networks.Base.{
  List, Text, [], codes, false, if◌then◌else◌, length, ltb, none, some, true, ◌++◌, ◌==◌, ◌∷◌,
}
use market_networks.Protocol.Words.{words}
use market_networks.Protocol.Integer.{parse_integer}
use market_networks.Protocol.Command.{
  CommandType, unknown, login, buy, sell, cancel, subscribe, unsubscribe, quit, ParsedCommand,
  default_command, is_valid_instrument, verb, verb_of,
}

unfoldable pub reject : ParsedCommand → Text → ParsedCommand
reject cmd reason = record cmd { valid = false; error = reason }

-- The end of `parse`: no case rejected the command.
unfoldable pub accept : ParsedCommand → ParsedCommand
accept cmd = record cmd { valid = true }

unfoldable pub check_login : ParsedCommand → List Text → ParsedCommand
check_login cmd (name ∷ []) =
    if ltb 64 (length name) then reject cmd (codes "Username too long") else accept cmd
check_login cmd _ = reject cmd (codes "Usage: LOGIN <username>")

-- `parse_integer` writes its result only when it succeeds.
check_price : ParsedCommand → Text → Text → ParsedCommand
check_price cmd instrument price = elim (parse_integer price) [
  | none ↦ reject cmd (codes "Price must be a positive integer")
  | some v ↦
      let priced : ParsedCommand = record cmd { price = v } in
      if v == 0
      then reject priced (codes "Price must be a positive integer")
      else accept (record priced { instrument = instrument })
]

check_quantity : ParsedCommand → Text → Text → Text → ParsedCommand
check_quantity cmd instrument quantity price = elim (parse_integer quantity) [
  | none ↦ reject cmd (codes "Quantity must be a positive integer")
  | some v ↦
      let counted : ParsedCommand = record cmd { quantity = v } in
      if v == 0
      then reject counted (codes "Quantity must be a positive integer")
      else check_price counted instrument price
]

unfoldable pub check_order : ParsedCommand → List Text → ParsedCommand
unfolding check_quantity check_price
check_order cmd (instrument ∷ quantity ∷ price ∷ []) =
    if is_valid_instrument instrument
    then check_quantity cmd instrument quantity price
    else reject cmd (codes "Unknown instrument " ++ instrument)
check_order cmd _ =
    reject cmd (codes "Usage: " ++ (verb cmd.type ++ codes " <instrument> <quantity> <price>"))

unfoldable pub check_cancel : ParsedCommand → List Text → ParsedCommand
check_cancel cmd (order_id ∷ []) = elim (parse_integer order_id) [
  | none ↦ reject cmd (codes "Order id must be a non-negative integer")
  | some v ↦ accept (record cmd { order_id = v })
]
check_cancel cmd _ = reject cmd (codes "Usage: CANCEL <order_id>")

unfoldable pub check_subscription : ParsedCommand → List Text → ParsedCommand
check_subscription cmd (instrument ∷ []) =
    if is_valid_instrument instrument
    then accept (record cmd { instrument = instrument })
    else reject cmd (codes "Unknown instrument " ++ instrument)
check_subscription cmd _ = reject cmd (codes "Usage: " ++ (verb cmd.type ++ codes " <instrument>"))

unfoldable pub check_quit : ParsedCommand → List Text → ParsedCommand
check_quit cmd [] = accept cmd
check_quit cmd _ = reject cmd (codes "Usage: QUIT")

-- The switch on the command's type.
unfoldable pub check : CommandType → ParsedCommand → ParsedCommand
unfolding reject accept check_login check_order check_cancel check_subscription check_quit
check login cmd = check_login cmd cmd.args
check buy cmd = check_order cmd cmd.args
check sell cmd = check_order cmd cmd.args
check cancel cmd = check_cancel cmd cmd.args
check subscribe cmd = check_subscription cmd cmd.args
check unsubscribe cmd = check_subscription cmd cmd.args
check quit cmd = check_quit cmd cmd.args
check unknown cmd = reject cmd (codes "Unknown command")

unfoldable pub parse_words : List Text → ParsedCommand
unfolding check
parse_words [] = reject default_command (codes "Empty message")
parse_words (token ∷ args) =
    check (verb_of token) (record default_command { type = verb_of token; args = args })

unfoldable pub parse : Text → ParsedCommand
unfolding parse_words
parse line = parse_words (words line)
