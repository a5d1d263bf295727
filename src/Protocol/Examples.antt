-- ===== src/Protocol/Examples.antt =====
-- The theorems about the protocol at concrete messages.
use market_networks.Base.{Text, [], arith, codes, false, inl, refl, text_eq, true, ◌<◌, ◌≡◌, ◌≢◌}
use market_networks.Protocol.Words.{words}
use market_networks.Protocol.Integer.{
  parse_integer, decimal, IsInteger, integer_limit, parse_integer_iff,
}
use market_networks.Protocol.Command.{verb, verb_of, is_valid_instrument}
use market_networks.Protocol.Parse.{parse}
use market_networks.Protocol.Parse.Grammar.{Request, place_buy, Denotes, command_of}
use market_networks.Protocol.Parse.Grammar.Soundness.{parse_iff}
use market_networks.Protocol.Parse.Typing.{IsTyped, parse-IsTyped}
use market_networks.Protocol.Parse.RoundTrip.{parse-print, print, spell}

abbrev line : Text
line = codes "BUY JNST 100 238"

parse-line : (parse line).valid ≡ true
unfolding parse words parse_integer is_valid_instrument verb_of text_eq
parse-line = refl

parse_bad_price : (parse (codes " SELL IMCT 5 0")).error ≡ codes "Price must be a positive integer"
unfolding parse words parse_integer is_valid_instrument verb_of text_eq
parse_bad_price = refl

parse_usage : (parse (codes "BUY JNST")).error ≡ codes "Usage: BUY <instrument> <quantity> <price>"
unfolding parse words parse_integer verb_of verb text_eq
parse_usage = refl

parse_iff_example : (r : Request) × Denotes (words line) r
parse_iff_example = (parse_iff line).0 parse-line

parse-IsTyped_example :
    ((parse line).valid ≡ true → IsTyped (parse line).type (parse line) × ((parse line).error ≡ []))
    × ((parse line).valid ≡ false → (parse line).error ≢ [])
parse-IsTyped_example = parse-IsTyped line

parse-print_example :
    parse (print (place_buy (codes "JNST") 100 238))
    ≡ command_of (spell (place_buy (codes "JNST") 100 238)) (place_buy (codes "JNST") 100 238)
parse-print_example =
    parse-print (place_buy (codes "JNST") 100 238)
      (inl refl, omega arith, omega arith, omega arith, omega arith)

parse_integer_iff_example :
    IsInteger (codes "007") × (decimal (codes "007") ≡ 7) × (7 < integer_limit)
unfolding parse_integer
parse_integer_iff_example = (parse_integer_iff (codes "007") 7).0 refl
