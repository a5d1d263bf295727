-- ===== src/Protocol/Parse/Grammar/Completeness.antt =====
-- Completeness of the grammar: `parse` of src/protocol/message_parser.cpp accepts each message that makes a request.
use market_networks.Base.{List, Text, [], ap, arith, some, text_eq, true, ℕ, ◌<◌, ◌∙◌, ◌∷◌, ◌≡◌}
use market_networks.Protocol.Integer.{parse_integer, parse_integer-decimal}
use market_networks.Protocol.Command.{
  buy, sell, cancel, subscribe, unsubscribe, ParsedCommand, is_valid_instrument_iff, verb_of,
}
use market_networks.Protocol.Parse.{
  check_price, check_quantity, check_order, check_cancel, check_subscription, check, parse_words,
}
use market_networks.Protocol.Parse.Grammar.{
  Request, log_in, place_buy, place_sell, withdraw, follow, unfollow, leave, IsListed, IsNumber,
  Denotes, command_of, started,
}

number-read : (t : Text) (n : ℕ) → IsNumber t n → parse_integer t ≡ some n
number-read t n h = parse_integer-decimal t h.0 ∙ ap some h.1

check_order_complete :
    (cmd : ParsedCommand) (i tq tp : Text) (q p : ℕ)
    → IsListed i
    → IsNumber tq q
    → 0 < q
    → IsNumber tp p
    → 0 < p
    → check_order cmd (i ∷ tq ∷ tp ∷ [])
      ≡ record cmd { instrument = i; quantity = q; price = p; valid = true }
unfolding check check_order
check_order_complete cmd i tq tp q p listed nq hq np hp =
    rw
      (
        (is_valid_instrument_iff i).1 listed,
        number-read tq q nq,
        check_quantity,
        number-read tp p np,
        check_price,
      )
      (ground arith)

check_cancel_complete :
    (cmd : ParsedCommand) (t : Text) (n : ℕ)
    → IsNumber t n
    → check_cancel cmd (t ∷ []) ≡ record cmd { order_id = n; valid = true }
unfolding check
check_cancel_complete cmd t n h = rw (number-read t n h, check_cancel)

check_subscription_complete :
    (cmd : ParsedCommand) (i : Text)
    → IsListed i
    → check_subscription cmd (i ∷ []) ≡ record cmd { instrument = i; valid = true }
unfolding check
check_subscription_complete cmd i h = rw ((is_valid_instrument_iff i).1 h)

pub parse_words_complete :
    (ws : List Text) (r : Request) → Denotes ws r → parse_words ws ≡ command_of ws r
unfolding parse_words verb_of text_eq
parse_words_complete ws (log_in name) (e, short) = rw e (ground arith)
parse_words_complete ws (place_buy i q p) (tq, tp, e, listed, nq, hq, np, hp) =
    rw e (check_order_complete (started buy (i ∷ tq ∷ tp ∷ [])) i tq tp q p listed nq hq np hp)
parse_words_complete ws (place_sell i q p) (tq, tp, e, listed, nq, hq, np, hp) =
    rw e (check_order_complete (started sell (i ∷ tq ∷ tp ∷ [])) i tq tp q p listed nq hq np hp)
parse_words_complete ws (withdraw n) (t, e, h) =
    rw e (check_cancel_complete (started cancel (t ∷ [])) t n h)
parse_words_complete ws (follow i) (e, listed) =
    rw e (check_subscription_complete (started subscribe (i ∷ [])) i listed)
parse_words_complete ws (unfollow i) (e, listed) =
    rw e (check_subscription_complete (started unsubscribe (i ∷ [])) i listed)
parse_words_complete ws leave e = rw e
