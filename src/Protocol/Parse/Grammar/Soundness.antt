-- ===== src/Protocol/Parse/Grammar/Soundness.antt =====
-- Soundness of the grammar: what `parse` of src/protocol/message_parser.cpp accepts makes a request.
use market_networks.Base.{
  List, Option-cases, Text, [], ap, arith, codes, inl, inr, refl, some, true, ℕ, ◌<◌, ◌∙◌, ◌∷◌, ◌≡◌,
  ◌≢◌,
}
use market_networks.Protocol.Words.{words}
use market_networks.Protocol.Integer.{parse_integer, parse_integer_iff}
use market_networks.Protocol.Command.{
  CommandType, unknown, login, buy, sell, cancel, subscribe, unsubscribe, quit, ParsedCommand,
  is_valid_instrument, is_valid_instrument_iff, verb, verb_of, verb_of-eq,
}
use market_networks.Protocol.Parse.{
  check_price, check_quantity, check_order, check_cancel, check_subscription, check, parse_words,
  parse,
}
use market_networks.Protocol.Parse.Grammar.{
  Request, log_in, place_buy, place_sell, withdraw, follow, unfollow, leave, IsListed, IsNumber,
  DenotesOrder, Denotes, command_of, started,
}
use market_networks.Protocol.Parse.Grammar.Completeness.{parse_words_complete}

IsNumber-of : (t : Text) (n : ℕ) → parse_integer t ≡ some n → IsNumber t n
IsNumber-of t n h = let (d, e, _) = (parse_integer_iff t n).0 h in (d, e)

abbrev Accepted : List Text → ParsedCommand → Type 0
Accepted ws cmd = (r : Request) × Denotes ws r × (cmd ≡ command_of ws r)

check_price_sound :
    (cmd : ParsedCommand) (i tp : Text)
    → (check_price cmd i tp).valid ≡ true
    → (p : ℕ) × IsNumber tp p × (0 < p)
unfolding check check_order
check_price_sound cmd i tp h = elim (Option-cases (parse_integer tp)) [
  | inl e ↦ absurd (ground arith)
  | inr (p, e) ↦ (p, IsNumber-of tp p e, ground arith)
]

check_quantity_sound :
    (cmd : ParsedCommand) (i tq tp : Text)
    → (check_quantity cmd i tq tp).valid ≡ true
    → (q : ℕ) × (p : ℕ) × IsNumber tq q × (0 < q) × IsNumber tp p × (0 < p)
unfolding check check_order
check_quantity_sound cmd i tq tp h = elim (Option-cases (parse_integer tq)) [
  | inl e ↦ absurd (ground arith)
  | inr (q, e) ↦
      let (p, np, hp) = check_price_sound (record cmd { quantity = q }) i tp (ground arith) in
      (q, p, IsNumber-of tq q e, ground arith, np, hp)
]

check_order_sound :
    (cmd : ParsedCommand) (name : Text) (args : List Text)
    → (check_order cmd args).valid ≡ true
    → (i : Text) × (q : ℕ) × (p : ℕ) × DenotesOrder name (name ∷ args) i q p
unfolding check check_order
check_order_sound cmd name (i ∷ tq ∷ tp ∷ []) h =
    let listed : is_valid_instrument i ≡ true = ground arith in
    let (q, p, nq, hq, np, hp) = check_quantity_sound cmd i tq tp (ground arith) in
    (i, q, p, (tq, tp, refl, (is_valid_instrument_iff i).0 listed, nq, hq, np, hp))
check_order_sound cmd name args h = cc

check_cancel_sound :
    (cmd : ParsedCommand) (args : List Text)
    → (check_cancel cmd args).valid ≡ true
    → (n : ℕ) × Denotes (codes "CANCEL" ∷ args) (withdraw n)
unfolding check
check_cancel_sound cmd (t ∷ []) h = elim (Option-cases (parse_integer t)) [
  | inl e ↦ absurd (ground arith)
  | inr (n, e) ↦ (n, (t, refl, IsNumber-of t n e))
]
check_cancel_sound cmd args h = cc

check_subscription_sound :
    (cmd : ParsedCommand) (name : Text) (args : List Text)
    → (check_subscription cmd args).valid ≡ true
    → (i : Text) × ((name ∷ args ≡ name ∷ i ∷ []) × IsListed i)
unfolding check
check_subscription_sound cmd name (i ∷ []) h =
    let listed : is_valid_instrument i ≡ true = ground arith in
    (i, (refl, (is_valid_instrument_iff i).0 listed))
check_subscription_sound cmd name args h = cc

check_sound :
    (t : CommandType) (args : List Text)
    → (check t (started t args)).valid ≡ true
    → (r : Request) × Denotes (verb t ∷ args) r
unfolding check verb
check_sound unknown args h = cc
check_sound login (name ∷ []) h = (log_in name, (refl, ground arith))
check_sound login args h = cc
check_sound buy args h =
    let (i, q, p, d) = check_order_sound (started buy args) (codes "BUY") args h in
    (place_buy i q p, d)
check_sound sell args h =
    let (i, q, p, d) = check_order_sound (started sell args) (codes "SELL") args h in
    (place_sell i q p, d)
check_sound cancel args h =
    let (n, d) = check_cancel_sound (started cancel args) args h in (withdraw n, d)
check_sound subscribe args h =
    let (i, d) = check_subscription_sound (started subscribe args) (codes "SUBSCRIBE") args h in
    (follow i, d)
check_sound unsubscribe args h =
    let (i, d) = check_subscription_sound (started unsubscribe args) (codes "UNSUBSCRIBE") args h in
    (unfollow i, d)
check_sound quit [] h = (leave, refl)
check_sound quit args h = cc

check-verb_of_sound :
    (t : CommandType) (token : Text) (args : List Text)
    → verb_of token ≡ t
    → (check t (started t args)).valid ≡ true
    → (r : Request) × Denotes (token ∷ args) r
unfolding check
check-verb_of_sound unknown token args e h = cc
check-verb_of_sound t token args e h =
    let known : verb_of token ≢ unknown = λ u. cc in
    let spelled : token ≡ verb t = verb_of-eq token known ∙ ap verb e in
    rw spelled (check_sound t args h)

parse_words_sound : (ws : List Text) → (parse_words ws).valid ≡ true → (r : Request) × Denotes ws r
unfolding parse_words
parse_words_sound [] h = cc
parse_words_sound (token ∷ args) h = check-verb_of_sound (verb_of token) token args refl h

-- `parse` accepts a line exactly when its words are in the grammar, and the parsed command then
-- carries the request that they denote: its type, its words and its numbers, with no error.
pub parse_iff :
    (line : Text)
    → ((parse line).valid ≡ true → (r : Request) × Denotes (words line) r)
      × ((r : Request) → Denotes (words line) r → parse line ≡ command_of (words line) r)
unfolding parse
parse_iff line = (parse_words_sound (words line), parse_words_complete (words line))
