-- ===== src/Protocol/Parse/Typing.antt =====
-- What the type of a command that `parse` of src/protocol/message_parser.cpp gives says about its
-- fields.
use market_networks.Base.{
  All, List, Option-cases, Text, [], ap, codes, false, if_cases, inl, inr, length, ltb, refl, some,
  subst, sym, true, ℕ, ◌<◌, ◌==◌, ◌∙◌, ◌∷◌, ◌≡◌, ◌≢◌, ◌≤◌,
}
use market_networks.Protocol.Words.{IsWord, words, words-IsWord}
use market_networks.Protocol.Integer.{
  parse_integer, parse_integer_iff, parse_integer-decimal, integer_limit,
}
use market_networks.Protocol.Command.{
  CommandType, unknown, login, buy, sell, cancel, subscribe, unsubscribe, quit, ParsedCommand,
  default_command, is_valid_instrument, verb_of,
}
use market_networks.Protocol.Parse.{
  check_login, check_price, check_quantity, check_order, check_cancel, check_subscription,
  check_quit, check, parse_words, parse,
}
use market_networks.Protocol.Parse.Grammar.Soundness.{parse_iff}
use market_networks.Protocol.Parse.Grammar.{
  Request, log_in, place_buy, place_sell, withdraw, follow, unfollow, leave, IsListed, IsNumber,
  Denotes, DenotesOrder, command_of,
}

-- An order is for a listed instrument, with a positive quantity and price that fit.
abbrev pub IsOrder : ParsedCommand → Type 0
IsOrder cmd =
    IsListed cmd.instrument
    × (0 < cmd.quantity)
    × (cmd.quantity < integer_limit)
    × (0 < cmd.price)
    × (cmd.price < integer_limit)

-- What the handlers rely on, by type; no command has the type `unknown`.
abbrev pub IsTyped : CommandType → ParsedCommand → Type 0
IsTyped unknown cmd = cmd.valid ≡ false
IsTyped login cmd = (name : Text) × (cmd.args ≡ name ∷ []) × IsWord name × (length name ≤ 64)
IsTyped buy cmd = IsOrder cmd
IsTyped sell cmd = IsOrder cmd
IsTyped cancel cmd = cmd.order_id < integer_limit
IsTyped subscribe cmd = IsListed cmd.instrument
IsTyped unsubscribe cmd = IsListed cmd.instrument
IsTyped quit cmd = cmd.args ≡ []

IsNumber-lt : (t : Text) (n : ℕ) → IsNumber t n → n < integer_limit
IsNumber-lt t n (d, e) =
    let (_, _, h) = (parse_integer_iff t n).0 (parse_integer-decimal t d ∙ ap some e) in h

DenotesOrder-IsOrder :
    (name : Text) (ws : List Text) (i : Text) (q p : ℕ) (cmd : ParsedCommand)
    → DenotesOrder name ws i q p
    → IsOrder (record cmd { instrument = i; quantity = q; price = p })
DenotesOrder-IsOrder name ws i q p cmd (tq, tp, e, listed, nq, hq, np, hp) =
    (listed, hq, IsNumber-lt tq q nq, hp, IsNumber-lt tp p np)

-- A command that carries a request is typed.
command-IsTyped :
    (ws : List Text) (r : Request)
    → All IsWord ws
    → Denotes ws r
    → IsTyped (command_of ws r).type (command_of ws r)
command-IsTyped ws (log_in name) w (e, short) =
    let words_there = rw e at w in (name, rw e refl, words_there.1.0, short)
command-IsTyped ws (place_buy i q p) w d =
    DenotesOrder-IsOrder (codes "BUY") ws i q p default_command d
command-IsTyped ws (place_sell i q p) w d =
    DenotesOrder-IsOrder (codes "SELL") ws i q p default_command d
command-IsTyped ws (withdraw n) w (t, e, h) = IsNumber-lt t n h
command-IsTyped ws (follow i) w (e, listed) = listed
command-IsTyped ws (unfollow i) w (e, listed) = listed
command-IsTyped ws leave w e = rw e refl

command-error : (ws : List Text) (r : Request) → (command_of ws r).error ≡ []
command-error ws (log_in name) = refl
command-error ws (place_buy i q p) = refl
command-error ws (place_sell i q p) = refl
command-error ws (withdraw n) = refl
command-error ws (follow i) = refl
command-error ws (unfollow i) = refl
command-error ws leave = refl

-- A command that is not valid says why.
abbrev pub Explains : ParsedCommand → Type 0
Explains cmd = cmd.valid ≡ false → cmd.error ≢ []

price-Explains : (cmd : ParsedCommand) (i tp : Text) → Explains (check_price cmd i tp)
unfolding check check_order
price-Explains cmd i tp = elim (Option-cases (parse_integer tp)) [
  | inl e ↦ rw (check_price, e) (λ h u. cc)
  | inr (p, e) ↦ rw (check_price, e) (if_cases Explains (p == 0) (λ _ h u. cc) (λ _ h u. cc))
]

quantity-Explains : (cmd : ParsedCommand) (i tq tp : Text) → Explains (check_quantity cmd i tq tp)
unfolding check check_order
quantity-Explains cmd i tq tp = elim (Option-cases (parse_integer tq)) [
  | inl e ↦ rw (check_quantity, e) (λ h u. cc)
  | inr (q, e) ↦
      rw (check_quantity, e)
        (if_cases Explains (q == 0) (λ _ h u. cc)
          (λ _. price-Explains (record cmd { quantity = q }) i tp))
]

login-Explains : (cmd : ParsedCommand) (args : List Text) → Explains (check_login cmd args)
unfolding check
login-Explains cmd (name ∷ []) =
    if_cases Explains (ltb 64 (length name)) (λ _ h u. cc) (λ _ h u. cc)
login-Explains cmd _ = λ h u. cc

order-Explains : (cmd : ParsedCommand) (args : List Text) → Explains (check_order cmd args)
unfolding check
order-Explains cmd (i ∷ tq ∷ tp ∷ []) =
    if_cases Explains (is_valid_instrument i) (λ _. quantity-Explains cmd i tq tp) (λ _ h u. cc)
order-Explains cmd _ = λ h u. cc

cancel-Explains : (cmd : ParsedCommand) (args : List Text) → Explains (check_cancel cmd args)
unfolding check
cancel-Explains cmd (t ∷ []) = elim (Option-cases (parse_integer t)) [
  | inl e ↦ rw (check_cancel, e) (λ h u. cc)
  | inr (n, e) ↦ rw (check_cancel, e) (λ h u. cc)
]
cancel-Explains cmd _ = λ h u. cc

subscription-Explains :
    (cmd : ParsedCommand) (args : List Text) → Explains (check_subscription cmd args)
unfolding check
subscription-Explains cmd (i ∷ []) =
    if_cases Explains (is_valid_instrument i) (λ _ h u. cc) (λ _ h u. cc)
subscription-Explains cmd _ = λ h u. cc

quit-Explains : (cmd : ParsedCommand) (args : List Text) → Explains (check_quit cmd args)
unfolding check
quit-Explains cmd [] = λ h u. cc
quit-Explains cmd _ = λ h u. cc

check-Explains : (t : CommandType) (cmd : ParsedCommand) → Explains (check t cmd)
unfolding check
check-Explains unknown cmd = λ h e. cc
check-Explains login cmd = login-Explains cmd cmd.args
check-Explains buy cmd = order-Explains cmd cmd.args
check-Explains sell cmd = order-Explains cmd cmd.args
check-Explains cancel cmd = cancel-Explains cmd cmd.args
check-Explains subscribe cmd = subscription-Explains cmd cmd.args
check-Explains unsubscribe cmd = subscription-Explains cmd cmd.args
check-Explains quit cmd = quit-Explains cmd cmd.args

parse_words-Explains : (ws : List Text) → Explains (parse_words ws)
unfolding parse_words check
parse_words-Explains [] = λ h e. cc
parse_words-Explains (token ∷ args) =
    check-Explains (verb_of token) (record default_command { type = verb_of token; args = args })

-- Whatever line is parsed, the command is typed: if it is valid its fields are what its type promises,
-- for LOGIN one word of at most 64 bytes, for BUY and SELL a listed instrument with quantity and price
-- between 1 and 10^18, for CANCEL an id below that, for SUBSCRIBE and UNSUBSCRIBE a listed instrument,
-- for QUIT no word, there is no error text, and its type is never `unknown`; if it is not valid, an
-- error text says why.
pub parse-IsTyped :
    (line : Text)
    → ((parse line).valid ≡ true
        → IsTyped (parse line).type (parse line) × ((parse line).error ≡ []))
      × ((parse line).valid ≡ false → (parse line).error ≢ [])
unfolding parse
parse-IsTyped line = (
  λ h.
      let (r, d) = (parse_iff line).0 h in
      let e : parse line ≡ command_of (words line) r = (parse_iff line).1 r d in
      subst (λ (cmd : ParsedCommand). IsTyped cmd.type cmd × (cmd.error ≡ [])) (sym e)
        (command-IsTyped (words line) r (words-IsWord line) d, command-error (words line) r),
  parse_words-Explains (words line),
)
