-- ===== src/Protocol/Parse/RoundTrip.antt =====
-- Messages written as a client writes them, read back by `parse` of
-- src/protocol/message_parser.cpp.
use market_networks.Base.{
  All, List, Text, [], ap, arith, codes, inl, inr, length, refl, ℕ, ◌<◌, ◌∷◌, ◌≡◌, ◌≤◌,
}
use market_networks.Protocol.Words.{is_space, words, IsWord, IsSolid, join_words, words-join_words}
use market_networks.Protocol.Integer.{
  is_digit, to_string, integer_limit, IsDigits, to_string_lem, to_string-IsInteger,
}
use market_networks.Protocol.Command.{
  CommandType, unknown, login, buy, sell, cancel, subscribe, unsubscribe, quit, verb,
}
use market_networks.Protocol.Parse.{parse}
use market_networks.Protocol.Parse.Grammar.Soundness.{parse_iff}
use market_networks.Protocol.Parse.Grammar.{
  Request, log_in, place_buy, place_sell, withdraw, follow, unfollow, leave, IsListed, Denotes,
  command_of,
}

-- The words of a request, numbers in their shortest decimal form.
abbrev pub spell : Request → List Text
spell (log_in name) = codes "LOGIN" ∷ name ∷ []
spell (place_buy i q p) = codes "BUY" ∷ i ∷ to_string q ∷ to_string p ∷ []
spell (place_sell i q p) = codes "SELL" ∷ i ∷ to_string q ∷ to_string p ∷ []
spell (withdraw n) = codes "CANCEL" ∷ to_string n ∷ []
spell (follow i) = codes "SUBSCRIBE" ∷ i ∷ []
spell (unfollow i) = codes "UNSUBSCRIBE" ∷ i ∷ []
spell leave = codes "QUIT" ∷ []

abbrev pub print : Request → Text
print r = join_words (spell r)

-- The requests that the protocol can express.
abbrev pub IsRequest : Request → Type 0
IsRequest (log_in name) = IsWord name × (length name ≤ 64)
IsRequest (place_buy i q p) =
    IsListed i × (0 < q) × (q < integer_limit) × (0 < p) × (p < integer_limit)
IsRequest (place_sell i q p) =
    IsListed i × (0 < q) × (q < integer_limit) × (0 < p) × (p < integer_limit)
IsRequest (withdraw n) = n < integer_limit
IsRequest (follow i) = IsListed i
IsRequest (unfollow i) = IsListed i
IsRequest leave = Unit {0}

IsDigits-IsSolid : (t : Text) → IsDigits t → IsSolid t
unfolding is_space is_digit
IsDigits-IsSolid [] h = tt
IsDigits-IsSolid (c ∷ cs) h = (ground arith, IsDigits-IsSolid cs h.1)

IsListed-IsWord : (i : Text) → IsListed i → IsWord i
unfolding is_space
IsListed-IsWord i (inl e) = rw e ((λ u. cc), ground arith)
IsListed-IsWord i (inr e) = rw e ((λ u. cc), ground arith)

verb-IsWord : (t : CommandType) → IsWord (verb t)
unfolding verb is_space
verb-IsWord unknown = ((λ e. cc), ground arith)
verb-IsWord _ = ((λ e. cc), ground arith)

to_string-IsWord : (n : ℕ) → n < integer_limit → IsWord (to_string n)
to_string-IsWord n h =
    let (pos, _, ds) = to_string-IsInteger n h in
    ((λ e. omega (arith, ap length e)), IsDigits-IsSolid (to_string n) ds)

spell-Denotes : (r : Request) → IsRequest r → Denotes (spell r) r
spell-Denotes (log_in name) h = (refl, h.1)
spell-Denotes (place_buy i q p) (listed, hq, q_fits, hp, p_fits) = (
  to_string q,
  to_string p,
  refl,
  listed,
  (to_string-IsInteger q q_fits, (to_string_lem q).1),
  hq,
  (to_string-IsInteger p p_fits, (to_string_lem p).1),
  hp,
)
spell-Denotes (place_sell i q p) (listed, hq, q_fits, hp, p_fits) = (
  to_string q,
  to_string p,
  refl,
  listed,
  (to_string-IsInteger q q_fits, (to_string_lem q).1),
  hq,
  (to_string-IsInteger p p_fits, (to_string_lem p).1),
  hp,
)
spell-Denotes (withdraw n) h = (to_string n, refl, (to_string-IsInteger n h, (to_string_lem n).1))
spell-Denotes (follow i) h = (refl, h)
spell-Denotes (unfollow i) h = (refl, h)
spell-Denotes leave h = refl

spell-IsWord : (r : Request) → IsRequest r → All IsWord (spell r)
unfolding verb
spell-IsWord (log_in name) h = (verb-IsWord login, (h.0, tt))
spell-IsWord (place_buy i q p) (listed, _, q_fits, _, p_fits) = (
  verb-IsWord buy,
  (IsListed-IsWord i listed, (to_string-IsWord q q_fits, (to_string-IsWord p p_fits, tt))),
)
spell-IsWord (place_sell i q p) (listed, _, q_fits, _, p_fits) = (
  verb-IsWord sell,
  (IsListed-IsWord i listed, (to_string-IsWord q q_fits, (to_string-IsWord p p_fits, tt))),
)
spell-IsWord (withdraw n) h = (verb-IsWord cancel, (to_string-IsWord n h, tt))
spell-IsWord (follow i) h = (verb-IsWord subscribe, (IsListed-IsWord i h, tt))
spell-IsWord (unfollow i) h = (verb-IsWord unsubscribe, (IsListed-IsWord i h, tt))
spell-IsWord leave h = (verb-IsWord quit, tt)

-- Every request in the protocol's range, written as words with single spaces between, is read back
-- by `parse` as a valid command that carries that request.
pub parse-print : (r : Request) → IsRequest r → parse (print r) ≡ command_of (spell r) r
parse-print r h =
    let read : words (print r) ≡ spell r = words-join_words (spell r) (spell-IsWord r h) in
    rw read at ((parse_iff (print r)).1 r (rw read (spell-Denotes r h)))
