-- ===== src/Server/Replies.antt =====
-- The replies of src/protocol/message_parser.cpp as the clients' framing sees them.
use market_networks.Base.{
  All-append, Bool, Text, [], ap, append_assoc, arith, codes, false, refl, sym, ℕ, ◌++◌, ◌==◌, ◌||◌,
  ◌∙◌, ◌∷◌, ◌≡◌,
}
use market_networks.Network.Framing.{IsLine, strip_return, drain_lines, drain_lines-line}
use market_networks.Protocol.Integer.{to_string, to_string_lem, is_digit, IsDigits}
use market_networks.Protocol.Response.{
  join, ok_message, error_message, order_accepted, order_cancelled, bought, sold, trade,
}

abbrev has_newline : Text → Bool
has_newline [] = false
has_newline (c ∷ cs) = c == 10 || has_newline cs

has_newline-IsLine : (t : Text) → has_newline t ≡ false → IsLine t
has_newline-IsLine [] h = tt
has_newline-IsLine (c ∷ cs) h = (ground arith, has_newline-IsLine cs (ground arith))

digits-IsLine : (t : Text) → IsDigits t → IsLine t
unfolding is_digit
digits-IsLine [] h = tt
digits-IsLine (c ∷ cs) (d, ds) = (ground arith, digits-IsLine cs ds)

number-IsLine : (n : ℕ) → IsLine (to_string n)
number-IsLine n = digits-IsLine (to_string n) ((to_string_lem n).0)

-- A line and its newline.
abbrev IsEnded : Text → Type 0
IsEnded t = (line : Text) × (t ≡ line ++ 10 ∷ []) × IsLine line

newline-IsEnded : IsEnded (codes "\n")
newline-IsEnded = ([], refl, tt)

prefix-IsEnded : (a t : Text) → IsLine a → IsEnded t → IsEnded (a ++ t)
prefix-IsEnded a t h (line, e, k) =
    (a ++ line, ap (λ x. a ++ x) e ∙ sym (append_assoc a line (10 ∷ [])), All-append _ a line h k)

literal-IsEnded : (a t : Text) → has_newline a ≡ false → IsEnded t → IsEnded (a ++ t)
literal-IsEnded a t h k = prefix-IsEnded a t (has_newline-IsLine a h) k

number-IsEnded : (n : ℕ) (t : Text) → IsEnded t → IsEnded (to_string n ++ t)
number-IsEnded n t k = prefix-IsEnded (to_string n) t (number-IsLine n) k

-- One message to the receiver, whatever follows it on the stream.
abbrev pub IsReply : Text → Type 0
IsReply t =
    (line : Text) × (t ≡ line ++ 10 ∷ [])
    × ((rest : Text)
        → drain_lines (t ++ rest)
          ≡ (strip_return line ∷ (drain_lines rest).0, (drain_lines rest).1))

IsEnded-IsReply : (t : Text) → IsEnded t → IsReply t
IsEnded-IsReply t (line, e, k) = (
  line,
  e,
  λ rest.
      ap (λ x. drain_lines (x ++ rest)) e
      ∙ ap drain_lines (append_assoc line (10 ∷ []) rest)
      ∙ drain_lines-line line rest k,
)

join-IsReply :
    (head i : Text) (q p : ℕ) → has_newline head ≡ false → IsLine i → IsReply (join head i q p)
unfolding join
join-IsReply head i q p h k = IsEnded-IsReply _ (
    literal-IsEnded head _ h (
      literal-IsEnded (codes " ") _ refl (
        prefix-IsEnded i _ k (
          literal-IsEnded (codes " ") _ refl (
            number-IsEnded q _
              (literal-IsEnded (codes " ") _ refl (number-IsEnded p _ newline-IsEnded)))))))

-- Every reply of the server, about an instrument whose name holds no newline or for a reason that
-- holds none, reaches the client as exactly one message, whatever follows it on the stream.
pub replies-IsReply :
    (i reason : Text) (q p id : ℕ)
    → IsLine i
    → IsLine reason
    → IsReply ok_message
      × IsReply (error_message reason)
      × IsReply (order_accepted id)
      × IsReply (order_cancelled id)
      × IsReply (bought i q p)
      × IsReply (sold i q p)
      × IsReply (trade i q p)
unfolding ok_message error_message order_accepted order_cancelled bought sold trade
replies-IsReply i reason q p id k l = (
  IsEnded-IsReply _ (literal-IsEnded (codes "OK") (codes "\n") refl newline-IsEnded),
  IsEnded-IsReply _
      (literal-IsEnded (codes "ERROR ") _ refl (prefix-IsEnded reason _ l newline-IsEnded)),
  IsEnded-IsReply _
      (literal-IsEnded (codes "ORDER_ACCEPTED ") _ refl (number-IsEnded id _ newline-IsEnded)),
  IsEnded-IsReply _
      (literal-IsEnded (codes "ORDER_CANCELLED ") _ refl (number-IsEnded id _ newline-IsEnded)),
  join-IsReply (codes "BOUGHT") i q p refl k,
  join-IsReply (codes "SOLD") i q p refl k,
  join-IsReply (codes "TRADE") i q p refl k,
)
