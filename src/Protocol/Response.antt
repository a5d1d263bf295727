-- ===== src/Protocol/Response.antt =====
-- The response formatting of src/protocol/message_parser.cpp: each helper returns one complete,
-- newline-terminated message.
use market_networks.Base.{Text, codes, ℕ, ◌++◌}
use market_networks.Protocol.Integer.{to_string}

unfoldable pub join : Text → Text → ℕ → ℕ → Text
join head instrument quantity price =
    head
    ++ (codes " "
        ++ (instrument
            ++ (codes " "
                ++ (to_string quantity ++ (codes " " ++ (to_string price ++ codes "\n"))))))

-- `ok()`; the name is a constructor's elsewhere.
unfoldable pub ok_message : Text
ok_message = codes "OK\n"

unfoldable pub error_message : Text → Text
error_message reason = codes "ERROR " ++ (reason ++ codes "\n")

unfoldable pub order_accepted : ℕ → Text
order_accepted order_id = codes "ORDER_ACCEPTED " ++ (to_string order_id ++ codes "\n")

unfoldable pub order_cancelled : ℕ → Text
order_cancelled order_id = codes "ORDER_CANCELLED " ++ (to_string order_id ++ codes "\n")

unfoldable pub bought : Text → ℕ → ℕ → Text
unfolding join
bought instrument quantity price = join (codes "BOUGHT") instrument quantity price

unfoldable pub sold : Text → ℕ → ℕ → Text
unfolding join
sold instrument quantity price = join (codes "SOLD") instrument quantity price

unfoldable pub trade : Text → ℕ → ℕ → Text
unfolding join
trade instrument quantity price = join (codes "TRADE") instrument quantity price
