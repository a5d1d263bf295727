-- ===== src/ConnGen/Examples.antt =====
-- The theorems about the load generator at concrete inputs.
use market_networks.Base.{
  All, List, Option, Text, [], codes, false, length, none, refl, some, ℕ, ◌*◌, ◌∷◌, ◌≡◌, ◌≢◌, ◌≤◌,
}
use market_networks.Network.Sockets.{Lookup, unresolved, socket_fd, succeeded, failed, left_open}
use market_networks.ConnGen.{Plan, split_commas, default_options}
use market_networks.ConnGen.Splitting.{IsPart, join_commas, split_commas-join_commas}
use market_networks.ConnGen.Connecting.{Try, econnrefused, other_errno, generate}
use market_networks.ConnGen.Connecting.Closing.{generate-closes}

two_parts : split_commas (codes "10.0.0.1,,x") ≡ codes "10.0.0.1" ∷ [] ∷ codes "x" ∷ []
unfolding split_commas
two_parts = refl

split_commas-join_commas_example :
    All IsPart (split_commas (codes "1,2,"))
    × (join_commas (split_commas (codes "1,2,")) ≡ codes "1,2,")
    × (split_commas (join_commas (codes "a" ∷ [] ∷ [])) ≡ codes "a" ∷ [] ∷ [])
split_commas-join_commas_example =
    split_commas-join_commas (codes "1,2,") (codes "a") ([] ∷ []) ((refl, tt), (tt, tt))

abbrev two_connections : Plan
two_connections = record {
  host = codes "127.0.0.1";
  port = 5000;
  target = 2;
  options = record default_options { source_addresses = codes "127.0.0.2" ∷ [] };
}

abbrev loopback : Text → Option ℕ
loopback host = some 2130706433

abbrev no_names : Text → Lookup
no_names host = unresolved (codes "unknown")

abbrev works : ℕ → Try
works fd = record {
  socket = socket_fd fd;
  bind = succeeded;
  connect = succeeded;
  errno = other_errno;
  stopped = false;
}

-- A refusal, a retry, and a second connection.
abbrev attempts : List Try
attempts =
    record (works 4) { connect = failed (codes "refused"); errno = econnrefused }
    ∷ works 4
    ∷ works 5
    ∷ []

generated : (generate loopback no_names two_connections attempts).1.connections ≡ 4 ∷ 5 ∷ []
unfolding generate
generated = refl

generate-closes_example :
    let (status, g) = generate loopback no_names two_connections attempts in
    (length g.connections ≤ 2)
    × (status ≢ none → left_open g.calls ≡ [])
    × (201 * 2 ≤ length attempts → status ≢ none)
generate-closes_example = generate-closes loopback no_names two_connections attempts
