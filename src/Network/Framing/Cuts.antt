-- ===== src/Network/Framing/Cuts.antt =====
-- The lines that the framing loops of src/exchange_server.cpp and src/network/tcp_client.cpp take off a
-- buffer, each with what follows it there.
use market_networks.Base.{
  List, Option-cases, Text, [], ap, inl, inr, length, none, refl, some, suc, zero, ℕ, ◌∷◌, ◌≡◌,
}
use market_networks.Network.Framing.{next_line, strip_return, take_lines, drain_lines}

abbrev pub cuts_from : ℕ → Text → List (Text × Text)
cuts_from zero t = []
cuts_from (suc fuel) t = elim (next_line t) [
  | none ↦ []
  | some (line, rest) ↦ (strip_return line, rest) ∷ cuts_from fuel rest
]

abbrev pub cuts : Text → List (Text × Text)
cuts t = cuts_from (suc (length t)) t

abbrev pub lines_of : List (Text × Text) → List Text
lines_of [] = []
lines_of ((line, rest) ∷ more) = line ∷ lines_of more

lines_of-cuts_from : (fuel : ℕ) (t : Text) → lines_of (cuts_from fuel t) ≡ (take_lines fuel t).0
unfolding take_lines
lines_of-cuts_from zero t = refl
lines_of-cuts_from (suc fuel) t = elim (Option-cases (next_line t)) [
  | inl e ↦ rw (e, take_lines, cuts_from) refl
  | inr ((line, rest), e) ↦
      rw (e, take_lines, cuts_from) (ap (◌∷◌ (strip_return line)) (lines_of-cuts_from fuel rest))
]

-- They are the messages of the buffer.
pub lines_of-cuts : (t : Text) → lines_of (cuts t) ≡ (drain_lines t).0
unfolding drain_lines
lines_of-cuts t = lines_of-cuts_from (suc (length t)) t
