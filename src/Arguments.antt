-- ===== src/Arguments.antt =====
-- Numbers on the command lines of the four programs. `std::atoi` and `std::atol` are parameters of the
-- models that use them.
use market_networks.Base.{
  Option, arith, if◌then◌else◌, ltb, none, some, ℕ, ◌<◌, ◌==◌, ◌||◌, ◌↔◌, ◌≡◌, ◌≤◌,
}

-- An `int` or a `long`; `negsuc n` is -(n + 1).
pub data ℤ : Type 0 where
  pos negsuc : ℕ → ℤ

-- The test of a port in all four programs: `port <= 0 || port > 65535`.
unfoldable pub port_of : ℤ → Option ℕ
port_of (pos n) = if n == 0 || ltb 65535 n then none else some n
port_of (negsuc n) = none

-- A port that is accepted fits 16 bits and is not 0.
pub port_of_iff : (z : ℤ) (n : ℕ) → (port_of z ≡ some n) ↔ ((z ≡ pos n) × (0 < n) × (n ≤ 65535))
unfolding port_of
port_of_iff (pos m) n = ground arith
port_of_iff (negsuc m) n = ground arith
