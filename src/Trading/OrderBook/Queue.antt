-- ===== src/Trading/OrderBook/Queue.antt =====
-- The data of src/trading/order_book.hpp, and the `std::list` operations on a queue of orders.
use market_networks.Base.{
  Bool, List, Option, Text, [], arith, false, if◌then◌else◌, keep, none, not, some, true, ℕ, ◌==◌,
  ◌↔◌, ◌∷◌, ◌≡◌,
}

pub data Side : Type 0 where
  buy sell : Side

unfoldable pub opposite : Side → Side
opposite buy = sell
opposite sell = buy

unfoldable pub same_side : Side → Side → Bool
same_side buy buy = true
same_side sell sell = true
same_side _ _ = false

pub same_side_iff : (s t : Side) → (same_side s t ≡ true) ↔ (s ≡ t)
unfolding same_side
same_side_iff s t = ground arith

pub record Order : Type 0 where
  pub id : ℕ
  pub owner_fd : ℕ
  pub instrument : Text
  pub side : Side
  pub quantity : ℕ
  pub price : ℕ

-- `queue` names one of the book's lists, `it` the node.
pub record Location : Type 0 where
  pub queue : Side × Text
  pub it : ℕ

unfoldable pub find_order : ℕ → List Order → Option Order
find_order id [] = none
find_order id (o ∷ os) = if o.id == id then some o else find_order id os

unfoldable pub erase_order : ℕ → List Order → List Order
erase_order id [] = []
erase_order id (o ∷ os) = if o.id == id then os else o ∷ erase_order id os

-- The orders of a queue at a price, and those at other prices, in the queue's order.
abbrev pub at_price : ℕ → List Order → List Order
at_price p os = keep (λ (o : Order). o.price == p) os

abbrev pub off_price : ℕ → List Order → List Order
off_price p os = keep (λ (o : Order). not (o.price == p)) os
