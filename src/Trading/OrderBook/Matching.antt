-- ===== src/Trading/OrderBook/Matching.antt =====
-- The matching loop of `OrderBook::add_order` in src/trading/order_book.cpp.
use market_networks.Base.{List, Text, [], if◌then◌else◌, min, not, ℕ, ◌-◌, ◌==◌, ◌∷◌}
use market_networks.Trading.OrderBook.Entries.{Index, erase}
use market_networks.Trading.OrderBook.Queue.{Side, buy, sell, Order}

pub record TradeExecution : Type 0 where
  pub buyer_fd : ℕ
  pub seller_fd : ℕ
  pub instrument : Text
  pub quantity : ℕ
  pub price : ℕ

-- What the loop leaves behind: the opposite queue, the executions, the quantity still to fill, and
-- the index.
pub record Matched : Type 0 where
  pub resting : List Order
  pub executions : List TradeExecution
  pub remaining : ℕ
  pub index : Index

unfoldable pub execute : ℕ → Text → Side → ℕ → ℕ → Order → TradeExecution
execute owner_fd instrument buy price traded o = record {
  buyer_fd = owner_fd;
  seller_fd = o.owner_fd;
  instrument = instrument;
  quantity = traded;
  price = price;
}
execute owner_fd instrument sell price traded o = record {
  buyer_fd = o.owner_fd;
  seller_fd = owner_fd;
  instrument = instrument;
  quantity = traded;
  price = price;
}

module _ (owner_fd : ℕ) (instrument : Text) (side : Side) (price : ℕ) where
  -- `it` stands at the first order of the list.
  unfoldable pub match_orders : ℕ → List Order → Index → Matched
  unfolding execute erase
  match_orders remaining [] index = record {
    resting = [];
    executions = [];
    remaining = remaining;
    index = index;
  }
  match_orders remaining (o ∷ os) index =
      let traded = min remaining o.quantity in
      let execution = execute owner_fd instrument side price traded o in
      let skipped = match_orders remaining os index in
      let filled = match_orders (remaining - traded) os (erase o.id index) in
      let partly = match_orders (remaining - traded) os index in
      if remaining == 0
      then record { resting = o ∷ os; executions = []; remaining = remaining; index = index }
      else if not (o.price == price)
      then record skipped { resting = o ∷ skipped.resting }
      else if o.quantity - traded == 0
      then record filled { executions = execution ∷ filled.executions }
      else record partly {
        resting = record o { quantity = o.quantity - traded } ∷ partly.resting;
        executions = execution ∷ partly.executions;
      }
