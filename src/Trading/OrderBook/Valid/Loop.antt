-- ===== src/Trading/OrderBook/Valid/Loop.antt =====
-- The matching loop of src/trading/order_book.cpp on a well-formed queue.
use market_networks.Base.{
  List, Text, [], arith, if◌then◌else◌, min, none, not, refl, suc, true, ℕ, ◌&&◌, ◌-◌, ◌∷◌, ◌≡◌,
}
use market_networks.Trading.OrderBook.Entries.{Index, find, erase, find-erase}
use market_networks.Trading.OrderBook.Queue.{Side, Order}
use market_networks.Trading.OrderBook.Matching.{Matched, match_orders}
use market_networks.Trading.OrderBook.Valid.{
  Queued, has_order, Listed, Queued-weaken, has_order-below, Listed-erase,
}

module _ (fd : ℕ) (i : Text) (s : Side) (p : ℕ) (t : Side) (hi : ℕ) where
  abbrev run : ℕ → List Order → Index → Matched
  run = match_orders fd i s p

  pub match_orders-Queued :
      (lo n : ℕ) (os : List Order) (index : Index)
      → Queued t i lo hi os
      → Queued t i lo hi (run n os index).resting
  unfolding match_orders
  match_orders-Queued lo n [] index v = tt
  match_orders-Queued lo n (o ∷ os) index v = ground (
    arith,
    match_orders-Queued (suc o.id) n os index v.5,
    match_orders-Queued (suc o.id) (n - min n o.quantity) os (erase o.id index) v.5,
    match_orders-Queued (suc o.id) (n - min n o.quantity) os index v.5,
    Queued-weaken t i (suc o.id) lo hi hi
        (run (n - min n o.quantity) os (erase o.id index)).resting,
  )

  pub match_orders-has_order :
      (lo n id : ℕ) (os : List Order) (index : Index)
      → Queued t i lo hi os
      → has_order id (run n os index).resting ≡ true
      → has_order id os ≡ true
  unfolding match_orders has_order
  match_orders-has_order lo n id [] index v h = h
  match_orders-has_order lo n id (o ∷ os) index v h = ground (
    arith,
    match_orders-has_order (suc o.id) n id os index v.5,
    match_orders-has_order (suc o.id) (n - min n o.quantity) id os (erase o.id index) v.5,
    match_orders-has_order (suc o.id) (n - min n o.quantity) id os index v.5,
  )

  -- The loop erases from the index exactly the orders that it takes out of the queue.
  pub match_orders-index :
      (lo n id : ℕ) (os : List Order) (index : Index)
      → Queued t i lo hi os
      → find id (run n os index).index ≡ (
          if has_order id os && not (has_order id (run n os index).resting)
          then none
          else find id index)
  unfolding match_orders has_order
  match_orders-index lo n id [] index v = refl
  match_orders-index lo n id (o ∷ os) index v = ground (
    arith,
    has_order-below t i id (suc o.id) hi os v.5,
    match_orders-index (suc o.id) n id os index v.5,
    match_orders-index (suc o.id) (n - min n o.quantity) id os (erase o.id index) v.5,
    match_orders-index (suc o.id) (n - min n o.quantity) id os index v.5,
    match_orders-has_order (suc o.id) (n - min n o.quantity) id os (erase o.id index) v.5,
    match_orders-has_order (suc o.id) n id os index v.5,
    match_orders-has_order (suc o.id) (n - min n o.quantity) id os index v.5,
    find-erase o.id id index,
  )

pub match_orders-Listed :
    (fd : ℕ) (i : Text) (s : Side) (p n : ℕ) (os : List Order) (index : Index)
    → Listed index
    → Listed (match_orders fd i s p n os index).index
unfolding match_orders
match_orders-Listed fd i s p n [] index v = v
match_orders-Listed fd i s p n (o ∷ os) index v = ground (
  arith,
  match_orders-Listed fd i s p n os index v,
  match_orders-Listed fd i s p (n - min n o.quantity) os (erase o.id index)
      (Listed-erase o.id index v),
  match_orders-Listed fd i s p (n - min n o.quantity) os index v,
)
