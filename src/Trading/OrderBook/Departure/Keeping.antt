-- ===== src/Trading/OrderBook/Departure/Keeping.antt =====
-- One round of the loop of `OrderBook::remove_orders_of` in src/trading/order_book.cpp, seen on one
-- queue: the orders that are not the client's, and those whose entry is still to come, stay.
use market_networks.Base.{
  Bool, List, Text, [], arith, false, keep, none, not, refl, some, suc, true, ℕ, ◌==◌, ◌||◌, ◌∷◌,
  ◌≡◌,
}
use market_networks.Trading.OrderBook.Entries.{Index, find}
use market_networks.Trading.OrderBook.Queue.{Side, Order, Location, find_order, erase_order}
use market_networks.Trading.OrderBook.Valid.{Queued, has_order, Queued-weaken, has_order-below}

abbrev pub is_listed : ℕ → Index → Bool
is_listed k es = elim (find k es) [ none ↦ false | some l ↦ true ]

abbrev pub foreign : ℕ → Order → Bool
foreign fd o = not (o.owner_fd == fd)

abbrev pub stays : ℕ → Index → Order → Bool
stays fd es o = foreign fd o || is_listed o.id es

pub find_order-keep :
    (p : Order → Bool) (id : ℕ) (os : List Order) (o : Order)
    → find_order id os ≡ some o
    → p o ≡ true
    → find_order id (keep p os) ≡ some o
unfolding find_order
find_order-keep p id [] o h e = h
find_order-keep p id (x ∷ xs) o h e = ground (arith, find_order-keep p id xs o)

pub keep-Queued :
    (p : Order → Bool) (s : Side) (i : Text) (lo hi : ℕ) (os : List Order)
    → Queued s i lo hi os
    → Queued s i lo hi (keep p os)
keep-Queued p s i lo hi [] v = tt
keep-Queued p s i lo hi (o ∷ os) v = ground (
  arith,
  keep-Queued p s i (suc o.id) hi os v.5,
  Queued-weaken s i (suc o.id) lo hi hi (keep p os) (omega arith) (omega arith),
)

pub has_order-keep :
    (p : Order → Bool) (s : Side) (i : Text) (k lo hi : ℕ) (os : List Order)
    → Queued s i lo hi os
    → has_order k (keep p os) ≡ (elim (find_order k os) [ none ↦ false | some o ↦ p o ])
unfolding has_order find_order
has_order-keep p s i k lo hi [] v = refl
has_order-keep p s i k lo hi (o ∷ os) v = ground (
  arith,
  has_order-keep p s i k (suc o.id) hi os v.5,
  has_order-below s i k (suc o.id) hi (keep p os) (keep-Queued p s i (suc o.id) hi os v.5),
)

module _ (fd k : ℕ) (l : Location) (es : Index) where
  pub keep-absent :
      (os : List Order)
      → has_order k os ≡ false
      → keep (stays fd ((k, l) ∷ es)) os ≡ keep (stays fd es) os
  unfolding has_order find
  keep-absent [] h = refl
  keep-absent (x ∷ xs) h = ground (arith, keep-absent xs)

  pub keep-foreign :
      (s : Side) (i : Text) (lo hi : ℕ) (os : List Order) (o : Order)
      → Queued s i lo hi os
      → find_order k os ≡ some o
      → foreign fd o ≡ true
      → keep (stays fd ((k, l) ∷ es)) os ≡ keep (stays fd es) os
  unfolding find_order find
  keep-foreign s i lo hi [] o v h f = refl
  keep-foreign s i lo hi (x ∷ xs) o v h f = ground (
    arith,
    keep-foreign s i (suc x.id) hi xs o v.5,
    keep-absent xs,
    has_order-below s i k (suc x.id) hi xs v.5,
  )

  pub erase_order-keep :
      (s : Side) (i : Text) (lo hi : ℕ) (os : List Order) (o : Order)
      → Queued s i lo hi os
      → find_order k os ≡ some o
      → foreign fd o ≡ false
      → find k es ≡ none
      → erase_order k (keep (stays fd ((k, l) ∷ es)) os) ≡ keep (stays fd es) os
  unfolding find_order find erase_order
  erase_order-keep s i lo hi [] o v h f e = refl
  erase_order-keep s i lo hi (x ∷ xs) o v h f e = ground (
    arith,
    erase_order-keep s i (suc x.id) hi xs o v.5,
    keep-absent xs,
    has_order-below s i k (suc x.id) hi xs v.5,
  )
