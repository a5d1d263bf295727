-- ===== src/Trading/OrderBook/Valid.antt =====
-- The well-formed books of src/trading/order_book.hpp: every resting order stands in the queue of its
-- instrument and side, in submission order and with unfilled quantity, and the index locates exactly
-- the resting orders.
pub mod Loop
pub mod Adding
use market_networks.Base.{
  Bool, List, Text, [], ap, arith, false, none, refl, some, suc, true, ℕ, ◌++◌, ◌+◌, ◌<◌, ◌==◌,
  ◌||◌, ◌↔◌, ◌∷◌, ◌≡◌, ◌≤◌,
}
use market_networks.Trading.OrderBook.Entries.{Index, find, erase, insert, find-erase}
use market_networks.Trading.OrderBook.Queue.{Side, Order, Location}
use market_networks.Trading.OrderBook.{OrderBook, queue_of, empty_book}

-- The orders of one queue: ids rise from at least `lo` and stay below `hi`.
abbrev pub Queued : Side → Text → ℕ → ℕ → List Order → Type 0
Queued s i lo hi [] = Unit {0}
Queued s i lo hi (o ∷ os) =
    (lo ≤ o.id)
    × (o.id < hi)
    × (o.side ≡ s)
    × (o.instrument ≡ i)
    × (0 < o.quantity)
    × Queued s i (suc o.id) hi os

unfoldable pub has_order : ℕ → List Order → Bool
has_order id [] = false
has_order id (o ∷ os) = o.id == id || has_order id os

abbrev pub location : ℕ → Side → Text → Location
location id s i = record { queue = (s, i); it = id }

-- Every entry of the index names its own order, and no id has two entries.
abbrev pub Listed : Index → Type 0
Listed [] = Unit {0}
Listed ((k, l) ∷ m) = (l.it ≡ k) × (find k m ≡ none) × Listed m

pub record IsValid (b : OrderBook) : Type 0 where
  pub queued : (s : Side) (i : Text) → Queued s i 0 b.next_order_id (queue_of b s i)
  pub indexed :
      (id : ℕ) (s : Side) (i : Text)
      → (has_order id (queue_of b s i) ≡ true) ↔ (find id b.index ≡ some (location id s i))
  pub listed : Listed b.index

pub Queued-weaken :
    (s : Side) (i : Text) (lo lo' hi hi' : ℕ) (os : List Order)
    → lo' ≤ lo
    → hi ≤ hi'
    → Queued s i lo hi os
    → Queued s i lo' hi' os
Queued-weaken s i lo lo' hi hi' [] h k v = tt
Queued-weaken s i lo lo' hi hi' (o ∷ os) h k v =
    ground (arith, Queued-weaken s i (suc o.id) (suc o.id) hi hi' os (omega arith) k v.5)

pub has_order-below :
    (s : Side) (i : Text) (id lo hi : ℕ) (os : List Order)
    → Queued s i lo hi os
    → id < lo
    → has_order id os ≡ false
unfolding has_order
has_order-below s i id lo hi [] v h = refl
has_order-below s i id lo hi (o ∷ os) v h =
    ground (arith, has_order-below s i id (suc o.id) hi os v.5)

pub Listed-erase : (k : ℕ) (m : Index) → Listed m → Listed (erase k m)
unfolding erase
Listed-erase k [] v = tt
Listed-erase k ((j, l) ∷ m) v = ground (arith, Listed-erase k m v.2, find-erase k j m)

pub Listed-insert : (k : ℕ) (l : Location) (m : Index) → l.it ≡ k → Listed m → Listed (insert k l m)
unfolding insert
Listed-insert k l m e v = ground (arith, Listed-erase k m v, find-erase k k m)

pub Queued-append :
    (s : Side) (i : Text) (lo hi : ℕ) (os : List Order) (o : Order)
    → lo ≤ hi
    → (o.id ≡ hi) × (o.side ≡ s) × (o.instrument ≡ i) × (0 < o.quantity)
    → Queued s i lo hi os
    → Queued s i lo (hi + 1) (os ++ o ∷ [])
Queued-append s i lo hi [] o h new v = ground arith
Queued-append s i lo hi (x ∷ xs) o h new v =
    ground (arith, Queued-append s i (suc x.id) hi xs o (omega arith) new v.5)

pub has_order-above :
    (s : Side) (i : Text) (id lo hi : ℕ) (os : List Order)
    → Queued s i lo hi os
    → hi ≤ id
    → has_order id os ≡ false
unfolding has_order
has_order-above s i id lo hi [] v h = refl
has_order-above s i id lo hi (o ∷ os) v h =
    ground (arith, has_order-above s i id (suc o.id) hi os v.5)

pub has_order-append :
    (id : ℕ) (os : List Order) (o : Order)
    → has_order id (os ++ o ∷ []) ≡ (has_order id os || o.id == id)
unfolding has_order
has_order-append id [] o = ground arith
has_order-append id (x ∷ xs) o = ground (arith, has_order-append id xs o)

pub location_inj :
    (id : ℕ) (s t : Side) (i j : Text) → location id s i ≡ location id t j → (s ≡ t) × (i ≡ j)
location_inj id s t i j e = (ap (λ l. l.queue.0) e, ap (λ l. l.queue.1) e)

-- The exchange starts with no order.
pub empty_book-IsValid : IsValid empty_book
unfolding queue_of has_order find
empty_book-IsValid = record {
  queued = λ s i. ground arith;
  indexed = λ id s i. (ground arith, ground arith);
  listed = tt;
}
