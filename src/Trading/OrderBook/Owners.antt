-- ===== src/Trading/OrderBook/Owners.antt =====
-- Who owns the resting orders of src/trading/order_book.hpp.
use market_networks.Base.{
  All, All-append, Bool, List, Text, [], arith, false, if_cases, keep, min, not, text_eq, true, ℕ,
  ◌&&◌, ◌-◌, ◌==◌, ◌∷◌, ◌≡◌,
}
use market_networks.Trading.OrderBook.Entries.{Index, erase}
use market_networks.Trading.OrderBook.Queue.{
  Side, buy, sell, same_side, opposite, Order, Location, erase_order,
}
use market_networks.Trading.OrderBook.Matching.{match_orders}
use market_networks.Trading.OrderBook.Priority.{waiting, matching, add_order-queue}
use market_networks.Trading.OrderBook.Erasing.{erase_at-queue}
use market_networks.Trading.OrderBook.Departure.{foreign}
use market_networks.Trading.OrderBook.{OrderBook, queue_of, empty_book, add_order, erase_at}

-- Every order of a queue belongs to a client that `live` admits.
abbrev pub Owned : (ℕ → Bool) → List Order → Type 0
Owned live os = All (λ (o : Order). live o.owner_fd ≡ true) os

abbrev pub IsOwned : (ℕ → Bool) → OrderBook → Type 0
IsOwned live b = (s : Side) (i : Text) → Owned live (queue_of b s i)

-- One of these may stand for the other, as far as the owners of these orders go.
Owned-mono :
    (f g : ℕ → Bool) (os : List Order)
    → ((k : ℕ) → f k ≡ true → g k ≡ true)
    → Owned f os
    → Owned g os
Owned-mono f g [] h v = tt
Owned-mono f g (o ∷ os) h v = (h o.owner_fd v.0, Owned-mono f g os h v.1)

pub IsOwned-mono :
    (f g : ℕ → Bool) (b : OrderBook)
    → ((k : ℕ) → f k ≡ true → g k ≡ true)
    → IsOwned f b
    → IsOwned g b
IsOwned-mono f g b h v s i = Owned-mono f g (queue_of b s i) h (v s i)

-- The exchange starts with no order.
pub empty_book-IsOwned : (f : ℕ → Bool) → IsOwned f empty_book
unfolding queue_of
empty_book-IsOwned f buy i = tt
empty_book-IsOwned f sell i = tt

-- The matching loop takes orders out, and changes no owner.
match_orders-Owned :
    (f : ℕ → Bool) (fd : ℕ) (i : Text) (s : Side) (p n : ℕ) (os : List Order) (index : Index)
    → Owned f os
    → Owned f (match_orders fd i s p n os index).resting
unfolding match_orders
match_orders-Owned f fd i s p n [] index v = tt
match_orders-Owned f fd i s p n (o ∷ os) index v = ground (
  arith,
  match_orders-Owned f fd i s p n os index v.1,
  match_orders-Owned f fd i s p (n - min n o.quantity) os (erase o.id index) v.1,
  match_orders-Owned f fd i s p (n - min n o.quantity) os index v.1,
)

-- An order that a client of `f` submits leaves only orders of such clients.
pub add_order-IsOwned :
    (f : ℕ → Bool) (fd : ℕ) (i : Text) (s : Side) (q p : ℕ) (b : OrderBook)
    → f fd ≡ true
    → IsOwned f b
    → IsOwned f (add_order fd i s q p [] b).2
add_order-IsOwned f fd i s q p b own v t j = rw (add_order-queue fd i s q p b t j) (
    if_cases (Owned f) (not (text_eq j i)) (λ _. v t j)
      (λ _.
        if_cases (Owned f) (not (same_side s t))
          (λ _. match_orders-Owned f fd i s p q (waiting fd i s q p b) b.index (v (opposite s) i))
          (λ _.
            if_cases (Owned f) ((matching fd i s q p b).remaining == 0) (λ _. v s i)
              (λ _. All-append _ (queue_of b s i) _ (v s i) (own, tt)))))

erase_order-Owned :
    (f : ℕ → Bool) (id : ℕ) (os : List Order) → Owned f os → Owned f (erase_order id os)
unfolding erase_order
erase_order-Owned f id [] v = tt
erase_order-Owned f id (o ∷ os) v = ground (arith, erase_order-Owned f id os v.1)

pub erase_at-IsOwned :
    (f : ℕ → Bool) (id : ℕ) (l : Location) (b : OrderBook)
    → IsOwned f b
    → IsOwned f (erase_at id l b)
erase_at-IsOwned f id l b v t j = rw (erase_at-queue id l b t j) (
    if_cases (Owned f) (same_side l.queue.0 t && text_eq j l.queue.1)
      (λ _. erase_order-Owned f l.it (queue_of b l.queue.0 l.queue.1) (v l.queue.0 l.queue.1))
      (λ _. v t j))

-- When the orders of a client have been taken out, the client need not be one of `f` any more.
keep-Owned :
    (f g : ℕ → Bool) (fd : ℕ) (os : List Order)
    → ((k : ℕ) → f k ≡ true → (fd == k) ≡ false → g k ≡ true)
    → Owned f os
    → Owned g (keep (foreign fd) os)
keep-Owned f g fd [] h v = tt
keep-Owned f g fd (o ∷ os) h v = ground (arith, h o.owner_fd v.0, keep-Owned f g fd os h v.1)

pub keep-IsOwned :
    (f g : ℕ → Bool) (fd : ℕ) (b b' : OrderBook)
    → ((k : ℕ) → f k ≡ true → (fd == k) ≡ false → g k ≡ true)
    → ((s : Side) (i : Text) → queue_of b' s i ≡ keep (foreign fd) (queue_of b s i))
    → IsOwned f b
    → IsOwned g b'
keep-IsOwned f g fd b b' h e v s i = rw (e s i) (keep-Owned f g fd (queue_of b s i) h (v s i))
