-- ===== src/Trading/OrderBook/Lots.antt =====
-- Price and time priority of the matching loop in src/trading/order_book.cpp. A queue of orders is
-- also a queue of single lots: an order of quantity q is q lots, each labelled with something of the
-- order's, such as its owner or its id.
use market_networks.Base.{
  All, List, Text, [], ap, arith, drop, drop-nil, if◌then◌else◌, min, refl, suc, sym, take,
  take-nil, zero, ℕ, ◌++◌, ◌+◌, ◌-◌, ◌==◌, ◌∷◌, ◌≡◌, ◌≢◌,
}
use market_networks.Trading.OrderBook.Entries.{Index, erase}
use market_networks.Trading.OrderBook.Queue.{Side, buy, sell, Order, at_price, off_price}
use market_networks.Trading.OrderBook.Matching.{TradeExecution, Matched, match_orders}

abbrev pub replicate {ℓ} : {A : Type ℓ} → ℕ → A → List A
replicate zero a = []
replicate (suc n) a = a ∷ replicate n a

abbrev pub lots {ℓ} : {A : Type ℓ} → (Order → A) → List Order → List A
lots f [] = []
lots f (o ∷ os) = replicate o.quantity (f o) ++ lots f os

-- The party to an execution that had been waiting in the book.
abbrev pub resting_fd : Side → TradeExecution → ℕ
resting_fd buy e = e.seller_fd
resting_fd sell e = e.buyer_fd

abbrev pub incoming_fd : Side → TradeExecution → ℕ
incoming_fd buy e = e.buyer_fd
incoming_fd sell e = e.seller_fd

abbrev pub traded_lots {ℓ} : {A : Type ℓ} → (TradeExecution → A) → List TradeExecution → List A
traded_lots f [] = []
traded_lots f (e ∷ es) = replicate e.quantity (f e) ++ traded_lots f es

abbrev pub traded_quantity : List TradeExecution → ℕ
traded_quantity [] = 0
traded_quantity (e ∷ es) = e.quantity + traded_quantity es

-- The quantity on offer at a price.
abbrev pub volume : ℕ → List Order → ℕ
volume p [] = 0
volume p (o ∷ os) = (if o.price == p then o.quantity else 0) + volume p os

module _ {ℓ} {A : Type ℓ} where
  take-replicate-append :
      (m n : ℕ) (a : A) (xs : List A)
      → take m (replicate n a ++ xs) ≡ replicate (min m n) a ++ take (m - n) xs
  take-replicate-append m zero a xs =
      let e : min m 0 ≡ 0 = omega arith in let d : m - 0 ≡ m = omega arith in rw (e, d)
  take-replicate-append zero (suc n) a xs =
      let e : min 0 (suc n) ≡ 0 = omega arith in let d : 0 - suc n ≡ 0 = omega arith in rw (e, d)
  take-replicate-append (suc m) (suc n) a xs =
      let e : min (suc m) (suc n) ≡ suc (min m n) = omega arith in
      let d : suc m - suc n ≡ m - n = omega arith in
      rw (e, d) (ap (◌∷◌ a) (take-replicate-append m n a xs))

  drop-replicate-append :
      (m n : ℕ) (a : A) (xs : List A)
      → drop m (replicate n a ++ xs) ≡ replicate (n - m) a ++ drop (m - n) xs
  drop-replicate-append m zero a xs =
      let e : 0 - m ≡ 0 = omega arith in let d : m - 0 ≡ m = omega arith in rw (e, d)
  drop-replicate-append zero (suc n) a xs =
      let e : suc n - 0 ≡ suc n = omega arith in let d : 0 - suc n ≡ 0 = omega arith in rw (e, d)
  drop-replicate-append (suc m) (suc n) a xs =
      let e : suc n - suc m ≡ n - m = omega arith in
      let d : suc m - suc n ≡ m - n = omega arith in rw (e, d) (drop-replicate-append m n a xs)

module _ (owner_fd : ℕ) (instrument : Text) (side : Side) (price : ℕ) where
  abbrev run : ℕ → List Order → Index → Matched
  run = match_orders owner_fd instrument side price

  pub match_orders-remaining :
      (n : ℕ) (os : List Order) (index : Index) → (run n os index).remaining ≡ n - volume price os
  unfolding match_orders
  match_orders-remaining n [] index = omega arith
  match_orders-remaining n (o ∷ os) index = ground (
    arith,
    match_orders-remaining n os index,
    match_orders-remaining (n - min n o.quantity) os (erase o.id index),
    match_orders-remaining (n - min n o.quantity) os index,
  )

  pub match_orders-off_price :
      (n : ℕ) (os : List Order) (index : Index)
      → off_price price (run n os index).resting ≡ off_price price os
  unfolding match_orders
  match_orders-off_price n [] index = refl
  match_orders-off_price n (o ∷ os) index = ground (
    arith,
    match_orders-off_price n os index,
    match_orders-off_price (n - min n o.quantity) os (erase o.id index),
    match_orders-off_price (n - min n o.quantity) os index,
  )

  pub match_orders-lots {ℓ} :
      {A : Type ℓ} (f : Order → A)
      (same : (o : Order) (k : ℕ) → f (record o { quantity = k }) ≡ f o) (n : ℕ) (os : List Order)
      (index : Index)
      → lots f (at_price price (run n os index).resting) ≡ drop n (lots f (at_price price os))
  unfolding match_orders
  match_orders-lots f same n [] index = sym (drop-nil n)
  match_orders-lots f same zero (o ∷ os) index = refl
  match_orders-lots f same (suc n) (o ∷ os) index = ground (
    arith,
    same o (o.quantity - min (suc n) o.quantity),
    drop-replicate-append (suc n) o.quantity (f o) (lots f (at_price price os)),
    match_orders-lots f same (suc n) os index,
    match_orders-lots f same (suc n - min (suc n) o.quantity) os (erase o.id index),
    match_orders-lots f same (suc n - min (suc n) o.quantity) os index,
  )

  pub match_orders-traded_lots :
      (n : ℕ) (os : List Order) (index : Index)
      → traded_lots (resting_fd side) (run n os index).executions
        ≡ take n (lots (λ o. o.owner_fd) (at_price price os))
  unfolding match_orders
  match_orders-traded_lots n [] index = sym (take-nil n)
  match_orders-traded_lots zero (o ∷ os) index = refl
  match_orders-traded_lots (suc n) (o ∷ os) index = ground (
    arith,
    take-replicate-append (suc n) o.quantity o.owner_fd
        (lots (λ o. o.owner_fd) (at_price price os)),
    match_orders-traded_lots (suc n) os index,
    match_orders-traded_lots (suc n - min (suc n) o.quantity) os (erase o.id index),
    match_orders-traded_lots (suc n - min (suc n) o.quantity) os index,
  )

  -- An execution at the given price, between the incoming trader and somebody who waited.
  abbrev pub IsExecution : TradeExecution → Type 0
  IsExecution e = (e.price ≡ price) × (e.instrument ≡ instrument) × (incoming_fd side e ≡ owner_fd)

  pub match_orders-IsExecution :
      (n : ℕ) (os : List Order) (index : Index) → All IsExecution (run n os index).executions
  unfolding match_orders
  match_orders-IsExecution n [] index = tt
  match_orders-IsExecution n (o ∷ os) index = ground (
    arith,
    match_orders-IsExecution n os index,
    match_orders-IsExecution (n - min n o.quantity) os (erase o.id index),
    match_orders-IsExecution (n - min n o.quantity) os index,
  )

  pub match_orders-traded_quantity :
      (n : ℕ) (os : List Order) (index : Index)
      → traded_quantity (run n os index).executions + (run n os index).remaining ≡ n
  unfolding match_orders
  match_orders-traded_quantity n [] index = omega arith
  match_orders-traded_quantity n (o ∷ os) index = ground (
    arith,
    match_orders-traded_quantity n os index,
    match_orders-traded_quantity (n - min n o.quantity) os (erase o.id index),
    match_orders-traded_quantity (n - min n o.quantity) os index,
  )

  pub match_orders-volume :
      (n : ℕ) (os : List Order) (index : Index)
      → volume price (run n os index).resting ≡ volume price os - n
  unfolding match_orders
  match_orders-volume n [] index = omega arith
  match_orders-volume n (o ∷ os) index = ground (
    arith,
    match_orders-volume n os index,
    match_orders-volume (n - min n o.quantity) os (erase o.id index),
    match_orders-volume (n - min n o.quantity) os index,
  )

  pub match_orders-volume_ne :
      (k n : ℕ) (os : List Order) (index : Index)
      → k ≢ price
      → volume k (run n os index).resting ≡ volume k os
  unfolding match_orders
  match_orders-volume_ne k n [] index h = refl
  match_orders-volume_ne k n (o ∷ os) index h = ground (
    arith,
    match_orders-volume_ne k n os index,
    match_orders-volume_ne k (n - min n o.quantity) os (erase o.id index),
    match_orders-volume_ne k (n - min n o.quantity) os index,
  )

pub volume-append : (p : ℕ) (xs ys : List Order) → volume p (xs ++ ys) ≡ volume p xs + volume p ys
volume-append p [] ys = omega arith
volume-append p (o ∷ os) ys = omega (arith, volume-append p os ys)
