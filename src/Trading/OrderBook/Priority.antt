-- ===== src/Trading/OrderBook/Priority.antt =====
-- `OrderBook::add_order` of src/trading/order_book.cpp against the matching rule that order_book.hpp
-- states: exact price, opposite side, submission order, the smaller quantity.
use market_networks.Base.{
  All, Bool-cases, List, Text, [], arith, drop, eq_of_text_eq, false, if◌then◌else◌, inl, inr, min,
  not, refl, take, text_eq, text_eq_iff, text_eq_refl, ℕ, ◌++◌, ◌+◌, ◌-◌, ◌==◌, ◌∷◌, ◌≡◌, ◌⊎◌,
}
use market_networks.Trading.OrderBook.Queue.{
  Side, same_side, same_side_iff, opposite, Order, at_price, off_price,
}
use market_networks.Trading.OrderBook.Matching.{TradeExecution, Matched, match_orders}
use market_networks.Trading.OrderBook.Lots.{
  lots, volume, traded_lots, traded_quantity, resting_fd, IsExecution, match_orders-remaining,
  match_orders-off_price, match_orders-lots, match_orders-traded_lots, match_orders-IsExecution,
  match_orders-traded_quantity, match_orders-volume, match_orders-volume_ne, volume-append,
}
use market_networks.Trading.OrderBook.Lookup.{
  queue_of-put_queue, queue_of-record, queue_of-rest_order, same_side-opposite, same_side_refl,
}
use market_networks.Trading.OrderBook.{OrderBook, queue_of, put_queue, rest_order, add_order}

module _ (fd : ℕ) (i : Text) (s : Side) (q p : ℕ) (b : OrderBook) where
  abbrev pub added : ℕ × List TradeExecution × OrderBook
  added = add_order fd i s q p [] b

  abbrev pub waiting : List Order
  waiting = queue_of b (opposite s) i

  abbrev pub own_order : Order
  own_order = record {
    id = b.next_order_id;
    owner_fd = fd;
    instrument = i;
    side = s;
    quantity = q - volume p waiting;
    price = p;
  }

  abbrev pub matching : Matched
  matching = match_orders fd i s p q waiting b.index

  abbrev pub matched_book : OrderBook
  matched_book =
      put_queue (opposite s) i matching.resting
        (record b { next_order_id = b.next_order_id + 1; index = matching.index })

  pub add_order-book : added.2 ≡ (
      if matching.remaining == 0
      then matched_book
      else rest_order b.next_order_id fd i s matching.remaining p matched_book)
  add_order-book = unfold add_order in refl

  matched_book-queue :
      (t : Side) (j : Text)
      → queue_of matched_book t j ≡ (
          if not (text_eq j i)
          then queue_of b t j
          else if same_side s t
          then queue_of b s i
          else matching.resting)
  matched_book-queue t j = ground (
    arith,
    queue_of-put_queue (opposite s) t i j matching.resting
        (record b { next_order_id = b.next_order_id + 1; index = matching.index }),
    queue_of-record t j (b.next_order_id + 1) matching.index b,
    same_side-opposite s t,
    same_side_iff s t,
    text_eq_iff j i,
  )

  -- Every queue of the book after `add_order`.
  pub add_order-queue :
      (t : Side) (j : Text)
      → queue_of added.2 t j ≡ (
          if not (text_eq j i)
          then queue_of b t j
          else if not (same_side s t)
          then matching.resting
          else if matching.remaining == 0
          then queue_of b s i
          else queue_of b s i ++ own_order ∷ [])
  add_order-queue t j = rw add_order-book (
      ground (
        arith,
        matched_book-queue t j,
        matched_book-queue s i,
        queue_of-rest_order b.next_order_id fd i s matching.remaining p matched_book t j,
        same_side_refl s,
        text_eq_refl i,
        match_orders-remaining fd i s p q waiting b.index,
      ))

  queue-opposite : queue_of added.2 (opposite s) i ≡ matching.resting
  queue-opposite = ground (
    arith,
    add_order-queue (opposite s) i,
    same_side-opposite s (opposite s),
    text_eq_refl i,
    apart,
  )
    where
      apart : same_side s (opposite s) ≡ false
      apart = unfold same_side opposite in ground arith

  queue-own :
      queue_of added.2 s i
      ≡ (if matching.remaining == 0 then queue_of b s i else queue_of b s i ++ own_order ∷ [])
  queue-own = ground (arith, add_order-queue s i, same_side_refl s, text_eq_refl i)

  executions-eq : added.1 ≡ matching.executions
  executions-eq = unfold add_order in refl

abbrev ticket : Order → ℕ × ℕ
ticket o = (o.id, o.owner_fd)

-- Price and time priority. The executions take, one by one and in order, the first `q` lots that
-- wait on the opposite side at exactly the price `p`, all of them if there are fewer; those lots and
-- no others leave the queue. Each execution is at that price and names the incoming trader.
pub add_order-priority :
    (fd : ℕ) (i : Text) (s : Side) (q p : ℕ) (b : OrderBook)
    → let (id, executions, b') = add_order fd i s q p [] b in
      let before = queue_of b (opposite s) i in
      let after = queue_of b' (opposite s) i in
      (traded_lots (resting_fd s) executions ≡ take q (lots (λ o. o.owner_fd) (at_price p before)))
      × (lots ticket (at_price p after) ≡ drop q (lots ticket (at_price p before)))
      × (off_price p after ≡ off_price p before)
      × All (IsExecution fd i s p) executions
add_order-priority fd i s q p b =
    let before = queue_of b (opposite s) i in
    (
      rw (executions-eq fd i s q p b) (match_orders-traded_lots fd i s p q before b.index),
      rw (queue-opposite fd i s q p b)
          (match_orders-lots fd i s p ticket (λ o k. refl) q before b.index),
      rw (queue-opposite fd i s q p b) (match_orders-off_price fd i s p q before b.index),
      rw (executions-eq fd i s q p b) (match_orders-IsExecution fd i s p q before b.index),
    )

-- No quantity is lost or made up: what an order trades leaves the opposite side at its price, and
-- the rest of it joins its own side.
pub add_order-conserves :
    (fd : ℕ) (i : Text) (s : Side) (q p : ℕ) (b : OrderBook)
    → let (id, executions, b') = add_order fd i s q p [] b in
      (traded_quantity executions ≡ min q (volume p (queue_of b (opposite s) i)))
      × (volume p (queue_of b' (opposite s) i) + traded_quantity executions
          ≡ volume p (queue_of b (opposite s) i))
      × (volume p (queue_of b' s i) + traded_quantity executions ≡ volume p (queue_of b s i) + q)
add_order-conserves fd i s q p b =
    let before = queue_of b (opposite s) i in
    let total = match_orders-traded_quantity fd i s p q before b.index in
    let left = match_orders-remaining fd i s p q before b.index in
    let less = match_orders-volume fd i s p q before b.index in
    let grown = volume-append p (queue_of b s i) (own_order fd i s q p b ∷ []) in
    rw (executions-eq fd i s q p b, queue-opposite fd i s q p b, queue-own fd i s q p b)
      (
        omega (arith, total, left),
        omega (arith, total, left, less),
        ground (arith, total, left, grown),
      )

-- No price at which one instrument is on offer on both sides.
abbrev pub Uncrossed : OrderBook → Type 0
Uncrossed b =
    (j : Text) (k : ℕ)
    → (volume k (queue_of b Side.buy j) ≡ 0) ⊎ (volume k (queue_of b Side.sell j) ≡ 0)

uncrossed_at :
    (fd : ℕ) (i : Text) (s : Side) (q p : ℕ) (b : OrderBook) (k : ℕ)
    → (volume k (queue_of b s i) ≡ 0) ⊎ (volume k (queue_of b (opposite s) i) ≡ 0)
    → let b' = (add_order fd i s q p [] b).2 in
      (volume k (queue_of b' s i) ≡ 0) ⊎ (volume k (queue_of b' (opposite s) i) ≡ 0)
uncrossed_at fd i s q p b k h =
    let before = queue_of b (opposite s) i in
    rw (queue-opposite fd i s q p b, queue-own fd i s q p b)
      (ground (
        arith,
        match_orders-remaining fd i s p q before b.index,
        match_orders-volume fd i s p q before b.index,
        match_orders-volume_ne fd i s p k q before b.index,
        volume-append k (queue_of b s i) (own_order fd i s q p b ∷ []),
      ))

-- Matching is complete: a book that is not crossed stays so, whatever is submitted. What is left of
-- an order never rests beside an order that it could trade with.
pub add_order-Uncrossed :
    (fd : ℕ) (i : Text) (s : Side) (q p : ℕ) (b : OrderBook)
    → Uncrossed b
    → Uncrossed (add_order fd i s q p [] b).2
add_order-Uncrossed fd i s q p b u j k = elim (Bool-cases (text_eq j i)) [
  | inl e ↦ rw (eq_of_text_eq j i e) (by_side s)
  | inr e ↦
      rw (add_order-queue fd i s q p b Side.buy j, add_order-queue fd i s q p b Side.sell j, e)
        (u j k)
]
  where
    by_side :
        (t : Side)
        → let b' = (add_order fd i t q p [] b).2 in
          (volume k (queue_of b' Side.buy i) ≡ 0) ⊎ (volume k (queue_of b' Side.sell i) ≡ 0)
    by_side Side.buy = unfold opposite in uncrossed_at fd i Side.buy q p b k (u i k)
    by_side Side.sell =
        unfold opposite in
        elim (uncrossed_at fd i Side.sell q p b k
          (elim (u i k) [ inl x ↦ inr x | inr y ↦ inl y ])) [ inl x ↦ inr x | inr y ↦ inl y ]
