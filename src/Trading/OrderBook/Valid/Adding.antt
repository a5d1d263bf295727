-- ===== src/Trading/OrderBook/Valid/Adding.antt =====
-- `OrderBook::add_order` of src/trading/order_book.cpp keeps a book well formed.
use market_networks.Base.{
  Text, [], arith, eq_of_text_eq, false, if_cases, if◌then◌else◌, none, not, refl, some, text_eq,
  text_eq_iff, true, ℕ, ◌&&◌, ◌++◌, ◌+◌, ◌==◌, ◌||◌, ◌∷◌, ◌≡◌,
}
use market_networks.Trading.OrderBook.Entries.{find, insert, find-insert}
use market_networks.Trading.OrderBook.Queue.{Side, same_side, same_side_iff, opposite}
use market_networks.Trading.OrderBook.Matching.{Matched}
use market_networks.Trading.OrderBook.Lots.{match_orders-remaining}
use market_networks.Trading.OrderBook.Lookup.{
  opposite-ne, opposite_of_not-same_side, put_queue-next_order_id, put_queue-index,
  rest_order-index, rest_order-next_order_id,
}
use market_networks.Trading.OrderBook.Priority.{
  waiting, matching, own_order, add_order-queue, matched_book, add_order-book,
}
use market_networks.Trading.OrderBook.Valid.{
  Queued, has_order, location, Listed, IsValid, location_inj, Queued-weaken, Listed-insert,
  Queued-append, has_order-above, has_order-append,
}
use market_networks.Trading.OrderBook.Valid.Loop.{
  match_orders-Queued, match_orders-has_order, match_orders-index, match_orders-Listed,
}
use market_networks.Trading.OrderBook.{OrderBook, queue_of, add_order}

module _ (fd : ℕ) (i : Text) (s : Side) (q p : ℕ) (b : OrderBook) (v : IsValid b) where
  abbrev after : OrderBook
  after = (add_order fd i s q p [] b).2

  abbrev m : Matched
  m = matching fd i s q p b

  next-after : after.next_order_id ≡ b.next_order_id + 1
  next-after = rw (add_order-book fd i s q p b) (
      ground (
        arith,
        put_queue-next_order_id (opposite s) i m.resting
            (record b { next_order_id = b.next_order_id + 1; index = m.index }),
        rest_order-next_order_id b.next_order_id fd i s m.remaining p (matched_book fd i s q p b),
      ))

  index-after : after.index ≡ (
      if m.remaining == 0
      then m.index
      else insert b.next_order_id (location b.next_order_id s i) m.index)
  index-after = rw (add_order-book fd i s q p b) (
      ground (
        arith,
        put_queue-index (opposite s) i m.resting
            (record b { next_order_id = b.next_order_id + 1; index = m.index }),
        rest_order-index b.next_order_id fd i s m.remaining p (matched_book fd i s q p b),
      ))

  Queued-after : (t : Side) (j : Text) → Queued t j 0 (b.next_order_id + 1) (queue_of after t j)
  Queued-after t j = rw (add_order-queue fd i s q p b t j) (
      if_cases (Queued t j 0 hi) (not (text_eq j i)) (λ _. kept t j)
        (λ e.
          let here : j ≡ i = eq_of_text_eq j i (ground arith) in
          rw here (
            if_cases (Queued t i 0 hi) (not (same_side s t))
              (λ e'. rw (opposite_of_not-same_side s t e') resting-Queued)
              (λ e'.
                let own : s ≡ t = (same_side_iff s t).0 (ground arith) in
                rw (← own)
                  (if_cases (Queued s i 0 hi) (m.remaining == 0) (λ _. kept s i) own-Queued)))))
    where
      hi : ℕ
      hi = b.next_order_id + 1

      kept : (t : Side) (j : Text) → Queued t j 0 hi (queue_of b t j)
      kept t j =
          Queued-weaken t j 0 0 b.next_order_id hi (queue_of b t j) (omega arith) (omega arith)
            (v.queued t j)

      resting-Queued : Queued (opposite s) i 0 hi m.resting
      resting-Queued =
          Queued-weaken (opposite s) i 0 0 b.next_order_id hi m.resting (omega arith) (omega arith)
            (match_orders-Queued fd i s p (opposite s) b.next_order_id 0 q (waiting fd i s q p b)
              b.index (v.queued (opposite s) i))

      own-Queued :
          (m.remaining == 0) ≡ false
          → Queued s i 0 hi (queue_of b s i ++ own_order fd i s q p b ∷ [])
      own-Queued left =
          Queued-append s i 0 b.next_order_id (queue_of b s i) (own_order fd i s q p b)
            (omega arith)
            (
              refl,
              refl,
              refl,
              ground (arith, match_orders-remaining fd i s p q (waiting fd i s q p b) b.index),
            )
            (v.queued s i)

  Listed-after : Listed after.index
  Listed-after =
      let loop = match_orders-Listed fd i s p q (waiting fd i s q p b) b.index v.listed in
      rw index-after (
        if_cases Listed (m.remaining == 0) (λ _. loop)
          (λ _. Listed-insert b.next_order_id (location b.next_order_id s i) m.index refl loop))

  find-after :
      (id : ℕ)
      → find id after.index ≡ (
          if not (m.remaining == 0) && b.next_order_id == id
          then some (location id s i)
          else if has_order id (waiting fd i s q p b) && not (has_order id m.resting)
          then none
          else find id b.index)
  find-after id = rw index-after (
      ground (
        arith,
        find-insert b.next_order_id id (location b.next_order_id s i) m.index,
        match_orders-index fd i s p (opposite s) b.next_order_id 0 q id (waiting fd i s q p b)
            b.index (v.queued (opposite s) i),
      ))

  has_order-after :
      (id : ℕ) (t : Side) (j : Text)
      → has_order id (queue_of after t j) ≡ (
          if not (text_eq j i)
          then has_order id (queue_of b t j)
          else if not (same_side s t)
          then has_order id m.resting
          else has_order id (queue_of b s i) || (not (m.remaining == 0) && b.next_order_id == id))
  has_order-after id t j =
      rw (add_order-queue fd i s q p b t j)
        (ground (arith, has_order-append id (queue_of b s i) (own_order fd i s q p b)))

  to_find :
      (id : ℕ) (t : Side) (j : Text)
      → has_order id (queue_of after t j) ≡ true
      → find id after.index ≡ some (location id t j)
  to_find id t j h = rw (find-after id) (
      ground (
        arith,
        rw (has_order-after id t j) at h,
        v.indexed id t j,
        v.indexed id s i,
        v.indexed id (opposite s) i,
        has_order-above t j id 0 b.next_order_id (queue_of b t j) (v.queued t j),
        has_order-above s i id 0 b.next_order_id (queue_of b s i) (v.queued s i),
        has_order-above (opposite s) i id 0 b.next_order_id (queue_of b (opposite s) i)
            (v.queued (opposite s) i),
        match_orders-has_order fd i s p (opposite s) b.next_order_id 0 q id (waiting fd i s q p b)
            b.index (v.queued (opposite s) i),
        text_eq_iff j i,
        same_side_iff s t,
        opposite_of_not-same_side s t,
        opposite-ne s,
      ))

  of_find :
      (id : ℕ) (t : Side) (j : Text)
      → find id after.index ≡ some (location id t j)
      → has_order id (queue_of after t j) ≡ true
  of_find id t j h = rw (has_order-after id t j) (
      ground (
        arith,
        rw (find-after id) at h,
        λ (e : location id s i ≡ location id t j). location_inj id s t i j e,
        v.indexed id t j,
        v.indexed id (opposite s) i,
        has_order-above (opposite s) i id 0 b.next_order_id (queue_of b (opposite s) i)
            (v.queued (opposite s) i),
        match_orders-has_order fd i s p (opposite s) b.next_order_id 0 q id (waiting fd i s q p b)
            b.index (v.queued (opposite s) i),
        text_eq_iff j i,
        same_side_iff s t,
        opposite_of_not-same_side s t,
        opposite-ne s,
      ))

-- `add_order` keeps the book well formed: queues in submission order with unfilled quantities only,
-- and an index that locates exactly the orders that rest.
pub add_order-IsValid :
    (fd : ℕ) (i : Text) (s : Side) (q p : ℕ) (b : OrderBook)
    → IsValid b
    → IsValid (add_order fd i s q p [] b).2
add_order-IsValid fd i s q p b v = record {
  queued = λ t j. rw (next-after fd i s q p b v) (Queued-after fd i s q p b v t j);
  indexed = λ id t j. (to_find fd i s q p b v id t j, of_find fd i s q p b v id t j);
  listed = Listed-after fd i s q p b v;
}
