-- ===== src/Trading/OrderBook/Lookup.antt =====
-- Reading a queue of the book of src/trading/order_book.cpp after another was replaced.
use market_networks.Base.{
  List, Text, [], arith, if◌then◌else◌, not, text_eq, true, ℕ, ◌&&◌, ◌++◌, ◌∷◌, ◌≡◌, ◌≢◌,
}
use market_networks.Trading.OrderBook.Queue.{Side, buy, sell, same_side, opposite, Order}
use market_networks.Trading.OrderBook.Entries.{Index, insert}
use market_networks.Trading.OrderBook.{OrderBook, queue_of, put_queue, rest_order}

pub queue_of-put_queue :
    (s t : Side) (i j : Text) (q : List Order) (b : OrderBook)
    → queue_of (put_queue s i q b) t j
      ≡ (if same_side s t && text_eq j i then q else queue_of b t j)
unfolding queue_of put_queue same_side
queue_of-put_queue s t i j q b = ground arith

pub put_queue-index :
    (s : Side) (i : Text) (q : List Order) (b : OrderBook) → (put_queue s i q b).index ≡ b.index
unfolding put_queue
put_queue-index s i q b = ground arith

pub put_queue-next_order_id :
    (s : Side) (i : Text) (q : List Order) (b : OrderBook)
    → (put_queue s i q b).next_order_id ≡ b.next_order_id
unfolding put_queue
put_queue-next_order_id s i q b = ground arith

pub queue_of-record :
    (t : Side) (j : Text) (n : ℕ) (m : Index) (b : OrderBook)
    → queue_of (record b { next_order_id = n; index = m }) t j ≡ queue_of b t j
unfolding queue_of
queue_of-record t j n m b = ground arith

pub same_side-opposite : (s t : Side) → same_side (opposite s) t ≡ not (same_side s t)
unfolding same_side opposite
same_side-opposite s t = ground arith

pub same_side_refl : (s : Side) → same_side s s ≡ true
unfolding same_side
same_side_refl s = ground arith

pub queue_of-rest_order :
    (id fd : ℕ) (i : Text) (s : Side) (r p : ℕ) (b : OrderBook) (t : Side) (j : Text)
    → queue_of (rest_order id fd i s r p b) t j ≡ (
        if same_side s t && text_eq j i
        then queue_of b s i
          ++ record { id = id; owner_fd = fd; instrument = i; side = s; quantity = r; price = p }
            ∷ []
        else queue_of b t j)
unfolding rest_order same_side
queue_of-rest_order id fd i s r p b t j = ground arith

pub rest_order-next_order_id :
    (id fd : ℕ) (i : Text) (s : Side) (r p : ℕ) (b : OrderBook)
    → (rest_order id fd i s r p b).next_order_id ≡ b.next_order_id
unfolding rest_order
rest_order-next_order_id id fd i s r p b = ground arith

pub rest_order-index :
    (id fd : ℕ) (i : Text) (s : Side) (r p : ℕ) (b : OrderBook)
    → (rest_order id fd i s r p b).index ≡ insert id (record { queue = (s, i); it = id }) b.index
unfolding rest_order
rest_order-index id fd i s r p b = ground arith

pub opposite_of_not-same_side : (s t : Side) → not (same_side s t) ≡ true → t ≡ opposite s
unfolding same_side opposite
opposite_of_not-same_side s t h = ground arith

pub opposite-ne : (s : Side) → s ≢ opposite s
unfolding opposite
opposite-ne buy e = cc
opposite-ne sell e = cc
