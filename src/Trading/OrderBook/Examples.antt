-- ===== src/Trading/OrderBook/Examples.antt =====
-- The theorems about the order book at concrete books.
use market_networks.Base.{
  Text, [], arith, codes, if◌then◌else◌, inl, keep, min, none, refl, some, take, text_eq, ◌&&◌, ◌∷◌,
  ◌≡◌,
}
use market_networks.Trading.OrderBook.Queue.{
  Side, same_side, opposite, Order, at_price, find_order, erase_order,
}
use market_networks.Trading.OrderBook.Entries.{find}
use market_networks.Trading.OrderBook.Priority.{
  Uncrossed, add_order-priority, add_order-conserves, add_order-Uncrossed,
}
use market_networks.Trading.OrderBook.Lots.{lots, volume, traded_lots, traded_quantity, resting_fd}
use market_networks.Trading.OrderBook.Valid.{IsValid, empty_book-IsValid}
use market_networks.Trading.OrderBook.Valid.Adding.{add_order-IsValid}
use market_networks.Trading.OrderBook.Cancel.{
  cancel_order-IsValid, cancel_order-own, cancel_order-foreign,
}
use market_networks.Trading.OrderBook.Departure.{foreign, remove_orders_of-keep}
use market_networks.Trading.OrderBook.{
  OrderBook, empty_book, queue_of, add_order, Cancelled, done, refused, cancel_order,
  remove_orders_of, resting_order_count, foreign_order,
}

abbrev jnst : Text
jnst = codes "JNST"

-- Client 4 offers 60 and client 5 offers 70 at 238.
abbrev offered : OrderBook
offered =
    (add_order 5 jnst Side.sell 70 238 [] (add_order 4 jnst Side.sell 60 238 [] empty_book).2).2

-- The first offer is filled, the second in part.
buy_100 :
    (add_order 6 jnst Side.buy 100 238 [] offered).1
    ≡ record { buyer_fd = 6; seller_fd = 4; instrument = jnst; quantity = 60; price = 238 }
      ∷ record { buyer_fd = 6; seller_fd = 5; instrument = jnst; quantity = 40; price = 238 }
      ∷ []
unfolding add_order text_eq
buy_100 = refl

count_after : resting_order_count (add_order 6 jnst Side.buy 100 238 [] offered).2 ≡ 1
unfolding add_order text_eq resting_order_count
count_after = refl

offered-IsValid : IsValid offered
offered-IsValid =
    add_order-IsValid 5 jnst Side.sell 70 238 _
      (add_order-IsValid 4 jnst Side.sell 60 238 empty_book empty_book-IsValid)

add_order-priority_example :
    traded_lots (resting_fd Side.buy) (add_order 6 jnst Side.buy 100 238 [] offered).1
    ≡ take 100 (lots (λ o. o.owner_fd) (at_price 238 (queue_of offered (opposite Side.buy) jnst)))
add_order-priority_example = (add_order-priority 6 jnst Side.buy 100 238 offered).0

add_order-conserves_example :
    traded_quantity (add_order 6 jnst Side.buy 100 238 [] offered).1
    ≡ min 100 (volume 238 (queue_of offered (opposite Side.buy) jnst))
add_order-conserves_example = (add_order-conserves 6 jnst Side.buy 100 238 offered).0

empty_book-Uncrossed : Uncrossed empty_book
unfolding queue_of
empty_book-Uncrossed j k = inl refl

add_order-Uncrossed_example : Uncrossed (add_order 4 jnst Side.sell 60 238 [] empty_book).2
add_order-Uncrossed_example =
    add_order-Uncrossed 4 jnst Side.sell 60 238 empty_book empty_book-Uncrossed

add_order-IsValid_example : IsValid (add_order 6 jnst Side.buy 100 238 [] offered).2
add_order-IsValid_example = add_order-IsValid 6 jnst Side.buy 100 238 offered offered-IsValid

cancel_order-IsValid_example :
    (answer : Cancelled) × (b' : OrderBook) × (cancel_order 2 5 offered ≡ some (answer, b'))
    × IsValid b'
cancel_order-IsValid_example = cancel_order-IsValid 2 5 offered offered-IsValid

abbrev second : Order
second = record {
  id = 2;
  owner_fd = 5;
  instrument = jnst;
  side = Side.sell;
  quantity = 70;
  price = 238;
}

second_rests : find_order 2 (queue_of offered Side.sell jnst) ≡ some second
unfolding find_order queue_of add_order text_eq
second_rests = refl

cancel_order-own_example :
    (b' : OrderBook) × (cancel_order 2 5 offered ≡ some (done, b'))
    × (find 2 b'.index ≡ none)
    × ((t : Side) (j : Text)
        → queue_of b' t j ≡ (
            if same_side Side.sell t && text_eq j jnst
            then erase_order 2 (queue_of offered Side.sell jnst)
            else queue_of offered t j))
cancel_order-own_example =
    cancel_order-own 2 5 offered Side.sell jnst second offered-IsValid second_rests refl

cancel_order-foreign_example : cancel_order 2 4 offered ≡ some (refused (foreign_order 2), offered)
cancel_order-foreign_example =
    cancel_order-foreign 2 4 offered Side.sell jnst second offered-IsValid second_rests
      (omega arith)

remove_orders_of-keep_example :
    (b' : OrderBook) × (remove_orders_of 5 offered ≡ some b')
    × ((s : Side) (i : Text) → queue_of b' s i ≡ keep (foreign 5) (queue_of offered s i))
    × IsValid b'
remove_orders_of-keep_example = remove_orders_of-keep 5 offered offered-IsValid
