-- ===== src/Trading/OrderBook.antt =====
-- src/trading/order_book.hpp and order_book.cpp. A `std::list` is a list of orders. An iterator into
-- one stands for the node that it points to, and is the id of that node's order; reading through an
-- iterator whose node is gone is undefined in C++ and is `none` here.
pub mod Entries
pub mod Queue
pub mod Matching
pub mod Lots
pub mod Lookup
pub mod Priority
pub mod Valid
pub mod Erasing
pub mod Cancel
pub mod Departure
pub mod Owners
mod Examples
use market_networks.Base.{
  List, Option, Text, [], codes, false, if◌then◌else◌, length, none, some, text_eq, true, ℕ, ◌++◌,
  ◌+◌, ◌==◌, ◌∷◌,
}
use mathlib.Core.Option
use market_networks.Protocol.Integer.{to_string}
use Entries.{Index, find, erase, insert}
use Queue.{Side, buy, sell, opposite, Order, Location, find_order, erase_order}
use Matching.{TradeExecution, match_orders}

pub record OrderBook : Type 0 where
  pub next_order_id : ℕ
  pub buys : Text → List Order
  pub sells : Text → List Order
  pub index : Index

abbrev pub empty_book : OrderBook
empty_book = record { next_order_id = 1; buys = λ i. []; sells = λ i. []; index = [] }

-- `(side == Side::BUY) ? buys_[instrument] : sells_[instrument]`
unfoldable pub queue_of : OrderBook → Side → Text → List Order
queue_of b buy i = b.buys i
queue_of b sell i = b.sells i

-- A map with one entry replaced.
unfoldable pub put_entry : Text → List Order → (Text → List Order) → Text → List Order
put_entry i q m j = if text_eq j i then q else m j

unfoldable pub put_queue : Side → Text → List Order → OrderBook → OrderBook
unfolding put_entry
put_queue buy i q b = record b { buys = put_entry i q b.buys }
put_queue sell i q b = record b { sells = put_entry i q b.sells }

-- Whatever could not be matched rests in the book.
unfoldable pub rest_order : ℕ → ℕ → Text → Side → ℕ → ℕ → OrderBook → OrderBook
unfolding queue_of put_queue insert
rest_order order_id owner_fd instrument side remaining price b =
    let order : Order = record {
      id = order_id;
      owner_fd = owner_fd;
      instrument = instrument;
      side = side;
      quantity = remaining;
      price = price;
    } in
    let own = put_queue side instrument (queue_of b side instrument ++ order ∷ []) b in
    record own {
      index = insert order_id (record { queue = (side, instrument); it = order_id }) own.index;
    }

-- The new order's id, the executions appended to those given, and the book.
unfoldable pub add_order :
    ℕ → Text → Side → ℕ → ℕ → List TradeExecution → OrderBook → ℕ × List TradeExecution × OrderBook
unfolding queue_of put_queue rest_order match_orders opposite
add_order owner_fd instrument side quantity price executions b =
    let order_id = b.next_order_id in
    let m =
      match_orders owner_fd instrument side price quantity (queue_of b (opposite side) instrument)
        b.index in
    let matched =
      put_queue (opposite side) instrument m.resting
        (record b { next_order_id = order_id + 1; index = m.index }) in
    let rested = rest_order order_id owner_fd instrument side m.remaining price matched in
    (order_id, executions ++ m.executions, if m.remaining == 0 then matched else rested)

-- `*location.it`
unfoldable pub deref : OrderBook → Location → Option Order
unfolding queue_of find_order
deref b l = find_order l.it (queue_of b l.queue.0 l.queue.1)

-- `location.queue->erase(location.it)`
unfoldable pub erase_node : Location → OrderBook → OrderBook
unfolding queue_of put_queue erase_order
erase_node l b = put_queue l.queue.0 l.queue.1 (erase_order l.it (queue_of b l.queue.0 l.queue.1)) b

unfoldable pub erase_at : ℕ → Location → OrderBook → OrderBook
unfolding erase_node erase
erase_at order_id l b = let e = erase_node l b in record e { index = erase order_id e.index }

pub data Cancelled : Type 0 where
  done : Cancelled
  refused : Text → Cancelled

unfoldable pub unknown_order : ℕ → Text
unknown_order order_id = codes "No such order with unfilled quantity: " ++ to_string order_id

unfoldable pub foreign_order : ℕ → Text
foreign_order order_id =
    codes "Order " ++ (to_string order_id ++ codes " belongs to another trader")

-- The end of `cancel_order`, the iterator of the entry read.
cancel_found : ℕ → ℕ → Location → OrderBook → Option Order → Option (Cancelled × OrderBook)
cancel_found order_id requester_fd l b none = none
cancel_found order_id requester_fd l b (some o) =
    if o.owner_fd == requester_fd
    then some (done, erase_at order_id l b)
    else some (refused (foreign_order order_id), b)

cancel_at : ℕ → ℕ → OrderBook → Option Location → Option (Cancelled × OrderBook)
unfolding cancel_found deref
cancel_at order_id requester_fd b none = some (refused (unknown_order order_id), b)
cancel_at order_id requester_fd b (some l) = cancel_found order_id requester_fd l b (deref b l)

-- `none` is undefined behaviour.
unfoldable pub cancel_order : ℕ → ℕ → OrderBook → Option (Cancelled × OrderBook)
unfolding cancel_at find erase_at
cancel_order order_id requester_fd b = cancel_at order_id requester_fd b (find order_id b.index)

-- The loop of `remove_orders_of` over the entries still to come: those that stay, and the book.
-- The order of iteration is the list's; C++ leaves it open.
remove_entries : ℕ → Index → OrderBook → Option (Index × OrderBook)
unfolding deref erase_node
remove_entries owner_fd [] b = some ([], b)
remove_entries owner_fd ((order_id, l) ∷ entries) b = elim (deref b l) [
  | none ↦ none
  | some o ↦ elim (o.owner_fd == owner_fd) [
    | true ↦ remove_entries owner_fd entries (erase_node l b)
    | false ↦
        Option.map (λ (kept, b'). ((order_id, l) ∷ kept, b')) (remove_entries owner_fd entries b)
  ]
]

unfoldable pub remove_orders_of : ℕ → OrderBook → Option OrderBook
unfolding remove_entries
remove_orders_of owner_fd b =
    Option.map (λ (kept, b'). record b' { index = kept }) (remove_entries owner_fd b.index b)

unfoldable pub resting_order_count : OrderBook → ℕ
resting_order_count b = length b.index
