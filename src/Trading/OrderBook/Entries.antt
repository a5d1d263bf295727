-- ===== src/Trading/OrderBook/Entries.antt =====
-- `index_` of src/trading/order_book.hpp: order id to position in its queue.

use market_networks.Base.Assoc.{Assoc}
unfoldable pub use market_networks.Base.Assoc.{find, erase, insert}
pub use market_networks.Base.Assoc.{find-erase, find-insert}
use market_networks.Trading.OrderBook.Queue.{Location}

abbrev pub Index : Type 0
Index = Assoc Location
