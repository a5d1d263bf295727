-- ===== src/Trading.antt =====
-- src/trading: the order book.
pub mod OrderBook
