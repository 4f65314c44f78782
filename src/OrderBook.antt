-- ===== src/OrderBook.antt =====
-- The order book of one symbol: include/exchange/core/orderbook and src/exchange/core/orderbook,
-- in the naive implementation over std::map.
pub mod Events
pub mod Bucket
pub mod Levels
pub mod Book
pub mod NewOrder
pub mod Change
pub mod Process
pub mod PriceMap
pub mod Direct
