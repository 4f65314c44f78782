-- ===== src/Common/Records.antt =====
-- Orders, events, commands, market data and symbol specifications. Ids are naturals: the code only
-- compares them. Prices, sizes and times are the integers that their int64_t stands for.
use exchange_cpp.Base.{ℕ, Bool, List, Option}
use exchange_cpp.Base.Int.{ℤ}
use exchange_cpp.Common.Enums.{
  OrderAction, OrderType, SymbolType, MatcherEventType, OrderCommandType, CommandResultCode,
}

pub record CoreSymbolSpecification : Type 0 where
  pub symbol_id : ℕ
  pub symbol_type : SymbolType
  pub base_currency : ℕ
  pub quote_currency : ℕ
  pub base_scale_k : ℤ
  pub quote_scale_k : ℤ
  pub taker_fee : ℤ
  pub maker_fee : ℤ
  pub margin_buy : ℤ
  pub margin_sell : ℤ

pub record Order : Type 0 where
  pub order_id : ℕ
  pub price : ℤ
  pub size : ℤ
  pub filled : ℤ
  pub reserve_bid_price : ℤ
  pub action : OrderAction
  pub uid : ℕ
  pub timestamp : ℤ

-- One node of an event chain; a chain is the list of its nodes.
pub record MatcherTradeEvent : Type 0 where
  pub event_type : MatcherEventType
  pub section : ℕ
  pub active_order_completed : Bool
  pub matched_order_id : ℕ
  pub matched_order_uid : ℕ
  pub matched_order_completed : Bool
  pub price : ℤ
  pub size : ℤ
  pub bidder_hold_price : ℤ

-- One price level as (price, volume, number of orders). The vectors of the source stand side by
-- side and hold `askSize` and `bidSize` levels.
pub record L2MarketData : Type 0 where
  pub asks : List (ℤ × ℤ × ℕ)
  pub bids : List (ℤ × ℤ × ℕ)

pub record OrderCommand : Type 0 where
  pub command : OrderCommandType
  pub order_id : ℕ
  pub symbol : ℕ
  pub price : ℤ
  pub size : ℤ
  pub reserve_bid_price : ℤ
  pub action : OrderAction
  pub order_type : OrderType
  pub uid : ℕ
  pub timestamp : ℤ
  pub service_flags : ℕ
  pub result_code : CommandResultCode
  pub matcher_event : List MatcherTradeEvent
  pub market_data : Option L2MarketData
