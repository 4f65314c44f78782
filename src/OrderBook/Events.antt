-- ===== src/OrderBook/Events.antt =====
-- OrderBookEventsHelper.cpp: the events that the matching emits. A fresh event is zero-initialised
-- (`NonPooledEventsHelper`); an event of the shared pool differs in the maker's uid of a reduce or
-- reject event, which is left as it was.
use exchange_cpp.Base.{Bool, true, false, ◌∷◌}
use exchange_cpp.Base.Int.{ℤ}
use exchange_cpp.Common.{MatcherTradeEvent, Order, OrderCommand, trade, reduce, reject}

-- `SendTradeEvent`
unfoldable pub send_trade_event : Order → Bool → Bool → ℤ → ℤ → MatcherTradeEvent
send_trade_event matching_order maker_completed taker_completed size bidder_hold_price = record {
  event_type = trade;
  section = 0;
  active_order_completed = taker_completed;
  matched_order_id = matching_order.order_id;
  matched_order_uid = matching_order.uid;
  matched_order_completed = maker_completed;
  price = matching_order.price;
  size = size;
  bidder_hold_price = bidder_hold_price;
}

-- `SendReduceEvent`, of the price and the reserved price of the order
unfoldable pub send_reduce_event : ℤ → ℤ → ℤ → Bool → MatcherTradeEvent
send_reduce_event price reserve_bid_price reduce_size completed = record {
  event_type = reduce;
  section = 0;
  active_order_completed = completed;
  matched_order_id = 0;
  matched_order_uid = 0;
  matched_order_completed = false;
  price = price;
  size = reduce_size;
  bidder_hold_price = reserve_bid_price;
}

unfoldable pub reject_event : OrderCommand → ℤ → MatcherTradeEvent
reject_event cmd rejected_size = record {
  event_type = reject;
  section = 0;
  active_order_completed = true;
  matched_order_id = 0;
  matched_order_uid = 0;
  matched_order_completed = false;
  price = cmd.price;
  size = rejected_size;
  bidder_hold_price = cmd.reserve_bid_price;
}

-- `AttachRejectEvent`: the event goes to the head of the chain.
unfoldable pub attach_reject_event : OrderCommand → ℤ → OrderCommand
unfolding reject_event
attach_reject_event cmd rejected_size = record cmd {
  matcher_event = reject_event cmd rejected_size ∷ cmd.matcher_event;
}
