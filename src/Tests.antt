-- ===== src/Tests.antt =====
-- A book, users and positions with concrete numbers, and the theorems at work on them.
pub mod Books
pub mod Funds
pub mod Margins
pub mod Refunds
pub mod Direct
use exchange_cpp.Base.{
  ℕ, List, [], ◌∷◌, Bool, true, false, Option, none, some, ◌≡◌, ◌≢◌, refl, arith,
}
use exchange_cpp.Base.Dict.{Dict, lookup, insert, erase}
use exchange_cpp.Base.Int.{ℤ, pos, negsuc, ◌+ℤ◌, ◌-ℤ◌, ◌*ℤ◌, min_ℤ, ◌<ℤ◌}
use exchange_cpp.Common.{
  OrderAction, ask, bid, OrderType, OrderCommandType, CommandResultCode, SymbolType,
  CoreSymbolSpecification, OrderCommand, Order, MatcherTradeEvent,
}
use exchange_cpp.OrderBook.Events.{
  send_trade_event, send_reduce_event, reject_event, attach_reject_event,
}
use exchange_cpp.OrderBook.Bucket.{OrdersBucket, put, find_by_id, match_orders, matched_bucket}
use exchange_cpp.OrderBook.Levels.{find_bucket, set_bucket, bucket_or_new, place, match_range}
use exchange_cpp.OrderBook.Book.{
  OrderBook, new_order_book, erase_all, try_match_instantly, place_order, ok, Result, Reply,
}
use exchange_cpp.OrderBook.Book.Wf.{IsWellFormed}
use exchange_cpp.OrderBook.NewOrder.{
  new_order, new_order_of_type, new_order_place_gtc, place_gtc_rest,
}
use exchange_cpp.OrderBook.Process.{process_command, process_command_of_type, is_valid_for_matching}
use exchange_cpp.OrderBook.Process.WellFormed.{IsReachable, start, step, IsReachable-IsWellFormed}

abbrev pub spec : CoreSymbolSpecification
spec = record {
  symbol_id = 5;
  symbol_type = SymbolType.currency_exchange_pair;
  base_currency = 1;
  quote_currency = 2;
  base_scale_k = pos 10;
  quote_scale_k = pos 3;
  taker_fee = pos 2;
  maker_fee = pos 1;
  margin_buy = pos 0;
  margin_sell = pos 0;
}

-- A command that came through the risk engine.
abbrev pub placed : ℕ → ℕ → OrderAction → OrderType → ℕ → ℕ → OrderCommand
placed order_id uid action order_type price size = record {
  command = OrderCommandType.place_order;
  order_id = order_id;
  symbol = 5;
  price = pos price;
  size = pos size;
  reserve_bid_price = pos price;
  action = action;
  order_type = order_type;
  uid = uid;
  timestamp = pos 0;
  service_flags = 0;
  result_code = CommandResultCode.valid_for_matching_engine;
  matcher_event = [];
  market_data = none;
}

abbrev pub order : ℕ → ℕ → OrderAction → ℕ → ℕ → Order
order order_id uid action price size = record {
  order_id = order_id;
  price = pos price;
  size = pos size;
  filled = pos 0;
  reserve_bid_price = pos price;
  action = action;
  uid = uid;
  timestamp = pos 0;
}

abbrev one_ask : OrderBook
one_ask = record {
  symbol_spec = spec;
  ask_buckets =
      record { price = pos 100; total_volume = pos 5; orders = order 1 10 ask 100 5 ∷ [] } ∷ [];
  bid_buckets = [];
  id_map = (1, (ask, pos 100)) ∷ [];
}

abbrev pub two_sided : OrderBook
two_sided = record {
  symbol_spec = spec;
  ask_buckets =
      record { price = pos 100; total_volume = pos 5; orders = order 1 10 ask 100 5 ∷ [] } ∷ [];
  bid_buckets =
      record { price = pos 98; total_volume = pos 4; orders = order 3 12 bid 98 4 ∷ [] } ∷ [];
  id_map = (1, (ask, pos 100)) ∷ (3, (bid, pos 98)) ∷ [];
}

first_order :
    process_command (new_order_book spec) (placed 1 10 ask OrderType.gtc 100 5)
    ≡ ok (CommandResultCode.success, one_ask, placed 1 10 ask OrderType.gtc 100 5)
unfolding process_command process_command_of_type is_valid_for_matching new_order new_order_of_type
    new_order_place_gtc place_gtc_rest try_match_instantly match_range new_order_book erase_all
    place_order place bucket_or_new find_bucket set_bucket put insert lookup ◌+ℤ◌ ◌-ℤ◌
first_order = refl

second_order :
    process_command one_ask (placed 3 12 bid OrderType.gtc 98 4)
    ≡ ok (CommandResultCode.success, two_sided, placed 3 12 bid OrderType.gtc 98 4)
unfolding process_command process_command_of_type is_valid_for_matching new_order new_order_of_type
    new_order_place_gtc place_gtc_rest try_match_instantly match_range match_orders matched_bucket
    new_order_book erase_all place_order place bucket_or_new find_bucket set_bucket put insert
    lookup ◌+ℤ◌ ◌-ℤ◌ min_ℤ send_trade_event
second_order = refl

pub two_sided-IsReachable : IsReachable spec two_sided
two_sided-IsReachable =
    step one_ask two_sided (placed 3 12 bid OrderType.gtc 98 4) (placed 3 12 bid OrderType.gtc 98 4)
      CommandResultCode.success
      (step (new_order_book spec) one_ask (placed 1 10 ask OrderType.gtc 100 5)
        (placed 1 10 ask OrderType.gtc 100 5) CommandResultCode.success start (λ e. omega arith)
        first_order)
      (λ e. omega arith) second_order

pub two_sided-IsWellFormed : IsWellFormed two_sided
two_sided-IsWellFormed = IsReachable-IsWellFormed spec two_sided two_sided-IsReachable
