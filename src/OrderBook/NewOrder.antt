-- ===== src/OrderBook/NewOrder.antt =====
-- OrderBookNaiveImpl.cpp: `NewOrder`, for each type of order.
pub mod WellFormed
pub mod Fills
pub mod Prices
pub mod FillOrKill
use exchange_cpp.Base.{Bool, true, ◌||◌, none, some, if◌then◌else◌}
use exchange_cpp.Base.Dict.{lookup}
use exchange_cpp.Base.Int.{ℤ, pos, ◌-ℤ◌, ltb_ℤ, ◌==ℤ◌}
use mathlib.Core.Bool.{xor}
use exchange_cpp.Common.{OrderAction, opposite, is_bid, OrderCommand, OrderType}
use exchange_cpp.OrderBook.Events.{attach_reject_event}
use exchange_cpp.OrderBook.Levels.{should_continue, check_budget}
use exchange_cpp.OrderBook.Book.{OrderBook, buckets_by_action, try_match_instantly, place_order}

-- `NewOrderPlaceGtc`, after the matching.
unfoldable pub place_gtc_rest :
    ℤ × OrderBook × OrderCommand → OrderCommand → OrderBook × OrderCommand
place_gtc_rest (filled, book, cmd') cmd =
    if filled ==ℤ cmd.size then (book, cmd') else elim (lookup cmd.order_id book.id_map) [
      | some _ ↦ (book, attach_reject_event cmd' (cmd.size -ℤ filled))
      | none ↦ (
        place_order
            (record {
              order_id = cmd.order_id;
              price = cmd.price;
              size = cmd.size;
              filled = filled;
              reserve_bid_price = cmd.reserve_bid_price;
              action = cmd.action;
              uid = cmd.uid;
              timestamp = cmd.timestamp;
            })
            book,
        cmd',
      )
    ]

unfoldable pub new_order_place_gtc : OrderBook → OrderCommand → OrderBook × OrderCommand
unfolding place_gtc_rest
new_order_place_gtc book cmd =
    place_gtc_rest
      (try_match_instantly cmd.action (should_continue cmd.action cmd.price) cmd.size
        cmd.reserve_bid_price (pos 0) book cmd)
      cmd

-- `NewOrderMatchIoc`
unfoldable pub new_order_match_ioc : OrderBook → OrderCommand → OrderBook × OrderCommand
new_order_match_ioc book cmd =
    let r =
      try_match_instantly cmd.action (should_continue cmd.action cmd.price) cmd.size
        cmd.reserve_bid_price (pos 0) book cmd in
    let rejected_size = cmd.size -ℤ r.0 in
    (r.1, if rejected_size ==ℤ pos 0 then r.2 else attach_reject_event r.2 rejected_size)

-- `IsBudgetLimitSatisfied`
unfoldable pub is_budget_limit_satisfied : OrderAction → ℤ → ℤ → Bool
is_budget_limit_satisfied action calculated limit =
    (calculated ==ℤ limit) || xor (is_bid action) (ltb_ℤ limit calculated)

-- `NewOrderMatchFokBudget`
unfoldable pub new_order_match_fok_budget : OrderBook → OrderCommand → OrderBook × OrderCommand
new_order_match_fok_budget book cmd =
    elim (check_budget cmd.size (pos 0) (buckets_by_action (opposite cmd.action) book)) [
      | none ↦ (book, attach_reject_event cmd cmd.size)
      | some budget ↦
          let r =
            try_match_instantly cmd.action (λ p. true) cmd.size cmd.reserve_bid_price (pos 0) book
              cmd in
          if is_budget_limit_satisfied cmd.action budget cmd.price
          then (r.1, r.2)
          else (book, attach_reject_event cmd cmd.size)
    ]

-- `NewOrder`: the switch over the types of order.
unfoldable pub new_order_of_type : OrderType → OrderBook → OrderCommand → OrderBook × OrderCommand
new_order_of_type OrderType.gtc book cmd = new_order_place_gtc book cmd
new_order_of_type OrderType.ioc book cmd = new_order_match_ioc book cmd
new_order_of_type OrderType.fok_budget book cmd = new_order_match_fok_budget book cmd
new_order_of_type OrderType.ioc_budget book cmd = (book, attach_reject_event cmd cmd.size)
new_order_of_type OrderType.fok book cmd = (book, attach_reject_event cmd cmd.size)

unfoldable pub new_order : OrderBook → OrderCommand → OrderBook × OrderCommand
unfolding new_order_of_type
new_order book cmd = new_order_of_type cmd.order_type book cmd
