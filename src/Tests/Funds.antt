-- ===== src/Tests/Funds.antt =====
-- The theorems on funds and positions at work on three users.
use exchange_cpp.Base.{List, [], ◌∷◌, true, false, some, ◌≡◌, ◌≢◌, refl, arith}
use exchange_cpp.Base.Dict.{lookup, insert}
use exchange_cpp.Base.Int.{pos, negsuc, ◌+ℤ◌, ◌-ℤ◌, ◌*ℤ◌}
use exchange_cpp.Common.{
  ask, bid, OrderType, CommandResultCode, MatcherTradeEvent, trade, BalanceAdjustmentType, active,
  long, empty,
}
use exchange_cpp.OrderBook.Events.{reject_event}
use exchange_cpp.Risk.Arithmetic.{
  calculate_amount_bid_taker_fee, calculate_amount_bid_taker_fee_for_budget,
}
use exchange_cpp.Risk.Position.{
  LastPriceCacheRecord, SymbolPositionRecord, update_position_for_margin_trade, estimate_profit,
}
use exchange_cpp.Risk.Position.Trades.{
  IsPosition, signed_volume, sign, equity, update_position_for_margin_trade-IsPosition,
  update_position_for_margin_trade_volume,
}
use exchange_cpp.Risk.Position.Equity.{
  equity-update_position_for_margin_trade, estimate_profit-closed_at_market, closed_at_market,
}
use exchange_cpp.Risk.Users.{
  UserProfile, Users, new_user_profile, amount_at, balance_adjustment, adjust_profile,
}
use exchange_cpp.Risk.Users.Totals.{balance, total_balance}
use exchange_cpp.Risk.Users.Adjustments.{
  Adjusts, adjust_profile-Adjusts, RefusesAgain, balance_adjustment_once,
}
use exchange_cpp.Risk.Exchange.{
  amount, hold_amount, bid_hold_amount, place_exchange_order, hold,
  handle_matcher_reject_reduce_event_exchange, released_amount, handle_matcher_events_exchange_sell,
  handle_matcher_events_exchange_buy,
}
use exchange_cpp.Risk.Exchange.Settlement.{in_currency, bids_held, asks_held}
use exchange_cpp.Risk.Exchange.Conservation.{
  taker_held, handle_matcher_events_exchange_sell_conserves,
  handle_matcher_events_exchange_buy_conserves,
}
use exchange_cpp.Risk.Exchange.Release.{
  place_exchange_order_rejected, balance_of, ioc_budget_bid, ioc_budget_released,
}
use exchange_cpp.Risk.Engine.{RiskEngine, adjust_balance}
use exchange_cpp.Risk.Engine.Adjusting.{accounted, adjust_balance-accounted}
use exchange_cpp.Tests.{spec, placed}

abbrev user : UserProfile
user = record {
  uid = 13;
  positions = [];
  adjustments_counter = pos 4;
  accounts = (2, pos 5000) ∷ (1, pos 60) ∷ [];
  user_status = active;
}

abbrev users : Users
users = (13, user) ∷ (10, new_user_profile 10 active) ∷ []

-- A trade of 5 at 100 with an order of user 10, held at 102.
abbrev a_trade : MatcherTradeEvent
a_trade = record {
  event_type = trade;
  section = 0;
  active_order_completed = true;
  matched_order_id = 1;
  matched_order_uid = 10;
  matched_order_completed = true;
  price = pos 100;
  size = pos 5;
  bidder_hold_price = pos 102;
}

abbrev trades : List MatcherTradeEvent
trades = a_trade ∷ []

handle_matcher_events_exchange_sell_conserves_example :
    let r = handle_matcher_events_exchange_sell (λ k. true) trades spec (some 13) users [] in
    total_balance 2 r.0 +ℤ amount_at 2 r.1
    ≡ total_balance 2 users
      +ℤ amount_at 2 []
      +ℤ in_currency 2 2 (bids_held spec trades)
      +ℤ in_currency 2 1 (asks_held spec trades)
handle_matcher_events_exchange_sell_conserves_example =
    handle_matcher_events_exchange_sell_conserves (λ k. true) (λ k. refl) trades spec 13 users [] 2

handle_matcher_events_exchange_buy_conserves_example :
    let r =
      handle_matcher_events_exchange_buy
        (λ k. true)
        trades
        spec
        (some 13)
        (placed 4 13 bid OrderType.ioc 102 5)
        users
        [] in
    total_balance 2 r.0 +ℤ amount_at 2 r.1
    ≡ total_balance 2 users
      +ℤ amount_at 2 []
      +ℤ in_currency 2 2 (taker_held (placed 4 13 bid OrderType.ioc 102 5) spec trades)
      +ℤ in_currency 2 1 (asks_held spec trades)
handle_matcher_events_exchange_buy_conserves_example =
    handle_matcher_events_exchange_buy_conserves (λ k. true) (λ k. refl) trades spec 13
      (placed 4 13 bid OrderType.ioc 102 5) users [] 2

enough_funds :
    (place_exchange_order (placed 4 13 bid OrderType.ioc 100 5) spec user).0
    ≡ CommandResultCode.valid_for_matching_engine
unfolding place_exchange_order hold_amount bid_hold_amount hold amount_at lookup
    calculate_amount_bid_taker_fee ◌+ℤ◌ ◌*ℤ◌
enough_funds = refl

not_ioc_budget : OrderType.ioc_budget ≢ OrderType.ioc
not_ioc_budget e = cc

place_exchange_order_rejected_example :
    balance_of 13 2 (
      handle_matcher_reject_reduce_event_exchange
        (placed 4 13 bid OrderType.ioc 100 5)
        (reject_event (placed 4 13 bid OrderType.ioc 100 5) (pos 5))
        spec
        13
        (insert 13 (place_exchange_order (placed 4 13 bid OrderType.ioc 100 5) spec user).1 users))
    ≡ balance 2 user
place_exchange_order_rejected_example =
    place_exchange_order_rejected (placed 4 13 bid OrderType.ioc 100 5) spec 13 2 user users refl
      not_ioc_budget enough_funds

budget_amount :
    hold_amount bid (ioc_budget_bid (placed 4 13 bid OrderType.ioc 500 5)) spec ≡ amount (pos 1510)
unfolding hold_amount bid_hold_amount calculate_amount_bid_taker_fee_for_budget ◌+ℤ◌ ◌*ℤ◌
budget_amount = refl

ioc_budget_released_example :
    released_amount
      (ioc_budget_bid (placed 4 13 bid OrderType.ioc 500 5))
      (reject_event (ioc_budget_bid (placed 4 13 bid OrderType.ioc 500 5)) (pos 5))
      spec
    ≡ pos 1510 +ℤ (pos 5 -ℤ pos 1) *ℤ (pos 500 *ℤ pos 3)
ioc_budget_released_example =
    ioc_budget_released (placed 4 13 bid OrderType.ioc 500 5) spec (pos 1510) budget_amount

-- A long position of 6 bought at 50.
abbrev six_long : SymbolPositionRecord
six_long = record {
  uid = 13;
  symbol = 7;
  currency = 2;
  direction = long;
  open_volume = pos 6;
  open_price_sum = pos 300;
  profit = pos 0;
  pending_sell_size = pos 10;
  pending_buy_size = pos 0;
}

update_position_for_margin_trade-IsPosition_example :
    IsPosition (update_position_for_margin_trade ask (pos 10) (pos 60) six_long).1
update_position_for_margin_trade-IsPosition_example =
    update_position_for_margin_trade-IsPosition ask (pos 10) (pos 60) six_long (omega arith)
      (omega arith)

update_position_for_margin_trade_volume_example :
    signed_volume (update_position_for_margin_trade ask (pos 10) (pos 60) six_long).1
    ≡ pos 6 +ℤ (pos 0 -ℤ pos 10)
update_position_for_margin_trade_volume_example =
    update_position_for_margin_trade_volume ask (pos 10) (pos 60) six_long (omega arith)
      (omega arith)

equity-update_position_for_margin_trade_example :
    equity (pos 55) (update_position_for_margin_trade ask (pos 10) (pos 60) six_long).1
    ≡ equity (pos 55) six_long +ℤ sign ask (pos 10 *ℤ (pos 55 -ℤ pos 60))
equity-update_position_for_margin_trade_example =
    equity-update_position_for_margin_trade ask (pos 10) (pos 60) (pos 55) six_long (omega arith)
      (omega arith)

estimate_profit-closed_at_market_example :
    let last : LastPriceCacheRecord = record { ask_price = pos 57; bid_price = pos 55 } in
    ((closed_at_market last six_long).direction ≡ empty)
    × ((closed_at_market last six_long).profit ≡ estimate_profit spec last six_long)
estimate_profit-closed_at_market_example =
    estimate_profit-closed_at_market spec (record { ask_price = pos 57; bid_price = pos 55 })
      six_long (omega arith) refl refl

adjust_profile-Adjusts_example :
    Adjusts 2
      (negsuc 99)
      (pos 5)
      user
      (adjust_profile 2 (negsuc 99) (pos 5) user).0
      (adjust_profile 2 (negsuc 99) (pos 5) user).1
adjust_profile-Adjusts_example = adjust_profile-Adjusts 2 (negsuc 99) (pos 5) user

withdrawn : (balance_adjustment 13 2 (negsuc 99) (pos 5) users).0 ≡ CommandResultCode.success
unfolding balance_adjustment adjust_profile amount_at lookup ◌+ℤ◌
withdrawn = refl

balance_adjustment_once_example :
    RefusesAgain 13 1 (pos 7) (pos 5) (balance_adjustment 13 2 (negsuc 99) (pos 5) users).1
balance_adjustment_once_example =
    balance_adjustment_once 13 2 1 (negsuc 99) (pos 7) (pos 5) users withdrawn

abbrev engine : RiskEngine
engine = record {
  shard_id = 0;
  shard_mask = 0;
  ignore_risk_processing = false;
  margin_trading_enabled = true;
  symbols = (5, spec) ∷ [];
  users = users;
  last_price_cache = [];
  fees = [];
  adjustments = [];
  suspends = [];
}

adjust_balance-accounted_example :
    accounted 2 (adjust_balance 13 2 (negsuc 99) (pos 5) BalanceAdjustmentType.adjustment engine).1
    ≡ accounted 2 engine
adjust_balance-accounted_example =
    adjust_balance-accounted 13 2 2 (negsuc 99) (pos 5) BalanceAdjustmentType.adjustment engine
