-- ===== src/Tests/Margins.antt =====
-- The theorems on margin orders at work on a user with an open position.
use exchange_cpp.Base.{[], ◌∷◌, true, false, some, ◌≡◌, refl, subst, arith}
use exchange_cpp.Base.Dict.{lookup, insert}
use exchange_cpp.Base.Int.{pos, ◌+ℤ◌, ◌-ℤ◌, ◌*ℤ◌, max_ℤ}
use mathlib.Core.Option.{some-injective}
use exchange_cpp.Common.{
  ask, bid, trade, MatcherTradeEvent, OrderType, CommandResultCode, MatcherEventType, SymbolType,
  CoreSymbolSpecification, OrderCommand, active, long, empty,
}
use exchange_cpp.OrderBook.Events.{reject_event}
use exchange_cpp.Risk.Position.{
  SymbolPositionRecord, is_empty, pending_hold, estimate_profit,
  calculate_required_margin_for_order,
}
use exchange_cpp.Risk.Users.{UserProfile, amount_at}
use exchange_cpp.Risk.Engine.{
  RiskEngine, can_place_margin_order, free_margin, add_free_margin, last_price,
}
use exchange_cpp.Risk.Margin.{place_margin_order, position_or_new, taker_event, trade_position}
use exchange_cpp.Risk.Margin.Rejected.{SameFunds, place_margin_order_rejected}
use exchange_cpp.Risk.Margin.Worth.{worth, IsPositionOf, margin_trade_conserves}
use exchange_cpp.Tests.{spec, placed}

abbrev future : CoreSymbolSpecification
future = record spec {
  symbol_type = SymbolType.futures_contract;
  margin_buy = pos 20;
  margin_sell = pos 30;
}

abbrev six_long : SymbolPositionRecord
six_long = record {
  uid = 13;
  symbol = 5;
  currency = 2;
  direction = long;
  open_volume = pos 6;
  open_price_sum = pos 300;
  profit = pos 0;
  pending_sell_size = pos 10;
  pending_buy_size = pos 0;
}

abbrev holder : UserProfile
holder = record {
  uid = 13;
  positions = (5, six_long) ∷ [];
  adjustments_counter = pos 4;
  accounts = (2, pos 5000) ∷ [];
  user_status = active;
}

abbrev engine : RiskEngine
engine = record {
  shard_id = 0;
  shard_mask = 0;
  ignore_risk_processing = false;
  margin_trading_enabled = true;
  symbols = (5, future) ∷ [];
  users = (13, holder) ∷ [];
  last_price_cache = (5, record { ask_price = pos 52; bid_price = pos 51 }) ∷ [];
  fees = [];
  adjustments = [];
  suspends = [];
}

abbrev buy_five : OrderCommand
buy_five = placed 4 13 bid OrderType.gtc 100 5

kept : (p : SymbolPositionRecord) → lookup 5 holder.positions ≡ some p → is_empty p ≡ false
unfolding lookup is_empty
kept p found = subst (λ q. is_empty q ≡ false) (some-injective _ _ found) refl

accepted_here :
    (place_margin_order buy_five holder future engine).0
    ≡ CommandResultCode.valid_for_matching_engine
unfolding place_margin_order position_or_new can_place_margin_order free_margin add_free_margin
    last_price estimate_profit calculate_required_margin_for_order amount_at lookup insert
    pending_hold is_empty ◌+ℤ◌ ◌-ℤ◌ ◌*ℤ◌ max_ℤ
accepted_here = refl

found_here :
    lookup 5 (place_margin_order buy_five holder future engine).1.positions
    ≡ some (record six_long { pending_buy_size = pos 5 })
unfolding place_margin_order position_or_new can_place_margin_order free_margin add_free_margin
    last_price estimate_profit calculate_required_margin_for_order amount_at lookup insert
    pending_hold is_empty ◌+ℤ◌ ◌-ℤ◌ ◌*ℤ◌ max_ℤ
found_here = refl

place_margin_order_rejected_example :
    SameFunds
      (taker_event MatcherEventType.reject bid
        (reject_event buy_five (pos 5))
        future
        (record six_long { pending_buy_size = pos 5 })
        (place_margin_order buy_five holder future engine).1).1
      holder
place_margin_order_rejected_example =
    place_margin_order_rejected buy_five future holder engine
      (record six_long { pending_buy_size = pos 5 }) kept accepted_here found_here

-- A buyer of ten that has no open position yet.
abbrev ten_pending : SymbolPositionRecord
ten_pending = record {
  uid = 10;
  symbol = 5;
  currency = 2;
  direction = empty;
  open_volume = pos 0;
  open_price_sum = pos 0;
  profit = pos 0;
  pending_sell_size = pos 0;
  pending_buy_size = pos 10;
}

abbrev buyer : UserProfile
buyer = record {
  uid = 10;
  positions = (5, ten_pending) ∷ [];
  adjustments_counter = pos 0;
  accounts = (2, pos 900) ∷ [];
  user_status = active;
}

-- Ten sold at 60 to user 10, which turns the seller's position.
abbrev ten_sold : MatcherTradeEvent
ten_sold = record {
  event_type = trade;
  section = 0;
  active_order_completed = true;
  matched_order_id = 1;
  matched_order_uid = 10;
  matched_order_completed = true;
  price = pos 60;
  size = pos 10;
  bidder_hold_price = pos 60;
}

six_long_of : IsPositionOf future six_long
six_long_of = record { of_symbol = refl; of_currency = refl }

ten_pending_of : IsPositionOf future ten_pending
ten_pending_of = record { of_symbol = refl; of_currency = refl }

holder_has : lookup 5 holder.positions ≡ some six_long
unfolding lookup
holder_has = refl

buyer_has : lookup 5 buyer.positions ≡ some ten_pending
unfolding lookup
buyer_has = refl

margin_trade_conserves_example :
    let t = taker_event MatcherEventType.trade ask ten_sold future six_long holder in
    let m = trade_position bid ten_sold 5 (pos 1) future ten_pending buyer in
    t.0 +ℤ m.0 +ℤ (worth future (pos 55) t.1 +ℤ worth future (pos 55) m.1)
    ≡ worth future (pos 55) holder +ℤ worth future (pos 55) buyer
margin_trade_conserves_example =
    margin_trade_conserves ask ten_sold (pos 55) future six_long ten_pending holder buyer
      (omega arith) (omega arith) (refl, refl) six_long_of ten_pending_of holder_has buyer_has
