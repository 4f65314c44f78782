-- ===== src/Tests/Refunds.antt =====
-- Held commands that are rejected or traded, at work on a user of a handler.
use exchange_cpp.Base.{◌⊎◌, ℕ, [], ◌∷◌, true, false, some, ◌≡◌, ◌≢◌, refl}
use exchange_cpp.Base.Dict.{lookup, insert}
use exchange_cpp.Base.Int.{◌≤ℤ◌, pos, ◌+ℤ◌, ◌*ℤ◌}
use exchange_cpp.Common.{
  bid, OrderType, CommandResultCode, OrderCommand, MatcherTradeEvent, L2MarketData, active, trade,
}
use exchange_cpp.Risk.Arithmetic.{calculate_amount_bid_taker_fee}
use exchange_cpp.Risk.Users.{UserProfile, amount_at}
use exchange_cpp.Risk.Exchange.{place_exchange_order, hold_amount, bid_hold_amount, hold}
use exchange_cpp.Risk.Exchange.Release.{balance_of}
use exchange_cpp.Risk.Engine.{RiskEngine, uid_for_this_handler}
use exchange_cpp.Risk.Margin.{place_order_risk_check, check_known, place_order_of}
use exchange_cpp.Risk.PostProcess.{processed, post_process_command}
use exchange_cpp.Risk.PostProcess.Refund.{rejected, post_process_command_refunds}
use exchange_cpp.Risk.PostProcess.{exchange_trades}
use exchange_cpp.Risk.PostProcess.Traded.{makers_held, held_and_traded}
use exchange_cpp.OrderBook.Bucket.Volume.{total_size}
use exchange_cpp.Risk.Users.Totals.{balance, total_balance}
use exchange_cpp.Tests.{spec, placed}

abbrev payer : UserProfile
payer = record {
  uid = 13;
  positions = [];
  adjustments_counter = pos 4;
  accounts = (2, pos 5000) ∷ (1, pos 60) ∷ [];
  user_status = active;
}

abbrev engine : RiskEngine
engine = record {
  shard_id = 0;
  shard_mask = 0;
  ignore_risk_processing = false;
  margin_trading_enabled = true;
  symbols = (5, spec) ∷ [];
  users = (13, payer) ∷ [];
  last_price_cache = [];
  fees = [];
  adjustments = [];
  suspends = [];
}

abbrev buy : OrderCommand
buy = placed 4 13 bid OrderType.ioc 100 5

-- The best prices that come back with the command.
abbrev best_prices : L2MarketData
best_prices = record { asks = (pos 101, pos 4, 1) ∷ []; bids = [] }

payer_known : lookup 13 engine.users ≡ some payer
unfolding lookup
payer_known = refl

spec_listed : lookup 5 engine.symbols ≡ some spec
unfolding lookup
spec_listed = refl

in_this_handler : uid_for_this_handler engine 13 ≡ true
unfolding uid_for_this_handler
in_this_handler = refl

not_ioc_budget : OrderType.ioc_budget ≢ OrderType.ioc
not_ioc_budget e = cc

passes : (place_order_risk_check buy engine).0 ≡ CommandResultCode.valid_for_matching_engine
unfolding place_order_risk_check check_known place_order_of place_exchange_order hold_amount
    bid_hold_amount hold amount_at lookup calculate_amount_bid_taker_fee ◌+ℤ◌ ◌*ℤ◌
passes = refl

post_process_command_refunds_example :
    (e' : RiskEngine) × (post_process_command
        (rejected (some best_prices) buy)
        (place_order_risk_check buy engine).1
      ≡ processed e')
    × (balance_of 13 2 e'.users ≡ balance_of 13 2 engine.users)
post_process_command_refunds_example =
    post_process_command_refunds (some best_prices) buy spec engine payer 2 payer_known spec_listed
      refl refl in_this_handler refl not_ioc_budget passes

-- Two trades of 2 and 3 with orders of user 10, below the limit of the bid.
abbrev bought : ℕ → ℕ → MatcherTradeEvent
bought price size = record {
  event_type = trade;
  section = 0;
  active_order_completed = false;
  matched_order_id = 1;
  matched_order_uid = 10;
  matched_order_completed = true;
  price = pos price;
  size = pos size;
  bidder_hold_price = pos 100;
}

all_in_this_handler : (k : ℕ) → uid_for_this_handler engine k ≡ true
unfolding uid_for_this_handler
all_in_this_handler k = refl

five_bought : total_size (bought 98 2 ∷ bought 99 3 ∷ []) ≡ pos 5
unfolding total_size ◌+ℤ◌
five_bought = refl

funds_held : (place_exchange_order buy spec payer).0 ≡ CommandResultCode.valid_for_matching_engine
unfolding place_exchange_order hold_amount bid_hold_amount hold amount_at lookup
    calculate_amount_bid_taker_fee ◌+ℤ◌ ◌*ℤ◌
funds_held = refl

held_and_traded_example :
    let held = record engine {
      users = insert 13 (place_exchange_order buy spec payer).1 engine.users;
    } in
    let e' = exchange_trades bid (bought 98 2 ∷ bought 99 3 ∷ []) spec (some 13) buy held in
    ((balance 2 (place_exchange_order buy spec payer).1 ≡ balance 2 payer)
      ⊎ (pos 0 ≤ℤ balance 2 (place_exchange_order buy spec payer).1))
    × (total_balance 2 e'.users +ℤ amount_at 2 e'.fees
        ≡ total_balance 2 engine.users
          +ℤ amount_at 2 engine.fees
          +ℤ makers_held 2 bid spec (bought 98 2 ∷ bought 99 3 ∷ []))
held_and_traded_example =
    held_and_traded buy spec engine payer (bought 98 2) (bought 99 3 ∷ []) 2 all_in_this_handler
      payer_known refl not_ioc_budget five_bought (refl, (refl, tt)) funds_held
