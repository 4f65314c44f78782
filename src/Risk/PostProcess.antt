-- ===== src/Risk/PostProcess.antt =====
-- RiskEngine.cpp, after the matching engine: `HandleMatcherEventMargin` and `PostProcessCommand`.
pub mod Refund
pub mod Traded
use exchange_cpp.Base.{ℕ, Bool, true, false, ◌&&◌, if◌then◌else◌, Option, none, some, List, [], ◌∷◌}
use exchange_cpp.Base.Dict.{lookup, insert}
use exchange_cpp.Base.Int.{ℤ, pos, int64_max}
use exchange_cpp.Common.{
  OrderAction, ask, bid, opposite, CoreSymbolSpecification, OrderCommand, MatcherTradeEvent,
  MatcherEventType, SymbolType, L2MarketData,
}
use exchange_cpp.Risk.Users.{add_amount, get_user_profile_or_add_suspended}
use exchange_cpp.Risk.Exchange.{
  handle_matcher_reject_reduce_event_exchange, handle_matcher_events_exchange_sell,
  handle_matcher_events_exchange_buy,
}
use exchange_cpp.Risk.Engine.{RiskEngine, uid_for_this_handler}
use exchange_cpp.Risk.Margin.{trade_position, taker_event}

-- What the code throws on, and `removed_position` where it goes on with a record that it gave back to the
-- pool: there the model stops.
pub data ProcessFault : Type 0 where
  symbol_not_found : ProcessFault
  position_not_found : ProcessFault
  removed_position : ProcessFault

pub data Processed : Type 0 where
  processed : RiskEngine → Processed
  failed : ProcessFault → Processed

abbrev pub is_trade : MatcherEventType → Bool
is_trade MatcherEventType.trade = true
is_trade _ = false

abbrev pub is_binary_event : MatcherEventType → Bool
is_binary_event MatcherEventType.binary_event = true
is_binary_event _ = false

abbrev pub is_reject_or_reduce : MatcherEventType → Bool
is_reject_or_reduce MatcherEventType.reject = true
is_reject_or_reduce MatcherEventType.reduce = true
is_reject_or_reduce _ = false

-- The first part of `HandleMatcherEventMargin`, for a taker of this handler.
unfoldable pub taker_margin :
    OrderAction → MatcherTradeEvent → CoreSymbolSpecification → Option ℕ → RiskEngine → Processed
unfolding taker_event
taker_margin action ev spec none e = processed e
taker_margin action ev spec (some uid) e =
    let found = get_user_profile_or_add_suspended uid e.users in
    elim (lookup spec.symbol_id found.0.positions) [
      | none ↦ failed removed_position
      | some position ↦
          let r = taker_event ev.event_type action ev spec position found.0 in
          processed (record e {
            users = insert uid r.1 found.1;
            fees =
                if is_trade ev.event_type
                then add_amount spec.quote_currency r.0 e.fees
                else e.fees;
          })
    ]

-- The second part, for a maker of this handler.
unfoldable pub maker_margin :
    OrderAction → MatcherTradeEvent → CoreSymbolSpecification → RiskEngine → Processed
unfolding trade_position
maker_margin action ev spec e =
    if is_trade ev.event_type && uid_for_this_handler e ev.matched_order_uid
    then (let uid = ev.matched_order_uid in
        let found = get_user_profile_or_add_suspended uid e.users in
        elim (lookup spec.symbol_id found.0.positions) [
          | none ↦ failed position_not_found
          | some position ↦
              let r =
                trade_position (opposite action) ev spec.symbol_id spec.maker_fee spec position
                  found.0 in
              processed (record e {
                users = insert uid r.1 found.1;
                fees = add_amount spec.quote_currency r.0 e.fees;
              })
        ])
    else processed e

unfoldable pub then_process : Processed → (RiskEngine → Processed) → Processed
then_process (processed e) f = f e
then_process (failed fault) f = failed fault

-- `HandleMatcherEventMargin`
unfoldable pub handle_matcher_event_margin :
    MatcherTradeEvent → CoreSymbolSpecification → OrderAction → Option ℕ → RiskEngine → Processed
handle_matcher_event_margin ev spec action taker e =
    then_process (taker_margin action ev spec taker e) (maker_margin action ev spec)

-- The loop of `PostProcessCommand` over the events of a margin symbol.
unfoldable pub margin_events :
    List MatcherTradeEvent
    → CoreSymbolSpecification
    → OrderAction
    → Option ℕ
    → RiskEngine
    → Processed
unfolding handle_matcher_event_margin then_process
margin_events [] spec action taker e = processed e
margin_events (ev ∷ evs) spec action taker e =
    then_process (handle_matcher_event_margin ev spec action taker e)
      (margin_events evs spec action taker)

-- The taker is resolved, or added and suspended, in its own handler alone.
unfoldable pub resolve_taker : ℕ → RiskEngine → Option ℕ × RiskEngine
resolve_taker uid e =
    if uid_for_this_handler e uid
    then (some uid, record e { users = (get_user_profile_or_add_suspended uid e.users).1 })
    else (none, e)

-- The trades, once the rejection or the reduction before them is released.
unfoldable pub exchange_trades :
    OrderAction
    → List MatcherTradeEvent
    → CoreSymbolSpecification
    → Option ℕ
    → OrderCommand
    → RiskEngine
    → RiskEngine
exchange_trades action [] spec taker cmd e = e
exchange_trades ask (ev ∷ evs) spec taker cmd e =
    let r =
      handle_matcher_events_exchange_sell (uid_for_this_handler e) (ev ∷ evs) spec taker e.users
        e.fees in
    record e { users = r.0; fees = r.1 }
exchange_trades bid (ev ∷ evs) spec taker cmd e =
    let r =
      handle_matcher_events_exchange_buy (uid_for_this_handler e) (ev ∷ evs) spec taker cmd e.users
        e.fees in
    record e { users = r.0; fees = r.1 }

unfoldable pub release_taker :
    Option ℕ → MatcherTradeEvent → CoreSymbolSpecification → OrderCommand → RiskEngine → RiskEngine
release_taker none ev spec cmd e = e
release_taker (some uid) ev spec cmd e = record e {
  users = handle_matcher_reject_reduce_event_exchange cmd ev spec uid e.users;
}

-- The events of a pair of currencies. A rejection or a reduction comes first.
unfoldable pub exchange_events :
    MatcherTradeEvent
    → List MatcherTradeEvent
    → CoreSymbolSpecification
    → OrderCommand
    → RiskEngine
    → RiskEngine
unfolding exchange_trades release_taker resolve_taker
exchange_events ev evs spec cmd e =
    let r = resolve_taker cmd.uid e in
    if is_reject_or_reduce ev.event_type
    then exchange_trades cmd.action evs spec r.0 cmd (release_taker r.0 ev spec cmd r.1)
    else exchange_trades cmd.action (ev ∷ evs) spec r.0 cmd r.1

-- A taker of this handler that has no position in the symbol of the command is an error.
unfoldable pub futures_events :
    List MatcherTradeEvent → CoreSymbolSpecification → OrderCommand → RiskEngine → Processed
unfolding margin_events resolve_taker
futures_events evs spec cmd e =
    let r = resolve_taker cmd.uid e in
    elim r.0 [
      | none ↦ margin_events evs spec cmd.action none r.1
      | some uid ↦
          elim (lookup cmd.symbol (get_user_profile_or_add_suspended uid r.1.users).0.positions) [
            | none ↦ failed position_not_found
            | some _ ↦ margin_events evs spec cmd.action (some uid) r.1
          ]
    ]

-- The events of a command by the type of its symbol.
unfoldable pub process_events :
    SymbolType
    → List MatcherTradeEvent
    → CoreSymbolSpecification
    → OrderCommand
    → RiskEngine
    → Processed
unfolding exchange_events futures_events
process_events type [] spec cmd e = processed e
process_events SymbolType.currency_exchange_pair (ev ∷ evs) spec cmd e =
    if is_binary_event ev.event_type
    then processed e
    else processed (exchange_events ev evs spec cmd e)
process_events SymbolType.futures_contract (ev ∷ evs) spec cmd e =
    if is_binary_event ev.event_type then processed e else futures_events (ev ∷ evs) spec cmd e
process_events SymbolType.option (ev ∷ evs) spec cmd e = processed e

-- The best price of a side, or what stands for none.
abbrev pub best_price : ℤ → List (ℤ × ℤ × ℕ) → ℤ
best_price otherwise [] = otherwise
best_price otherwise (level ∷ levels) = level.0

-- The market data of a command renews the last prices of its symbol.
unfoldable pub process_market_data : ℕ → Option L2MarketData → RiskEngine → RiskEngine
process_market_data symbol none e = e
process_market_data symbol (some prices) e =
    if e.margin_trading_enabled
    then record e {
      last_price_cache =
          insert symbol
            (record {
              ask_price = best_price int64_max prices.asks;
              bid_price = best_price (pos 0) prices.bids;
            })
            e.last_price_cache;
    }
    else e

-- Neither market data nor an event that is not binary.
unfoldable pub has_nothing_to_process : Option L2MarketData → List MatcherTradeEvent → Bool
has_nothing_to_process (some _) _ = false
has_nothing_to_process none [] = true
has_nothing_to_process none (ev ∷ evs) = is_binary_event ev.event_type

-- `PostProcessCommand`
unfoldable pub post_process_command : OrderCommand → RiskEngine → Processed
unfolding process_events process_market_data has_nothing_to_process
post_process_command cmd e =
    if has_nothing_to_process cmd.market_data cmd.matcher_event
    then processed e
    else elim (lookup cmd.symbol e.symbols) [
      | none ↦ failed symbol_not_found
      | some spec ↦
          then_process (process_events spec.symbol_type cmd.matcher_event spec cmd e)
            (λ e'. processed (process_market_data cmd.symbol cmd.market_data e'))
    ]
