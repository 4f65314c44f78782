-- ===== src/Risk/Margin.antt =====
-- RiskEngine.cpp, for futures: `PlaceOrder`, `PlaceOrderRiskCheck` and `HandleMatcherEventMargin`.
pub mod Rejected
pub mod Worth
use exchange_cpp.Base.{ℕ, Bool, true, false, not, if◌then◌else◌, Option, none, some, List, [], ◌∷◌}
use exchange_cpp.Base.Dict.{Dict, lookup, insert}
use exchange_cpp.Base.Int.{ℤ, pos, ◌-ℤ◌, ◌*ℤ◌}
use exchange_cpp.Common.{
  OrderAction, opposite, CommandResultCode, CoreSymbolSpecification, OrderCommand,
  MatcherTradeEvent, MatcherEventType, SymbolType,
}
use exchange_cpp.Risk.Position.{
  SymbolPositionRecord, initialize, is_empty, pending_hold, pending_release,
  update_position_for_margin_trade,
}
use exchange_cpp.Risk.Users.{UserProfile, Users, add_amount, get_user_profile_or_add_suspended}
use exchange_cpp.Risk.Exchange.{place_exchange_order}
use exchange_cpp.Risk.Engine.{
  RiskEngine, uid_for_this_handler, can_place_margin_order, remove_position_record,
}

-- The position of a symbol, and a fresh one if the user has none.
unfoldable pub position_or_new :
    OrderCommand → CoreSymbolSpecification → UserProfile → SymbolPositionRecord
position_or_new cmd spec profile = elim (lookup spec.symbol_id profile.positions) [
  | some position ↦ position
  | none ↦ initialize cmd.uid spec.symbol_id spec.quote_currency
]

abbrev pub with_position : ℕ → SymbolPositionRecord → UserProfile → UserProfile
with_position symbol position profile = record profile {
  positions = insert symbol position profile.positions;
}

-- `PlaceOrder` of a futures contract.
unfoldable pub place_margin_order :
    OrderCommand
    → UserProfile
    → CoreSymbolSpecification
    → RiskEngine
    → CommandResultCode × UserProfile
unfolding position_or_new
place_margin_order cmd profile spec e =
    let position = position_or_new cmd spec profile in
    let profile' = with_position spec.symbol_id position profile in
    if can_place_margin_order cmd profile' spec position e
    then (
      CommandResultCode.valid_for_matching_engine,
      with_position spec.symbol_id (pending_hold cmd.action cmd.size position) profile',
    )
    else (
      CommandResultCode.risk_nsf,
      if is_empty position then remove_position_record position profile' else profile',
    )

-- `PlaceOrder`
unfoldable pub place_order_of :
    SymbolType
    → OrderCommand
    → UserProfile
    → CoreSymbolSpecification
    → RiskEngine
    → CommandResultCode × UserProfile
unfolding place_margin_order
place_order_of SymbolType.currency_exchange_pair cmd profile spec e =
    place_exchange_order cmd spec profile
place_order_of SymbolType.futures_contract cmd profile spec e =
    if e.margin_trading_enabled
    then place_margin_order cmd profile spec e
    else (CommandResultCode.risk_margin_trading_disabled, profile)
place_order_of SymbolType.option cmd profile spec e =
    (CommandResultCode.unsupported_symbol_type, profile)

abbrev pub is_valid : CommandResultCode → Bool
is_valid CommandResultCode.valid_for_matching_engine = true
is_valid _ = false

-- `PlaceOrderRiskCheck` of a user and a symbol that are known.
unfoldable pub check_known :
    OrderCommand
    → UserProfile
    → CoreSymbolSpecification
    → RiskEngine
    → CommandResultCode × RiskEngine
unfolding place_order_of
check_known cmd profile spec e =
    if e.ignore_risk_processing
    then (CommandResultCode.valid_for_matching_engine, e)
    else (let r = place_order_of spec.symbol_type cmd profile spec e in
        (
          if is_valid r.0 then r.0 else CommandResultCode.risk_nsf,
          record e { users = insert cmd.uid r.1 e.users },
        ))

-- `PlaceOrderRiskCheck`
unfoldable pub place_order_risk_check : OrderCommand → RiskEngine → CommandResultCode × RiskEngine
unfolding check_known
place_order_risk_check cmd e = elim (lookup cmd.uid e.users) [
  | none ↦ (CommandResultCode.auth_invalid_user, e)
  | some profile ↦ elim (lookup cmd.symbol e.symbols) [
    | none ↦ (CommandResultCode.invalid_symbol, e)
    | some spec ↦ check_known cmd profile spec e
  ]
]

-- A position goes back to its user, or is removed if it is empty.
unfoldable pub settle_position : ℕ → SymbolPositionRecord → UserProfile → UserProfile
settle_position symbol position profile =
    let profile' = with_position symbol position profile in
    if is_empty position then remove_position_record position profile' else profile'

-- A trade of a size at a price, on the position of one party: the user pays the fee of what it opens.
unfoldable pub trade_position :
    OrderAction
    → MatcherTradeEvent
    → ℕ
    → ℤ
    → CoreSymbolSpecification
    → SymbolPositionRecord
    → UserProfile
    → ℤ × UserProfile
unfolding settle_position
trade_position action ev symbol fee_per_size spec position profile =
    let opened = update_position_for_margin_trade action ev.size ev.price position in
    let fee = fee_per_size *ℤ opened.0 in
    let paid = record profile {
      accounts = add_amount spec.quote_currency (pos 0 -ℤ fee) profile.accounts;
    } in
    (fee, settle_position symbol opened.1 paid)

-- The part of the taker of `HandleMatcherEventMargin`: the fee, and the profile.
unfoldable pub taker_event :
    MatcherEventType
    → OrderAction
    → MatcherTradeEvent
    → CoreSymbolSpecification
    → SymbolPositionRecord
    → UserProfile
    → ℤ × UserProfile
unfolding trade_position
taker_event MatcherEventType.trade action ev spec position profile =
    trade_position action ev spec.symbol_id spec.taker_fee spec position profile
taker_event MatcherEventType.reject action ev spec position profile =
    (pos 0, settle_position spec.symbol_id (pending_release action ev.size position) profile)
taker_event MatcherEventType.reduce action ev spec position profile =
    (pos 0, settle_position spec.symbol_id (pending_release action ev.size position) profile)
taker_event MatcherEventType.binary_event action ev spec position profile =
    (pos 0, settle_position spec.symbol_id position profile)
