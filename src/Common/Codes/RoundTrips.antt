-- ===== src/Common/Codes/RoundTrips.antt =====
-- The codes of include/exchange/core/common read back.
use exchange_cpp.Base.{Option, some, ◌≡◌, refl}
use exchange_cpp.Base.Int.{ℤ}
use exchange_cpp.Common.Enums.{
  OrderAction, OrderType, SymbolType, MatcherEventType, PositionDirection, BalanceAdjustmentType,
  UserStatus, OrderCommandType,
}
use exchange_cpp.Common.Codes.{
  order_action_to_code, order_action_from_code, order_type_to_code, order_type_from_code,
  symbol_type_to_code, symbol_type_from_code, matcher_event_type_to_code,
  matcher_event_type_from_code, position_direction_to_code, position_direction_from_code,
  balance_adjustment_type_to_code, balance_adjustment_type_from_code, user_status_to_code,
  user_status_from_code, order_command_type_to_code, order_command_type_from_code,
}

-- A member's code is read back as the member.
abbrev pub Decodes : {A : Type 0} → (A → ℤ) → (ℤ → Option A) → Type 0
Decodes {A} to_code from_code = (a : A) → from_code (to_code a) ≡ some a

order_action_Decodes : Decodes order_action_to_code order_action_from_code
unfolding order_action_to_code order_action_from_code
order_action_Decodes OrderAction.ask = refl
order_action_Decodes OrderAction.bid = refl

order_type_Decodes : Decodes order_type_to_code order_type_from_code
unfolding order_type_to_code order_type_from_code
order_type_Decodes OrderType.gtc = refl
order_type_Decodes OrderType.ioc = refl
order_type_Decodes OrderType.ioc_budget = refl
order_type_Decodes OrderType.fok = refl
order_type_Decodes OrderType.fok_budget = refl

symbol_type_Decodes : Decodes symbol_type_to_code symbol_type_from_code
unfolding symbol_type_to_code symbol_type_from_code
symbol_type_Decodes SymbolType.currency_exchange_pair = refl
symbol_type_Decodes SymbolType.futures_contract = refl
symbol_type_Decodes SymbolType.option = refl

matcher_event_type_Decodes : Decodes matcher_event_type_to_code matcher_event_type_from_code
unfolding matcher_event_type_to_code matcher_event_type_from_code
matcher_event_type_Decodes MatcherEventType.trade = refl
matcher_event_type_Decodes MatcherEventType.reduce = refl
matcher_event_type_Decodes MatcherEventType.reject = refl
matcher_event_type_Decodes MatcherEventType.binary_event = refl

position_direction_Decodes : Decodes position_direction_to_code position_direction_from_code
unfolding position_direction_to_code position_direction_from_code
position_direction_Decodes PositionDirection.long = refl
position_direction_Decodes PositionDirection.short = refl
position_direction_Decodes PositionDirection.empty = refl

balance_adjustment_type_Decodes :
    Decodes balance_adjustment_type_to_code balance_adjustment_type_from_code
unfolding balance_adjustment_type_to_code balance_adjustment_type_from_code
balance_adjustment_type_Decodes BalanceAdjustmentType.adjustment = refl
balance_adjustment_type_Decodes BalanceAdjustmentType.suspend = refl

user_status_Decodes : Decodes user_status_to_code user_status_from_code
unfolding user_status_to_code user_status_from_code
user_status_Decodes UserStatus.active = refl
user_status_Decodes UserStatus.suspended = refl

order_command_type_Decodes : Decodes order_command_type_to_code order_command_type_from_code
unfolding order_command_type_to_code order_command_type_from_code
order_command_type_Decodes OrderCommandType.place_order = refl
order_command_type_Decodes OrderCommandType.cancel_order = refl
order_command_type_Decodes OrderCommandType.move_order = refl
order_command_type_Decodes OrderCommandType.reduce_order = refl
order_command_type_Decodes OrderCommandType.order_book_request = refl
order_command_type_Decodes OrderCommandType.add_user = refl
order_command_type_Decodes OrderCommandType.balance_adjustment = refl
order_command_type_Decodes OrderCommandType.suspend_user = refl
order_command_type_Decodes OrderCommandType.resume_user = refl
order_command_type_Decodes OrderCommandType.binary_data_query = refl
order_command_type_Decodes OrderCommandType.binary_data_command = refl
order_command_type_Decodes OrderCommandType.persist_state_matching = refl
order_command_type_Decodes OrderCommandType.persist_state_risk = refl
order_command_type_Decodes OrderCommandType.grouping_control = refl
order_command_type_Decodes OrderCommandType.nop = refl
order_command_type_Decodes OrderCommandType.reset = refl
order_command_type_Decodes OrderCommandType.shutdown_signal = refl
order_command_type_Decodes OrderCommandType.reserved_compressed = refl

-- For each enumeration with codes, reading the code of a member gives the member again.
pub codes_Decode :
    Decodes order_action_to_code order_action_from_code
    × Decodes order_type_to_code order_type_from_code
    × Decodes symbol_type_to_code symbol_type_from_code
    × Decodes matcher_event_type_to_code matcher_event_type_from_code
    × Decodes position_direction_to_code position_direction_from_code
    × Decodes balance_adjustment_type_to_code balance_adjustment_type_from_code
    × Decodes user_status_to_code user_status_from_code
    × Decodes order_command_type_to_code order_command_type_from_code
codes_Decode = (
  order_action_Decodes, order_type_Decodes, symbol_type_Decodes, matcher_event_type_Decodes,
  position_direction_Decodes, balance_adjustment_type_Decodes, user_status_Decodes,
  order_command_type_Decodes,
)
