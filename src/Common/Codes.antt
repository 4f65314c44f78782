-- ===== src/Common/Codes.antt =====
-- The codes of the enumerations, in both directions. `none` is the exception for an unknown code.
pub mod RoundTrips
use exchange_cpp.Base.{Bool, true, false, Option, none, some, if◌then◌else◌}
use exchange_cpp.Base.Int.{ℤ, pos, negsuc, ◌==ℤ◌}
use exchange_cpp.Common.Enums.{
  OrderAction, OrderType, SymbolType, MatcherEventType, OrderCommandType, PositionDirection,
  BalanceAdjustmentType, UserStatus,
}

unfoldable pub order_action_to_code : OrderAction → ℤ
order_action_to_code OrderAction.ask = pos 0
order_action_to_code OrderAction.bid = pos 1

unfoldable pub order_action_from_code : ℤ → Option OrderAction
order_action_from_code code =
    if code ==ℤ pos 0
    then some OrderAction.ask
    else if code ==ℤ pos 1
    then some OrderAction.bid
    else none

unfoldable pub order_type_to_code : OrderType → ℤ
order_type_to_code OrderType.gtc = pos 0
order_type_to_code OrderType.ioc = pos 1
order_type_to_code OrderType.ioc_budget = pos 2
order_type_to_code OrderType.fok = pos 3
order_type_to_code OrderType.fok_budget = pos 4

unfoldable pub order_type_from_code : ℤ → Option OrderType
order_type_from_code code =
    if code ==ℤ pos 0
    then some OrderType.gtc
    else if code ==ℤ pos 1
    then some OrderType.ioc
    else if code ==ℤ pos 2
    then some OrderType.ioc_budget
    else if code ==ℤ pos 3
    then some OrderType.fok
    else if code ==ℤ pos 4
    then some OrderType.fok_budget
    else none

unfoldable pub symbol_type_to_code : SymbolType → ℤ
symbol_type_to_code SymbolType.currency_exchange_pair = pos 0
symbol_type_to_code SymbolType.futures_contract = pos 1
symbol_type_to_code SymbolType.option = pos 2

unfoldable pub symbol_type_from_code : ℤ → Option SymbolType
symbol_type_from_code code =
    if code ==ℤ pos 0
    then some SymbolType.currency_exchange_pair
    else if code ==ℤ pos 1
    then some SymbolType.futures_contract
    else if code ==ℤ pos 2
    then some SymbolType.option
    else none

unfoldable pub matcher_event_type_to_code : MatcherEventType → ℤ
matcher_event_type_to_code MatcherEventType.trade = pos 0
matcher_event_type_to_code MatcherEventType.reduce = pos 1
matcher_event_type_to_code MatcherEventType.reject = pos 2
matcher_event_type_to_code MatcherEventType.binary_event = pos 3

unfoldable pub matcher_event_type_from_code : ℤ → Option MatcherEventType
matcher_event_type_from_code code =
    if code ==ℤ pos 0
    then some MatcherEventType.trade
    else if code ==ℤ pos 1
    then some MatcherEventType.reduce
    else if code ==ℤ pos 2
    then some MatcherEventType.reject
    else if code ==ℤ pos 3
    then some MatcherEventType.binary_event
    else none

unfoldable pub position_direction_to_code : PositionDirection → ℤ
position_direction_to_code PositionDirection.long = pos 1
position_direction_to_code PositionDirection.short = negsuc 0
position_direction_to_code PositionDirection.empty = pos 0

unfoldable pub position_direction_from_code : ℤ → Option PositionDirection
position_direction_from_code code =
    if code ==ℤ pos 1
    then some PositionDirection.long
    else if code ==ℤ negsuc 0
    then some PositionDirection.short
    else if code ==ℤ pos 0
    then some PositionDirection.empty
    else none

unfoldable pub balance_adjustment_type_to_code : BalanceAdjustmentType → ℤ
balance_adjustment_type_to_code BalanceAdjustmentType.adjustment = pos 0
balance_adjustment_type_to_code BalanceAdjustmentType.suspend = pos 1

unfoldable pub balance_adjustment_type_from_code : ℤ → Option BalanceAdjustmentType
balance_adjustment_type_from_code code =
    if code ==ℤ pos 0
    then some BalanceAdjustmentType.adjustment
    else if code ==ℤ pos 1
    then some BalanceAdjustmentType.suspend
    else none

unfoldable pub user_status_to_code : UserStatus → ℤ
user_status_to_code UserStatus.active = pos 0
user_status_to_code UserStatus.suspended = pos 1

unfoldable pub user_status_from_code : ℤ → Option UserStatus
user_status_from_code code =
    if code ==ℤ pos 0
    then some UserStatus.active
    else if code ==ℤ pos 1
    then some UserStatus.suspended
    else none

unfoldable pub order_command_type_to_code : OrderCommandType → ℤ
order_command_type_to_code OrderCommandType.place_order = pos 1
order_command_type_to_code OrderCommandType.cancel_order = pos 2
order_command_type_to_code OrderCommandType.move_order = pos 3
order_command_type_to_code OrderCommandType.reduce_order = pos 4
order_command_type_to_code OrderCommandType.order_book_request = pos 6
order_command_type_to_code OrderCommandType.add_user = pos 10
order_command_type_to_code OrderCommandType.balance_adjustment = pos 11
order_command_type_to_code OrderCommandType.suspend_user = pos 12
order_command_type_to_code OrderCommandType.resume_user = pos 13
order_command_type_to_code OrderCommandType.binary_data_query = pos 90
order_command_type_to_code OrderCommandType.binary_data_command = pos 91
order_command_type_to_code OrderCommandType.persist_state_matching = pos 110
order_command_type_to_code OrderCommandType.persist_state_risk = pos 111
order_command_type_to_code OrderCommandType.grouping_control = pos 118
order_command_type_to_code OrderCommandType.nop = pos 120
order_command_type_to_code OrderCommandType.reset = pos 124
order_command_type_to_code OrderCommandType.shutdown_signal = pos 127
order_command_type_to_code OrderCommandType.reserved_compressed = negsuc 0

unfoldable pub order_command_type_from_code : ℤ → Option OrderCommandType
order_command_type_from_code code =
    if code ==ℤ pos 1
    then some OrderCommandType.place_order
    else if code ==ℤ pos 2
    then some OrderCommandType.cancel_order
    else if code ==ℤ pos 3
    then some OrderCommandType.move_order
    else if code ==ℤ pos 4
    then some OrderCommandType.reduce_order
    else if code ==ℤ pos 6
    then some OrderCommandType.order_book_request
    else if code ==ℤ pos 10
    then some OrderCommandType.add_user
    else if code ==ℤ pos 11
    then some OrderCommandType.balance_adjustment
    else if code ==ℤ pos 12
    then some OrderCommandType.suspend_user
    else if code ==ℤ pos 13
    then some OrderCommandType.resume_user
    else if code ==ℤ pos 90
    then some OrderCommandType.binary_data_query
    else if code ==ℤ pos 91
    then some OrderCommandType.binary_data_command
    else if code ==ℤ pos 110
    then some OrderCommandType.persist_state_matching
    else if code ==ℤ pos 111
    then some OrderCommandType.persist_state_risk
    else if code ==ℤ pos 118
    then some OrderCommandType.grouping_control
    else if code ==ℤ pos 120
    then some OrderCommandType.nop
    else if code ==ℤ pos 124
    then some OrderCommandType.reset
    else if code ==ℤ pos 127
    then some OrderCommandType.shutdown_signal
    else if code ==ℤ negsuc 0
    then some OrderCommandType.reserved_compressed
    else none

-- `IsMutate`: the commands that go to the journal.
unfoldable pub is_mutate : OrderCommandType → Bool
is_mutate OrderCommandType.place_order = true
is_mutate OrderCommandType.cancel_order = true
is_mutate OrderCommandType.move_order = true
is_mutate OrderCommandType.reduce_order = true
is_mutate OrderCommandType.order_book_request = false
is_mutate OrderCommandType.add_user = true
is_mutate OrderCommandType.balance_adjustment = true
is_mutate OrderCommandType.suspend_user = true
is_mutate OrderCommandType.resume_user = true
is_mutate OrderCommandType.binary_data_query = false
is_mutate OrderCommandType.binary_data_command = true
is_mutate OrderCommandType.persist_state_matching = true
is_mutate OrderCommandType.persist_state_risk = true
is_mutate OrderCommandType.grouping_control = false
is_mutate OrderCommandType.nop = false
is_mutate OrderCommandType.reset = true
is_mutate OrderCommandType.shutdown_signal = false
is_mutate OrderCommandType.reserved_compressed = false
