-- ===== src/Common/Enums.antt =====
-- The enumerations of include/exchange/core/common and common/cmd.
use exchange_cpp.Base.{Bool, true, false}

pub data OrderAction : Type 0 where
  ask bid : OrderAction

pub data OrderType : Type 0 where
  gtc ioc ioc_budget fok fok_budget : OrderType

pub data SymbolType : Type 0 where
  currency_exchange_pair futures_contract option : SymbolType

pub data MatcherEventType : Type 0 where
  trade reduce reject binary_event : MatcherEventType

pub data PositionDirection : Type 0 where
  long short empty : PositionDirection

pub data BalanceAdjustmentType : Type 0 where
  adjustment suspend : BalanceAdjustmentType

pub data UserStatus : Type 0 where
  active suspended : UserStatus

pub data OrderCommandType : Type 0 where
  place_order cancel_order move_order reduce_order order_book_request : OrderCommandType
  add_user balance_adjustment suspend_user resume_user : OrderCommandType
  binary_data_query binary_data_command : OrderCommandType
  persist_state_matching persist_state_risk : OrderCommandType
  grouping_control nop reset shutdown_signal reserved_compressed : OrderCommandType

pub data CommandResultCode : Type 0 where
  new valid_for_matching_engine success accepted : CommandResultCode
  auth_invalid_user auth_token_expired : CommandResultCode
  invalid_symbol invalid_price_step unsupported_symbol_type : CommandResultCode
  risk_nsf risk_invalid_reserve_bid_price risk_ask_price_lower_than_fee : CommandResultCode
  risk_margin_trading_disabled : CommandResultCode
  matching_unknown_order_id matching_unsupported_command : CommandResultCode
  matching_invalid_order_book_id matching_move_failed_price_over_risk_limit : CommandResultCode
  matching_reduce_failed_wrong_size : CommandResultCode
  user_mgmt_user_already_exists : CommandResultCode
  user_mgmt_account_balance_adjustment_already_applied_same : CommandResultCode
  user_mgmt_account_balance_adjustment_already_applied_many : CommandResultCode
  user_mgmt_account_balance_adjustment_nsf : CommandResultCode
  user_mgmt_non_zero_account_balance : CommandResultCode
  user_mgmt_user_not_suspendable_has_positions : CommandResultCode
  user_mgmt_user_not_suspendable_non_empty_accounts : CommandResultCode
  user_mgmt_user_not_suspended user_mgmt_user_already_suspended : CommandResultCode
  user_mgmt_user_not_found : CommandResultCode
  symbol_mgmt_symbol_already_exists : CommandResultCode
  binary_command_failed report_query_unknown_type : CommandResultCode
  state_persist_risk_engine_failed state_persist_matching_engine_failed : CommandResultCode
  drop : CommandResultCode

-- `Opposite` of OrderAction.h.
abbrev pub opposite : OrderAction → OrderAction
opposite ask = bid
opposite bid = ask

abbrev pub is_ask : OrderAction → Bool
is_ask ask = true
is_ask bid = false

abbrev pub is_bid : OrderAction → Bool
is_bid ask = false
is_bid bid = true

abbrev pub is_fok_budget : OrderType → Bool
is_fok_budget fok_budget = true
is_fok_budget _ = false

abbrev pub is_place_order : OrderCommandType → Bool
is_place_order place_order = true
is_place_order _ = false
