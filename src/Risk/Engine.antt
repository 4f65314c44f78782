-- ===== src/Risk/Engine.antt =====
-- RiskEngine.cpp: the state of the engine, its balance adjustments, and the check of a placed order, for
-- pairs of currencies and for futures.
pub mod Adjusting
use exchange_cpp.Base.{
  ℕ, Bool, true, false, ◌&&◌, ◌||◌, not, if◌then◌else◌, Option, none, some, List, [], ◌∷◌, ◌==◌,
}
use exchange_cpp.Base.Dict.{Dict, lookup, insert, erase}
use exchange_cpp.Base.Int.{ℤ, pos, negsuc, ◌+ℤ◌, ◌-ℤ◌, leb_ℤ, ◌==ℤ◌}
use exchange_cpp.Common.{
  OrderAction, CommandResultCode, CoreSymbolSpecification, OrderCommand, SymbolType,
  BalanceAdjustmentType, adjustment, suspend,
}
use Prim.Native.Nat.{bit_and}
use exchange_cpp.Risk.Position.{
  SymbolPositionRecord, LastPriceCacheRecord, initialize, is_empty, pending_hold, estimate_profit,
  calculate_required_margin_for_futures, calculate_required_margin_for_order,
}
use exchange_cpp.Risk.Users.{UserProfile, Users, amount_at, add_amount, balance_adjustment}
use exchange_cpp.Risk.Exchange.{place_exchange_order}

pub record RiskEngine : Type 0 where
  pub shard_id : ℕ
  pub shard_mask : ℕ
  pub ignore_risk_processing : Bool
  pub margin_trading_enabled : Bool
  pub symbols : Dict CoreSymbolSpecification
  pub users : Users
  pub last_price_cache : Dict LastPriceCacheRecord
  pub fees : Dict ℤ
  pub adjustments : Dict ℤ
  pub suspends : Dict ℤ

-- `UidForThisHandler`
unfoldable pub uid_for_this_handler : RiskEngine → ℕ → Bool
uid_for_this_handler e uid = (e.shard_mask == 0) || (bit_and uid e.shard_mask == e.shard_id)

-- The switch of `AdjustBalance`, after a success.
unfoldable pub record_adjustment : BalanceAdjustmentType → ℕ → ℤ → RiskEngine → RiskEngine
record_adjustment adjustment currency amount_diff e = record e {
  adjustments = add_amount currency (pos 0 -ℤ amount_diff) e.adjustments;
}
record_adjustment suspend currency amount_diff e = record e {
  suspends = add_amount currency (pos 0 -ℤ amount_diff) e.suspends;
}

abbrev pub is_success : CommandResultCode → Bool
is_success CommandResultCode.success = true
is_success _ = false

-- `AdjustBalance`
unfoldable pub adjust_balance :
    ℕ → ℕ → ℤ → ℤ → BalanceAdjustmentType → RiskEngine → CommandResultCode × RiskEngine
unfolding record_adjustment
adjust_balance uid currency amount_diff funding_transaction_id adjustment_type e =
    let res = balance_adjustment uid currency amount_diff funding_transaction_id e.users in
    let e' = record e { users = res.1 } in
    (
      res.0,
      if is_success res.0 then record_adjustment adjustment_type currency amount_diff e' else e',
    )

-- The prices that `CanPlaceMarginOrder` copies: those of the cache, or the defaults of a fresh record.
unfoldable pub last_price : ℕ → RiskEngine → LastPriceCacheRecord
last_price symbol e = elim (lookup symbol e.last_price_cache) [
  | some r ↦ r
  | none ↦ record { ask_price = pos 9223372036854775807; bid_price = pos 0 }
]

-- One position of the loop of `CanPlaceMarginOrder`. At the symbol's own position the sum is replaced.
unfoldable pub add_free_margin :
    OrderCommand
    → CoreSymbolSpecification
    → SymbolPositionRecord
    → RiskEngine
    → ℕ × SymbolPositionRecord
    → ℤ
    → ℤ
add_free_margin cmd spec position e (symbol, other) free_margin =
    if not (symbol == cmd.symbol)
    then (if other.currency == spec.quote_currency
        then elim (lookup symbol e.symbols) [
          | none ↦ free_margin
          | some spec2 ↦
              free_margin
              +ℤ estimate_profit spec2 (last_price symbol e) other
              -ℤ calculate_required_margin_for_futures spec2 other
        ]
        else free_margin)
    else estimate_profit spec (last_price spec.symbol_id e) position

-- The loop, in the order in which the map of positions is walked.
unfoldable pub free_margin :
    OrderCommand
    → CoreSymbolSpecification
    → SymbolPositionRecord
    → RiskEngine
    → Dict SymbolPositionRecord
    → ℤ
    → ℤ
unfolding add_free_margin
free_margin cmd spec position e [] acc = acc
free_margin cmd spec position e (p ∷ ps) acc =
    free_margin cmd spec position e ps (add_free_margin cmd spec position e p acc)

-- `CanPlaceMarginOrder`. A margin of -1 stands for an order that does not raise the exposure. The account that
-- the code adds with 0 where the user has none in the currency is left out: no balance shows it.
unfoldable pub can_place_margin_order :
    OrderCommand → UserProfile → CoreSymbolSpecification → SymbolPositionRecord → RiskEngine → Bool
unfolding free_margin
can_place_margin_order cmd profile spec position e =
    let required = calculate_required_margin_for_order spec cmd.action cmd.size position in
    if required ==ℤ negsuc 0
    then true
    else leb_ℤ required (
        amount_at position.currency profile.accounts
        +ℤ free_margin cmd spec position e profile.positions (pos 0))

-- `RemovePositionRecord`
unfoldable pub remove_position_record : SymbolPositionRecord → UserProfile → UserProfile
remove_position_record r profile = record profile {
  accounts = add_amount r.currency r.profit profile.accounts;
  positions = erase r.symbol profile.positions;
}
