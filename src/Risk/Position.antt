-- ===== src/Risk/Position.antt =====
-- src/exchange/core/common/SymbolPositionRecord.cpp: a user's margin position in one symbol.
pub mod Trades
pub mod Equity
use exchange_cpp.Base.{ℕ, Bool, true, false, not, ◌&&◌, ◌||◌, if◌then◌else◌, Option, none, some}
use exchange_cpp.Base.Int.{int64_max, ℤ, pos, negsuc, ◌+ℤ◌, ◌-ℤ◌, ◌*ℤ◌, ltb_ℤ, leb_ℤ, ◌==ℤ◌, max_ℤ}
use exchange_cpp.Common.{
  OrderAction, ask, bid, PositionDirection, long, short, empty, CoreSymbolSpecification,
}

-- `LastPriceCacheRecord`: the best prices of a symbol.
pub record LastPriceCacheRecord : Type 0 where
  pub ask_price : ℤ
  pub bid_price : ℤ

pub record SymbolPositionRecord : Type 0 where
  pub uid : ℕ
  pub symbol : ℕ
  pub currency : ℕ
  pub direction : PositionDirection
  pub open_volume : ℤ
  pub open_price_sum : ℤ
  pub profit : ℤ
  pub pending_sell_size : ℤ
  pub pending_buy_size : ℤ

-- `GetMultiplier`
abbrev pub multiplier : PositionDirection → ℤ
multiplier long = pos 1
multiplier short = negsuc 0
multiplier empty = pos 0

abbrev pub position_direction_from_order_action : OrderAction → PositionDirection
position_direction_from_order_action bid = long
position_direction_from_order_action ask = short

abbrev pub is_empty_direction : PositionDirection → Bool
is_empty_direction long = false
is_empty_direction short = false
is_empty_direction empty = true

-- `direction == PositionDirectionFromOrderAction(action)`
abbrev pub is_direction_of : PositionDirection → OrderAction → Bool
is_direction_of long bid = true
is_direction_of short ask = true
is_direction_of _ _ = false

-- `Initialize`, and the constructor of the same arguments
unfoldable pub initialize : ℕ → ℕ → ℕ → SymbolPositionRecord
initialize uid symbol currency = record {
  uid = uid;
  symbol = symbol;
  currency = currency;
  direction = empty;
  open_volume = pos 0;
  open_price_sum = pos 0;
  profit = pos 0;
  pending_sell_size = pos 0;
  pending_buy_size = pos 0;
}

unfoldable pub is_empty : SymbolPositionRecord → Bool
is_empty r =
    is_empty_direction r.direction
    && ((r.pending_sell_size ==ℤ pos 0) && (r.pending_buy_size ==ℤ pos 0))

unfoldable pub pending_hold : OrderAction → ℤ → SymbolPositionRecord → SymbolPositionRecord
pending_hold ask size r = record r { pending_sell_size = r.pending_sell_size +ℤ size }
pending_hold bid size r = record r { pending_buy_size = r.pending_buy_size +ℤ size }

unfoldable pub pending_release : OrderAction → ℤ → SymbolPositionRecord → SymbolPositionRecord
pending_release ask size r = record r { pending_sell_size = r.pending_sell_size -ℤ size }
pending_release bid size r = record r { pending_buy_size = r.pending_buy_size -ℤ size }

-- `EstimateProfit`, with the prices of the symbol: 0 and `INT64_MAX` stand for no price.
unfoldable pub estimate_profit :
    CoreSymbolSpecification → LastPriceCacheRecord → SymbolPositionRecord → ℤ
estimate_profit spec last r = elim r.direction [
  | empty ↦ r.profit
  | long ↦
      if not (last.bid_price ==ℤ pos 0)
      then r.profit +ℤ (r.open_volume *ℤ last.bid_price -ℤ r.open_price_sum)
      else r.profit +ℤ spec.margin_buy *ℤ r.open_volume
  | short ↦
      if not (last.ask_price ==ℤ int64_max)
      then r.profit +ℤ (r.open_price_sum -ℤ r.open_volume *ℤ last.ask_price)
      else r.profit +ℤ spec.margin_sell *ℤ r.open_volume
]

abbrev pub signed_position : SymbolPositionRecord → ℤ
signed_position r = r.open_volume *ℤ multiplier r.direction

abbrev pub margin_buy_of : CoreSymbolSpecification → SymbolPositionRecord → ℤ
margin_buy_of spec r = spec.margin_buy *ℤ (r.pending_buy_size +ℤ signed_position r)

abbrev pub margin_sell_of : CoreSymbolSpecification → SymbolPositionRecord → ℤ
margin_sell_of spec r = spec.margin_sell *ℤ (r.pending_sell_size -ℤ signed_position r)

unfoldable pub calculate_required_margin_for_futures :
    CoreSymbolSpecification → SymbolPositionRecord → ℤ
calculate_required_margin_for_futures spec r = max_ℤ (margin_buy_of spec r) (margin_sell_of spec r)

-- `CalculateRequiredMarginForOrder`: -1 if the order does not raise the margin.
unfoldable pub calculate_required_margin_for_order :
    CoreSymbolSpecification → OrderAction → ℤ → SymbolPositionRecord → ℤ
calculate_required_margin_for_order spec action size r =
    let current_margin = max_ℤ (margin_buy_of spec r) (margin_sell_of spec r) in
    let new_margin : ℤ = elim action [
      | bid ↦ max_ℤ (margin_buy_of spec r +ℤ spec.margin_buy *ℤ size) (margin_sell_of spec r)
      | ask ↦ max_ℤ (margin_buy_of spec r) (margin_sell_of spec r +ℤ spec.margin_sell *ℤ size)
    ] in
    if leb_ℤ new_margin current_margin then negsuc 0 else new_margin

-- `CloseCurrentPositionFutures`: the size that is left to open, and the position.
unfoldable pub close_current_position_futures :
    OrderAction → ℤ → ℤ → SymbolPositionRecord → ℤ × SymbolPositionRecord
close_current_position_futures action trade_size trade_price r =
    if is_empty_direction r.direction || is_direction_of r.direction action
    then (trade_size, r)
    else if ltb_ℤ trade_size r.open_volume
    then (
      pos 0,
      record r {
        open_volume = r.open_volume -ℤ trade_size;
        open_price_sum = r.open_price_sum -ℤ trade_size *ℤ trade_price;
      },
    )
    else (
      trade_size -ℤ r.open_volume,
      record r {
        profit =
            r.profit
            +ℤ (r.open_volume *ℤ trade_price -ℤ r.open_price_sum) *ℤ multiplier r.direction;
        open_price_sum = pos 0;
        direction = empty;
        open_volume = pos 0;
      },
    )

unfoldable pub open_position_margin :
    OrderAction → ℤ → ℤ → SymbolPositionRecord → SymbolPositionRecord
open_position_margin action size_to_open trade_price r = record r {
  open_volume = r.open_volume +ℤ size_to_open;
  open_price_sum = r.open_price_sum +ℤ trade_price *ℤ size_to_open;
  direction = position_direction_from_order_action action;
}

-- `UpdatePositionForMarginTrade`: the size that was opened, and the position.
unfoldable pub update_position_for_margin_trade :
    OrderAction → ℤ → ℤ → SymbolPositionRecord → ℤ × SymbolPositionRecord
update_position_for_margin_trade action size price r =
    let closed = close_current_position_futures action size price (pending_release action size r) in
    (
      closed.0,
      if ltb_ℤ (pos 0) closed.0
          then open_position_margin action closed.0 price closed.1
          else closed.1,
    )
