-- ===== src/OrderBook/Bucket.antt =====
-- OrdersBucket.cpp: the orders of one price, oldest first. The list owns its orders; `orderMap_`,
-- the index of the list by id, is a search in it.
pub mod Volume
pub mod Fifo
pub mod Priority
use exchange_cpp.Base.{
  ℕ, ◌∷◌, [], ◌++◌, List, Bool, true, false, Option, none, some, ◌==◌, if◌then◌else◌, suc, length,
}
use exchange_cpp.Base.Int.{ℤ, pos, ◌+ℤ◌, ◌-ℤ◌, ltb_ℤ, ◌==ℤ◌, min_ℤ}
use exchange_cpp.Common.{Order, MatcherTradeEvent, OrderAction, ask, bid}
use exchange_cpp.OrderBook.Events.{send_trade_event}

pub record OrdersBucket : Type 0 where
  pub price : ℤ
  pub total_volume : ℤ
  pub orders : List Order

-- What is left of an order: `size - filled`.
abbrev pub remaining : Order → ℤ
remaining o = o.size -ℤ o.filled

-- `OrdersBucket(price)`
abbrev pub new_bucket : ℤ → OrdersBucket
new_bucket price = record { price = price; total_volume = pos 0; orders = [] }

-- `Put`
unfoldable pub put : Order → OrdersBucket → OrdersBucket
put o b = record b {
  total_volume = b.total_volume +ℤ (o.size -ℤ o.filled);
  orders = b.orders ++ o ∷ [];
}

-- The lookup in `orderMap_`.
unfoldable pub find_by_id : ℕ → List Order → Option Order
find_by_id order_id [] = none
find_by_id order_id (o ∷ os) = if order_id == o.order_id then some o else find_by_id order_id os

unfoldable pub erase_by_id : ℕ → List Order → List Order
erase_by_id order_id [] = []
erase_by_id order_id (o ∷ os) = if order_id == o.order_id then os else o ∷ erase_by_id order_id os

-- `FindOrder`
unfoldable pub find_order : ℕ → OrdersBucket → Option Order
find_order order_id b = find_by_id order_id b.orders

-- `Remove`: the order of this id, if it is the user's, and the bucket after.
unfoldable pub remove : ℕ → ℕ → OrdersBucket → Option Order × OrdersBucket
remove order_id uid b = elim (find_by_id order_id b.orders) [
  | none ↦ (none, b)
  | some o ↦
      if o.uid == uid
      then (
        some o,
        record b {
          total_volume = b.total_volume -ℤ (o.size -ℤ o.filled);
          orders = erase_by_id order_id b.orders;
        },
      )
      else (none, b)
]

-- `ReduceSize`
unfoldable pub reduce_size : ℤ → OrdersBucket → OrdersBucket
reduce_size amount b = record b { total_volume = b.total_volume -ℤ amount }

-- `MatcherResult`, with the orders that stay.
pub record MatcherResult : Type 0 where
  pub volume : ℤ
  pub events : List MatcherTradeEvent
  pub orders_to_remove : List ℕ
  pub orders : List Order

-- The price at which the bidder's funds are held: the taker's, or the maker's.
abbrev pub bidder_hold_price : ℤ → Order → ℤ
bidder_hold_price active_reserve o = elim o.action [
  | ask ↦ active_reserve
  | bid ↦ o.reserve_bid_price
]

-- The body of the loop of `Match` at one order, before the rest of the list.
abbrev pub fill : Order → ℤ → Order
fill o v = record o { filled = o.filled +ℤ v }

-- The loop of `Match` over the list, while volume is to be collected.
unfoldable pub match_orders : ℤ → ℤ → List Order → MatcherResult
match_orders active_reserve volume_to_collect [] = record {
  volume = pos 0;
  events = [];
  orders_to_remove = [];
  orders = [];
}
match_orders active_reserve volume_to_collect (o ∷ os) =
    let v = min_ℤ volume_to_collect (o.size -ℤ o.filled) in
    let o' = fill o v in
    let full_match = o'.size ==ℤ o'.filled in
    let left = volume_to_collect -ℤ v in
    let taker_completed = left ==ℤ pos 0 in
    let event =
      send_trade_event o' full_match taker_completed v (bidder_hold_price active_reserve o') in
    let rest = match_orders active_reserve left os in
    if ltb_ℤ (pos 0) volume_to_collect
    then record {
      volume = v +ℤ rest.volume;
      events = event ∷ rest.events;
      orders_to_remove =
          if full_match then o'.order_id ∷ rest.orders_to_remove else rest.orders_to_remove;
      orders = if full_match then rest.orders else o' ∷ rest.orders;
    }
    else record { volume = pos 0; events = []; orders_to_remove = []; orders = o ∷ os }

-- The bucket after `Match`.
unfoldable pub matched_bucket : MatcherResult → OrdersBucket → OrdersBucket
matched_bucket m b = record b { total_volume = b.total_volume -ℤ m.volume; orders = m.orders }

-- The sum that `Validate` compares with `totalVolume_`.
unfoldable pub calculated_volume : List Order → ℤ
calculated_volume [] = pos 0
calculated_volume (o ∷ os) = (o.size -ℤ o.filled) +ℤ calculated_volume os

-- `Validate`: false where it throws.
unfoldable pub validate : OrdersBucket → Bool
validate b = calculated_volume b.orders ==ℤ b.total_volume

-- `GetNumOrders`
abbrev pub num_orders : OrdersBucket → ℕ
num_orders b = length b.orders
