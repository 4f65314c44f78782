-- ===== src/OrderBook/Levels.antt =====
-- The price levels of one side: `std::map<int64_t, OrdersBucket>` of OrderBookNaiveImpl.h, as the
-- list of its buckets in the map's order, each under its own price; and the loops over a matching
-- range (`MatchingRange`, `TryMatchInstantly`, `CheckBudgetToFill`, `FillAsks`, `FillBids`).
pub mod Map
pub mod Placing
pub mod Matching
pub mod Index
pub mod Removing
pub mod Limits
pub mod Exhausted
pub mod Budget
use exchange_cpp.Base.{
  ℕ, zero, suc, ◌+◌, ◌∷◌, [], ◌++◌, List, Bool, true, false, not, Option, none, some, if◌then◌else◌,
}
use exchange_cpp.Base.Int.{ℤ, pos, ◌+ℤ◌, ◌-ℤ◌, ◌*ℤ◌, ltb_ℤ, leb_ℤ, ◌==ℤ◌}
use exchange_cpp.Common.{Order, MatcherTradeEvent, OrderAction, ask, bid}
use exchange_cpp.OrderBook.Bucket.{
  OrdersBucket, new_bucket, put, match_orders, matched_bucket, num_orders,
}

-- The comparators of the two maps: asks ascend, bids descend.
abbrev pub before : OrderAction → ℤ → ℤ → Bool
before ask p q = ltb_ℤ p q
before bid p q = ltb_ℤ q p

-- `find`
unfoldable pub find_bucket : ℤ → List OrdersBucket → Option OrdersBucket
find_bucket p [] = none
find_bucket p (b ∷ bs) = if p ==ℤ b.price then some b else find_bucket p bs

-- The bucket at its price, in place of the one that stands there, if one does.
unfoldable pub set_bucket : OrderAction → OrdersBucket → List OrdersBucket → List OrdersBucket
set_bucket side b [] = b ∷ []
set_bucket side b (x ∷ xs) =
    if b.price ==ℤ x.price
    then b ∷ xs
    else if before side b.price x.price
    then b ∷ x ∷ xs
    else x ∷ set_bucket side b xs

-- `erase`
unfoldable pub erase_bucket : ℤ → List OrdersBucket → List OrdersBucket
erase_bucket p [] = []
erase_bucket p (b ∷ bs) = if p ==ℤ b.price then bs else b ∷ erase_bucket p bs

-- The bucket of a price, made if it is missing (`find`, `emplace`).
unfoldable pub bucket_or_new : ℤ → List OrdersBucket → OrdersBucket
bucket_or_new p bs = elim (find_bucket p bs) [ none ↦ new_bucket p | some b ↦ b ]

-- An order goes to the end of the bucket of its price.
unfoldable pub place : OrderAction → Order → List OrdersBucket → List OrdersBucket
unfolding bucket_or_new
place side o bs = set_bucket side (put o (bucket_or_new o.price bs)) bs

-- `shouldContinue` of `GetMatchingRange`: the price of a bucket on the other side suits the limit
-- of an order with this action.
abbrev pub should_continue : OrderAction → ℤ → ℤ → Bool
should_continue ask limit p = leb_ℤ limit p
should_continue bid limit p = leb_ℤ p limit

-- What the loop of `TryMatchInstantly` leaves.
pub record RangeResult : Type 0 where
  pub filled : ℤ
  pub events : List MatcherTradeEvent
  pub removed_ids : List ℕ
  pub buckets : List OrdersBucket

-- `matchingRange.forEach` with the callback of `TryMatchInstantly`. A bucket whose volume is used
-- up is left out, which is what `erasePrice` does after the loop. On an empty range nothing
-- happens.
unfoldable pub match_range : (ℤ → Bool) → ℤ → ℤ → ℤ → List OrdersBucket → RangeResult
match_range continues size reserve filled [] = record {
  filled = filled;
  events = [];
  removed_ids = [];
  buckets = [];
}
match_range continues size reserve filled (b ∷ bs) =
    let m = match_orders reserve (size -ℤ filled) b.orders in
    let b' = matched_bucket m b in
    let rest = match_range continues size reserve (filled +ℤ m.volume) bs in
    if continues b.price
    then record {
      filled = rest.filled;
      events = m.events ++ rest.events;
      removed_ids = m.orders_to_remove ++ rest.removed_ids;
      buckets = if b'.total_volume ==ℤ pos 0 then rest.buckets else b' ∷ rest.buckets;
    }
    else record { filled = filled; events = []; removed_ids = []; buckets = b ∷ bs }

-- The loop of `CheckBudgetToFill`, over a range of all buckets; `none` where too little is there.
unfoldable pub check_budget : ℤ → ℤ → List OrdersBucket → Option ℤ
check_budget remaining_size budget [] = none
check_budget remaining_size budget (b ∷ bs) =
    let available = b.total_volume in
    let rest = check_budget (remaining_size -ℤ available) (budget +ℤ available *ℤ b.price) bs in
    if ltb_ℤ available remaining_size then rest else some (budget +ℤ remaining_size *ℤ b.price)

-- `FillAsks`, `FillBids`: price, volume and number of orders of the first levels.
unfoldable pub fill_levels : ℕ → List OrdersBucket → List (ℤ × ℤ × ℕ)
fill_levels zero bs = []
fill_levels (suc n) [] = []
fill_levels (suc n) (b ∷ bs) = (b.price, b.total_volume, num_orders b) ∷ fill_levels n bs

-- The sums of `GetTotalOrdersVolume` and `GetOrdersNum`.
unfoldable pub total_orders_volume : List OrdersBucket → ℤ
total_orders_volume [] = pos 0
total_orders_volume (b ∷ bs) = b.total_volume +ℤ total_orders_volume bs

unfoldable pub orders_num : List OrdersBucket → ℕ
orders_num [] = 0
orders_num (b ∷ bs) = num_orders b + orders_num bs
