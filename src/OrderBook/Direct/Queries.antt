-- ===== src/OrderBook/Direct/Queries.antt =====
-- OrderBookDirectImpl.cpp: what is read from the book without a change: `checkBudgetToFill`,
-- `isBudgetLimitSatisfied`, the counts and volumes, the levels of the market data and the lookups.
use exchange_cpp.Base.{
  ℕ, zero, suc, Bool, not, ◌&&◌, Option, none, some, List, [], ◌∷◌, ◌==◌, if◌then◌else◌,
}
use exchange_cpp.Base.Dict.{Dict, lookup}
use exchange_cpp.Base.Int.{int64_max, ℤ, pos, ◌+ℤ◌, ◌-ℤ◌, ◌*ℤ◌, ltb_ℤ, ◌==ℤ◌}
use exchange_cpp.Common.{Order, OrderAction, ask, bid, opposite}
use exchange_cpp.OrderBook.NewOrder.{is_budget_limit_satisfied}
use exchange_cpp.OrderBook.PriceMap.{PriceMap}
use exchange_cpp.OrderBook.Direct.{◌>>=◌, Bucket, Side, DirectBook, side_of}

-- `isBudgetLimitSatisfied`
unfoldable pub direct_limit_satisfied : OrderAction → ℤ → ℤ → Bool
direct_limit_satisfied action calculated limit =
    not (calculated ==ℤ int64_max) && is_budget_limit_satisfied action calculated limit

abbrev pub sum_orders : List Bucket → ℤ
sum_orders [] = pos 0
sum_orders (b ∷ bs) = b.num_orders +ℤ sum_orders bs

abbrev pub sum_volumes : List Bucket → ℤ
sum_volumes [] = pos 0
sum_volumes (b ∷ bs) = b.total_volume +ℤ sum_volumes bs

abbrev pub levels_of : List Bucket → List (ℤ × ℤ × ℤ)
levels_of [] = []
levels_of (b ∷ bs) = (b.price, b.total_volume, b.num_orders) ∷ levels_of bs

-- `INT32_MAX` buckets
abbrev pub all_buckets : ℕ
all_buckets = 2147483647

module _ {T : Type 0} where
  -- The loop of `checkBudgetToFill`, from one bucket to the next.
  unfoldable pub budget_loop : ℕ → Option ℕ → ℤ → ℤ → Side T → Option ℤ
  budget_loop fuel none size budget s = some int64_max
  budget_loop zero (some p) size budget s = none
  budget_loop (suc fuel) (some p) size budget s = do
    maker ← s.orders p
    b ← s.buckets maker.bucket
    let rest = s.orders b.last_order >>= λ last.
        budget_loop fuel last.prev (size -ℤ b.total_volume)
          (budget +ℤ b.total_volume *ℤ maker.order.price) s
    if ltb_ℤ b.total_volume size then rest else some (budget +ℤ size *ℤ maker.order.price)

  -- `checkBudgetToFill`
  unfoldable pub check_budget_to_fill : ℕ → OrderAction → ℤ → DirectBook T → Option ℤ
  check_budget_to_fill fuel action size book =
      let s = side_of (opposite action) book in budget_loop fuel s.best_order size (pos 0) s

  -- The buckets that a `ForEach` visits.
  unfoldable pub visit : List ℕ → Side T → Option (List Bucket)
  visit [] s = some []
  visit (p ∷ ps) s = do b ← s.buckets p; bs ← visit ps s; some (b ∷ bs)

  -- `GetOrderById`: null if the id is unknown.
  unfoldable pub direct_order_by_id : ℕ → DirectBook T → Option Order
  direct_order_by_id order_id book = do
    place ← lookup order_id book.order_id_index
    o ← (side_of place.0 book).orders place.1
    some o.order

  -- `FindUserOrders`: the orders of the user, in the order of the index.
  unfoldable pub find_user_orders : ℕ → Dict (OrderAction × ℕ) → DirectBook T → Option (List Order)
  find_user_orders uid [] book = some []
  find_user_orders uid ((k, (action, p)) ∷ rest) book = do
    o ← (side_of action book).orders p
    found ← find_user_orders uid rest book
    some (if o.order.uid == uid then (record o.order { order_id = k }) ∷ found else found)

module _ {T : Type 0} (prices : PriceMap T) where
  -- `GetOrdersNum`
  unfoldable pub direct_orders_num : OrderAction → DirectBook T → Option ℤ
  direct_orders_num action book = do
    let s = side_of action book
    bs ← visit (prices.for_each all_buckets s.price_buckets) s
    some (sum_orders bs)

  -- `GetTotalOrdersVolume`
  unfoldable pub direct_total_volume : OrderAction → DirectBook T → Option ℤ
  direct_total_volume action book = do
    let s = side_of action book
    bs ← visit (prices.for_each all_buckets s.price_buckets) s
    some (sum_volumes bs)

  -- `FillAsks`, `FillBids`: asks from the lowest price, bids from the highest.
  unfoldable pub direct_fill : OrderAction → ℕ → DirectBook T → Option (List (ℤ × ℤ × ℤ))
  direct_fill ask size book = do
    bs ← visit (prices.for_each size book.asks.price_buckets) book.asks
    some (levels_of bs)
  direct_fill bid size book = do
    bs ← visit (prices.for_each_desc size book.bids.price_buckets) book.bids
    some (levels_of bs)
