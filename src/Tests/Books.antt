-- ===== src/Tests/Books.antt =====
-- The theorems on order books at work on a book with an ask of 5 at 100 and a bid of 4 at 98.
use exchange_cpp.Base.{[], List, ◌∷◌, some, ◌≡◌, refl, arith, All}
use exchange_cpp.Base.Int.{pos, ◌+ℤ◌, ◌-ℤ◌, ◌*ℤ◌, min_ℤ}
use exchange_cpp.Common.{Order, ask, bid, OrderType, OrderCommand}
use exchange_cpp.OrderBook.Bucket.{match_orders}
use exchange_cpp.OrderBook.Bucket.Volume.{total_size}
use exchange_cpp.OrderBook.Levels.{match_range, should_continue, check_budget}
use exchange_cpp.OrderBook.Levels.Limits.{IsTradeWithin, IsPriceOrdered}
use exchange_cpp.OrderBook.Levels.Exhausted.{IsOutside, match_range-IsOutside}
use exchange_cpp.OrderBook.Levels.Budget.{total_cost, always, match_range-check_budget}
use exchange_cpp.OrderBook.Book.{
  try_match_instantly, get_total_orders_volume, get_orders_num, l2_market_data_snapshot,
}
use exchange_cpp.OrderBook.Book.Wf.{IsWellFormed}
use exchange_cpp.OrderBook.NewOrder.{
  new_order, new_order_match_ioc, new_order_place_gtc, new_order_match_fok_budget,
}
use exchange_cpp.OrderBook.NewOrder.WellFormed.{new_order-IsWellFormed}
use exchange_cpp.OrderBook.NewOrder.Fills.{
  new_order_match_ioc_accounts, new_order_place_gtc_accounts,
}
use exchange_cpp.OrderBook.NewOrder.Prices.{try_match_instantly_prices}
use exchange_cpp.OrderBook.NewOrder.FillOrKill.{
  FillsOrKills, new_order_match_fok_budget-FillsOrKills,
}
use exchange_cpp.OrderBook.Change.{find_own_order, cancel_order, reduce_order, move_order}
use exchange_cpp.OrderBook.Change.Own.{FindsOwn, find_own_order-FindsOwn}
use exchange_cpp.OrderBook.Change.WellFormed.{
  KeepsWellFormed, cancel_order-KeepsWellFormed, reduce_order-KeepsWellFormed,
}
use exchange_cpp.OrderBook.Change.Volumes.{
  ReportsVolume, cancel_order-ReportsVolume, reduce_order-ReportsVolume,
}
use exchange_cpp.OrderBook.Book.Snapshot.{
  AreLevels, level_volumes, level_orders, l2_market_data_snapshot-AreLevels,
  l2_market_data_snapshot_totals,
}
use exchange_cpp.OrderBook.Bucket.Priority.{FillsInOrder, match_orders-FillsInOrder}
use exchange_cpp.OrderBook.Change.Move.{move_order-KeepsWellFormed}
use exchange_cpp.OrderBook.Process.{process_command}
use exchange_cpp.OrderBook.Process.WellFormed.{
  process_command-KeepsWellFormed, IsReachable-IsWellFormed,
}
use exchange_cpp.Tests.{
  order, spec, placed, two_sided, two_sided-IsReachable, two_sided-IsWellFormed,
}

-- A bid of 7 at 100, which takes the ask of 5.
abbrev crossing : OrderType → OrderCommand
crossing order_type = placed 4 13 bid order_type 100 7

-- A command on the bid of user 12.
abbrev own_bid : OrderCommand
own_bid = placed 3 12 bid OrderType.gtc 100 3

IsReachable-IsWellFormed_example : IsWellFormed two_sided
IsReachable-IsWellFormed_example = IsReachable-IsWellFormed spec two_sided two_sided-IsReachable

process_command-KeepsWellFormed_example :
    KeepsWellFormed (process_command two_sided (crossing OrderType.gtc))
process_command-KeepsWellFormed_example =
    process_command-KeepsWellFormed two_sided (crossing OrderType.gtc) two_sided-IsWellFormed
      (λ e. omega arith)

new_order-IsWellFormed_example : IsWellFormed (new_order two_sided (crossing OrderType.gtc)).0
new_order-IsWellFormed_example =
    new_order-IsWellFormed two_sided (crossing OrderType.gtc) two_sided-IsWellFormed (omega arith)

new_order_match_ioc_accounts_example :
    let r = new_order_match_ioc two_sided (crossing OrderType.ioc) in
    (total_size r.1.matcher_event ≡ pos 7)
    × (get_total_orders_volume bid r.0 ≡ get_total_orders_volume bid two_sided)
new_order_match_ioc_accounts_example =
    new_order_match_ioc_accounts two_sided (crossing OrderType.ioc) refl

new_order_place_gtc_accounts_example :
    let r = new_order_place_gtc two_sided (crossing OrderType.gtc) in
    total_size r.1.matcher_event
      +ℤ (get_total_orders_volume bid r.0 -ℤ get_total_orders_volume bid two_sided)
    ≡ pos 7
new_order_place_gtc_accounts_example =
    new_order_place_gtc_accounts two_sided (crossing OrderType.gtc) two_sided-IsWellFormed refl

try_match_instantly_prices_example :
    let es =
      (try_match_instantly bid
        (should_continue bid (pos 100))
        (pos 7)
        (pos 100)
        (pos 0)
        two_sided
        (crossing OrderType.ioc)).2.matcher_event in
    All (IsTradeWithin (should_continue bid (pos 100))) es × IsPriceOrdered ask es
try_match_instantly_prices_example =
    try_match_instantly_prices bid (pos 100) (pos 7) (pos 100) (pos 0) two_sided
      (crossing OrderType.ioc) two_sided-IsWellFormed refl

-- A bid for 5 with a budget of 500.
abbrev budget_bid : OrderCommand
budget_bid = placed 4 13 bid OrderType.fok_budget 500 5

new_order_match_fok_budget-FillsOrKills_example :
    FillsOrKills two_sided budget_bid (new_order_match_fok_budget two_sided budget_bid)
new_order_match_fok_budget-FillsOrKills_example =
    new_order_match_fok_budget-FillsOrKills two_sided budget_bid two_sided-IsWellFormed refl
      (omega arith)

cancel_order-KeepsWellFormed_example : KeepsWellFormed (cancel_order two_sided own_bid)
cancel_order-KeepsWellFormed_example =
    cancel_order-KeepsWellFormed two_sided own_bid two_sided-IsWellFormed

reduce_order-KeepsWellFormed_example : KeepsWellFormed (reduce_order two_sided own_bid)
reduce_order-KeepsWellFormed_example =
    reduce_order-KeepsWellFormed two_sided own_bid two_sided-IsWellFormed

move_order-KeepsWellFormed_example : KeepsWellFormed (move_order two_sided own_bid)
move_order-KeepsWellFormed_example =
    move_order-KeepsWellFormed two_sided own_bid two_sided-IsWellFormed

find_own_order-FindsOwn_example : FindsOwn 3 12 two_sided (find_own_order 3 12 two_sided)
find_own_order-FindsOwn_example = find_own_order-FindsOwn 3 12 two_sided two_sided-IsWellFormed

-- A bid of 7 at 100 uses up the asks up to 100.
short_fill :
    (match_range
      (should_continue bid (pos 100))
      (pos 7)
      (pos 100)
      (pos 0)
      two_sided.ask_buckets).filled
    ≡ pos 5
unfolding match_range match_orders ◌+ℤ◌ ◌-ℤ◌ min_ℤ
short_fill = refl

match_range-IsOutside_example :
    IsOutside bid
      (pos 100)
      (match_range
        (should_continue bid (pos 100))
        (pos 7)
        (pos 100)
        (pos 0)
        two_sided.ask_buckets).buckets
match_range-IsOutside_example =
    match_range-IsOutside bid (pos 100) (pos 7) (pos 100) (pos 0) two_sided.ask_buckets
      (two_sided-IsWellFormed.sides ask) (omega arith) (rw short_fill (omega arith))

enough_budget : check_budget (pos 4 -ℤ pos 0) (pos 0) two_sided.ask_buckets ≡ some (pos 400)
unfolding check_budget ◌+ℤ◌ ◌-ℤ◌ ◌*ℤ◌
enough_budget = refl

match_range-check_budget_example :
    ((match_range always (pos 4) (pos 100) (pos 0) two_sided.ask_buckets).filled ≡ pos 4)
    × (pos 0
          +ℤ total_cost (match_range always (pos 4) (pos 100) (pos 0) two_sided.ask_buckets).events
        ≡ pos 400)
match_range-check_budget_example =
    match_range-check_budget (pos 4) (pos 100) (pos 0) (pos 0) ask two_sided.ask_buckets
      (two_sided-IsWellFormed.sides ask) (omega arith) enough_budget

cancel_order-ReportsVolume_example : ReportsVolume two_sided (cancel_order two_sided own_bid)
cancel_order-ReportsVolume_example =
    cancel_order-ReportsVolume two_sided own_bid two_sided-IsWellFormed

reduce_order-ReportsVolume_example : ReportsVolume two_sided (reduce_order two_sided own_bid)
reduce_order-ReportsVolume_example =
    reduce_order-ReportsVolume two_sided own_bid two_sided-IsWellFormed

l2_market_data_snapshot-AreLevels_example :
    AreLevels ask (l2_market_data_snapshot 1 two_sided).asks
    × AreLevels bid (l2_market_data_snapshot 1 two_sided).bids
l2_market_data_snapshot-AreLevels_example =
    l2_market_data_snapshot-AreLevels 1 two_sided two_sided-IsWellFormed

l2_market_data_snapshot_totals_example :
    (level_volumes (l2_market_data_snapshot 2 two_sided).asks
      ≡ get_total_orders_volume ask two_sided)
    × (level_volumes (l2_market_data_snapshot 2 two_sided).bids
        ≡ get_total_orders_volume bid two_sided)
    × (level_orders (l2_market_data_snapshot 2 two_sided).asks ≡ get_orders_num ask two_sided)
    × (level_orders (l2_market_data_snapshot 2 two_sided).bids ≡ get_orders_num bid two_sided)
l2_market_data_snapshot_totals_example =
    l2_market_data_snapshot_totals 2 two_sided (omega arith) (omega arith)

-- An order of 5 before one of 7.
abbrev two_orders : List Order
two_orders = order 1 10 ask 100 5 ∷ order 2 11 ask 100 7 ∷ []

match_orders-FillsInOrder_example :
    FillsInOrder (pos 8) two_orders (match_orders (pos 100) (pos 8) two_orders)
match_orders-FillsInOrder_example =
    match_orders-FillsInOrder (pos 100) (pos 8) two_orders (omega arith)
      ((omega arith, omega arith), ((omega arith, omega arith), tt))
