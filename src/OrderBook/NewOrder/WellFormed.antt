-- ===== src/OrderBook/NewOrder/WellFormed.antt =====
-- NewOrder of OrderBookNaiveImpl.cpp on a well-formed book.
use exchange_cpp.Base.{true, refl, inl, inr, arith, Bool-cases, Option-cases}
use exchange_cpp.Base.Dict.{lookup}
use exchange_cpp.Base.Int.{ℤ, pos, ◌==ℤ◌, ◌≤ℤ◌, ◌<ℤ◌, ==ℤ_ne}
use exchange_cpp.Common.{OrderAction, ask, bid, opposite, OrderCommand, OrderType}
use exchange_cpp.OrderBook.Levels.{should_continue}
use exchange_cpp.OrderBook.Levels.Matching.{match_range_bounds}
use exchange_cpp.OrderBook.Levels.Exhausted.{IsOutside, match_range-IsOutside}
use exchange_cpp.OrderBook.Book.{OrderBook, buckets_by_action, try_match_instantly}
use exchange_cpp.OrderBook.Book.Wf.{IsWellFormed, HasValidSides}
use exchange_cpp.OrderBook.Book.Uncrossed.{
  try_match_instantly-IsWellFormed, place_order-IsWellFormed,
}
use exchange_cpp.OrderBook.NewOrder.{
  new_order, new_order_of_type, new_order_place_gtc, place_gtc_rest, new_order_match_ioc,
  new_order_match_fok_budget,
}

-- What the matching of an order leaves behind, for the order that is then placed.
pub record IsMatched (action : OrderAction) (price size : ℤ) (filled : ℤ) (book : OrderBook)
    : Type 0 where
  pub from : pos 0 ≤ℤ filled
  pub to : filled ≤ℤ size
  pub outside : filled <ℤ size → IsOutside action price (buckets_by_action (opposite action) book)

pub try_match_instantly-IsMatched :
    (action : OrderAction) (price size r filled : ℤ) (book : OrderBook) (cmd : OrderCommand)
    → HasValidSides book
    → pos 0 ≤ℤ filled
    → filled ≤ℤ size
    → let t = try_match_instantly action (should_continue action price) size r filled book cmd in
      IsMatched action price size t.0 t.1
unfolding try_match_instantly
try_match_instantly-IsMatched action price size r filled book cmd w from to =
    let bs = buckets_by_action (opposite action) book in
    let v = w (opposite action) in
    let bounds =
      match_range_bounds (should_continue action price) size r (opposite action) filled bs v to in
    record { from = omega (arith, bounds.0); to = bounds.1; outside = λ lt. other_side action w lt }
  where
    other_side :
        (a : OrderAction)
        → HasValidSides book
        → (try_match_instantly a (should_continue a price) size r filled book cmd).0 <ℤ size
        → IsOutside a price (
            buckets_by_action
              (opposite a)
              (try_match_instantly a (should_continue a price) size r filled book cmd).1)
    other_side ask w lt =
        match_range-IsOutside ask price size r filled book.bid_buckets (w bid) to lt
    other_side bid w lt =
        match_range-IsOutside bid price size r filled book.ask_buckets (w ask) to lt

place_gtc_rest-IsWellFormed :
    (filled : ℤ) (book : OrderBook) (cmd' cmd : OrderCommand)
    → IsWellFormed book
    → IsMatched cmd.action cmd.price cmd.size filled book
    → IsWellFormed (place_gtc_rest (filled, book, cmd') cmd).0
unfolding place_gtc_rest
place_gtc_rest-IsWellFormed filled book cmd' cmd w m = elim (Bool-cases (filled ==ℤ cmd.size)) [
  | inl full ↦ rw full w
  | inr part ↦ rw part (elim (Option-cases (lookup cmd.order_id book.id_map)) [
    | inr (old, known) ↦ rw (known, place_gtc_rest) w
    | inl new ↦
        let lt : filled <ℤ cmd.size = omega (arith, ==ℤ_ne filled cmd.size part, m.to) in
        rw (new, place_gtc_rest)
          (place_order-IsWellFormed (λ k. lookup k book.id_map)
            (record {
              order_id = cmd.order_id;
              price = cmd.price;
              size = cmd.size;
              filled = filled;
              reserve_bid_price = cmd.reserve_bid_price;
              action = cmd.action;
              uid = cmd.uid;
              timestamp = cmd.timestamp;
            })
            book w.sides w.index (λ k. refl) new w.uncrossed (m.from, lt, refl, refl)
            (m.outside lt))
  ])
]

new_order_place_gtc-IsWellFormed :
    (book : OrderBook) (cmd : OrderCommand)
    → IsWellFormed book
    → pos 0 <ℤ cmd.size
    → IsWellFormed (new_order_place_gtc book cmd).0
unfolding new_order_place_gtc
new_order_place_gtc-IsWellFormed book cmd w p =
    place_gtc_rest-IsWellFormed _ _ _ cmd
      (try_match_instantly-IsWellFormed (should_continue cmd.action cmd.price) cmd.size
        cmd.reserve_bid_price (pos 0) cmd.action book cmd w)
      (try_match_instantly-IsMatched cmd.action cmd.price cmd.size cmd.reserve_bid_price (pos 0)
        book cmd w.sides (omega arith) (omega arith))

new_order_match_ioc-IsWellFormed :
    (book : OrderBook) (cmd : OrderCommand)
    → IsWellFormed book
    → IsWellFormed (new_order_match_ioc book cmd).0
unfolding new_order_match_ioc
new_order_match_ioc-IsWellFormed book cmd w =
    try_match_instantly-IsWellFormed (should_continue cmd.action cmd.price) cmd.size
      cmd.reserve_bid_price (pos 0) cmd.action book cmd w

new_order_match_fok_budget-IsWellFormed :
    (book : OrderBook) (cmd : OrderCommand)
    → IsWellFormed book
    → IsWellFormed (new_order_match_fok_budget book cmd).0
unfolding new_order_match_fok_budget
new_order_match_fok_budget-IsWellFormed book cmd w = ground (
  arith,
  w,
  try_match_instantly-IsWellFormed (λ p. true) cmd.size cmd.reserve_bid_price (pos 0) cmd.action
      book cmd w,
)

new_order_of_type-IsWellFormed :
    (t : OrderType) (book : OrderBook) (cmd : OrderCommand)
    → IsWellFormed book
    → pos 0 <ℤ cmd.size
    → IsWellFormed (new_order_of_type t book cmd).0
unfolding new_order_of_type
new_order_of_type-IsWellFormed OrderType.gtc book cmd w p =
    new_order_place_gtc-IsWellFormed book cmd w p
new_order_of_type-IsWellFormed OrderType.ioc book cmd w p =
    new_order_match_ioc-IsWellFormed book cmd w
new_order_of_type-IsWellFormed OrderType.fok_budget book cmd w p =
    new_order_match_fok_budget-IsWellFormed book cmd w
new_order_of_type-IsWellFormed OrderType.ioc_budget book cmd w p = w
new_order_of_type-IsWellFormed OrderType.fok book cmd w p = w

-- A new order of a positive size keeps the book well-formed: volumes are sums and positive, orders
-- are live and in the bucket of their side and price, ids are distinct and indexed where the book
-- holds them, buckets are sorted and the sides do not cross.
pub new_order-IsWellFormed :
    (book : OrderBook) (cmd : OrderCommand)
    → IsWellFormed book
    → pos 0 <ℤ cmd.size
    → IsWellFormed (new_order book cmd).0
unfolding new_order
new_order-IsWellFormed book cmd w p = new_order_of_type-IsWellFormed cmd.order_type book cmd w p
