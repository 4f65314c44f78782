-- ===== src/OrderBook/NewOrder/Prices.antt =====
-- The prices at which a new order trades.
use exchange_cpp.Base.{List, [], ◌∷◌, ◌≡◌, All}
use exchange_cpp.Base.Int.{ℤ}
use exchange_cpp.Common.{OrderAction, opposite, OrderCommand, MatcherTradeEvent}
use exchange_cpp.OrderBook.Levels.{should_continue, match_range}
use exchange_cpp.OrderBook.Levels.Limits.{
  IsTradeWithin, IsPriceOrdered, match_range-IsTradeWithin, match_range-IsPriceOrdered,
}
use exchange_cpp.OrderBook.Book.{OrderBook, buckets_by_action, with_events, try_match_instantly}
use exchange_cpp.OrderBook.Book.Wf.{IsWellFormed}

with_events-All {ℓ} :
    (P : MatcherTradeEvent → Type ℓ) (es : List MatcherTradeEvent) (cmd : OrderCommand)
    → cmd.matcher_event ≡ []
    → All P es
    → All P (with_events es cmd).matcher_event
with_events-All P [] cmd e h = rw e tt
with_events-All P (x ∷ es) cmd e h = h

with_events-IsPriceOrdered :
    (side : OrderAction) (es : List MatcherTradeEvent) (cmd : OrderCommand)
    → cmd.matcher_event ≡ []
    → IsPriceOrdered side es
    → IsPriceOrdered side (with_events es cmd).matcher_event
with_events-IsPriceOrdered side [] cmd e h = rw e tt
with_events-IsPriceOrdered side (x ∷ es) cmd e h = h

-- Matched with a limit price on a well-formed book, an order trades with orders of the other side
-- only at prices that its limit accepts, the best price first.
pub try_match_instantly_prices :
    (action : OrderAction) (price size r filled : ℤ) (book : OrderBook) (cmd : OrderCommand)
    → IsWellFormed book
    → cmd.matcher_event ≡ []
    → let es =
        (try_match_instantly action
          (should_continue action price)
          size
          r
          filled
          book
          cmd).2.matcher_event in
      All (IsTradeWithin (should_continue action price)) es × IsPriceOrdered (opposite action) es
unfolding try_match_instantly
try_match_instantly_prices action price size r filled book cmd w e =
    let bs = buckets_by_action (opposite action) book in
    let c = should_continue action price in
    let es = (match_range c size r filled bs).events in
    let v = w.sides (opposite action) in
    (
      with_events-All (IsTradeWithin c) es cmd e
          (match_range-IsTradeWithin c size r filled (opposite action) bs v),
      with_events-IsPriceOrdered (opposite action) es cmd e
          (match_range-IsPriceOrdered c size r filled (opposite action) bs v),
    )
