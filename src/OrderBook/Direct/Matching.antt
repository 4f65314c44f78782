-- ===== src/OrderBook/Direct/Matching.antt =====
-- OrderBookDirectImpl.cpp: `tryMatchInstantly`.
use exchange_cpp.Base.{
  ℕ, zero, suc, Bool, true, false, not, ◌&&◌, Option, none, some, List, [], ◌∷◌, ◌++◌, ◌==◌,
  if◌then◌else◌,
}
use exchange_cpp.Base.Dict.{Dict, erase}
use exchange_cpp.Base.Int.{ℤ, pos, ◌-ℤ◌, ltb_ℤ, ◌==ℤ◌, min_ℤ}
use exchange_cpp.Common.{
  is_fok_budget, is_place_order, MatcherTradeEvent, Order, OrderAction, ask, bid, opposite, is_bid,
  OrderCommand,
}
use exchange_cpp.OrderBook.Events.{send_trade_event}
use exchange_cpp.OrderBook.Bucket.{fill}
use exchange_cpp.OrderBook.Levels.{should_continue}
use exchange_cpp.OrderBook.Book.{with_events}
use exchange_cpp.OrderBook.PriceMap.{PriceMap}
use exchange_cpp.OrderBook.Direct.{
  ◌>>=◌, DirectOrder, Side, DirectBook, side_of, with_side, store_order, free_order, store_bucket,
  free_bucket, set_next,
}

-- The variables of the loop, with the makers' side and the index of the book.
pub record Sweep (T : Type 0) : Type 0 where
  pub side : Side T
  pub index : Dict (OrderAction × ℕ)
  pub events : List MatcherTradeEvent
  pub remaining_size : ℤ
  pub maker_order : Option ℕ
  pub price_bucket_tail : ℕ

-- `bidderHoldPrice`
abbrev pub hold_price : OrderAction → ℤ → Order → ℤ
hold_price bid taker_reserve maker = taker_reserve
hold_price ask taker_reserve maker = maker.reserve_bid_price

-- The limit of a taker: a budget order that sells takes every price from zero.
unfoldable pub limit_price : OrderCommand → Order → ℤ
limit_price cmd taker =
    if (is_place_order cmd.command && is_fok_budget cmd.order_type) && not (is_bid taker.action)
    then pos 0
    else taker.price

module _ {T : Type 0} (prices : PriceMap T) where
  -- The maker is the last order of its bucket: the bucket goes, and the tail is the next one's.
  unfoldable pub drop_bucket : DirectOrder → Option ℕ → Sweep T → Option (Sweep T)
  drop_bucket maker none w = some (record w {
    side =
        free_bucket maker.bucket
          (record w.side { price_buckets = prices.remove maker.order.price w.side.price_buckets });
  })
  drop_bucket maker (some q) w = do
    let emptied =
        free_bucket maker.bucket
          (record w.side { price_buckets = prices.remove maker.order.price w.side.price_buckets })
    n ← emptied.orders q
    b ← emptied.buckets n.bucket
    some (record w { side = emptied; price_bucket_tail = b.last_order })

  -- The end of the loop's body, where the maker `p` is completed.
  unfoldable pub recycle : ℕ → DirectOrder → Sweep T → Option (Sweep T)
  unfolding drop_bucket
  recycle p maker w = do
    w' ← (if p == w.price_bucket_tail then drop_bucket maker maker.prev w else some w)
    some (record w' {
      side = free_order p w'.side;
      index = erase maker.order.order_id w'.index;
      maker_order = maker.prev;
    })

  -- The body of the loop at the maker `p`; whether the maker is completed.
  unfoldable pub match_maker : OrderAction → ℤ → ℕ → Sweep T → Option (Bool × Sweep T)
  unfolding recycle
  match_maker action reserve p w = do
    maker ← w.side.orders p
    b ← w.side.buckets maker.bucket
    let trade_size = min_ℤ w.remaining_size (maker.order.size -ℤ maker.order.filled)
    let maker' = record maker { order = fill maker.order trade_size }
    let left = w.remaining_size -ℤ trade_size
    let completed = maker'.order.size ==ℤ maker'.order.filled
    let b' = record b {
      total_volume = b.total_volume -ℤ trade_size;
      num_orders = if completed then b.num_orders -ℤ pos 1 else b.num_orders;
    }
    let event =
        send_trade_event maker'.order completed (left ==ℤ pos 0) trade_size
          (hold_price action reserve maker'.order)
    let w' = record w {
      side = store_bucket maker.bucket b' (store_order p maker' w.side);
      events = w.events ++ event ∷ [];
      remaining_size = left;
    }
    w'' ← (if completed then recycle p maker' w' else some w')
    some (completed, w'')

  -- The condition of the loop, at the next maker.
  unfoldable pub goes_on : OrderAction → ℤ → Option ℕ → Sweep T → Option Bool
  goes_on action limit none w = some false
  goes_on action limit (some q) w =
      if ltb_ℤ (pos 0) w.remaining_size
      then (do maker ← w.side.orders q; some (should_continue action limit maker.order.price))
      else some false

  -- `break`, or the condition.
  unfoldable pub repeats : OrderAction → ℤ → Bool × Sweep T → Option Bool
  unfolding goes_on
  repeats action limit (false, w) = some false
  repeats action limit (true, w) = goes_on action limit w.maker_order w

  -- The loop, from the maker `p`.
  unfoldable pub sweep : ℕ → OrderAction → ℤ → ℤ → ℕ → Sweep T → Option (Sweep T)
  unfolding match_maker repeats
  sweep zero action limit reserve p w = none
  sweep (suc fuel) action limit reserve p w = do
    r ← match_maker action reserve p w
    more ← repeats action limit r
    elim more [
      | true ↦ r.1.maker_order >>= λ q. sweep fuel action limit reserve q r.1
      | false ↦ some r.1
    ]

  -- After the loop: the maker that is reached is the best order.
  unfoldable pub finish_sweep : Sweep T → Option (Side T)
  unfolding set_next
  finish_sweep w = do
    s ← set_next w.maker_order none w.side
    some (record s { best_order = w.maker_order })

  -- The loop and what is after it, from the best order `p`.
  unfoldable pub match_from :
      ℕ → ℤ → Order → ℕ → DirectBook T → OrderCommand → Option (ℤ × DirectBook T × OrderCommand)
  unfolding sweep finish_sweep
  match_from fuel limit taker p book cmd = do
    let other = opposite taker.action
    let side = side_of other book
    maker ← side.orders p
    b ← side.buckets maker.bucket
    w ← sweep fuel taker.action limit taker.reserve_bid_price p (record {
      side = side;
      index = book.order_id_index;
      events = [];
      remaining_size = taker.size -ℤ taker.filled;
      maker_order = some p;
      price_bucket_tail = b.last_order;
    })
    side' ← finish_sweep w
    some (
      taker.size -ℤ w.remaining_size,
      record (with_side other side' book) { order_id_index = w.index },
      with_events w.events cmd,
    )

  -- `tryMatchInstantly` from the best order of the other side, which may be null.
  unfoldable pub match_best :
      ℕ → Order → Option ℕ → DirectBook T → OrderCommand → Option (ℤ × DirectBook T × OrderCommand)
  match_best fuel taker none book cmd = some (taker.filled, book, cmd)
  match_best fuel taker (some p) book cmd = do
    let limit = limit_price cmd taker
    maker ← (side_of (opposite taker.action) book).orders p
    let meets = should_continue taker.action limit maker.order.price
    let wants = not ((taker.size -ℤ taker.filled) ==ℤ pos 0)
    if meets && wants
        then match_from fuel limit taker p book cmd
        else some (taker.filled, book, cmd)

  -- `tryMatchInstantly`: the filled size, the book and the command.
  unfoldable pub try_match_direct :
      ℕ → Order → DirectBook T → OrderCommand → Option (ℤ × DirectBook T × OrderCommand)
  unfolding match_best
  try_match_direct fuel taker book cmd =
      match_best fuel taker (side_of (opposite taker.action) book).best_order book cmd
