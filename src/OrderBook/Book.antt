-- ===== src/OrderBook/Book.antt =====
-- OrderBookNaiveImpl.cpp: the state of the book, the matching and the reports. `idMap_` holds for each
-- live order the place of the object that its pointer points to, the side and the price of the bucket
-- that owns it; to follow the pointer is to find the order in that bucket.
pub mod Wf
pub mod Steps
pub mod Uncrossed
pub mod Snapshot
use exchange_cpp.Base.{
  ℕ, zero, suc, ◌+◌, ◌∷◌, [], ◌++◌, List, Bool, true, false, not, ◌&&◌, ◌||◌, Option, none, some,
  if◌then◌else◌, ◌==◌,
}
use exchange_cpp.Base.Dict.{Dict, lookup, insert, erase}
use exchange_cpp.Base.Int.{ℤ, pos, ◌+ℤ◌, ◌-ℤ◌, ◌*ℤ◌, ltb_ℤ, leb_ℤ, ◌==ℤ◌, min_ℤ}
use mathlib.Core.Bool.{xor}
use exchange_cpp.Common.{
  Order, MatcherTradeEvent, OrderAction, ask, bid, opposite, is_ask, is_bid, OrderCommand,
  OrderType, CommandResultCode, CoreSymbolSpecification, SymbolType, L2MarketData,
  currency_exchange_pair, futures_contract, option, trade, reduce, reject, binary_event,
}
use exchange_cpp.OrderBook.Events.{attach_reject_event, send_reduce_event}
use exchange_cpp.OrderBook.Bucket.{OrdersBucket, find_order, find_by_id, remove, reduce_size}
use exchange_cpp.OrderBook.Levels.{
  find_bucket, set_bucket, erase_bucket, place, should_continue, RangeResult, match_range,
  check_budget, fill_levels, total_orders_volume, orders_num,
}

-- What stops a command: the exception "Cannot find bucket", or a pointer in `idMap_` to an order
-- that is gone.
pub data Fault : Type 0 where
  bucket_not_found dangling_order : Fault

pub data Result (A : Type 0) : Type 0 where
  ok : A → Result A
  fault : Fault → Result A

infixl 5 ◌>>=◌
abbrev pub ◌>>=◌ : {A B : Type 0} → Result A → (A → Result B) → Result B
ok a >>= f = f a
fault e >>= f = fault e

abbrev pub or_fault : {A : Type 0} → Option A → Fault → Result A
or_fault none e = fault e
or_fault (some a) e = ok a

pub record OrderBook : Type 0 where
  pub symbol_spec : CoreSymbolSpecification
  pub ask_buckets : List OrdersBucket
  pub bid_buckets : List OrdersBucket
  pub id_map : Dict (OrderAction × ℤ)

-- The book, the command with its events, and the result code.
abbrev pub Reply : Type 0
Reply = CommandResultCode × OrderBook × OrderCommand

-- `GetBucketsByAction`
abbrev pub buckets_by_action : OrderAction → OrderBook → List OrdersBucket
buckets_by_action ask book = book.ask_buckets
buckets_by_action bid book = book.bid_buckets

abbrev pub with_buckets : OrderAction → List OrdersBucket → OrderBook → OrderBook
with_buckets ask bs book = record book { ask_buckets = bs }
with_buckets bid bs book = record book { bid_buckets = bs }

-- The constructor: an empty book.
unfoldable pub new_order_book : CoreSymbolSpecification → OrderBook
new_order_book spec = record { symbol_spec = spec; ask_buckets = []; bid_buckets = []; id_map = [] }

unfoldable pub erase_all : {V : Type 0} → List ℕ → Dict V → Dict V
erase_all [] d = d
erase_all (k ∷ ks) d = erase_all ks (erase k d)

-- A new chain of events goes to the command; no events leave it as it was.
abbrev pub with_events : List MatcherTradeEvent → OrderCommand → OrderCommand
with_events [] cmd = cmd
with_events (e ∷ es) cmd = record cmd { matcher_event = e ∷ es }

-- `TryMatchInstantly` of an order with this action: the filled size, the book and the command.
unfoldable pub try_match_instantly :
    OrderAction → (ℤ → Bool) → ℤ → ℤ → ℤ → OrderBook → OrderCommand → ℤ × OrderBook × OrderCommand
try_match_instantly action continues size reserve filled book cmd =
    let r = match_range continues size reserve filled (buckets_by_action (opposite action) book) in
    let book' = with_buckets (opposite action) r.buckets book in
    (
      r.filled,
      record book' { id_map = erase_all r.removed_ids book.id_map },
      with_events r.events cmd,
    )

-- An order is put into the bucket of its price, and its id into the map.
unfoldable pub place_order : Order → OrderBook → OrderBook
place_order o book =
    let book' = with_buckets o.action (place o.action o (buckets_by_action o.action book)) book in
    record book' { id_map = insert o.order_id (o.action, o.price) book.id_map }

-- The order that a pointer of `idMap_` points to.
unfoldable pub order_at : ℕ → OrderAction × ℤ → OrderBook → Option Order
order_at order_id (side, price) book = elim (find_bucket price (buckets_by_action side book)) [
  | none ↦ none
  | some b ↦ find_order order_id b
]

-- `GetOrderById`: null if the id is unknown.
unfoldable pub get_order_by_id : ℕ → OrderBook → Option Order
get_order_by_id order_id book = elim (lookup order_id book.id_map) [
  | none ↦ none
  | some place ↦ order_at order_id place book
]

-- `GetL2MarketDataSnapshot`; `fill_levels` stops at the end of the map as `GetTotalAskBuckets` does.
unfoldable pub l2_market_data_snapshot : ℕ → OrderBook → L2MarketData
l2_market_data_snapshot size book = record {
  asks = fill_levels size book.ask_buckets;
  bids = fill_levels size book.bid_buckets;
}

abbrev pub get_total_orders_volume : OrderAction → OrderBook → ℤ
get_total_orders_volume action book = total_orders_volume (buckets_by_action action book)

abbrev pub get_orders_num : OrderAction → OrderBook → ℕ
get_orders_num action book = orders_num (buckets_by_action action book)
