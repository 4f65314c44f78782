-- ===== src/OrderBook/Book/Snapshot.antt =====
-- What a snapshot of the levels shows of the book.
use exchange_cpp.Base.{ℕ, zero, suc, ◌+◌, ◌≤◌, List, [], ◌∷◌, ◌≡◌, refl, ap, arith, length, true}
use exchange_cpp.Base.Int.{ℤ, pos, ◌+ℤ◌}
use exchange_cpp.Common.{OrderAction, ask, bid}
use exchange_cpp.OrderBook.Bucket.{OrdersBucket, num_orders}
use exchange_cpp.OrderBook.Levels.{before, fill_levels, total_orders_volume, orders_num}
use exchange_cpp.OrderBook.Levels.Map.{IsSorted, AllAfter}
use exchange_cpp.OrderBook.Book.{
  OrderBook, l2_market_data_snapshot, get_total_orders_volume, get_orders_num,
}
use exchange_cpp.OrderBook.Book.Wf.{IsWellFormed}

unfoldable pub level_volumes : List (ℤ × ℤ × ℕ) → ℤ
level_volumes [] = pos 0
level_volumes ((price, volume, orders) ∷ ls) = volume +ℤ level_volumes ls

unfoldable pub level_orders : List (ℤ × ℤ × ℕ) → ℕ
level_orders [] = 0
level_orders ((price, volume, orders) ∷ ls) = orders + level_orders ls

-- The prices go from the best to the worst, without repetition.
abbrev pub AreBehind : OrderAction → ℤ → List (ℤ × ℤ × ℕ) → Type 0
AreBehind side p [] = Unit
AreBehind side p ((q, volume, orders) ∷ ls) = (before side p q ≡ true) × AreBehind side p ls

abbrev pub AreLevels : OrderAction → List (ℤ × ℤ × ℕ) → Type 0
AreLevels side [] = Unit
AreLevels side ((p, volume, orders) ∷ ls) = AreBehind side p ls × AreLevels side ls

fill_levels-AreBehind :
    (side : OrderAction) (n : ℕ) (p : ℤ) (bs : List OrdersBucket)
    → AllAfter side p bs
    → AreBehind side p (fill_levels n bs)
unfolding fill_levels
fill_levels-AreBehind side zero p bs h = tt
fill_levels-AreBehind side (suc n) p [] h = tt
fill_levels-AreBehind side (suc n) p (b ∷ bs) h = (h.0, fill_levels-AreBehind side n p bs h.1)

fill_levels-AreLevels :
    (side : OrderAction) (n : ℕ) (bs : List OrdersBucket)
    → IsSorted side bs
    → AreLevels side (fill_levels n bs)
unfolding fill_levels
fill_levels-AreLevels side zero bs h = tt
fill_levels-AreLevels side (suc n) [] h = tt
fill_levels-AreLevels side (suc n) (b ∷ bs) h =
    (fill_levels-AreBehind side n b.price bs h.0, fill_levels-AreLevels side n bs h.1)

level_volumes-fill_levels :
    (n : ℕ) (bs : List OrdersBucket)
    → length bs ≤ n
    → level_volumes (fill_levels n bs) ≡ total_orders_volume bs
unfolding fill_levels level_volumes total_orders_volume
level_volumes-fill_levels zero [] h = refl
level_volumes-fill_levels zero (b ∷ bs) h = absurd (omega arith)
level_volumes-fill_levels (suc n) [] h = refl
level_volumes-fill_levels (suc n) (b ∷ bs) h =
    ap (◌+ℤ◌ b.total_volume) (level_volumes-fill_levels n bs (omega arith))

level_orders-fill_levels :
    (n : ℕ) (bs : List OrdersBucket)
    → length bs ≤ n
    → level_orders (fill_levels n bs) ≡ orders_num bs
unfolding fill_levels level_orders orders_num
level_orders-fill_levels zero [] h = refl
level_orders-fill_levels zero (b ∷ bs) h = absurd (omega arith)
level_orders-fill_levels (suc n) [] h = refl
level_orders-fill_levels (suc n) (b ∷ bs) h =
    ap (◌+◌ (num_orders b)) (level_orders-fill_levels n bs (omega arith))

-- A snapshot of a well-formed book shows on each side prices from the best to the worst without
-- repetition, whatever its depth.
pub l2_market_data_snapshot-AreLevels :
    (depth : ℕ) (book : OrderBook)
    → IsWellFormed book
    → AreLevels ask (l2_market_data_snapshot depth book).asks
      × AreLevels bid (l2_market_data_snapshot depth book).bids
unfolding l2_market_data_snapshot
l2_market_data_snapshot-AreLevels depth book w = (
  fill_levels-AreLevels ask depth book.ask_buckets (w.sides ask).1,
  fill_levels-AreLevels bid depth book.bid_buckets (w.sides bid).1,
)

-- A snapshot that is deep enough for all buckets adds up, on each side, to the total volume and the
-- number of orders that the book reports.
pub l2_market_data_snapshot_totals :
    (depth : ℕ) (book : OrderBook)
    → length book.ask_buckets ≤ depth
    → length book.bid_buckets ≤ depth
    → (level_volumes (l2_market_data_snapshot depth book).asks ≡ get_total_orders_volume ask book)
      × (level_volumes (l2_market_data_snapshot depth book).bids ≡ get_total_orders_volume bid book)
      × (level_orders (l2_market_data_snapshot depth book).asks ≡ get_orders_num ask book)
      × (level_orders (l2_market_data_snapshot depth book).bids ≡ get_orders_num bid book)
unfolding l2_market_data_snapshot
l2_market_data_snapshot_totals depth book asks bids = (
  level_volumes-fill_levels depth book.ask_buckets asks,
  level_volumes-fill_levels depth book.bid_buckets bids,
  level_orders-fill_levels depth book.ask_buckets asks,
  level_orders-fill_levels depth book.bid_buckets bids,
)
