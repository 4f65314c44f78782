-- ===== src/OrderBook/Direct/Sweeping.antt =====
-- OrderBookDirectImpl.cpp: the body of the loop of `tryMatchInstantly` at the first order of a level.
use exchange_cpp.Base.{
  ℕ, suc, true, false, Option, some, List, [], ◌∷◌, ◌++◌, ◌==◌, ◌≡◌, refl, arith, length, ==_refl,
}
use exchange_cpp.Base.Dict.{erase}
use exchange_cpp.Base.Int.{ℤ, pos, ◌+ℤ◌, ◌-ℤ◌, ◌==ℤ◌, min_ℤ, int_laws, parts}
use exchange_cpp.Common.{Order, OrderAction, ask, bid, opposite}
use exchange_cpp.OrderBook.Bucket.{fill, bidder_hold_price, calculated_volume}
use exchange_cpp.OrderBook.PriceMap.{PriceMap}
use exchange_cpp.OrderBook.Direct.{
  DirectOrder, Side, store_order, free_order, store_bucket, free_bucket,
}
use exchange_cpp.OrderBook.Direct.Chain.{
  Cell, Level, last_pointer, head_pointer, orders_of, bucket_of, Represents, pointers_of, IsNew,
}
use exchange_cpp.OrderBook.Direct.Represents.{IsSound, prev_of, first_object, level_at}
use exchange_cpp.OrderBook.Direct.OneOrder.{trade_of, volume_fill, volume_full}
use exchange_cpp.OrderBook.Direct.Matching.{Sweep, match_maker, recycle, drop_bucket, hold_price}

-- Makers stand on the other side than the taker.
pub hold_price-bidder_hold_price :
    (action : OrderAction) (r : ℤ) (o : Order)
    → o.action ≡ opposite action
    → hold_price action r o ≡ bidder_hold_price r o
hold_price-bidder_hold_price ask r o e = rw e refl
hold_price-bidder_hold_price bid r o e = rw e refl

-- The object of the first order after a trade.
abbrev pub traded : ℕ → Option ℕ → Cell → ℤ → List Cell → List Level → DirectOrder
traded b next c v ds ls = record {
  order = fill c.order v;
  next = next;
  prev = prev_of ds ls;
  bucket = b;
}

volume_completed :
    (c : ℤ) (o : Order) (os : List Order)
    → (o.size ==ℤ (o.filled +ℤ min_ℤ c (o.size -ℤ o.filled))) ≡ true
    → calculated_volume (o ∷ os) -ℤ min_ℤ c (o.size -ℤ o.filled) ≡ calculated_volume os
volume_completed c o os full = omega (int_laws, parts (volume_full (pos 0) c o os full))

one_less : (n : ℕ) → pos (suc (suc n)) -ℤ pos 1 ≡ pos (suc n)
one_less n = omega int_laws

-- The last order of a level is the tail; the tail after it is the next level's.
abbrev pub next_tail : ℕ → List Level → ℕ
next_tail p [] = p
next_tail p (l ∷ ls) = last_pointer l.first.pointer l.others

pub last_new :
    (p : ℕ) (c : Cell) (ds : List Cell)
    → IsNew p (pointers_of c ds)
    → (p == last_pointer c.pointer ds) ≡ false
last_new p c [] n = let e = n.0 in ground arith
last_new p c (d ∷ ds) n = last_new p d ds n.1

module _ {T : Type 0} (prices : PriceMap T) where
  pub match_maker-part :
      (action : OrderAction) (r : ℤ) (w : Sweep T) (next : Option ℕ) (b : ℕ) (price : ℤ) (c : Cell)
      (ds : List Cell) (ls : List Level)
      → Represents prices next w.side (level_at b price c ds ∷ ls)
      → c.order.action ≡ opposite action
      → (let v = min_ℤ w.remaining_size (c.order.size -ℤ c.order.filled) in
          let c' = record c { order = fill c.order v } in
          (c.order.size ==ℤ (c.order.filled +ℤ v)) ≡ false
          → match_maker prices action r c.pointer w
            ≡ some (
              false,
              record w {
                side =
                    store_bucket b
                      (bucket_of (level_at b price c' ds))
                      (store_order c.pointer (traded b next c v ds ls) w.side);
                events = w.events ++ trade_of r w.remaining_size c.order false ∷ [];
                remaining_size = w.remaining_size -ℤ v;
              },
            ))
  unfolding match_maker
  match_maker-part action r w next b price c ds ls rep other part =
      let v = min_ℤ w.remaining_size (c.order.size -ℤ c.order.filled) in
      rw
        (
          first_object w.side.orders b next c ds ls rep.0,
          rep.1,
          part,
          hold_price-bidder_hold_price action r (fill c.order v) other,
          volume_fill v c.order (orders_of ds),
        )
        refl

  pub match_maker-next :
      (action : OrderAction) (r : ℤ) (w : Sweep T) (next : Option ℕ) (b : ℕ) (price : ℤ)
      (c d : Cell) (ds : List Cell) (ls : List Level)
      → Represents prices next w.side (level_at b price c (d ∷ ds) ∷ ls)
      → c.order.action ≡ opposite action
      → (c.pointer == last_pointer d.pointer ds) ≡ false
      → w.price_bucket_tail ≡ last_pointer d.pointer ds
      → (let v = min_ℤ w.remaining_size (c.order.size -ℤ c.order.filled) in
          (c.order.size ==ℤ (c.order.filled +ℤ v)) ≡ true
          → match_maker prices action r c.pointer w
            ≡ some (
              true,
              record w {
                side = free_order c.pointer (
                    store_bucket b
                      (bucket_of (level_at b price d ds))
                      (store_order c.pointer (traded b next c v (d ∷ ds) ls) w.side));
                index = erase c.order.order_id w.index;
                events = w.events ++ trade_of r w.remaining_size c.order true ∷ [];
                remaining_size = w.remaining_size -ℤ v;
                maker_order = some d.pointer;
              },
            ))
  unfolding match_maker recycle
  match_maker-next action r w next b price c d ds ls rep other not_last tail full =
      let v = min_ℤ w.remaining_size (c.order.size -ℤ c.order.filled) in
      rw
        (
          first_object w.side.orders b next c (d ∷ ds) ls rep.0,
          rep.1,
          full,
          tail,
          not_last,
          hold_price-bidder_hold_price action r (fill c.order v) other,
          volume_completed w.remaining_size c.order (orders_of (d ∷ ds)) full,
          one_less (length ds),
        )
        refl

  abbrev pub without_last : ℕ → Option ℕ → ℤ → Cell → ℤ → List Level → Side T → Side T
  without_last b next price c v ls s = free_order c.pointer (
      free_bucket b
        (record (store_bucket b
          (record (bucket_of (level_at b price (record c { order = fill c.order v }) [])) {
            num_orders = pos 1 -ℤ pos 1;
          })
          (store_order c.pointer (traded b next c v [] ls) s)) {
            price_buckets = prices.remove c.order.price s.price_buckets;
          }))

  pub match_maker-last :
      (action : OrderAction) (r : ℤ) (w : Sweep T) (next : Option ℕ) (b : ℕ) (price : ℤ) (c : Cell)
      (ls : List Level)
      → Represents prices next w.side (level_at b price c [] ∷ ls)
      → IsSound (opposite action) (level_at b price c [] ∷ ls)
      → c.order.action ≡ opposite action
      → w.price_bucket_tail ≡ c.pointer
      → (let v = min_ℤ w.remaining_size (c.order.size -ℤ c.order.filled) in
          (c.order.size ==ℤ (c.order.filled +ℤ v)) ≡ true
          → match_maker prices action r c.pointer w
            ≡ some (
              true,
              record w {
                side = without_last b next price c v ls w.side;
                index = erase c.order.order_id w.index;
                events = w.events ++ trade_of r w.remaining_size c.order true ∷ [];
                remaining_size = w.remaining_size -ℤ v;
                maker_order = head_pointer ls;
                price_bucket_tail = next_tail c.pointer ls;
              },
            ))
  unfolding match_maker recycle drop_bucket
  match_maker-last action r w next b price c [] rep d other tail full =
      let v = min_ℤ w.remaining_size (c.order.size -ℤ c.order.filled) in
      rw
        (
          rep.0,
          rep.1,
          full,
          tail,
          ==_refl c.pointer,
          hold_price-bidder_hold_price action r (fill c.order v) other,
          volume_fill v c.order [],
        )
        refl
  match_maker-last action r w next b price c (l ∷ ls) rep d other tail full =
      let v = min_ℤ w.remaining_size (c.order.size -ℤ c.order.filled) in
      rw
        (
          rep.0,
          rep.1,
          full,
          tail,
          ==_refl c.pointer,
          d.orders.0.0,
          first_object w.side.orders l.bucket (some c.pointer) l.first l.others ls rep.3.0,
          d.buckets.0.0,
          rep.3.1,
          hold_price-bidder_hold_price action r (fill c.order v) other,
          volume_fill v c.order [],
        )
        refl
