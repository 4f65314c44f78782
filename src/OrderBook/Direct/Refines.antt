-- ===== src/OrderBook/Direct/Refines.antt =====
-- OrderBookDirectImpl.cpp: `tryMatchInstantly` beside `TryMatchInstantly` of OrderBookNaiveImpl.cpp.
use exchange_cpp.Base.{
  ℕ, suc, ◌≤◌, true, false, Option, some, List, [], ◌∷◌, ◌++◌, ◌≡◌, refl, arith, length, subst, ap,
}
use exchange_cpp.Base.Dict.{Dict, erase}
use exchange_cpp.Base.Int.{ℤ, pos, ◌+ℤ◌, ◌-ℤ◌, ◌==ℤ◌, ltb_ℤ, min_ℤ, int_laws}
use exchange_cpp.Common.{MatcherTradeEvent, OrderAction, opposite}
use exchange_cpp.OrderBook.Bucket.{fill}
use exchange_cpp.OrderBook.Levels.{match_range, should_continue}
use exchange_cpp.OrderBook.Levels.Map.{IsPlaced-IsLive}
use exchange_cpp.OrderBook.Book.{erase_all}
use exchange_cpp.OrderBook.PriceMap.{PriceMap}
use exchange_cpp.OrderBook.Direct.{Side, free_order, store_bucket, store_order}
use exchange_cpp.OrderBook.Direct.Chain.{
  Cell, Level, orders_of, pointers, naive_buckets, Represents, bucket_of, All-left, pointers_of,
}
use exchange_cpp.OrderBook.Direct.Represents.{
  IsSound, level_at, first_object, Represents-part, Represents-next, Represents-last,
}
use exchange_cpp.OrderBook.Direct.OneOrder.{trade_of}
use exchange_cpp.OrderBook.Direct.Stepwise.{match_range_part, match_range_next, match_range_last}
use exchange_cpp.OrderBook.Direct.Matching.{repeats, goes_on, sweep}
use exchange_cpp.OrderBook.Direct.Sweeping.{
  match_maker-part, match_maker-next, match_maker-last, last_new, without_last, traded,
}
use exchange_cpp.OrderBook.Direct.Swept.{
  Swept, Swept-prepend, resume, sweep_at, IsSound-next, IsSound-tail,
}

module _ {T : Type 0} (prices : PriceMap T) (action : OrderAction) (limit size r : ℤ) where
  -- The loop goes on where it can.
  pub resume-sweep :
      (fuel : ℕ) (s : Side T) (index : Dict (OrderAction × ℕ)) (events : List MatcherTradeEvent)
      (left : ℤ) (tail : ℕ) (next : Option ℕ) (b : ℕ) (price : ℤ) (c : Cell) (ds : List Cell)
      (ls : List Level)
      → Represents prices next s (level_at b price c ds ∷ ls)
      → IsSound (opposite action) (level_at b price c ds ∷ ls)
      → ltb_ℤ (pos 0) left ≡ true
      → should_continue action limit price ≡ true
      → resume prices fuel action limit r
          (sweep_at prices s index events left tail (level_at b price c ds ∷ ls))
        ≡ sweep prices fuel action limit r c.pointer
            (sweep_at prices s index events left tail (level_at b price c ds ∷ ls))
  unfolding repeats goes_on
  resume-sweep fuel s index events left tail next b price c ds ls rep d more go =
      let at : c.order.price ≡ price = d.valid.0.0.placed.0.2 in
      rw
        (more, first_object s.orders b next c ds ls rep.0, ap (should_continue action limit) at, go)
        refl

  -- With this fuel the loop ends from any levels that have no more orders.
  abbrev pub Resumes : ℕ → Type 0
  Resumes fuel =
      (s : Side T) (index : Dict (OrderAction × ℕ)) (events : List MatcherTradeEvent) (filled : ℤ)
      (tail : ℕ) (next : Option ℕ) (ls : List Level)
      → Represents prices next s ls
      → IsSound (opposite action) ls
      → length (pointers ls) ≤ fuel
      → Swept prices
          (resume prices fuel action limit r
            (sweep_at prices s index events (size -ℤ filled) tail ls))
          size (match_range (should_continue action limit) size r filled (naive_buckets ls)) events
          index

  -- The loop at a maker that is not used up.
  pub part-Swept :
      (fuel : ℕ) (s : Side T) (index : Dict (OrderAction × ℕ)) (events : List MatcherTradeEvent)
      (filled : ℤ) (tail : ℕ) (next : Option ℕ) (b : ℕ) (price : ℤ) (c : Cell) (ds : List Cell)
      (ls : List Level)
      → Represents prices next s (level_at b price c ds ∷ ls)
      → IsSound (opposite action) (level_at b price c ds ∷ ls)
      → ltb_ℤ (pos 0) (size -ℤ filled) ≡ true
      → should_continue action limit price ≡ true
      → (c.order.size
          ==ℤ (c.order.filled +ℤ min_ℤ (size -ℤ filled) (c.order.size -ℤ c.order.filled)))
        ≡ false
      → Swept prices
          (sweep prices
            (suc fuel)
            action
            limit
            r
            c.pointer
            (sweep_at prices s index events (size -ℤ filled) tail (level_at b price c ds ∷ ls)))
          size
          (match_range
            (should_continue action limit)
            size
            r
            filled
            (naive_buckets (level_at b price c ds ∷ ls)))
          events
          index
  unfolding sweep repeats erase_all
  part-Swept fuel s index events filled tail next b price c ds ls rep d more go part =
      let w = sweep_at prices s index events (size -ℤ filled) tail (level_at b price c ds ∷ ls) in
      let placed = d.valid.0.0.placed in
      let live = IsPlaced-IsLive (opposite action) price (c.order ∷ orders_of ds) placed in
      let v = min_ℤ (size -ℤ filled) (c.order.size -ℤ c.order.filled) in
      rw
        (
          match_maker-part prices action r w next b price c ds ls rep placed.0.3 part,
          match_range_part (should_continue action limit) size r (opposite action) filled price
              c.order (orders_of ds) (naive_buckets ls) more go part live d.valid.0.1,
        )
        (record {
          final = _;
          next = next;
          rest = level_at b price (record c { order = fill c.order v }) ds ∷ ls;
          returns = refl;
          maker = refl;
          represented =
              Represents-part prices (opposite action) s next b price c (fill c.order v) ds ls d
                rep;
          orders = d.orders;
          buckets = d.buckets;
          levels = refl;
          trades = refl;
          remaining = omega int_laws;
          erased = refl;
        })

  -- The loop at a maker that is used up.
  pub full-Swept :
      (fuel : ℕ)
      → Resumes fuel
      → (s : Side T) (index : Dict (OrderAction × ℕ)) (events : List MatcherTradeEvent) (filled : ℤ)
        (tail : ℕ) (next : Option ℕ) (b : ℕ) (price : ℤ) (c : Cell) (ds : List Cell)
        (ls : List Level)
      → Represents prices next s (level_at b price c ds ∷ ls)
      → IsSound (opposite action) (level_at b price c ds ∷ ls)
      → ltb_ℤ (pos 0) (size -ℤ filled) ≡ true
      → should_continue action limit price ≡ true
      → length (pointers (level_at b price c ds ∷ ls)) ≤ suc fuel
      → (c.order.size
          ==ℤ (c.order.filled +ℤ min_ℤ (size -ℤ filled) (c.order.size -ℤ c.order.filled)))
        ≡ true
      → Swept prices
          (sweep prices
            (suc fuel)
            action
            limit
            r
            c.pointer
            (sweep_at prices s index events (size -ℤ filled) tail (level_at b price c ds ∷ ls)))
          size
          (match_range
            (should_continue action limit)
            size
            r
            filled
            (naive_buckets (level_at b price c ds ∷ ls)))
          events
          index
  unfolding sweep
  full-Swept fuel ih s index events filled tail next b price c [] ls rep d more go le full =
      let w = sweep_at prices s index events (size -ℤ filled) tail (level_at b price c [] ∷ ls) in
      let placed = d.valid.0.0.placed in
      let v = min_ℤ (size -ℤ filled) (c.order.size -ℤ c.order.filled) in
      let trade = trade_of r (size -ℤ filled) c.order true in
      let left : size -ℤ (filled +ℤ v) ≡ size -ℤ filled -ℤ v = omega int_laws in
      let sides = without_last prices b next price c v ls s in
      let now = erase c.order.order_id index in
      let range =
        match_range (should_continue action limit) size r (filled +ℤ v) (naive_buckets ls) in
      let rest =
        ih sides now (events ++ trade ∷ []) (filled +ℤ v) c.pointer (some c.pointer) ls
          (Represents-last prices (opposite action) s next b price c _ _ ls c.order.price placed.0.2
            d rep)
          (IsSound-tail (opposite action) (level_at b price c []) ls d) (omega (arith, le)) in
      rw
        (
          match_maker-last prices action r w next b price c ls rep d placed.0.3 refl full,
          match_range_last (should_continue action limit) size r filled price c.order
              (naive_buckets ls) more go full,
        )
        (Swept-prepend prices _ size trade c.order.order_id range events index (
          subst
            (λ x.
              Swept prices
                (resume prices fuel action limit r
                  (sweep_at prices sides now (events ++ trade ∷ []) x c.pointer ls))
                size range (events ++ trade ∷ []) now)
            left rest))
  full-Swept fuel ih s index events filled tail next b price c (e ∷ es) ls rep d more go le full =
      let w =
        sweep_at prices s index events (size -ℤ filled) tail (level_at b price c (e ∷ es) ∷ ls) in
      let placed = d.valid.0.0.placed in
      let v = min_ℤ (size -ℤ filled) (c.order.size -ℤ c.order.filled) in
      let trade = trade_of r (size -ℤ filled) c.order true in
      let left : size -ℤ (filled +ℤ v) ≡ size -ℤ filled -ℤ v = omega int_laws in
      let others = level_at b price e es ∷ ls in
      let sides = free_order c.pointer (
        store_bucket b (bucket_of (level_at b price e es))
          (store_order c.pointer (traded b next c v (e ∷ es) ls) s)) in
      let now = erase c.order.order_id index in
      let range =
        match_range (should_continue action limit) size r (filled +ℤ v) (naive_buckets others) in
      let rest =
        ih sides now (events ++ trade ∷ []) (filled +ℤ v) tail (some c.pointer) others
          (Represents-next prices (opposite action) s next b price c e _ es ls d rep)
          (IsSound-next (opposite action) b price c e es ls d) (omega (arith, le)) in
      rw
        (
          match_maker-next prices action r w next b price c e es ls rep placed.0.3
              (last_new c.pointer e es (All-left _ (pointers_of e es) (pointers ls) d.orders.0))
              refl full,
          match_range_next (should_continue action limit) size r filled price c.order e.order
              (orders_of es) (naive_buckets ls) more go full,
        )
        (Swept-prepend prices _ size trade c.order.order_id range events index (
          subst
            (λ x.
              Swept prices
                (resume prices fuel action limit r
                  (sweep_at prices sides now (events ++ trade ∷ []) x tail others))
                size range (events ++ trade ∷ []) now)
            left rest))
