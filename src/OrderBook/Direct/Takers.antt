-- ===== src/OrderBook/Direct/Takers.antt =====
-- OrderBookDirectImpl.cpp and OrderBookNaiveImpl.cpp: orders that never rest, in the two order books.
use exchange_cpp.Base.{
  ℕ, zero, suc, ◌≤◌, false, Option, none, some, List, [], ◌∷◌, ◌≡◌, refl, arith, length, inl, inr,
  Bool-cases, subst, ap,
}
use exchange_cpp.Base.Int.{ℤ, pos, ◌+ℤ◌, ◌-ℤ◌, ◌*ℤ◌, ◌≤ℤ◌, ltb_ℤ}
use exchange_cpp.Common.{Order, OrderAction, opposite, OrderCommand, OrderType}
use exchange_cpp.OrderBook.Bucket.{calculated_volume}
use exchange_cpp.OrderBook.Levels.{check_budget, orders_num, should_continue}
use exchange_cpp.OrderBook.Levels.Map.{AreValid}
use exchange_cpp.OrderBook.Book.{OrderBook, buckets_by_action, try_match_instantly}
use exchange_cpp.OrderBook.NewOrder.{new_order_match_ioc}
use exchange_cpp.OrderBook.PriceMap.{PriceMap}
use exchange_cpp.OrderBook.Direct.{DirectBook, DirectOrder, Side, side_of}
use exchange_cpp.OrderBook.Direct.Chain.{
  Cell, Level, head_pointer, last_pointer, orders_of, naive_buckets, Represents, AreLinked,
}
use exchange_cpp.OrderBook.Direct.Represents.{first_object}
use exchange_cpp.OrderBook.Direct.Matching.{limit_price, try_match_direct}
use exchange_cpp.Common.{is_place_order, is_fok_budget}
use exchange_cpp.OrderBook.Direct.Queries.{budget_loop, check_budget_to_fill}
use exchange_cpp.Base.Int.{int64_max}
use exchange_cpp.OrderBook.Direct.Commands.{direct_ioc, order_of}
use exchange_cpp.OrderBook.Direct.Mirrors.{Mirrors}
use exchange_cpp.OrderBook.Direct.Agreement.{try_match_direct-try_match_instantly}

-- The object of the last order of a bucket leads to what is after the bucket.
last_object :
    (store : ℕ → Option DirectOrder) (b : ℕ) (next : Option ℕ) (c : Cell) (ds : List Cell)
    (prev : Option ℕ)
    → AreLinked store b next c ds prev
    → (o : Order) × (before : Option ℕ) × (store (last_pointer c.pointer ds)
        ≡ some (record { order = o; next = before; prev = prev; bucket = b }))
last_object store b next c [] prev h = (c.order, next, h)
last_object store b next c (d ∷ ds) prev h = last_object store b (some c.pointer) d ds prev h.1

-- `INT64_MAX` stands for too little volume.
abbrev pub budget_or_max : Option ℤ → ℤ
budget_or_max none = int64_max
budget_or_max (some budget) = budget

limit_price_ioc :
    (cmd : OrderCommand) (o : Order)
    → is_fok_budget cmd.order_type ≡ false
    → limit_price cmd o ≡ o.price
unfolding limit_price
limit_price_ioc cmd o e = elim (Bool-cases (is_place_order cmd.command)) [
  | inl place ↦ rw (place, e) refl
  | inr other ↦ rw other refl
]

module _ {T : Type 0} (prices : PriceMap T) where
  -- The two matchings agree, with this limit.
  abbrev Agreed : ℕ → Order → DirectBook T → OrderBook → OrderCommand → ℤ → Type 0
  Agreed fuel taker book naive cmd limit =
      let n =
        try_match_instantly taker.action (should_continue taker.action limit) taker.size
          taker.reserve_bid_price taker.filled naive cmd in
      (book' : DirectBook T) × (try_match_direct prices fuel taker book cmd
        ≡ some (n.0, book', n.2))
      × Mirrors prices book' n.1

  budget_loop-check_budget :
      (side : OrderAction) (s : Side T) (next : Option ℕ) (ls : List Level) (fuel : ℕ)
      (size budget : ℤ)
      → Represents prices next s ls
      → AreValid side (naive_buckets ls)
      → length ls ≤ fuel
      → budget_loop fuel (head_pointer ls) size budget s
        ≡ some (budget_or_max (check_budget size budget (naive_buckets ls)))
  unfolding budget_loop check_budget
  budget_loop-check_budget side s next [] fuel size budget rep v le = refl
  budget_loop-check_budget side s next (l ∷ ls) zero size budget rep v le =
      absurd (omega (arith, le))
  budget_loop-check_budget side s next (l ∷ ls) (suc fuel) size budget rep v le =
      let volume = calculated_volume (l.first.order ∷ orders_of l.others) in
      let last = last_object s.orders l.bucket next l.first l.others (head_pointer ls) rep.0 in
      let at : l.first.order.price ≡ l.price = v.0.0.placed.0.2 in
      let rest =
        budget_loop-check_budget side s (some (last_pointer l.first.pointer l.others)) ls fuel
          (size -ℤ volume) (budget +ℤ volume *ℤ l.price) rep.3 (v.0.1, v.1.1) (omega (arith, le)) in
      elim (Bool-cases (ltb_ℤ volume size)) [
        | inl short ↦
            rw
              (
                first_object s.orders l.bucket next l.first l.others ls rep.0,
                rep.1,
                short,
                last.2,
                ap (λ p. budget +ℤ volume *ℤ p) at,
              )
              rest
        | inr enough ↦
            rw
              (
                first_object s.orders l.bucket next l.first l.others ls rep.0,
                rep.1,
                enough,
                ap (λ p. budget +ℤ size *ℤ p) at,
              )
              refl
      ]

  length-naive_buckets : (ls : List Level) → length (naive_buckets ls) ≡ length ls
  length-naive_buckets [] = refl
  length-naive_buckets (l ∷ ls) = omega (arith, length-naive_buckets ls)

  -- For a direct and a naive book that hold the same orders, and fuel for the number of levels,
  -- checkBudgetToFill of the direct book returns the budget that the naive book computes, and
  -- INT64_MAX where the naive book finds too little volume.
  pub check_budget_to_fill-check_budget :
      (fuel : ℕ) (action : OrderAction) (size : ℤ) (book : DirectBook T) (naive : OrderBook)
      → Mirrors prices book naive
      → length (buckets_by_action (opposite action) naive) ≤ fuel
      → check_budget_to_fill fuel action size book
        ≡ some
            (budget_or_max (check_budget size (pos 0) (buckets_by_action (opposite action) naive)))
  unfolding check_budget_to_fill
  check_budget_to_fill-check_budget fuel action size book naive m le =
      let side = m.sides (opposite action) in
      rw (side.best, ← side.buckets)
        (budget_loop-check_budget (opposite action) (side_of (opposite action) book) none
          side.levels fuel size (pos 0) side.chain side.sound.valid
          (omega (arith, le, ap (λ bs. length bs) side.buckets, length-naive_buckets side.levels)))

  -- An IOC order of a size that is not negative, at a direct and a naive book that hold the same
  -- orders and with fuel for the orders of the other side, gives the same command with the same
  -- events in both, and books that hold the same orders.
  pub direct_ioc-new_order_match_ioc :
      (fuel : ℕ) (book : DirectBook T) (naive : OrderBook) (cmd : OrderCommand)
      → Mirrors prices book naive
      → cmd.order_type ≡ OrderType.ioc
      → pos 0 ≤ℤ cmd.size
      → orders_num (buckets_by_action (opposite cmd.action) naive) ≤ fuel
      → (book' : DirectBook T) × (direct_ioc prices fuel book cmd
          ≡ some (book', (new_order_match_ioc naive cmd).1))
        × Mirrors prices book' (new_order_match_ioc naive cmd).0
  unfolding direct_ioc new_order_match_ioc
  direct_ioc-new_order_match_ioc fuel book naive cmd m ioc bound le =
      let taker = order_of cmd (pos 0) in
      let run = try_match_direct-try_match_instantly prices fuel taker book naive cmd m bound le in
      let limit = limit_price_ioc cmd taker (ap is_fok_budget ioc) in
      let agreed = subst (Agreed fuel taker book naive cmd) limit run in
      (agreed.0, rw agreed.1 refl, agreed.2)
