-- ===== src/OrderBook/Direct/Loop.antt =====
-- OrderBookDirectImpl.cpp: the loop of `tryMatchInstantly` with its condition.
use exchange_cpp.Base.{
  ℕ, zero, suc, false, Option, List, [], ◌∷◌, ◌≡◌, ◌⊎◌, arith, inl, inr, Bool-cases, ap,
}
use exchange_cpp.Base.Dict.{Dict}
use exchange_cpp.Base.Int.{ℤ, pos, ◌+ℤ◌, ◌-ℤ◌, ◌==ℤ◌, ltb_ℤ, min_ℤ}
use exchange_cpp.Common.{MatcherTradeEvent, OrderAction, opposite}
use exchange_cpp.OrderBook.Levels.{match_range, should_continue}
use exchange_cpp.OrderBook.PriceMap.{PriceMap}
use exchange_cpp.OrderBook.Direct.{Side}
use exchange_cpp.OrderBook.Direct.Chain.{Level, naive_bucket, naive_buckets, Represents}
use exchange_cpp.OrderBook.Direct.Represents.{IsSound, first_object}
use exchange_cpp.OrderBook.Direct.Stepwise.{match_range_idle}
use exchange_cpp.OrderBook.Direct.Matching.{repeats, goes_on}
use exchange_cpp.OrderBook.Direct.Swept.{Swept, Swept-idle, resume, sweep_at, match_range_stop}
use exchange_cpp.OrderBook.Direct.Refines.{resume-sweep, Resumes, part-Swept, full-Swept}

module _ {T : Type 0} (prices : PriceMap T) (action : OrderAction) (limit size r : ℤ) where
  -- The loop, where it does not go on.
  idle-Swept :
      (fuel : ℕ) (s : Side T) (index : Dict (OrderAction × ℕ)) (events : List MatcherTradeEvent)
      (filled : ℤ) (tail : ℕ) (next : Option ℕ) (l : Level) (ls : List Level)
      → Represents prices next s (l ∷ ls)
      → IsSound (opposite action) (l ∷ ls)
      → (ltb_ℤ (pos 0) (size -ℤ filled) ≡ false) ⊎ (should_continue action limit l.price ≡ false)
      → Swept prices
          (resume prices fuel action limit r
            (sweep_at prices s index events (size -ℤ filled) tail (l ∷ ls)))
          size
          (match_range (should_continue action limit) size r filled (naive_buckets (l ∷ ls)))
          events
          index
  unfolding repeats goes_on
  idle-Swept fuel s index events filled tail next l ls rep d (inl used) =
      let continues = should_continue action limit in
      rw
        (
          used,
          match_range_idle continues size r (opposite action) filled (naive_buckets (l ∷ ls)) used
              d.valid.0,
        )
        (Swept-idle prices action s index events size filled tail next (l ∷ ls) rep d)
  idle-Swept fuel s index events filled tail next l ls rep d (inr far) =
      let continues = should_continue action limit in
      let at : l.first.order.price ≡ l.price = d.valid.0.0.placed.0.2 in
      rw (match_range_stop continues size r filled (naive_bucket l) (naive_buckets ls) far)
        (elim (Bool-cases (ltb_ℤ (pos 0) (size -ℤ filled))) [
          | inl more ↦
              rw
                (
                  more,
                  first_object s.orders l.bucket next l.first l.others ls rep.0,
                  ap continues at,
                  far,
                )
                (Swept-idle prices action s index events size filled tail next (l ∷ ls) rep d)
          | inr used ↦
              rw used (Swept-idle prices action s index events size filled tail next (l ∷ ls) rep d)
        ])

  -- From its condition the loop of tryMatchInstantly, on any sound levels that the side represents
  -- and with fuel for the number of their orders, ends without a dangling pointer, at the levels,
  -- events, remaining size and erased ids that the nested loops of the naive book give on the same
  -- levels.
  pub resume-match_range : (fuel : ℕ) → Resumes prices action limit size r fuel
  resume-match_range fuel s index events filled tail next [] rep d le =
      unfold repeats goes_on match_range in
      Swept-idle prices action s index events size filled tail next [] rep d
  resume-match_range zero s index events filled tail next (l ∷ ls) rep d le =
      absurd (omega (arith, le))
  resume-match_range (suc fuel) s index events filled tail next (l ∷ ls) rep d le =
      elim (Bool-cases (ltb_ℤ (pos 0) (size -ℤ filled))) [
        | inr used ↦ idle-Swept (suc fuel) s index events filled tail next l ls rep d (inl used)
        | inl more ↦ elim (Bool-cases (should_continue action limit l.price)) [
          | inr far ↦ idle-Swept (suc fuel) s index events filled tail next l ls rep d (inr far)
          | inl go ↦
              rw
                (resume-sweep prices action limit size r (suc fuel) s index events (size -ℤ filled)
                  tail next l.bucket l.price l.first l.others ls rep d more go)
                (elim (Bool-cases (
                  l.first.order.size ==ℤ (
                    l.first.order.filled
                    +ℤ min_ℤ (size -ℤ filled) (l.first.order.size -ℤ l.first.order.filled)))) [
                      | inl full ↦
                          full-Swept prices action limit size r fuel (resume-match_range fuel) s
                            index events filled tail next l.bucket l.price l.first l.others ls rep d
                            more go le full
                      | inr part ↦
                          part-Swept prices action limit size r fuel s index events filled tail next
                            l.bucket l.price l.first l.others ls rep d more go part
                    ])
        ]
      ]
