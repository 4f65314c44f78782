-- ===== src/OrderBook/Levels/Exhausted.antt =====
-- The buckets that TryMatchInstantly leaves where the order is not filled (OrderBookNaiveImpl.cpp).
use exchange_cpp.Base.{◌∷◌, [], List, true, false, ◌≡◌, inl, inr, arith, Bool-cases, All}
use exchange_cpp.Base.Int.{ℤ, pos, ◌+ℤ◌, ◌-ℤ◌, ◌≤ℤ◌, ◌<ℤ◌, ==ℤ_of_eq, min_laws, int_laws, parts}
use exchange_cpp.Common.{OrderAction, ask, bid, opposite}
use exchange_cpp.OrderBook.Bucket.{OrdersBucket, match_orders, matched_bucket}
use exchange_cpp.OrderBook.Bucket.Volume.{match_orders-volume, calculated_volume_nonneg}
use exchange_cpp.OrderBook.Levels.{before, match_range, should_continue}
use exchange_cpp.OrderBook.Levels.Map.{AreValid, IsPlaced-IsLive, AllAfter}
use exchange_cpp.OrderBook.Levels.Matching.{match_range_bounds}

-- No bucket's price suits the limit of an order with this action.
abbrev pub IsOutside : OrderAction → ℤ → List OrdersBucket → Type 0
IsOutside action limit bs = All (λ b. should_continue action limit b.price ≡ false) bs

worse_price :
    (action : OrderAction) (limit p q : ℤ)
    → should_continue action limit p ≡ false
    → before (opposite action) p q ≡ true
    → should_continue action limit q ≡ false
worse_price ask limit p q h b = ground arith
worse_price bid limit p q h b = ground arith

pub AllAfter-IsOutside :
    (action : OrderAction) (limit p : ℤ) (bs : List OrdersBucket)
    → should_continue action limit p ≡ false
    → AllAfter (opposite action) p bs
    → IsOutside action limit bs
AllAfter-IsOutside action limit p [] h a = tt
AllAfter-IsOutside action limit p (b ∷ bs) h a =
    (worse_price action limit p b.price h a.0, AllAfter-IsOutside action limit p bs h a.1)

-- A matching with a limit over valid buckets that leaves some of the size leaves no bucket whose
-- price the limit accepts.
pub match_range-IsOutside :
    (action : OrderAction) (limit size r filled : ℤ) (bs : List OrdersBucket)
    → AreValid (opposite action) bs
    → filled ≤ℤ size
    → (match_range (should_continue action limit) size r filled bs).filled <ℤ size
    → IsOutside action limit (match_range (should_continue action limit) size r filled bs).buckets
unfolding match_range matched_bucket
match_range-IsOutside action limit size r filled [] v le lt = tt
match_range-IsOutside action limit size r filled (b ∷ bs) v le lt =
    let m = match_orders r (size -ℤ filled) b.orders in
    let next = filled +ℤ m.volume in
    let live = IsPlaced-IsLive (opposite action) b.price b.orders v.0.0.placed in
    let vol = parts (match_orders-volume r (size -ℤ filled) b.orders live (omega int_laws)) in
    let nonneg = calculated_volume_nonneg b.orders live in
    let total = parts v.0.0.total in
    let le' : next ≤ℤ size = omega (min_laws, vol) in
    let continues = should_continue action limit in
    let tail = match_range_bounds continues size r (opposite action) next bs (v.0.1, v.1.1) le' in
    elim (Bool-cases (continues b.price)) [
      | inl more ↦
          let short : (match_range continues size r next bs).filled <ℤ size = ground arith in
          let used : b.total_volume -ℤ m.volume ≡ pos 0 =
            omega (min_laws, vol, total, nonneg, tail.0) in
          rw (more, ==ℤ_of_eq (b.total_volume -ℤ m.volume) (pos 0) used)
            (match_range-IsOutside action limit size r next bs (v.0.1, v.1.1) le' short)
      | inr done ↦ rw done ((done, AllAfter-IsOutside action limit b.price bs done v.1.0))
    ]
