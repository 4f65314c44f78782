-- ===== src/OrderBook/Levels/Limits.antt =====
-- The prices at which a matching range trades, and what is left where an order is not filled.
use exchange_cpp.Base.{
  ◌∷◌, [], ◌++◌, List, Bool, true, false, ◌≡◌, refl, inl, inr, arith, Bool-cases, All, All-append,
}
use exchange_cpp.Base.Int.{ℤ, pos, ◌+ℤ◌, ◌-ℤ◌, ltb_ℤ, min_ℤ}
use exchange_cpp.Common.{Order, OrderAction, ask, bid, MatcherTradeEvent, trade}
use exchange_cpp.OrderBook.Bucket.{OrdersBucket, match_orders}
use exchange_cpp.OrderBook.Events.{send_trade_event}
use exchange_cpp.OrderBook.Levels.{before, match_range}
use exchange_cpp.OrderBook.Levels.Map.{IsPlaced, AreValid, AllAfter}

-- A trade at this price.
abbrev pub IsTradeAt : ℤ → MatcherTradeEvent → Type 0
IsTradeAt p e = (e.event_type ≡ trade) × (e.price ≡ p)

pub match_orders-IsTradeAt :
    (side : OrderAction) (p r c : ℤ) (os : List Order)
    → All (IsPlaced side p) os
    → All (IsTradeAt p) (match_orders r c os).events
unfolding match_orders send_trade_event
match_orders-IsTradeAt side p r c [] h = tt
match_orders-IsTradeAt side p r c (o ∷ os) h =
    let v = min_ℤ c (o.size -ℤ o.filled) in
    elim (Bool-cases (ltb_ℤ (pos 0) c)) [
      | inl more ↦ rw more ((refl, h.0.2), match_orders-IsTradeAt side p r (c -ℤ v) os h.1)
      | inr done ↦ rw done tt
    ]

-- A trade at a price that the taker accepts.
abbrev pub IsTradeWithin : (ℤ → Bool) → MatcherTradeEvent → Type 0
IsTradeWithin continues e = (e.event_type ≡ trade) × (continues e.price ≡ true)

IsTradeAt-IsTradeWithin :
    (continues : ℤ → Bool) (p : ℤ) (es : List MatcherTradeEvent)
    → continues p ≡ true
    → All (IsTradeAt p) es
    → All (IsTradeWithin continues) es
IsTradeAt-IsTradeWithin continues p [] h es = tt
IsTradeAt-IsTradeWithin continues p (e ∷ es) h t =
    ((t.0.0, rw t.0.1 h), IsTradeAt-IsTradeWithin continues p es h t.1)

-- Every event of a range is a trade at a price that the taker accepts.
pub match_range-IsTradeWithin :
    (continues : ℤ → Bool) (size r filled : ℤ) (side : OrderAction) (bs : List OrdersBucket)
    → AreValid side bs
    → All (IsTradeWithin continues) (match_range continues size r filled bs).events
unfolding match_range
match_range-IsTradeWithin continues size r filled side [] v = tt
match_range-IsTradeWithin continues size r filled side (b ∷ bs) v =
    let m = match_orders r (size -ℤ filled) b.orders in
    let rest = match_range continues size r (filled +ℤ m.volume) bs in
    elim (Bool-cases (continues b.price)) [
      | inl more ↦ rw more (
          All-append (IsTradeWithin continues) m.events rest.events
            (IsTradeAt-IsTradeWithin continues b.price m.events more
              (match_orders-IsTradeAt side b.price r (size -ℤ filled) b.orders v.0.0.placed))
            (match_range-IsTradeWithin continues size r (filled +ℤ m.volume) side bs
              (v.0.1, v.1.1)))
      | inr done ↦ rw done tt
    ]

-- The trades come best price first: no later one stands before an earlier one in the side's order.
abbrev pub AllNotBefore : OrderAction → ℤ → List MatcherTradeEvent → Type 0
AllNotBefore side p es = All (λ e. before side e.price p ≡ false) es

abbrev pub IsPriceOrdered : OrderAction → List MatcherTradeEvent → Type 0
IsPriceOrdered side [] = Unit
IsPriceOrdered side (e ∷ es) = AllNotBefore side e.price es × IsPriceOrdered side es

before_irrefl : (side : OrderAction) (p q : ℤ) → p ≡ q → before side p q ≡ false
before_irrefl ask p q e = ground arith
before_irrefl bid p q e = ground arith

before_asym : (side : OrderAction) (p q : ℤ) → before side p q ≡ true → before side q p ≡ false
before_asym ask p q e = ground arith
before_asym bid p q e = ground arith

IsTradeAt-AllNotBefore :
    (side : OrderAction) (p : ℤ) (es : List MatcherTradeEvent)
    → All (IsTradeAt p) es
    → AllNotBefore side p es
IsTradeAt-AllNotBefore side p [] h = tt
IsTradeAt-AllNotBefore side p (e ∷ es) h =
    (before_irrefl side e.price p h.0.1, IsTradeAt-AllNotBefore side p es h.1)

match_range-AllNotBefore :
    (continues : ℤ → Bool) (size r filled : ℤ) (side : OrderAction) (p : ℤ) (bs : List OrdersBucket)
    → AreValid side bs
    → AllAfter side p bs
    → AllNotBefore side p (match_range continues size r filled bs).events
unfolding match_range
match_range-AllNotBefore continues size r filled side p [] v a = tt
match_range-AllNotBefore continues size r filled side p (b ∷ bs) v a =
    let m = match_orders r (size -ℤ filled) b.orders in
    let rest = match_range continues size r (filled +ℤ m.volume) bs in
    elim (Bool-cases (continues b.price)) [
      | inl more ↦ rw more (
          All-append (λ e. before side e.price p ≡ false) m.events rest.events
            (later_trades side p b.price m.events (before_asym side p b.price a.0)
              (match_orders-IsTradeAt side b.price r (size -ℤ filled) b.orders v.0.0.placed))
            (match_range-AllNotBefore continues size r (filled +ℤ m.volume) side p bs (v.0.1, v.1.1)
              a.1))
      | inr done ↦ rw done tt
    ]
  where
    later_trades :
        (side : OrderAction) (p q : ℤ) (es : List MatcherTradeEvent)
        → before side q p ≡ false
        → All (IsTradeAt q) es
        → AllNotBefore side p es
    later_trades side p q = elim [ [] ↦ λ h t. tt | e ∷ (es → ih) ↦ λ h t. (rw t.0.1 h, ih h t.1) ]

IsPriceOrdered-append :
    (side : OrderAction) (p : ℤ) (xs ys : List MatcherTradeEvent)
    → All (IsTradeAt p) xs
    → AllNotBefore side p ys
    → IsPriceOrdered side ys
    → IsPriceOrdered side (xs ++ ys)
IsPriceOrdered-append side p [] ys t a o = o
IsPriceOrdered-append side p (e ∷ xs) ys t a o = (
  rw t.0.1 (
      All-append (λ x. before side x.price p ≡ false) xs ys (IsTradeAt-AllNotBefore side p xs t.1)
        a),
  IsPriceOrdered-append side p xs ys t.1 a o,
)

-- A range trades the best price first.
pub match_range-IsPriceOrdered :
    (continues : ℤ → Bool) (size r filled : ℤ) (side : OrderAction) (bs : List OrdersBucket)
    → AreValid side bs
    → IsPriceOrdered side (match_range continues size r filled bs).events
unfolding match_range
match_range-IsPriceOrdered continues size r filled side [] v = tt
match_range-IsPriceOrdered continues size r filled side (b ∷ bs) v =
    let m = match_orders r (size -ℤ filled) b.orders in
    let next = filled +ℤ m.volume in
    elim (Bool-cases (continues b.price)) [
      | inl more ↦ rw more (
          IsPriceOrdered-append side b.price m.events _
            (match_orders-IsTradeAt side b.price r (size -ℤ filled) b.orders v.0.0.placed)
            (match_range-AllNotBefore continues size r next side b.price bs (v.0.1, v.1.1) v.1.0)
            (match_range-IsPriceOrdered continues size r next side bs (v.0.1, v.1.1)))
      | inr done ↦ rw done tt
    ]
