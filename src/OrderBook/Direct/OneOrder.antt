-- ===== src/OrderBook/Direct/OneOrder.antt =====
-- `Match` of OrdersBucket.cpp, one order at a time.
use exchange_cpp.Base.{ℕ, Bool, true, false, List, [], ◌∷◌, ◌≡◌, refl, arith, All}
use exchange_cpp.Base.Int.{
  ℤ, pos, ◌+ℤ◌, ◌-ℤ◌, ltb_ℤ, ◌==ℤ◌, ◌<ℤ◌, min_ℤ, int_laws, min_laws, parts, -ℤ_parts, ==ℤ_eq,
  ==ℤ_ne, ltb_ℤ→lt, ltb_of_le_ℤ,
}
use exchange_cpp.Common.{Order, MatcherTradeEvent}
use exchange_cpp.OrderBook.Events.{send_trade_event}
use exchange_cpp.OrderBook.Bucket.{
  OrdersBucket, match_orders, calculated_volume, fill, bidder_hold_price,
}
use exchange_cpp.OrderBook.Bucket.Volume.{IsLive, calculated_volume_nonneg}
use exchange_cpp.OrderBook.Levels.{RangeResult}

-- A result with a trade and a removed order before it.
abbrev pub prepend : MatcherTradeEvent → ℕ → RangeResult → RangeResult
prepend e k r = record r { events = e ∷ r.events; removed_ids = k ∷ r.removed_ids }

-- The bucket of these orders, with the volume that they have.
abbrev pub bucket_at : ℤ → List Order → OrdersBucket
bucket_at p os = record { price = p; total_volume = calculated_volume os; orders = os }

abbrev pub trade_of : ℤ → ℤ → Order → Bool → MatcherTradeEvent
trade_of r c o full =
    let v = min_ℤ c (o.size -ℤ o.filled) in
    send_trade_event (fill o v) full ((c -ℤ v) ==ℤ pos 0) v (bidder_hold_price r (fill o v))

pub match_orders_idle :
    (r c : ℤ) (os : List Order)
    → ltb_ℤ (pos 0) c ≡ false
    → match_orders r c os
      ≡ record { volume = pos 0; events = []; orders_to_remove = []; orders = os }
unfolding match_orders
match_orders_idle r c [] h = refl
match_orders_idle r c (o ∷ os) h = rw h refl

-- A number, less and more zero.
pub -ℤ-zero : (a : ℤ) → a -ℤ pos 0 ≡ a
-ℤ-zero a = omega int_laws

pub +ℤ-zero : (a : ℤ) → a +ℤ pos 0 ≡ a
+ℤ-zero a = omega int_laws

pub match_orders_nil :
    (r c : ℤ)
    → match_orders r c []
      ≡ record { volume = pos 0; events = []; orders_to_remove = []; orders = [] }
unfolding match_orders
match_orders_nil r c = refl

pub volume_nil : (calculated_volume [] -ℤ pos 0) ==ℤ pos 0 ≡ true
unfolding calculated_volume ◌-ℤ◌
volume_nil = refl

pub match_orders_full :
    (r c : ℤ) (o : Order) (os : List Order)
    → ltb_ℤ (pos 0) c ≡ true
    → (o.size ==ℤ (o.filled +ℤ min_ℤ c (o.size -ℤ o.filled))) ≡ true
    → match_orders r c (o ∷ os) ≡ (
        let m = match_orders r (c -ℤ min_ℤ c (o.size -ℤ o.filled)) os in
        record {
          volume = min_ℤ c (o.size -ℤ o.filled) +ℤ m.volume;
          events = trade_of r c o true ∷ m.events;
          orders_to_remove = o.order_id ∷ m.orders_to_remove;
          orders = m.orders;
        })
unfolding match_orders
match_orders_full r c o os more full = rw (more, full) refl

pub match_orders_part :
    (r c : ℤ) (o : Order) (os : List Order)
    → ltb_ℤ (pos 0) c ≡ true
    → (o.size ==ℤ (o.filled +ℤ min_ℤ c (o.size -ℤ o.filled))) ≡ false
    → match_orders r c (o ∷ os) ≡ record {
      volume = min_ℤ c (o.size -ℤ o.filled);
      events = trade_of r c o false ∷ [];
      orders_to_remove = [];
      orders = fill o (min_ℤ c (o.size -ℤ o.filled)) ∷ os;
    }
unfolding match_orders
match_orders_part r c o os more part =
    let v = min_ℤ c (o.size -ℤ o.filled) in
    let used : ltb_ℤ (pos 0) (c -ℤ v) ≡ false = ltb_of_le_ℤ (pos 0) (c -ℤ v) (
      omega (
        min_laws,
        ltb_ℤ→lt (pos 0) c more,
        ==ℤ_ne o.size (o.filled +ℤ min_ℤ c (o.size -ℤ o.filled)) part,
      )) in
    rw (more, part, match_orders_idle r (c -ℤ v) os used, +ℤ-zero v) refl

-- The volume that is left in a bucket of live orders is not zero.
pub volume_left : (a b : ℤ) → b <ℤ a → ((a -ℤ b) ==ℤ pos 0) ≡ false
volume_left a b h = ground (arith, -ℤ_parts a b)

pub volume_fill :
    (v : ℤ) (o : Order) (os : List Order)
    → calculated_volume (fill o v ∷ os) ≡ calculated_volume (o ∷ os) -ℤ v
unfolding calculated_volume
volume_fill v o os = omega int_laws

pub volume_full :
    (m c : ℤ) (o : Order) (os : List Order)
    → (o.size ==ℤ (o.filled +ℤ min_ℤ c (o.size -ℤ o.filled))) ≡ true
    → calculated_volume (o ∷ os) -ℤ (min_ℤ c (o.size -ℤ o.filled) +ℤ m) ≡ calculated_volume os -ℤ m
unfolding calculated_volume
volume_full m c o os full =
    omega (int_laws, parts (==ℤ_eq o.size (o.filled +ℤ min_ℤ c (o.size -ℤ o.filled)) full))

-- A maker that is not used up leaves some of its volume.
pub volume_part :
    (c : ℤ) (o : Order) (os : List Order)
    → All IsLive (o ∷ os)
    → (o.size ==ℤ (o.filled +ℤ min_ℤ c (o.size -ℤ o.filled))) ≡ false
    → min_ℤ c (o.size -ℤ o.filled) <ℤ calculated_volume (o ∷ os)
unfolding calculated_volume
volume_part c o os live part = omega (
  min_laws,
  calculated_volume_nonneg os live.1,
  ==ℤ_ne o.size (o.filled +ℤ min_ℤ c (o.size -ℤ o.filled)) part,
)
