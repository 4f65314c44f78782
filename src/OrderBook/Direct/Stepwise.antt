-- ===== src/OrderBook/Direct/Stepwise.antt =====
-- The loops over a matching range of OrderBookNaiveImpl.cpp and OrdersBucket.cpp, one order at a
-- time, as OrderBookDirectImpl.cpp goes through its chain.
use exchange_cpp.Base.{
  Bool, true, false, List, [], ◌∷◌, ◌++◌, ◌≡◌, refl, inl, inr, Bool-cases, if◌then◌else◌, ap, All,
}
use exchange_cpp.Base.Int.{
  ℤ, pos, ◌+ℤ◌, ◌-ℤ◌, ltb_ℤ, ◌==ℤ◌, min_ℤ, int_laws, min_laws, ==ℤ_ne, ltb_ℤ→lt, ltb_of_le_ℤ,
}
use exchange_cpp.Common.{Order, OrderAction}
use exchange_cpp.OrderBook.Bucket.{
  OrdersBucket, MatcherResult, match_orders, matched_bucket, calculated_volume, fill,
}
use exchange_cpp.OrderBook.Bucket.Volume.{IsLive}
use exchange_cpp.OrderBook.Levels.{match_range}
use exchange_cpp.OrderBook.Levels.Map.{IsBucketValid}
use exchange_cpp.OrderBook.Direct.OneOrder.{
  prepend, bucket_at, trade_of, match_orders_idle, -ℤ-zero, +ℤ-zero, match_orders_nil, volume_nil,
  match_orders_full, match_orders_part, volume_left, volume_fill, volume_full, volume_part,
}

module _ (continues : ℤ → Bool) (size r : ℤ) where
  -- What is done at the bucket of these orders, where `m` is the matching of them.
  match_range_at :
      (filled p : ℤ) (os : List Order) (bs : List OrdersBucket) (m : MatcherResult)
      → continues p ≡ true
      → match_orders r (size -ℤ filled) os ≡ m
      → match_range continues size r filled (bucket_at p os ∷ bs) ≡ (
          let rest = match_range continues size r (filled +ℤ m.volume) bs in
          record {
            filled = rest.filled;
            events = m.events ++ rest.events;
            removed_ids = m.orders_to_remove ++ rest.removed_ids;
            buckets =
                if (calculated_volume os -ℤ m.volume) ==ℤ pos 0
                then rest.buckets
                else matched_bucket m (bucket_at p os) ∷ rest.buckets;
          })
  unfolding match_range matched_bucket
  match_range_at filled p os bs m go e = rw (go, e) refl

  -- With nothing left to fill, valid buckets stay as they are.
  pub match_range_idle :
      (side : OrderAction) (filled : ℤ) (bs : List OrdersBucket)
      → ltb_ℤ (pos 0) (size -ℤ filled) ≡ false
      → All (IsBucketValid side) bs
      → match_range continues size r filled bs
        ≡ record { filled = filled; events = []; removed_ids = []; buckets = bs }
  unfolding match_range matched_bucket
  match_range_idle side filled [] h v = refl
  match_range_idle side filled (b ∷ bs) h v =
      let ih = match_range_idle side filled bs h v.1 in
      elim (Bool-cases (continues b.price)) [
        | inl go ↦
            rw
              (
                go,
                match_orders_idle r (size -ℤ filled) b.orders h,
                +ℤ-zero filled,
                volume_left b.total_volume (pos 0) v.0.nonempty,
                -ℤ-zero b.total_volume,
                ih,
              )
              refl
        | inr stop ↦ rw stop refl
      ]

  -- A maker that is not used up is the last one.
  pub match_range_part :
      (side : OrderAction) (filled p : ℤ) (o : Order) (os : List Order) (bs : List OrdersBucket)
      → ltb_ℤ (pos 0) (size -ℤ filled) ≡ true
      → continues p ≡ true
      → (o.size ==ℤ (o.filled +ℤ min_ℤ (size -ℤ filled) (o.size -ℤ o.filled))) ≡ false
      → All IsLive (o ∷ os)
      → All (IsBucketValid side) bs
      → match_range continues size r filled (bucket_at p (o ∷ os) ∷ bs) ≡ record {
        filled = filled +ℤ min_ℤ (size -ℤ filled) (o.size -ℤ o.filled);
        events = trade_of r (size -ℤ filled) o false ∷ [];
        removed_ids = [];
        buckets = bucket_at p (fill o (min_ℤ (size -ℤ filled) (o.size -ℤ o.filled)) ∷ os) ∷ bs;
      }
  unfolding matched_bucket
  match_range_part side filled p o os bs more go part live valid =
      let c = size -ℤ filled in
      let v = min_ℤ c (o.size -ℤ o.filled) in
      let used : ltb_ℤ (pos 0) (size -ℤ (filled +ℤ v)) ≡ false =
        ltb_of_le_ℤ (pos 0) (size -ℤ (filled +ℤ v)) (
          omega (
            min_laws,
            ltb_ℤ→lt (pos 0) c more,
            ==ℤ_ne o.size (o.filled +ℤ min_ℤ c (o.size -ℤ o.filled)) part,
          )) in
      rw
        (
          match_range_at filled p (o ∷ os) bs _ go (match_orders_part r c o os more part),
          match_range_idle side (filled +ℤ v) bs used valid,
          volume_left (calculated_volume (o ∷ os)) v (volume_part c o os live part),
          volume_fill v o os,
        )
        refl

  -- A maker that is used up, with others behind it in its bucket.
  pub match_range_next :
      (filled p : ℤ) (o d : Order) (os : List Order) (bs : List OrdersBucket)
      → ltb_ℤ (pos 0) (size -ℤ filled) ≡ true
      → continues p ≡ true
      → (o.size ==ℤ (o.filled +ℤ min_ℤ (size -ℤ filled) (o.size -ℤ o.filled))) ≡ true
      → match_range continues size r filled (bucket_at p (o ∷ d ∷ os) ∷ bs)
        ≡ prepend (trade_of r (size -ℤ filled) o true) o.order_id (
            match_range continues size r
              (filled +ℤ min_ℤ (size -ℤ filled) (o.size -ℤ o.filled))
              (bucket_at p (d ∷ os) ∷ bs))
  unfolding matched_bucket
  match_range_next filled p o d os bs more go full =
      let c = size -ℤ filled in
      let v = min_ℤ c (o.size -ℤ o.filled) in
      let m = match_orders r (c -ℤ v) (d ∷ os) in
      let left : size -ℤ (filled +ℤ v) ≡ c -ℤ v = omega int_laws in
      let sum : filled +ℤ (v +ℤ m.volume) ≡ (filled +ℤ v) +ℤ m.volume = omega int_laws in
      rw
        (
          match_range_at filled p (o ∷ d ∷ os) bs _ go (match_orders_full r c o (d ∷ os) more full),
          match_range_at (filled +ℤ v) p (d ∷ os) bs m go
              (ap (λ x. match_orders r x (d ∷ os)) left),
          sum,
          volume_full m.volume c o (d ∷ os) full,
        )
        refl

  -- A maker that is used up and was alone in its bucket.
  pub match_range_last :
      (filled p : ℤ) (o : Order) (bs : List OrdersBucket)
      → ltb_ℤ (pos 0) (size -ℤ filled) ≡ true
      → continues p ≡ true
      → (o.size ==ℤ (o.filled +ℤ min_ℤ (size -ℤ filled) (o.size -ℤ o.filled))) ≡ true
      → match_range continues size r filled (bucket_at p (o ∷ []) ∷ bs)
        ≡ prepend (trade_of r (size -ℤ filled) o true) o.order_id (
            match_range continues size r (filled +ℤ min_ℤ (size -ℤ filled) (o.size -ℤ o.filled)) bs)
  unfolding matched_bucket
  match_range_last filled p o bs more go full =
      let c = size -ℤ filled in
      let v = min_ℤ c (o.size -ℤ o.filled) in
      rw
        (
          match_range_at filled p (o ∷ []) bs _ go (match_orders_full r c o [] more full),
          match_orders_nil r (c -ℤ v),
          volume_full (pos 0) c o [] full,
          +ℤ-zero v,
          volume_nil,
        )
        refl
