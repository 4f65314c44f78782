-- ===== src/OrderBook/Levels/Matching.antt =====
-- The loop over a matching range: what it fills, and the buckets that it leaves.
use exchange_cpp.Base.{
  ◌∷◌, [], ◌++◌, List, Bool, true, false, ◌≡◌, refl, inl, inr, arith, Bool-cases, All,
}
use exchange_cpp.Base.Int.{
  ℤ, pos, ◌+ℤ◌, ◌-ℤ◌, ltb_ℤ, ◌==ℤ◌, ◌≤ℤ◌, ==ℤ_eq, int_laws, min_laws, parts, min_ℤ, ==ℤ_ne,
  ltb_ℤ→lt,
}
use exchange_cpp.Common.{Order, OrderAction, MatcherTradeEvent}
use exchange_cpp.OrderBook.Bucket.{OrdersBucket, match_orders, matched_bucket, calculated_volume}
use exchange_cpp.OrderBook.Bucket.Volume.{
  IsLive, total_size, calculated_volume-match_orders, fill-IsLive, calculated_volume_nonneg,
  match_orders-volume, total_size-match_orders,
}
use exchange_cpp.OrderBook.Bucket.Fifo.{match_orders-HasDistinctIds}
use exchange_cpp.OrderBook.Levels.{match_range, total_orders_volume}
use exchange_cpp.OrderBook.Levels.Map.{IsPlaced, IsBucketValid, AreValid, IsPlaced-IsLive, AllAfter}

match_orders-IsPlaced :
    (side : OrderAction) (p r c : ℤ) (os : List Order)
    → All (IsPlaced side p) os
    → All (IsPlaced side p) (match_orders r c os).orders
unfolding match_orders
match_orders-IsPlaced side p r c [] h = tt
match_orders-IsPlaced side p r c (o ∷ os) h =
    let v = min_ℤ c (o.size -ℤ o.filled) in
    let ih = match_orders-IsPlaced side p r (c -ℤ v) os h.1 in
    elim (Bool-cases (ltb_ℤ (pos 0) c)) [
      | inl more ↦ rw more (elim (Bool-cases (o.size ==ℤ (o.filled +ℤ v))) [
        | inl full ↦ rw full ih
        | inr part ↦
            let live = fill-IsLive c o (h.0.0, h.0.1) (ltb_ℤ→lt (pos 0) c more) part in
            rw part ((live.0, live.1, h.0.2, h.0.3), ih)
      ])
      | inr done ↦ rw done h
    ]

-- Live orders of no volume are no orders.
pub no_volume : (os : List Order) → All IsLive os → calculated_volume os ≡ pos 0 → os ≡ []
unfolding calculated_volume
no_volume [] h e = refl
no_volume (o ∷ os) h e = absurd (omega (int_laws, parts e, calculated_volume_nonneg os h.1))

-- A bucket after a match, if some volume is left in it.
matched_bucket-IsBucketValid :
    (side : OrderAction) (r c : ℤ) (b : OrdersBucket)
    → IsBucketValid side b
    → ((matched_bucket (match_orders r c b.orders) b).total_volume ==ℤ pos 0) ≡ false
    → IsBucketValid side (matched_bucket (match_orders r c b.orders) b)
unfolding matched_bucket
matched_bucket-IsBucketValid side r c b v ne =
    let placed = match_orders-IsPlaced side b.price r c b.orders v.placed in
    let m = match_orders r c b.orders in
    record {
      total = omega (int_laws, parts v.total, parts (calculated_volume-match_orders r c b.orders));
      placed = placed;
      distinct = match_orders-HasDistinctIds r c b.orders v.distinct;
      nonempty = omega (
        int_laws,
        parts v.total,
        parts (calculated_volume-match_orders r c b.orders),
        calculated_volume_nonneg m.orders (IsPlaced-IsLive side b.price m.orders placed),
        ==ℤ_ne (b.total_volume -ℤ m.volume) (pos 0) ne,
      );
    }

-- A bucket whose volume is used up has no order.
pub matched_bucket_empty :
    (side : OrderAction) (r c : ℤ) (b : OrdersBucket)
    → IsBucketValid side b
    → ((matched_bucket (match_orders r c b.orders) b).total_volume ==ℤ pos 0) ≡ true
    → (match_orders r c b.orders).orders ≡ []
unfolding matched_bucket
matched_bucket_empty side r c b v e =
    let m = match_orders r c b.orders in
    no_volume m.orders
      (IsPlaced-IsLive side b.price m.orders
        (match_orders-IsPlaced side b.price r c b.orders v.placed))
      (omega (
        int_laws,
        parts v.total,
        parts (calculated_volume-match_orders r c b.orders),
        parts (==ℤ_eq (b.total_volume -ℤ m.volume) (pos 0) e),
      ))

module _ (continues : ℤ → Bool) (size r : ℤ) where
  pub match_range-AllAfter :
      (side : OrderAction) (p filled : ℤ) (bs : List OrdersBucket)
      → AllAfter side p bs
      → AllAfter side p (match_range continues size r filled bs).buckets
  unfolding match_range matched_bucket
  match_range-AllAfter side p filled [] h = tt
  match_range-AllAfter side p filled (b ∷ bs) h = ground (
    arith,
    match_range-AllAfter side p (filled +ℤ (match_orders r (size -ℤ filled) b.orders).volume) bs
        h.1,
  )

  pub match_range-AreValid :
      (side : OrderAction) (filled : ℤ) (bs : List OrdersBucket)
      → AreValid side bs
      → AreValid side (match_range continues size r filled bs).buckets
  unfolding match_range
  match_range-AreValid side filled [] h = (tt, tt)
  match_range-AreValid side filled (b ∷ bs) h =
      let c = size -ℤ filled in
      let next = filled +ℤ (match_orders r c b.orders).volume in
      let ih = match_range-AreValid side next bs (h.0.1, h.1.1) in
      elim (Bool-cases (continues b.price)) [
        | inl more ↦
            rw more
              (elim (Bool-cases
                ((matched_bucket (match_orders r c b.orders) b).total_volume ==ℤ pos 0)) [
                  | inl used ↦ rw used ih
                  | inr left ↦ rw left (
                    (matched_bucket-IsBucketValid side r c b h.0.0 left, ih.0),
                    (
                      unfold matched_bucket in match_range-AllAfter side b.price next bs h.1.0,
                      ih.1,
                    ),
                  )
                ])
        | inr done ↦ rw done h
      ]

  -- The volume of the side falls by what is filled.
  pub total_orders_volume-match_range :
      (filled : ℤ) (bs : List OrdersBucket)
      → total_orders_volume bs
        ≡ ((match_range continues size r filled bs).filled -ℤ filled)
          +ℤ total_orders_volume (match_range continues size r filled bs).buckets
  unfolding match_range total_orders_volume matched_bucket
  total_orders_volume-match_range filled [] = omega int_laws
  total_orders_volume-match_range filled (b ∷ bs) =
      let m = match_orders r (size -ℤ filled) b.orders in
      let ih = parts (total_orders_volume-match_range (filled +ℤ m.volume) bs) in
      elim (Bool-cases (continues b.price)) [
        | inl more ↦ rw more (elim (Bool-cases ((b.total_volume -ℤ m.volume) ==ℤ pos 0)) [
          | inl used ↦
              rw used
                (omega (int_laws, ih, parts (==ℤ_eq (b.total_volume -ℤ m.volume) (pos 0) used)))
          | inr left ↦ rw left (omega (int_laws, ih))
        ])
        | inr done ↦ rw done (omega int_laws)
      ]

  -- The fill goes up, and never over the size.
  pub match_range_bounds :
      (side : OrderAction) (filled : ℤ) (bs : List OrdersBucket)
      → AreValid side bs
      → filled ≤ℤ size
      → (filled ≤ℤ (match_range continues size r filled bs).filled)
        × ((match_range continues size r filled bs).filled ≤ℤ size)
  unfolding match_range
  match_range_bounds side filled [] h le = (omega arith, le)
  match_range_bounds side filled (b ∷ bs) h le =
      let c = size -ℤ filled in
      let m = match_orders r c b.orders in
      let live = IsPlaced-IsLive side b.price b.orders h.0.0.placed in
      let vol = parts (match_orders-volume r c b.orders live (omega int_laws)) in
      let nonneg = calculated_volume_nonneg b.orders live in
      let ih =
        match_range_bounds side (filled +ℤ m.volume) bs (h.0.1, h.1.1) (omega (min_laws, vol)) in
      elim (Bool-cases (continues b.price)) [
        | inl more ↦ rw more (omega (min_laws, vol, nonneg, ih.0), ih.1)
        | inr done ↦ rw done (omega arith, le)
      ]

pub total_size-append :
    (xs ys : List MatcherTradeEvent) → total_size (xs ++ ys) ≡ total_size xs +ℤ total_size ys
unfolding total_size
total_size-append [] ys = omega int_laws
total_size-append (e ∷ xs) ys = omega (int_laws, parts (total_size-append xs ys))

-- The events account for what is filled.
pub total_size-match_range :
    (continues : ℤ → Bool) (size r filled : ℤ) (bs : List OrdersBucket)
    → total_size (match_range continues size r filled bs).events
      ≡ (match_range continues size r filled bs).filled -ℤ filled
unfolding match_range
total_size-match_range continues size r filled [] = unfold total_size in omega int_laws
total_size-match_range continues size r filled (b ∷ bs) =
    let m = match_orders r (size -ℤ filled) b.orders in
    let rest = match_range continues size r (filled +ℤ m.volume) bs in
    elim (Bool-cases (continues b.price)) [
      | inl more ↦ rw more (
          omega (
            int_laws,
            parts (total_size-append m.events rest.events),
            parts (total_size-match_orders r (size -ℤ filled) b.orders),
            parts (total_size-match_range continues size r (filled +ℤ m.volume) bs),
          ))
      | inr done ↦ rw done (unfold total_size in omega int_laws)
    ]
