-- ===== src/OrderBook/Levels/Placing.antt =====
-- An order that is placed at its price, and the volume of a side.
use exchange_cpp.Base.{
  ℕ, ◌∷◌, [], List, true, false, ◌&&◌, ◌||◌, none, some, ◌≡◌, refl, inl, inr, arith, Bool-cases,
  All, All-append, Option-cases, ap, sym, ◌==◌,
}
use exchange_cpp.Base.Int.{ℤ, pos, ◌+ℤ◌, ◌-ℤ◌, ◌==ℤ◌, ==ℤ_eq, int_laws, parts, ==ℤ_of_eq}
use exchange_cpp.Common.{Order, OrderAction}
use exchange_cpp.OrderBook.Bucket.{OrdersBucket, find_by_id, put, new_bucket, calculated_volume}
use exchange_cpp.OrderBook.Bucket.Volume.{calculated_volume-append, calculated_volume_nonneg}
use exchange_cpp.OrderBook.Bucket.Fifo.{
  HasDistinctIds, has_id, find_by_id-append, append-HasDistinctIds,
}
use exchange_cpp.OrderBook.Levels.{
  before, find_bucket, set_bucket, bucket_or_new, place, total_orders_volume,
}
use exchange_cpp.OrderBook.Levels.Map.{
  IsPlaced, IsBucketValid, AreValid, IsPlaced-IsLive, holds, find_bucket-price, find_bucket-All,
  find_bucket-set_bucket, set_bucket-IsSorted, set_bucket-All, IsSorted,
  find_bucket-AllAfter-before,
}

put-IsBucketValid :
    (side : OrderAction) (o : Order) (b : OrdersBucket)
    → b.total_volume ≡ calculated_volume b.orders
    → All (IsPlaced side b.price) b.orders
    → HasDistinctIds b.orders
    → IsPlaced side b.price o
    → find_by_id o.order_id b.orders ≡ none
    → IsBucketValid side (put o b)
unfolding put calculated_volume
put-IsBucketValid side o b t a d p f = record {
  total = omega (int_laws, parts t, parts (calculated_volume-append b.orders (o ∷ [])));
  placed = All-append (IsPlaced side b.price) b.orders (o ∷ []) a (p, tt);
  distinct = append-HasDistinctIds o b.orders d f;
  nonempty = omega (
    int_laws,
    parts t,
    calculated_volume_nonneg b.orders (IsPlaced-IsLive side b.price b.orders a),
  );
}

-- The bucket of a price is valid but for its volume, if it was just made.
bucket_or_new-put :
    (side : OrderAction) (o : Order) (bs : List OrdersBucket)
    → AreValid side bs
    → IsPlaced side o.price o
    → holds o.order_id o.price bs ≡ false
    → IsBucketValid side (put o (bucket_or_new o.price bs))
unfolding bucket_or_new
bucket_or_new-put side o bs v p h = elim (Option-cases (find_bucket o.price bs)) [
  | inl missing ↦
      rw (missing, bucket_or_new)
        (put-IsBucketValid side o (new_bucket o.price) (unfold calculated_volume in refl) tt tt p
          (unfold find_by_id in refl))
  | inr (b, found) ↦
      let w = find_bucket-All (IsBucketValid side) o.price b bs v.0 found in
      let same : o.price ≡ b.price =
        ==ℤ_eq o.price b.price (find_bucket-price o.price b bs found) in
      rw (found, bucket_or_new)
        (put-IsBucketValid side o b w.total w.placed w.distinct (p.0, p.1, same, p.3)
          (ground arith))
]

pub place-AreValid :
    (side : OrderAction) (o : Order) (bs : List OrdersBucket)
    → AreValid side bs
    → IsPlaced side o.price o
    → holds o.order_id o.price bs ≡ false
    → AreValid side (place side o bs)
unfolding place
place-AreValid side o bs v p h =
    let b = put o (bucket_or_new o.price bs) in
    (
      set_bucket-All side b bs (bucket_or_new-put side o bs v p h) v.0,
      set_bucket-IsSorted side b bs v.1,
    )

pub put-price :
    (o : Order) (bs : List OrdersBucket)
    → (o.price ==ℤ (put o (bucket_or_new o.price bs)).price) ≡ true
unfolding put bucket_or_new
put-price o bs = elim (Option-cases (find_bucket o.price bs)) [
  | inl missing ↦ rw (missing, bucket_or_new) (==ℤ_of_eq o.price o.price refl)
  | inr (b, found) ↦ rw (found, bucket_or_new) (find_bucket-price o.price b bs found)
]

has_id-put :
    (k : ℕ) (o : Order) (bs : List OrdersBucket)
    → has_id k (put o (bucket_or_new o.price bs)).orders ≡ (holds k o.price bs || k == o.order_id)
unfolding put bucket_or_new find_by_id
has_id-put k o bs = elim (Option-cases (find_bucket o.price bs)) [
  | inl missing ↦ rw (missing, bucket_or_new) (ground arith)
  | inr (b, found) ↦
      rw (found, bucket_or_new) (ground (arith, find_by_id-append k b.orders (o ∷ [])))
]

-- A placed order is held at its price, and nothing else changes.
pub holds-place :
    (side : OrderAction) (k : ℕ) (p : ℤ) (o : Order) (bs : List OrdersBucket)
    → holds k p (place side o bs) ≡ (holds k p bs || (k == o.order_id && p ==ℤ o.price))
unfolding place
holds-place side k p o bs =
    let b = put o (bucket_or_new o.price bs) in
    elim (Bool-cases (p ==ℤ o.price)) [
      | inl hit ↦
          let same : p ≡ o.price = ==ℤ_eq p o.price hit in
          ground (arith, find_bucket-set_bucket side p b bs, put-price o bs, has_id-put k o bs)
      | inr miss ↦ ground (arith, find_bucket-set_bucket side p b bs, put-price o bs)
    ]

-- A set replaces the volume of its price.
abbrev pub volume_at : ℤ → List OrdersBucket → ℤ
volume_at p bs = elim (find_bucket p bs) [ none ↦ pos 0 | some b ↦ b.total_volume ]

pub total_orders_volume-set_bucket :
    (side : OrderAction) (b : OrdersBucket) (bs : List OrdersBucket)
    → IsSorted side bs
    → total_orders_volume (set_bucket side b bs)
      ≡ total_orders_volume bs -ℤ volume_at b.price bs +ℤ b.total_volume
unfolding total_orders_volume set_bucket find_bucket
total_orders_volume-set_bucket side b [] h = omega int_laws
total_orders_volume-set_bucket side b (x ∷ bs) h = elim (Bool-cases (b.price ==ℤ x.price)) [
  | inl hit ↦
      let found : volume_at b.price (x ∷ bs) ≡ x.total_volume = ground arith in
      rw hit (omega (int_laws, parts found))
  | inr miss ↦
      let behind : volume_at b.price (x ∷ bs) ≡ volume_at b.price bs = ground arith in
      rw miss (elim (Bool-cases (before side b.price x.price)) [
        | inl first ↦
            let nowhere = find_bucket-AllAfter-before side b.price x.price bs first h.0 in
            let nothing : volume_at b.price bs ≡ pos 0 = ground arith in
            rw first (omega (int_laws, parts behind, parts nothing))
        | inr later ↦
            rw later
              (omega (int_laws, parts behind, parts (total_orders_volume-set_bucket side b bs h.1)))
      ])
]

put-total :
    (o : Order) (bs : List OrdersBucket)
    → (put o (bucket_or_new o.price bs)).total_volume ≡ volume_at o.price bs +ℤ (o.size -ℤ o.filled)
unfolding put bucket_or_new
put-total o bs = elim (Option-cases (find_bucket o.price bs)) [
  | inl missing ↦ rw (missing, bucket_or_new) (ground arith)
  | inr (b, found) ↦ rw (found, bucket_or_new) (ground arith)
]

-- A placed order adds what is left of it to the volume of the side.
pub total_orders_volume-place :
    (side : OrderAction) (o : Order) (bs : List OrdersBucket)
    → IsSorted side bs
    → total_orders_volume (place side o bs) ≡ total_orders_volume bs +ℤ (o.size -ℤ o.filled)
unfolding place
total_orders_volume-place side o bs h =
    let b = put o (bucket_or_new o.price bs) in
    let same : b.price ≡ o.price = sym (==ℤ_eq o.price b.price (put-price o bs)) in
    omega (
      int_laws,
      parts (total_orders_volume-set_bucket side b bs h),
      parts (put-total o bs),
      parts (ap (λ p. volume_at p bs) same),
    )
