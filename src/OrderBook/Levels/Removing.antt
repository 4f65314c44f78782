-- ===== src/OrderBook/Levels/Removing.antt =====
-- An order that leaves its bucket, and the bucket the map if no volume is left in it.
use exchange_cpp.Base.{
  ℕ, List, [], ◌∷◌, false, not, ◌&&◌, some, ◌≡◌, refl, inl, inr, arith, Bool-cases, if◌then◌else◌,
  ◌∙◌, sym, ap, subst, ◌==◌, ==_refl, All,
}
use exchange_cpp.Base.Int.{ℤ, pos, ◌-ℤ◌, ◌==ℤ◌, ==ℤ_eq, ==ℤ_ne, int_laws, parts}
use exchange_cpp.Common.{Order, OrderAction}
use exchange_cpp.OrderBook.Bucket.{OrdersBucket, remove, find_by_id, erase_by_id, calculated_volume}
use exchange_cpp.OrderBook.Bucket.Volume.{calculated_volume_nonneg, calculated_volume-erase_by_id}
use exchange_cpp.OrderBook.Bucket.Fifo.{has_id, find_by_id-erase_by_id, erase_by_id-HasDistinctIds}
use exchange_cpp.OrderBook.Levels.{find_bucket, set_bucket, erase_bucket, total_orders_volume}
use exchange_cpp.OrderBook.Levels.Map.{
  IsPlaced, IsBucketValid, AreValid, IsPlaced-IsLive, holds, find_bucket-price, find_bucket-All,
  find_bucket-set_bucket, find_bucket-erase_bucket, set_bucket-IsSorted, set_bucket-All,
  erase_bucket-IsSorted, erase_bucket-All,
}
use exchange_cpp.OrderBook.Levels.Placing.{volume_at, total_orders_volume-set_bucket}
use exchange_cpp.OrderBook.Levels.Matching.{no_volume}

erase_by_id-All {ℓ} :
    (P : Order → Type ℓ) (k : ℕ) (os : List Order) → All P os → All P (erase_by_id k os)
unfolding erase_by_id
erase_by_id-All P k [] h = tt
erase_by_id-All P k (o ∷ os) h = elim (Bool-cases (k == o.order_id)) [
  | inl hit ↦ rw hit h.1
  | inr miss ↦ rw miss (h.0, erase_by_id-All P k os h.1)
]

total_orders_volume-erase_bucket :
    (p : ℤ) (bs : List OrdersBucket)
    → total_orders_volume (erase_bucket p bs) ≡ total_orders_volume bs -ℤ volume_at p bs
unfolding total_orders_volume erase_bucket find_bucket
total_orders_volume-erase_bucket p [] = omega int_laws
total_orders_volume-erase_bucket p (x ∷ bs) = elim (Bool-cases (p ==ℤ x.price)) [
  | inl hit ↦
      let found : volume_at p (x ∷ bs) ≡ x.total_volume = ground arith in
      rw hit (omega (int_laws, parts found))
  | inr miss ↦
      let behind : volume_at p (x ∷ bs) ≡ volume_at p bs = ground arith in
      rw miss (omega (int_laws, parts behind, parts (total_orders_volume-erase_bucket p bs)))
]

-- The bucket after `Remove` of its order.
abbrev pub bucket_without : Order → OrdersBucket → OrdersBucket
bucket_without o b = record b {
  total_volume = b.total_volume -ℤ (o.size -ℤ o.filled);
  orders = erase_by_id o.order_id b.orders;
}

-- The side after it.
abbrev pub side_without : OrderAction → Order → OrdersBucket → List OrdersBucket → List OrdersBucket
side_without side o b bs =
    if (bucket_without o b).total_volume ==ℤ pos 0
    then erase_bucket o.price bs
    else set_bucket side (bucket_without o b) bs

pub remove-bucket_without :
    (o : Order) (uid : ℕ) (b : OrdersBucket)
    → find_by_id o.order_id b.orders ≡ some o
    → o.uid ≡ uid
    → (remove o.order_id uid b).1 ≡ bucket_without o b
unfolding remove
remove-bucket_without o uid b e u = rw (e, remove, ← u, ==_refl o.uid)

module _ (side : OrderAction) (o : Order) (b : OrdersBucket) (bs : List OrdersBucket)
    (v : AreValid side bs) (found : find_bucket o.price bs ≡ some b)
    (inside : find_by_id o.order_id b.orders ≡ some o) where
  valid : IsBucketValid side b
  valid = find_bucket-All (IsBucketValid side) o.price b bs v.0 found

  same_price : o.price ≡ b.price
  same_price = ==ℤ_eq o.price b.price (find_bucket-price o.price b bs found)

  left_volume :
      calculated_volume (erase_by_id o.order_id b.orders) ≡ (bucket_without o b).total_volume
  left_volume = omega (
    int_laws,
    parts valid.total,
    parts (calculated_volume-erase_by_id o.order_id o b.orders inside),
  )

  left_placed : All (IsPlaced side b.price) (erase_by_id o.order_id b.orders)
  left_placed = erase_by_id-All (IsPlaced side b.price) o.order_id b.orders valid.placed

  pub side_without-AreValid : AreValid side (side_without side o b bs)
  side_without-AreValid = elim (Bool-cases ((bucket_without o b).total_volume ==ℤ pos 0)) [
    | inl used ↦
        rw used (erase_bucket-All side o.price bs v.0, erase_bucket-IsSorted side o.price bs v.1)
    | inr left ↦
        let os = erase_by_id o.order_id b.orders in
        let still : IsBucketValid side (bucket_without o b) = record {
          total = sym left_volume;
          placed = left_placed;
          distinct = erase_by_id-HasDistinctIds o.order_id b.orders valid.distinct;
          nonempty = omega (
            int_laws,
            parts left_volume,
            calculated_volume_nonneg os (IsPlaced-IsLive side b.price os left_placed),
            ==ℤ_ne (bucket_without o b).total_volume (pos 0) left,
          );
        } in
        rw left (
          set_bucket-All side (bucket_without o b) bs still v.0,
          set_bucket-IsSorted side (bucket_without o b) bs v.1,
        )
  ]

  pub total_orders_volume-side_without :
      total_orders_volume (side_without side o b bs)
      ≡ total_orders_volume bs -ℤ (o.size -ℤ o.filled)
  total_orders_volume-side_without =
      let here : volume_at o.price bs ≡ b.total_volume = ground arith in
      elim (Bool-cases ((bucket_without o b).total_volume ==ℤ pos 0)) [
        | inl used ↦ rw used (
            omega (
              int_laws,
              parts here,
              parts (==ℤ_eq (bucket_without o b).total_volume (pos 0) used),
              parts (total_orders_volume-erase_bucket o.price bs),
            ))
        | inr left ↦ rw left (
            omega (
              int_laws,
              parts here,
              parts (ap (λ p. volume_at p bs) same_price),
              parts (total_orders_volume-set_bucket side (bucket_without o b) bs v.1),
            ))
      ]

  -- What the bucket holds without the order.
  has_id_without :
      (k : ℕ)
      → has_id k (erase_by_id o.order_id b.orders) ≡ (has_id k b.orders && not (k == o.order_id))
  has_id_without k = ground (arith, find_by_id-erase_by_id k o.order_id b.orders valid.distinct)

  pub holds-side_without :
      (k : ℕ) (p : ℤ)
      → holds k p (side_without side o b bs)
        ≡ (holds k p bs && not (k == o.order_id && p ==ℤ o.price))
  holds-side_without k p = elim (Bool-cases (p ==ℤ o.price)) [
    | inl hit ↦
        let here : p ≡ o.price = ==ℤ_eq p o.price hit in
        let held : holds k p bs ≡ has_id k b.orders = ground arith in
        elim (Bool-cases ((bucket_without o b).total_volume ==ℤ pos 0)) [
          | inl used ↦
              let gone =
                no_volume (erase_by_id o.order_id b.orders)
                  (IsPlaced-IsLive side b.price _ left_placed)
                  (left_volume ∙ ==ℤ_eq (bucket_without o b).total_volume (pos 0) used) in
              let nobody : has_id k (erase_by_id o.order_id b.orders) ≡ false =
                subst (λ os. has_id k os ≡ false) (sym gone) (unfold find_by_id in refl) in
              rw used
                (ground (arith, find_bucket-erase_bucket side p o.price bs v.1, has_id_without k))
          | inr left ↦ rw left (
              ground (
                arith,
                find_bucket-set_bucket side p (bucket_without o b) bs,
                has_id_without k,
                same_price,
              ))
        ]
    | inr miss ↦ elim (Bool-cases ((bucket_without o b).total_volume ==ℤ pos 0)) [
      | inl used ↦ rw used (ground (arith, find_bucket-erase_bucket side p o.price bs v.1))
      | inr left ↦
          rw left
            (ground (arith, find_bucket-set_bucket side p (bucket_without o b) bs, same_price))
    ]
  ]
