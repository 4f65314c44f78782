-- ===== src/OrderBook/Levels/Map.antt =====
-- The laws of the map of buckets: what is found after an update, and its order.
use exchange_cpp.Base.{
  ℕ, ◌∷◌, [], List, Bool, true, false, none, some, ◌≡◌, refl, inl, inr, arith, Bool-cases,
  if◌then◌else◌, All,
}
use exchange_cpp.Base.Int.{ℤ, pos, ◌==ℤ◌, ◌≤ℤ◌, ◌<ℤ◌, ==ℤ_eq, ==ℤ_of_eq}
use exchange_cpp.Common.{Order, OrderAction, ask, bid}
use exchange_cpp.OrderBook.Bucket.{OrdersBucket, calculated_volume}
use exchange_cpp.OrderBook.Bucket.Volume.{IsLive}
use exchange_cpp.OrderBook.Bucket.Fifo.{HasDistinctIds, has_id}
use exchange_cpp.OrderBook.Levels.{before, find_bucket, set_bucket, erase_bucket}

-- An order that stands in the bucket of this side and price.
abbrev pub IsPlaced : OrderAction → ℤ → Order → Type 0
IsPlaced side p o = (pos 0 ≤ℤ o.filled) × (o.filled <ℤ o.size) × (o.price ≡ p) × (o.action ≡ side)

pub record IsBucketValid (side : OrderAction) (b : OrdersBucket) : Type 0 where
  pub total : b.total_volume ≡ calculated_volume b.orders
  pub placed : All (IsPlaced side b.price) b.orders
  pub distinct : HasDistinctIds b.orders
  pub nonempty : pos 0 <ℤ b.total_volume

abbrev pub AllAfter : OrderAction → ℤ → List OrdersBucket → Type 0
AllAfter side p [] = Unit
AllAfter side p (b ∷ bs) = (before side p b.price ≡ true) × AllAfter side p bs

abbrev pub IsSorted : OrderAction → List OrdersBucket → Type 0
IsSorted side [] = Unit
IsSorted side (b ∷ bs) = AllAfter side b.price bs × IsSorted side bs

abbrev pub AreValid : OrderAction → List OrdersBucket → Type 0
AreValid side bs = All (IsBucketValid side) bs × IsSorted side bs

pub IsPlaced-IsLive :
    (side : OrderAction) (p : ℤ) (os : List Order) → All (IsPlaced side p) os → All IsLive os
IsPlaced-IsLive side p [] h = tt
IsPlaced-IsLive side p (o ∷ os) h = ((h.0.0, h.0.1), IsPlaced-IsLive side p os h.1)

-- Whether the bucket of a price holds an id.
abbrev pub holds : ℕ → ℤ → List OrdersBucket → Bool
holds k p bs = elim (find_bucket p bs) [ none ↦ false | some b ↦ has_id k b.orders ]

pub find_bucket-price :
    (p : ℤ) (b : OrdersBucket) (bs : List OrdersBucket)
    → find_bucket p bs ≡ some b
    → (p ==ℤ b.price) ≡ true
unfolding find_bucket
find_bucket-price p b [] e = cc
find_bucket-price p b (x ∷ bs) e = ground (arith, find_bucket-price p b bs)

pub find_bucket-All {ℓ} :
    (P : OrdersBucket → Type ℓ) (p : ℤ) (b : OrdersBucket) (bs : List OrdersBucket)
    → All P bs
    → find_bucket p bs ≡ some b
    → P b
unfolding find_bucket
find_bucket-All P p b [] h e = absurd (none≢some e)
  where
    none≢some : none ≡ some b → ⊥
    none≢some e = cc
find_bucket-All P p b (x ∷ bs) h e = elim (Bool-cases (p ==ℤ x.price)) [
  | inl hit ↦ let same : x ≡ b = ground arith in rw (← same) h.0
  | inr miss ↦
      let rest : find_bucket p bs ≡ some b = ground arith in find_bucket-All P p b bs h.1 rest
]

-- A set writes one price and no other.
pub find_bucket-set_bucket :
    (side : OrderAction) (p : ℤ) (b : OrdersBucket) (bs : List OrdersBucket)
    → find_bucket p (set_bucket side b bs) ≡ (if p ==ℤ b.price then some b else find_bucket p bs)
unfolding find_bucket set_bucket
find_bucket-set_bucket side p b [] = refl
find_bucket-set_bucket ask p b (x ∷ bs) = ground (arith, find_bucket-set_bucket ask p b bs)
find_bucket-set_bucket bid p b (x ∷ bs) = ground (arith, find_bucket-set_bucket bid p b bs)

-- Behind a price that comes later nothing is found.
pub find_bucket-AllAfter :
    (side : OrderAction) (p q : ℤ) (bs : List OrdersBucket)
    → AllAfter side q bs
    → (p ==ℤ q) ≡ true
    → find_bucket p bs ≡ none
unfolding find_bucket
find_bucket-AllAfter side p q [] h e = refl
find_bucket-AllAfter ask p q (x ∷ bs) h e = ground (arith, find_bucket-AllAfter ask p q bs h.1 e)
find_bucket-AllAfter bid p q (x ∷ bs) h e = ground (arith, find_bucket-AllAfter bid p q bs h.1 e)

pub find_bucket-erase_bucket :
    (side : OrderAction) (p q : ℤ) (bs : List OrdersBucket)
    → IsSorted side bs
    → find_bucket p (erase_bucket q bs) ≡ (if p ==ℤ q then none else find_bucket p bs)
unfolding find_bucket erase_bucket
find_bucket-erase_bucket side p q [] h = ground arith
find_bucket-erase_bucket side p q (x ∷ bs) h =
    ground
      (arith, find_bucket-erase_bucket side p q bs h.1, find_bucket-AllAfter side p x.price bs h.0)

AllAfter-erase_bucket :
    (side : OrderAction) (p q : ℤ) (bs : List OrdersBucket)
    → AllAfter side p bs
    → AllAfter side p (erase_bucket q bs)
unfolding erase_bucket
AllAfter-erase_bucket side p q [] h = tt
AllAfter-erase_bucket side p q (x ∷ bs) h = ground (arith, AllAfter-erase_bucket side p q bs h.1)

pub erase_bucket-IsSorted :
    (side : OrderAction) (q : ℤ) (bs : List OrdersBucket)
    → IsSorted side bs
    → IsSorted side (erase_bucket q bs)
unfolding erase_bucket
erase_bucket-IsSorted side q [] h = tt
erase_bucket-IsSorted side q (x ∷ bs) h =
    ground (arith, erase_bucket-IsSorted side q bs h.1, AllAfter-erase_bucket side x.price q bs h.0)

AllAfter-set_bucket :
    (side : OrderAction) (p : ℤ) (b : OrdersBucket) (bs : List OrdersBucket)
    → before side p b.price ≡ true
    → AllAfter side p bs
    → AllAfter side p (set_bucket side b bs)
unfolding set_bucket
AllAfter-set_bucket side p b [] e h = (e, tt)
AllAfter-set_bucket side p b (x ∷ bs) e h = ground (arith, AllAfter-set_bucket side p b bs e h.1)

AllAfter-trans :
    (side : OrderAction) (p q : ℤ) (bs : List OrdersBucket)
    → before side p q ≡ true
    → AllAfter side q bs
    → AllAfter side p bs
AllAfter-trans side p q [] e h = tt
AllAfter-trans ask p q (x ∷ bs) e h = (ground arith, AllAfter-trans ask p q bs e h.1)
AllAfter-trans bid p q (x ∷ bs) e h = (ground arith, AllAfter-trans bid p q bs e h.1)

pub find_bucket_first :
    (side : OrderAction) (p : ℤ) (bs : List OrdersBucket)
    → AllAfter side p bs
    → find_bucket p bs ≡ none
find_bucket_first side p bs h = find_bucket-AllAfter side p p bs h (==ℤ_of_eq p p refl)

pub find_bucket-AllAfter-before :
    (side : OrderAction) (p q : ℤ) (bs : List OrdersBucket)
    → before side p q ≡ true
    → AllAfter side q bs
    → find_bucket p bs ≡ none
find_bucket-AllAfter-before side p q bs e h =
    find_bucket_first side p bs (AllAfter-trans side p q bs e h)

-- A bucket of the same price has the same prices behind it.
AllAfter-same :
    (side : OrderAction) (p q : ℤ) (bs : List OrdersBucket)
    → (p ==ℤ q) ≡ true
    → AllAfter side q bs
    → AllAfter side p bs
AllAfter-same side p q bs e h = rw (==ℤ_eq p q e) h

before_of_ne :
    (side : OrderAction) (p q : ℤ)
    → (p ==ℤ q) ≡ false
    → before side p q ≡ false
    → before side q p ≡ true
before_of_ne ask p q h k = ground arith
before_of_ne bid p q h k = ground arith

pub set_bucket-IsSorted :
    (side : OrderAction) (b : OrdersBucket) (bs : List OrdersBucket)
    → IsSorted side bs
    → IsSorted side (set_bucket side b bs)
unfolding set_bucket
set_bucket-IsSorted side b [] h = (tt, tt)
set_bucket-IsSorted side b (x ∷ bs) h = ground (
  arith,
  set_bucket-IsSorted side b bs h.1,
  AllAfter-same side b.price x.price bs,
  AllAfter-trans side b.price x.price bs,
  before_of_ne side b.price x.price,
  AllAfter-set_bucket side x.price b bs,
)

pub set_bucket-All :
    (side : OrderAction) (b : OrdersBucket) (bs : List OrdersBucket)
    → IsBucketValid side b
    → All (IsBucketValid side) bs
    → All (IsBucketValid side) (set_bucket side b bs)
unfolding set_bucket
set_bucket-All side b [] v h = (v, tt)
set_bucket-All side b (x ∷ bs) v h = ground (arith, set_bucket-All side b bs v h.1)

pub erase_bucket-All :
    (side : OrderAction) (q : ℤ) (bs : List OrdersBucket)
    → All (IsBucketValid side) bs
    → All (IsBucketValid side) (erase_bucket q bs)
unfolding erase_bucket
erase_bucket-All side q [] h = tt
erase_bucket-All side q (x ∷ bs) h = ground (arith, erase_bucket-All side q bs h.1)
