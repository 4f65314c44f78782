-- ===== src/OrderBook/Direct/Chain.antt =====
-- OrderBookDirectImpl.cpp: how the objects of a side represent its price levels, best first, each
-- with its orders, oldest first.
use exchange_cpp.Base.{
  ℕ, suc, false, Option, none, some, List, [], ◌∷◌, ◌++◌, ◌==◌, ◌≡◌, refl, ◌∙◌, length, All,
}
use exchange_cpp.Base.Int.{ℤ, pos}
use exchange_cpp.Common.{Order}
use exchange_cpp.OrderBook.Bucket.{OrdersBucket, calculated_volume}
use exchange_cpp.OrderBook.PriceMap.{PriceMap}
use exchange_cpp.OrderBook.Direct.{DirectOrder, Bucket, Side, write}

-- An order and the pointer to its object.
pub record Cell : Type 0 where
  pub pointer : ℕ
  pub order : Order

-- A bucket that is used: its pointer, its price and its orders, which are one at least.
pub record Level : Type 0 where
  pub bucket : ℕ
  pub price : ℤ
  pub first : Cell
  pub others : List Cell

abbrev pub cells_of : Level → List Cell
cells_of l = l.first ∷ l.others

abbrev pub orders_of : List Cell → List Order
orders_of [] = []
orders_of (c ∷ cs) = c.order ∷ orders_of cs

abbrev pub last_pointer : ℕ → List Cell → ℕ
last_pointer p [] = p
last_pointer p (d ∷ ds) = last_pointer d.pointer ds

abbrev pub head_pointer : List Level → Option ℕ
head_pointer [] = none
head_pointer (l ∷ ls) = some l.first.pointer

-- The bucket object of a level.
abbrev pub bucket_of : Level → Bucket
bucket_of l = record {
  price = l.price;
  last_order = last_pointer l.first.pointer l.others;
  total_volume = calculated_volume (l.first.order ∷ orders_of l.others);
  num_orders = pos (suc (length l.others));
}

-- The level as a bucket of the naive implementation.
abbrev pub naive_bucket : Level → OrdersBucket
naive_bucket l = record {
  price = l.price;
  total_volume = calculated_volume (l.first.order ∷ orders_of l.others);
  orders = l.first.order ∷ orders_of l.others;
}

abbrev pub naive_buckets : List Level → List OrdersBucket
naive_buckets [] = []
naive_buckets (l ∷ ls) = naive_bucket l ∷ naive_buckets ls

-- The objects of the orders of a bucket, linked both ways: before the first is `next`, after the
-- last is `prev`.
abbrev pub AreLinked :
    (ℕ → Option DirectOrder) → ℕ → Option ℕ → Cell → List Cell → Option ℕ → Type 0
AreLinked store b next c [] prev =
    store c.pointer ≡ some (record { order = c.order; next = next; prev = prev; bucket = b })
AreLinked store b next c (d ∷ ds) prev =
    (store c.pointer
      ≡ some (record { order = c.order; next = next; prev = some d.pointer; bucket = b }))
    × AreLinked store b (some c.pointer) d ds prev

-- A pointer that is not among these.
abbrev pub IsNew : ℕ → List ℕ → Type 0
IsNew p = All (λ q. (q == p) ≡ false)

abbrev pub pointers_in : List Cell → List ℕ
pointers_in [] = []
pointers_in (d ∷ ds) = d.pointer ∷ pointers_in ds

abbrev pub pointers_of : Cell → List Cell → List ℕ
pointers_of c ds = c.pointer ∷ pointers_in ds

abbrev pub pointers : List Level → List ℕ
pointers [] = []
pointers (l ∷ ls) = pointers_of l.first l.others ++ pointers ls

abbrev pub bucket_pointers : List Level → List ℕ
bucket_pointers [] = []
bucket_pointers (l ∷ ls) = l.bucket ∷ bucket_pointers ls

abbrev pub AreDistinct : List ℕ → Type 0
AreDistinct [] = Unit
AreDistinct (p ∷ ps) = IsNew p ps × AreDistinct ps

module _ {T : Type 0} (prices : PriceMap T) where
  -- The levels stand in the side; `next` is what the first order has before it.
  abbrev pub Represents : Option ℕ → Side T → List Level → Type 0
  Represents next s [] = Unit
  Represents next s (l ∷ ls) =
      AreLinked s.orders l.bucket next l.first l.others (head_pointer ls)
      × (s.buckets l.bucket ≡ some (bucket_of l))
      × (prices.get l.price s.price_buckets ≡ some l.bucket)
      × Represents (some (last_pointer l.first.pointer l.others)) s ls

pub All-left : (P : ℕ → Type 0) (xs ys : List ℕ) → All P (xs ++ ys) → All P xs
All-left P [] ys h = tt
All-left P (x ∷ xs) ys h = (h.0, All-left P xs ys h.1)

pub All-right : (P : ℕ → Type 0) (xs ys : List ℕ) → All P (xs ++ ys) → All P ys
All-right P [] ys h = h
All-right P (x ∷ xs) ys h = All-right P xs ys h.1

pub AreDistinct-right : (xs ys : List ℕ) → AreDistinct (xs ++ ys) → AreDistinct ys
AreDistinct-right [] ys h = h
AreDistinct-right (x ∷ xs) ys h = AreDistinct-right xs ys h.1

-- Two stores that agree at these pointers.
abbrev pub Agree : {A : Type 0} → (ℕ → Option A) → (ℕ → Option A) → List ℕ → Type 0
Agree f g = All (λ p. f p ≡ g p)

-- A store with a write at a pointer that is not among them agrees with it.
pub Agree-write :
    {A : Type 0} (p : ℕ) (v : Option A) (f : ℕ → Option A) (ps : List ℕ)
    → IsNew p ps
    → Agree (write p v f) f ps
Agree-write p v f [] n = tt
Agree-write p v f (q ∷ ps) n = (rw n.0 refl, Agree-write p v f ps n.1)

pub Agree-write2 :
    {A : Type 0} (p : ℕ) (v w : Option A) (f : ℕ → Option A) (ps : List ℕ)
    → IsNew p ps
    → Agree (write p v (write p w f)) f ps
Agree-write2 p v w f [] n = tt
Agree-write2 p v w f (q ∷ ps) n = (rw n.0 refl, Agree-write2 p v w f ps n.1)

pub AreLinked-Agree :
    (f g : ℕ → Option DirectOrder) (b : ℕ) (next : Option ℕ) (c : Cell) (ds : List Cell)
    (prev : Option ℕ)
    → Agree f g (pointers_of c ds)
    → AreLinked g b next c ds prev
    → AreLinked f b next c ds prev
AreLinked-Agree f g b next c [] prev a h = a.0 ∙ h
AreLinked-Agree f g b next c (d ∷ ds) prev a h =
    (a.0 ∙ h.0, AreLinked-Agree f g b (some c.pointer) d ds prev a.1 h.1)

module _ {T : Type 0} (prices : PriceMap T) where
  abbrev pub AgreeOnPrices : T → T → List Level → Type 0
  AgreeOnPrices t u = All (λ l. prices.get l.price t ≡ prices.get l.price u)

  -- A side that agrees with another on all that the levels use represents them too.
  pub Represents-Agree :
      (s u : Side T) (next : Option ℕ) (ls : List Level)
      → Agree s.orders u.orders (pointers ls)
      → Agree s.buckets u.buckets (bucket_pointers ls)
      → AgreeOnPrices s.price_buckets u.price_buckets ls
      → Represents prices next u ls
      → Represents prices next s ls
  Represents-Agree s u next [] a b t h = tt
  Represents-Agree s u next (l ∷ ls) a b t h = (
    AreLinked-Agree s.orders u.orders l.bucket next l.first l.others (head_pointer ls)
        (All-left _ (pointers_of l.first l.others) (pointers ls) a) h.0,
    b.0 ∙ h.1,
    t.0 ∙ h.2,
    Represents-Agree s u (some (last_pointer l.first.pointer l.others)) ls
        (All-right _ (pointers_of l.first l.others) (pointers ls) a) b.1 t.1 h.3,
  )
