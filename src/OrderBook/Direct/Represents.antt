-- ===== src/OrderBook/Direct/Represents.antt =====
-- OrderBookDirectImpl.cpp: the levels that a side represents after a trade with its best order.
use exchange_cpp.Base.{ℕ, true, false, Option, none, some, List, [], ◌∷◌, ◌≡◌, refl, arith, ==_refl}
use exchange_cpp.Base.Int.{ℤ, ◌==ℤ◌}
use exchange_cpp.Common.{Order, OrderAction, ask, bid}
use exchange_cpp.OrderBook.Levels.{before}
use exchange_cpp.OrderBook.Levels.Map.{AreValid, AllAfter}
use exchange_cpp.OrderBook.PriceMap.{PriceMap}
use exchange_cpp.OrderBook.Direct.{
  DirectOrder, Bucket, Side, write, store_order, free_order, store_bucket, free_bucket,
}
use exchange_cpp.OrderBook.Direct.Chain.{
  Cell, Level, last_pointer, head_pointer, pointers_of, pointers, bucket_pointers, bucket_of,
  naive_buckets, AreLinked, AreDistinct, All-left, All-right, Agree, Agree-write, Agree-write2,
  AreLinked-Agree, AgreeOnPrices, Represents, Represents-Agree,
}

-- Levels with objects of their own, valid as the buckets of this side.
pub record IsSound (side : OrderAction) (ls : List Level) : Type 0 where
  pub orders : AreDistinct (pointers ls)
  pub buckets : AreDistinct (bucket_pointers ls)
  pub valid : AreValid side (naive_buckets ls)

-- What is after the first order of a level.
abbrev pub prev_of : List Cell → List Level → Option ℕ
prev_of [] ls = head_pointer ls
prev_of (d ∷ ds) ls = some d.pointer

pub first_object :
    (store : ℕ → Option DirectOrder) (b : ℕ) (next : Option ℕ) (c : Cell) (ds : List Cell)
    (ls : List Level)
    → AreLinked store b next c ds (head_pointer ls)
    → store c.pointer
      ≡ some (record { order = c.order; next = next; prev = prev_of ds ls; bucket = b })
first_object store b next c [] ls h = h
first_object store b next c (d ∷ ds) ls h = h.0

written : {A : Type 0} (p : ℕ) (v : Option A) (f : ℕ → Option A) → write p v f p ≡ v
written p v f = rw (==_refl p) refl

pub Agree-refl : {A : Type 0} (f : ℕ → Option A) (ps : List ℕ) → Agree f f ps
Agree-refl f [] = tt
Agree-refl f (p ∷ ps) = (refl, Agree-refl f ps)

pub after_not_eq : (side : OrderAction) (p q : ℤ) → before side p q ≡ true → (q ==ℤ p) ≡ false
after_not_eq ask p q h = ground arith
after_not_eq bid p q h = ground arith

abbrev pub level_at : ℕ → ℤ → Cell → List Cell → Level
level_at b price c ds = record { bucket = b; price = price; first = c; others = ds }

module _ {T : Type 0} (prices : PriceMap T) where
  pub AgreeOnPrices-refl : (t : T) (ls : List Level) → AgreeOnPrices prices t t ls
  AgreeOnPrices-refl t [] = tt
  AgreeOnPrices-refl t (l ∷ ls) = (refl, AgreeOnPrices-refl t ls)

  AgreeOnPrices-remove :
      (side : OrderAction) (p : ℤ) (t : T) (ls : List Level)
      → AllAfter side p (naive_buckets ls)
      → AgreeOnPrices prices (prices.remove p t) t ls
  AgreeOnPrices-remove side p t [] h = tt
  AgreeOnPrices-remove side p t (l ∷ ls) h = (
    rw (prices.get-remove l.price p t, after_not_eq side p l.price h.0) refl,
    AgreeOnPrices-remove side p t ls h.1,
  )

  -- The first order changes its fields.
  pub Represents-part :
      (side : OrderAction) (s : Side T) (next : Option ℕ) (b : ℕ) (price : ℤ) (c : Cell) (o : Order)
      (ds : List Cell) (ls : List Level)
      → IsSound side (level_at b price c ds ∷ ls)
      → Represents prices next s (level_at b price c ds ∷ ls)
      → (let c' = record c { order = o } in
          Represents prices next
            (store_bucket b (bucket_of (level_at b price c' ds)) (
              store_order c.pointer
                (record { order = o; next = next; prev = prev_of ds ls; bucket = b })
                s))
            (level_at b price c' ds ∷ ls))
  Represents-part side s next b price c o [] ls d h = (
    written c.pointer _ s.orders,
    written b _ s.buckets,
    h.2,
    Represents-Agree prices _ s (some c.pointer) ls
        (Agree-write c.pointer _ s.orders (pointers ls) d.orders.0)
        (Agree-write b _ s.buckets (bucket_pointers ls) d.buckets.0)
        (AgreeOnPrices-refl s.price_buckets ls) h.3,
  )
  Represents-part side s next b price c o (e ∷ es) ls d h = (
    (
      written c.pointer _ s.orders,
      AreLinked-Agree (write c.pointer _ s.orders) s.orders b (some c.pointer) e es
          (head_pointer ls)
          (Agree-write c.pointer _ s.orders (pointers_of e es)
            (All-left _ (pointers_of e es) (pointers ls) d.orders.0))
          h.0.1,
    ),
    written b _ s.buckets,
    h.2,
    Represents-Agree prices _ s (some (last_pointer e.pointer es)) ls
        (Agree-write c.pointer _ s.orders (pointers ls)
          (All-right _ (pointers_of e es) (pointers ls) d.orders.0))
        (Agree-write b _ s.buckets (bucket_pointers ls) d.buckets.0)
        (AgreeOnPrices-refl s.price_buckets ls) h.3,
  )

  -- The first order goes, and others stay in its bucket.
  pub Represents-next :
      (side : OrderAction) (s : Side T) (next : Option ℕ) (b : ℕ) (price : ℤ) (c e : Cell)
      (m : DirectOrder) (es : List Cell) (ls : List Level)
      → IsSound side (level_at b price c (e ∷ es) ∷ ls)
      → Represents prices next s (level_at b price c (e ∷ es) ∷ ls)
      → Represents prices
          (some c.pointer)
          (free_order c.pointer
            (store_bucket b (bucket_of (level_at b price e es)) (store_order c.pointer m s)))
          (level_at b price e es ∷ ls)
  Represents-next side s next b price c e m es ls d h = (
    AreLinked-Agree (write c.pointer none (write c.pointer (some m) s.orders)) s.orders b
        (some c.pointer) e es (head_pointer ls)
        (Agree-write2 c.pointer none (some m) s.orders (pointers_of e es)
          (All-left _ (pointers_of e es) (pointers ls) d.orders.0))
        h.0.1,
    written b _ s.buckets,
    h.2,
    Represents-Agree prices _ s (some (last_pointer e.pointer es)) ls
        (Agree-write2 c.pointer none (some m) s.orders (pointers ls)
          (All-right _ (pointers_of e es) (pointers ls) d.orders.0))
        (Agree-write b _ s.buckets (bucket_pointers ls) d.buckets.0)
        (AgreeOnPrices-refl s.price_buckets ls) h.3,
  )

  -- The only order of a bucket goes with its bucket.
  pub Represents-last :
      (side : OrderAction) (s : Side T) (next : Option ℕ) (b : ℕ) (price : ℤ) (c : Cell)
      (m : DirectOrder) (x : Bucket) (ls : List Level) (q : ℤ)
      → q ≡ price
      → IsSound side (level_at b price c [] ∷ ls)
      → Represents prices next s (level_at b price c [] ∷ ls)
      → Represents prices
          (some c.pointer)
          (free_order c.pointer (
            free_bucket b (record (store_bucket b x (store_order c.pointer m s)) {
              price_buckets = prices.remove q s.price_buckets;
            })))
          ls
  Represents-last side s next b price c m x ls q e d h =
      Represents-Agree prices _ s (some c.pointer) ls
        (Agree-write2 c.pointer none (some m) s.orders (pointers ls) d.orders.0)
        (Agree-write2 b none (some x) s.buckets (bucket_pointers ls) d.buckets.0)
        (rw e (AgreeOnPrices-remove side price s.price_buckets ls d.valid.1.0)) h.3

  -- The first order has another order, or none, before it.
  pub Represents-relink :
      (side : OrderAction) (s : Side T) (next after : Option ℕ) (b : ℕ) (price : ℤ) (c : Cell)
      (ds : List Cell) (ls : List Level)
      → IsSound side (level_at b price c ds ∷ ls)
      → Represents prices next s (level_at b price c ds ∷ ls)
      → Represents prices after
          (store_order c.pointer
            (record { order = c.order; next = after; prev = prev_of ds ls; bucket = b })
            s)
          (level_at b price c ds ∷ ls)
  Represents-relink side s next after b price c [] ls d h = (
    written c.pointer _ s.orders,
    h.1,
    h.2,
    Represents-Agree prices _ s (some c.pointer) ls
        (Agree-write c.pointer _ s.orders (pointers ls) d.orders.0)
        (Agree-refl s.buckets (bucket_pointers ls)) (AgreeOnPrices-refl s.price_buckets ls) h.3,
  )
  Represents-relink side s next after b price c (e ∷ es) ls d h = (
    (
      written c.pointer _ s.orders,
      AreLinked-Agree (write c.pointer _ s.orders) s.orders b (some c.pointer) e es
          (head_pointer ls)
          (Agree-write c.pointer _ s.orders (pointers_of e es)
            (All-left _ (pointers_of e es) (pointers ls) d.orders.0))
          h.0.1,
    ),
    h.1,
    h.2,
    Represents-Agree prices _ s (some (last_pointer e.pointer es)) ls
        (Agree-write c.pointer _ s.orders (pointers ls)
          (All-right _ (pointers_of e es) (pointers ls) d.orders.0))
        (Agree-refl s.buckets (bucket_pointers ls)) (AgreeOnPrices-refl s.price_buckets ls) h.3,
  )

  -- The best order is no part of what the levels are.
  pub Represents-best :
      (s : Side T) (next best : Option ℕ) (ls : List Level)
      → Represents prices next s ls
      → Represents prices next (record s { best_order = best }) ls
  Represents-best s next best ls h =
      Represents-Agree prices (record s { best_order = best }) s next ls
        (Agree-refl s.orders (pointers ls)) (Agree-refl s.buckets (bucket_pointers ls))
        (AgreeOnPrices-refl s.price_buckets ls) h
