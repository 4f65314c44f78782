-- ===== src/OrderBook/Change/Removal.antt =====
-- A book without one of its orders.
use exchange_cpp.Base.{
  ℕ, List, [], ◌∷◌, true, false, Option, none, some, ◌≡◌, inl, inr, arith, Bool-cases,
  if◌then◌else◌, ◌∙◌, ◌==◌,
}
use exchange_cpp.Base.Int.{ℤ, pos, ◌==ℤ◌}
use exchange_cpp.Common.{Order, OrderAction, ask, bid}
use exchange_cpp.OrderBook.Bucket.{OrdersBucket, find_by_id}
use exchange_cpp.OrderBook.Levels.{find_bucket, erase_bucket, should_continue}
use exchange_cpp.OrderBook.Levels.Map.{holds, AreValid, find_bucket-All}
use exchange_cpp.OrderBook.Levels.Removing.{
  side_without, bucket_without, remove-bucket_without, side_without-AreValid, holds-side_without,
}
use exchange_cpp.OrderBook.Levels.Exhausted.{IsOutside}
use exchange_cpp.OrderBook.Book.{OrderBook, ok, buckets_by_action, with_buckets}
use exchange_cpp.OrderBook.Book.Wf.{
  HasValidSides, IsIndexed, IsUncrossed, points, points-eq, same_action,
}
use exchange_cpp.OrderBook.Book.Uncrossed.{AllPrices, set_bucket-AllPrices, asks_apart}
use exchange_cpp.OrderBook.Change.{remove_from_bucket}

-- The book after `remove_from_bucket` of an order in its bucket.
abbrev pub book_without : Order → OrdersBucket → OrderBook → OrderBook
book_without o b book =
    with_buckets o.action (side_without o.action o b (buckets_by_action o.action book)) book

-- An order in its bucket is removed without a fault.
pub remove_from_bucket_lem :
    (o : Order) (uid : ℕ) (b : OrdersBucket) (book : OrderBook)
    → find_bucket o.price (buckets_by_action o.action book) ≡ some b
    → find_by_id o.order_id b.orders ≡ some o
    → o.uid ≡ uid
    → remove_from_bucket o uid book ≡ ok (book_without o b book)
unfolding remove_from_bucket
remove_from_bucket_lem o uid b book found inside mine =
    rw (found, remove_from_bucket, remove-bucket_without o uid b inside mine)

erase_bucket-AllPrices {ℓ} :
    (P : ℤ → Type ℓ) (p : ℤ) (bs : List OrdersBucket)
    → AllPrices P bs
    → AllPrices P (erase_bucket p bs)
unfolding erase_bucket
erase_bucket-AllPrices P p [] h = tt
erase_bucket-AllPrices P p (x ∷ bs) h = elim (Bool-cases (p ==ℤ x.price)) [
  | inl hit ↦ rw hit h.1
  | inr miss ↦ rw miss (h.0, erase_bucket-AllPrices P p bs h.1)
]

find_bucket-AllPrices {ℓ} :
    (P : ℤ → Type ℓ) (p : ℤ) (b : OrdersBucket) (bs : List OrdersBucket)
    → AllPrices P bs
    → find_bucket p bs ≡ some b
    → P b.price
find_bucket-AllPrices P p b bs h e = find_bucket-All (λ x. P x.price) p b bs h e

side_without-AllPrices {ℓ} :
    (P : ℤ → Type ℓ) (side : OrderAction) (o : Order) (b : OrdersBucket) (bs : List OrdersBucket)
    → find_bucket o.price bs ≡ some b
    → AllPrices P bs
    → AllPrices P (side_without side o b bs)
side_without-AllPrices P side o b bs e h =
    elim (Bool-cases ((bucket_without o b).total_volume ==ℤ pos 0)) [
      | inl used ↦ rw used (erase_bucket-AllPrices P o.price bs h)
      | inr left ↦ rw left (
          set_bucket-AllPrices P side (bucket_without o b) bs
            (find_bucket-AllPrices P o.price b bs h e) h)
    ]

module _ (f : ℕ → Option (OrderAction × ℤ)) (o : Order) (b : OrdersBucket) (book : OrderBook)
    (v : HasValidSides book)
    (found : find_bucket o.price (buckets_by_action o.action book) ≡ some b)
    (inside : find_by_id o.order_id b.orders ≡ some o) where
  pub book_without-HasValidSides : HasValidSides (book_without o b book)
  book_without-HasValidSides s = go o.action s found
    where
      go :
          (a t : OrderAction)
          → find_bucket o.price (buckets_by_action a book) ≡ some b
          → AreValid t (
              buckets_by_action t
                (with_buckets a (side_without a o b (buckets_by_action a book)) book))
      go ask ask e = side_without-AreValid ask o b book.ask_buckets (v ask) e inside
      go ask bid e = v bid
      go bid ask e = v ask
      go bid bid e = side_without-AreValid bid o b book.bid_buckets (v bid) e inside

  pub book_without-IsUncrossed : IsUncrossed book → IsUncrossed (book_without o b book)
  book_without-IsUncrossed u = go o.action found
    where
      go :
          (a : OrderAction)
          → find_bucket o.price (buckets_by_action a book) ≡ some b
          → IsUncrossed (with_buckets a (side_without a o b (buckets_by_action a book)) book)
      go ask e =
          asks_apart book.ask_buckets _
            (λ p h.
              side_without-AllPrices (λ q. should_continue bid p q ≡ false) ask o b book.ask_buckets
                e h)
            book.bid_buckets u
      go bid e =
          side_without-AllPrices (λ p. IsOutside bid p book.ask_buckets) bid o b book.bid_buckets e
            u

  held_here : holds o.order_id o.price (buckets_by_action o.action book) ≡ true
  held_here = ground arith

  -- The order's id is held at no other place.
  held_nowhere_else :
      IsIndexed f book
      → (s : OrderAction) (p : ℤ) → holds o.order_id p (buckets_by_action s book) ≡ true
      → (same_action o.action s ≡ true) × ((o.price ==ℤ p) ≡ true)
  held_nowhere_else ix s p h =
      points-eq o.action s o.price p (f o.order_id) (ix o.order_id o.action o.price ∙ held_here)
        (ix o.order_id s p ∙ h)

  -- The index without the order's id.
  abbrev pub forgotten : ℕ → Option (OrderAction × ℤ)
  forgotten k = if k == o.order_id then none else f k

  pub book_without-IsIndexed : IsIndexed f book → IsIndexed forgotten (book_without o b book)
  book_without-IsIndexed ix k s p = go o.action s found (held_nowhere_else ix s p)
    where
      go :
          (a t : OrderAction)
          → find_bucket o.price (buckets_by_action a book) ≡ some b
          → (holds o.order_id p (buckets_by_action t book) ≡ true
              → (same_action a t ≡ true) × ((o.price ==ℤ p) ≡ true))
          → points t p (forgotten k)
            ≡ holds k p (
                buckets_by_action t
                  (with_buckets a (side_without a o b (buckets_by_action a book)) book))
      go ask ask e only = ground (
        arith,
        ix k ask p,
        ix o.order_id ask p,
        holds-side_without ask o b book.ask_buckets (v ask) e inside k p,
      )
      go ask bid e only = ground (arith, ix k bid p, ix o.order_id bid p)
      go bid ask e only = ground (arith, ix k ask p, ix o.order_id ask p)
      go bid bid e only = ground (
        arith,
        ix k bid p,
        ix o.order_id bid p,
        holds-side_without bid o b book.bid_buckets (v bid) e inside k p,
      )
