-- ===== src/OrderBook/Book/Uncrossed.antt =====
-- The two sides of a book under TryMatchInstantly and the placing of an order (OrderBookNaiveImpl.cpp).
use exchange_cpp.Base.{
  ℕ, ◌∷◌, [], List, Bool, false, Option, none, some, ◌≡◌, inl, inr, Bool-cases, if◌then◌else◌, ◌∙◌,
  All, ap, ◌==◌,
}
use exchange_cpp.Base.Dict.{lookup, insert, lookup-insert}
use exchange_cpp.Base.Int.{ℤ, pos, ◌+ℤ◌, ◌-ℤ◌, ◌==ℤ◌, ==ℤ_eq}
use exchange_cpp.Common.{Order, OrderAction, ask, bid, opposite, OrderCommand}
use exchange_cpp.OrderBook.Bucket.{OrdersBucket, match_orders, matched_bucket, put}
use exchange_cpp.OrderBook.Levels.{
  match_range, place, set_bucket, bucket_or_new, should_continue, before,
}
use exchange_cpp.OrderBook.Levels.Map.{IsPlaced}
use exchange_cpp.OrderBook.Levels.Placing.{put-price}
use exchange_cpp.OrderBook.Levels.Exhausted.{IsOutside}
use exchange_cpp.OrderBook.Book.{
  OrderBook, buckets_by_action, with_buckets, try_match_instantly, place_order,
}
use exchange_cpp.OrderBook.Book.Wf.{IsWellFormed, IsUncrossed, HasValidSides, points, IsIndexed}
use exchange_cpp.OrderBook.Book.Steps.{
  try_match_instantly-HasValidSides, try_match_instantly-IsIndexed, lookup-try_match_instantly,
  place_order-HasValidSides, place_order-IsIndexed, with_place,
}

-- A property of every price of a side.
abbrev pub AllPrices {ℓ} : (ℤ → Type ℓ) → List OrdersBucket → Type ℓ
AllPrices P bs = All (λ b. P b.price) bs

pub match_range-AllPrices {ℓ} :
    (P : ℤ → Type ℓ) (continues : ℤ → Bool) (size r filled : ℤ) (bs : List OrdersBucket)
    → AllPrices P bs
    → AllPrices P (match_range continues size r filled bs).buckets
unfolding match_range matched_bucket
match_range-AllPrices P continues size r filled [] h = tt
match_range-AllPrices P continues size r filled (b ∷ bs) h =
    let m = match_orders r (size -ℤ filled) b.orders in
    let ih = match_range-AllPrices P continues size r (filled +ℤ m.volume) bs h.1 in
    elim (Bool-cases (continues b.price)) [
      | inl more ↦ rw more (elim (Bool-cases ((b.total_volume -ℤ m.volume) ==ℤ pos 0)) [
        | inl used ↦ rw used ih
        | inr left ↦ rw left (h.0, ih)
      ])
      | inr done ↦ rw done h
    ]

pub set_bucket-AllPrices {ℓ} :
    (P : ℤ → Type ℓ) (side : OrderAction) (b : OrdersBucket) (bs : List OrdersBucket)
    → P b.price
    → AllPrices P bs
    → AllPrices P (set_bucket side b bs)
unfolding set_bucket
set_bucket-AllPrices P side b [] p h = (p, tt)
set_bucket-AllPrices P side b (x ∷ xs) p h = elim (Bool-cases (b.price ==ℤ x.price)) [
  | inl hit ↦ rw hit (p, h.1)
  | inr miss ↦ rw miss (elim (Bool-cases (before side b.price x.price)) [
    | inl first ↦ rw first (p, h)
    | inr later ↦ rw later (h.0, set_bucket-AllPrices P side b xs p h.1)
  ])
]

place-AllPrices {ℓ} :
    (P : ℤ → Type ℓ) (o : Order) (side : OrderAction) (bs : List OrdersBucket)
    → P o.price
    → AllPrices P bs
    → AllPrices P (place side o bs)
unfolding place
place-AllPrices P o side bs p h =
    set_bucket-AllPrices P side (put o (bucket_or_new o.price bs)) bs
      (rw (==ℤ_eq o.price _ (put-price o bs)) at p) h

-- Asks that change keep apart from the bids, if every price that comes in does.
pub asks_apart :
    (asks asks' : List OrdersBucket)
    → ((p : ℤ) → IsOutside bid p asks → IsOutside bid p asks')
    → (bids : List OrdersBucket) → AllPrices (λ p. IsOutside bid p asks) bids
    → AllPrices (λ p. IsOutside bid p asks') bids
asks_apart asks asks' f [] h = tt
asks_apart asks asks' f (b ∷ bids) h = (f b.price h.0, asks_apart asks asks' f bids h.1)

module _ (continues : ℤ → Bool) (size r filled : ℤ) where
  pub try_match_instantly-IsUncrossed :
      (action : OrderAction) (book : OrderBook) (cmd : OrderCommand)
      → IsUncrossed book
      → IsUncrossed (try_match_instantly action continues size r filled book cmd).1
  unfolding try_match_instantly
  try_match_instantly-IsUncrossed ask book cmd u =
      match_range-AllPrices (λ p. IsOutside bid p book.ask_buckets) continues size r filled
        book.bid_buckets u
  try_match_instantly-IsUncrossed bid book cmd u =
      asks_apart book.ask_buckets _
        (λ p h.
          match_range-AllPrices (λ q. should_continue bid p q ≡ false) continues size r filled
            book.ask_buckets h)
        book.bid_buckets u

  -- The matching keeps a book well-formed.
  pub try_match_instantly-IsWellFormed :
      (action : OrderAction) (book : OrderBook) (cmd : OrderCommand)
      → IsWellFormed book
      → IsWellFormed (try_match_instantly action continues size r filled book cmd).1
  try_match_instantly-IsWellFormed action book cmd w = record {
    sides = try_match_instantly-HasValidSides continues size r filled action book cmd w.sides;
    index = λ k s p.
        ap (points s p) (lookup-try_match_instantly continues size r filled action book cmd k)
        ∙ try_match_instantly-IsIndexed continues size r filled action (λ j. lookup j book.id_map)
            book cmd w.sides w.index k s p;
    uncrossed = try_match_instantly-IsUncrossed action book cmd w.uncrossed;
  }

-- A new ask above the bids keeps them apart.
ask_apart :
    (o : Order) (asks bids : List OrdersBucket)
    → IsOutside ask o.price bids
    → AllPrices (λ p. IsOutside bid p asks) bids
    → AllPrices (λ p. IsOutside bid p (place ask o asks)) bids
ask_apart o asks [] out u = tt
ask_apart o asks (b ∷ bids) out u = (
  place-AllPrices (λ q. should_continue bid b.price q ≡ false) o ask asks out.0 u.0,
  ask_apart o asks bids out.1 u.1,
)

place_order-IsUncrossed :
    (o : Order) (book : OrderBook)
    → IsUncrossed book
    → IsOutside o.action o.price (buckets_by_action (opposite o.action) book)
    → IsUncrossed (place_order o book)
unfolding place_order
place_order-IsUncrossed o book u out = go o.action out
  where
    go :
        (a : OrderAction)
        → IsOutside a o.price (buckets_by_action (opposite a) book)
        → IsUncrossed (record (with_buckets a (place a o (buckets_by_action a book)) book) {
          id_map = insert o.order_id (o.action, o.price) book.id_map;
        })
    go ask h = ask_apart o book.ask_buckets book.bid_buckets h u
    go bid h = place-AllPrices (λ p. IsOutside bid p book.ask_buckets) o bid book.bid_buckets h u

lookup-place_order :
    (o : Order) (book : OrderBook) (k : ℕ)
    → lookup k (place_order o book).id_map
      ≡ (if k == o.order_id then some (o.action, o.price) else lookup k book.id_map)
unfolding place_order
lookup-place_order o book k = lookup-insert k o.order_id (o.action, o.price) book.id_map

-- So does an order that is placed away from the other side, under a new id.
pub place_order-IsWellFormed :
    (f : ℕ → Option (OrderAction × ℤ)) (o : Order) (book : OrderBook)
    → HasValidSides book
    → IsIndexed f book
    → ((k : ℕ)
        → (if k == o.order_id then some (o.action, o.price) else lookup k book.id_map)
          ≡ with_place o f k)
    → f o.order_id ≡ none
    → IsUncrossed book
    → IsPlaced o.action o.price o
    → IsOutside o.action o.price (buckets_by_action (opposite o.action) book)
    → IsWellFormed (place_order o book)
place_order-IsWellFormed f o book v ix same new u p out = record {
  sides = place_order-HasValidSides f o book v ix new p;
  index = λ k s q.
      ap (points s q) (lookup-place_order o book k ∙ same k)
      ∙ place_order-IsIndexed f o book ix new k s q;
  uncrossed = place_order-IsUncrossed o book u out;
}
