-- ===== src/OrderBook/Change/Own.antt =====
-- What the first test of a cancel, a reduce and a move finds in a well-formed book.
use exchange_cpp.Base.{
  ℕ, List, true, Option, none, some, ◌≡◌, refl, inl, inr, arith, Bool-cases, Option-cases, ◌∙◌, sym,
  ap, ◌==◌, ==_iff,
}
use exchange_cpp.Base.Dict.{lookup}
use exchange_cpp.Base.Int.{ℤ, pos, ◌≤ℤ◌, ◌<ℤ◌, ==ℤ_eq, ==ℤ_of_eq}
use exchange_cpp.Common.{Order, OrderAction, ask, bid}
use exchange_cpp.OrderBook.Bucket.{OrdersBucket, find_by_id, find_order}
use exchange_cpp.OrderBook.Bucket.Fifo.{find_by_id-order_id, find_by_id-All}
use exchange_cpp.OrderBook.Levels.{find_bucket}
use exchange_cpp.OrderBook.Levels.Map.{
  IsPlaced, IsBucketValid, holds, find_bucket-price, find_bucket-All,
}
use exchange_cpp.OrderBook.Book.{OrderBook, Result, ok, buckets_by_action, order_at}
use exchange_cpp.OrderBook.Book.Wf.{IsWellFormed, points}
use exchange_cpp.OrderBook.Change.{find_own_order}

-- An order of this user under this id, in the bucket of its side and price.
pub record IsOwn (order_id uid : ℕ) (book : OrderBook) (o : Order) (b : OrdersBucket) : Type 0 where
  pub same_id : o.order_id ≡ order_id
  pub owner : o.uid ≡ uid
  pub bucket : find_bucket o.price (buckets_by_action o.action book) ≡ some b
  pub inside : find_by_id o.order_id b.orders ≡ some o
  pub live : (pos 0 ≤ℤ o.filled) × (o.filled <ℤ o.size)
  pub known : lookup order_id book.id_map ≡ some (o.action, o.price)

pub data FindsOwn (order_id uid : ℕ) (book : OrderBook) (r : Result (Option Order)) : Type 0 where
  nobody : r ≡ ok none → FindsOwn order_id uid book r
  own :
      (o : Order) (b : OrdersBucket)
      → r ≡ ok (some o)
      → IsOwn order_id uid book o b
      → FindsOwn order_id uid book r

points_self : (s : OrderAction) (p : ℤ) → points s p (some (s, p)) ≡ true
points_self ask p = ==ℤ_of_eq p p refl
points_self bid p = ==ℤ_of_eq p p refl

-- What an index entry points to.
abbrev HeldAt : ℕ → ℤ → List OrdersBucket → Type 0
HeldAt k p bs =
    (b : OrdersBucket) × (o : Order) × (find_bucket p bs ≡ some b)
    × (find_by_id k b.orders ≡ some o)

holds-HeldAt : (k : ℕ) (p : ℤ) (bs : List OrdersBucket) → holds k p bs ≡ true → HeldAt k p bs
holds-HeldAt k p bs h = elim (Option-cases (find_bucket p bs)) [
  | inl missing ↦ absurd (bad missing)
  | inr (b, found) ↦ elim (Option-cases (find_by_id k b.orders)) [
    | inl absent ↦ absurd (worse b found absent)
    | inr (o, inside) ↦ (b, o, found, inside)
  ]
]
  where
    bad : find_bucket p bs ≡ none → ⊥
    bad e = ground arith

    worse : (b : OrdersBucket) → find_bucket p bs ≡ some b → find_by_id k b.orders ≡ none → ⊥
    worse b e f = ground arith

found_own :
    (order_id uid : ℕ) (book : OrderBook) (s : OrderAction) (p : ℤ)
    → IsWellFormed book
    → lookup order_id book.id_map ≡ some (s, p)
    → FindsOwn order_id uid book (find_own_order order_id uid book)
unfolding find_own_order order_at find_order
found_own order_id uid book s p w e =
    let held = sym (w.index order_id s p) ∙ ap (points s p) e ∙ points_self s p in
    let (b, o, found, inside) = holds-HeldAt order_id p (buckets_by_action s book) held in
    let same = find_by_id-order_id order_id o b.orders inside in
    let v = find_bucket-All (IsBucketValid s) p b (buckets_by_action s book) (w.sides s).0 found in
    let at = find_by_id-All (IsPlaced s b.price) order_id o b.orders v.placed inside in
    let price : o.price ≡ p =
      at.2 ∙ sym (==ℤ_eq p b.price (find_bucket-price p b (buckets_by_action s book) found)) in
    elim (Bool-cases (o.uid == uid)) [
      | inl mine ↦ own o b (rw (e, find_own_order, found, order_at, inside, mine)) (record {
        same_id = same;
        owner = (==_iff o.uid uid).0 mine;
        bucket = rw (at.3, price) found;
        inside = rw same inside;
        live = (at.0, at.1);
        known = rw (at.3, price) e;
      })
      | inr other ↦ nobody (rw (e, find_own_order, found, order_at, inside, other))
    ]

-- In a well-formed book the first test of a cancel, reduce or move finds a live order of that id
-- and user in the bucket of its side and price, or no order; no pointer dangles.
pub find_own_order-FindsOwn :
    (order_id uid : ℕ) (book : OrderBook)
    → IsWellFormed book
    → FindsOwn order_id uid book (find_own_order order_id uid book)
unfolding find_own_order
find_own_order-FindsOwn order_id uid book w = elim (Option-cases (lookup order_id book.id_map)) [
  | inl unknown ↦ nobody (rw (unknown, find_own_order))
  | inr ((s, p), e) ↦ found_own order_id uid book s p w e
]
