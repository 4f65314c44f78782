-- ===== src/OrderBook/Direct.antt =====
-- OrderBookDirectImpl.cpp: the objects of the book, and the relinking of its chain of orders
-- (`RemoveOrder`, `insertOrder`). The orders of a side are one chain: `next` leads to the order
-- that is matched before, `prev` to the one that is matched after. An order never changes its side,
-- so the objects of a side are a store of their own; a pointer is a number, and null, a pointer to a
-- released object and fuel that is used up are `none`. What the objects' pool hands out is an
-- argument.
pub mod Matching
pub mod Commands
pub mod Queries
pub mod Chain
pub mod Stepwise
pub mod Represents
pub mod Sweeping
pub mod Swept
pub mod Refines
pub mod Loop
pub mod OneOrder
pub mod Mirrors
pub mod Agreement
pub mod Takers
pub mod Segments
pub mod Unlinking
pub mod Flat
pub mod BucketLeft
pub mod ChainLeft
pub mod RemoveOrder
pub mod Linking
pub mod InsertOrder
use exchange_cpp.Base.{ℕ, Bool, true, false, Option, none, some, List, ◌==◌, if◌then◌else◌}
use exchange_cpp.Base.Dict.{Dict}
use exchange_cpp.Base.Int.{ℤ, pos, ◌+ℤ◌, ◌-ℤ◌}
use exchange_cpp.Common.{Order, OrderAction, ask, bid, CoreSymbolSpecification}
use exchange_cpp.OrderBook.PriceMap.{PriceMap}

infixl 5 ◌>>=◌
abbrev pub ◌>>=◌ : {A B : Type 0} → Option A → (A → Option B) → Option B
none >>= f = none
some a >>= f = f a

-- `DirectOrder`: the fields of an order and its links.
pub record DirectOrder : Type 0 where
  pub order : Order
  pub next : Option ℕ
  pub prev : Option ℕ
  pub bucket : ℕ

-- `Bucket`
pub record Bucket : Type 0 where
  pub price : ℤ
  pub last_order : ℕ
  pub total_volume : ℤ
  pub num_orders : ℤ

-- One side of the book: the map of its buckets, its best order, and its objects.
pub record Side (T : Type 0) : Type 0 where
  pub price_buckets : T
  pub best_order : Option ℕ
  pub orders : ℕ → Option DirectOrder
  pub buckets : ℕ → Option Bucket

-- `orderIdIndex_` holds the side and the pointer of each order.
pub record DirectBook (T : Type 0) : Type 0 where
  pub symbol_spec : CoreSymbolSpecification
  pub asks : Side T
  pub bids : Side T
  pub order_id_index : Dict (OrderAction × ℕ)

-- A store after a write at a pointer; `none` releases the object.
abbrev pub write : {A : Type 0} → ℕ → Option A → (ℕ → Option A) → ℕ → Option A
write p v store q = if q == p then v else store q

-- Whether a pointer that may be null is this one.
abbrev pub is_pointer : Option ℕ → ℕ → Bool
is_pointer none p = false
is_pointer (some q) p = q == p

abbrev pub free_or : Option ℕ → ℕ → ℕ
free_or none fresh = fresh
free_or (some f) fresh = f

module _ {T : Type 0} where
  abbrev pub side_of : OrderAction → DirectBook T → Side T
  side_of ask book = book.asks
  side_of bid book = book.bids

  abbrev pub with_side : OrderAction → Side T → DirectBook T → DirectBook T
  with_side ask s book = record book { asks = s }
  with_side bid s book = record book { bids = s }

  abbrev pub store_order : ℕ → DirectOrder → Side T → Side T
  store_order p o s = record s { orders = write p (some o) s.orders }

  abbrev pub free_order : ℕ → Side T → Side T
  free_order p s = record s { orders = write p none s.orders }

  abbrev pub store_bucket : ℕ → Bucket → Side T → Side T
  store_bucket p b s = record s { buckets = write p (some b) s.buckets }

  abbrev pub free_bucket : ℕ → Side T → Side T
  free_bucket p s = record s { buckets = write p none s.buckets }

  -- `free_bucket` of a pointer that may be null
  abbrev pub free_if_any : Option ℕ → Side T → Side T
  free_if_any none s = s
  free_if_any (some p) s = free_bucket p s

  -- `p->next = n`, where `p` may be null
  unfoldable pub set_next : Option ℕ → Option ℕ → Side T → Option (Side T)
  set_next none n s = some s
  set_next (some p) n s = do o ← s.orders p; some (store_order p (record o { next = n }) s)

  -- `p->prev = n`, where `p` may be null
  unfoldable pub set_prev : Option ℕ → Option ℕ → Side T → Option (Side T)
  set_prev none n s = some s
  set_prev (some p) n s = do o ← s.orders p; some (store_order p (record o { prev = n }) s)

  -- The links of the neighbours of an order that goes.
  unfoldable pub unlink : Option ℕ → Option ℕ → Side T → Option (Side T)
  unfolding set_next set_prev
  unlink next prev s = do s1 ← set_prev next prev s; set_next prev next s1

  -- `next == nullptr || next->bucket != bucket`
  unfoldable pub leaves_bucket : Option ℕ → ℕ → Side T → Option Bool
  leaves_bucket none bucket s = some true
  leaves_bucket (some n) bucket s = do
    o ← s.orders n
    some (if o.bucket == bucket then false else true)

  -- An order is linked in behind the order `tail`: `tail->prev = order` and so on.
  unfoldable pub link_behind : ℕ → ℕ → Order → ℕ → Side T → Option (Side T)
  unfolding set_next
  link_behind tail p o bucket s = do
    t ← s.orders tail
    let s1 = store_order tail (record t { prev = some p }) s
    s2 ← set_next t.prev (some p) s1
    some (store_order p (record { order = o; next = some tail; prev = t.prev; bucket = bucket }) s2)

  -- An order is linked in as the best one.
  unfoldable pub link_best : ℕ → Order → ℕ → Side T → Option (Side T)
  unfolding set_next
  link_best p o bucket s = do
    s1 ← set_next s.best_order (some p) s
    some (
        store_order p (record { order = o; next = none; prev = s.best_order; bucket = bucket })
          (record s1 { best_order = some p }))

module _ {T : Type 0} (prices : PriceMap T) where
  -- The tail of a bucket goes: the bucket leaves the map, or the order before is its tail now.
  unfoldable pub drop_tail : DirectOrder → Bucket → Bool → Side T → Option (Side T × Option ℕ)
  drop_tail o b true s =
      some (record s { price_buckets = prices.remove o.order.price s.price_buckets }, some o.bucket)
  drop_tail o b false s = do
    n ← o.next
    some (store_bucket o.bucket (record b { last_order = n }) s, none)

  -- `RemoveOrder`, the part of the bucket: what it leaves, and the bucket that is no longer used.
  unfoldable pub leave_bucket : ℕ → DirectOrder → Side T → Option (Side T × Option ℕ)
  unfolding leaves_bucket drop_tail
  leave_bucket p o s = do
    b ← s.buckets o.bucket
    let b' = record b {
      total_volume = b.total_volume -ℤ (o.order.size -ℤ o.order.filled);
      num_orders = b.num_orders -ℤ pos 1;
    }
    let s' = store_bucket o.bucket b' s
    leaves ← leaves_bucket o.next o.bucket s
    if b.last_order == p then drop_tail o b' leaves s' else some (s', none)

  -- `RemoveOrder`
  unfoldable pub remove_order : ℕ → Side T → Option (Side T × Option ℕ)
  unfolding leave_bucket unlink
  remove_order p s = do
    o ← s.orders p
    r ← leave_bucket p o s
    s1 ← unlink o.next o.prev r.0
    some ((if is_pointer s1.best_order p then record s1 { best_order = o.prev } else s1), r.1)

  -- The bucket of the next better price.
  abbrev pub better_bucket : OrderAction → ℤ → T → Option ℕ
  better_bucket ask price t = prices.get_lower_value price t
  better_bucket bid price t = prices.get_higher_value price t

  -- `insertOrder` into the bucket `bp` of the price.
  unfoldable pub insert_at_price : ℕ → Order → Option ℕ → ℕ → Side T → Option (Side T)
  unfolding link_behind
  insert_at_price p o free bp s = do
    b ← s.buckets bp
    let b' = record b {
      last_order = p;
      total_volume = b.total_volume +ℤ (o.size -ℤ o.filled);
      num_orders = b.num_orders +ℤ pos 1;
    }
    link_behind b.last_order p o bp (store_bucket bp b' (free_if_any free s))

  -- An order of a new bucket `bp` is linked in behind the next better price, if there is one.
  unfoldable pub link_price : ℕ → Order → ℕ → Option ℕ → Side T → Option (Side T)
  unfolding link_behind link_best
  link_price p o bp none s = link_best p o bp s
  link_price p o bp (some lower) s = do l ← s.buckets lower; link_behind l.last_order p o bp s

  -- `insertOrder` at a new price, with the bucket `bp`.
  unfoldable pub insert_price : ℕ → Order → ℕ → Side T → Option (Side T)
  unfolding link_price
  insert_price p o bp s =
      let b : Bucket = record {
        price = o.price;
        last_order = p;
        total_volume = o.size -ℤ o.filled;
        num_orders = pos 1;
      } in
      let t = prices.put o.price bp s.price_buckets in
      link_price p o bp (better_bucket o.action o.price t)
        (store_bucket bp b (record s { price_buckets = t }))

  -- `insertOrder` of the object `p` with the fields `o`; a new bucket is the free one, if there is
  -- one, else `fresh`.
  unfoldable pub insert_order : ℕ → Order → Option ℕ → ℕ → Side T → Option (Side T)
  unfolding insert_at_price insert_price
  insert_order p o free fresh s = elim (prices.get o.price s.price_buckets) [
    | some bp ↦ insert_at_price p o free bp s
    | none ↦ insert_price p o (free_or free fresh) s
  ]
