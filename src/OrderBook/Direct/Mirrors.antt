-- ===== src/OrderBook/Direct/Mirrors.antt =====
-- OrderBookDirectImpl.cpp: a direct book and the naive book (OrderBookNaiveImpl.cpp) of the same
-- orders, under `tryMatchInstantly`.
use exchange_cpp.Base.{
  ℕ, Bool, true, false, Option, none, some, List, [], ◌∷◌, ◌≡◌, ◌==◌, refl, inl, inr, Bool-cases,
}
use exchange_cpp.Base.Dict.{Dict, lookup, erase, lookup-erase}
use exchange_cpp.Common.{OrderAction, ask, bid}
use exchange_cpp.OrderBook.Bucket.{OrdersBucket}
use exchange_cpp.OrderBook.Levels.{RangeResult}
use exchange_cpp.OrderBook.Book.{OrderBook, buckets_by_action, with_buckets, erase_all}
use exchange_cpp.OrderBook.PriceMap.{PriceMap}
use exchange_cpp.OrderBook.Direct.{Side, DirectBook, side_of, with_side, set_next, store_order}
use exchange_cpp.OrderBook.Direct.Chain.{Level, head_pointer, naive_buckets, Represents}
use exchange_cpp.OrderBook.Direct.Represents.{
  IsSound, first_object, Represents-relink, Represents-best, prev_of,
}
use exchange_cpp.OrderBook.Direct.Matching.{Sweep, finish_sweep}

abbrev pub is_known : {A : Type 0} → Option A → Bool
is_known none = false
is_known (some a) = true

is_known-erase_all :
    {A B : Type 0} (k : ℕ) (ks : List ℕ) (d : Dict A) (e : Dict B)
    → is_known (lookup k d) ≡ is_known (lookup k e)
    → is_known (lookup k (erase_all ks d)) ≡ is_known (lookup k (erase_all ks e))
unfolding erase_all
is_known-erase_all k [] d e h = h
is_known-erase_all k (j ∷ ks) d e h =
    is_known-erase_all k ks (erase j d) (erase j e) (elim (Bool-cases (k == j)) [
      | inl hit ↦ rw (lookup-erase k j d, lookup-erase k j e, hit) refl
      | inr miss ↦ rw (lookup-erase k j d, lookup-erase k j e, miss) h
    ])

-- After a matching of the other side.
abbrev pub after_match : OrderAction → RangeResult → OrderBook → OrderBook
after_match other r naive = record (with_buckets other r.buckets naive) {
  id_map = erase_all r.removed_ids naive.id_map;
}

abbrev pub matched_book :
    {T : Type 0} → OrderAction → Side T → RangeResult → DirectBook T → DirectBook T
matched_book other s r book = record (with_side other s book) {
  order_id_index = erase_all r.removed_ids book.order_id_index;
}

module _ {T : Type 0} (prices : PriceMap T) where
  -- The objects of a side are the orders of these buckets.
  pub record MirrorsSide (action : OrderAction) (s : Side T) (bs : List OrdersBucket) : Type 0 where
    pub levels : List Level
    pub best : s.best_order ≡ head_pointer levels
    pub chain : Represents prices none s levels
    pub sound : IsSound action levels
    pub buckets : naive_buckets levels ≡ bs

  -- The two books hold the same orders in the same places, and know the same ids.
  pub record Mirrors (book : DirectBook T) (naive : OrderBook) : Type 0 where
    pub sides :
        (action : OrderAction)
        → MirrorsSide action (side_of action book) (buckets_by_action action naive)
    pub ids : (k : ℕ) → is_known (lookup k book.order_id_index) ≡ is_known (lookup k naive.id_map)
    pub same_spec : book.symbol_spec ≡ naive.symbol_spec

  -- What is left after the loop is a side of its own.
  pub finish_sweep-MirrorsSide :
      (action : OrderAction) (w : Sweep T) (next : Option ℕ) (ls : List Level)
      → w.maker_order ≡ head_pointer ls
      → Represents prices next w.side ls
      → IsSound action ls
      → (s : Side T) × (finish_sweep prices w ≡ some s) × MirrorsSide action s (naive_buckets ls)
  unfolding finish_sweep set_next
  finish_sweep-MirrorsSide action w next [] m rep d = (
    record w.side { best_order = none },
    rw m refl,
    record { levels = []; best = refl; chain = tt; sound = d; buckets = refl },
  )
  finish_sweep-MirrorsSide action w next (l ∷ ls) m rep d = (
    record (store_order l.first.pointer
        (record {
          order = l.first.order;
          next = none;
          prev = prev_of l.others ls;
          bucket = l.bucket;
        })
        w.side) { best_order = some l.first.pointer },
    rw (m, first_object w.side.orders l.bucket next l.first l.others ls rep.0) refl,
    record {
      levels = l ∷ ls;
      best = refl;
      chain = Represents-best prices _ none (some l.first.pointer) (l ∷ ls) (
          Represents-relink prices action w.side next none l.bucket l.price l.first l.others ls d
            rep);
      sound = d;
      buckets = refl;
    },
  )

  MirrorsSide-after :
      (other action : OrderAction) (book : DirectBook T) (naive : OrderBook) (s : Side T)
      (r : RangeResult)
      → Mirrors book naive
      → MirrorsSide other s r.buckets
      → MirrorsSide action
          (side_of action (matched_book other s r book))
          (buckets_by_action action (after_match other r naive))
  MirrorsSide-after ask ask book naive s r m side = side
  MirrorsSide-after ask bid book naive s r m side = m.sides bid
  MirrorsSide-after bid ask book naive s r m side = m.sides ask
  MirrorsSide-after bid bid book naive s r m side = side

  pub Mirrors-after_match :
      (other : OrderAction) (book : DirectBook T) (naive : OrderBook) (s : Side T) (r : RangeResult)
      → Mirrors book naive
      → MirrorsSide other s r.buckets
      → Mirrors (matched_book other s r book) (after_match other r naive)
  Mirrors-after_match other book naive s r m side = record {
    sides = λ action. MirrorsSide-after other action book naive s r m side;
    ids = λ k. is_known-erase_all k r.removed_ids book.order_id_index naive.id_map (m.ids k);
    same_spec = same_spec_after other;
  }
    where
      same_spec_after :
          (a : OrderAction)
          → (with_side a s book).symbol_spec ≡ (with_buckets a r.buckets naive).symbol_spec
      same_spec_after ask = m.same_spec
      same_spec_after bid = m.same_spec
