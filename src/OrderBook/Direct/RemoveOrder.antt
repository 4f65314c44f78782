-- ===== src/OrderBook/Direct/RemoveOrder.antt =====
-- OrderBookDirectImpl.cpp: the levels around an order of a sound side, and `RemoveOrder` of it.
use exchange_cpp.Base.{
  ℕ, false, Option, none, some, List, [], ◌∷◌, ◌++◌, ◌≡◌, refl, All, ◌∙◌, sym, ap, subst, arith,
}
use exchange_cpp.Base.Int.{ℤ, ◌==ℤ◌}
use exchange_cpp.Common.{Order, OrderAction}
use exchange_cpp.OrderBook.Levels.Map.{IsBucketValid, IsPlaced, IsSorted, AllAfter}
use exchange_cpp.OrderBook.PriceMap.{PriceMap}
use exchange_cpp.OrderBook.Direct.{Side, remove_order}
use exchange_cpp.OrderBook.Direct.Chain.{
  Cell, Level, head_pointer, orders_of, pointers_in, bucket_pointers, naive_buckets, IsNew,
  AreDistinct, Represents, All-left, AreDistinct-right,
}
use exchange_cpp.OrderBook.Direct.Represents.{IsSound, level_at, after_not_eq}
use exchange_cpp.OrderBook.Direct.Segments.{
  node_pointers, head_or, last_or, IsSegment, IsSegment-split, AreDistinct-left, AreDistinct-IsNew,
}
use exchange_cpp.OrderBook.Direct.Flat.{
  node_at, nodes_in, nodes, level_of, nodes-parts, node_pointers-nodes, node_pointers-nodes_in,
  node_pointers-append, head_or-nodes, AreBuckets, Represents-IsSegment, IsSegment-Represents,
}
use exchange_cpp.OrderBook.Direct.BucketLeft.{Around, IsMapLeft, leave_bucket-Left}
use exchange_cpp.OrderBook.Direct.ChainLeft.{
  in_front, behind, leaves_bucket-in_front, remove_order-Removed,
}

bucket_pointers-append :
    (xs ys : List Level) → bucket_pointers (xs ++ ys) ≡ bucket_pointers xs ++ bucket_pointers ys
bucket_pointers-append [] ys = refl
bucket_pointers-append (x ∷ xs) ys = ap (λ t. x.bucket ∷ t) (bucket_pointers-append xs ys)

pub All-before : (P : Level → Type 0) (xs ys : List Level) → All P (xs ++ ys) → All P xs × All P ys
All-before P [] ys h = (tt, h)
All-before P (x ∷ xs) ys h = let rest = All-before P xs ys h.1 in ((h.0, rest.0), rest.1)

==ℤ_false_sym : (p q : ℤ) → (p ==ℤ q) ≡ false → (q ==ℤ p) ≡ false
==ℤ_false_sym p q h = ground arith

prices_after :
    (side : OrderAction) (p : ℤ) (ls : List Level)
    → AllAfter side p (naive_buckets ls)
    → All (λ (l : Level). (l.price ==ℤ p) ≡ false) ls
prices_after side p [] h = tt
prices_after side p (l ∷ ls) h = (after_not_eq side p l.price h.0, prices_after side p ls h.1)

-- In sorted levels no other level has the price.
prices_apart :
    (side : OrderAction) (front : List Level) (l : Level) (after : List Level)
    → IsSorted side (naive_buckets (front ++ l ∷ after))
    → All (λ (m : Level). (m.price ==ℤ l.price) ≡ false) front
      × All (λ (m : Level). (m.price ==ℤ l.price) ≡ false) after
prices_apart side [] l after h = (tt, prices_after side l.price after h.0)
prices_apart side (m ∷ front) l after h =
    let rest = prices_apart side front l after h.1 in
    let later =
      All-before _ front (l ∷ after) (prices_after side m.price (front ++ l ∷ after) h.0) in
    ((==ℤ_false_sym l.price m.price later.1.0, rest.0), rest.1)

valid_level :
    (side : OrderAction) (front : List Level) (l : Level) (after : List Level)
    → All (IsBucketValid side) (naive_buckets (front ++ l ∷ after))
    → All (λ (o : Order). o.price ≡ l.price) (l.first.order ∷ orders_of l.others)
valid_level side [] l after h = at_price (l.first.order ∷ orders_of l.others) h.0.placed
  where
    at_price :
        (os : List Order)
        → All (IsPlaced side l.price) os
        → All (λ (o : Order). o.price ≡ l.price) os
    at_price [] k = tt
    at_price (o ∷ os) k = (k.0.2, at_price os k.1)
valid_level side (m ∷ front) l after h = valid_level side front l after h.1

order_among :
    (P : Order → Type 0) (xs : List Cell) (c : Cell) (ys : List Cell)
    → All P (orders_of (xs ++ c ∷ ys))
    → P c.order
order_among P [] c ys h = h.0
order_among P (x ∷ xs) c ys h = order_among P xs c ys h.1

module _ {T : Type 0} (prices : PriceMap T) (side : OrderAction) (s : Side T) where
  -- What stands around an order of sound levels.
  pub around-IsSound :
      (front : List Level) (b : ℕ) (price : ℤ) (f : Cell) (cs : List Cell) (after : List Level)
      (xs : List Cell) (c : Cell) (ys : List Cell) (next prev : Option ℕ)
      → f ∷ cs ≡ xs ++ c ∷ ys
      → IsSound side (front ++ level_at b price f cs ∷ after)
      → AreBuckets prices s (front ++ level_at b price f cs ∷ after)
      → Around prices s front after b price c next prev
  around-IsSound front b price f cs after xs c ys next prev e d h =
      let l = level_at b price f cs in
      let parts = All-before _ front (l ∷ after) h in
      let distinct : AreDistinct (bucket_pointers front ++ b ∷ bucket_pointers after) =
        subst AreDistinct (bucket_pointers-append front (l ∷ after)) d.buckets in
      let apart = prices_apart side front l after d.valid.1 in
      record {
        front = parts.0;
        behind = parts.1.1;
        new_front = AreDistinct-IsNew (bucket_pointers front) b (bucket_pointers after) distinct;
        new_behind =
            (AreDistinct-right (bucket_pointers front) (b ∷ bucket_pointers after) distinct).0;
        price_front = apart.0;
        price_behind = apart.1;
        at_price =
            order_among (λ o. o.price ≡ price) xs c ys
              (subst (λ cells. All (λ (o : Order). o.price ≡ price) (orders_of cells)) e
                (valid_level side front l after d.valid.0));
      }

  -- What `RemoveOrder` of the order of a pointer leaves, where the cells `stay` are what its bucket `b`
  -- keeps, and `rest` are the levels.
  abbrev pub Removes : ℕ → ℕ → ℤ → List Cell → List Level → Type 0
  Removes p b price stay rest =
      (s' : Side T) × (freed : Option ℕ) × (remove_order prices p s ≡ some (s', freed))
      × (s'.best_order ≡ head_pointer rest)
      × IsMapLeft prices b price stay s.price_buckets s'.price_buckets freed
      × Represents prices none s' rest

  removes :
      (front : List Level) (b : ℕ) (price : ℤ) (f : Cell) (cs : List Cell) (after : List Level)
      (xs : List Cell) (c : Cell) (ys : List Cell)
      → f ∷ cs ≡ xs ++ c ∷ ys
      → s.best_order ≡ head_pointer (front ++ level_at b price f cs ∷ after)
      → Represents prices none s (front ++ level_at b price f cs ∷ after)
      → IsSound side (front ++ level_at b price f cs ∷ after)
      → Removes c.pointer b price (xs ++ ys) (front ++ (level_of b price (xs ++ ys) ++ after))
  removes front b price f cs after xs c ys e best chain d =
      let ls = front ++ level_at b price f cs ∷ after in
      let rest = front ++ (level_of b price (xs ++ ys) ++ after) in
      let n = node_at b c in
      let a = in_front prices front b xs in
      let z = behind prices b ys after in
      let parted : nodes ls ≡ a ++ n ∷ z =
        subst (λ cells. nodes (front ++ (level_of b price cells ++ after)) ≡ a ++ n ∷ z) (sym e)
          (nodes-parts front b price xs (c ∷ ys) after) in
      let rep = Represents-IsSegment prices s none ls chain in
      let segment = subst (λ ns. IsSegment s.orders none ns none) parted rep.0 in
      let distinct : AreDistinct (node_pointers a ++ node_pointers (n ∷ z)) =
        subst AreDistinct
          (sym (node_pointers-nodes ls) ∙ ap node_pointers parted ∙ node_pointers-append a (n ∷ z))
          d.orders in
      let first : s.best_order ≡ head_or (a ++ n ∷ z) none =
        best ∙ sym (head_or-nodes ls) ∙ ap (λ ns. head_or ns none) parted in
      let around =
        around-IsSound front b price f cs after xs c ys (last_or none a) (head_or z none) e d
          rep.1 in
      let own =
        subst (λ cells. AreBuckets prices s (level_of b price cells)) e
          ((All-before _ front (level_at b price f cs ∷ after) rep.1).1.0, tt) in
      let leaves =
        leaves_bucket-in_front prices s front b xs (some c.pointer) around.new_front
          (AreDistinct-left (node_pointers a) (node_pointers (n ∷ z)) distinct)
          (IsSegment-split s.orders none a (n ∷ z) none segment).0 in
      let alone = All-left _ (pointers_in ys) (node_pointers (nodes after)) (
        subst (IsNew c.pointer)
          (node_pointers-append (nodes_in b ys) (nodes after)
            ∙ ap (λ ps. ps ++ node_pointers (nodes after)) (node_pointers-nodes_in b ys))
          (AreDistinct-right (node_pointers a) (node_pointers (n ∷ z)) distinct).0) in
      let left =
        leave_bucket-Left prices s front after b price c (last_or none a) (head_or z none) xs ys
          around own leaves.0 leaves.1 alone in
      let gone =
        remove_order-Removed prices s a n z left.buckets left.price_buckets left.freed distinct
          segment first left.returns in
      let joined = nodes-parts front b price xs ys after in
      (
        record {
          price_buckets = left.price_buckets;
          best_order = head_or (a ++ z) none;
          orders = gone.orders;
          buckets = left.buckets;
        },
        left.freed,
        gone.returns,
        ap (λ ns. head_or ns none) (sym joined) ∙ head_or-nodes rest,
        left.map,
        IsSegment-Represents prices _ none rest
            (subst (λ ns. IsSegment gone.orders none ns none) (sym joined) gone.chain) left.kept,
      )

  -- On a side that represents sound levels, with its best order at their head, RemoveOrder of any
  -- order of any level returns, without a dangling pointer, a side with the best order and the
  -- objects of the same levels without that order: the neighbours in the chain, also those of other
  -- levels, are linked to each other, volume, count and tail of the bucket are those of the orders
  -- that stay. If no order of its bucket stays, its price, and no other, is gone from the map of
  -- prices and the bucket is handed back; else the map is as it was.
  pub remove_order-Removes :
      (front : List Level) (b : ℕ) (price : ℤ) (xs : List Cell) (c : Cell) (ys : List Cell)
      (after : List Level)
      → s.best_order ≡ head_pointer (front ++ (level_of b price (xs ++ c ∷ ys) ++ after))
      → Represents prices none s (front ++ (level_of b price (xs ++ c ∷ ys) ++ after))
      → IsSound side (front ++ (level_of b price (xs ++ c ∷ ys) ++ after))
      → Removes c.pointer b price (xs ++ ys) (front ++ (level_of b price (xs ++ ys) ++ after))
  remove_order-Removes front b price [] c ys after best chain d =
      removes front b price c ys after [] c ys refl best chain d
  remove_order-Removes front b price (x ∷ xs) c ys after best chain d =
      removes front b price x (xs ++ c ∷ ys) after (x ∷ xs) c ys refl best chain d
