-- ===== src/OrderBook/Direct/InsertOrder.antt =====
-- OrderBookDirectImpl.cpp: `insertOrder` at a price that has a bucket.
use exchange_cpp.Base.{
  ℕ, suc, Option, none, some, List, [], ◌∷◌, ◌++◌, ◌≡◌, refl, ◌∙◌, sym, ap, subst, append_nil,
  append_assoc, length, length-append,
}
use exchange_cpp.Base.Int.{ℤ, pos, ◌+ℤ◌, ◌-ℤ◌, int_laws, parts}
use exchange_cpp.Common.{Order, OrderAction}
use exchange_cpp.OrderBook.Bucket.{calculated_volume}
use exchange_cpp.OrderBook.PriceMap.{PriceMap}
use exchange_cpp.OrderBook.Direct.{
  Bucket, Side, store_bucket, free_bucket, free_if_any, link_behind, insert_at_price, insert_order,
}
use exchange_cpp.OrderBook.Direct.Chain.{
  Cell, Level, last_pointer, head_pointer, orders_of, pointers, bucket_pointers, bucket_of, IsNew,
  AreDistinct, Represents, Represents-Agree, Agree-write, All-left, All-right,
}
use exchange_cpp.OrderBook.Direct.Represents.{IsSound, level_at, Agree-refl, AgreeOnPrices-refl}
use exchange_cpp.OrderBook.Direct.Segments.{node_pointers, last_or, IsSegment}
use exchange_cpp.OrderBook.Direct.Flat.{
  node_at, nodes_in, nodes, nodes-parts, nodes-append, node_pointers-nodes, node_pointers-append,
  last_or-nodes_in, Represents-IsSegment, IsSegment-Represents,
}
use exchange_cpp.OrderBook.Direct.BucketLeft.{around_level, volume_without, last_pointer_end}
use exchange_cpp.OrderBook.Direct.ChainLeft.{last_or-append}
use exchange_cpp.OrderBook.Direct.RemoveOrder.{All-before, around-IsSound}
use exchange_cpp.OrderBook.Direct.Linking.{link_behind-front}

abbrev cell_of : ℕ → Order → Cell
cell_of p o = record { pointer = p; order = o }

-- The bucket with one more order at its end.
abbrev grown : ℕ → Order → Bucket → Bucket
grown p o x = record x {
  last_order = p;
  total_volume = x.total_volume +ℤ (o.size -ℤ o.filled);
  num_orders = x.num_orders +ℤ pos 1;
}

grown-bucket_of :
    (b : ℕ) (price : ℤ) (x : Cell) (xs : List Cell) (p : ℕ) (o : Order)
    → grown p o (bucket_of (level_at b price x xs))
      ≡ bucket_of (level_at b price x (xs ++ cell_of p o ∷ []))
grown-bucket_of b price x xs p o =
    let cell = cell_of p o in
    let volume : calculated_volume (orders_of (x ∷ xs)) +ℤ (o.size -ℤ o.filled)
        ≡ calculated_volume (orders_of (x ∷ xs ++ cell ∷ [])) =
      omega (
        int_laws,
        parts (
            volume_without (x ∷ xs) cell []
            ∙ ap (λ cs. calculated_volume (orders_of (x ∷ cs))) (append_nil xs)),
      ) in
    let count : pos (suc (length xs)) +ℤ pos 1 ≡ pos (suc (length (xs ++ cell ∷ []))) =
      rw (length-append xs (cell ∷ [])) (omega int_laws) in
    rw (volume, count, last_pointer_end x.pointer xs cell) refl

same_head :
    (front : List Level) (b : ℕ) (price : ℤ) (x : Cell) (xs ys : List Cell) (after : List Level)
    → head_pointer (front ++ level_at b price x xs ∷ after)
      ≡ head_pointer (front ++ level_at b price x ys ∷ after)
same_head [] b price x xs ys after = refl
same_head (l ∷ front) b price x xs ys after = refl

module _ {T : Type 0} (prices : PriceMap T) (side : OrderAction) where
  -- What an insertion leaves.
  abbrev pub Inserts : Option (Side T) → List Level → Type 0
  Inserts out rest =
      (s' : Side T) × (out ≡ some s')
      × (s'.best_order ≡ head_pointer rest)
      × Represents prices none s' rest

  append_to_level :
      (s : Side T) (front : List Level) (b : ℕ) (price : ℤ) (x : Cell) (xs : List Cell)
      (after : List Level) (p : ℕ) (o : Order)
      → s.best_order ≡ head_pointer (front ++ level_at b price x xs ∷ after)
      → Represents prices none s (front ++ level_at b price x xs ∷ after)
      → IsSound side (front ++ level_at b price x xs ∷ after)
      → IsNew p (pointers (front ++ level_at b price x xs ∷ after))
      → Inserts
          (link_behind
            (last_pointer x.pointer xs)
            p
            o
            b
            (store_bucket b (grown p o (bucket_of (level_at b price x xs))) s))
          (front ++ level_at b price x (xs ++ cell_of p o ∷ []) ∷ after)
  append_to_level s front b price x xs after p o best chain d new =
      let l = level_at b price x xs in
      let ls = front ++ l ∷ after in
      let rest = front ++ level_at b price x (xs ++ cell_of p o ∷ []) ∷ after in
      let n = node_at b (cell_of p o) in
      let a = nodes front ++ nodes_in b (x ∷ xs) in
      let z = nodes after in
      let grow = grown p o (bucket_of l) in
      let s1 = store_bucket b grow s in
      let parted : nodes ls ≡ a ++ z =
        nodes-append front (l ∷ after) ∙ sym (append_assoc (nodes front) (nodes_in b (x ∷ xs)) z) in
      let joined : nodes rest ≡ a ++ n ∷ z =
        nodes-parts front b price (x ∷ xs) (cell_of p o ∷ []) after in
      let split : pointers ls ≡ node_pointers a ++ node_pointers z =
        sym (node_pointers-nodes ls) ∙ ap node_pointers parted ∙ node_pointers-append a z in
      let fresh = subst (IsNew p) split new in
      let rep = Represents-IsSegment prices s none ls chain in
      let own = (All-before _ front (l ∷ after) rep.1).1.0 in
      let around =
        around-IsSound prices side s front b price x xs after [] x xs none none refl d rep.1 in
      let tail : last_or none a ≡ some (last_pointer x.pointer xs) =
        last_or-append none (nodes front) (nodes_in b (x ∷ xs))
        ∙ last_or-nodes_in b (last_or none (nodes front)) x xs in
      let linked =
        link_behind-front s1 (last_pointer x.pointer xs) a z n tail
          (subst AreDistinct split d.orders) (All-left _ (node_pointers a) (node_pointers z) fresh)
          (All-right _ (node_pointers a) (node_pointers z) fresh)
          (subst (λ ns. IsSegment s.orders none ns none) parted rep.0) in
      (
        record s1 { orders = linked.orders },
        linked.returns,
        best ∙ same_head front b price x xs (xs ++ cell_of p o ∷ []) after,
        IsSegment-Represents prices _ none rest
            (subst (λ ns. IsSegment linked.orders none ns none) (sym joined) linked.chain)
            (around_level prices s front after b price x none none grow x (xs ++ cell_of p o ∷ [])
              around (grown-bucket_of b price x xs p o) own.1),
      )

  -- A free bucket is none of the buckets of these levels.
  abbrev pub IsFree : Option ℕ → List Level → Type 0
  IsFree none ls = Unit
  IsFree (some f) ls = IsNew f (bucket_pointers ls)

  Represents-free_if_any :
      (s : Side T) (free : Option ℕ) (ls : List Level)
      → IsFree free ls
      → Represents prices none s ls
      → Represents prices none (free_if_any free s) ls
  Represents-free_if_any s none ls n h = h
  Represents-free_if_any s (some f) ls n h =
      Represents-Agree prices (free_bucket f s) s none ls (Agree-refl s.orders (pointers ls))
        (Agree-write f none s.buckets (bucket_pointers ls) n)
        (AgreeOnPrices-refl prices s.price_buckets ls) h

  best-free_if_any : (s : Side T) (free : Option ℕ) → (free_if_any free s).best_order ≡ s.best_order
  best-free_if_any s none = refl
  best-free_if_any s (some f) = refl

  -- On a side that represents sound levels, with its best order at their head, insertOrder of an
  -- object that is not in use, at the price of a level and with no free bucket or one that is not
  -- in use, returns, without a dangling pointer, a side with the same levels and the order as the
  -- last one of that level, with volume, count and tail of the bucket to match.
  pub insert_order-Inserts :
      (s : Side T) (front : List Level) (b : ℕ) (price : ℤ) (x : Cell) (xs : List Cell)
      (after : List Level) (p : ℕ) (o : Order) (free : Option ℕ) (fresh : ℕ)
      → s.best_order ≡ head_pointer (front ++ level_at b price x xs ∷ after)
      → Represents prices none s (front ++ level_at b price x xs ∷ after)
      → IsSound side (front ++ level_at b price x xs ∷ after)
      → IsNew p (pointers (front ++ level_at b price x xs ∷ after))
      → IsFree free (front ++ level_at b price x xs ∷ after)
      → o.price ≡ price
      → Inserts
          (insert_order prices p o free fresh s)
          (front ++ level_at b price x (xs ++ cell_of p o ∷ []) ∷ after)
  unfolding insert_order insert_at_price
  insert_order-Inserts s front b price x xs after p o free fresh best chain d new unused at =
      let ls = front ++ level_at b price x xs ∷ after in
      let own =
        (All-before _ front (level_at b price x xs ∷ after)
          (Represents-IsSegment prices s none ls chain).1).1.0 in
      let found = ap (λ q. prices.get q s.price_buckets) at ∙ own.1 in
      rw (found, own.0, insert_order)
        (append_to_level (free_if_any free s) front b price x xs after p o
          (best-free_if_any s free ∙ best) (Represents-free_if_any s free ls unused chain) d new)
