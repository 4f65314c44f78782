-- ===== src/OrderBook/Direct/ChainLeft.antt =====
-- OrderBookDirectImpl.cpp: `RemoveOrder` on the levels of a side.
use exchange_cpp.Base.{
  ℕ, Bool, true, false, Option, none, some, List, [], ◌∷◌, ◌++◌, ◌==◌, ◌≡◌, refl, All, All-append,
  ◌∙◌, subst, ==_refl, append_nil,
}
use exchange_cpp.OrderBook.PriceMap.{PriceMap}
use exchange_cpp.OrderBook.Direct.{
  DirectOrder, Bucket, Side, leaves_bucket, leave_bucket, remove_order,
}
use exchange_cpp.OrderBook.Direct.Chain.{
  Cell, Level, bucket_pointers, IsNew, AreDistinct, AreDistinct-right,
}
use exchange_cpp.OrderBook.Direct.Segments.{
  Node, node_pointers, head_or, last_or, object_of, IsSegment, IsSegment-split, last_order,
  AreDistinct-IsNew,
}
use exchange_cpp.OrderBook.Direct.Unlinking.{unlink-Unlinked}
use exchange_cpp.OrderBook.Direct.Flat.{
  node_at, nodes_in, nodes, last_or-nodes_in, node_pointers-append,
}
use exchange_cpp.OrderBook.Direct.BucketLeft.{has_none, IsAfter}

in_bucket :
    (b q : ℕ) (cs : List Cell) (t : Bool)
    → (b == q) ≡ t
    → All (λ (n : Node). (n.bucket == q) ≡ t) (nodes_in b cs)
in_bucket b q [] t h = tt
in_bucket b q (c ∷ cs) t h = (h, in_bucket b q cs t h)

pub last_or-append :
    (next : Option ℕ) (xs ys : List Node) → last_or next (xs ++ ys) ≡ last_or (last_or next xs) ys
last_or-append next [] ys = refl
last_or-append next (x ∷ xs) ys = last_or-append (some x.pointer) xs ys

-- An order in front of all that is tested is in another bucket.
leaves_bucket-other :
    {T : Type 0} (s : Side T) (b : ℕ) (ns : List Node) (prev : Option ℕ)
    → AreDistinct (node_pointers ns)
    → IsSegment s.orders none ns prev
    → All (λ (n : Node). (n.bucket == b) ≡ false) ns
    → leaves_bucket (last_or none ns) b s ≡ some true
unfolding leaves_bucket
leaves_bucket-other s b [] prev d h o = refl
leaves_bucket-other s b (n ∷ ns) prev d h o =
    let last = last_order s.orders none n ns prev d h in
    rw (last.is_last, last.object, last.bucket_in b false o) refl

leaves_bucket-own :
    {T : Type 0} (s : Side T) (b : ℕ) (next : Option ℕ) (n : Node) (ns : List Node)
    (prev : Option ℕ)
    → AreDistinct (node_pointers (n ∷ ns))
    → IsSegment s.orders next (n ∷ ns) prev
    → All (λ (m : Node). (m.bucket == b) ≡ true) (n ∷ ns)
    → leaves_bucket (last_or next (n ∷ ns)) b s ≡ some false
unfolding leaves_bucket
leaves_bucket-own s b next n ns prev d h o =
    let last = last_order s.orders next n ns prev d h in
    rw (last.is_last, last.object, last.bucket_in b true o) refl

module _ {T : Type 0} (prices : PriceMap T) where
  -- `RemoveOrder` of an order `n` of the chain, where its bucket is left as said.
  pub record Removed (out : Option (Side T × Option ℕ)) (s : Side T) (ns : List Node)
      (buckets : ℕ → Option Bucket) (price_buckets : T) (freed : Option ℕ) : Type 0 where
    pub orders : ℕ → Option DirectOrder
    pub returns :
        out
        ≡ some (
          record {
            price_buckets = price_buckets;
            best_order = head_or ns none;
            orders = orders;
            buckets = buckets;
          },
          freed,
        )
    pub chain : IsSegment orders none ns none

  pub remove_order-Removed :
      (s : Side T) (front : List Node) (n : Node) (back : List Node) (buckets : ℕ → Option Bucket)
      (price_buckets : T) (freed : Option ℕ)
      → AreDistinct (node_pointers front ++ node_pointers (n ∷ back))
      → IsSegment s.orders none (front ++ n ∷ back) none
      → s.best_order ≡ head_or (front ++ n ∷ back) none
      → leave_bucket prices n.pointer (object_of n (last_or none front) (head_or back none)) s
        ≡ some (record s { buckets = buckets; price_buckets = price_buckets }, freed)
      → Removed (remove_order prices n.pointer s) s (front ++ back) buckets price_buckets freed
  unfolding remove_order
  remove_order-Removed s [] n back buckets t freed d h best left =
      let s1 = record s { buckets = buckets; price_buckets = t } in
      let u = unlink-Unlinked s1 [] n back d h in
      record {
        orders = u.orders;
        returns = rw (h.0, left, u.returns, best, ==_refl n.pointer) refl;
        chain = u.chain;
      }
  remove_order-Removed s (m ∷ front) n back buckets t freed d h best left =
      let s1 = record s { buckets = buckets; price_buckets = t } in
      let u = unlink-Unlinked s1 (m ∷ front) n back d h in
      let parts = IsSegment-split s.orders none (m ∷ front) (n ∷ back) none h in
      let other =
        (AreDistinct-IsNew (node_pointers (m ∷ front)) n.pointer (node_pointers back) d).0 in
      record {
        orders = u.orders;
        returns = rw (parts.1.0, left, u.returns, best, other) refl;
        chain = u.chain;
      }

  -- The chain in front of an order of a bucket, and behind it.
  abbrev pub in_front : List Level → ℕ → List Cell → List Node
  in_front before b xs = nodes before ++ nodes_in b xs

  abbrev pub behind : ℕ → List Cell → List Level → List Node
  behind b ys after = nodes_in b ys ++ nodes after

  other_bucket :
      (b : ℕ) (ls : List Level)
      → IsNew b (bucket_pointers ls)
      → All (λ (n : Node). (n.bucket == b) ≡ false) (nodes ls)
  other_bucket b [] h = tt
  other_bucket b (l ∷ ls) h =
      All-append _ (nodes_in l.bucket (l.first ∷ l.others)) (nodes ls)
        (in_bucket l.bucket b (l.first ∷ l.others) false h.0) (other_bucket b ls h.1)

  -- Where the orders in front of `c` are.
  pub leaves_bucket-in_front :
      (s : Side T) (before : List Level) (b : ℕ) (xs : List Cell) (prev : Option ℕ)
      → IsNew b (bucket_pointers before)
      → AreDistinct (node_pointers (in_front before b xs))
      → IsSegment s.orders none (in_front before b xs) prev
      → (leaves_bucket (last_or none (in_front before b xs)) b s ≡ some (has_none xs))
        × IsAfter (last_or none (in_front before b xs)) xs
  leaves_bucket-in_front s before b [] prev new d h = (
    leaves_bucket-other s b (in_front before b []) prev d h
        (rw (append_nil (nodes before)) (other_bucket b before new)),
    tt,
  )
  leaves_bucket-in_front s before b (f ∷ xs) prev new d h =
      let own = nodes_in b (f ∷ xs) in
      let at = last_or-append none (nodes before) own in
      let parts = IsSegment-split s.orders none (nodes before) own prev h in
      let distinct =
        AreDistinct-right (node_pointers (nodes before)) (node_pointers own)
          (subst AreDistinct (node_pointers-append (nodes before) own) d) in
      (
        rw at (
            leaves_bucket-own s b (last_or none (nodes before)) (node_at b f) (nodes_in b xs) prev
              distinct parts.1 (in_bucket b b (f ∷ xs) true (==_refl b))),
        at ∙ last_or-nodes_in b (last_or none (nodes before)) f xs,
      )
