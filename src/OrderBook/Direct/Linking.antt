-- ===== src/OrderBook/Direct/Linking.antt =====
-- OrderBookDirectImpl.cpp: how `insertOrder` puts an order into the chain behind another.
use exchange_cpp.Base.{ℕ, Option, none, some, List, [], ◌∷◌, ◌++◌, ◌≡◌, refl, ap, ◌∙◌, ==_refl}
use exchange_cpp.OrderBook.Direct.{DirectOrder, Side, write, set_next, link_behind}
use exchange_cpp.OrderBook.Direct.Chain.{IsNew, AreDistinct, AreDistinct-right, Agree-write}
use exchange_cpp.OrderBook.Direct.Segments.{
  Node, node_pointers, head_or, last_or, object_of, IsSegment, IsSegment-split, IsSegment-join,
  IsSegment-Agree, last_order, IsSegment-rehead, AreDistinct-left, AreDistinct-IsNew,
}

-- The chain has the order `n` between the orders in front and those behind, and no more of the side
-- has changed.
pub record Linked {T : Type 0} (out : Option (Side T)) (s : Side T) (xs : List Node) (n : Node)
    (ys : List Node) : Type 0 where
  pub orders : ℕ → Option DirectOrder
  pub returns : out ≡ some (record s { orders = orders })
  pub chain : IsSegment orders none (xs ++ n ∷ ys) none

-- The order `p` behind the last order of a segment.
written_behind :
    (store : ℕ → Option DirectOrder) (n : Node) (x : Node) (xs ys : List Node)
    → IsNew n.pointer (node_pointers (x ∷ xs))
    → IsNew n.pointer (node_pointers ys)
    → IsSegment store none (x ∷ xs) (some n.pointer)
    → (q : ℕ) → last_or none (x ∷ xs) ≡ some q
    → IsSegment store (some n.pointer) ys none
    → IsSegment
        (write n.pointer (some (object_of n (some q) (head_or ys none))) store)
        none
        ((x ∷ xs) ++ n ∷ ys)
        none
written_behind store n x xs ys nx ny h q e k =
    let new = write n.pointer (some (object_of n (some q) (head_or ys none))) store in
    IsSegment-join new none (x ∷ xs) (n ∷ ys) none
      (IsSegment-Agree new store none (x ∷ xs) (some n.pointer)
        (Agree-write n.pointer _ store (node_pointers (x ∷ xs)) nx) h)
      (rw e (
        rw (==_refl n.pointer) refl,
        IsSegment-Agree new store (some n.pointer) ys none
            (Agree-write n.pointer _ store (node_pointers ys) ny) k,
      ))

same_pointer : (o : Option ℕ) (p q : ℕ) → o ≡ some p → o ≡ some q → p ≡ q
same_pointer o p q e f = cc

none_not_some : (p : ℕ) → none ≡ some p → ⊥
none_not_some p e = cc

module _ {T : Type 0} where
  link_behind-Linked :
      (s : Side T) (tail : ℕ) (x : Node) (xs ys : List Node) (n : Node)
      → last_or none (x ∷ xs) ≡ some tail
      → AreDistinct (node_pointers (x ∷ xs) ++ node_pointers ys)
      → IsNew n.pointer (node_pointers (x ∷ xs))
      → IsNew n.pointer (node_pointers ys)
      → IsSegment s.orders none ((x ∷ xs) ++ ys) none
      → Linked (link_behind tail n.pointer n.order n.bucket s) s (x ∷ xs) n ys
  unfolding link_behind set_next
  link_behind-Linked s tail x xs [] n at d nx ny h =
      let parts = IsSegment-split s.orders none (x ∷ xs) [] none h in
      let front = AreDistinct-left (node_pointers (x ∷ xs)) [] d in
      let last = last_order s.orders none x xs none front parts.0 in
      let same : last.pointer ≡ tail =
        same_pointer (last_or none (x ∷ xs)) last.pointer tail last.is_last at in
      record {
        orders = _;
        returns = rw (← same, last.object) refl;
        chain =
            written_behind
              (write last.pointer (some (object_of last.node last.before (some n.pointer)))
                s.orders)
              n x xs [] nx ny (last.relinked (some n.pointer)) last.pointer last.is_last tt;
      }
  link_behind-Linked s tail x xs (y ∷ ys) n at d nx ny h =
      let parts = IsSegment-split s.orders none (x ∷ xs) (y ∷ ys) none h in
      let front = AreDistinct-left (node_pointers (x ∷ xs)) (node_pointers (y ∷ ys)) d in
      let behind = AreDistinct-right (node_pointers (x ∷ xs)) (node_pointers (y ∷ ys)) d in
      let last = last_order s.orders none x xs (some y.pointer) front parts.0 in
      let same : last.pointer ≡ tail =
        same_pointer (last_or none (x ∷ xs)) last.pointer tail last.is_last at in
      let q = last.pointer in
      let apart = last.is_new_after (node_pointers (y ∷ ys)) d in
      let one = write q (some (object_of last.node last.before (some n.pointer))) s.orders in
      let two = write y.pointer (some (object_of y (some n.pointer) (head_or ys none))) one in
      let y_new = AreDistinct-IsNew (node_pointers (x ∷ xs)) y.pointer (node_pointers ys) d in
      let second : s.orders y.pointer ≡ some (object_of y (some q) (head_or ys none)) =
        parts.1.0 ∙ ap (λ o. some (object_of y o (head_or ys none))) last.is_last in
      record {
        orders = _;
        returns = rw (← same, last.object, apart.0, second) refl;
        chain =
            written_behind two n x xs (y ∷ ys) nx ny
              (IsSegment-Agree two one none (x ∷ xs) (some n.pointer)
                (Agree-write y.pointer _ one (node_pointers (x ∷ xs)) y_new)
                (last.relinked (some n.pointer)))
              q last.is_last
              (IsSegment-rehead one (last_or none (x ∷ xs)) (some n.pointer) y ys none behind (
                IsSegment-Agree one s.orders (last_or none (x ∷ xs)) (y ∷ ys) none
                  (Agree-write q _ s.orders (node_pointers (y ∷ ys)) apart) parts.1));
      }

  pub link_behind-front :
      (s : Side T) (tail : ℕ) (front ys : List Node) (n : Node)
      → last_or none front ≡ some tail
      → AreDistinct (node_pointers front ++ node_pointers ys)
      → IsNew n.pointer (node_pointers front)
      → IsNew n.pointer (node_pointers ys)
      → IsSegment s.orders none (front ++ ys) none
      → Linked (link_behind tail n.pointer n.order n.bucket s) s front n ys
  link_behind-front s tail [] ys n at d nx ny h = absurd (none_not_some tail at)
  link_behind-front s tail (x ∷ xs) ys n at d nx ny h =
      link_behind-Linked s tail x xs ys n at d nx ny h
