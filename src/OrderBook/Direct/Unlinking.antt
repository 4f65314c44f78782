-- ===== src/OrderBook/Direct/Unlinking.antt =====
-- OrderBookDirectImpl.cpp: how `RemoveOrder` takes an order out of the chain.
use exchange_cpp.Base.{ℕ, Option, none, some, List, [], ◌∷◌, ◌++◌, ◌≡◌, refl}
use exchange_cpp.OrderBook.Direct.{DirectOrder, Side, write, set_next, set_prev, unlink}
use exchange_cpp.OrderBook.Direct.Chain.{AreDistinct, AreDistinct-right, Agree-write}
use exchange_cpp.OrderBook.Direct.Segments.{
  Node, node_pointers, head_or, last_or, object_of, IsSegment, IsSegment-split, IsSegment-join,
  IsSegment-Agree, last_order, IsSegment-rehead, AreDistinct-left, AreDistinct-IsNew,
  AreDistinct-drop,
}

-- Without its order `c` the chain is the orders in front of it and those behind it, and no more of
-- the side has changed.
pub record Unlinked {T : Type 0} (out : Option (Side T)) (s : Side T) (xs ys : List Node)
    : Type 0 where
  pub orders : ℕ → Option DirectOrder
  pub returns : out ≡ some (record s { orders = orders })
  pub chain : IsSegment orders none (xs ++ ys) none

module _ {T : Type 0} where
  pub unlink-Unlinked :
      (s : Side T) (xs : List Node) (c : Node) (ys : List Node)
      → AreDistinct (node_pointers xs ++ node_pointers (c ∷ ys))
      → IsSegment s.orders none (xs ++ c ∷ ys) none
      → Unlinked (unlink (last_or none xs) (head_or ys none) s) s xs ys
  unfolding unlink set_prev set_next
  unlink-Unlinked s [] c [] d h = record { orders = s.orders; returns = refl; chain = tt }
  unlink-Unlinked s [] c (y ∷ ys) d h = record {
    orders = _;
    returns = rw h.1.0 refl;
    chain = IsSegment-rehead s.orders (some c.pointer) none y ys none d.1 h.1;
  }
  unlink-Unlinked s (x ∷ xs) c [] d h =
      let parts = IsSegment-split s.orders none (x ∷ xs) (c ∷ []) none h in
      let front = AreDistinct-left (node_pointers (x ∷ xs)) (c.pointer ∷ []) d in
      let last = last_order s.orders none x xs (some c.pointer) front parts.0 in
      record {
        orders = _;
        returns = rw (last.is_last, last.object) refl;
        chain =
            IsSegment-join (write last.pointer _ s.orders) none (x ∷ xs) [] none
              (last.relinked none) tt;
      }
  unlink-Unlinked s (x ∷ xs) c (y ∷ ys) d h =
      let parts = IsSegment-split s.orders none (x ∷ xs) (c ∷ y ∷ ys) none h in
      let behind = AreDistinct-right (node_pointers (x ∷ xs)) (node_pointers (c ∷ y ∷ ys)) d in
      let front = AreDistinct-left (node_pointers (x ∷ xs)) (node_pointers (c ∷ y ∷ ys)) d in
      let last = last_order s.orders none x xs (some c.pointer) front parts.0 in
      let q = last.pointer in
      let apart = last.is_new_after (node_pointers (c ∷ y ∷ ys)) d in
      let one = write q (some (object_of last.node last.before (some y.pointer))) s.orders in
      let two = write y.pointer (some (object_of y (some q) (head_or ys none))) one in
      let y_new =
        AreDistinct-IsNew (node_pointers (x ∷ xs)) y.pointer (node_pointers ys)
          (AreDistinct-drop (node_pointers (x ∷ xs)) c.pointer (node_pointers (y ∷ ys)) d) in
      record {
        orders = two;
        returns = rw (last.is_last, last.object, apart.1.0, parts.1.1.0) refl;
        chain =
            IsSegment-join two none (x ∷ xs) (y ∷ ys) none
              (IsSegment-Agree two one none (x ∷ xs) (some y.pointer)
                (Agree-write y.pointer _ one (node_pointers (x ∷ xs)) y_new)
                (last.relinked (some y.pointer)))
              (rw last.is_last (
                IsSegment-rehead one (some c.pointer) (some q) y ys none behind.1 (
                  IsSegment-Agree one s.orders (some c.pointer) (y ∷ ys) none
                    (Agree-write q _ s.orders (node_pointers (y ∷ ys)) apart.1) parts.1.1)));
      }
