-- ===== src/OrderBook/Direct/Segments.antt =====
-- OrderBookDirectImpl.cpp: parts of the chain of orders, across the levels.
use exchange_cpp.Base.{
  ℕ, Bool, false, Option, some, List, [], ◌∷◌, ◌++◌, ◌==◌, ◌≡◌, refl, All, All-append, ◌∙◌, ==_refl,
  arith,
}
use exchange_cpp.Common.{Order}
use exchange_cpp.OrderBook.Direct.{DirectOrder, write}
use exchange_cpp.OrderBook.Direct.Chain.{
  IsNew, AreDistinct, Agree, Agree-write, All-left, All-right,
}

-- An order of the chain, with its pointer and its bucket.
pub record Node : Type 0 where
  pub pointer : ℕ
  pub order : Order
  pub bucket : ℕ

abbrev pub node_pointers : List Node → List ℕ
node_pointers [] = []
node_pointers (n ∷ ns) = n.pointer ∷ node_pointers ns

-- The pointer of the first, and of the last, where there is one.
abbrev pub head_or : List Node → Option ℕ → Option ℕ
head_or [] prev = prev
head_or (n ∷ ns) prev = some n.pointer

abbrev pub last_or : Option ℕ → List Node → Option ℕ
last_or next [] = next
last_or next (n ∷ ns) = last_or (some n.pointer) ns

abbrev pub object_of : Node → Option ℕ → Option ℕ → DirectOrder
object_of n next prev = record { order = n.order; next = next; prev = prev; bucket = n.bucket }

-- The objects of these orders are linked: before the first is `next`, after the last `prev`.
abbrev pub IsSegment : (ℕ → Option DirectOrder) → Option ℕ → List Node → Option ℕ → Type 0
IsSegment store next [] prev = Unit
IsSegment store next (n ∷ ns) prev =
    (store n.pointer ≡ some (object_of n next (head_or ns prev)))
    × IsSegment store (some n.pointer) ns prev

pub head_or-append :
    (xs ys : List Node) (prev : Option ℕ) → head_or (xs ++ ys) prev ≡ head_or xs (head_or ys prev)
head_or-append [] ys prev = refl
head_or-append (x ∷ xs) ys prev = refl

pub IsSegment-split :
    (store : ℕ → Option DirectOrder) (next : Option ℕ) (xs ys : List Node) (prev : Option ℕ)
    → IsSegment store next (xs ++ ys) prev
    → IsSegment store next xs (head_or ys prev) × IsSegment store (last_or next xs) ys prev
IsSegment-split store next [] ys prev h = (tt, h)
IsSegment-split store next (x ∷ xs) ys prev h =
    let rest = IsSegment-split store (some x.pointer) xs ys prev h.1 in
    ((rw (← head_or-append xs ys prev) h.0, rest.0), rest.1)

pub IsSegment-join :
    (store : ℕ → Option DirectOrder) (next : Option ℕ) (xs ys : List Node) (prev : Option ℕ)
    → IsSegment store next xs (head_or ys prev)
    → IsSegment store (last_or next xs) ys prev
    → IsSegment store next (xs ++ ys) prev
IsSegment-join store next [] ys prev h k = k
IsSegment-join store next (x ∷ xs) ys prev h k =
    (rw (head_or-append xs ys prev) h.0, IsSegment-join store (some x.pointer) xs ys prev h.1 k)

pub IsSegment-Agree :
    (f g : ℕ → Option DirectOrder) (next : Option ℕ) (ns : List Node) (prev : Option ℕ)
    → Agree f g (node_pointers ns)
    → IsSegment g next ns prev
    → IsSegment f next ns prev
IsSegment-Agree f g next [] prev a h = tt
IsSegment-Agree f g next (n ∷ ns) prev a h =
    (a.0 ∙ h.0, IsSegment-Agree f g (some n.pointer) ns prev a.1 h.1)

pub ==_false_sym : (a b : ℕ) → (a == b) ≡ false → (b == a) ≡ false
==_false_sym a b h = ground arith

-- The last order of a segment, and how it can lead elsewhere.
pub record LastOrder (store : ℕ → Option DirectOrder) (next : Option ℕ) (ns : List Node)
    (prev : Option ℕ) : Type 0 where
  pub pointer : ℕ
  pub node : Node
  pub before : Option ℕ
  pub is_last : last_or next ns ≡ some pointer
  pub object : store pointer ≡ some (object_of node before prev)
  pub is_in : (p : ℕ) → IsNew p (node_pointers ns) → (pointer == p) ≡ false
  pub is_new_after : (ps : List ℕ) → AreDistinct (node_pointers ns ++ ps) → IsNew pointer ps
  pub bucket_in :
      (b : ℕ) (t : Bool) → All (λ (n : Node). (n.bucket == b) ≡ t) ns → (node.bucket == b) ≡ t
  pub relinked :
      (prev' : Option ℕ)
      → IsSegment (write pointer (some (object_of node before prev')) store) next ns prev'

pub last_order :
    (store : ℕ → Option DirectOrder) (next : Option ℕ) (x : Node) (xs : List Node) (prev : Option ℕ)
    → AreDistinct (node_pointers (x ∷ xs))
    → IsSegment store next (x ∷ xs) prev
    → LastOrder store next (x ∷ xs) prev
last_order store next x [] prev d h = record {
  pointer = x.pointer;
  node = x;
  before = next;
  is_last = refl;
  object = h.0;
  is_in = λ p n. n.0;
  is_new_after = λ ps e. e.0;
  bucket_in = λ b t h. h.0;
  relinked = λ prev'. (rw (==_refl x.pointer) refl, tt);
}
last_order store next x (y ∷ ys) prev d h =
    let rest = last_order store (some x.pointer) y ys prev d.1 h.1 in
    let other = ==_false_sym rest.pointer x.pointer (rest.is_in x.pointer d.0) in
    record {
      pointer = rest.pointer;
      node = rest.node;
      before = rest.before;
      is_last = rest.is_last;
      object = rest.object;
      is_in = λ p n. rest.is_in p n.1;
      is_new_after = λ ps e. rest.is_new_after ps e.1;
      bucket_in = λ b t h. rest.bucket_in b t h.1;
      relinked = λ prev'. (rw other h.0, rest.relinked prev');
    }

-- The first order of a segment can have another order before it.
pub IsSegment-rehead :
    (store : ℕ → Option DirectOrder) (next next' : Option ℕ) (y : Node) (ys : List Node)
    (prev : Option ℕ)
    → AreDistinct (node_pointers (y ∷ ys))
    → IsSegment store next (y ∷ ys) prev
    → IsSegment
        (write y.pointer (some (object_of y next' (head_or ys prev))) store)
        next'
        (y ∷ ys)
        prev
IsSegment-rehead store next next' y ys prev d h = (
  rw (==_refl y.pointer) refl,
  IsSegment-Agree (write y.pointer _ store) store (some y.pointer) ys prev
      (Agree-write y.pointer _ store (node_pointers ys) d.0) h.1,
)

pub AreDistinct-left : (ps qs : List ℕ) → AreDistinct (ps ++ qs) → AreDistinct ps
AreDistinct-left [] qs d = tt
AreDistinct-left (p ∷ ps) qs d = (All-left _ ps qs d.0, AreDistinct-left ps qs d.1)

-- What comes behind is not in front.
pub AreDistinct-IsNew :
    (ps : List ℕ) (q : ℕ) (qs : List ℕ) → AreDistinct (ps ++ q ∷ qs) → IsNew q ps
AreDistinct-IsNew [] q qs d = tt
AreDistinct-IsNew (p ∷ ps) q qs d =
    (==_false_sym q p (All-right _ ps (q ∷ qs) d.0).0, AreDistinct-IsNew ps q qs d.1)

-- Without the one in the middle they are distinct.
pub AreDistinct-drop :
    (ps : List ℕ) (q : ℕ) (qs : List ℕ) → AreDistinct (ps ++ q ∷ qs) → AreDistinct (ps ++ qs)
AreDistinct-drop [] q qs d = d.1
AreDistinct-drop (p ∷ ps) q qs d = (
  All-append _ ps qs (All-left _ ps (q ∷ qs) d.0) (All-right _ ps (q ∷ qs) d.0).1,
  AreDistinct-drop ps q qs d.1,
)
