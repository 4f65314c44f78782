-- ===== src/OrderBook/Direct/Flat.antt =====
-- OrderBookDirectImpl.cpp: the levels of a side as one chain of orders and the buckets beside it.
use exchange_cpp.Base.{
  ℕ, Option, none, some, List, [], ◌∷◌, ◌++◌, ◌≡◌, refl, All, ◌∙◌, sym, ap, append_assoc,
}
use exchange_cpp.Base.Int.{ℤ}
use exchange_cpp.OrderBook.PriceMap.{PriceMap}
use exchange_cpp.OrderBook.Direct.{DirectOrder, Side}
use exchange_cpp.OrderBook.Direct.Chain.{
  Cell, Level, last_pointer, head_pointer, pointers_in, pointers, bucket_of, AreLinked, Represents,
}
use exchange_cpp.OrderBook.Direct.Represents.{level_at}
use exchange_cpp.OrderBook.Direct.Segments.{
  Node, node_pointers, head_or, last_or, IsSegment, IsSegment-split, IsSegment-join,
}

abbrev pub node_at : ℕ → Cell → Node
node_at b c = record { pointer = c.pointer; order = c.order; bucket = b }

abbrev pub nodes_in : ℕ → List Cell → List Node
nodes_in b [] = []
nodes_in b (c ∷ cs) = node_at b c ∷ nodes_in b cs

-- The chain of these levels.
abbrev pub nodes : List Level → List Node
nodes [] = []
nodes (l ∷ ls) = nodes_in l.bucket (l.first ∷ l.others) ++ nodes ls

-- The level of these orders, if there are any.
abbrev pub level_of : ℕ → ℤ → List Cell → List Level
level_of b price [] = []
level_of b price (c ∷ cs) = level_at b price c cs ∷ []

pub AreLinked-IsSegment :
    (store : ℕ → Option DirectOrder) (b : ℕ) (next : Option ℕ) (c : Cell) (ds : List Cell)
    (prev : Option ℕ)
    → AreLinked store b next c ds prev
    → IsSegment store next (nodes_in b (c ∷ ds)) prev
AreLinked-IsSegment store b next c [] prev h = (h, tt)
AreLinked-IsSegment store b next c (d ∷ ds) prev h =
    (h.0, AreLinked-IsSegment store b (some c.pointer) d ds prev h.1)

pub IsSegment-AreLinked :
    (store : ℕ → Option DirectOrder) (b : ℕ) (next : Option ℕ) (c : Cell) (ds : List Cell)
    (prev : Option ℕ)
    → IsSegment store next (nodes_in b (c ∷ ds)) prev
    → AreLinked store b next c ds prev
IsSegment-AreLinked store b next c [] prev h = h.0
IsSegment-AreLinked store b next c (d ∷ ds) prev h =
    (h.0, IsSegment-AreLinked store b (some c.pointer) d ds prev h.1)

pub last_or-nodes_in :
    (b : ℕ) (next : Option ℕ) (c : Cell) (ds : List Cell)
    → last_or next (nodes_in b (c ∷ ds)) ≡ some (last_pointer c.pointer ds)
last_or-nodes_in b next c [] = refl
last_or-nodes_in b next c (d ∷ ds) = last_or-nodes_in b (some c.pointer) d ds

pub head_or-nodes : (ls : List Level) → head_or (nodes ls) none ≡ head_pointer ls
head_or-nodes [] = refl
head_or-nodes (l ∷ ls) = refl

pub nodes-append : (xs ys : List Level) → nodes (xs ++ ys) ≡ nodes xs ++ nodes ys
nodes-append [] ys = refl
nodes-append (l ∷ xs) ys =
    ap (λ t. nodes_in l.bucket (l.first ∷ l.others) ++ t) (nodes-append xs ys)
    ∙ sym (append_assoc (nodes_in l.bucket (l.first ∷ l.others)) (nodes xs) (nodes ys))

nodes_in-append :
    (b : ℕ) (xs ys : List Cell) → nodes_in b (xs ++ ys) ≡ nodes_in b xs ++ nodes_in b ys
nodes_in-append b [] ys = refl
nodes_in-append b (x ∷ xs) ys = ap (λ t. node_at b x ∷ t) (nodes_in-append b xs ys)

nodes-level_of :
    (b : ℕ) (price : ℤ) (cs : List Cell) (ls : List Level)
    → nodes (level_of b price cs ++ ls) ≡ nodes_in b cs ++ nodes ls
nodes-level_of b price [] ls = refl
nodes-level_of b price (c ∷ cs) ls = refl

-- The chain in front of the orders `ys` of a bucket, and behind them.
pub nodes-parts :
    (before : List Level) (b : ℕ) (price : ℤ) (xs ys : List Cell) (after : List Level)
    → nodes (before ++ (level_of b price (xs ++ ys) ++ after))
      ≡ (nodes before ++ nodes_in b xs) ++ (nodes_in b ys ++ nodes after)
nodes-parts before b price xs ys after =
    rw
      (
        nodes-append before (level_of b price (xs ++ ys) ++ after),
        nodes-level_of b price (xs ++ ys) after,
        nodes_in-append b xs ys,
        append_assoc (nodes_in b xs) (nodes_in b ys) (nodes after),
        append_assoc (nodes before) (nodes_in b xs) (nodes_in b ys ++ nodes after),
      )
      refl

pub node_pointers-append :
    (xs ys : List Node) → node_pointers (xs ++ ys) ≡ node_pointers xs ++ node_pointers ys
node_pointers-append [] ys = refl
node_pointers-append (x ∷ xs) ys = ap (λ t. x.pointer ∷ t) (node_pointers-append xs ys)

pub node_pointers-nodes_in :
    (b : ℕ) (cs : List Cell) → node_pointers (nodes_in b cs) ≡ pointers_in cs
node_pointers-nodes_in b [] = refl
node_pointers-nodes_in b (c ∷ cs) = ap (λ t. c.pointer ∷ t) (node_pointers-nodes_in b cs)

pub node_pointers-nodes : (ls : List Level) → node_pointers (nodes ls) ≡ pointers ls
node_pointers-nodes [] = refl
node_pointers-nodes (l ∷ ls) =
    rw
      (
        node_pointers-append (nodes_in l.bucket l.others) (nodes ls),
        node_pointers-nodes_in l.bucket l.others,
        node_pointers-nodes ls,
      )
      refl

module _ {T : Type 0} (prices : PriceMap T) where
  -- The bucket of a level, where the map of prices has it.
  abbrev pub IsBucketAt : Side T → Level → Type 0
  IsBucketAt s l =
      (s.buckets l.bucket ≡ some (bucket_of l))
      × (prices.get l.price s.price_buckets ≡ some l.bucket)

  abbrev pub AreBuckets : Side T → List Level → Type 0
  AreBuckets s = All (IsBucketAt s)

  pub Represents-IsSegment :
      (s : Side T) (next : Option ℕ) (ls : List Level)
      → Represents prices next s ls
      → IsSegment s.orders next (nodes ls) none × AreBuckets s ls
  Represents-IsSegment s next [] h = (tt, tt)
  Represents-IsSegment s next (l ∷ ls) h =
      let rest = Represents-IsSegment s (some (last_pointer l.first.pointer l.others)) ls h.3 in
      (
        IsSegment-join s.orders next (nodes_in l.bucket (l.first ∷ l.others)) (nodes ls) none
            (rw (head_or-nodes ls)
              (AreLinked-IsSegment s.orders l.bucket next l.first l.others (head_pointer ls) h.0))
            (rw (last_or-nodes_in l.bucket next l.first l.others) rest.0),
        ((h.1, h.2), rest.1),
      )

  pub IsSegment-Represents :
      (s : Side T) (next : Option ℕ) (ls : List Level)
      → IsSegment s.orders next (nodes ls) none
      → AreBuckets s ls
      → Represents prices next s ls
  IsSegment-Represents s next [] h k = tt
  IsSegment-Represents s next (l ∷ ls) h k =
      let parts =
        IsSegment-split s.orders next (nodes_in l.bucket (l.first ∷ l.others)) (nodes ls) none h in
      (
        IsSegment-AreLinked s.orders l.bucket next l.first l.others (head_pointer ls)
            (rw (← head_or-nodes ls) parts.0),
        k.0.0,
        k.0.1,
        IsSegment-Represents s (some (last_pointer l.first.pointer l.others)) ls
            (rw (← last_or-nodes_in l.bucket next l.first l.others) parts.1) k.1,
      )
