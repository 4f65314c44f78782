-- ===== src/OrderBook/Book/Wf.antt =====
-- Book-level well-formedness, and the index by order id under the steps that commands are made of.
use exchange_cpp.Base.{
  ℕ, ◌∷◌, [], List, Bool, true, false, ◌&&◌, Option, none, some, ◌≡◌, refl, arith, if◌then◌else◌,
  ◌∙◌, All, contains,
}
use exchange_cpp.Base.Dict.{Dict, lookup, erase, lookup-erase}
use exchange_cpp.Base.Int.{ℤ, ◌==ℤ◌}
use exchange_cpp.Common.{OrderAction, ask, bid}
use exchange_cpp.OrderBook.Bucket.{OrdersBucket}
use exchange_cpp.OrderBook.Levels.Map.{AreValid, holds}
use exchange_cpp.OrderBook.Levels.Index.{IsUnique}
use exchange_cpp.OrderBook.Levels.Exhausted.{IsOutside}
use exchange_cpp.OrderBook.Book.{OrderBook, buckets_by_action, with_buckets, erase_all}

abbrev pub same_action : OrderAction → OrderAction → Bool
same_action ask ask = true
same_action ask bid = false
same_action bid ask = false
same_action bid bid = true

-- A pointer of the index points to this side and price.
abbrev pub points : OrderAction → ℤ → Option (OrderAction × ℤ) → Bool
points s p none = false
points s p (some (side, q)) = same_action side s && (p ==ℤ q)

-- Both sides are valid.
abbrev pub HasValidSides : OrderBook → Type 0
HasValidSides book = (s : OrderAction) → AreValid s (buckets_by_action s book)

-- The index `f` points to the places where the book holds the ids, and to no others.
abbrev pub IsIndexed : (ℕ → Option (OrderAction × ℤ)) → OrderBook → Type 0
IsIndexed f book =
    (k : ℕ) (s : OrderAction) (p : ℤ) → points s p (f k) ≡ holds k p (buckets_by_action s book)

-- Every ask is dearer than every bid.
abbrev pub IsUncrossed : OrderBook → Type 0
IsUncrossed book = All (λ b. IsOutside bid b.price book.ask_buckets) book.bid_buckets

pub record IsWellFormed (book : OrderBook) : Type 0 where
  pub sides : HasValidSides book
  pub index : IsIndexed (λ k. lookup k book.id_map) book
  pub uncrossed : IsUncrossed book

pub points-eq :
    (s t : OrderAction) (p q : ℤ) (o : Option (OrderAction × ℤ))
    → points s p o ≡ true
    → points t q o ≡ true
    → (same_action s t ≡ true) × ((p ==ℤ q) ≡ true)
points-eq ask ask p q o h k = ground arith
points-eq ask bid p q o h k = ground arith
points-eq bid ask p q o h k = ground arith
points-eq bid bid p q o h k = ground arith

pub IsIndexed-IsUnique :
    (f : ℕ → Option (OrderAction × ℤ)) (book : OrderBook) (s : OrderAction)
    → IsIndexed f book
    → IsUnique (buckets_by_action s book)
IsIndexed-IsUnique f book s ix k p q hp hq =
    (points-eq s s p q (f k) (ix k s p ∙ hp) (ix k s q ∙ hq)).1

pub lookup-erase_all :
    (k : ℕ) (ks : List ℕ) (d : Dict (OrderAction × ℤ))
    → lookup k (erase_all ks d) ≡ (if contains k ks then none else lookup k d)
unfolding erase_all
lookup-erase_all k [] d = refl
lookup-erase_all k (j ∷ ks) d =
    ground (arith, lookup-erase_all k ks (erase j d), lookup-erase k j d)

buckets_by_action-with_buckets :
    (s t : OrderAction) (bs : List OrdersBucket) (book : OrderBook)
    → buckets_by_action s (with_buckets t bs book)
      ≡ (if same_action t s then bs else buckets_by_action s book)
buckets_by_action-with_buckets ask ask bs book = refl
buckets_by_action-with_buckets ask bid bs book = refl
buckets_by_action-with_buckets bid ask bs book = refl
buckets_by_action-with_buckets bid bid bs book = refl
