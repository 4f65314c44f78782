-- ===== src/OrderBook/Direct/BucketLeft.antt =====
-- OrderBookDirectImpl.cpp: the bucket of an order under `RemoveOrder`.
use exchange_cpp.Base.{
  ℕ, suc, Bool, true, false, Option, none, some, List, [], ◌∷◌, ◌++◌, ◌≡◌, refl, All, All-append,
  ◌∙◌, sym, ap, length, append_nil, ==_refl, if◌then◌else◌,
}
use exchange_cpp.Base.Int.{ℤ, pos, ◌-ℤ◌, ◌==ℤ◌, int_laws, parts}
use exchange_cpp.OrderBook.Bucket.{calculated_volume}
use exchange_cpp.OrderBook.PriceMap.{PriceMap}
use exchange_cpp.OrderBook.Direct.{Bucket, Side, write, leaves_bucket, drop_tail, leave_bucket}
use exchange_cpp.OrderBook.Direct.Chain.{
  Cell, Level, last_pointer, orders_of, pointers_in, pointers_of, bucket_pointers, bucket_of, IsNew,
}
use exchange_cpp.OrderBook.Direct.Represents.{level_at}
use exchange_cpp.OrderBook.Direct.Segments.{object_of, ==_false_sym}
use exchange_cpp.OrderBook.Direct.Flat.{node_at, level_of, IsBucketAt, AreBuckets}
use exchange_cpp.OrderBook.Direct.Sweeping.{last_new}

pub volume_without :
    (xs : List Cell) (c : Cell) (ys : List Cell)
    → calculated_volume (orders_of (xs ++ c ∷ ys)) -ℤ (c.order.size -ℤ c.order.filled)
      ≡ calculated_volume (orders_of (xs ++ ys))
unfolding calculated_volume
volume_without [] c ys = omega int_laws
volume_without (x ∷ xs) c ys = omega (int_laws, parts (volume_without xs c ys))

pub length_without :
    (xs : List Cell) (c : Cell) (ys : List Cell) → length (xs ++ c ∷ ys) ≡ suc (length (xs ++ ys))
length_without [] c ys = refl
length_without (x ∷ xs) c ys = ap (λ n. suc n) (length_without xs c ys)

count_without :
    (xs : List Cell) (c : Cell) (ys : List Cell)
    → pos (suc (length (xs ++ c ∷ ys))) -ℤ pos 1 ≡ pos (suc (length (xs ++ ys)))
count_without xs c ys = rw (length_without xs c ys) (omega int_laws)

pub last_pointer_end :
    (p : ℕ) (xs : List Cell) (c : Cell) → last_pointer p (xs ++ c ∷ []) ≡ c.pointer
last_pointer_end p [] c = refl
last_pointer_end p (x ∷ xs) c = last_pointer_end x.pointer xs c

last_pointer_behind :
    (p : ℕ) (xs : List Cell) (y : Cell) (ys : List Cell)
    → last_pointer p (xs ++ y ∷ ys) ≡ last_pointer y.pointer ys
last_pointer_behind p [] y ys = refl
last_pointer_behind p (x ∷ xs) y ys = last_pointer_behind x.pointer xs y ys

-- A bucket's volume and count without an order.
abbrev pub reduced : Cell → Bucket → Bucket
reduced c x = record x {
  total_volume = x.total_volume -ℤ (c.order.size -ℤ c.order.filled);
  num_orders = x.num_orders -ℤ pos 1;
}

reduced-bucket_of :
    (b : ℕ) (price : ℤ) (f : Cell) (xs : List Cell) (c : Cell) (ys : List Cell) (last : ℕ)
    → last ≡ last_pointer f.pointer (xs ++ ys)
    → record (reduced c (bucket_of (level_at b price f (xs ++ c ∷ ys)))) { last_order = last }
      ≡ bucket_of (level_at b price f (xs ++ ys))
reduced-bucket_of b price f xs c ys last e =
    rw (volume_without (f ∷ xs) c ys, count_without xs c ys, e) refl

abbrev pub has_none : List Cell → Bool
has_none [] = true
has_none (x ∷ xs) = false

-- What `next` is, for an order with these in front of it in its bucket.
abbrev pub IsAfter : Option ℕ → List Cell → Type 0
IsAfter next [] = Unit
IsAfter next (f ∷ xs) = next ≡ some (last_pointer f.pointer xs)

module _ {T : Type 0} (prices : PriceMap T) where
  -- A write of another bucket keeps the buckets of the levels.
  AreBuckets-write :
      (s : Side T) (b : ℕ) (v : Option Bucket) (ls : List Level)
      → IsNew b (bucket_pointers ls)
      → AreBuckets prices s ls
      → AreBuckets prices (record s { buckets = write b v s.buckets }) ls
  AreBuckets-write s b v [] n h = tt
  AreBuckets-write s b v (l ∷ ls) n h = ((rw n.0 h.0.0, h.0.1), AreBuckets-write s b v ls n.1 h.1)

  -- So does the removal of another price.
  AreBuckets-remove :
      (s : Side T) (p : ℤ) (ls : List Level)
      → All (λ (l : Level). (l.price ==ℤ p) ≡ false) ls
      → AreBuckets prices s ls
      → AreBuckets prices (record s { price_buckets = prices.remove p s.price_buckets }) ls
  AreBuckets-remove s p [] n h = tt
  AreBuckets-remove s p (l ∷ ls) n h = (
    (h.0.0, rw (prices.get-remove l.price p s.price_buckets, n.0) h.0.1),
    AreBuckets-remove s p ls n.1 h.1,
  )

  -- The map of prices after an order of a bucket went and these stay in it, and the bucket that is handed
  -- back: without an order the price, and no other, is gone, else nothing changes.
  abbrev pub IsMapLeft : ℕ → ℤ → List Cell → T → T → Option ℕ → Type 0
  IsMapLeft b price [] t t' freed =
      ((q : ℤ) → prices.get q t' ≡ (if q ==ℤ price then none else prices.get q t))
      × (freed ≡ some b)
  IsMapLeft b price (c ∷ cs) t t' freed = (t' ≡ t) × (freed ≡ none)

  -- What `leave_bucket` gives: the buckets are those of the levels that are left.
  pub record Left (out : Option (Side T × Option ℕ)) (s : Side T) (b : ℕ) (price : ℤ)
      (stay : List Cell) (ls : List Level) : Type 0 where
    pub buckets : ℕ → Option Bucket
    pub price_buckets : T
    pub freed : Option ℕ
    pub returns : out ≡ some (record s { buckets = buckets; price_buckets = price_buckets }, freed)
    pub kept : AreBuckets prices (record s { buckets = buckets; price_buckets = price_buckets }) ls
    pub map : IsMapLeft b price stay s.price_buckets price_buckets freed

  module _ (s : Side T) (before after : List Level) (b : ℕ) (price : ℤ) (c : Cell)
      (next prev : Option ℕ) where
    -- The levels around the bucket `b`, which has its own pointer and price.
    pub record Around : Type 0 where
      pub front : AreBuckets prices s before
      pub behind : AreBuckets prices s after
      pub new_front : IsNew b (bucket_pointers before)
      pub new_behind : IsNew b (bucket_pointers after)
      pub price_front : All (λ (l : Level). (l.price ==ℤ price) ≡ false) before
      pub price_behind : All (λ (l : Level). (l.price ==ℤ price) ≡ false) after
      pub at_price : c.order.price ≡ price

    -- The only order of its bucket.
    leave_only :
        Around
        → IsBucketAt prices s (level_at b price c [])
        → leaves_bucket next b s ≡ some true
        → Left
            (leave_bucket prices c.pointer (object_of (node_at b c) next prev) s)
            s
            b
            price
            []
            (before ++ (level_of b price [] ++ after))
    unfolding leave_bucket drop_tail
    leave_only a h leaves =
        let v = some (reduced c (bucket_of (level_at b price c []))) in
        let s1 : Side T = record s { buckets = write b v s.buckets } in
        let at_price_gone : (q : ℤ)
            → prices.get q (prices.remove c.order.price s.price_buckets)
              ≡ (if q ==ℤ price then none else prices.get q s.price_buckets) =
          λ q.
            prices.get-remove q c.order.price s.price_buckets
            ∙ ap (λ k. if q ==ℤ k then none else prices.get q s.price_buckets) a.at_price in
        record {
          buckets = s1.buckets;
          price_buckets = prices.remove c.order.price s.price_buckets;
          freed = some b;
          map = (at_price_gone, refl);
          returns = rw (h.0, leaves, ==_refl c.pointer) refl;
          kept =
              All-append _ before after
                (AreBuckets-remove s1 c.order.price before (rw a.at_price a.price_front)
                  (AreBuckets-write s b v before a.new_front a.front))
                (AreBuckets-remove s1 c.order.price after (rw a.at_price a.price_behind)
                  (AreBuckets-write s b v after a.new_behind a.behind));
        }

    -- The bucket `x` is written for a level that stays.
    pub around_level :
        (x : Bucket) (f : Cell) (cs : List Cell)
        → Around
        → x ≡ bucket_of (level_at b price f cs)
        → prices.get price s.price_buckets ≡ some b
        → AreBuckets prices
            (record s { buckets = write b (some x) s.buckets })
            (before ++ (level_of b price (f ∷ cs) ++ after))
    around_level x f cs a e at =
        All-append _ before (level_at b price f cs ∷ after)
          (AreBuckets-write s b (some x) before a.new_front a.front)
          (
            (rw (==_refl b) (ap some e), at),
            AreBuckets-write s b (some x) after a.new_behind a.behind,
          )

    -- The first order of its bucket, with others behind it.
    leave_first :
        (y : Cell) (ys : List Cell)
        → Around
        → IsBucketAt prices s (level_at b price c (y ∷ ys))
        → leaves_bucket next b s ≡ some true
        → IsNew c.pointer (pointers_of y ys)
        → Left
            (leave_bucket prices c.pointer (object_of (node_at b c) next prev) s)
            s
            b
            price
            (y ∷ ys)
            (before ++ (level_of b price (y ∷ ys) ++ after))
    unfolding leave_bucket
    leave_first y ys a h leaves new =
        let x = reduced c (bucket_of (level_at b price c (y ∷ ys))) in
        let not_last =
          ==_false_sym c.pointer (last_pointer y.pointer ys) (last_new c.pointer y ys new) in
        record {
          buckets = write b (some x) s.buckets;
          price_buckets = s.price_buckets;
          freed = none;
          map = (refl, refl);
          returns = rw (h.0, leaves, not_last) refl;
          kept =
              around_level x y ys a (rw (volume_without [] c (y ∷ ys), count_without [] c ys) refl)
                h.1;
        }

    -- An order with others in front of it and behind it in its bucket.
    leave_middle :
        (f : Cell) (xs : List Cell) (y : Cell) (ys : List Cell)
        → Around
        → IsBucketAt prices s (level_at b price f (xs ++ c ∷ y ∷ ys))
        → leaves_bucket next b s ≡ some false
        → IsNew c.pointer (pointers_of y ys)
        → Left
            (leave_bucket prices c.pointer (object_of (node_at b c) next prev) s)
            s
            b
            price
            (f ∷ xs ++ y ∷ ys)
            (before ++ (level_of b price (f ∷ xs ++ y ∷ ys) ++ after))
    unfolding leave_bucket
    leave_middle f xs y ys a h leaves new =
        let level = level_at b price f (xs ++ c ∷ y ∷ ys) in
        let x = reduced c (bucket_of level) in
        let last : last_pointer f.pointer (xs ++ c ∷ y ∷ ys) ≡ last_pointer y.pointer ys =
          last_pointer_behind f.pointer xs c (y ∷ ys) in
        let not_last =
          ==_false_sym c.pointer (last_pointer y.pointer ys) (last_new c.pointer y ys new) in
        record {
          buckets = write b (some x) s.buckets;
          price_buckets = s.price_buckets;
          freed = none;
          map = (refl, refl);
          returns = rw (h.0, leaves, last, not_last) refl;
          kept =
              around_level x f (xs ++ y ∷ ys) a
                (reduced-bucket_of b price f xs c (y ∷ ys)
                  (last_pointer f.pointer (xs ++ c ∷ y ∷ ys))
                  (last ∙ sym (last_pointer_behind f.pointer xs y ys)))
                h.1;
        }

    -- The last order of its bucket, with others in front of it.
    leave_last :
        (f : Cell) (xs : List Cell)
        → Around
        → IsBucketAt prices s (level_at b price f (xs ++ c ∷ []))
        → leaves_bucket next b s ≡ some false
        → next ≡ some (last_pointer f.pointer xs)
        → Left
            (leave_bucket prices c.pointer (object_of (node_at b c) next prev) s)
            s
            b
            price
            (f ∷ xs ++ [])
            (before ++ (level_of b price (f ∷ xs ++ []) ++ after))
    unfolding leave_bucket drop_tail
    leave_last f xs a h leaves n =
        let level = level_at b price f (xs ++ c ∷ []) in
        let x = reduced c (bucket_of level) in
        let y : Bucket = record x { last_order = last_pointer f.pointer xs } in
        let s1 : Side T = record s { buckets = write b (some x) s.buckets } in
        let same =
          reduced-bucket_of b price f xs c [] (last_pointer f.pointer xs)
            (ap (last_pointer f.pointer) (sym (append_nil xs))) in
        record {
          buckets = write b (some y) s1.buckets;
          price_buckets = s.price_buckets;
          freed = none;
          map = (refl, refl);
          returns = rw (h.0, leaves, last_pointer_end f.pointer xs c, ==_refl c.pointer, n) refl;
          kept =
              All-append _ before (level_at b price f (xs ++ []) ∷ after)
                (AreBuckets-write s1 b (some y) before a.new_front
                  (AreBuckets-write s b (some x) before a.new_front a.front))
                (
                  (rw (==_refl b) (ap some same), h.1),
                  AreBuckets-write s1 b (some y) after a.new_behind
                      (AreBuckets-write s b (some x) after a.new_behind a.behind),
                );
        }

    pub leave_bucket-Left :
        (xs ys : List Cell)
        → Around
        → AreBuckets prices s (level_of b price (xs ++ c ∷ ys))
        → leaves_bucket next b s ≡ some (has_none xs)
        → IsAfter next xs
        → IsNew c.pointer (pointers_in ys)
        → Left
            (leave_bucket prices c.pointer (object_of (node_at b c) next prev) s)
            s
            b
            price
            (xs ++ ys)
            (before ++ (level_of b price (xs ++ ys) ++ after))
    leave_bucket-Left [] [] a h leaves n new = leave_only a h.0 leaves
    leave_bucket-Left [] (y ∷ ys) a h leaves n new = leave_first y ys a h.0 leaves new
    leave_bucket-Left (f ∷ xs) [] a h leaves n new = leave_last f xs a h.0 leaves n
    leave_bucket-Left (f ∷ xs) (y ∷ ys) a h leaves n new = leave_middle f xs y ys a h.0 leaves new
