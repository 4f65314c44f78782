-- ===== src/OrderBook/Change/Reduction.antt =====
-- A book one of whose orders is reduced where it stands.
use exchange_cpp.Base.{
  ℕ, List, [], ◌∷◌, false, none, some, ◌≡◌, refl, inl, inr, arith, Bool-cases, ◌∙◌, sym, ◌==◌, All,
}
use exchange_cpp.Base.Dict.{lookup}
use exchange_cpp.Base.Int.{ℤ, pos, ◌+ℤ◌, ◌-ℤ◌, ◌≤ℤ◌, ◌<ℤ◌, ◌==ℤ◌, ==ℤ_eq, int_laws, parts}
use exchange_cpp.Common.{Order, OrderAction, ask, bid}
use exchange_cpp.OrderBook.Bucket.{OrdersBucket, find_by_id, calculated_volume, reduce_size}
use exchange_cpp.OrderBook.Bucket.Volume.{IsLive, calculated_volume_nonneg}
use exchange_cpp.OrderBook.Bucket.Fifo.{HasDistinctIds, has_id, find_by_id-All}
use exchange_cpp.OrderBook.Levels.{find_bucket, set_bucket, should_continue}
use exchange_cpp.OrderBook.Levels.Map.{
  holds, AreValid, IsPlaced, IsPlaced-IsLive, IsBucketValid, find_bucket-All, find_bucket-price,
  find_bucket-set_bucket, set_bucket-All, set_bucket-IsSorted,
}
use exchange_cpp.OrderBook.Levels.Exhausted.{IsOutside}
use exchange_cpp.OrderBook.Book.{OrderBook, buckets_by_action, with_buckets}
use exchange_cpp.OrderBook.Book.Wf.{IsWellFormed, IsUncrossed, points}
use exchange_cpp.OrderBook.Book.Uncrossed.{AllPrices, set_bucket-AllPrices, asks_apart}
use exchange_cpp.OrderBook.Change.{update_by_id, reduce_in_place}

-- An update in place keeps the ids, and changes the sum by the change of the order.
find_by_id-update_by_id :
    (k : ℕ) (o : Order) (os : List Order) → has_id k (update_by_id o os) ≡ has_id k os
unfolding find_by_id update_by_id
find_by_id-update_by_id k o [] = refl
find_by_id-update_by_id k o (x ∷ os) = ground (arith, find_by_id-update_by_id k o os)

find_by_id-update_by_id-none :
    (k : ℕ) (o : Order) (os : List Order)
    → find_by_id k os ≡ none
    → find_by_id k (update_by_id o os) ≡ none
find_by_id-update_by_id-none k o os e = ground (arith, find_by_id-update_by_id k o os)

update_by_id-HasDistinctIds :
    (o : Order) (os : List Order) → HasDistinctIds os → HasDistinctIds (update_by_id o os)
unfolding update_by_id
update_by_id-HasDistinctIds o [] h = tt
update_by_id-HasDistinctIds o (x ∷ os) h =
    ground (
      arith,
      update_by_id-HasDistinctIds o os h.1,
      find_by_id-update_by_id-none x.order_id o os h.0,
    )

update_by_id-All {ℓ} :
    (P : Order → Type ℓ) (o : Order) (os : List Order) → P o → All P os → All P (update_by_id o os)
unfolding update_by_id
update_by_id-All P o [] p h = tt
update_by_id-All P o (x ∷ os) p h = elim (Bool-cases (o.order_id == x.order_id)) [
  | inl hit ↦ rw hit (p, h.1)
  | inr miss ↦ rw miss (h.0, update_by_id-All P o os p h.1)
]

calculated_volume-update_by_id :
    (o o' : Order) (os : List Order)
    → o.order_id ≡ o'.order_id
    → find_by_id o.order_id os ≡ some o
    → calculated_volume (update_by_id o' os)
      ≡ calculated_volume os -ℤ (o.size -ℤ o.filled) +ℤ (o'.size -ℤ o'.filled)
unfolding calculated_volume update_by_id find_by_id
calculated_volume-update_by_id o o' [] same e = cc
calculated_volume-update_by_id o o' (x ∷ os) same e = elim (Bool-cases (o.order_id == x.order_id)) [
  | inl hit ↦ let here : x ≡ o = ground arith in rw (← same, hit, here) (omega int_laws)
  | inr miss ↦
      let rest : find_by_id o.order_id os ≡ some o = ground arith in
      rw (← same, miss) (omega (int_laws, parts (calculated_volume-update_by_id o o' os same rest)))
]

-- A live order's remainder is part of the sum.
remaining-calculated_volume :
    (k : ℕ) (o : Order) (os : List Order)
    → All IsLive os
    → find_by_id k os ≡ some o
    → (o.size -ℤ o.filled) ≤ℤ calculated_volume os
unfolding calculated_volume find_by_id
remaining-calculated_volume k o [] h e = absurd (none≢some e)
  where
    none≢some : none ≡ some o → ⊥
    none≢some e = cc
remaining-calculated_volume k o (x ∷ os) h e = elim (Bool-cases (k == x.order_id)) [
  | inl hit ↦
      let same : x ≡ o = ground arith in
      rw (← same) (omega (int_laws, calculated_volume_nonneg os h.1))
  | inr miss ↦
      let rest : find_by_id k os ≡ some o = ground arith in
      omega (int_laws, h.0, remaining-calculated_volume k o os h.1 rest)
]

-- A part of the order, that leaves some of it.
module _ (side : OrderAction) (o : Order) (amount : ℤ) (b : OrdersBucket) (bs : List OrdersBucket)
    (v : AreValid side bs) (found : find_bucket o.price bs ≡ some b)
    (inside : find_by_id o.order_id b.orders ≡ some o) (nonneg : pos 0 ≤ℤ amount)
    (less : amount <ℤ (o.size -ℤ o.filled)) where
  valid : IsBucketValid side b
  valid = find_bucket-All (IsBucketValid side) o.price b bs v.0 found

  reduced : Order
  reduced = record o { size = o.size -ℤ amount }

  reduced-IsPlaced : IsPlaced side b.price reduced
  unfolding reduced
  reduced-IsPlaced =
      let p = find_by_id-All (IsPlaced side b.price) o.order_id o b.orders valid.placed inside in
      (p.0, omega int_laws, p.2, p.3)

  reduce_in_place-IsBucketValid : IsBucketValid side (reduce_in_place amount o b)
  unfolding reduce_in_place reduce_size reduced
  reduce_in_place-IsBucketValid =
      let volume = parts (calculated_volume-update_by_id o reduced b.orders refl inside) in
      let placed =
        update_by_id-All (IsPlaced side b.price) reduced b.orders reduced-IsPlaced valid.placed in
      let total = parts valid.total in
      record {
        total = omega (int_laws, volume, total);
        placed = placed;
        distinct = update_by_id-HasDistinctIds reduced b.orders valid.distinct;
        nonempty = omega (
          int_laws,
          total,
          less,
          remaining-calculated_volume o.order_id o b.orders
              (IsPlaced-IsLive side b.price b.orders valid.placed) inside,
        );
      }

  after : List OrdersBucket
  after = set_bucket side (reduce_in_place amount o b) bs

  reduce_in_place-AreValid : AreValid side after
  unfolding after
  reduce_in_place-AreValid = (
    set_bucket-All side (reduce_in_place amount o b) bs reduce_in_place-IsBucketValid v.0,
    set_bucket-IsSorted side (reduce_in_place amount o b) bs v.1,
  )

  holds-reduce_in_place : (k : ℕ) (p : ℤ) → holds k p after ≡ holds k p bs
  unfolding after reduce_in_place reduce_size reduced
  holds-reduce_in_place k p =
      rw (find_bucket-set_bucket side p (reduce_in_place amount o b) bs, holds)
        (elim (Bool-cases (p ==ℤ b.price)) [
          | inl hit ↦
              let here : find_bucket p bs ≡ some b =
                rw
                  (==ℤ_eq p b.price hit
                    ∙ sym (==ℤ_eq o.price b.price (find_bucket-price o.price b bs found)))
                  found in
              rw (hit, here, holds) (find_by_id-update_by_id k reduced b.orders)
          | inr miss ↦ rw (miss, holds)
        ])

  reduce_in_place-AllPrices {ℓ} : (P : ℤ → Type ℓ) → AllPrices P bs → AllPrices P after
  unfolding after reduce_in_place reduce_size
  reduce_in_place-AllPrices P h =
      set_bucket-AllPrices P side (reduce_in_place amount o b) bs
        (find_bucket-All (λ x. P x.price) o.price b bs h found) h

-- A reduce that leaves part of the order keeps the book well-formed.
module _ (book : OrderBook) (o : Order) (b : OrdersBucket) (amount : ℤ) (w : IsWellFormed book)
    (found : find_bucket o.price (buckets_by_action o.action book) ≡ some b)
    (inside : find_by_id o.order_id b.orders ≡ some o) (nonneg : pos 0 ≤ℤ amount)
    (less : amount <ℤ (o.size -ℤ o.filled)) where
  abbrev book_reduced : OrderAction → OrderBook
  book_reduced a =
      with_buckets a (set_bucket a (reduce_in_place amount o b) (buckets_by_action a book)) book

  reduced-HasValidSides :
      (a s : OrderAction)
      → find_bucket o.price (buckets_by_action a book) ≡ some b
      → AreValid s (buckets_by_action s (book_reduced a))
  unfolding after
  reduced-HasValidSides ask ask e =
      reduce_in_place-AreValid ask o amount b book.ask_buckets (w.sides ask) e inside nonneg less
  reduced-HasValidSides ask bid e = w.sides bid
  reduced-HasValidSides bid ask e = w.sides ask
  reduced-HasValidSides bid bid e =
      reduce_in_place-AreValid bid o amount b book.bid_buckets (w.sides bid) e inside nonneg less

  reduced-IsIndexed :
      (a : OrderAction) (k : ℕ) (s : OrderAction) (p : ℤ)
      → find_bucket o.price (buckets_by_action a book) ≡ some b
      → points s p (lookup k (book_reduced a).id_map)
        ≡ holds k p (buckets_by_action s (book_reduced a))
  unfolding after
  reduced-IsIndexed ask k ask p e =
      w.index k ask p
      ∙ sym (
          holds-reduce_in_place ask o amount b book.ask_buckets (w.sides ask) e inside nonneg less k
            p)
  reduced-IsIndexed ask k bid p e = w.index k bid p
  reduced-IsIndexed bid k ask p e = w.index k ask p
  reduced-IsIndexed bid k bid p e =
      w.index k bid p
      ∙ sym (
          holds-reduce_in_place bid o amount b book.bid_buckets (w.sides bid) e inside nonneg less k
            p)

  reduced-IsUncrossed :
      (a : OrderAction)
      → find_bucket o.price (buckets_by_action a book) ≡ some b
      → IsUncrossed (book_reduced a)
  unfolding after
  reduced-IsUncrossed ask e =
      asks_apart book.ask_buckets _
        (λ p h.
          reduce_in_place-AllPrices ask o amount b book.ask_buckets (w.sides ask) e inside nonneg
            less (λ q. should_continue bid p q ≡ false) h)
        book.bid_buckets w.uncrossed
  reduced-IsUncrossed bid e =
      reduce_in_place-AllPrices bid o amount b book.bid_buckets (w.sides bid) e inside nonneg less
        (λ p. IsOutside bid p book.ask_buckets) w.uncrossed

  pub reduced-IsWellFormed : IsWellFormed (book_reduced o.action)
  reduced-IsWellFormed = record {
    sides = λ s. reduced-HasValidSides o.action s found;
    index = λ k s p. reduced-IsIndexed o.action k s p found;
    uncrossed = reduced-IsUncrossed o.action found;
  }
