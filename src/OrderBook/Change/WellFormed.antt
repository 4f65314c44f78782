-- ===== src/OrderBook/Change/WellFormed.antt =====
-- CancelOrder and ReduceOrder of OrderBookNaiveImpl.cpp on a well-formed book.
use exchange_cpp.Base.{
  ℕ, Option, none, some, ◌≡◌, refl, inl, inr, Bool-cases, if◌then◌else◌, ◌∙◌, ap, ◌==◌,
}
use exchange_cpp.Base.Dict.{lookup, erase, lookup-erase}
use exchange_cpp.Base.Int.{ℤ, pos, ◌-ℤ◌, ◌<ℤ◌, ◌==ℤ◌, min_ℤ, leb_ℤ, ltb_of_leb_ℤ, min_laws, ==ℤ_ne}
use exchange_cpp.Common.{Order, OrderAction, ask, bid, OrderCommand, CommandResultCode}
use exchange_cpp.OrderBook.Bucket.{OrdersBucket}
use exchange_cpp.OrderBook.Levels.{find_bucket}
use exchange_cpp.OrderBook.Book.{
  OrderBook, Result, Reply, ok, fault, buckets_by_action, with_buckets, ◌>>=◌,
}
use exchange_cpp.OrderBook.Book.Wf.{IsWellFormed, HasValidSides, IsIndexed, points}
use exchange_cpp.OrderBook.Change.{
  remove_from_bucket, find_own_order, cancel_order, cancel_found, reduce_order, reduce_found,
}
use exchange_cpp.OrderBook.Change.Own.{IsOwn, FindsOwn, nobody, own, find_own_order-FindsOwn}
use exchange_cpp.OrderBook.Change.Reduction.{reduced-IsWellFormed}
use exchange_cpp.OrderBook.Change.Removal.{
  book_without, remove_from_bucket_lem, book_without-HasValidSides, book_without-IsIndexed,
  book_without-IsUncrossed,
}

-- A command ends with a reply, not with a fault, and leaves a well-formed book.
abbrev pub KeepsWellFormed : Result Reply → Type 0
KeepsWellFormed (ok (code, book, cmd)) = IsWellFormed book
KeepsWellFormed (fault e) = ⊥

-- The index without an id.
abbrev pub forget : ℕ → OrderBook → OrderBook
forget k book = record book { id_map = erase k book.id_map }

buckets_by_action-forget :
    (s : OrderAction) (k : ℕ) (book : OrderBook)
    → buckets_by_action s (forget k book) ≡ buckets_by_action s book
buckets_by_action-forget ask k book = refl
buckets_by_action-forget bid k book = refl

pub id_map-book_without :
    (o : Order) (b : OrdersBucket) (book : OrderBook) → (book_without o b book).id_map ≡ book.id_map
id_map-book_without o b book = go o.action
  where
    go :
        (a : OrderAction)
        → (with_buckets a
            (exchange_cpp.OrderBook.Levels.Removing.side_without a o b (buckets_by_action a book))
            book).id_map
          ≡ book.id_map
    go ask = refl
    go bid = refl

module _ (order_id uid : ℕ) (book : OrderBook) (o : Order) (b : OrdersBucket)
    (w : IsWellFormed book) (mine : IsOwn order_id uid book o b) where
  forgotten_bucket :
      find_bucket o.price (buckets_by_action o.action (forget order_id book)) ≡ some b
  forgotten_bucket = rw (buckets_by_action-forget o.action order_id book) mine.bucket

  forgotten_sides : HasValidSides (forget order_id book)
  forgotten_sides ask = w.sides ask
  forgotten_sides bid = w.sides bid

  forgotten_index : IsIndexed (λ k. lookup k book.id_map) (forget order_id book)
  forgotten_index k ask p = w.index k ask p
  forgotten_index k bid p = w.index k bid p

  -- The removal succeeds, and leaves a well-formed book.
  pub removed :
      remove_from_bucket o uid (forget order_id book) ≡ ok (book_without o b (forget order_id book))
  removed =
      remove_from_bucket_lem o uid b (forget order_id book) forgotten_bucket mine.inside mine.owner

  pub removed-IsWellFormed : IsWellFormed (book_without o b (forget order_id book))
  removed-IsWellFormed =
      let f : ℕ → Option (OrderAction × ℤ) = λ k. lookup k book.id_map in
      let book' = forget order_id book in
      record {
        sides = book_without-HasValidSides f o b book' forgotten_sides forgotten_bucket mine.inside;
        index = λ k s p.
            ap (λ m. points s p (lookup k m)) (id_map-book_without o b book')
            ∙ ap (points s p) (same k)
            ∙ book_without-IsIndexed f o b book' forgotten_sides forgotten_bucket mine.inside
                forgotten_index k s p;
        uncrossed =
            book_without-IsUncrossed f o b book' forgotten_sides forgotten_bucket mine.inside
              w.uncrossed;
      }
    where
      same :
          (k : ℕ)
          → lookup k (erase order_id book.id_map)
            ≡ (if k == o.order_id then none else lookup k book.id_map)
      same k = rw mine.same_id (lookup-erase k order_id book.id_map)

cancel_found-KeepsWellFormed :
    (book : OrderBook) (cmd : OrderCommand) (o : Order) (b : OrdersBucket)
    → IsWellFormed book
    → IsOwn cmd.order_id cmd.uid book o b
    → KeepsWellFormed (cancel_found book cmd o)
unfolding cancel_found
cancel_found-KeepsWellFormed book cmd o b w mine =
    rw (removed cmd.order_id cmd.uid book o b w mine, cancel_found)
      (removed-IsWellFormed cmd.order_id cmd.uid book o b w mine)

-- A cancel on a well-formed book ends with a reply, never with an exception or a dangling pointer,
-- and leaves a well-formed book.
pub cancel_order-KeepsWellFormed :
    (book : OrderBook) (cmd : OrderCommand)
    → IsWellFormed book
    → KeepsWellFormed (cancel_order book cmd)
unfolding cancel_order
cancel_order-KeepsWellFormed book cmd w = go (find_own_order-FindsOwn cmd.order_id cmd.uid book w)
  where
    go :
        FindsOwn cmd.order_id cmd.uid book (find_own_order cmd.order_id cmd.uid book)
        → KeepsWellFormed (cancel_order book cmd)
    go (nobody e) = rw (e, cancel_order) w
    go (own o b e mine) = rw (e, cancel_order) (cancel_found-KeepsWellFormed book cmd o b w mine)

-- A partial reduce leaves the order live in its bucket.
module _ (book : OrderBook) (cmd : OrderCommand) (o : Order) (b : OrdersBucket)
    (w : IsWellFormed book) (mine : IsOwn cmd.order_id cmd.uid book o b)
    (positive : pos 0 <ℤ cmd.size) where
  reduce_by : ℤ
  reduce_by = min_ℤ (o.size -ℤ o.filled) cmd.size

  reduce_found-KeepsWellFormed : KeepsWellFormed (reduce_found book cmd o)
  unfolding reduce_found reduce_by
  reduce_found-KeepsWellFormed = elim (Bool-cases (reduce_by ==ℤ (o.size -ℤ o.filled))) [
    | inl whole ↦
        rw (whole, removed cmd.order_id cmd.uid book o b w mine, reduce_found)
          (removed-IsWellFormed cmd.order_id cmd.uid book o b w mine)
    | inr part ↦
        rw (part, mine.bucket, reduce_found)
          (reduced-IsWellFormed book o b reduce_by w mine.bucket mine.inside
            (omega (min_laws, positive, mine.live.1))
            (omega
              (min_laws, ==ℤ_ne (min_ℤ (o.size -ℤ o.filled) cmd.size) (o.size -ℤ o.filled) part)))
  ]

-- A reduce on a well-formed book ends with a reply, never with an exception or a dangling pointer,
-- and leaves a well-formed book.
pub reduce_order-KeepsWellFormed :
    (book : OrderBook) (cmd : OrderCommand)
    → IsWellFormed book
    → KeepsWellFormed (reduce_order book cmd)
unfolding reduce_order
reduce_order-KeepsWellFormed book cmd w = elim (Bool-cases (leb_ℤ cmd.size (pos 0))) [
  | inl wrong ↦ rw wrong w
  | inr positive ↦ rw positive (
      go (ltb_of_leb_ℤ cmd.size (pos 0) positive)
        (find_own_order-FindsOwn cmd.order_id cmd.uid book w))
]
  where
    go :
        pos 0 <ℤ cmd.size
        → FindsOwn cmd.order_id cmd.uid book (find_own_order cmd.order_id cmd.uid book)
        → KeepsWellFormed (
            find_own_order cmd.order_id cmd.uid book >>= λ found. elim found [
              | none ↦ ok (CommandResultCode.matching_unknown_order_id, book, cmd)
              | some o ↦ reduce_found book cmd o
            ])
    go p (nobody e) = rw (e, ◌>>=◌) w
    go p (own o b e mine) = rw (e, ◌>>=◌) (reduce_found-KeepsWellFormed book cmd o b w mine p)
