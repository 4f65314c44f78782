-- ===== src/OrderBook/Change/Volumes.antt =====
-- The volume that a cancel and a reduce take from the book.
use exchange_cpp.Base.{
  ℕ, List, [], ◌∷◌, Bool, true, false, none, some, ◌≡◌, refl, inl, inr, arith, Bool-cases, ◌∙◌, sym,
  ap,
}
use exchange_cpp.Base.Int.{ℤ, pos, ◌+ℤ◌, ◌-ℤ◌, ◌==ℤ◌, min_ℤ, leb_ℤ, ==ℤ_eq, int_laws, parts}
use exchange_cpp.Common.{Order, OrderAction, ask, bid, OrderCommand, CommandResultCode}
use exchange_cpp.OrderBook.Events.{send_reduce_event}
use exchange_cpp.OrderBook.Bucket.{OrdersBucket, reduce_size}
use exchange_cpp.OrderBook.Bucket.Volume.{total_size}
use exchange_cpp.OrderBook.Levels.{find_bucket, set_bucket, total_orders_volume}
use exchange_cpp.OrderBook.Levels.Map.{find_bucket-price}
use exchange_cpp.OrderBook.Levels.Placing.{volume_at, total_orders_volume-set_bucket}
use exchange_cpp.OrderBook.Levels.Removing.{side_without, total_orders_volume-side_without}
use exchange_cpp.OrderBook.Book.{
  OrderBook, Result, Reply, ok, fault, buckets_by_action, with_buckets, get_total_orders_volume,
  ◌>>=◌,
}
use exchange_cpp.OrderBook.Book.Wf.{IsWellFormed}
use exchange_cpp.OrderBook.Change.{
  find_own_order, cancel_order, cancel_found, reduce_order, reduce_found, reduce_in_place,
}
use exchange_cpp.OrderBook.Change.Own.{IsOwn, FindsOwn, nobody, own, find_own_order-FindsOwn}
use exchange_cpp.OrderBook.Change.Removal.{book_without}
use exchange_cpp.OrderBook.Change.WellFormed.{forget, removed}

-- If a command succeeds, its events carry what its side of the book loses.
abbrev pub ReportsVolume : OrderBook → Result Reply → Type 0
ReportsVolume book (ok (code, book', cmd')) =
    code ≡ CommandResultCode.success
    → total_size cmd'.matcher_event +ℤ get_total_orders_volume cmd'.action book'
      ≡ get_total_orders_volume cmd'.action book
ReportsVolume book (fault e) = ⊥

get_total_orders_volume-with_buckets :
    (a : OrderAction) (bs : List OrdersBucket) (book : OrderBook)
    → get_total_orders_volume a (with_buckets a bs book) ≡ total_orders_volume bs
get_total_orders_volume-with_buckets ask bs book = refl
get_total_orders_volume-with_buckets bid bs book = refl

one_event :
    (price reserve size : ℤ) (completed : Bool)
    → total_size (send_reduce_event price reserve size completed ∷ []) ≡ size +ℤ pos 0
unfolding total_size send_reduce_event
one_event price reserve size completed = refl

module _ (order_id uid : ℕ) (book : OrderBook) (o : Order) (b : OrdersBucket)
    (w : IsWellFormed book) (mine : IsOwn order_id uid book o b) where
  -- The whole rest of the order leaves the book.
  whole_volume :
      get_total_orders_volume o.action (book_without o b (forget order_id book))
      ≡ get_total_orders_volume o.action book -ℤ (o.size -ℤ o.filled)
  whole_volume = go o.action mine.bucket
    where
      go :
          (a : OrderAction)
          → find_bucket o.price (buckets_by_action a book) ≡ some b
          → get_total_orders_volume a (
              with_buckets a
                (side_without a o b (buckets_by_action a (forget order_id book)))
                (forget order_id book))
            ≡ get_total_orders_volume a book -ℤ (o.size -ℤ o.filled)
      go ask e =
          total_orders_volume-side_without ask o b book.ask_buckets (w.sides ask) e mine.inside
      go bid e =
          total_orders_volume-side_without bid o b book.bid_buckets (w.sides bid) e mine.inside

  -- A part of it leaves the book.
  part_volume :
      (amount : ℤ)
      → total_orders_volume
          (set_bucket o.action (reduce_in_place amount o b) (buckets_by_action o.action book))
        ≡ get_total_orders_volume o.action book -ℤ amount
  unfolding reduce_in_place reduce_size
  part_volume amount =
      let bs = buckets_by_action o.action book in
      let same = ==ℤ_eq o.price b.price (find_bucket-price o.price b bs mine.bucket) in
      let here : volume_at b.price bs ≡ b.total_volume =
        ap (λ p. volume_at p bs) (sym same) ∙ found_volume in
      omega (
        int_laws,
        parts (
            total_orders_volume-set_bucket o.action (reduce_in_place amount o b) bs
              (w.sides o.action).1),
        parts here,
      )
    where
      found_volume : volume_at o.price (buckets_by_action o.action book) ≡ b.total_volume
      found_volume = ground (arith, mine.bucket)

cancel_found-ReportsVolume :
    (book : OrderBook) (cmd : OrderCommand) (o : Order) (b : OrdersBucket)
    → IsWellFormed book
    → IsOwn cmd.order_id cmd.uid book o b
    → ReportsVolume book (cancel_found book cmd o)
unfolding cancel_found
cancel_found-ReportsVolume book cmd o b w mine =
    rw (removed cmd.order_id cmd.uid book o b w mine, cancel_found)
      (λ s. omega (
        int_laws,
        parts (one_event o.price o.reserve_bid_price (o.size -ℤ o.filled) true),
        parts (whole_volume cmd.order_id cmd.uid book o b w mine),
      ))

-- A cancel that succeeds on a well-formed book reports in its event exactly the volume by which the
-- order's side of the book falls.
pub cancel_order-ReportsVolume :
    (book : OrderBook) (cmd : OrderCommand)
    → IsWellFormed book
    → ReportsVolume book (cancel_order book cmd)
unfolding cancel_order
cancel_order-ReportsVolume book cmd w = go (find_own_order-FindsOwn cmd.order_id cmd.uid book w)
  where
    unknown : CommandResultCode.matching_unknown_order_id ≡ CommandResultCode.success → ⊥
    unknown s = cc

    go :
        FindsOwn cmd.order_id cmd.uid book (find_own_order cmd.order_id cmd.uid book)
        → ReportsVolume book (cancel_order book cmd)
    go (nobody e) = rw (e, cancel_order) (λ s. absurd (unknown s))
    go (own o b e mine) = rw (e, cancel_order) (cancel_found-ReportsVolume book cmd o b w mine)

reduce_found-ReportsVolume :
    (book : OrderBook) (cmd : OrderCommand) (o : Order) (b : OrdersBucket)
    → IsWellFormed book
    → IsOwn cmd.order_id cmd.uid book o b
    → ReportsVolume book (reduce_found book cmd o)
unfolding reduce_found
reduce_found-ReportsVolume book cmd o b w mine =
    let reduce_by = min_ℤ (o.size -ℤ o.filled) cmd.size in
    elim (Bool-cases (reduce_by ==ℤ (o.size -ℤ o.filled))) [
      | inl whole ↦
          rw (whole, removed cmd.order_id cmd.uid book o b w mine, reduce_found)
            (λ s. omega (
              int_laws,
              parts (one_event o.price o.reserve_bid_price reduce_by true),
              parts (==ℤ_eq reduce_by (o.size -ℤ o.filled) whole),
              parts (whole_volume cmd.order_id cmd.uid book o b w mine),
            ))
      | inr part ↦
          rw (part, mine.bucket, reduce_found)
            (λ s. omega (
              int_laws,
              parts (one_event o.price o.reserve_bid_price reduce_by false),
              parts (part_volume cmd.order_id cmd.uid book o b w mine reduce_by),
              parts (
                  get_total_orders_volume-with_buckets o.action
                    (set_bucket o.action (reduce_in_place reduce_by o b)
                      (buckets_by_action o.action book))
                    book),
            ))
    ]

-- A reduce that succeeds on a well-formed book reports in its event exactly the volume by which the
-- order's side of the book falls.
pub reduce_order-ReportsVolume :
    (book : OrderBook) (cmd : OrderCommand)
    → IsWellFormed book
    → ReportsVolume book (reduce_order book cmd)
unfolding reduce_order
reduce_order-ReportsVolume book cmd w = elim (Bool-cases (leb_ℤ cmd.size (pos 0))) [
  | inl wrong ↦ rw wrong (λ s. absurd (wrong_size s))
  | inr positive ↦ rw positive (go (find_own_order-FindsOwn cmd.order_id cmd.uid book w))
]
  where
    wrong_size : CommandResultCode.matching_reduce_failed_wrong_size ≡ CommandResultCode.success → ⊥
    wrong_size s = cc

    unknown : CommandResultCode.matching_unknown_order_id ≡ CommandResultCode.success → ⊥
    unknown s = cc

    go :
        FindsOwn cmd.order_id cmd.uid book (find_own_order cmd.order_id cmd.uid book)
        → ReportsVolume book (
            find_own_order cmd.order_id cmd.uid book >>= λ found. elim found [
              | none ↦ ok (CommandResultCode.matching_unknown_order_id, book, cmd)
              | some o ↦ reduce_found book cmd o
            ])
    go (nobody e) = rw (e, ◌>>=◌) (λ s. absurd (unknown s))
    go (own o b e mine) = rw (e, ◌>>=◌) (reduce_found-ReportsVolume book cmd o b w mine)
