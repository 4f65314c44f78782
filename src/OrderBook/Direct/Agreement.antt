-- ===== src/OrderBook/Direct/Agreement.antt =====
-- OrderBookDirectImpl.cpp and OrderBookNaiveImpl.cpp: `tryMatchInstantly` of the two order books.
use exchange_cpp.Base.{
  ℕ, ◌≤◌, true, false, Option, none, some, List, [], ◌∷◌, ◌≡◌, refl, arith, length, inl, inr,
  Bool-cases, sym, subst, ◌∙◌, ap, length-append,
}
use exchange_cpp.Base.Int.{
  ℤ, pos, ◌-ℤ◌, ◌==ℤ◌, ◌≤ℤ◌, ltb_ℤ, int_laws, parts, ==ℤ_eq, ==ℤ_ne, ltb_of_le_ℤ, ltb_ℤ_of_lt,
}
use exchange_cpp.Common.{Order, OrderAction, ask, bid, opposite, OrderCommand}
use exchange_cpp.OrderBook.Bucket.{OrdersBucket}
use exchange_cpp.OrderBook.Levels.{RangeResult, match_range, should_continue, orders_num}
use exchange_cpp.OrderBook.Levels.Matching.{match_range-AreValid}
use exchange_cpp.OrderBook.Book.{
  OrderBook, buckets_by_action, erase_all, with_events, try_match_instantly,
}
use exchange_cpp.OrderBook.PriceMap.{PriceMap}
use exchange_cpp.OrderBook.Direct.{DirectBook, side_of}
use exchange_cpp.OrderBook.Direct.Chain.{
  Cell, Level, head_pointer, orders_of, pointers, pointers_in, naive_bucket, naive_buckets,
  Represents,
}
use exchange_cpp.OrderBook.Direct.Represents.{IsSound, first_object}
use exchange_cpp.OrderBook.Direct.Stepwise.{match_range_idle}
use exchange_cpp.OrderBook.Direct.Swept.{match_range_stop}
use exchange_cpp.OrderBook.Direct.Matching.{limit_price, match_from, match_best, try_match_direct}
use exchange_cpp.OrderBook.Direct.Refines.{resume-sweep}
use exchange_cpp.OrderBook.Direct.Loop.{resume-match_range}
use exchange_cpp.OrderBook.Direct.Mirrors.{
  Mirrors, MirrorsSide, finish_sweep-MirrorsSide, after_match, matched_book, Mirrors-after_match,
}

module _ {T : Type 0} (prices : PriceMap T) where
  -- What a run leaves, where the naive matching gives `r`.
  abbrev Matches :
      OrderAction
      → DirectBook T
      → OrderBook
      → OrderCommand
      → RangeResult
      → Option (ℤ × DirectBook T × OrderCommand)
      → Type 0
  Matches other book naive cmd r out =
      (book' : DirectBook T) × (out ≡ some (r.filled, book', with_events r.events cmd))
      × Mirrors prices book' (after_match other r naive)

  -- The run that stops before the loop.
  Matches-idle :
      (other : OrderAction) (book : DirectBook T) (naive : OrderBook) (cmd : OrderCommand)
      (filled : ℤ) (bs : List OrdersBucket)
      → Mirrors prices book naive
      → bs ≡ buckets_by_action other naive
      → Matches other book naive cmd
          (record { filled = filled; events = []; removed_ids = []; buckets = bs })
          (some (filled, book, cmd))
  unfolding erase_all
  Matches-idle ask book naive cmd filled bs m e = rw e (book, refl, m)
  Matches-idle bid book naive cmd filled bs m e = rw e (book, refl, m)

  -- The run through the loop.
  match_from-Matches :
      (fuel : ℕ) (limit : ℤ) (taker : Order) (book : DirectBook T) (naive : OrderBook)
      (cmd : OrderCommand) (l : Level) (ls : List Level)
      → Mirrors prices book naive
      → Represents prices none (side_of (opposite taker.action) book) (l ∷ ls)
      → IsSound (opposite taker.action) (l ∷ ls)
      → ltb_ℤ (pos 0) (taker.size -ℤ taker.filled) ≡ true
      → should_continue taker.action limit l.price ≡ true
      → length (pointers (l ∷ ls)) ≤ fuel
      → Matches
          (opposite taker.action)
          book
          naive
          cmd
          (match_range
            (should_continue taker.action limit)
            taker.size
            taker.reserve_bid_price
            taker.filled
            (naive_buckets (l ∷ ls)))
          (match_from prices fuel limit taker l.first.pointer book cmd)
  unfolding match_from
  match_from-Matches fuel limit taker book naive cmd l ls m rep d more go le =
      let other = opposite taker.action in
      let side = side_of other book in
      let continues = should_continue taker.action limit in
      let left = taker.size -ℤ taker.filled in
      let range =
        match_range continues taker.size taker.reserve_bid_price taker.filled
          (naive_buckets (l ∷ ls)) in
      let swept =
        resume-match_range prices taker.action limit taker.size taker.reserve_bid_price fuel side
          book.order_id_index [] taker.filled 0 none (l ∷ ls) rep d le in
      let runs =
        resume-sweep prices taker.action limit taker.size taker.reserve_bid_price fuel side
          book.order_id_index [] left 0 none l.bucket l.price l.first l.others ls rep d more go in
      let valid =
        match_range-AreValid continues taker.size taker.reserve_bid_price other taker.filled
          (naive_buckets (l ∷ ls)) d.valid in
      let ends =
        finish_sweep-MirrorsSide prices other swept.final swept.next swept.rest swept.maker
          swept.represented
          (record {
            orders = swept.orders;
            buckets = swept.buckets;
            valid = rw swept.levels valid;
          }) in
      let filled : taker.size -ℤ (taker.size -ℤ range.filled) ≡ range.filled = omega int_laws in
      (
        matched_book other ends.0 range book,
        rw
            (
              first_object side.orders l.bucket none l.first l.others ls rep.0,
              rep.1,
              sym runs ∙ swept.returns,
              ends.1,
              swept.remaining,
              filled,
              swept.trades,
              swept.erased,
            )
            refl,
        Mirrors-after_match prices other book naive ends.0 range m
            (subst (MirrorsSide prices other ends.0) swept.levels ends.2),
      )

  -- The best order of the other side is at hand.
  match_best-Matches :
      (fuel : ℕ) (taker : Order) (book : DirectBook T) (naive : OrderBook) (cmd : OrderCommand)
      (ls : List Level)
      → Mirrors prices book naive
      → Represents prices none (side_of (opposite taker.action) book) ls
      → IsSound (opposite taker.action) ls
      → naive_buckets ls ≡ buckets_by_action (opposite taker.action) naive
      → taker.filled ≤ℤ taker.size
      → length (pointers ls) ≤ fuel
      → Matches
          (opposite taker.action)
          book
          naive
          cmd
          (match_range
            (should_continue taker.action (limit_price cmd taker))
            taker.size
            taker.reserve_bid_price
            taker.filled
            (naive_buckets ls))
          (match_best prices fuel taker (head_pointer ls) book cmd)
  unfolding match_best
  match_best-Matches fuel taker book naive cmd [] m rep d e bound le =
      unfold match_range in Matches-idle (opposite taker.action) book naive cmd taker.filled [] m e
  match_best-Matches fuel taker book naive cmd (l ∷ ls) m rep d e bound le =
      let other = opposite taker.action in
      let side = side_of other book in
      let limit = limit_price cmd taker in
      let continues = should_continue taker.action limit in
      let left = taker.size -ℤ taker.filled in
      let at : l.first.order.price ≡ l.price = d.valid.0.0.placed.0.2 in
      let idle = Matches-idle other book naive cmd taker.filled (naive_buckets (l ∷ ls)) m e in
      let first = first_object side.orders l.bucket none l.first l.others ls rep.0 in
      elim (Bool-cases (continues l.price)) [
        | inr far ↦
            rw
              (
                first,
                ap continues at,
                far,
                match_range_stop continues taker.size taker.reserve_bid_price taker.filled
                    (naive_bucket l) (naive_buckets ls) far,
              )
              idle
        | inl go ↦ elim (Bool-cases (left ==ℤ pos 0)) [
          | inl zero_left ↦
              let used : ltb_ℤ (pos 0) left ≡ false =
                ltb_of_le_ℤ (pos 0) left
                  (omega (int_laws, parts (==ℤ_eq left (pos 0) zero_left))) in
              rw
                (
                  first,
                  ap continues at,
                  go,
                  zero_left,
                  match_range_idle continues taker.size taker.reserve_bid_price other taker.filled
                      (naive_buckets (l ∷ ls)) used d.valid.0,
                )
                idle
          | inr some_left ↦
              let more : ltb_ℤ (pos 0) left ≡ true =
                ltb_ℤ_of_lt (pos 0) left (omega (int_laws, ==ℤ_ne left (pos 0) some_left)) in
              rw (first, ap continues at, go, some_left)
                (match_from-Matches fuel limit taker book naive cmd l ls m rep d more go le)
        ]
      ]

  orders_num-pointers : (ls : List Level) → length (pointers ls) ≡ orders_num (naive_buckets ls)
  unfolding orders_num
  orders_num-pointers [] = refl
  orders_num-pointers (l ∷ ls) = omega (
    arith,
    length-append (pointers_in l.others) (pointers ls),
    orders_num-pointers ls,
    length-pointers_in l.others,
  )
    where
      length-pointers_in : (cs : List Cell) → length (pointers_in cs) ≡ length (orders_of cs)
      length-pointers_in [] = refl
      length-pointers_in (c ∷ cs) = omega (arith, length-pointers_in cs)

  -- Let a direct book and a naive book hold the same orders: on each side the objects are linked
  -- into the levels of the naive buckets with their volumes, counts and places in the map of
  -- prices, and both indexes know the same ids. For a taker who is not overfilled, and fuel for as
  -- many steps as there are orders on the other side, tryMatchInstantly of the direct book returns,
  -- with no dangling pointer, the filled size and the events of the naive book at the same limit,
  -- and leaves two books that hold the same orders again.
  pub try_match_direct-try_match_instantly :
      (fuel : ℕ) (taker : Order) (book : DirectBook T) (naive : OrderBook) (cmd : OrderCommand)
      → Mirrors prices book naive
      → taker.filled ≤ℤ taker.size
      → orders_num (buckets_by_action (opposite taker.action) naive) ≤ fuel
      → (let n =
            try_match_instantly taker.action
              (should_continue taker.action (limit_price cmd taker))
              taker.size
              taker.reserve_bid_price
              taker.filled
              naive
              cmd in
          (book' : DirectBook T) × (try_match_direct prices fuel taker book cmd
            ≡ some (n.0, book', n.2))
          × Mirrors prices book' n.1)
  unfolding try_match_direct try_match_instantly
  try_match_direct-try_match_instantly fuel taker book naive cmd m bound le =
      let side = m.sides (opposite taker.action) in
      let counted = orders_num-pointers side.levels in
      let enough : length (pointers side.levels) ≤ fuel =
        omega (arith, le, counted, ap orders_num side.buckets) in
      rw (side.best, ← side.buckets)
        (match_best-Matches fuel taker book naive cmd side.levels m side.chain side.sound
          side.buckets bound enough)
