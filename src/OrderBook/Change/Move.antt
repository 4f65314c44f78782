-- ===== src/OrderBook/Change/Move.antt =====
-- MoveOrder of OrderBookNaiveImpl.cpp on a well-formed book.
use exchange_cpp.Base.{
  ℕ, false, Option, none, some, ◌≡◌, refl, inl, inr, arith, Bool-cases, if◌then◌else◌, ◌∙◌, ap,
  ◌==◌, ==_refl,
}
use exchange_cpp.Base.Dict.{lookup, erase, lookup-erase}
use exchange_cpp.Base.Int.{ℤ, ◌<ℤ◌, ◌==ℤ◌, ==ℤ_ne, int_laws}
use exchange_cpp.Common.{Order, OrderAction, ask, bid, OrderCommand}
use exchange_cpp.OrderBook.Bucket.{OrdersBucket}
use exchange_cpp.OrderBook.Levels.{should_continue}
use exchange_cpp.OrderBook.Book.{OrderBook, try_match_instantly, ◌>>=◌}
use exchange_cpp.OrderBook.Book.Wf.{IsWellFormed, HasValidSides, IsIndexed, IsUncrossed, points}
use exchange_cpp.OrderBook.Book.Steps.{
  try_match_instantly-HasValidSides, try_match_instantly-IsIndexed, lookup-try_match_instantly,
  without_removed,
}
use exchange_cpp.OrderBook.Book.Uncrossed.{
  try_match_instantly-IsUncrossed, place_order-IsWellFormed,
}
use exchange_cpp.OrderBook.NewOrder.WellFormed.{IsMatched, try_match_instantly-IsMatched}
use exchange_cpp.OrderBook.Change.{
  find_own_order, over_risk_limit, place_moved, move_found, move_order,
}
use exchange_cpp.OrderBook.Change.Own.{IsOwn, FindsOwn, nobody, own, find_own_order-FindsOwn}
use exchange_cpp.OrderBook.Change.Removal.{
  book_without, remove_from_bucket_lem, book_without-HasValidSides, book_without-IsIndexed,
  book_without-IsUncrossed,
}
use exchange_cpp.OrderBook.Change.WellFormed.{KeepsWellFormed, id_map-book_without}

module _ (book : OrderBook) (cmd cmd' : OrderCommand) (o : Order) (b : OrdersBucket)
    (w : IsWellFormed book) (mine : IsOwn cmd.order_id cmd.uid book o b) where
  -- The places before the move.
  abbrev known : ℕ → Option (OrderAction × ℤ)
  known k = lookup k book.id_map

  abbrev rest : OrderBook
  rest = book_without o b book

  rest_sides : HasValidSides rest
  rest_sides = book_without-HasValidSides known o b book w.sides mine.bucket mine.inside

  abbrev matching : ℤ × OrderBook × OrderCommand
  matching =
      try_match_instantly o.action (should_continue o.action cmd.price) o.size o.reserve_bid_price
        o.filled rest cmd'

  -- The places after the matching, where the moved order has none.
  abbrev places : ℕ → Option (OrderAction × ℤ)
  places =
      without_removed (should_continue o.action cmd.price) o.size o.reserve_bid_price o.filled
        o.action rest (λ k. if k == o.order_id then none else known k)

  matching_sides : HasValidSides matching.1
  matching_sides =
      try_match_instantly-HasValidSides (should_continue o.action cmd.price) o.size
        o.reserve_bid_price o.filled o.action rest cmd' rest_sides

  matching_index : IsIndexed places matching.1
  matching_index =
      try_match_instantly-IsIndexed (should_continue o.action cmd.price) o.size o.reserve_bid_price
        o.filled o.action (λ k. if k == o.order_id then none else known k) rest cmd' rest_sides
        (book_without-IsIndexed known o b book w.sides mine.bucket mine.inside w.index)

  matching-IsUncrossed : IsUncrossed matching.1
  matching-IsUncrossed =
      try_match_instantly-IsUncrossed (should_continue o.action cmd.price) o.size
        o.reserve_bid_price o.filled o.action rest cmd'
        (book_without-IsUncrossed known o b book w.sides mine.bucket mine.inside w.uncrossed)

  -- The index still has the moved order at its old place, and is right elsewhere.
  lookup-matching : (k : ℕ) → (k == o.order_id) ≡ false → lookup k matching.1.id_map ≡ places k
  lookup-matching k other =
      lookup-try_match_instantly (should_continue o.action cmd.price) o.size o.reserve_bid_price
        o.filled o.action rest cmd' k
      ∙ rw (id_map-book_without o b book, other)

  new_place : places o.order_id ≡ none
  new_place = ground (arith, ==_refl o.order_id)

  erased : (k : ℕ) → lookup k (erase o.order_id matching.1.id_map) ≡ places k
  erased k = lookup-erase k o.order_id matching.1.id_map ∙ ground (arith, lookup-matching k)

  bounds : IsMatched o.action cmd.price o.size matching.0 matching.1
  bounds =
      try_match_instantly-IsMatched o.action cmd.price o.size o.reserve_bid_price o.filled rest cmd'
        rest_sides mine.live.0 (omega (int_laws, mine.live.1))

  place_moved-IsWellFormed : IsWellFormed (place_moved (record o { price = cmd.price }) matching).1
  unfolding place_moved
  place_moved-IsWellFormed = elim (Bool-cases (matching.0 ==ℤ o.size)) [
    | inl full ↦ rw full (record {
      sides = λ s. same_sides s;
      index = λ k s p. ap (points s p) (erased k) ∙ same_index k s p;
      uncrossed = matching-IsUncrossed;
    })
    | inr part ↦
        let lt : matching.0 <ℤ o.size =
          omega (int_laws, ==ℤ_ne matching.0 o.size part, bounds.to) in
        rw part (
          place_order-IsWellFormed places (record o { price = cmd.price; filled = matching.0 })
            matching.1 matching_sides matching_index placed_index new_place matching-IsUncrossed
            (bounds.from, lt, refl, refl) (bounds.outside lt))
  ]
    where
      same_sides : HasValidSides (record matching.1 { id_map = erase o.order_id matching.1.id_map })
      same_sides ask = matching_sides ask
      same_sides bid = matching_sides bid

      same_index :
          IsIndexed places (record matching.1 { id_map = erase o.order_id matching.1.id_map })
      same_index k ask p = matching_index k ask p
      same_index k bid p = matching_index k bid p

      placed_index :
          (k : ℕ)
          → (if k == o.order_id then some (o.action, cmd.price) else lookup k matching.1.id_map)
            ≡ (if k == o.order_id then some (o.action, cmd.price) else places k)
      placed_index k = ground (arith, lookup-matching k)

move_found-KeepsWellFormed :
    (book : OrderBook) (cmd : OrderCommand) (o : Order) (b : OrdersBucket)
    → IsWellFormed book
    → IsOwn cmd.order_id cmd.uid book o b
    → KeepsWellFormed (move_found book cmd o)
unfolding move_found
move_found-KeepsWellFormed book cmd o b w mine = elim (Bool-cases (over_risk_limit book cmd o)) [
  | inl over ↦ rw over w
  | inr fine ↦
      rw (fine, remove_from_bucket_lem o cmd.uid b book mine.bucket mine.inside mine.owner, ◌>>=◌)
        (place_moved-IsWellFormed book cmd (record cmd { action = o.action }) o b w mine)
]

-- A move on a well-formed book ends with a reply, never with an exception or a dangling pointer,
-- and leaves a well-formed book.
pub move_order-KeepsWellFormed :
    (book : OrderBook) (cmd : OrderCommand)
    → IsWellFormed book
    → KeepsWellFormed (move_order book cmd)
unfolding move_order
move_order-KeepsWellFormed book cmd w = go (find_own_order-FindsOwn cmd.order_id cmd.uid book w)
  where
    go :
        FindsOwn cmd.order_id cmd.uid book (find_own_order cmd.order_id cmd.uid book)
        → KeepsWellFormed (move_order book cmd)
    go (nobody e) = rw (e, move_order) w
    go (own o b e mine) = rw (e, move_order) (move_found-KeepsWellFormed book cmd o b w mine)
