-- ===== src/OrderBook/Book/Steps.antt =====
-- Valid sides and the index under TryMatchInstantly and the placing of an order (OrderBookNaiveImpl.cpp).
use exchange_cpp.Base.{
  ℕ, Bool, true, false, Option, none, some, ◌≡◌, refl, inl, inr, arith, Bool-cases, if◌then◌else◌,
  ◌∙◌, sym, ap, ◌==◌, contains,
}
use exchange_cpp.Base.Dict.{lookup, insert}
use exchange_cpp.Base.Int.{ℤ}
use exchange_cpp.Common.{Order, OrderAction, ask, bid, opposite, OrderCommand}
use exchange_cpp.OrderBook.Levels.{match_range, place}
use exchange_cpp.OrderBook.Levels.Map.{AreValid, holds, IsPlaced, IsSorted}
use exchange_cpp.OrderBook.Levels.Placing.{place-AreValid, holds-place}
use exchange_cpp.OrderBook.Levels.Matching.{match_range-AreValid}
use exchange_cpp.OrderBook.Levels.Index.{contains-removed_ids, holds-match_range}
use exchange_cpp.OrderBook.Book.{
  OrderBook, buckets_by_action, with_buckets, try_match_instantly, place_order,
}
use exchange_cpp.OrderBook.Book.Wf.{
  points, HasValidSides, IsIndexed, IsIndexed-IsUnique, points-eq, same_action, lookup-erase_all,
}

module _ (continues : ℤ → Bool) (size r filled : ℤ) where
  -- An id that leaves one side was not held on the other.
  kept_on_other_side :
      (s : OrderAction) (f : ℕ → Option (OrderAction × ℤ)) (book : OrderBook) (k : ℕ) (p : ℤ)
      → IsIndexed f book
      → IsSorted (opposite s) (buckets_by_action (opposite s) book)
      → holds k p (buckets_by_action s book) ≡ true
      → contains k
          (match_range continues size r filled (buckets_by_action (opposite s) book)).removed_ids
        ≡ false
  kept_on_other_side s f book k p ix sorted held =
      let bs = buckets_by_action (opposite s) book in
      elim (Bool-cases (contains k (match_range continues size r filled bs).removed_ids)) [
        | inr absent ↦ absent
        | inl there ↦
            let (q, other) =
              contains-removed_ids continues size r (opposite s) k filled bs sorted there in
            let sides =
              points-eq s (opposite s) p q (f k) (ix k s p ∙ held) (ix k (opposite s) q ∙ other) in
            absurd (apart s sides.0)
      ]
    where
      apart : (t : OrderAction) → same_action t (opposite t) ≡ true → ⊥
      apart ask e = cc
      apart bid e = cc

  pub try_match_instantly-HasValidSides :
      (action : OrderAction) (book : OrderBook) (cmd : OrderCommand)
      → HasValidSides book
      → HasValidSides (try_match_instantly action continues size r filled book cmd).1
  unfolding try_match_instantly
  try_match_instantly-HasValidSides ask book cmd v ask = v ask
  try_match_instantly-HasValidSides ask book cmd v bid =
      match_range-AreValid continues size r bid filled book.bid_buckets (v bid)
  try_match_instantly-HasValidSides bid book cmd v ask =
      match_range-AreValid continues size r ask filled book.ask_buckets (v ask)
  try_match_instantly-HasValidSides bid book cmd v bid = v bid

  -- The ids that the matching erases from the index.
  abbrev pub without_removed :
      OrderAction → OrderBook → (ℕ → Option (OrderAction × ℤ)) → ℕ → Option (OrderAction × ℤ)
  without_removed action book f k =
      if contains k
        (match_range continues size r filled (buckets_by_action (opposite action) book)).removed_ids
      then none
      else f k

  pub try_match_instantly-IsIndexed :
      (action : OrderAction) (f : ℕ → Option (OrderAction × ℤ)) (book : OrderBook)
      (cmd : OrderCommand)
      → HasValidSides book
      → IsIndexed f book
      → IsIndexed
          (without_removed action book f)
          (try_match_instantly action continues size r filled book cmd).1
  unfolding try_match_instantly
  try_match_instantly-IsIndexed ask f book cmd v ix k ask p =
      ground (arith, ix k ask p, kept_on_other_side ask f book k p ix (v bid).1)
  try_match_instantly-IsIndexed ask f book cmd v ix k bid p = ground (
    arith,
    ix k bid p,
    holds-match_range continues size r bid k p filled book.bid_buckets (v bid)
        (IsIndexed-IsUnique f book bid ix),
  )
  try_match_instantly-IsIndexed bid f book cmd v ix k ask p = ground (
    arith,
    ix k ask p,
    holds-match_range continues size r ask k p filled book.ask_buckets (v ask)
        (IsIndexed-IsUnique f book ask ix),
  )
  try_match_instantly-IsIndexed bid f book cmd v ix k bid p =
      ground (arith, ix k bid p, kept_on_other_side bid f book k p ix (v ask).1)

  pub lookup-try_match_instantly :
      (action : OrderAction) (book : OrderBook) (cmd : OrderCommand) (k : ℕ)
      → lookup k (try_match_instantly action continues size r filled book cmd).1.id_map
        ≡ without_removed action book (λ j. lookup j book.id_map) k
  unfolding try_match_instantly
  lookup-try_match_instantly action book cmd k = lookup-erase_all k _ book.id_map

not_held :
    (f : ℕ → Option (OrderAction × ℤ)) (book : OrderBook) (k : ℕ) (s : OrderAction) (p : ℤ)
    → IsIndexed f book
    → f k ≡ none
    → holds k p (buckets_by_action s book) ≡ false
not_held f book k s p ix e = sym (ix k s p) ∙ ap (points s p) e

pub place_order-HasValidSides :
    (f : ℕ → Option (OrderAction × ℤ)) (o : Order) (book : OrderBook)
    → HasValidSides book
    → IsIndexed f book
    → f o.order_id ≡ none
    → IsPlaced o.action o.price o
    → HasValidSides (place_order o book)
unfolding place_order
place_order-HasValidSides f o book v ix new p s = go o.action s refl
  where
    go :
        (a s : OrderAction)
        → o.action ≡ a
        → AreValid s (
            buckets_by_action s
              (record (with_buckets a (place a o (buckets_by_action a book)) book) {
                id_map = insert o.order_id (o.action, o.price) book.id_map;
              }))
    go ask ask e =
        place-AreValid ask o book.ask_buckets (v ask) (p.0, p.1, p.2, e)
          (not_held f book o.order_id ask o.price ix new)
    go ask bid e = v bid
    go bid ask e = v ask
    go bid bid e =
        place-AreValid bid o book.bid_buckets (v bid) (p.0, p.1, p.2, e)
          (not_held f book o.order_id bid o.price ix new)

-- The index with a new place.
abbrev pub with_place : Order → (ℕ → Option (OrderAction × ℤ)) → ℕ → Option (OrderAction × ℤ)
with_place o f k = if k == o.order_id then some (o.action, o.price) else f k

pub place_order-IsIndexed :
    (f : ℕ → Option (OrderAction × ℤ)) (o : Order) (book : OrderBook)
    → IsIndexed f book
    → f o.order_id ≡ none
    → IsIndexed (with_place o f) (place_order o book)
unfolding place_order
place_order-IsIndexed f o book ix new k s p = go o.action s
  where
    go :
        (a s : OrderAction)
        → points s p (if k == o.order_id then some (a, o.price) else f k)
          ≡ holds k p (
              buckets_by_action s
                (record (with_buckets a (place a o (buckets_by_action a book)) book) {
                  id_map = insert o.order_id (o.action, o.price) book.id_map;
                }))
    go ask ask =
        ground (arith, ix k ask p, ix o.order_id ask p, holds-place ask k p o book.ask_buckets)
    go ask bid = ground (arith, ix k bid p, ix o.order_id bid p)
    go bid ask = ground (arith, ix k ask p, ix o.order_id ask p)
    go bid bid =
        ground (arith, ix k bid p, ix o.order_id bid p, holds-place bid k p o book.bid_buckets)
