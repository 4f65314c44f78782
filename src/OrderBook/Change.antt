-- ===== src/OrderBook/Change.antt =====
-- OrderBookNaiveImpl.cpp: `CancelOrder`, `ReduceOrder` and `MoveOrder`.
pub mod Own
pub mod Removal
pub mod Reduction
pub mod WellFormed
pub mod Move
pub mod Volumes
use exchange_cpp.Base.{
  ℕ, ◌∷◌, [], List, Bool, true, false, ◌&&◌, Option, none, some, if◌then◌else◌, ◌==◌,
}
use exchange_cpp.Base.Dict.{lookup, erase}
use exchange_cpp.Base.Int.{ℤ, pos, ◌-ℤ◌, ltb_ℤ, leb_ℤ, ◌==ℤ◌, min_ℤ}
use exchange_cpp.Common.{
  Order, is_bid, OrderCommand, CommandResultCode, currency_exchange_pair, futures_contract, option,
}
use exchange_cpp.OrderBook.Events.{send_reduce_event}
use exchange_cpp.OrderBook.Bucket.{OrdersBucket, remove, reduce_size}
use exchange_cpp.OrderBook.Levels.{find_bucket, set_bucket, erase_bucket, place, should_continue}
use exchange_cpp.OrderBook.Book.{
  bucket_not_found, dangling_order, Result, ok, fault, ◌>>=◌, or_fault, OrderBook, Reply,
  buckets_by_action, with_buckets, try_match_instantly, place_order, order_at,
}

-- The first test of a cancel, a reduce and a move: `none` if the id is unknown or another user's.
unfoldable pub find_own_order : ℕ → ℕ → OrderBook → Result (Option Order)
find_own_order order_id uid book = elim (lookup order_id book.id_map) [
  | none ↦ ok none
  | some place ↦ elim (order_at order_id place book) [
    | none ↦ fault dangling_order
    | some o ↦ ok (if o.uid == uid then some o else none)
  ]
]

-- An order leaves its bucket, and the bucket the book if no volume is left in it.
unfoldable pub remove_from_bucket : Order → ℕ → OrderBook → Result OrderBook
remove_from_bucket o uid book = do
  let bs = buckets_by_action o.action book
  b ← or_fault (find_bucket o.price bs) bucket_not_found
  let b' = (remove o.order_id uid b).1
  ok (
      with_buckets o.action
        (if b'.total_volume ==ℤ pos 0 then erase_bucket o.price bs else set_bucket o.action b' bs)
        book)

-- `CancelOrder` of an order that is the user's.
unfoldable pub cancel_found : OrderBook → OrderCommand → Order → Result Reply
cancel_found book cmd o = do
  book' ← remove_from_bucket o cmd.uid (record book { id_map = erase cmd.order_id book.id_map })
  let event = send_reduce_event o.price o.reserve_bid_price (o.size -ℤ o.filled) true
  ok (
    CommandResultCode.success,
    book',
    record cmd { matcher_event = event ∷ []; action = o.action },
  )

unfoldable pub cancel_order : OrderBook → OrderCommand → Result Reply
unfolding cancel_found
cancel_order book cmd = do
  found ← find_own_order cmd.order_id cmd.uid book
  elim found [
    | none ↦ ok (CommandResultCode.matching_unknown_order_id, book, cmd)
    | some o ↦ cancel_found book cmd o
  ]

-- An order is changed where it stands in its bucket.
unfoldable pub update_by_id : Order → List Order → List Order
update_by_id o [] = []
update_by_id o (x ∷ os) = if o.order_id == x.order_id then o ∷ os else x ∷ update_by_id o os

-- The branch of `ReduceOrder` that leaves the order in the book.
unfoldable pub reduce_in_place : ℤ → Order → OrdersBucket → OrdersBucket
reduce_in_place reduce_by o b =
    reduce_size reduce_by
      (record b { orders = update_by_id (record o { size = o.size -ℤ reduce_by }) b.orders })

-- `ReduceOrder` of an order that is the user's.
unfoldable pub reduce_found : OrderBook → OrderCommand → Order → Result Reply
unfolding reduce_in_place
reduce_found book cmd o =
    let remaining_size = o.size -ℤ o.filled in
    let reduce_by = min_ℤ remaining_size cmd.size in
    if reduce_by ==ℤ remaining_size
    then (do
      book' ← remove_from_bucket o cmd.uid (record book { id_map = erase cmd.order_id book.id_map })
      let event = send_reduce_event o.price o.reserve_bid_price reduce_by true
      ok (
        CommandResultCode.success,
        book',
        record cmd { matcher_event = event ∷ []; action = o.action },
      ))
    else (do
      let bs = buckets_by_action o.action book
      b ← or_fault (find_bucket o.price bs) bucket_not_found
      let event = send_reduce_event o.price o.reserve_bid_price reduce_by false
      ok (
        CommandResultCode.success,
        with_buckets o.action (set_bucket o.action (reduce_in_place reduce_by o b) bs) book,
        record cmd { matcher_event = event ∷ []; action = o.action },
      ))

unfoldable pub reduce_order : OrderBook → OrderCommand → Result Reply
unfolding reduce_found
reduce_order book cmd =
    if leb_ℤ cmd.size (pos 0)
    then ok (CommandResultCode.matching_reduce_failed_wrong_size, book, cmd)
    else (do
      found ← find_own_order cmd.order_id cmd.uid book
      elim found [
        | none ↦ ok (CommandResultCode.matching_unknown_order_id, book, cmd)
        | some o ↦ reduce_found book cmd o
      ])

-- The check of a move against the price at which a bid's funds are held.
unfoldable pub over_risk_limit : OrderBook → OrderCommand → Order → Bool
over_risk_limit book cmd o =
    let is_exchange : Bool = elim book.symbol_spec.symbol_type [
      | currency_exchange_pair ↦ true
      | futures_contract ↦ false
      | option ↦ false
    ] in
    is_exchange && (is_bid o.action && ltb_ℤ o.reserve_bid_price cmd.price)

-- `MoveOrder`, after the matching at the new price. The pointer in `idMap_` stays, and its order
-- has a new place.
unfoldable pub place_moved : Order → ℤ × OrderBook × OrderCommand → Reply
place_moved o (filled, book, cmd) =
    if filled ==ℤ o.size
    then (CommandResultCode.success, record book { id_map = erase o.order_id book.id_map }, cmd)
    else (CommandResultCode.success, place_order (record o { filled = filled }) book, cmd)

-- `MoveOrder` of an order that is the user's.
unfoldable pub move_found : OrderBook → OrderCommand → Order → Result Reply
unfolding place_moved
move_found book cmd o =
    let cmd' = record cmd { action = o.action } in
    if over_risk_limit book cmd o
    then ok (CommandResultCode.matching_move_failed_price_over_risk_limit, book, cmd')
    else (do
      book' ← remove_from_bucket o cmd.uid book
      let o' = record o { price = cmd.price }
      ok (
          place_moved o' (
            try_match_instantly o.action (should_continue o.action cmd.price) o.size
              o.reserve_bid_price o.filled book' cmd')))

unfoldable pub move_order : OrderBook → OrderCommand → Result Reply
unfolding move_found
move_order book cmd = do
  found ← find_own_order cmd.order_id cmd.uid book
  elim found [
    | none ↦ ok (CommandResultCode.matching_unknown_order_id, book, cmd)
    | some o ↦ move_found book cmd o
  ]
