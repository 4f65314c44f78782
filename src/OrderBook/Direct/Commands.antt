-- ===== src/OrderBook/Direct/Commands.antt =====
-- OrderBookDirectImpl.cpp: `NewOrder`, `CancelOrder`, `MoveOrder` and `ReduceOrder`. The fuel is that
-- of the loops, the pointers are those of the objects that the pool hands out.
use exchange_cpp.Base.{ℕ, Bool, true, false, ◌&&◌, Option, none, some, [], ◌∷◌, ◌==◌, if◌then◌else◌}
use exchange_cpp.Base.Dict.{lookup, insert, erase}
use exchange_cpp.Base.Int.{ℤ, pos, ◌-ℤ◌, ltb_ℤ, leb_ℤ, ◌==ℤ◌, min_ℤ}
use exchange_cpp.Common.{
  Order, OrderAction, is_bid, OrderCommand, OrderType, CommandResultCode, CoreSymbolSpecification,
  currency_exchange_pair, futures_contract, option,
}
use exchange_cpp.OrderBook.Events.{attach_reject_event, send_reduce_event}
use exchange_cpp.OrderBook.PriceMap.{PriceMap}
use exchange_cpp.OrderBook.Direct.{
  ◌>>=◌, DirectOrder, DirectBook, side_of, with_side, store_order, free_order, store_bucket,
  free_if_any, remove_order, insert_order,
}
use exchange_cpp.OrderBook.Direct.Matching.{try_match_direct}
use exchange_cpp.OrderBook.Direct.Queries.{check_budget_to_fill, direct_limit_satisfied}

-- `tempOrder`, and the fields of a new order that is filled so far.
abbrev pub order_of : OrderCommand → ℤ → Order
order_of cmd filled = record {
  order_id = cmd.order_id;
  price = cmd.price;
  size = cmd.size;
  filled = filled;
  reserve_bid_price = cmd.reserve_bid_price;
  action = cmd.action;
  uid = cmd.uid;
  timestamp = cmd.timestamp;
}

-- The check of a move against the price at which a bid's funds are held.
unfoldable pub moves_over_limit : CoreSymbolSpecification → OrderCommand → Order → Bool
moves_over_limit spec cmd o =
    let is_exchange : Bool = elim spec.symbol_type [
      | currency_exchange_pair ↦ true
      | futures_contract ↦ false
      | option ↦ false
    ] in
    is_exchange && (is_bid o.action && ltb_ℤ o.reserve_bid_price cmd.price)

module _ {T : Type 0} (prices : PriceMap T) where
  abbrev pub DirectReply : Type 0
  DirectReply = CommandResultCode × DirectBook T × OrderCommand

  -- The order `p` with the fields `o` is put into the chain of its side.
  unfoldable pub place_direct : ℕ → Order → Option ℕ → ℕ → DirectBook T → Option (DirectBook T)
  place_direct p o free fresh book = do
    s ← insert_order prices p o free fresh (side_of o.action book)
    some (with_side o.action s book)

  -- A `GTC` order that is not filled, after the matching.
  unfoldable pub rest_gtc :
      ℕ → ℕ → OrderCommand → ℤ × DirectBook T × OrderCommand → Option (DirectBook T × OrderCommand)
  rest_gtc p fresh cmd (filled, book, cmd') = elim (lookup cmd.order_id book.order_id_index) [
    | some _ ↦ some (book, attach_reject_event cmd' (cmd.size -ℤ filled))
    | none ↦ do
      let index = insert cmd.order_id (cmd.action, p) book.order_id_index
      book' ←
          place_direct p (order_of cmd filled) none fresh (record book { order_id_index = index })
      some (book', cmd')
  ]

  unfoldable pub direct_gtc :
      ℕ → ℕ → ℕ → DirectBook T → OrderCommand → Option (DirectBook T × OrderCommand)
  direct_gtc fuel p fresh book cmd = do
    r ← try_match_direct prices fuel (order_of cmd (pos 0)) book cmd
    if r.0 ==ℤ cmd.size then some (r.1, r.2) else rest_gtc p fresh cmd r

  unfoldable pub direct_ioc : ℕ → DirectBook T → OrderCommand → Option (DirectBook T × OrderCommand)
  direct_ioc fuel book cmd = do
    r ← try_match_direct prices fuel (order_of cmd (pos 0)) book cmd
    let rejected_size = cmd.size -ℤ r.0
    some (r.1, if rejected_size ==ℤ pos 0 then r.2 else attach_reject_event r.2 rejected_size)

  unfoldable pub direct_fok_budget :
      ℕ → DirectBook T → OrderCommand → Option (DirectBook T × OrderCommand)
  direct_fok_budget fuel book cmd = do
    budget ← check_budget_to_fill fuel cmd.action cmd.size book
    if direct_limit_satisfied cmd.action budget cmd.price
        then (do r ← try_match_direct prices fuel (order_of cmd (pos 0)) book cmd; some (r.1, r.2))
        else some (book, attach_reject_event cmd cmd.size)

  -- `NewOrder`
  unfoldable pub direct_new_order :
      OrderType → ℕ → ℕ → ℕ → DirectBook T → OrderCommand → Option (DirectBook T × OrderCommand)
  direct_new_order OrderType.gtc fuel p fresh book cmd = direct_gtc fuel p fresh book cmd
  direct_new_order OrderType.ioc fuel p fresh book cmd = direct_ioc fuel book cmd
  direct_new_order OrderType.fok_budget fuel p fresh book cmd = direct_fok_budget fuel book cmd
  direct_new_order OrderType.ioc_budget fuel p fresh book cmd =
      some (book, attach_reject_event cmd cmd.size)
  direct_new_order OrderType.fok fuel p fresh book cmd =
      some (book, attach_reject_event cmd cmd.size)

  -- The first test of a cancel, a reduce and a move: the side, the pointer and the object, and
  -- `some none` if the id is unknown or another user's.
  unfoldable pub find_direct :
      OrderCommand → DirectBook T → Option (Option (OrderAction × ℕ × DirectOrder))
  find_direct cmd book = elim (lookup cmd.order_id book.order_id_index) [
    | none ↦ some none
    | some place ↦ do
      o ← (side_of place.0 book).orders place.1
      some (if o.order.uid == cmd.uid then some (place.0, place.1, o) else none)
  ]

  -- The order `p` leaves the chain of its side, and its object and an unused bucket are released.
  unfoldable pub release_order : OrderAction → ℕ → DirectBook T → Option (DirectBook T)
  release_order action p book = do
    r ← remove_order prices p (side_of action book)
    some (with_side action (free_order p (free_if_any r.1 r.0)) book)

  -- `CancelOrder` of an order that is the user's.
  unfoldable pub direct_cancel_found :
      OrderAction × ℕ × DirectOrder → DirectBook T → OrderCommand → Option DirectReply
  direct_cancel_found (action, p, o) book cmd = do
    let index = erase cmd.order_id book.order_id_index
    book' ← release_order action p (record book { order_id_index = index })
    let event =
        send_reduce_event o.order.price o.order.reserve_bid_price (o.order.size -ℤ o.order.filled)
          true
    some (
      CommandResultCode.success,
      book',
      record cmd { matcher_event = event ∷ []; action = o.order.action },
    )

  unfoldable pub direct_cancel_order : DirectBook T → OrderCommand → Option DirectReply
  direct_cancel_order book cmd = do
    found ← find_direct cmd book
    elim found [
      | none ↦ some (CommandResultCode.matching_unknown_order_id, book, cmd)
      | some at ↦ direct_cancel_found at book cmd
    ]

  -- `ReduceOrder` of a part of what is left of the order.
  unfoldable pub reduce_direct :
      ℤ → OrderAction → ℕ → DirectOrder → DirectBook T → Option (DirectBook T)
  reduce_direct reduce_by action p o book = do
    let s = side_of action book
    b ← s.buckets o.bucket
    let order = record o.order { size = o.order.size -ℤ reduce_by }
    let b' = record b { total_volume = b.total_volume -ℤ reduce_by }
    some (
        with_side action (store_bucket o.bucket b' (store_order p (record o { order = order }) s))
          book)

  -- `ReduceOrder` of an order that is the user's.
  unfoldable pub direct_reduce_found :
      OrderAction × ℕ × DirectOrder → DirectBook T → OrderCommand → Option DirectReply
  direct_reduce_found (action, p, o) book cmd = do
    let remaining_size = o.order.size -ℤ o.order.filled
    let reduce_by = min_ℤ remaining_size cmd.size
    let can_remove = reduce_by ==ℤ remaining_size
    let event = send_reduce_event o.order.price o.order.reserve_bid_price reduce_by can_remove
    let index = erase cmd.order_id book.order_id_index
    book' ←
        (if can_remove
          then release_order action p (record book { order_id_index = index })
          else reduce_direct reduce_by action p o book)
    some (
      CommandResultCode.success,
      book',
      record cmd { matcher_event = event ∷ []; action = o.order.action },
    )

  unfoldable pub direct_reduce_order : DirectBook T → OrderCommand → Option DirectReply
  direct_reduce_order book cmd =
      if leb_ℤ cmd.size (pos 0)
      then some (CommandResultCode.matching_reduce_failed_wrong_size, book, cmd)
      else (do
        found ← find_direct cmd book
        elim found [
          | none ↦ some (CommandResultCode.matching_unknown_order_id, book, cmd)
          | some at ↦ direct_reduce_found at book cmd
        ])

  -- `MoveOrder`, after the matching at the new price: the order is used up, or goes to its new place.
  unfoldable pub settle_moved :
      OrderAction → ℕ → Order → Option ℕ → ℕ → ℤ × DirectBook T × OrderCommand → Option DirectReply
  settle_moved action p o free fresh (filled, book, cmd) =
      if filled ==ℤ o.size
      then some (
        CommandResultCode.success,
        record (with_side action (free_if_any free (free_order p (side_of action book))) book) {
          order_id_index = erase cmd.order_id book.order_id_index;
        },
        cmd,
      )
      else (do
        book' ← place_direct p (record o { filled = filled }) free fresh book
        some (CommandResultCode.success, book', cmd))

  -- `MoveOrder` of an order that is the user's.
  unfoldable pub direct_move_found :
      ℕ → ℕ → OrderAction × ℕ × DirectOrder → DirectBook T → OrderCommand → Option DirectReply
  direct_move_found fuel fresh (action, p, o) book cmd =
      if moves_over_limit book.symbol_spec cmd o.order
      then some (CommandResultCode.matching_move_failed_price_over_risk_limit, book, cmd)
      else (do
        r ← remove_order prices p (side_of action book)
        m ← r.0.orders p
        let order = record m.order { price = cmd.price }
        let s = store_order p (record m { order = order }) r.0
        let cmd' = record cmd { action = order.action }
        t ← try_match_direct prices fuel order (with_side action s book) cmd'
        settle_moved action p order r.1 fresh t)

  unfoldable pub direct_move_order : ℕ → ℕ → DirectBook T → OrderCommand → Option DirectReply
  direct_move_order fuel fresh book cmd = do
    found ← find_direct cmd book
    elim found [
      | none ↦ some (CommandResultCode.matching_unknown_order_id, book, cmd)
      | some at ↦ direct_move_found fuel fresh at book cmd
    ]
