-- ===== src/OrderBook/NewOrder/Fills.antt =====
-- Where the size of a new order goes: into trades, into the book, or back by a reject event.
use exchange_cpp.Base.{List, [], ◌∷◌, Bool, ◌≡◌, refl, inl, inr, Bool-cases, Option-cases, ◌∙◌, ap}
use exchange_cpp.Base.Dict.{lookup, insert}
use exchange_cpp.Base.Int.{ℤ, pos, ◌+ℤ◌, ◌-ℤ◌, ◌==ℤ◌, ==ℤ_eq, int_laws, parts}
use exchange_cpp.Common.{Order, OrderAction, ask, bid, opposite, OrderCommand, MatcherTradeEvent}
use exchange_cpp.OrderBook.Events.{attach_reject_event}
use exchange_cpp.OrderBook.Bucket.Volume.{total_size}
use exchange_cpp.OrderBook.Levels.{should_continue, place}
use exchange_cpp.OrderBook.Levels.Placing.{total_orders_volume-place}
use exchange_cpp.OrderBook.Levels.Matching.{total_orders_volume-match_range, total_size-match_range}
use exchange_cpp.OrderBook.Book.{
  OrderBook, buckets_by_action, with_events, try_match_instantly, place_order, with_buckets,
  get_total_orders_volume,
}
use exchange_cpp.OrderBook.Book.Wf.{IsWellFormed}
use exchange_cpp.OrderBook.Book.Uncrossed.{try_match_instantly-IsWellFormed}
use exchange_cpp.OrderBook.NewOrder.{new_order_place_gtc, place_gtc_rest, new_order_match_ioc}

total_size-with_events :
    (es : List MatcherTradeEvent) (cmd : OrderCommand)
    → cmd.matcher_event ≡ []
    → total_size (with_events es cmd).matcher_event ≡ total_size es
total_size-with_events [] cmd e = ap total_size e
total_size-with_events (x ∷ es) cmd e = refl

total_size-attach_reject_event :
    (cmd : OrderCommand) (size : ℤ)
    → total_size (attach_reject_event cmd size).matcher_event ≡ size +ℤ total_size cmd.matcher_event
unfolding attach_reject_event total_size
total_size-attach_reject_event cmd size = refl

total_size-nil : total_size [] ≡ pos 0
unfolding total_size
total_size-nil = refl

module _ (action : OrderAction) (continues : ℤ → Bool) (size r filled : ℤ) (book : OrderBook)
    (cmd : OrderCommand) where
  -- The events of a matching hold what it filled.
  pub total_size-try_match_instantly :
      cmd.matcher_event ≡ []
      → let t = try_match_instantly action continues size r filled book cmd in
        total_size t.2.matcher_event ≡ t.0 -ℤ filled
  unfolding try_match_instantly
  total_size-try_match_instantly e =
      total_size-with_events _ cmd e
      ∙ total_size-match_range continues size r filled (buckets_by_action (opposite action) book)

-- The matching leaves the taker's side alone, and takes the fill from the other.
pub total_orders_volume-try_match_instantly :
    (action : OrderAction) (continues : ℤ → Bool) (size r filled : ℤ) (book : OrderBook)
    (cmd : OrderCommand)
    → let t = try_match_instantly action continues size r filled book cmd in
      (get_total_orders_volume action t.1 ≡ get_total_orders_volume action book)
      × (get_total_orders_volume (opposite action) book
          ≡ (t.0 -ℤ filled) +ℤ get_total_orders_volume (opposite action) t.1)
unfolding try_match_instantly
total_orders_volume-try_match_instantly ask continues size r filled book cmd =
    (refl, total_orders_volume-match_range continues size r filled book.bid_buckets)
total_orders_volume-try_match_instantly bid continues size r filled book cmd =
    (refl, total_orders_volume-match_range continues size r filled book.ask_buckets)

-- For an immediate-or-cancel order with no event yet, its trades and its reject together have its
-- size, and the volume of its own side of the book stays as it was.
pub new_order_match_ioc_accounts :
    (book : OrderBook) (cmd : OrderCommand)
    → cmd.matcher_event ≡ []
    → let r = new_order_match_ioc book cmd in
      (total_size r.1.matcher_event ≡ cmd.size)
      × (get_total_orders_volume cmd.action r.0 ≡ get_total_orders_volume cmd.action book)
unfolding new_order_match_ioc
new_order_match_ioc_accounts book cmd e =
    let c = should_continue cmd.action cmd.price in
    let t = try_match_instantly cmd.action c cmd.size cmd.reserve_bid_price (pos 0) book cmd in
    let total = parts (
      total_size-try_match_instantly cmd.action c cmd.size cmd.reserve_bid_price (pos 0) book cmd
        e) in
    let volumes =
      total_orders_volume-try_match_instantly cmd.action c cmd.size cmd.reserve_bid_price (pos 0)
        book cmd in
    elim (Bool-cases ((cmd.size -ℤ t.0) ==ℤ pos 0)) [
      | inl full ↦
          rw full
            (omega (int_laws, total, parts (==ℤ_eq (cmd.size -ℤ t.0) (pos 0) full)), volumes.0)
      | inr part ↦ rw part (
        omega (int_laws, total, parts (total_size-attach_reject_event t.2 (cmd.size -ℤ t.0))),
        volumes.0,
      )
    ]

total_orders_volume-place_order :
    (o : Order) (book : OrderBook)
    → IsWellFormed book
    → get_total_orders_volume o.action (place_order o book)
      ≡ get_total_orders_volume o.action book +ℤ (o.size -ℤ o.filled)
unfolding place_order
total_orders_volume-place_order o book w = go o.action
  where
    go :
        (a : OrderAction)
        → get_total_orders_volume a
            (record (with_buckets a (place a o (buckets_by_action a book)) book) {
              id_map = insert o.order_id (o.action, o.price) book.id_map;
            })
          ≡ get_total_orders_volume a book +ℤ (o.size -ℤ o.filled)
    go ask = total_orders_volume-place ask o book.ask_buckets (w.sides ask).1
    go bid = total_orders_volume-place bid o book.bid_buckets (w.sides bid).1

place_gtc_rest_accounts :
    (filled : ℤ) (book : OrderBook) (cmd' cmd : OrderCommand)
    → IsWellFormed book
    → total_size cmd'.matcher_event ≡ filled
    → let r = place_gtc_rest (filled, book, cmd') cmd in
      total_size r.1.matcher_event
        +ℤ (get_total_orders_volume cmd.action r.0 -ℤ get_total_orders_volume cmd.action book)
      ≡ cmd.size
unfolding place_gtc_rest
place_gtc_rest_accounts filled book cmd' cmd w e = elim (Bool-cases (filled ==ℤ cmd.size)) [
  | inl full ↦ rw full (omega (int_laws, parts e, parts (==ℤ_eq filled cmd.size full)))
  | inr part ↦ rw part (elim (Option-cases (lookup cmd.order_id book.id_map)) [
    | inr (old, known) ↦
        rw (known, place_gtc_rest)
          (omega
            (int_laws, parts e, parts (total_size-attach_reject_event cmd' (cmd.size -ℤ filled))))
    | inl new ↦
        rw (new, place_gtc_rest)
          (omega (
            int_laws,
            parts e,
            parts (
                total_orders_volume-place_order
                  (record {
                    order_id = cmd.order_id;
                    price = cmd.price;
                    size = cmd.size;
                    filled = filled;
                    reserve_bid_price = cmd.reserve_bid_price;
                    action = cmd.action;
                    uid = cmd.uid;
                    timestamp = cmd.timestamp;
                  })
                  book w),
          ))
  ])
]

-- For a good-till-cancel order with no event yet on a well-formed book, what it trades, what is
-- rejected and what it adds to its own side of the book make up its size.
pub new_order_place_gtc_accounts :
    (book : OrderBook) (cmd : OrderCommand)
    → IsWellFormed book
    → cmd.matcher_event ≡ []
    → let r = new_order_place_gtc book cmd in
      total_size r.1.matcher_event
        +ℤ (get_total_orders_volume cmd.action r.0 -ℤ get_total_orders_volume cmd.action book)
      ≡ cmd.size
unfolding new_order_place_gtc
new_order_place_gtc_accounts book cmd w e =
    let c = should_continue cmd.action cmd.price in
    let t = try_match_instantly cmd.action c cmd.size cmd.reserve_bid_price (pos 0) book cmd in
    let total = parts (
      total_size-try_match_instantly cmd.action c cmd.size cmd.reserve_bid_price (pos 0) book cmd
        e) in
    let volumes =
      total_orders_volume-try_match_instantly cmd.action c cmd.size cmd.reserve_bid_price (pos 0)
        book cmd in
    let w' =
      try_match_instantly-IsWellFormed c cmd.size cmd.reserve_bid_price (pos 0) cmd.action book cmd
        w in
    omega (
      int_laws,
      parts volumes.0,
      parts (place_gtc_rest_accounts t.0 t.1 t.2 cmd w' (omega (int_laws, total))),
    )
