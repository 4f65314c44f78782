-- ===== src/OrderBook/NewOrder/FillOrKill.antt =====
-- NewOrderMatchFokBudget of OrderBookNaiveImpl.cpp.
use exchange_cpp.Base.{
  List, [], ◌∷◌, true, some, ◌≡◌, refl, inl, inr, Bool-cases, Option-cases, ◌∙◌, ap,
}
use exchange_cpp.Base.Int.{ℤ, pos, ◌-ℤ◌, ◌≤ℤ◌, int_laws, parts}
use exchange_cpp.Common.{opposite, OrderCommand, MatcherTradeEvent}
use exchange_cpp.OrderBook.Events.{attach_reject_event}
use exchange_cpp.OrderBook.Bucket.Volume.{total_size}
use exchange_cpp.OrderBook.Levels.{match_range, check_budget}
use exchange_cpp.OrderBook.Levels.Budget.{match_range-check_budget, total_cost, always}
use exchange_cpp.OrderBook.Book.{OrderBook, buckets_by_action, with_events, try_match_instantly}
use exchange_cpp.OrderBook.Book.Wf.{IsWellFormed}
use exchange_cpp.OrderBook.Bucket.{OrdersBucket}
use exchange_cpp.OrderBook.NewOrder.Fills.{total_size-try_match_instantly}
use exchange_cpp.OrderBook.NewOrder.{new_order_match_fok_budget, is_budget_limit_satisfied}

-- What a fill-or-kill order with a budget did: nothing but a reject of its whole size, or a fill of its
-- whole size at a cost within the budget (for a bid at most the budget, for an ask at least).
pub data FillsOrKills (book : OrderBook) (cmd : OrderCommand) (r : OrderBook × OrderCommand)
    : Type 0 where
  kills : r.0 ≡ book → r.1 ≡ attach_reject_event cmd cmd.size → FillsOrKills book cmd r
  fills :
      total_size r.1.matcher_event ≡ cmd.size
      → is_budget_limit_satisfied cmd.action (total_cost r.1.matcher_event) cmd.price ≡ true
      → FillsOrKills book cmd r

total_cost-with_events :
    (es : List MatcherTradeEvent) (cmd : OrderCommand)
    → cmd.matcher_event ≡ []
    → total_cost (with_events es cmd).matcher_event ≡ total_cost es
total_cost-with_events [] cmd e = ap total_cost e
total_cost-with_events (x ∷ es) cmd e = refl

module _ (book : OrderBook) (cmd : OrderCommand) (w : IsWellFormed book)
    (fresh : cmd.matcher_event ≡ []) where
  abbrev makers : List OrdersBucket
  makers = buckets_by_action (opposite cmd.action) book

  -- The matching of an order whose budget was found.
  whole_fill :
      (budget : ℤ)
      → check_budget cmd.size (pos 0) makers ≡ some budget
      → pos 0 ≤ℤ cmd.size
      → let t =
          try_match_instantly cmd.action always cmd.size cmd.reserve_bid_price (pos 0) book cmd in
        (total_size t.2.matcher_event ≡ cmd.size) × (total_cost t.2.matcher_event ≡ budget)
  unfolding try_match_instantly
  whole_fill budget found nonneg =
      let r = match_range always cmd.size cmd.reserve_bid_price (pos 0) makers in
      let zero_off : cmd.size -ℤ pos 0 ≡ cmd.size = omega int_laws in
      let filled =
        match_range-check_budget cmd.size cmd.reserve_bid_price (pos 0) (pos 0)
          (opposite cmd.action) makers {found = budget} (w.sides (opposite cmd.action)) nonneg
          (rw zero_off found) in
      let sizes =
        total_size-try_match_instantly cmd.action always cmd.size cmd.reserve_bid_price (pos 0) book
          cmd fresh in
      (
        sizes ∙ omega (int_laws, parts filled.0),
        total_cost-with_events r.events cmd fresh ∙ omega (int_laws, parts filled.1),
      )

  -- A fill-or-kill order with a budget, of a size that is not negative and with no event yet,
  -- leaves a well-formed book as it was and rejects its whole size, or its trades fill its whole
  -- size at a total cost that satisfies the budget.
  pub new_order_match_fok_budget-FillsOrKills :
      pos 0 ≤ℤ cmd.size → FillsOrKills book cmd (new_order_match_fok_budget book cmd)
  unfolding new_order_match_fok_budget
  new_order_match_fok_budget-FillsOrKills nonneg =
      elim (Option-cases (check_budget cmd.size (pos 0) makers)) [
        | inl short ↦ rw (short, new_order_match_fok_budget) (kills refl refl)
        | inr (budget, found) ↦
            rw (found, new_order_match_fok_budget)
              (elim (Bool-cases (is_budget_limit_satisfied cmd.action budget cmd.price)) [
                | inl within ↦
                    let whole = whole_fill budget found nonneg in
                    rw within (fills whole.0 (rw whole.1 within))
                | inr over ↦ rw over (kills refl refl)
              ])
      ]
