-- ===== src/Risk/Exchange/Release.antt =====
-- The release of an order's funds when the whole order is rejected.
use exchange_cpp.Base.{
  ℕ, true, ◌==◌, ==_refl, ◌≡◌, ◌≢◌, refl, sym, ap, subst, ◌∙◌, arith, if◌then◌else◌, none, some,
}
use exchange_cpp.Base.Dict.{lookup, insert, lookup-insert}
use exchange_cpp.Base.Int.{
  ℤ, pos, ◌+ℤ◌, ◌-ℤ◌, ◌*ℤ◌, ◌==ℤ◌, ==ℤ_eq, int_laws, parts, *ℤ-+ℤ, -ℤ-*ℤ, *ℤ_one, *ℤ_comm,
}
use exchange_cpp.Common.{
  OrderAction, ask, bid, OrderType, OrderCommandType, CommandResultCode, CoreSymbolSpecification,
  OrderCommand,
}
use exchange_cpp.OrderBook.Events.{reject_event}
use exchange_cpp.Risk.Arithmetic.{
  calculate_amount_bid_taker_fee, calculate_amount_bid_taker_fee_for_budget,
}
use exchange_cpp.Risk.Users.{
  UserProfile, Users, add_amount, credit, get_user_profile_or_add_suspended,
}
use exchange_cpp.Risk.Users.Totals.{balance, amount_at-add_amount}
use exchange_cpp.Risk.Exchange.{
  refused, amount, hold_amount, bid_hold_amount, ask_hold_amount, hold_currency,
  place_exchange_order, released_amount, handle_matcher_reject_reduce_event_exchange,
}
use exchange_cpp.Risk.Exchange.Hold.{Holds, invalid, short, held, place_exchange_order-Holds}

-- The balance of a user in a currency.
abbrev pub balance_of : ℕ → ℕ → Users → ℤ
balance_of uid c users = elim (lookup uid users) [ none ↦ pos 0 | some p ↦ balance c p ]

balance_of-credit :
    (uid c k : ℕ) (a : ℤ) (p : UserProfile) (users : Users)
    → balance_of uid c (credit uid k a (insert uid p users))
      ≡ balance c p +ℤ (if c == k then a else pos 0)
unfolding credit get_user_profile_or_add_suspended
balance_of-credit uid c k a p users =
    let p' = record p { accounts = add_amount k a p.accounts } in
    let here : lookup uid (insert uid p users) ≡ some p =
      lookup-insert uid uid p users ∙ rw (==_refl uid) refl in
    let there : lookup uid (insert uid p' (insert uid p users)) ≡ some p' =
      lookup-insert uid uid p' (insert uid p users) ∙ rw (==_refl uid) refl in
    rw (here, credit, get_user_profile_or_add_suspended, there, balance_of)
      (amount_at-add_amount c k a p.accounts)

-- What a rejection of the whole order releases is what the order held, if it is no IOC with a budget.
released_amount-hold_amount :
    (s : OrderAction) (t : OrderType) (cmd : OrderCommand) (spec : CoreSymbolSpecification) (a : ℤ)
    → OrderType.ioc_budget ≢ t
    → hold_amount s
        (record cmd { action = s; command = OrderCommandType.place_order; order_type = t })
        spec
      ≡ amount a
    → released_amount
        (record cmd { action = s; command = OrderCommandType.place_order; order_type = t })
        (reject_event cmd cmd.size)
        spec
      ≡ a
unfolding hold_amount bid_hold_amount ask_hold_amount released_amount reject_event
released_amount-hold_amount ask t cmd spec a n e = ground arith
released_amount-hold_amount bid OrderType.gtc cmd spec a n e = ground arith
released_amount-hold_amount bid OrderType.ioc cmd spec a n e = ground arith
released_amount-hold_amount bid OrderType.ioc_budget cmd spec a n e = absurd (n refl)
released_amount-hold_amount bid OrderType.fok cmd spec a n e = ground arith
released_amount-hold_amount bid OrderType.fok_budget cmd spec a n e = ground arith

pub refused_codes :
    (s : OrderAction) (cmd : OrderCommand) (spec : CoreSymbolSpecification)
    → hold_amount s cmd spec ≢ refused CommandResultCode.valid_for_matching_engine
unfolding hold_amount bid_hold_amount ask_hold_amount
refused_codes ask cmd spec e = ground arith
refused_codes bid cmd spec e = ground arith

-- The command as the hold and the release read it.
released_whole :
    (cmd : OrderCommand) (spec : CoreSymbolSpecification) (a : ℤ)
    → cmd.command ≡ OrderCommandType.place_order
    → OrderType.ioc_budget ≢ cmd.order_type
    → hold_amount cmd.action cmd spec ≡ amount a
    → released_amount cmd (reject_event cmd cmd.size) spec ≡ a
released_whole cmd spec a placed n e =
    subst
      (λ k.
        hold_amount cmd.action (record cmd { command = k }) spec ≡ amount a
        → released_amount (record cmd { command = k }) (reject_event cmd cmd.size) spec ≡ a)
      (sym placed) (released_amount-hold_amount cmd.action cmd.order_type cmd spec a n) e

-- An order that was held for and then rejected as a whole leaves every balance of its user as it
-- was, for every type but IOC_BUDGET.
pub place_exchange_order_rejected :
    (cmd : OrderCommand) (spec : CoreSymbolSpecification) (uid c : ℕ) (p : UserProfile)
    (users : Users)
    → cmd.command ≡ OrderCommandType.place_order
    → OrderType.ioc_budget ≢ cmd.order_type
    → (place_exchange_order cmd spec p).0 ≡ CommandResultCode.valid_for_matching_engine
    → balance_of uid c (
        handle_matcher_reject_reduce_event_exchange cmd
          (reject_event cmd cmd.size)
          spec
          uid
          (insert uid (place_exchange_order cmd spec p).1 users))
      ≡ balance c p
unfolding handle_matcher_reject_reduce_event_exchange
place_exchange_order_rejected cmd spec uid c p users placed n valid =
    go (place_exchange_order cmd spec p) (place_exchange_order-Holds cmd spec p) valid
  where
    go :
        (r : CommandResultCode × UserProfile)
        → Holds cmd spec p r
        → r.0 ≡ CommandResultCode.valid_for_matching_engine
        → balance_of uid c (
            credit uid
              (hold_currency cmd.action spec)
              (released_amount cmd (reject_event cmd cmd.size) spec)
              (insert uid r.1 users))
          ≡ balance c p
    go _ (invalid code e) v = absurd (refused_codes cmd.action cmd spec (e ∙ ap refused v))
    go _ (short a p' e l same) v = absurd (nsf v)
      where
        nsf : CommandResultCode.risk_nsf ≡ CommandResultCode.valid_for_matching_engine → ⊥
        nsf v = cc
    go _ (held a p' e l moved) v =
        rw (released_whole cmd spec a placed n e)
          (balance_of-credit uid c (hold_currency cmd.action spec) a p' users ∙ sym (moved c))

-- An IOC bid with a budget.
abbrev pub ioc_budget_bid : OrderCommand → OrderCommand
ioc_budget_bid cmd = record cmd { action = bid; order_type = OrderType.ioc_budget }

budget_price :
    (cmd : OrderCommand) (spec : CoreSymbolSpecification) (a : ℤ)
    → hold_amount bid (ioc_budget_bid cmd) spec ≡ amount a
    → (cmd.reserve_bid_price ==ℤ cmd.price) ≡ true
unfolding hold_amount bid_hold_amount
budget_price cmd spec a e = ground arith

budget_held :
    (cmd : OrderCommand) (spec : CoreSymbolSpecification) (a : ℤ)
    → hold_amount bid (ioc_budget_bid cmd) spec ≡ amount a
    → calculate_amount_bid_taker_fee_for_budget cmd.size cmd.price spec ≡ a
unfolding hold_amount bid_hold_amount
budget_held cmd spec a e = ground arith

budget_released :
    (cmd : OrderCommand) (spec : CoreSymbolSpecification)
    → released_amount (ioc_budget_bid cmd) (reject_event (ioc_budget_bid cmd) cmd.size) spec
      ≡ calculate_amount_bid_taker_fee cmd.size cmd.reserve_bid_price spec
unfolding released_amount reject_event
budget_released cmd spec = ground arith

price_for_each :
    (cmd : OrderCommand) (spec : CoreSymbolSpecification)
    → calculate_amount_bid_taker_fee cmd.size cmd.price spec
      ≡ calculate_amount_bid_taker_fee_for_budget cmd.size cmd.price spec
        +ℤ (cmd.size -ℤ pos 1) *ℤ (cmd.price *ℤ spec.quote_scale_k)
unfolding calculate_amount_bid_taker_fee calculate_amount_bid_taker_fee_for_budget
price_for_each cmd spec =
    let cost = cmd.price *ℤ spec.quote_scale_k in
    omega (
      int_laws,
      parts (*ℤ-+ℤ cmd.size cost spec.taker_fee),
      parts (-ℤ-*ℤ cmd.size (pos 1) cost),
      parts (*ℤ_comm (pos 1) cost ∙ *ℤ_one cost),
    )

-- An IOC bid with a budget that held an amount gets back, if it is rejected as a whole, the amount
-- and (size - 1) * price in quote units on top.
pub ioc_budget_released :
    (cmd : OrderCommand) (spec : CoreSymbolSpecification) (a : ℤ)
    → hold_amount bid (ioc_budget_bid cmd) spec ≡ amount a
    → released_amount (ioc_budget_bid cmd) (reject_event (ioc_budget_bid cmd) cmd.size) spec
      ≡ a +ℤ (cmd.size -ℤ pos 1) *ℤ (cmd.price *ℤ spec.quote_scale_k)
ioc_budget_released cmd spec a e =
    budget_released cmd spec
    ∙ ap (λ p. calculate_amount_bid_taker_fee cmd.size p spec)
        (==ℤ_eq cmd.reserve_bid_price cmd.price (budget_price cmd spec a e))
    ∙ price_for_each cmd spec
    ∙ ap (λ h. h +ℤ (cmd.size -ℤ pos 1) *ℤ (cmd.price *ℤ spec.quote_scale_k))
        (budget_held cmd spec a e)
