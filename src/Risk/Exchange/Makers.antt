-- ===== src/Risk/Exchange/Makers.antt =====
-- What the makers of trades gain in one handler that has all users.
use exchange_cpp.Base.{ℕ, Bool, true, ◌≡◌, ap, ◌∙◌, List, [], ◌∷◌}
use exchange_cpp.Base.Int.{
  ℤ, pos, ◌+ℤ◌, ◌-ℤ◌, ◌*ℤ◌, int_laws, parts, *ℤ_comm, *ℤ_assoc, *ℤ-+ℤ, +ℤ-*ℤ, *ℤ-zero,
}
use exchange_cpp.Common.{CoreSymbolSpecification, MatcherTradeEvent}
use exchange_cpp.OrderBook.Bucket.Volume.{total_size}
use exchange_cpp.Risk.Arithmetic.{
  calculate_amount_ask, calculate_amount_bid, calculate_amount_bid_release_corr_maker,
}
use exchange_cpp.Risk.Users.{Users, credit}
use exchange_cpp.Risk.Users.Totals.{total_balance}
use exchange_cpp.Risk.Exchange.{Sums, pay_buying_maker, pay_selling_maker, sell_events, buy_events}
use exchange_cpp.Risk.Exchange.Settlement.{
  in_currency, in_currency-+ℤ, in_currency-zero, total_balance-credit_in, bids_held, asks_held,
  cost, release_amount,
}

module _ (handles : ℕ → Bool) (all : (k : ℕ) → handles k ≡ true)
    (spec : CoreSymbolSpecification) where
  abbrev quote : ℕ
  quote = spec.quote_currency

  abbrev base : ℕ
  base = spec.base_currency

  -- The makers' gains in the quoted currency, as sums over the events.
  abbrev pub makers_release : List MatcherTradeEvent → ℤ
  makers_release evs =
      bids_held spec evs -ℤ cost evs *ℤ spec.quote_scale_k -ℤ spec.maker_fee *ℤ total_size evs

  abbrev pub makers_income : List MatcherTradeEvent → ℤ
  makers_income evs = cost evs *ℤ spec.quote_scale_k -ℤ spec.maker_fee *ℤ total_size evs

  makers_release_step :
      (ev : MatcherTradeEvent) (evs : List MatcherTradeEvent)
      → makers_release (ev ∷ evs)
        ≡ calculate_amount_bid_release_corr_maker ev.size (ev.bidder_hold_price -ℤ ev.price) spec
          +ℤ makers_release evs
  unfolding bids_held cost total_size
  makers_release_step ev evs = omega (
    int_laws,
    parts (release_amount ev.size ev.price ev.bidder_hold_price spec),
    parts (+ℤ-*ℤ (ev.size *ℤ ev.price) (cost evs) spec.quote_scale_k),
    parts (*ℤ-+ℤ spec.maker_fee ev.size (total_size evs)),
  )

  makers_income_step :
      (ev : MatcherTradeEvent) (evs : List MatcherTradeEvent)
      → makers_income (ev ∷ evs)
        ≡ calculate_amount_bid ev.size ev.price spec
          -ℤ spec.maker_fee *ℤ ev.size
          +ℤ makers_income evs
  unfolding cost total_size calculate_amount_bid
  makers_income_step ev evs = omega (
    int_laws,
    parts (*ℤ_assoc ev.size ev.price spec.quote_scale_k),
    parts (+ℤ-*ℤ (ev.size *ℤ ev.price) (cost evs) spec.quote_scale_k),
    parts (*ℤ-+ℤ spec.maker_fee ev.size (total_size evs)),
  )

  abbrev release_of : MatcherTradeEvent → ℤ
  release_of ev =
      calculate_amount_bid_release_corr_maker ev.size (ev.bidder_hold_price -ℤ ev.price) spec

  abbrev income_of : MatcherTradeEvent → ℤ
  income_of ev = calculate_amount_bid ev.size ev.price spec -ℤ spec.maker_fee *ℤ ev.size

  zero_left : (a : ℤ) → pos 0 *ℤ a ≡ pos 0
  zero_left a = *ℤ_comm (pos 0) a ∙ *ℤ-zero a

  none_released : makers_release [] ≡ pos 0
  unfolding bids_held cost total_size
  none_released =
      omega (int_laws, parts (zero_left spec.quote_scale_k), parts (*ℤ-zero spec.maker_fee))

  none_earned : makers_income [] ≡ pos 0
  unfolding cost total_size
  none_earned =
      omega (int_laws, parts (zero_left spec.quote_scale_k), parts (*ℤ-zero spec.maker_fee))

  pay_buying_maker-total :
      (c : ℕ) (ev : MatcherTradeEvent) (users : Users)
      → total_balance c (pay_buying_maker ev spec users)
        ≡ total_balance c users
          +ℤ in_currency c quote (release_of ev)
          +ℤ in_currency c base (calculate_amount_ask ev.size spec)
  unfolding pay_buying_maker
  pay_buying_maker-total c ev users =
      let paid = credit ev.matched_order_uid quote (release_of ev) users in
      omega (
        int_laws,
        parts (
            total_balance-credit_in c ev.matched_order_uid base (calculate_amount_ask ev.size spec)
              paid),
        parts (total_balance-credit_in c ev.matched_order_uid quote (release_of ev) users),
      )

  pay_selling_maker-total :
      (c : ℕ) (ev : MatcherTradeEvent) (users : Users)
      → total_balance c (pay_selling_maker ev spec users)
        ≡ total_balance c users +ℤ in_currency c quote (income_of ev)
  unfolding pay_selling_maker
  pay_selling_maker-total c ev users =
      total_balance-credit_in c ev.matched_order_uid quote (income_of ev) users

  pub sell_events-total :
      (c : ℕ) (evs : List MatcherTradeEvent) (s : Sums) (users : Users)
      → total_balance c (sell_events handles true spec evs s users).1
        ≡ total_balance c users
          +ℤ in_currency c quote (makers_release evs)
          +ℤ in_currency c base (asks_held spec evs)
  unfolding sell_events asks_held
  sell_events-total c [] s users = omega (
    int_laws,
    parts (ap (in_currency c quote) none_released ∙ in_currency-zero c quote),
    parts (in_currency-zero c base),
  )
  sell_events-total c (ev ∷ evs) s users =
      rw (all ev.matched_order_uid, sell_events)
        (sell_events-total c evs _ (pay_buying_maker ev spec users)
          ∙ omega (
            int_laws,
            parts (pay_buying_maker-total c ev users),
            parts (ap (in_currency c quote) (makers_release_step ev evs)),
            parts (in_currency-+ℤ c quote (release_of ev) (makers_release evs)),
            parts (in_currency-+ℤ c base (calculate_amount_ask ev.size spec) (asks_held spec evs)),
          ))

  pub buy_events-total :
      (c : ℕ) (evs : List MatcherTradeEvent) (s : Sums) (users : Users)
      → total_balance c (buy_events handles true spec evs s users).1
        ≡ total_balance c users +ℤ in_currency c quote (makers_income evs)
  unfolding buy_events
  buy_events-total c [] s users =
      omega (int_laws, parts (ap (in_currency c quote) none_earned ∙ in_currency-zero c quote))
  buy_events-total c (ev ∷ evs) s users =
      rw (all ev.matched_order_uid, buy_events)
        (buy_events-total c evs _ (pay_selling_maker ev spec users)
          ∙ omega (
            int_laws,
            parts (pay_selling_maker-total c ev users),
            parts (ap (in_currency c quote) (makers_income_step ev evs)),
            parts (in_currency-+ℤ c quote (income_of ev) (makers_income evs)),
          ))
