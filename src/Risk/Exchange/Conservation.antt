-- ===== src/Risk/Exchange/Conservation.antt =====
-- The funds of all users and the fees over the trades of a pair of currencies (RiskEngine.cpp).
use exchange_cpp.Base.{
  ℕ, Bool, true, false, ◌≡◌, refl, sym, ap, ◌∙◌, inl, inr, Bool-cases, if◌then◌else◌, some, List,
  [], ◌∷◌,
}
use exchange_cpp.Base.Dict.{Dict}
use exchange_cpp.Base.Int.{
  ℤ, pos, ◌+ℤ◌, ◌-ℤ◌, ◌*ℤ◌, ◌==ℤ◌, ==ℤ_eq, int_laws, parts, *ℤ_comm, *ℤ_assoc, *ℤ-+ℤ, +ℤ-*ℤ, -ℤ-*ℤ,
  *ℤ-zero,
}
use exchange_cpp.Common.{CoreSymbolSpecification, MatcherTradeEvent, OrderCommand}
use exchange_cpp.OrderBook.Bucket.Volume.{total_size}
use exchange_cpp.Risk.Arithmetic.{
  calculate_amount_ask, calculate_amount_bid_taker_fee, calculate_amount_bid_taker_fee_for_budget,
}
use exchange_cpp.Risk.Users.{Users, amount_at, credit}
use exchange_cpp.Risk.Users.Totals.{total_balance, amount_at-add_amount}
use exchange_cpp.Risk.Exchange.{
  Sums, no_sums, sell_events, buy_events, add_fees, pay_selling_taker, pay_buying_taker,
  handle_matcher_events_exchange_sell, handle_matcher_events_exchange_buy, is_placed_fok_budget,
}
use exchange_cpp.Risk.Exchange.Settlement.{
  in_currency, in_currency-+ℤ, in_currency-zero, total_balance-credit_in, bids_held, asks_held,
  cost_held, HasSums, sell_events-HasSums, buy_events-HasSums,
}
use exchange_cpp.Risk.Exchange.Makers.{
  sell_events-total, buy_events-total, makers_release, makers_income,
}

-- The fees of both sides.
abbrev fees_of : CoreSymbolSpecification → Sums → ℤ
fees_of spec sums = spec.taker_fee *ℤ sums.taker_size +ℤ spec.maker_fee *ℤ sums.maker_size

amount_at-add_fees :
    (c : ℕ) (spec : CoreSymbolSpecification) (sums : Sums) (fees : Dict ℤ)
    → amount_at c (add_fees spec sums fees)
      ≡ amount_at c fees +ℤ in_currency c spec.quote_currency (fees_of spec sums)
unfolding add_fees in_currency
amount_at-add_fees c spec sums fees = elim (Bool-cases (sums.taker_size ==ℤ pos 0)) [
  | inr some_taken ↦
      rw some_taken (amount_at-add_amount c spec.quote_currency (fees_of spec sums) fees)
  | inl t ↦ rw t (elim (Bool-cases (sums.maker_size ==ℤ pos 0)) [
    | inr some_made ↦
        rw some_made (amount_at-add_amount c spec.quote_currency (fees_of spec sums) fees)
    | inl m ↦
        rw m (sym (no_fees (==ℤ_eq sums.taker_size (pos 0) t) (==ℤ_eq sums.maker_size (pos 0) m)))
  ])
]
  where
    no_fees :
        sums.taker_size ≡ pos 0
        → sums.maker_size ≡ pos 0
        → amount_at c fees +ℤ in_currency c spec.quote_currency (fees_of spec sums)
          ≡ amount_at c fees
    no_fees t m = omega (
      int_laws,
      parts (
          ap (in_currency c spec.quote_currency) (zero_fees t m)
          ∙ in_currency-zero c spec.quote_currency),
    )
      where
        zero_fees : sums.taker_size ≡ pos 0 → sums.maker_size ≡ pos 0 → fees_of spec sums ≡ pos 0
        zero_fees t m = omega (
          int_laws,
          parts (ap (λ x. spec.taker_fee *ℤ x) t ∙ *ℤ-zero spec.taker_fee),
          parts (ap (λ x. spec.maker_fee *ℤ x) m ∙ *ℤ-zero spec.maker_fee),
        )

plus_zero : {a b : ℤ} → a ≡ pos 0 +ℤ b → a ≡ b
plus_zero e = omega (int_laws, parts e)

module _ (spec : CoreSymbolSpecification) where
  zero_times : (a : ℤ) → pos 0 *ℤ a ≡ pos 0
  zero_times a = *ℤ_comm (pos 0) a ∙ *ℤ-zero a

  pub asks_held-total :
      (evs : List MatcherTradeEvent) → asks_held spec evs ≡ total_size evs *ℤ spec.base_scale_k
  unfolding asks_held total_size calculate_amount_ask
  asks_held-total [] = sym (zero_times spec.base_scale_k)
  asks_held-total (ev ∷ evs) = omega (
    int_laws,
    parts (asks_held-total evs),
    parts (+ℤ-*ℤ ev.size (total_size evs) spec.base_scale_k),
  )

  pub bids_held-total :
      (evs : List MatcherTradeEvent)
      → bids_held spec evs ≡ cost_held evs *ℤ spec.quote_scale_k +ℤ total_size evs *ℤ spec.taker_fee
  unfolding bids_held cost_held total_size calculate_amount_bid_taker_fee
  bids_held-total [] =
      omega (int_laws, parts (zero_times spec.quote_scale_k), parts (zero_times spec.taker_fee))
  bids_held-total (ev ∷ evs) = omega (
    int_laws,
    parts (bids_held-total evs),
    parts (*ℤ-+ℤ ev.size (ev.bidder_hold_price *ℤ spec.quote_scale_k) spec.taker_fee),
    parts (*ℤ_assoc ev.size ev.bidder_hold_price spec.quote_scale_k),
    parts (+ℤ-*ℤ (ev.size *ℤ ev.bidder_hold_price) (cost_held evs) spec.quote_scale_k),
    parts (+ℤ-*ℤ ev.size (total_size evs) spec.taker_fee),
  )

  -- The taker's price, the makers' releases and the fees add up to what the bids held.
  sold_adds_up :
      (s : Sums) (evs : List MatcherTradeEvent) (handles : ℕ → Bool)
      (all : (k : ℕ) → handles k ≡ true)
      → HasSums no_sums s evs
      → s.size_price *ℤ spec.quote_scale_k
          -ℤ spec.taker_fee *ℤ s.taker_size
          +ℤ makers_release handles all spec evs
          +ℤ fees_of spec s
        ≡ bids_held spec evs
  sold_adds_up s evs handles all h = omega (
    int_laws,
    parts (ap (λ x. x *ℤ spec.quote_scale_k) (plus_zero h.price)),
    parts (ap (λ x. spec.maker_fee *ℤ x) (plus_zero h.maker)),
  )

  bought_adds_up :
      (held : ℤ) (s : Sums) (evs : List MatcherTradeEvent) (handles : ℕ → Bool)
      (all : (k : ℕ) → handles k ≡ true)
      → HasSums no_sums s evs
      → (held -ℤ s.size_price) *ℤ spec.quote_scale_k
          +ℤ makers_income handles all spec evs
          +ℤ fees_of spec s
        ≡ held *ℤ spec.quote_scale_k +ℤ total_size evs *ℤ spec.taker_fee
  bought_adds_up held s evs handles all h = omega (
    int_laws,
    parts (-ℤ-*ℤ held s.size_price spec.quote_scale_k),
    parts (ap (λ x. x *ℤ spec.quote_scale_k) (plus_zero h.price)),
    parts (ap (λ x. spec.maker_fee *ℤ x) (plus_zero h.maker)),
    parts (ap (λ x. spec.taker_fee *ℤ x) (plus_zero h.taker)),
    parts (*ℤ_comm spec.taker_fee (total_size evs)),
  )

-- In a handler that has all users, the trades of a selling taker raise the accounts of all users
-- and the fees together by exactly what the traded bids held of the quoted currency, price and
-- taker's fee, and by what the taker held of the base currency, and change no other currency.
pub handle_matcher_events_exchange_sell_conserves :
    (handles : ℕ → Bool) (all : (k : ℕ) → handles k ≡ true) (evs : List MatcherTradeEvent)
    (spec : CoreSymbolSpecification) (taker : ℕ) (users : Users) (fees : Dict ℤ) (c : ℕ)
    → let r = handle_matcher_events_exchange_sell handles evs spec (some taker) users fees in
      total_balance c r.0 +ℤ amount_at c r.1
      ≡ total_balance c users
        +ℤ amount_at c fees
        +ℤ in_currency c spec.quote_currency (bids_held spec evs)
        +ℤ in_currency c spec.base_currency (asks_held spec evs)
unfolding handle_matcher_events_exchange_sell pay_selling_taker
handle_matcher_events_exchange_sell_conserves handles all evs spec taker users fees c =
    let after = sell_events handles true spec evs no_sums users in
    let s = after.0 in
    let q = spec.quote_currency in
    let price = s.size_price *ℤ spec.quote_scale_k -ℤ spec.taker_fee *ℤ s.taker_size in
    let release = makers_release handles all spec evs in
    omega (
      int_laws,
      parts (total_balance-credit_in c taker q price after.1),
      parts (sell_events-total handles all spec c evs no_sums users),
      parts (amount_at-add_fees c spec s fees),
      parts (
          sym (
            ap (in_currency c q) (
              sold_adds_up spec s evs handles all
                (sell_events-HasSums handles all spec evs no_sums users)))),
      parts (in_currency-+ℤ c q (price +ℤ release) (fees_of spec s)),
      parts (in_currency-+ℤ c q price release),
    )

-- What the taker of a purchase held for it.
abbrev pub taker_held : OrderCommand → CoreSymbolSpecification → List MatcherTradeEvent → ℤ
taker_held cmd spec evs =
    if is_placed_fok_budget cmd
    then calculate_amount_bid_taker_fee_for_budget (total_size evs) cmd.price spec
    else bids_held spec evs

held_total :
    (budget : Bool) (cmd : OrderCommand) (spec : CoreSymbolSpecification)
    (evs : List MatcherTradeEvent) {h : ℤ}
    → h ≡ pos 0 +ℤ cost_held evs
    → (if budget then cmd.price else h) *ℤ spec.quote_scale_k +ℤ total_size evs *ℤ spec.taker_fee
      ≡ (if budget
          then calculate_amount_bid_taker_fee_for_budget (total_size evs) cmd.price spec
          else bids_held spec evs)
unfolding calculate_amount_bid_taker_fee_for_budget
held_total true cmd spec evs e = refl
held_total false cmd spec evs e = omega (
  int_laws,
  parts (bids_held-total spec evs),
  parts (ap (λ x. x *ℤ spec.quote_scale_k) (plus_zero e)),
)

-- In a handler that has all users, the trades of a buying taker raise the accounts of all users and
-- the fees together by exactly what the taker held of the quoted currency for the traded size, the
-- budget or the held prices, with the taker's fee, and by what the asks held of the base currency,
-- and change no other currency.
pub handle_matcher_events_exchange_buy_conserves :
    (handles : ℕ → Bool) (all : (k : ℕ) → handles k ≡ true) (evs : List MatcherTradeEvent)
    (spec : CoreSymbolSpecification) (taker : ℕ) (cmd : OrderCommand) (users : Users)
    (fees : Dict ℤ) (c : ℕ)
    → let r = handle_matcher_events_exchange_buy handles evs spec (some taker) cmd users fees in
      total_balance c r.0 +ℤ amount_at c r.1
      ≡ total_balance c users
        +ℤ amount_at c fees
        +ℤ in_currency c spec.quote_currency (taker_held cmd spec evs)
        +ℤ in_currency c spec.base_currency (asks_held spec evs)
unfolding handle_matcher_events_exchange_buy pay_buying_taker
handle_matcher_events_exchange_buy_conserves handles all evs spec taker cmd users fees c =
    let after = buy_events handles true spec evs no_sums users in
    let s = after.0 in
    let q = spec.quote_currency in
    let sums = buy_events-HasSums handles all spec evs no_sums users in
    let held = if is_placed_fok_budget cmd then cmd.price else s.size_price_held in
    let unspent = (held -ℤ s.size_price) *ℤ spec.quote_scale_k in
    let income = makers_income handles all spec evs in
    omega (
      int_laws,
      parts (
          total_balance-credit_in c taker spec.base_currency (s.taker_size *ℤ spec.base_scale_k)
            (credit taker q unspent after.1)),
      parts (total_balance-credit_in c taker q unspent after.1),
      parts (buy_events-total handles all spec c evs no_sums users),
      parts (amount_at-add_fees c spec s fees),
      parts (
          sym (
            ap (in_currency c q) (
              bought_adds_up spec held s evs handles all sums
              ∙ held_total (is_placed_fok_budget cmd) cmd spec evs sums.held))),
      parts (in_currency-+ℤ c q (unspent +ℤ income) (fees_of spec s)),
      parts (in_currency-+ℤ c q unspent income),
      parts (
          ap (in_currency c spec.base_currency) (
            ap (λ x. x *ℤ spec.base_scale_k) (plus_zero sums.taker)
            ∙ sym (asks_held-total spec evs))),
    )
