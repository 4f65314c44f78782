-- ===== src/Risk/Exchange/Settlement.antt =====
-- The funds that trades of a pair of currencies move, in one handler that has all users.
use exchange_cpp.Base.{
  ℕ, Bool, true, ◌==◌, ◌≡◌, ap, inl, inr, Bool-cases, if◌then◌else◌, List, [], ◌∷◌,
}
use exchange_cpp.Base.Int.{
  ℤ, pos, ◌+ℤ◌, ◌-ℤ◌, ◌*ℤ◌, int_laws, parts, *ℤ_comm, *ℤ_assoc, *ℤ-+ℤ, *ℤ--ℤ, -ℤ-*ℤ,
}
use exchange_cpp.Common.{CoreSymbolSpecification, MatcherTradeEvent}
use exchange_cpp.OrderBook.Bucket.Volume.{total_size}
use exchange_cpp.Risk.Arithmetic.{
  calculate_amount_ask, calculate_amount_bid_taker_fee, calculate_amount_bid_release_corr_maker,
}
use exchange_cpp.Risk.Users.{Users, credit}
use exchange_cpp.Risk.Users.Totals.{total_balance, total_balance-credit}
use exchange_cpp.Risk.Exchange.{Sums, sum_for_taker, sell_events, buy_events}

-- An amount, in one currency.
unfoldable pub in_currency : ℕ → ℕ → ℤ → ℤ
in_currency c currency x = if c == currency then x else pos 0

pub in_currency-+ℤ :
    (c k : ℕ) (x y : ℤ) → in_currency c k (x +ℤ y) ≡ in_currency c k x +ℤ in_currency c k y
unfolding in_currency
in_currency-+ℤ c k x y = elim (Bool-cases (c == k)) [
  | inl hit ↦ rw hit
  | inr miss ↦ rw miss (omega int_laws)
]

pub in_currency-zero : (c k : ℕ) → in_currency c k (pos 0) ≡ pos 0
unfolding in_currency
in_currency-zero c k = elim (Bool-cases (c == k)) [ inl hit ↦ rw hit | inr miss ↦ rw miss ]

pub total_balance-credit_in :
    (c uid currency : ℕ) (amount : ℤ) (users : Users)
    → total_balance c (credit uid currency amount users)
      ≡ total_balance c users +ℤ in_currency c currency amount
unfolding in_currency
total_balance-credit_in c uid currency amount users =
    total_balance-credit c uid currency amount users

-- What the bids of the trades held, price and taker's fee, and what their asks held.
unfoldable pub bids_held : CoreSymbolSpecification → List MatcherTradeEvent → ℤ
bids_held spec [] = pos 0
bids_held spec (ev ∷ evs) =
    calculate_amount_bid_taker_fee ev.size ev.bidder_hold_price spec +ℤ bids_held spec evs

unfoldable pub asks_held : CoreSymbolSpecification → List MatcherTradeEvent → ℤ
asks_held spec [] = pos 0
asks_held spec (ev ∷ evs) = calculate_amount_ask ev.size spec +ℤ asks_held spec evs

-- The sums of size * price and of size * price held.
unfoldable pub cost : List MatcherTradeEvent → ℤ
cost [] = pos 0
cost (ev ∷ evs) = ev.size *ℤ ev.price +ℤ cost evs

unfoldable pub cost_held : List MatcherTradeEvent → ℤ
cost_held [] = pos 0
cost_held (ev ∷ evs) = ev.size *ℤ ev.bidder_hold_price +ℤ cost_held evs

pub record HasSums (s s' : Sums) (evs : List MatcherTradeEvent) : Type 0 where
  pub taker : s'.taker_size ≡ s.taker_size +ℤ total_size evs
  pub maker : s'.maker_size ≡ s.maker_size +ℤ total_size evs
  pub price : s'.size_price ≡ s.size_price +ℤ cost evs
  pub held : s'.size_price_held ≡ s.size_price_held +ℤ cost_held evs

-- A maker's release, beside what its bid held.
pub release_amount :
    (size price held : ℤ) (spec : CoreSymbolSpecification)
    → calculate_amount_bid_release_corr_maker size (held -ℤ price) spec
      ≡ calculate_amount_bid_taker_fee size held spec
        -ℤ size *ℤ price *ℤ spec.quote_scale_k
        -ℤ spec.maker_fee *ℤ size
unfolding calculate_amount_bid_release_corr_maker calculate_amount_bid_taker_fee
release_amount size price held spec =
    let q = spec.quote_scale_k in
    omega (
      int_laws,
      parts (*ℤ-+ℤ size ((held -ℤ price) *ℤ q) (spec.taker_fee -ℤ spec.maker_fee)),
      parts (ap (λ t. size *ℤ t) (-ℤ-*ℤ held price q)),
      parts (*ℤ--ℤ size (held *ℤ q) (price *ℤ q)),
      parts (*ℤ--ℤ size spec.taker_fee spec.maker_fee),
      parts (*ℤ-+ℤ size (held *ℤ q) spec.taker_fee),
      parts (*ℤ_assoc size price q),
      parts (*ℤ_comm spec.maker_fee size),
    )

module _ (handles : ℕ → Bool) (all : (k : ℕ) → handles k ≡ true)
    (spec : CoreSymbolSpecification) where
  pub sell_events-HasSums :
      (evs : List MatcherTradeEvent) (s : Sums) (users : Users)
      → HasSums s (sell_events handles true spec evs s users).0 evs
  unfolding sell_events total_size cost cost_held sum_for_taker
  sell_events-HasSums [] s users = record {
    taker = omega int_laws;
    maker = omega int_laws;
    price = omega int_laws;
    held = omega int_laws;
  }
  sell_events-HasSums (ev ∷ evs) s users =
      rw (all ev.matched_order_uid, sell_events) (go (sell_events-HasSums evs _ _))
    where
      go :
          {s' : Sums}
          → HasSums
              (record (sum_for_taker true ev s) { maker_size = s.maker_size +ℤ ev.size })
              s'
              evs
          → HasSums s s' (ev ∷ evs)
      go h = record {
        taker = omega (int_laws, parts h.taker);
        maker = omega (int_laws, parts h.maker);
        price = omega (int_laws, parts h.price);
        held = omega (int_laws, parts h.held);
      }

  pub buy_events-HasSums :
      (evs : List MatcherTradeEvent) (s : Sums) (users : Users)
      → HasSums s (buy_events handles true spec evs s users).0 evs
  unfolding buy_events total_size cost cost_held sum_for_taker
  buy_events-HasSums [] s users = record {
    taker = omega int_laws;
    maker = omega int_laws;
    price = omega int_laws;
    held = omega int_laws;
  }
  buy_events-HasSums (ev ∷ evs) s users =
      rw (all ev.matched_order_uid, buy_events) (go (buy_events-HasSums evs _ _))
    where
      go :
          {s' : Sums}
          → HasSums
              (record (sum_for_taker true ev s) { maker_size = s.maker_size +ℤ ev.size })
              s'
              evs
          → HasSums s s' (ev ∷ evs)
      go h = record {
        taker = omega (int_laws, parts h.taker);
        maker = omega (int_laws, parts h.maker);
        price = omega (int_laws, parts h.price);
        held = omega (int_laws, parts h.held);
      }
