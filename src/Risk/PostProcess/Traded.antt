-- ===== src/Risk/PostProcess/Traded.antt =====
-- An order of a pair of currencies from the hold of its funds to the trades that fill it.
use exchange_cpp.Base.{
  ◌⊎◌, ℕ, ◌==◌, ==_iff, true, ◌≡◌, ◌≢◌, refl, sym, ap, subst, ◌∙◌, arith, if◌then◌else◌, some, List,
  [], ◌∷◌, All, Bool-cases, inl, inr,
}
use exchange_cpp.Base.Dict.{lookup, insert}
use exchange_cpp.Base.Int.{
  ℤ, pos, ◌+ℤ◌, ◌*ℤ◌, ◌≤ℤ◌, int_laws, parts, *ℤ-+ℤ, +ℤ-*ℤ, *ℤ_assoc, *ℤ_comm, *ℤ-zero,
}
use exchange_cpp.Common.{
  OrderAction, ask, bid, OrderType, OrderCommandType, CommandResultCode, CoreSymbolSpecification,
  OrderCommand, MatcherTradeEvent,
}
use exchange_cpp.OrderBook.Bucket.Volume.{total_size}
use exchange_cpp.Risk.Arithmetic.{calculate_amount_ask, calculate_amount_bid_taker_fee}
use exchange_cpp.Risk.Users.{UserProfile, amount_at}
use exchange_cpp.Risk.Users.Totals.{balance, total_balance, total_balance-insert}
use exchange_cpp.Risk.Exchange.{
  refused, amount, hold_amount, bid_hold_amount, ask_hold_amount, hold_currency,
  place_exchange_order,
}
use exchange_cpp.Risk.Exchange.Hold.{Holds, invalid, short, held, place_exchange_order-Holds}
use exchange_cpp.Risk.Exchange.Release.{refused_codes}
use exchange_cpp.Risk.Exchange.Settlement.{in_currency, bids_held, asks_held, cost_held}
use exchange_cpp.Risk.Exchange.Conservation.{
  taker_held, asks_held-total, bids_held-total, handle_matcher_events_exchange_sell_conserves,
  handle_matcher_events_exchange_buy_conserves,
}
use exchange_cpp.Risk.Engine.{RiskEngine, uid_for_this_handler}
use exchange_cpp.Risk.PostProcess.{exchange_trades}

-- The trades of a buying taker carry the price at which its funds are held.
abbrev pub AreHeldAt : OrderAction → ℤ → List MatcherTradeEvent → Type 0
AreHeldAt ask reserve evs = Unit
AreHeldAt bid reserve evs = All (λ (ev : MatcherTradeEvent). ev.bidder_hold_price ≡ reserve) evs

-- What the makers of the trades of a taker of this side held for them, in a currency.
abbrev pub makers_held : ℕ → OrderAction → CoreSymbolSpecification → List MatcherTradeEvent → ℤ
makers_held c ask spec evs = in_currency c spec.quote_currency (bids_held spec evs)
makers_held c bid spec evs = in_currency c spec.base_currency (asks_held spec evs)

cost_held_at :
    (reserve : ℤ) (evs : List MatcherTradeEvent)
    → AreHeldAt bid reserve evs
    → cost_held evs ≡ total_size evs *ℤ reserve
unfolding cost_held total_size
cost_held_at reserve [] h = sym (*ℤ_comm (pos 0) reserve ∙ *ℤ-zero reserve)
cost_held_at reserve (ev ∷ evs) h = omega (
  int_laws,
  parts (cost_held_at reserve evs h.1),
  parts (ap (λ p. ev.size *ℤ p) h.0),
  parts (+ℤ-*ℤ ev.size (total_size evs) reserve),
)

bids_held_at :
    (spec : CoreSymbolSpecification) (reserve : ℤ) (evs : List MatcherTradeEvent)
    → AreHeldAt bid reserve evs
    → calculate_amount_bid_taker_fee (total_size evs) reserve spec ≡ bids_held spec evs
unfolding calculate_amount_bid_taker_fee
bids_held_at spec reserve evs h = omega (
  int_laws,
  parts (bids_held-total spec evs),
  parts (ap (λ x. x *ℤ spec.quote_scale_k) (cost_held_at reserve evs h)),
  parts (*ℤ_assoc (total_size evs) reserve spec.quote_scale_k),
  parts (*ℤ-+ℤ (total_size evs) (reserve *ℤ spec.quote_scale_k) spec.taker_fee),
)

-- A bid of any type but IOC_BUDGET holds what its trades take.
bid_holds :
    (t : OrderType) (cmd : OrderCommand) (spec : CoreSymbolSpecification) (a : ℤ)
    (evs : List MatcherTradeEvent)
    → OrderType.ioc_budget ≢ t
    → AreHeldAt bid cmd.reserve_bid_price evs
    → bid_hold_amount (record cmd { order_type = t; size = total_size evs }) spec ≡ amount a
    → a
      ≡ taker_held (record cmd { command = OrderCommandType.place_order; order_type = t }) spec evs
unfolding bid_hold_amount
bid_holds OrderType.gtc cmd spec a evs n h e =
    ground (arith, bids_held_at spec cmd.reserve_bid_price evs h)
bid_holds OrderType.ioc cmd spec a evs n h e =
    ground (arith, bids_held_at spec cmd.reserve_bid_price evs h)
bid_holds OrderType.ioc_budget cmd spec a evs n h e = absurd (n refl)
bid_holds OrderType.fok cmd spec a evs n h e =
    ground (arith, bids_held_at spec cmd.reserve_bid_price evs h)
bid_holds OrderType.fok_budget cmd spec a evs n h e = ground arith

ask_holds :
    (cmd : OrderCommand) (spec : CoreSymbolSpecification) (a : ℤ) (evs : List MatcherTradeEvent)
    → ask_hold_amount (record cmd { size = total_size evs }) spec ≡ amount a
    → a ≡ asks_held spec evs
unfolding ask_hold_amount calculate_amount_ask
ask_holds cmd spec a evs e = ground (arith, asks_held-total spec evs)

-- What an order that is valid took from the accounts of its user.
record Taken (cmd : OrderCommand) (spec : CoreSymbolSpecification) (p p' : UserProfile)
    : Type 0 where
  sum : ℤ
  is_amount : hold_amount cmd.action cmd spec ≡ amount sum
  moved : (c : ℕ) → balance c p ≡ balance c p' +ℤ in_currency c (hold_currency cmd.action spec) sum
  no_debt : (c : ℕ) → (balance c p' ≡ balance c p) ⊎ (pos 0 ≤ℤ balance c p')

place_exchange_order-Taken :
    (cmd : OrderCommand) (spec : CoreSymbolSpecification) (p : UserProfile)
    → (place_exchange_order cmd spec p).0 ≡ CommandResultCode.valid_for_matching_engine
    → Taken cmd spec p (place_exchange_order cmd spec p).1
unfolding in_currency
place_exchange_order-Taken cmd spec p valid =
    go (place_exchange_order cmd spec p) (place_exchange_order-Holds cmd spec p) valid
  where
    go :
        (r : CommandResultCode × UserProfile)
        → Holds cmd spec p r
        → r.0 ≡ CommandResultCode.valid_for_matching_engine
        → Taken cmd spec p r.1
    go _ (invalid code e) v = absurd (refused_codes cmd.action cmd spec (e ∙ ap refused v))
    go _ (short a p' e l same) v = absurd (nsf v)
      where
        nsf : CommandResultCode.risk_nsf ≡ CommandResultCode.valid_for_matching_engine → ⊥
        nsf v = cc
    go _ (held a p' e l moved) v = record {
      sum = a;
      is_amount = e;
      moved = moved;
      no_debt = λ c. elim (Bool-cases (c == hold_currency cmd.action spec)) [
        | inl hit ↦ inr (
            subst (λ k. pos 0 ≤ℤ balance k p')
              (sym ((==_iff c (hold_currency cmd.action spec)).0 hit)) l)
        | inr miss ↦
            let same : balance c p ≡ balance c p' +ℤ pos 0 =
              moved c ∙ ap (λ b. balance c p' +ℤ (if b then a else pos 0)) miss in
            inl (omega (int_laws, parts same))
      ];
    }

module _ (cmd : OrderCommand) (spec : CoreSymbolSpecification) (e : RiskEngine)
    (all : (k : ℕ) → uid_for_this_handler e k ≡ true) (ev : MatcherTradeEvent)
    (evs : List MatcherTradeEvent) (c : ℕ) where
  -- The funds of all users with the fees.
  abbrev funds : RiskEngine → ℤ
  funds e = total_balance c e.users +ℤ amount_at c e.fees

  abbrev traded : OrderAction → RiskEngine
  traded s = exchange_trades s (ev ∷ evs) spec (some cmd.uid) cmd e

  -- What the trades add to the funds is what the taker and the makers held.
  funds-traded :
      (s : OrderAction) (a : ℤ)
      → hold_amount s (record cmd { size = total_size (ev ∷ evs) }) spec ≡ amount a
      → cmd.command ≡ OrderCommandType.place_order
      → OrderType.ioc_budget ≢ cmd.order_type
      → AreHeldAt s cmd.reserve_bid_price (ev ∷ evs)
      → funds (traded s)
        ≡ funds e +ℤ in_currency c (hold_currency s spec) a +ℤ makers_held c s spec (ev ∷ evs)
  unfolding exchange_trades hold_amount
  funds-traded ask a h placed n at = omega (
    int_laws,
    parts (
        handle_matcher_events_exchange_sell_conserves (uid_for_this_handler e) all (ev ∷ evs) spec
          cmd.uid e.users e.fees c),
    parts (ap (in_currency c spec.base_currency) (ask_holds cmd spec a (ev ∷ evs) h)),
  )
  funds-traded bid a h placed n at = omega (
    int_laws,
    parts (
        handle_matcher_events_exchange_buy_conserves (uid_for_this_handler e) all (ev ∷ evs) spec
          cmd.uid cmd e.users e.fees c),
    parts (
        ap (in_currency c spec.quote_currency) (
          bid_holds cmd.order_type cmd spec a (ev ∷ evs) n at h
          ∙ ap (λ k. taker_held (record cmd { command = k }) spec (ev ∷ evs)) (sym placed))),
  )

-- In a handler that has all users, a PLACE_ORDER for a pair of currencies, of any type but
-- IOC_BUDGET, that PlaceExchangeOrder accepts for a known user leaves every balance of the user as
-- it was or not below 0, and when one or more trades of its whole size together, which carry its
-- reserved price if it is a bid, are then settled, the accounts of all users and the fees together
-- have risen by exactly what the makers of the trades held, price and taker's fee for bids in the
-- quoted currency and the traded amount for asks in the base currency: what the order held pays its
-- trades in full, in the currency of its side, and nothing of it is left over.
pub held_and_traded :
    (cmd : OrderCommand) (spec : CoreSymbolSpecification) (e : RiskEngine) (p : UserProfile)
    (ev : MatcherTradeEvent) (evs : List MatcherTradeEvent) (c : ℕ)
    → ((k : ℕ) → uid_for_this_handler e k ≡ true)
    → lookup cmd.uid e.users ≡ some p
    → cmd.command ≡ OrderCommandType.place_order
    → OrderType.ioc_budget ≢ cmd.order_type
    → total_size (ev ∷ evs) ≡ cmd.size
    → AreHeldAt cmd.action cmd.reserve_bid_price (ev ∷ evs)
    → (place_exchange_order cmd spec p).0 ≡ CommandResultCode.valid_for_matching_engine
    → let users = insert cmd.uid (place_exchange_order cmd spec p).1 e.users in
      let e' =
        exchange_trades cmd.action
          (ev ∷ evs)
          spec
          (some cmd.uid)
          cmd
          (record e { users = users }) in
      ((balance c (place_exchange_order cmd spec p).1 ≡ balance c p)
        ⊎ (pos 0 ≤ℤ balance c (place_exchange_order cmd spec p).1))
      × (total_balance c e'.users +ℤ amount_at c e'.fees
          ≡ total_balance c e.users
            +ℤ amount_at c e.fees
            +ℤ makers_held c cmd.action spec (ev ∷ evs))
unfolding uid_for_this_handler
held_and_traded cmd spec e p ev evs c all known placed n whole at valid =
    let p' = (place_exchange_order cmd spec p).1 in
    let t = place_exchange_order-Taken cmd spec p valid in
    let e1 : RiskEngine = record e { users = insert cmd.uid p' e.users } in
    let of_size : hold_amount cmd.action (record cmd { size = total_size (ev ∷ evs) }) spec
        ≡ amount t.sum =
      ap (λ size. hold_amount cmd.action (record cmd { size = size }) spec) whole ∙ t.is_amount in
    (
      t.no_debt c,
      omega (
        int_laws,
        parts (funds-traded cmd spec e1 all ev evs c cmd.action t.sum of_size placed n at),
        parts (total_balance-insert c cmd.uid p p' e.users known),
        parts (t.moved c),
      ),
    )
