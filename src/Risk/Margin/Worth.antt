-- ===== src/Risk/Margin/Worth.antt =====
-- What a trade of futures is worth to its two parties.
use exchange_cpp.Base.{
  true, ◌==◌, ==_refl, ◌≡◌, refl, sym, ap, ◌∙◌, arith, if◌then◌else◌, Option, none, some,
  Bool-cases, inl, inr,
}
use exchange_cpp.Base.Dict.{lookup, insert, erase, lookup-insert, lookup-erase}
use exchange_cpp.Base.Int.{ℤ, pos, ◌+ℤ◌, ◌-ℤ◌, ◌*ℤ◌, ◌<ℤ◌, int_laws, parts}
use exchange_cpp.Common.{
  OrderAction, ask, bid, opposite, PositionDirection, long, short, empty, CoreSymbolSpecification,
  MatcherTradeEvent, MatcherEventType,
}
use exchange_cpp.Risk.Position.{
  SymbolPositionRecord, is_empty, pending_release, close_current_position_futures,
  open_position_margin, update_position_for_margin_trade,
}
use exchange_cpp.Risk.Position.Trades.{IsPosition, sign, equity}
use exchange_cpp.Risk.Position.Equity.{equity-update_position_for_margin_trade}
use exchange_cpp.Risk.Users.{UserProfile, add_amount, amount_at}
use exchange_cpp.Risk.Users.Totals.{balance, amount_at-add_amount}
use exchange_cpp.Risk.Engine.{remove_position_record}
use exchange_cpp.Risk.Margin.{with_position, settle_position, trade_position, taker_event}

abbrev pub position_worth : ℤ → Option SymbolPositionRecord → ℤ
position_worth p none = pos 0
position_worth p (some r) = equity p r

-- The balance in the currency of a future and the position in it, at a price.
unfoldable pub worth : CoreSymbolSpecification → ℤ → UserProfile → ℤ
worth spec p profile =
    balance spec.quote_currency profile
    +ℤ position_worth p (lookup spec.symbol_id profile.positions)

-- A position of the future, in its currency.
pub record IsPositionOf (spec : CoreSymbolSpecification) (r : SymbolPositionRecord) : Type 0 where
  pub of_symbol : r.symbol ≡ spec.symbol_id
  pub of_currency : r.currency ≡ spec.quote_currency

position_worth_of_empty :
    (p : ℤ) (r : SymbolPositionRecord) → is_empty r ≡ true → equity p r ≡ r.profit
unfolding is_empty
position_worth_of_empty p r e = go r.direction e
  where
    go :
        (d : PositionDirection)
        → is_empty (record r { direction = d }) ≡ true
        → equity p (record r { direction = d }) ≡ r.profit
    go long e = cc
    go short e = cc
    go empty e = refl

update-IsPositionOf :
    (action : OrderAction) (size price : ℤ) (spec : CoreSymbolSpecification)
    (r : SymbolPositionRecord)
    → IsPositionOf spec r
    → IsPositionOf spec (update_position_for_margin_trade action size price r).1
unfolding update_position_for_margin_trade close_current_position_futures open_position_margin
    pending_release
update-IsPositionOf ask size price spec r of = record {
  of_symbol = ground (arith, of.of_symbol);
  of_currency = ground (arith, of.of_currency);
}
update-IsPositionOf bid size price spec r of = record {
  of_symbol = ground (arith, of.of_symbol);
  of_currency = ground (arith, of.of_currency);
}

worth-remove_position_record :
    (spec : CoreSymbolSpecification) (p : ℤ) (r : SymbolPositionRecord) (profile : UserProfile)
    → IsPositionOf spec r
    → worth spec p (remove_position_record r (with_position spec.symbol_id r profile))
      ≡ balance spec.quote_currency profile +ℤ r.profit
unfolding worth remove_position_record
worth-remove_position_record spec p r profile of =
    let gone : lookup spec.symbol_id (erase r.symbol (insert spec.symbol_id r profile.positions))
        ≡ none =
      lookup-erase spec.symbol_id r.symbol (insert spec.symbol_id r profile.positions)
      ∙ ap
          (λ k.
            if spec.symbol_id == k
            then none
            else lookup spec.symbol_id (insert spec.symbol_id r profile.positions))
          of.of_symbol
      ∙ rw (==_refl spec.symbol_id) refl in
    let paid : amount_at spec.quote_currency (add_amount r.currency r.profit profile.accounts)
        ≡ balance spec.quote_currency profile +ℤ r.profit =
      amount_at-add_amount spec.quote_currency r.currency r.profit profile.accounts
      ∙ ap
          (λ k.
            balance spec.quote_currency profile
            +ℤ (if spec.quote_currency == k then r.profit else pos 0))
          of.of_currency
      ∙ rw (==_refl spec.quote_currency) refl in
    rw (gone, paid) (omega int_laws)

worth-with_position :
    (spec : CoreSymbolSpecification) (p : ℤ) (r : SymbolPositionRecord) (profile : UserProfile)
    → worth spec p (with_position spec.symbol_id r profile)
      ≡ balance spec.quote_currency profile +ℤ equity p r
unfolding worth
worth-with_position spec p r profile =
    rw (lookup-insert spec.symbol_id spec.symbol_id r profile.positions, ==_refl spec.symbol_id)
      refl

-- An empty position that is removed leaves its profit in the balance.
worth-settle_position :
    (spec : CoreSymbolSpecification) (p : ℤ) (r : SymbolPositionRecord) (profile : UserProfile)
    → IsPositionOf spec r
    → worth spec p (settle_position spec.symbol_id r profile)
      ≡ balance spec.quote_currency profile +ℤ equity p r
unfolding settle_position
worth-settle_position spec p r profile of = elim (Bool-cases (is_empty r)) [
  | inl removed ↦
      ap
        (λ b. worth spec p (
          if b
          then remove_position_record r (with_position spec.symbol_id r profile)
          else with_position spec.symbol_id r profile))
        removed
      ∙ worth-remove_position_record spec p r profile of
      ∙ ap (λ x. balance spec.quote_currency profile +ℤ x)
          (sym (position_worth_of_empty p r removed))
  | inr stays ↦
      ap
        (λ b. worth spec p (
          if b
          then remove_position_record r (with_position spec.symbol_id r profile)
          else with_position spec.symbol_id r profile))
        stays
      ∙ worth-with_position spec p r profile
]

-- A trade with its fee, for one party.
worth-trade_position :
    (action : OrderAction) (ev : MatcherTradeEvent) (fee p : ℤ) (spec : CoreSymbolSpecification)
    (r : SymbolPositionRecord) (profile : UserProfile)
    → pos 0 <ℤ ev.size
    → IsPosition r
    → IsPositionOf spec r
    → lookup spec.symbol_id profile.positions ≡ some r
    → let t = trade_position action ev spec.symbol_id fee spec r profile in
      t.0 +ℤ worth spec p t.1 ≡ worth spec p profile +ℤ sign action (ev.size *ℤ (p -ℤ ev.price))
unfolding trade_position worth
worth-trade_position action ev fee p spec r profile h v of found =
    let opened = update_position_for_margin_trade action ev.size ev.price r in
    let paid = pos 0 -ℤ fee *ℤ opened.0 in
    let settled =
      worth-settle_position spec p opened.1
        (record profile { accounts = add_amount spec.quote_currency paid profile.accounts })
        (update-IsPositionOf action ev.size ev.price spec r of) in
    let balanced : amount_at spec.quote_currency
          (add_amount spec.quote_currency paid profile.accounts)
        ≡ balance spec.quote_currency profile +ℤ paid =
      amount_at-add_amount spec.quote_currency spec.quote_currency paid profile.accounts
      ∙ rw (==_refl spec.quote_currency) refl in
    let valued = equity-update_position_for_margin_trade action ev.size ev.price p r h v in
    let had = ap (position_worth p) found in
    omega (int_laws, parts settled, parts balanced, parts valued, parts had)

opposite_signs : (action : OrderAction) (x : ℤ) → sign action x +ℤ sign (opposite action) x ≡ pos 0
opposite_signs ask x = omega int_laws
opposite_signs bid x = omega int_laws

-- At any price, a trade of a positive size in a future between two users, who each have a position
-- of its symbol and currency with a volume that fits its direction, keeps the sum of what their
-- balances and positions are worth and the two fees, whether positions open, reduce, close, turn or
-- are removed.
pub margin_trade_conserves :
    (action : OrderAction) (ev : MatcherTradeEvent) (p : ℤ) (spec : CoreSymbolSpecification)
    (taken made : SymbolPositionRecord) (taker maker : UserProfile)
    → pos 0 <ℤ ev.size
    → IsPosition taken
    → IsPosition made
    → IsPositionOf spec taken
    → IsPositionOf spec made
    → lookup spec.symbol_id taker.positions ≡ some taken
    → lookup spec.symbol_id maker.positions ≡ some made
    → let t = taker_event MatcherEventType.trade action ev spec taken taker in
      let m = trade_position (opposite action) ev spec.symbol_id spec.maker_fee spec made maker in
      t.0 +ℤ m.0 +ℤ (worth spec p t.1 +ℤ worth spec p m.1)
      ≡ worth spec p taker +ℤ worth spec p maker
unfolding taker_event
margin_trade_conserves action ev p spec taken made taker maker h v w of og found found' =
    let t = worth-trade_position action ev spec.taker_fee p spec taken taker h v of found in
    let m =
      worth-trade_position (opposite action) ev spec.maker_fee p spec made maker h w og found' in
    omega (int_laws, parts t, parts m, parts (opposite_signs action (ev.size *ℤ (p -ℤ ev.price))))
