-- ===== src/Risk/Exchange.antt =====
-- RiskEngine.cpp, for pairs of currencies: the hold of an order's funds, and what its events release.
pub mod Hold
pub mod Release
pub mod Settlement
pub mod Makers
pub mod Conservation
use exchange_cpp.Base.{
  ℕ, Bool, true, false, ◌&&◌, ◌||◌, not, if◌then◌else◌, Option, none, some, List, [], ◌∷◌, ◌==◌,
}
use exchange_cpp.Base.Dict.{Dict, insert}
use exchange_cpp.Base.Int.{ℤ, pos, ◌+ℤ◌, ◌-ℤ◌, ◌*ℤ◌, ltb_ℤ, ◌==ℤ◌}
use exchange_cpp.Common.{
  is_fok_budget, is_place_order, OrderAction, ask, bid, OrderType, OrderCommandType,
  CommandResultCode, CoreSymbolSpecification, MatcherTradeEvent, OrderCommand,
}
use exchange_cpp.Risk.Arithmetic.{
  calculate_amount_ask, calculate_amount_bid, calculate_amount_bid_taker_fee,
  calculate_amount_bid_release_corr_maker, calculate_amount_bid_taker_fee_for_budget,
}
use exchange_cpp.Risk.Users.{UserProfile, Users, amount_at, add_amount, credit}

abbrev pub is_budget : OrderType → Bool
is_budget OrderType.fok_budget = true
is_budget OrderType.ioc_budget = true
is_budget _ = false

-- `command == PLACE_ORDER && orderType == FOK_BUDGET`
abbrev pub is_placed_fok_budget : OrderCommand → Bool
is_placed_fok_budget cmd = is_place_order cmd.command && is_fok_budget cmd.order_type

-- The amount that `PlaceExchangeOrder` holds, or the code with which it refuses.
pub data Held : Type 0 where
  refused : CommandResultCode → Held
  amount : ℤ → Held

unfoldable pub bid_hold_amount : OrderCommand → CoreSymbolSpecification → Held
bid_hold_amount cmd spec =
    if is_budget cmd.order_type
    then (if not (cmd.reserve_bid_price ==ℤ cmd.price)
        then refused CommandResultCode.risk_invalid_reserve_bid_price
        else amount (calculate_amount_bid_taker_fee_for_budget cmd.size cmd.price spec))
    else (if ltb_ℤ cmd.reserve_bid_price cmd.price
        then refused CommandResultCode.risk_invalid_reserve_bid_price
        else amount (calculate_amount_bid_taker_fee cmd.size cmd.reserve_bid_price spec))

unfoldable pub ask_hold_amount : OrderCommand → CoreSymbolSpecification → Held
ask_hold_amount cmd spec =
    if ltb_ℤ (cmd.price *ℤ spec.quote_scale_k) spec.taker_fee
    then refused CommandResultCode.risk_ask_price_lower_than_fee
    else amount (calculate_amount_ask cmd.size spec)

abbrev pub hold_currency : OrderAction → CoreSymbolSpecification → ℕ
hold_currency bid spec = spec.quote_currency
hold_currency ask spec = spec.base_currency

unfoldable pub hold_amount : OrderAction → OrderCommand → CoreSymbolSpecification → Held
unfolding bid_hold_amount ask_hold_amount
hold_amount bid cmd spec = bid_hold_amount cmd spec
hold_amount ask cmd spec = ask_hold_amount cmd spec

-- The check of the balance. Reading `accounts[currency]` adds an account that is missing.
unfoldable pub hold : ℕ → ℤ → UserProfile → CommandResultCode × UserProfile
hold currency order_hold_amount profile =
    let current_balance = amount_at currency profile.accounts in
    if ltb_ℤ current_balance order_hold_amount
    then (
      CommandResultCode.risk_nsf,
      record profile { accounts = insert currency current_balance profile.accounts },
    )
    else (
      CommandResultCode.valid_for_matching_engine,
      record profile {
        accounts = insert currency (current_balance -ℤ order_hold_amount) profile.accounts;
      },
    )

unfoldable pub place_exchange_order :
    OrderCommand → CoreSymbolSpecification → UserProfile → CommandResultCode × UserProfile
unfolding hold_amount hold
place_exchange_order cmd spec profile = elim (hold_amount cmd.action cmd spec) [
  | refused code ↦ (code, profile)
  | amount a ↦ hold (hold_currency cmd.action spec) a profile
]

-- `HandleMatcherRejectReduceEventExchange`: the account of the taker and the amount it gets back.
unfoldable pub released_amount : OrderCommand → MatcherTradeEvent → CoreSymbolSpecification → ℤ
released_amount cmd ev spec = elim cmd.action [
  | ask ↦ calculate_amount_ask ev.size spec
  | bid ↦
      if is_placed_fok_budget cmd
      then calculate_amount_bid_taker_fee_for_budget ev.size ev.price spec
      else calculate_amount_bid_taker_fee ev.size ev.bidder_hold_price spec
]

unfoldable pub handle_matcher_reject_reduce_event_exchange :
    OrderCommand → MatcherTradeEvent → CoreSymbolSpecification → ℕ → Users → Users
unfolding released_amount
handle_matcher_reject_reduce_event_exchange cmd ev spec taker users =
    credit taker (hold_currency cmd.action spec) (released_amount cmd ev spec) users

-- The sums of the loops over the events, and the users. A handler sums for the taker only if the taker
-- is one of its users.
pub record Sums : Type 0 where
  pub taker_size : ℤ
  pub maker_size : ℤ
  pub size_price : ℤ
  pub size_price_held : ℤ

abbrev pub no_sums : Sums
no_sums = record {
  taker_size = pos 0;
  maker_size = pos 0;
  size_price = pos 0;
  size_price_held = pos 0;
}

-- A sale has no use for the held prices, and its loop does not sum them.
unfoldable pub sum_for_taker : Bool → MatcherTradeEvent → Sums → Sums
sum_for_taker false ev sums = sums
sum_for_taker true ev sums = record sums {
  size_price = sums.size_price +ℤ ev.size *ℤ ev.price;
  size_price_held = sums.size_price_held +ℤ ev.size *ℤ ev.bidder_hold_price;
  taker_size = sums.taker_size +ℤ ev.size;
}

abbrev pub sum_for_maker : MatcherTradeEvent → Sums → Sums
sum_for_maker ev sums = record sums { maker_size = sums.maker_size +ℤ ev.size }

-- The transfers to a buying maker, at the sale of its bid.
unfoldable pub pay_buying_maker : MatcherTradeEvent → CoreSymbolSpecification → Users → Users
pay_buying_maker ev spec users =
    credit ev.matched_order_uid spec.base_currency (calculate_amount_ask ev.size spec) (
      credit ev.matched_order_uid spec.quote_currency
        (calculate_amount_bid_release_corr_maker ev.size (ev.bidder_hold_price -ℤ ev.price) spec)
        users)

-- The transfer to a selling maker.
unfoldable pub pay_selling_maker : MatcherTradeEvent → CoreSymbolSpecification → Users → Users
pay_selling_maker ev spec users =
    credit ev.matched_order_uid spec.quote_currency
      (calculate_amount_bid ev.size ev.price spec -ℤ spec.maker_fee *ℤ ev.size) users

-- The users of one handler: `UidForThisHandler` of a uid, and the taker if it is one of them.
module _ (uid_for_this_handler : ℕ → Bool) (has_taker : Bool) (spec : CoreSymbolSpecification) where
  -- The loop of `HandleMatcherEventsExchangeSell`.
  unfoldable pub sell_events : List MatcherTradeEvent → Sums → Users → Sums × Users
  sell_events [] sums users = (sums, users)
  sell_events (ev ∷ evs) sums users =
      let sums' = sum_for_taker has_taker ev sums in
      let mine = uid_for_this_handler ev.matched_order_uid in
      let sums'' = if mine then sum_for_maker ev sums' else sums' in
      let users' = if mine then pay_buying_maker ev spec users else users in
      sell_events evs sums'' users'

  -- The loop of `HandleMatcherEventsExchangeBuy`.
  unfoldable pub buy_events : List MatcherTradeEvent → Sums → Users → Sums × Users
  buy_events [] sums users = (sums, users)
  buy_events (ev ∷ evs) sums users =
      let sums' = sum_for_taker has_taker ev sums in
      let mine = uid_for_this_handler ev.matched_order_uid in
      let sums'' = if mine then sum_for_maker ev sums' else sums' in
      let users' = if mine then pay_selling_maker ev spec users else users in
      buy_events evs sums'' users'

-- `fees_[quoteCurrency] += …`, unless both sizes are 0.
unfoldable pub add_fees : CoreSymbolSpecification → Sums → Dict ℤ → Dict ℤ
add_fees spec sums fees =
    if not (sums.taker_size ==ℤ pos 0) || not (sums.maker_size ==ℤ pos 0)
    then add_amount spec.quote_currency
        (spec.taker_fee *ℤ sums.taker_size +ℤ spec.maker_fee *ℤ sums.maker_size) fees
    else fees

-- What a selling taker gets.
unfoldable pub pay_selling_taker : Option ℕ → CoreSymbolSpecification → Sums → Users → Users
pay_selling_taker none spec sums users = users
pay_selling_taker (some taker) spec sums users =
    credit taker spec.quote_currency
      (sums.size_price *ℤ spec.quote_scale_k -ℤ spec.taker_fee *ℤ sums.taker_size) users

-- What a buying taker gets: what was held and not spent, and the goods. A budget was held as the price.
unfoldable pub pay_buying_taker :
    Option ℕ → OrderCommand → CoreSymbolSpecification → Sums → Users → Users
pay_buying_taker none cmd spec sums users = users
pay_buying_taker (some taker) cmd spec sums users =
    let held = if is_placed_fok_budget cmd then cmd.price else sums.size_price_held in
    credit taker spec.base_currency (sums.taker_size *ℤ spec.base_scale_k)
      (credit taker spec.quote_currency ((held -ℤ sums.size_price) *ℤ spec.quote_scale_k) users)

abbrev pub is_some : Option ℕ → Bool
is_some none = false
is_some (some k) = true

-- `HandleMatcherEventsExchangeSell`; `taker` is the uid of a taker of this handler, whose profile exists.
unfoldable pub handle_matcher_events_exchange_sell :
    (ℕ → Bool)
    → List MatcherTradeEvent
    → CoreSymbolSpecification
    → Option ℕ
    → Users
    → Dict ℤ
    → Users × Dict ℤ
unfolding sell_events pay_selling_taker add_fees
handle_matcher_events_exchange_sell uid_for_this_handler evs spec taker users fees =
    let after = sell_events uid_for_this_handler (is_some taker) spec evs no_sums users in
    (pay_selling_taker taker spec after.0 after.1, add_fees spec after.0 fees)

-- `HandleMatcherEventsExchangeBuy`
unfoldable pub handle_matcher_events_exchange_buy :
    (ℕ → Bool)
    → List MatcherTradeEvent
    → CoreSymbolSpecification
    → Option ℕ
    → OrderCommand
    → Users
    → Dict ℤ
    → Users × Dict ℤ
unfolding buy_events pay_buying_taker add_fees
handle_matcher_events_exchange_buy uid_for_this_handler evs spec taker cmd users fees =
    let after = buy_events uid_for_this_handler (is_some taker) spec evs no_sums users in
    (pay_buying_taker taker cmd spec after.0 after.1, add_fees spec after.0 fees)
