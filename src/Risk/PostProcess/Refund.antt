-- ===== src/Risk/PostProcess/Refund.antt =====
-- A command that the risk engine holds funds for and the book rejects.
use exchange_cpp.Base.{
  Option, Bool-cases, inl, inr, ℕ, Bool, true, false, ==_refl, ◌≡◌, ◌≢◌, refl, sym, ap, ◌∙◌,
  if◌then◌else◌, none, some, [], ◌∷◌,
}
use exchange_cpp.Base.Dict.{lookup, insert, lookup-insert}
use exchange_cpp.Common.{
  OrderType, OrderCommandType, CommandResultCode, SymbolType, CoreSymbolSpecification, OrderCommand,
  L2MarketData,
}
use exchange_cpp.OrderBook.Events.{reject_event}
use exchange_cpp.Risk.Users.{UserProfile, get_user_profile_or_add_suspended}
use exchange_cpp.Risk.Exchange.{place_exchange_order, handle_matcher_reject_reduce_event_exchange}
use exchange_cpp.Risk.Exchange.Release.{balance_of, place_exchange_order_rejected}
use exchange_cpp.Risk.Engine.{RiskEngine, uid_for_this_handler}
use exchange_cpp.Risk.Margin.{is_valid, place_order_of, check_known, place_order_risk_check}
use exchange_cpp.Risk.PostProcess.{
  processed, resolve_taker, release_taker, exchange_trades, exchange_events, process_events,
  process_market_data, has_nothing_to_process, then_process, post_process_command,
}

-- The command as it comes back, with its rejection as the only event and any market data.
abbrev pub rejected : Option L2MarketData → OrderCommand → OrderCommand
rejected book cmd = record cmd {
  matcher_event = reject_event cmd cmd.size ∷ [];
  market_data = book;
}

-- What the check of a pair of currencies leaves.
checked :
    (cmd : OrderCommand) (spec : CoreSymbolSpecification) (e : RiskEngine) (p : UserProfile)
    → lookup cmd.uid e.users ≡ some p
    → lookup cmd.symbol e.symbols ≡ some spec
    → spec.symbol_type ≡ SymbolType.currency_exchange_pair
    → e.ignore_risk_processing ≡ false
    → let r = place_exchange_order cmd spec p in
      place_order_risk_check cmd e ≡ (
        if is_valid r.0 then r.0 else CommandResultCode.risk_nsf,
        record e { users = insert cmd.uid r.1 e.users },
      )
unfolding place_order_risk_check check_known place_order_of
checked cmd spec e p known listed pair checks =
    rw (place_order_risk_check, known, listed, check_known, checks, pair) refl

valid_code :
    (code : CommandResultCode)
    → (if is_valid code then code else CommandResultCode.risk_nsf)
      ≡ CommandResultCode.valid_for_matching_engine
    → code ≡ CommandResultCode.valid_for_matching_engine
valid_code code e = go (is_valid code) e
  where
    go :
        (b : Bool)
        → (if b then code else CommandResultCode.risk_nsf)
          ≡ CommandResultCode.valid_for_matching_engine
        → code ≡ CommandResultCode.valid_for_matching_engine
    go true e = e
    go false e = absurd (nsf e)
      where
        nsf : CommandResultCode.risk_nsf ≡ CommandResultCode.valid_for_matching_engine → ⊥
        nsf v = cc

-- The last prices are renewed, and no user changes.
process_market_data-users :
    (symbol : ℕ) (book : Option L2MarketData) (e : RiskEngine)
    → (process_market_data symbol book e).users ≡ e.users
unfolding process_market_data
process_market_data-users symbol none e = refl
process_market_data-users symbol (some prices) e = elim (Bool-cases e.margin_trading_enabled) [
  | inl margin ↦ rw margin refl
  | inr pairs ↦ rw pairs refl
]

-- What the processing of the rejection leaves.
released :
    (book : Option L2MarketData) (cmd : OrderCommand) (spec : CoreSymbolSpecification)
    (e : RiskEngine) (p : UserProfile)
    → lookup cmd.symbol e.symbols ≡ some spec
    → spec.symbol_type ≡ SymbolType.currency_exchange_pair
    → uid_for_this_handler e cmd.uid ≡ true
    → lookup cmd.uid e.users ≡ some p
    → post_process_command (rejected book cmd) e
      ≡ processed (
          process_market_data cmd.symbol book (record e {
            users =
                handle_matcher_reject_reduce_event_exchange
                  (rejected book cmd)
                  (reject_event cmd cmd.size)
                  spec
                  cmd.uid
                  e.users;
          }))
unfolding post_process_command process_events exchange_events exchange_trades release_taker
    resolve_taker has_nothing_to_process then_process reject_event get_user_profile_or_add_suspended
released none cmd spec e p listed pair here known =
    rw (listed, pair, here, get_user_profile_or_add_suspended, known) refl
released (some prices) cmd spec e p listed pair here known =
    rw (listed, pair, here, get_user_profile_or_add_suspended, known) refl

-- In the handler of its user, a PLACE_ORDER of a known pair of currencies that passes the risk
-- check, which is not skipped, and that comes back with the rejection of the whole order as its
-- only event, with or without market data, is processed without a fault and leaves every balance of
-- the user as it was, for every type but IOC_BUDGET.
pub post_process_command_refunds :
    (book : Option L2MarketData) (cmd : OrderCommand) (spec : CoreSymbolSpecification)
    (e : RiskEngine) (p : UserProfile) (c : ℕ)
    → lookup cmd.uid e.users ≡ some p
    → lookup cmd.symbol e.symbols ≡ some spec
    → spec.symbol_type ≡ SymbolType.currency_exchange_pair
    → e.ignore_risk_processing ≡ false
    → uid_for_this_handler e cmd.uid ≡ true
    → cmd.command ≡ OrderCommandType.place_order
    → OrderType.ioc_budget ≢ cmd.order_type
    → (place_order_risk_check cmd e).0 ≡ CommandResultCode.valid_for_matching_engine
    → (e' : RiskEngine) × (post_process_command (rejected book cmd) (place_order_risk_check cmd e).1
        ≡ processed e')
      × (balance_of cmd.uid c e'.users ≡ balance_of cmd.uid c e.users)
unfolding uid_for_this_handler handle_matcher_reject_reduce_event_exchange
post_process_command_refunds book cmd spec e p c known listed pair checks here placed n valid =
    let r = place_exchange_order cmd spec p in
    let step = checked cmd spec e p known listed pair checks in
    let held : RiskEngine = record e { users = insert cmd.uid r.1 e.users } in
    let code = valid_code r.0 (sym (ap (λ x. x.0) step) ∙ valid) in
    let has : lookup cmd.uid held.users ≡ some r.1 =
      lookup-insert cmd.uid cmd.uid r.1 e.users ∙ rw (==_refl cmd.uid) refl in
    (
      _,
      ap (λ x. post_process_command (rejected book cmd) x.1) step
          ∙ released book cmd spec held r.1 listed pair here has,
      ap (balance_of cmd.uid c) (process_market_data-users cmd.symbol book _)
          ∙ place_exchange_order_rejected cmd spec cmd.uid c p e.users placed n code
          ∙ rw (balance_of, known) refl,
    )
