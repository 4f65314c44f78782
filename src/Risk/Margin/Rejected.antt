-- ===== src/Risk/Margin/Rejected.antt =====
-- A futures order that is accepted and then rejected as a whole.
use exchange_cpp.Base.{
  ℕ, Bool, true, false, ◌==◌, ==_iff, ==_refl, ◌≡◌, refl, sym, ap, ◌∙◌, arith, if◌then◌else◌,
  Option, none, some, Bool-cases, inl, inr,
}
use mathlib.Core.Option.{some-injective}
use exchange_cpp.Base.Dict.{Dict, lookup, insert, erase, lookup-insert, lookup-erase}
use exchange_cpp.Base.Int.{ℤ, pos, ◌+ℤ◌, ◌-ℤ◌, int_laws}
use exchange_cpp.Common.{
  OrderAction, ask, bid, CommandResultCode, CoreSymbolSpecification, OrderCommand, MatcherEventType,
}
use exchange_cpp.OrderBook.Events.{reject_event}
use exchange_cpp.Risk.Position.{
  SymbolPositionRecord, initialize, is_empty, pending_hold, pending_release,
}
use exchange_cpp.Risk.Users.{UserProfile}
use exchange_cpp.Risk.Users.Totals.{balance, amount_at-add_amount}
use exchange_cpp.Risk.Engine.{RiskEngine, can_place_margin_order, remove_position_record}
use exchange_cpp.Risk.Margin.{
  position_or_new, with_position, place_margin_order, settle_position, taker_event,
}

add_sub : (a b : ℤ) → (a +ℤ b) -ℤ b ≡ a
add_sub a b = omega int_laws

-- A release undoes the hold of the same size.
pending_release-pending_hold :
    (s : OrderAction) (size : ℤ) (r : SymbolPositionRecord)
    → pending_release s size (pending_hold s size r) ≡ r
unfolding pending_release pending_hold
pending_release-pending_hold ask size r =
    ap (λ x. record r { pending_sell_size = x }) (add_sub r.pending_sell_size size)
pending_release-pending_hold bid size r =
    ap (λ x. record r { pending_buy_size = x }) (add_sub r.pending_buy_size size)

-- Two profiles with the same balances and the same positions.
pub record SameFunds (p q : UserProfile) : Type 0 where
  pub same_balances : (c : ℕ) → balance c p ≡ balance c q
  pub same_positions : (k : ℕ) → lookup k p.positions ≡ lookup k q.positions

lookup-insert_thrice :
    {V : Type 0} (k s : ℕ) (a b c : V) (d : Dict V)
    → lookup k (insert s c (insert s b (insert s a d))) ≡ (if k == s then some c else lookup k d)
lookup-insert_thrice k s a b c d = ground (
  arith,
  lookup-insert k s c (insert s b (insert s a d)),
  lookup-insert k s b (insert s a d),
  lookup-insert k s a d,
)

restored :
    {V : Type 0} (k s : ℕ) (d : Dict V) (o : Option V)
    → lookup s d ≡ o
    → (if k == s then o else lookup k d) ≡ lookup k d
restored k s d o e = elim (Bool-cases (k == s)) [
  | inl here ↦ rw here (sym e ∙ ap (λ j. lookup j d) (sym ((==_iff k s).0 here)))
  | inr there ↦ rw there refl
]

erased :
    {V : Type 0} (k s : ℕ) (a b c : V) (d : Dict V)
    → lookup s d ≡ none
    → lookup k (erase s (insert s c (insert s b (insert s a d)))) ≡ lookup k d
erased k s a b c d e =
    lookup-erase k s (insert s c (insert s b (insert s a d)))
    ∙ ground (arith, lookup-insert_thrice k s a b c d)
    ∙ restored k s d none e

add_nothing : (x : ℤ) (b : Bool) → x +ℤ (if b then pos 0 else pos 0) ≡ x
add_nothing x true = omega int_laws
add_nothing x false = omega int_laws

-- The position that the user had, or a fresh one where there was none.
settled :
    (cmd : OrderCommand) (spec : CoreSymbolSpecification) (held : SymbolPositionRecord)
    (profile : UserProfile)
    → ((p : SymbolPositionRecord)
        → lookup spec.symbol_id profile.positions ≡ some p
        → is_empty p ≡ false)
    → let position = position_or_new cmd spec profile in
      SameFunds
        (settle_position spec.symbol_id position
          (with_position spec.symbol_id held (with_position spec.symbol_id position profile)))
        profile
unfolding position_or_new settle_position remove_position_record initialize is_empty
settled cmd spec held profile kept = go (lookup spec.symbol_id profile.positions) refl
  where
    go :
        (o : Option SymbolPositionRecord)
        → lookup spec.symbol_id profile.positions ≡ o
        → let position : SymbolPositionRecord = elim o [
          | some p ↦ p
          | none ↦ initialize cmd.uid spec.symbol_id spec.quote_currency
        ] in
          SameFunds
            (settle_position spec.symbol_id position
              (with_position spec.symbol_id held (with_position spec.symbol_id position profile)))
            profile
    go none e = record {
      same_balances = λ c.
          amount_at-add_amount c spec.quote_currency (pos 0) profile.accounts
          ∙ add_nothing (balance c profile) (c == spec.quote_currency);
      same_positions = λ k. erased k spec.symbol_id _ _ _ profile.positions e;
    }
    go (some p) e = rw (kept p e) (record {
      same_balances = λ c. refl;
      same_positions = λ k.
          lookup-insert_thrice k spec.symbol_id p held p profile.positions
          ∙ restored k spec.symbol_id profile.positions (some p) e;
    })

-- An accepted order leaves its hold on the position.
accepted :
    (cmd : OrderCommand) (spec : CoreSymbolSpecification) (profile : UserProfile) (e : RiskEngine)
    → (place_margin_order cmd profile spec e).0 ≡ CommandResultCode.valid_for_matching_engine
    → let position = position_or_new cmd spec profile in
      (place_margin_order cmd profile spec e).1
      ≡ with_position spec.symbol_id
          (pending_hold cmd.action cmd.size position)
          (with_position spec.symbol_id position profile)
unfolding place_margin_order
accepted cmd spec profile e =
    let position = position_or_new cmd spec profile in
    go (can_place_margin_order cmd (with_position spec.symbol_id position profile) spec position e)
  where
    go :
        (can : Bool)
        → let position = position_or_new cmd spec profile in
          let profile' = with_position spec.symbol_id position profile in
          let placed =
            with_position spec.symbol_id (pending_hold cmd.action cmd.size position) profile' in
          let r : CommandResultCode × UserProfile =
            if can then (CommandResultCode.valid_for_matching_engine, placed) else (
              CommandResultCode.risk_nsf,
              if is_empty position then remove_position_record position profile' else profile',
            ) in
          r.0 ≡ CommandResultCode.valid_for_matching_engine → r.1 ≡ placed
    go true valid = refl
    go false valid = cc

-- A futures order that is accepted and then rejected as a whole leaves every balance and every
-- position of its user as they were, if the user kept no empty position in the symbol.
pub place_margin_order_rejected :
    (cmd : OrderCommand) (spec : CoreSymbolSpecification) (profile : UserProfile) (e : RiskEngine)
    (held : SymbolPositionRecord)
    → ((p : SymbolPositionRecord)
        → lookup spec.symbol_id profile.positions ≡ some p
        → is_empty p ≡ false)
    → (place_margin_order cmd profile spec e).0 ≡ CommandResultCode.valid_for_matching_engine
    → lookup spec.symbol_id (place_margin_order cmd profile spec e).1.positions ≡ some held
    → SameFunds
        (taker_event MatcherEventType.reject cmd.action
          (reject_event cmd cmd.size)
          spec
          held
          (place_margin_order cmd profile spec e).1).1
        profile
unfolding taker_event reject_event
place_margin_order_rejected cmd spec profile e held kept valid found =
    let position = position_or_new cmd spec profile in
    let hold = pending_hold cmd.action cmd.size position in
    let after = accepted cmd spec profile e valid in
    let is_held : held ≡ hold = some-injective _ _ (
      sym found
      ∙ ap (λ p. lookup spec.symbol_id p.positions) after
      ∙ lookup-insert spec.symbol_id spec.symbol_id hold
          (insert spec.symbol_id position profile.positions)
      ∙ rw (==_refl spec.symbol_id) refl) in
    rw (after, is_held, pending_release-pending_hold cmd.action cmd.size position)
      (settled cmd spec hold profile kept)
