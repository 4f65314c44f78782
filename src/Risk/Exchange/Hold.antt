-- ===== src/Risk/Exchange/Hold.antt =====
-- The hold of an order's funds.
use exchange_cpp.Base.{
  ℕ, ◌==◌, ==_iff, ==_refl, ◌≡◌, refl, ◌∙◌, inl, inr, ◌⊎◌, Bool-cases, if◌then◌else◌,
}
use exchange_cpp.Base.Dict.{insert}
use exchange_cpp.Base.Int.{ℤ, pos, ◌+ℤ◌, ◌-ℤ◌, ltb_ℤ, ◌≤ℤ◌, ◌<ℤ◌, ltb_ℤ→lt, int_laws, leb_of_ltb_ℤ}
use exchange_cpp.Common.{CommandResultCode, CoreSymbolSpecification, OrderCommand}
use exchange_cpp.Risk.Users.{UserProfile, amount_at}
use exchange_cpp.Risk.Users.Totals.{balance, amount_at-insert}
use exchange_cpp.Risk.Exchange.{
  Held, refused, amount, hold, hold_amount, hold_currency, place_exchange_order,
}

-- The outcomes of the check of an order's funds.
pub data Holds (cmd : OrderCommand) (spec : CoreSymbolSpecification) (p : UserProfile)
    : CommandResultCode × UserProfile → Type 0 where
  invalid :
      (code : CommandResultCode)
      → hold_amount cmd.action cmd spec ≡ refused code
      → Holds cmd spec p (code, p)
  short :
      (a : ℤ) (p' : UserProfile)
      → hold_amount cmd.action cmd spec ≡ amount a
      → balance (hold_currency cmd.action spec) p <ℤ a
      → ((c : ℕ) → balance c p' ≡ balance c p)
      → Holds cmd spec p (CommandResultCode.risk_nsf, p')
  held :
      (a : ℤ) (p' : UserProfile)
      → hold_amount cmd.action cmd spec ≡ amount a
      → pos 0 ≤ℤ balance (hold_currency cmd.action spec) p'
      → ((c : ℕ)
          → balance c p ≡ balance c p' +ℤ (if c == hold_currency cmd.action spec then a else pos 0))
      → Holds cmd spec p (CommandResultCode.valid_for_matching_engine, p')

Held-cases :
    (h : Held) → ((code : CommandResultCode) × (h ≡ refused code)) ⊎ ((a : ℤ) × (h ≡ amount a))
Held-cases (refused code) = inl (code, refl)
Held-cases (amount a) = inr (a, refl)

-- What is left in the accounts.
kept :
    (k c : ℕ) (p : UserProfile)
    → amount_at c (insert k (amount_at k p.accounts) p.accounts) ≡ balance c p
kept k c p =
    amount_at-insert c k (amount_at k p.accounts) p.accounts ∙ (elim (Bool-cases (c == k)) [
      | inl hit ↦ rw (hit, (==_iff c k).0 hit) refl
      | inr miss ↦ rw miss refl
    ])

taken :
    (k c : ℕ) (a : ℤ) (p : UserProfile)
    → balance c p
      ≡ amount_at c (insert k (amount_at k p.accounts -ℤ a) p.accounts)
        +ℤ (if c == k then a else pos 0)
taken k c a p =
    rw (amount_at-insert c k (amount_at k p.accounts -ℤ a) p.accounts) (elim (Bool-cases (c == k)) [
      | inl hit ↦ rw (hit, (==_iff c k).0 hit) (omega int_laws)
      | inr miss ↦ rw miss (omega int_laws)
    ])

no_debt :
    (k : ℕ) (a : ℤ) (p : UserProfile)
    → a ≤ℤ amount_at k p.accounts
    → pos 0 ≤ℤ amount_at k (insert k (amount_at k p.accounts -ℤ a) p.accounts)
no_debt k a p l =
    rw (amount_at-insert k k (amount_at k p.accounts -ℤ a) p.accounts, ==_refl k)
      (omega (int_laws, l))

hold-Holds :
    (cmd : OrderCommand) (spec : CoreSymbolSpecification) (p : UserProfile) (a : ℤ)
    → hold_amount cmd.action cmd spec ≡ amount a
    → Holds cmd spec p (hold (hold_currency cmd.action spec) a p)
unfolding hold
hold-Holds cmd spec p a e =
    let k = hold_currency cmd.action spec in
    let b = amount_at k p.accounts in
    elim (Bool-cases (ltb_ℤ b a)) [
      | inl less ↦ rw less (short a _ e (ltb_ℤ→lt b a less) (λ c. kept k c p))
      | inr enough ↦
          rw enough (held a _ e (no_debt k a p (leb_of_ltb_ℤ b a enough)) (λ c. taken k c a p))
    ]

-- An order for a pair of currencies is refused without a change of any balance, or its amount is
-- taken from the account of its side's currency alone, which is left with no debt.
pub place_exchange_order-Holds :
    (cmd : OrderCommand) (spec : CoreSymbolSpecification) (p : UserProfile)
    → Holds cmd spec p (place_exchange_order cmd spec p)
unfolding place_exchange_order
place_exchange_order-Holds cmd spec p = elim (Held-cases (hold_amount cmd.action cmd spec)) [
  | inl (code, e) ↦ rw (e, place_exchange_order) (invalid code e)
  | inr (a, e) ↦ rw (e, place_exchange_order) (hold-Holds cmd spec p a e)
]
