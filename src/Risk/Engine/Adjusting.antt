-- ===== src/Risk/Engine/Adjusting.antt =====
-- AdjustBalance of RiskEngine.cpp and the sums that the engine keeps.
use exchange_cpp.Base.{
  ℕ, true, false, ◌==◌, ==_iff, ◌≡◌, refl, ◌∙◌, inl, inr, Bool-cases, Option-cases, if◌then◌else◌,
}
use exchange_cpp.Base.Dict.{lookup}
use exchange_cpp.Base.Int.{ℤ, pos, ◌+ℤ◌, ◌-ℤ◌, int_laws, parts}
use exchange_cpp.Common.{CommandResultCode, BalanceAdjustmentType, adjustment, suspend}
use exchange_cpp.Risk.Users.{UserProfile, Users, amount_at, balance_adjustment, adjust_profile}
use exchange_cpp.Risk.Users.Totals.{
  balance, total_balance, total_balance-insert, amount_at-insert, amount_at-add_amount,
}
use exchange_cpp.Risk.Users.Adjustments.{
  Adjusts, same, older, overdrawn, applied, adjust_profile-Adjusts,
}
use exchange_cpp.Risk.Engine.{RiskEngine, adjust_balance, record_adjustment, is_success}

-- What an adjustment with this code puts into an account.
abbrev given : CommandResultCode → ℕ → ℕ → ℤ → ℤ
given code c currency amount =
    if is_success code then (if c == currency then amount else pos 0) else pos 0

none_given :
    (code : CommandResultCode) (c currency : ℕ) (amount : ℤ)
    → is_success code ≡ false
    → given code c currency amount ≡ pos 0
none_given code c currency amount e = rw e refl

all_given :
    (code : CommandResultCode) (c currency : ℕ) (amount : ℤ)
    → is_success code ≡ true
    → given code c currency amount ≡ (if c == currency then amount else pos 0)
all_given code c currency amount e = rw e refl

opposites :
    (c currency : ℕ) (amount : ℤ)
    → (if c == currency then amount else pos 0)
        +ℤ (if c == currency then pos 0 -ℤ amount else pos 0)
      ≡ pos 0
opposites c currency amount = elim (Bool-cases (c == currency)) [
  | inl hit ↦ rw hit (omega int_laws)
  | inr miss ↦ rw miss (omega int_laws)
]

Adjusts-balance :
    (c currency : ℕ) (amount id : ℤ) (p p' : UserProfile) (code : CommandResultCode)
    → Adjusts currency amount id p code p'
    → balance c p' ≡ balance c p +ℤ given code c currency amount
Adjusts-balance c currency amount id p p' code (same e) = omega int_laws
Adjusts-balance c currency amount id p p' code (older l) = omega int_laws
Adjusts-balance c currency amount id p p' code (overdrawn l n o) = omega int_laws
Adjusts-balance c currency amount id p p' code (applied l o) =
    amount_at-insert c currency (balance currency p +ℤ amount) p.accounts
    ∙ (elim (Bool-cases (c == currency)) [
      | inl hit ↦ rw (hit, (==_iff c currency).0 hit) refl
      | inr miss ↦ rw miss (omega int_laws)
    ])

balance_adjustment-total :
    (c uid currency : ℕ) (amount id : ℤ) (users : Users)
    → let r = balance_adjustment uid currency amount id users in
      total_balance c r.1 ≡ total_balance c users +ℤ given r.0 c currency amount
unfolding balance_adjustment
balance_adjustment-total c uid currency amount id users = elim (Option-cases (lookup uid users)) [
  | inl unknown ↦ rw (unknown, balance_adjustment) (omega int_laws)
  | inr (p, known) ↦
      let adjusted = adjust_profile currency amount id p in
      rw (known, balance_adjustment)
        (total_balance-insert c uid p adjusted.1 users known
          ∙ omega (
            int_laws,
            parts (
                Adjusts-balance c currency amount id p adjusted.1 adjusted.0
                  (adjust_profile-Adjusts currency amount id p)),
          ))
]

-- All that the engine accounts for in a currency.
abbrev pub accounted : ℕ → RiskEngine → ℤ
accounted c e =
    total_balance c e.users
    +ℤ amount_at c e.fees
    +ℤ amount_at c e.adjustments
    +ℤ amount_at c e.suspends

record_adjustment-accounted :
    (t : BalanceAdjustmentType) (c currency : ℕ) (amount : ℤ) (e : RiskEngine)
    → accounted c (record_adjustment t currency amount e)
      ≡ accounted c e +ℤ (if c == currency then pos 0 -ℤ amount else pos 0)
unfolding record_adjustment
record_adjustment-accounted adjustment c currency amount e =
    omega (int_laws, parts (amount_at-add_amount c currency (pos 0 -ℤ amount) e.adjustments))
record_adjustment-accounted suspend c currency amount e =
    omega (int_laws, parts (amount_at-add_amount c currency (pos 0 -ℤ amount) e.suspends))

-- A balance adjustment of either type, whatever its result, changes no currency's sum of all
-- accounts, fees, adjustments and suspends.
pub adjust_balance-accounted :
    (uid currency c : ℕ) (amount id : ℤ) (t : BalanceAdjustmentType) (e : RiskEngine)
    → accounted c (adjust_balance uid currency amount id t e).1 ≡ accounted c e
unfolding adjust_balance
adjust_balance-accounted uid currency c amount id t e =
    let res = balance_adjustment uid currency amount id e.users in
    let e' = record e { users = res.1 } in
    let total = parts (balance_adjustment-total c uid currency amount id e.users) in
    elim (Bool-cases (is_success res.0)) [
      | inr failed ↦
          rw failed (omega (int_laws, total, parts (none_given res.0 c currency amount failed)))
      | inl done ↦ rw done (
          record_adjustment-accounted t c currency amount e'
          ∙ omega (
            int_laws,
            total,
            parts (all_given res.0 c currency amount done),
            parts (opposites c currency amount),
          ))
    ]
