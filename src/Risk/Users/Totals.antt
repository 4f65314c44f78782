-- ===== src/Risk/Users/Totals.antt =====
-- The funds of all users in a currency.
use exchange_cpp.Base.{
  ℕ, true, ◌==◌, ==_iff, ==_refl, ◌≡◌, refl, ◌∙◌, inl, inr, Bool-cases, Option-cases, arith,
  if◌then◌else◌, none, some, [], ◌∷◌,
}
use exchange_cpp.Base.Dict.{Dict, lookup, insert, lookup-insert}
use exchange_cpp.Base.Int.{ℤ, pos, ◌+ℤ◌, ◌-ℤ◌, int_laws, parts}
use exchange_cpp.Common.{suspended}
use exchange_cpp.Risk.Users.{
  UserProfile, Users, new_user_profile, amount_at, add_amount, get_user_profile_or_add_suspended,
  credit,
}

abbrev pub balance : ℕ → UserProfile → ℤ
balance currency profile = amount_at currency profile.accounts

-- The sum of the balances of all users.
unfoldable pub total_balance : ℕ → Users → ℤ
total_balance currency [] = pos 0
total_balance currency ((uid, profile) ∷ users) =
    balance currency profile +ℤ total_balance currency users

pub amount_at-insert :
    (j k : ℕ) (v : ℤ) (d : Dict ℤ)
    → amount_at j (insert k v d) ≡ (if j == k then v else amount_at j d)
unfolding amount_at
amount_at-insert j k v d = ground (arith, lookup-insert j k v d)

pub amount_at-add_amount :
    (j k : ℕ) (a : ℤ) (d : Dict ℤ)
    → amount_at j (add_amount k a d) ≡ amount_at j d +ℤ (if j == k then a else pos 0)
unfolding add_amount
amount_at-add_amount j k a d =
    rw (amount_at-insert j k (amount_at k d +ℤ a) d) (elim (Bool-cases (j == k)) [
      | inl hit ↦ rw (hit, (==_iff j k).0 hit) refl
      | inr miss ↦ rw miss (omega int_laws)
    ])

-- A profile takes the place of the one of its uid, or joins the others.
pub total_balance-insert :
    (c uid : ℕ) (old new : UserProfile) (users : Users)
    → lookup uid users ≡ some old
    → total_balance c (insert uid new users)
      ≡ total_balance c users -ℤ balance c old +ℤ balance c new
unfolding total_balance lookup insert
total_balance-insert c uid old new [] e = cc
total_balance-insert c uid old new ((k, p) ∷ users) e = elim (Bool-cases (uid == k)) [
  | inl hit ↦ let same : p ≡ old = ground arith in rw (hit, ← same) (omega int_laws)
  | inr miss ↦
      let rest : lookup uid users ≡ some old = ground arith in
      rw miss (omega (int_laws, parts (total_balance-insert c uid old new users rest)))
]

total_balance-insert_new :
    (c uid : ℕ) (new : UserProfile) (users : Users)
    → lookup uid users ≡ none
    → total_balance c (insert uid new users) ≡ total_balance c users +ℤ balance c new
unfolding total_balance lookup insert
total_balance-insert_new c uid new [] e = omega int_laws
total_balance-insert_new c uid new ((k, p) ∷ users) e = elim (Bool-cases (uid == k)) [
  | inl hit ↦ absurd (bad hit)
  | inr miss ↦
      let rest : lookup uid users ≡ none = ground arith in
      rw miss (omega (int_laws, parts (total_balance-insert_new c uid new users rest)))
]
  where
    bad : (uid == k) ≡ true → ⊥
    bad hit = ground arith

-- The profile that is found or added is the one of its uid, and an added one has no funds.
lookup-get_user_profile_or_add_suspended :
    (uid : ℕ) (users : Users)
    → let found = get_user_profile_or_add_suspended uid users in lookup uid found.1 ≡ some found.0
unfolding get_user_profile_or_add_suspended
lookup-get_user_profile_or_add_suspended uid users = elim (Option-cases (lookup uid users)) [
  | inr (p, e) ↦ rw (e, get_user_profile_or_add_suspended) e
  | inl e ↦ rw (
    e,
    get_user_profile_or_add_suspended,
    lookup-insert uid uid (new_user_profile uid suspended) users,
    ==_refl uid,
  )
]

new_user_has_no_funds :
    (c uid : ℕ) (users : Users)
    → total_balance c users +ℤ balance c (new_user_profile uid suspended) ≡ total_balance c users
unfolding amount_at lookup
new_user_has_no_funds c uid users = omega int_laws

total_balance-get_user_profile_or_add_suspended :
    (c uid : ℕ) (users : Users)
    → total_balance c (get_user_profile_or_add_suspended uid users).1 ≡ total_balance c users
unfolding get_user_profile_or_add_suspended
total_balance-get_user_profile_or_add_suspended c uid users =
    elim (Option-cases (lookup uid users)) [
      | inr (p, e) ↦ rw (e, get_user_profile_or_add_suspended)
      | inl e ↦
          rw
            (
              e,
              get_user_profile_or_add_suspended,
              total_balance-insert_new c uid (new_user_profile uid suspended) users e,
            )
            (new_user_has_no_funds c uid users)
    ]

-- A credit raises the total of its currency by its amount, and of no other.
pub total_balance-credit :
    (c uid currency : ℕ) (amount : ℤ) (users : Users)
    → total_balance c (credit uid currency amount users)
      ≡ total_balance c users +ℤ (if c == currency then amount else pos 0)
unfolding credit
total_balance-credit c uid currency amount users =
    let found = get_user_profile_or_add_suspended uid users in
    let credited = record found.0 { accounts = add_amount currency amount found.0.accounts } in
    total_balance-insert c uid found.0 credited found.1
      (lookup-get_user_profile_or_add_suspended uid users)
    ∙ omega (
      int_laws,
      parts (amount_at-add_amount c currency amount found.0.accounts),
      parts (total_balance-get_user_profile_or_add_suspended c uid users),
    )
