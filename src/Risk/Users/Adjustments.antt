-- ===== src/Risk/Users/Adjustments.antt =====
-- What a balance adjustment does on each of its branches.
use exchange_cpp.Base.{
  ℕ, false, ◌&&◌, ==_refl, ◌≡◌, refl, sym, subst, inl, inr, ◌⊎◌, Bool-cases, Option-cases, arith,
  if◌then◌else◌, none, some,
}
use exchange_cpp.Base.Dict.{lookup, insert, lookup-insert}
use exchange_cpp.Base.Int.{
  ℤ, pos, ◌+ℤ◌, ◌==ℤ◌, ltb_ℤ, ◌≤ℤ◌, ◌<ℤ◌, ==ℤ_eq, ==ℤ_ne, ==ℤ_of_eq, ltb_ℤ→lt, leb_of_ltb_ℤ,
}
use exchange_cpp.Common.{CommandResultCode}
use exchange_cpp.Risk.Users.{UserProfile, Users, amount_at, adjust_profile, balance_adjustment}
use exchange_cpp.Risk.Users.Totals.{balance}

-- The outcomes of an adjustment of a profile.
pub data Adjusts (currency : ℕ) (amount id : ℤ) (profile : UserProfile)
    : CommandResultCode → UserProfile → Type 0 where
  same :
      profile.adjustments_counter ≡ id
      → Adjusts currency amount id profile
          CommandResultCode.user_mgmt_account_balance_adjustment_already_applied_same profile
  older :
      id <ℤ profile.adjustments_counter
      → Adjusts currency amount id profile
          CommandResultCode.user_mgmt_account_balance_adjustment_already_applied_many profile
  overdrawn :
      profile.adjustments_counter <ℤ id
      → amount <ℤ pos 0
      → (balance currency profile +ℤ amount) <ℤ pos 0
      → Adjusts currency amount id profile
          CommandResultCode.user_mgmt_account_balance_adjustment_nsf profile
  applied :
      profile.adjustments_counter <ℤ id
      → (pos 0 ≤ℤ amount) ⊎ (pos 0 ≤ℤ (balance currency profile +ℤ amount))
      → Adjusts currency amount id profile CommandResultCode.success (record profile {
        adjustments_counter = id;
        accounts = insert currency (balance currency profile +ℤ amount) profile.accounts;
      })

-- A balance adjustment is refused without a change if its id is not above the last one or if it
-- takes more than there is; any other is applied and its id kept.
pub adjust_profile-Adjusts :
    (currency : ℕ) (amount id : ℤ) (profile : UserProfile)
    → let r = adjust_profile currency amount id profile in
      Adjusts currency amount id profile r.0 r.1
unfolding adjust_profile
adjust_profile-Adjusts currency amount id profile =
    let counter = profile.adjustments_counter in
    elim (Bool-cases (counter ==ℤ id)) [
      | inl equal ↦ rw equal (same (==ℤ_eq counter id equal))
      | inr differ ↦ rw differ (elim (Bool-cases (ltb_ℤ id counter)) [
        | inl below ↦ rw below (older (ltb_ℤ→lt id counter below))
        | inr above ↦ rw above (rest (newer differ (leb_of_ltb_ℤ id counter above)))
      ])
    ]
  where
    newer :
        (profile.adjustments_counter ==ℤ id) ≡ false
        → profile.adjustments_counter ≤ℤ id
        → profile.adjustments_counter <ℤ id
    newer d l = omega (arith, ==ℤ_ne profile.adjustments_counter id d, l)

    rest :
        profile.adjustments_counter <ℤ id
        → let r : CommandResultCode × UserProfile =
            if ltb_ℤ amount (pos 0) && ltb_ℤ (amount_at currency profile.accounts +ℤ amount) (pos 0)
            then (CommandResultCode.user_mgmt_account_balance_adjustment_nsf, profile)
            else (
              CommandResultCode.success,
              record profile {
                adjustments_counter = id;
                accounts =
                    insert currency
                      (amount_at currency profile.accounts +ℤ amount)
                      profile.accounts;
              },
            ) in
          Adjusts currency amount id profile r.0 r.1
    rest lt = elim (Bool-cases (ltb_ℤ amount (pos 0))) [
      | inr deposit ↦ rw deposit (applied lt (inl (leb_of_ltb_ℤ amount (pos 0) deposit)))
      | inl withdrawal ↦
          rw withdrawal
            (elim (Bool-cases (ltb_ℤ (amount_at currency profile.accounts +ℤ amount) (pos 0))) [
              | inl short ↦ rw short (
                  overdrawn lt (ltb_ℤ→lt amount (pos 0) withdrawal)
                    (ltb_ℤ→lt (amount_at currency profile.accounts +ℤ amount) (pos 0) short))
              | inr enough ↦ rw enough (
                  applied lt (
                    inr (
                      leb_of_ltb_ℤ (amount_at currency profile.accounts +ℤ amount) (pos 0) enough)))
            ])
    ]

applied_counter :
    (currency : ℕ) (amount id : ℤ) (profile profile' : UserProfile) (code : CommandResultCode)
    → Adjusts currency amount id profile code profile'
    → code ≡ CommandResultCode.success
    → profile'.adjustments_counter ≡ id
applied_counter currency amount id profile profile' code (same e) s = absurd (refused s)
  where
    refused :
        CommandResultCode.user_mgmt_account_balance_adjustment_already_applied_same
          ≡ CommandResultCode.success
        → ⊥
    refused s = cc
applied_counter currency amount id profile profile' code (older l) s = absurd (refused s)
  where
    refused :
        CommandResultCode.user_mgmt_account_balance_adjustment_already_applied_many
          ≡ CommandResultCode.success
        → ⊥
    refused s = cc
applied_counter currency amount id profile profile' code (overdrawn l n o) s = absurd (refused s)
  where
    refused :
        CommandResultCode.user_mgmt_account_balance_adjustment_nsf ≡ CommandResultCode.success → ⊥
    refused s = cc
applied_counter currency amount id profile profile' code (applied l c) s = refl

adjusted_again :
    (currency : ℕ) (amount id : ℤ) (profile : UserProfile)
    → profile.adjustments_counter ≡ id
    → adjust_profile currency amount id profile
      ≡ (CommandResultCode.user_mgmt_account_balance_adjustment_already_applied_same, profile)
unfolding adjust_profile
adjusted_again currency amount id profile e = rw (==ℤ_of_eq profile.adjustments_counter id e)

-- An adjustment is refused as a repetition, and no profile changes.
abbrev pub RefusesAgain : ℕ → ℕ → ℤ → ℤ → Users → Type 0
RefusesAgain uid currency amount id users =
    ((balance_adjustment uid currency amount id users).0
      ≡ CommandResultCode.user_mgmt_account_balance_adjustment_already_applied_same)
    × ((k : ℕ) → lookup k (balance_adjustment uid currency amount id users).1 ≡ lookup k users)

-- A balance adjustment that succeeded is refused when its id comes again, whatever the amount and
-- currency, and then no profile changes.
pub balance_adjustment_once :
    (uid currency currency' : ℕ) (amount amount' id : ℤ) (users : Users)
    → (balance_adjustment uid currency amount id users).0 ≡ CommandResultCode.success
    → RefusesAgain uid currency' amount' id (balance_adjustment uid currency amount id users).1
unfolding balance_adjustment
balance_adjustment_once uid currency currency' amount amount' id users s =
    elim (Option-cases (lookup uid users)) [
      | inl unknown ↦ absurd (refused unknown)
      | inr (p, known) ↦
          subst (RefusesAgain uid currency' amount' id) (sym (adjusted p known))
            (go p (code p known))
    ]
  where
    refused : lookup uid users ≡ none → ⊥
    refused e = ground arith

    code :
        (p : UserProfile)
        → lookup uid users ≡ some p
        → (adjust_profile currency amount id p).0 ≡ CommandResultCode.success
    code p e = ground arith

    adjusted :
        (p : UserProfile)
        → lookup uid users ≡ some p
        → (balance_adjustment uid currency amount id users).1
          ≡ insert uid (adjust_profile currency amount id p).1 users
    adjusted p e = rw (e, balance_adjustment)

    go :
        (p : UserProfile)
        → (adjust_profile currency amount id p).0 ≡ CommandResultCode.success
        → RefusesAgain uid currency' amount' id
            (insert uid (adjust_profile currency amount id p).1 users)
    go p c =
        let p' = (adjust_profile currency amount id p).1 in
        let counter =
          applied_counter currency amount id p p' _ (adjust_profile-Adjusts currency amount id p)
            c in
        let here : lookup uid (insert uid p' users) ≡ some p' =
          ground (arith, lookup-insert uid uid p' users, ==_refl uid) in
        rw (here, balance_adjustment, adjusted_again currency' amount' id p' counter)
          (
            refl,
            λ k. ground (
              arith,
              here,
              lookup-insert k uid p' (insert uid p' users),
              lookup-insert k uid p' users,
            ),
          )
