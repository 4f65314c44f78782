-- ===== src/Risk/Users.antt =====
-- src/exchange/core/common/UserProfile.cpp and processors/UserProfileService.cpp: the users, their
-- accounts, and the commands that manage them. A profile is reached by its uid, as by the pointer of
-- the source's map.
pub mod Totals
pub mod Adjustments
use exchange_cpp.Base.{
  ℕ, Bool, true, false, not, ◌&&◌, ◌||◌, if◌then◌else◌, Option, none, some, List, [], ◌∷◌,
}
use exchange_cpp.Base.Dict.{Dict, lookup, insert, erase}
use exchange_cpp.Base.Int.{ℤ, pos, ◌+ℤ◌, ltb_ℤ, ◌==ℤ◌}
use exchange_cpp.Common.{UserStatus, active, suspended, CommandResultCode}
use exchange_cpp.Risk.Position.{SymbolPositionRecord, is_empty}

pub record UserProfile : Type 0 where
  pub uid : ℕ
  pub positions : Dict SymbolPositionRecord
  pub adjustments_counter : ℤ
  pub accounts : Dict ℤ
  pub user_status : UserStatus

abbrev pub Users : Type 0
Users = Dict UserProfile

-- `new UserProfile(uid, status)`
abbrev pub new_user_profile : ℕ → UserStatus → UserProfile
new_user_profile uid status = record {
  uid = uid;
  positions = [];
  adjustments_counter = pos 0;
  accounts = [];
  user_status = status;
}

-- The value of a key, or 0 if there is none: what `map[key]` reads.
unfoldable pub amount_at : ℕ → Dict ℤ → ℤ
amount_at k d = elim (lookup k d) [ none ↦ pos 0 | some v ↦ v ]

-- `map[key] += amount`
unfoldable pub add_amount : ℕ → ℤ → Dict ℤ → Dict ℤ
add_amount k amount d = insert k (amount_at k d +ℤ amount) d

-- `GetUserProfileOrAddSuspended`
unfoldable pub get_user_profile_or_add_suspended : ℕ → Users → UserProfile × Users
get_user_profile_or_add_suspended uid users = elim (lookup uid users) [
  | some profile ↦ (profile, users)
  | none ↦ let profile = new_user_profile uid suspended in (profile, insert uid profile users)
]

-- `profile->accounts[currency] += amount`, for a profile that is found or added.
unfoldable pub credit : ℕ → ℕ → ℤ → Users → Users
unfolding get_user_profile_or_add_suspended
credit uid currency amount users =
    let found = get_user_profile_or_add_suspended uid users in
    insert uid (record found.0 { accounts = add_amount currency amount found.0.accounts }) found.1

-- `BalanceAdjustment` of a profile that exists.
unfoldable pub adjust_profile : ℕ → ℤ → ℤ → UserProfile → CommandResultCode × UserProfile
adjust_profile currency amount funding_transaction_id profile =
    let current_balance = amount_at currency profile.accounts in
    if profile.adjustments_counter ==ℤ funding_transaction_id
    then (CommandResultCode.user_mgmt_account_balance_adjustment_already_applied_same, profile)
    else if ltb_ℤ funding_transaction_id profile.adjustments_counter
    then (CommandResultCode.user_mgmt_account_balance_adjustment_already_applied_many, profile)
    else if ltb_ℤ amount (pos 0) && ltb_ℤ (current_balance +ℤ amount) (pos 0)
    then (CommandResultCode.user_mgmt_account_balance_adjustment_nsf, profile)
    else (
      CommandResultCode.success,
      record profile {
        adjustments_counter = funding_transaction_id;
        accounts = insert currency (current_balance +ℤ amount) profile.accounts;
      },
    )

unfoldable pub balance_adjustment : ℕ → ℕ → ℤ → ℤ → Users → CommandResultCode × Users
unfolding adjust_profile
balance_adjustment uid currency amount funding_transaction_id users = elim (lookup uid users) [
  | none ↦ (CommandResultCode.user_mgmt_user_not_found, users)
  | some profile ↦
      let adjusted = adjust_profile currency amount funding_transaction_id profile in
      (adjusted.0, insert uid adjusted.1 users)
]

unfoldable pub add_user : ℕ → Users → CommandResultCode × Users
add_user uid users = elim (lookup uid users) [
  | some _ ↦ (CommandResultCode.user_mgmt_user_already_exists, users)
  | none ↦ (CommandResultCode.success, insert uid (new_user_profile uid active) users)
]

-- The loops of `SuspendUser` over a user's positions and accounts.
unfoldable pub has_open_position : Dict SymbolPositionRecord → Bool
has_open_position [] = false
has_open_position ((symbol, position) ∷ ps) = not (is_empty position) || has_open_position ps

unfoldable pub has_funds : Dict ℤ → Bool
has_funds [] = false
has_funds ((currency, balance) ∷ d) = not (balance ==ℤ pos 0) || has_funds d

unfoldable pub is_suspended : UserStatus → Bool
is_suspended active = false
is_suspended suspended = true

unfoldable pub suspend_user : ℕ → Users → CommandResultCode × Users
suspend_user uid users = elim (lookup uid users) [
  | none ↦ (CommandResultCode.user_mgmt_user_not_found, users)
  | some profile ↦
      if is_suspended profile.user_status
      then (CommandResultCode.user_mgmt_user_already_suspended, users)
      else if has_open_position profile.positions
      then (CommandResultCode.user_mgmt_user_not_suspendable_has_positions, users)
      else if has_funds profile.accounts
      then (CommandResultCode.user_mgmt_user_not_suspendable_non_empty_accounts, users)
      else (CommandResultCode.success, erase uid users)
]

unfoldable pub resume_user : ℕ → Users → CommandResultCode × Users
resume_user uid users = elim (lookup uid users) [
  | none ↦ (CommandResultCode.success, insert uid (new_user_profile uid active) users)
  | some profile ↦
      if is_suspended profile.user_status
      then (CommandResultCode.success, insert uid (record profile { user_status = active }) users)
      else (CommandResultCode.user_mgmt_user_not_suspended, users)
]
