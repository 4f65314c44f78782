-- ===== src/OrderBook/Bucket/Volume.antt =====
-- The volume of a bucket under `Match`, `Put` and `Remove`.
use exchange_cpp.Base.{
  ℕ, ◌∷◌, [], ◌++◌, List, false, some, ◌≡◌, refl, inl, inr, arith, Bool-cases, All, ap, ◌==◌,
}
use exchange_cpp.Base.Int.{
  ℤ, pos, ◌+ℤ◌, ◌-ℤ◌, ltb_ℤ, ◌==ℤ◌, ◌≤ℤ◌, ◌<ℤ◌, min_ℤ, int_laws, parts, ==ℤ_eq, ==ℤ_ne, ltb_ℤ→lt,
  leb_of_ltb_ℤ, min_laws,
}
use exchange_cpp.Common.{Order, MatcherTradeEvent}
use exchange_cpp.OrderBook.Bucket.{match_orders, calculated_volume, fill, find_by_id, erase_by_id}
use exchange_cpp.OrderBook.Events.{send_trade_event}

-- An order that waits in a book: something is left of it, and it was never filled below zero.
abbrev pub IsLive : Order → Type 0
IsLive o = (pos 0 ≤ℤ o.filled) × (o.filled <ℤ o.size)

unfoldable pub total_size : List MatcherTradeEvent → ℤ
total_size [] = pos 0
total_size (e ∷ es) = e.size +ℤ total_size es

-- Matching takes from the orders what it reports as the volume.
pub calculated_volume-match_orders :
    (r c : ℤ) (os : List Order)
    → calculated_volume os
      ≡ (match_orders r c os).volume +ℤ calculated_volume (match_orders r c os).orders
unfolding match_orders calculated_volume
calculated_volume-match_orders r c [] = omega int_laws
calculated_volume-match_orders r c (o ∷ os) =
    let v = min_ℤ c (o.size -ℤ o.filled) in
    let ih = parts (calculated_volume-match_orders r (c -ℤ v) os) in
    elim (Bool-cases (ltb_ℤ (pos 0) c)) [
      | inl more ↦ rw more (elim (Bool-cases (o.size ==ℤ (o.filled +ℤ v))) [
        | inl full ↦ rw full (omega (int_laws, parts (==ℤ_eq o.size (o.filled +ℤ v) full)))
        | inr part ↦ rw part (omega int_laws)
      ])
      | inr done ↦ rw done (omega int_laws)
    ]

-- A partly filled order stays live.
pub fill-IsLive :
    (c : ℤ) (o : Order)
    → IsLive o
    → pos 0 <ℤ c
    → (o.size ==ℤ (o.filled +ℤ min_ℤ c (o.size -ℤ o.filled))) ≡ false
    → IsLive (fill o (min_ℤ c (o.size -ℤ o.filled)))
fill-IsLive c o h p part =
    omega (min_laws, ==ℤ_ne o.size (o.filled +ℤ min_ℤ c (o.size -ℤ o.filled)) part)

pub match_orders-IsLive :
    (r c : ℤ) (os : List Order) → All IsLive os → All IsLive (match_orders r c os).orders
unfolding match_orders
match_orders-IsLive r c [] h = tt
match_orders-IsLive r c (o ∷ os) h =
    let v = min_ℤ c (o.size -ℤ o.filled) in
    let ih = match_orders-IsLive r (c -ℤ v) os h.1 in
    elim (Bool-cases (ltb_ℤ (pos 0) c)) [
      | inl more ↦ rw more (elim (Bool-cases (o.size ==ℤ (o.filled +ℤ v))) [
        | inl full ↦ rw full ih
        | inr part ↦ rw part (fill-IsLive c o h.0 (ltb_ℤ→lt (pos 0) c more) part, ih)
      ])
      | inr done ↦ rw done h
    ]

pub calculated_volume_nonneg : (os : List Order) → All IsLive os → pos 0 ≤ℤ calculated_volume os
unfolding calculated_volume
calculated_volume_nonneg [] h = omega arith
calculated_volume_nonneg (o ∷ os) h = omega (int_laws, calculated_volume_nonneg os h.1)

-- Live orders fill as much as is asked for, or all that they have.
pub match_orders-volume :
    (r c : ℤ) (os : List Order)
    → All IsLive os
    → pos 0 ≤ℤ c
    → (match_orders r c os).volume ≡ min_ℤ c (calculated_volume os)
unfolding match_orders calculated_volume
match_orders-volume r c [] h p = omega min_laws
match_orders-volume r c (o ∷ os) h p =
    let v = min_ℤ c (o.size -ℤ o.filled) in
    elim (Bool-cases (ltb_ℤ (pos 0) c)) [
      | inl more ↦ rw more (
          rw (match_orders-volume r (c -ℤ v) os h.1 (omega min_laws))
            (omega (min_laws, calculated_volume_nonneg os h.1)))
      | inr done ↦
          rw done (omega (min_laws, calculated_volume_nonneg os h.1, leb_of_ltb_ℤ (pos 0) c done))
    ]

-- `Put` and `Remove` keep the total equal to the sum.
pub calculated_volume-append :
    (xs ys : List Order)
    → calculated_volume (xs ++ ys) ≡ calculated_volume xs +ℤ calculated_volume ys
unfolding calculated_volume
calculated_volume-append [] ys = omega int_laws
calculated_volume-append (o ∷ xs) ys = omega (int_laws, parts (calculated_volume-append xs ys))

pub calculated_volume-erase_by_id :
    (k : ℕ) (o : Order) (os : List Order)
    → find_by_id k os ≡ some o
    → calculated_volume (erase_by_id k os) ≡ calculated_volume os -ℤ (o.size -ℤ o.filled)
unfolding calculated_volume find_by_id erase_by_id
calculated_volume-erase_by_id k o [] e = cc
calculated_volume-erase_by_id k o (x ∷ os) e = elim (Bool-cases (k == x.order_id)) [
  | inl hit ↦ let same : x ≡ o = ground arith in rw (hit, ← same) (omega int_laws)
  | inr miss ↦
      let rest : find_by_id k os ≡ some o = ground arith in
      rw miss (omega (int_laws, parts (calculated_volume-erase_by_id k o os rest)))
]

-- The events of a match carry its volume.
pub total_size-match_orders :
    (r c : ℤ) (os : List Order)
    → total_size (match_orders r c os).events ≡ (match_orders r c os).volume
unfolding match_orders total_size send_trade_event
total_size-match_orders r c [] = refl
total_size-match_orders r c (o ∷ os) =
    let v = min_ℤ c (o.size -ℤ o.filled) in
    elim (Bool-cases (ltb_ℤ (pos 0) c)) [
      | inl more ↦ rw more (ap (◌+ℤ◌ v) (total_size-match_orders r (c -ℤ v) os))
      | inr done ↦ rw done
    ]
