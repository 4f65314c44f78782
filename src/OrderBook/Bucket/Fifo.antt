-- ===== src/OrderBook/Bucket/Fifo.antt =====
-- Which orders of a bucket a match consumes, and the ids that stay.
use exchange_cpp.Base.{
  ℕ, ◌∷◌, [], ◌++◌, List, Bool, true, false, not, ◌&&◌, none, some, ◌≡◌, refl, inl, inr, arith,
  Bool-cases, if◌then◌else◌, All, ap, ◌==◌, contains,
}
use exchange_cpp.Base.Int.{ℤ, ◌-ℤ◌, min_ℤ}
use exchange_cpp.Common.{Order}
use exchange_cpp.OrderBook.Bucket.{match_orders, find_by_id, erase_by_id}

-- Whether an id is in the list.
abbrev pub has_id : ℕ → List Order → Bool
has_id k os = elim (find_by_id k os) [ none ↦ false | some o ↦ true ]

-- No id twice.
abbrev pub HasDistinctIds : List Order → Type 0
HasDistinctIds [] = Unit
HasDistinctIds (o ∷ os) = (find_by_id o.order_id os ≡ none) × HasDistinctIds os

pub find_by_id-order_id :
    (k : ℕ) (o : Order) (os : List Order) → find_by_id k os ≡ some o → o.order_id ≡ k
unfolding find_by_id
find_by_id-order_id k o [] e = cc
find_by_id-order_id k o (x ∷ os) e = ground (arith, find_by_id-order_id k o os)

pub find_by_id-append :
    (k : ℕ) (xs ys : List Order)
    → find_by_id k (xs ++ ys) ≡ elim (find_by_id k xs) [ none ↦ find_by_id k ys | some o ↦ some o ]
unfolding find_by_id
find_by_id-append k [] ys = refl
find_by_id-append k (x ∷ xs) ys = ground (arith, find_by_id-append k xs ys)

pub find_by_id-erase_by_id :
    (k j : ℕ) (os : List Order)
    → HasDistinctIds os
    → find_by_id k (erase_by_id j os) ≡ (if k == j then none else find_by_id k os)
unfolding find_by_id erase_by_id
find_by_id-erase_by_id k j [] h = ground arith
find_by_id-erase_by_id k j (x ∷ os) h =
    ground (arith, find_by_id-erase_by_id k j os h.1, ap (λ (t : ℕ). find_by_id t os))

pub erase_by_id-HasDistinctIds :
    (j : ℕ) (os : List Order) → HasDistinctIds os → HasDistinctIds (erase_by_id j os)
unfolding erase_by_id
erase_by_id-HasDistinctIds j [] h = tt
erase_by_id-HasDistinctIds j (x ∷ os) h =
    ground (arith, erase_by_id-HasDistinctIds j os h.1, find_by_id-erase_by_id x.order_id j os h.1)

pub append-HasDistinctIds :
    (o : Order) (os : List Order)
    → HasDistinctIds os
    → find_by_id o.order_id os ≡ none
    → HasDistinctIds (os ++ o ∷ [])
unfolding find_by_id
append-HasDistinctIds o [] h e = (refl, tt)
append-HasDistinctIds o (x ∷ os) h e =
    ground (arith, append-HasDistinctIds o os h.1, find_by_id-append x.order_id os (o ∷ []))

-- A match adds no id.
pub find_by_id-match_orders-none :
    (k : ℕ) (r c : ℤ) (os : List Order)
    → find_by_id k os ≡ none
    → (find_by_id k (match_orders r c os).orders ≡ none)
      × (contains k (match_orders r c os).orders_to_remove ≡ false)
unfolding match_orders find_by_id
find_by_id-match_orders-none k r c [] e = (refl, refl)
find_by_id-match_orders-none k r c (o ∷ os) e =
    let ih = find_by_id-match_orders-none k r (c -ℤ min_ℤ c (o.size -ℤ o.filled)) os in
    ground (arith, ih)

pub match_orders-HasDistinctIds :
    (r c : ℤ) (os : List Order) → HasDistinctIds os → HasDistinctIds (match_orders r c os).orders
unfolding match_orders
match_orders-HasDistinctIds r c [] h = tt
match_orders-HasDistinctIds r c (o ∷ os) h =
    let c' = c -ℤ min_ℤ c (o.size -ℤ o.filled) in
    ground (
      arith,
      match_orders-HasDistinctIds r c' os h.1,
      find_by_id-match_orders-none o.order_id r c' os h.0,
    )

-- After a match the bucket holds the ids that it held, but for those reported for removal.
pub has_id-match_orders :
    (k : ℕ) (r c : ℤ) (os : List Order)
    → HasDistinctIds os
    → has_id k (match_orders r c os).orders
      ≡ (has_id k os && not (contains k (match_orders r c os).orders_to_remove))
unfolding match_orders find_by_id
has_id-match_orders k r c [] h = refl
has_id-match_orders k r c (o ∷ os) h =
    let c' = c -ℤ min_ℤ c (o.size -ℤ o.filled) in
    ground (
      arith,
      has_id-match_orders k r c' os h.1,
      find_by_id-match_orders-none o.order_id r c' os h.0,
    )

pub contains-orders_to_remove :
    (k : ℕ) (r c : ℤ) (os : List Order)
    → contains k (match_orders r c os).orders_to_remove ≡ true
    → has_id k os ≡ true
unfolding match_orders find_by_id
contains-orders_to_remove k r c [] h = cc
contains-orders_to_remove k r c (o ∷ os) h =
    let c' = c -ℤ min_ℤ c (o.size -ℤ o.filled) in
    ground (arith, contains-orders_to_remove k r c' os)

pub find_by_id-All {ℓ} :
    (P : Order → Type ℓ) (k : ℕ) (o : Order) (os : List Order)
    → All P os
    → find_by_id k os ≡ some o
    → P o
unfolding find_by_id
find_by_id-All P k o [] h e = absurd (none-some e)
  where
    none-some : none ≡ some o → ⊥
    none-some q = cc
find_by_id-All P k o (x ∷ os) h e = elim (Bool-cases (k == x.order_id)) [
  | inl hit ↦ let same : x ≡ o = ground arith in rw (← same) h.0
  | inr miss ↦
      let rest : find_by_id k os ≡ some o = ground arith in find_by_id-All P k o os h.1 rest
]
