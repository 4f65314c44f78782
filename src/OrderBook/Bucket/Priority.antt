-- ===== src/OrderBook/Bucket/Priority.antt =====
-- Match of OrdersBucket.cpp and the age of the orders.
use exchange_cpp.Base.{
  ℕ, ◌∷◌, [], ◌++◌, List, ◌≡◌, refl, inl, inr, ◌⊎◌, false, arith, Bool-cases, All, ap,
}
use exchange_cpp.Base.Int.{
  ℤ, pos, ◌+ℤ◌, ◌-ℤ◌, ltb_ℤ, ◌==ℤ◌, ◌≤ℤ◌, ◌<ℤ◌, ltb_ℤ_of_lt, leb_of_ltb_ℤ, ltb_ℤ→lt, ==ℤ_of_eq,
  int_laws, parts, min_ℤ, min_laws,
}
use exchange_cpp.Common.{Order, MatcherTradeEvent}
use exchange_cpp.OrderBook.Events.{send_trade_event}
use exchange_cpp.OrderBook.Bucket.{MatcherResult, match_orders, fill, calculated_volume}
use exchange_cpp.OrderBook.Bucket.Volume.{IsLive}

abbrev pub order_ids : List Order → List ℕ
order_ids [] = []
order_ids (o ∷ os) = o.order_id ∷ order_ids os

abbrev pub matched_ids : List MatcherTradeEvent → List ℕ
matched_ids [] = []
matched_ids (e ∷ es) = e.matched_order_id ∷ matched_ids es

-- The events name the first orders of the list, in its order.
pub match_orders-matched_ids :
    (r c : ℤ) (os : List Order)
    → (rest : List ℕ) × (order_ids os ≡ matched_ids (match_orders r c os).events ++ rest)
unfolding match_orders send_trade_event
match_orders-matched_ids r c [] = ([], refl)
match_orders-matched_ids r c (o ∷ os) =
    let ih = match_orders-matched_ids r (c -ℤ min_ℤ c (o.size -ℤ o.filled)) os in
    elim (Bool-cases (ltb_ℤ (pos 0) c)) [
      | inl more ↦ rw more (ih.0, ap (λ ks. o.order_id ∷ ks) ih.1)
      | inr done ↦ rw done (order_ids (o ∷ os), refl)
    ]

-- An order's id with a size of it.
abbrev pub portions : List MatcherTradeEvent → List (ℕ × ℤ)
portions [] = []
portions (e ∷ es) = (e.matched_order_id, e.size) ∷ portions es

abbrev pub wholes : List Order → List (ℕ × ℤ)
wholes [] = []
wholes (o ∷ os) = (o.order_id, o.size -ℤ o.filled) ∷ wholes os

-- How much is filled of orders, oldest first, when `c` is to be collected: the orders `done` are filled
-- whole and removed, those behind them stay as they were, but for the first of them, of which what is
-- still to be collected is filled.
pub data FillsInOrder (c : ℤ) (os : List Order) (m : MatcherResult) : Type 0 where
  none_partly :
      (done younger : List Order)
      → os ≡ done ++ younger
      → m.orders_to_remove ≡ order_ids done
      → m.orders ≡ younger
      → portions m.events ≡ wholes done
      → (younger ≡ []) ⊎ (calculated_volume done ≡ c)
      → calculated_volume done ≤ℤ c
      → FillsInOrder c os m
  one_partly :
      (done : List Order) (o : Order) (younger : List Order) (v : ℤ)
      → os ≡ done ++ o ∷ younger
      → m.orders_to_remove ≡ order_ids done
      → m.orders ≡ fill o v ∷ younger
      → portions m.events ≡ wholes done ++ (o.order_id, v) ∷ []
      → calculated_volume done +ℤ v ≡ c
      → pos 0 <ℤ v
      → v <ℤ (o.size -ℤ o.filled)
      → FillsInOrder c os m

-- With nothing left to collect, no order is touched.
match_orders_spent :
    (r : ℤ) (os : List Order)
    → match_orders r (pos 0) os
      ≡ record { volume = pos 0; events = []; orders_to_remove = []; orders = os }
unfolding match_orders
match_orders_spent r [] = refl
match_orders_spent r (o ∷ os) = refl

min_ℤ_right : (a b : ℤ) → b ≤ℤ a → min_ℤ a b ≡ b
min_ℤ_right a b h = omega (min_laws, h)

min_ℤ_left : (a b : ℤ) → a ≤ℤ b → min_ℤ a b ≡ a
min_ℤ_left a b h = omega (min_laws, h)

==ℤ_of_lt : (a b : ℤ) → a <ℤ b → (b ==ℤ a) ≡ false
==ℤ_of_lt a b h = ground arith

-- What is done with the younger orders, behind one that is filled whole.
behind_whole :
    (c : ℤ) (o : Order) (os : List Order) (e : MatcherTradeEvent) (m : MatcherResult) (v : ℤ)
    → e.matched_order_id ≡ o.order_id
    → e.size ≡ o.size -ℤ o.filled
    → FillsInOrder (c -ℤ (o.size -ℤ o.filled)) os m
    → FillsInOrder c (o ∷ os) (record {
      volume = v;
      events = e ∷ m.events;
      orders_to_remove = o.order_id ∷ m.orders_to_remove;
      orders = m.orders;
    })
unfolding calculated_volume
behind_whole c o os e m v same whole (none_partly done younger split ids kept filled rest fits) =
    none_partly (o ∷ done) younger (ap (λ xs. o ∷ xs) split) (ap (λ ks. o.order_id ∷ ks) ids) kept
      (rw (same, whole, filled) refl)
      (elim rest [ inl none_left ↦ inl none_left | inr all ↦ inr (omega (int_laws, parts all)) ])
      (omega (int_laws, fits))
behind_whole c o os e m v same whole
      (one_partly done p younger w split ids kept filled sum low high) =
    one_partly (o ∷ done) p younger w (ap (λ xs. o ∷ xs) split) (ap (λ ks. o.order_id ∷ ks) ids)
      kept (rw (same, whole, filled) refl) (omega (int_laws, parts sum)) low high

-- An order that is filled whole goes before what is done with the younger ones.
filled_whole :
    (r c : ℤ) (o : Order) (os : List Order)
    → pos 0 <ℤ c
    → (o.size -ℤ o.filled) ≤ℤ c
    → FillsInOrder (c -ℤ (o.size -ℤ o.filled)) os (match_orders r (c -ℤ (o.size -ℤ o.filled)) os)
    → FillsInOrder c (o ∷ os) (match_orders r c (o ∷ os))
unfolding match_orders calculated_volume send_trade_event
filled_whole r c o os h l f =
    let left = o.size -ℤ o.filled in
    rw
      (
        ltb_ℤ_of_lt (pos 0) c h,
        min_ℤ_right c left l,
        ==ℤ_of_eq o.size (o.filled +ℤ left) (omega int_laws),
      )
      (behind_whole c o os _ _ _ refl refl f)

-- Of an order that is larger than what is to be collected, that much is filled.
filled_partly :
    (r c : ℤ) (o : Order) (os : List Order)
    → pos 0 <ℤ c
    → c <ℤ (o.size -ℤ o.filled)
    → FillsInOrder c (o ∷ os) (match_orders r c (o ∷ os))
unfolding match_orders calculated_volume send_trade_event
filled_partly r c o os h l =
    let nothing : c -ℤ c ≡ pos 0 = omega int_laws in
    rw
      (
        ltb_ℤ_of_lt (pos 0) c h,
        min_ℤ_left c (o.size -ℤ o.filled) (omega (arith, l)),
        ==ℤ_of_lt (o.filled +ℤ c) o.size (omega (int_laws, l)),
        nothing,
        match_orders_spent r os,
      )
      (one_partly [] o os c refl refl refl refl (omega int_laws) h l)

-- Matching a size that is not negative with live orders of one price fills the oldest orders whole,
-- with one trade each of all that was left of it, and removes exactly them. Either these trades
-- make up the size or no order is left, and the younger orders stay untouched; or the next order is
-- filled by the positive rest of the size, which is less than what was left of it, with one last
-- trade, and the orders behind it stay untouched.
pub match_orders-FillsInOrder :
    (r c : ℤ) (os : List Order)
    → pos 0 ≤ℤ c
    → All IsLive os
    → FillsInOrder c os (match_orders r c os)
unfolding match_orders calculated_volume
match_orders-FillsInOrder r c [] h live = none_partly [] [] refl refl refl refl (inl refl) h
match_orders-FillsInOrder r c (o ∷ os) h live = elim (Bool-cases (ltb_ℤ (pos 0) c)) [
  | inl more ↦ elim (Bool-cases (ltb_ℤ c (o.size -ℤ o.filled))) [
    | inl part ↦
        filled_partly r c o os (ltb_ℤ→lt (pos 0) c more) (ltb_ℤ→lt c (o.size -ℤ o.filled) part)
    | inr whole ↦
        let enough = leb_of_ltb_ℤ c (o.size -ℤ o.filled) whole in
        filled_whole r c o os (ltb_ℤ→lt (pos 0) c more) enough (
          match_orders-FillsInOrder r (c -ℤ (o.size -ℤ o.filled)) os (omega (int_laws, enough))
            live.1)
  ]
  | inr spent ↦ rw spent (
      none_partly [] (o ∷ os) refl refl refl refl
        (inr (omega (int_laws, h, leb_of_ltb_ℤ (pos 0) c spent))) h)
]
