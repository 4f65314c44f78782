-- ===== src/OrderBook/Levels/Budget.antt =====
-- CheckBudgetToFill of OrderBookNaiveImpl.cpp beside the matching of the whole size.
use exchange_cpp.Base.{
  ◌∷◌, [], ◌++◌, List, Bool, true, none, some, ◌≡◌, refl, inl, inr, arith, Bool-cases, All, ap, ◌∙◌,
}
use exchange_cpp.Base.Int.{
  ℤ, pos, ◌+ℤ◌, ◌-ℤ◌, ◌*ℤ◌, ◌≤ℤ◌, ltb_ℤ, min_laws, int_laws, parts, ltb_ℤ→lt, leb_of_ltb_ℤ, +ℤ-*ℤ,
  *ℤ_comm, *ℤ-zero,
}
use exchange_cpp.Common.{OrderAction, MatcherTradeEvent, Order}
use exchange_cpp.OrderBook.Bucket.{OrdersBucket, match_orders}
use exchange_cpp.OrderBook.Bucket.Volume.{
  match_orders-volume, calculated_volume_nonneg, total_size, total_size-match_orders,
}
use exchange_cpp.OrderBook.Levels.{match_range, check_budget}
use exchange_cpp.OrderBook.Levels.Map.{AreValid, IsPlaced-IsLive, IsBucketValid}
use exchange_cpp.OrderBook.Levels.Matching.{match_range_bounds}
use exchange_cpp.OrderBook.Levels.Limits.{IsTradeAt, match_orders-IsTradeAt}

none-some : {A : Type 0} {x : A} → none ≡ some x → ⊥
none-some e = cc

-- What the trades cost in price steps.
unfoldable pub total_cost : List MatcherTradeEvent → ℤ
total_cost [] = pos 0
total_cost (e ∷ es) = e.size *ℤ e.price +ℤ total_cost es

total_cost-nil : total_cost [] ≡ pos 0
unfolding total_cost
total_cost-nil = refl

total_cost-append :
    (xs ys : List MatcherTradeEvent) → total_cost (xs ++ ys) ≡ total_cost xs +ℤ total_cost ys
unfolding total_cost
total_cost-append [] ys = omega int_laws
total_cost-append (e ∷ xs) ys = omega (int_laws, parts (total_cost-append xs ys))

total_cost_at :
    (p : ℤ) (es : List MatcherTradeEvent)
    → All (IsTradeAt p) es
    → total_cost es ≡ total_size es *ℤ p
unfolding total_cost total_size
total_cost_at p [] t = rw (*ℤ_comm (pos 0) p, *ℤ-zero p)
total_cost_at p (e ∷ es) t = rw (+ℤ-*ℤ e.size (total_size es) p, total_cost_at p es t.1, t.0.1)

-- With nothing left to fill, nothing trades.
match_orders_done :
    (r c : ℤ) (os : List Order)
    → c ≤ℤ pos 0
    → ((match_orders r c os).events ≡ []) × ((match_orders r c os).volume ≡ pos 0)
unfolding match_orders
match_orders_done r c [] h = (refl, refl)
match_orders_done r c (o ∷ os) h = (ground arith, ground arith)

abbrev pub always : ℤ → Bool
always p = true

match_range_done :
    (size r filled : ℤ) (bs : List OrdersBucket)
    → size ≤ℤ filled
    → (match_range always size r filled bs).events ≡ []
unfolding match_range
match_range_done size r filled [] h = refl
match_range_done size r filled (b ∷ bs) h =
    let m = match_orders r (size -ℤ filled) b.orders in
    let nothing = match_orders_done r (size -ℤ filled) b.orders (omega int_laws) in
    let rest =
      match_range_done size r (filled +ℤ m.volume) bs (omega (int_laws, parts nothing.1)) in
    rw (nothing.0, rest)

bucket_cost :
    (side : OrderAction) (r c : ℤ) (b : OrdersBucket)
    → IsBucketValid side b
    → total_cost (match_orders r c b.orders).events ≡ (match_orders r c b.orders).volume *ℤ b.price
bucket_cost side r c b v =
    total_cost_at b.price _ (match_orders-IsTradeAt side b.price r c b.orders v.placed)
    ∙ ap (λ t. t *ℤ b.price) (total_size-match_orders r c b.orders)

-- Over valid buckets, for a size that is not yet filled over, a budget that the check finds is the
-- cost of matching the whole rest of the size without a limit, which fills it.
pub match_range-check_budget :
    (size r filled budget : ℤ) (side : OrderAction) (bs : List OrdersBucket) {found : ℤ}
    → AreValid side bs
    → filled ≤ℤ size
    → check_budget (size -ℤ filled) budget bs ≡ some found
    → ((match_range always size r filled bs).filled ≡ size)
      × (budget +ℤ total_cost (match_range always size r filled bs).events ≡ found)
unfolding match_range check_budget
match_range-check_budget size r filled budget side [] v le e = absurd (none-some e)
match_range-check_budget size r filled budget side (b ∷ bs) {found} v le e =
    let c = size -ℤ filled in
    let m = match_orders r c b.orders in
    let next = filled +ℤ m.volume in
    let rest = match_range always size r next bs in
    let live = IsPlaced-IsLive side b.price b.orders v.0.0.placed in
    let vol = parts (match_orders-volume r c b.orders live (omega int_laws)) in
    let nonneg = calculated_volume_nonneg b.orders live in
    let total = parts v.0.0.total in
    let joined = parts (total_cost-append m.events rest.events) in
    elim (Bool-cases (ltb_ℤ b.total_volume c)) [
      | inl more ↦
          let lt = ltb_ℤ→lt b.total_volume c more in
          let whole : m.volume ≡ b.total_volume = omega (min_laws, vol, total) in
          let left : c -ℤ b.total_volume ≡ size -ℤ next = omega (int_laws, parts whole) in
          let e' : check_budget (c -ℤ b.total_volume) (budget +ℤ b.total_volume *ℤ b.price) bs
              ≡ some found =
            ground arith in
          let ih =
            match_range-check_budget size r next (budget +ℤ b.total_volume *ℤ b.price) side bs
              {found = found} (v.0.1, v.1.1) (omega (min_laws, vol)) (rw left at e') in
          let cost = bucket_cost side r c b v.0.0 ∙ ap (λ t. t *ℤ b.price) whole in
          (ih.0, omega (int_laws, joined, parts cost, parts ih.1))
      | inr last ↦
          let ge = leb_of_ltb_ℤ b.total_volume c last in
          let whole : m.volume ≡ c = omega (min_laws, vol, total) in
          let ends : next ≡ size = omega (int_laws, parts whole) in
          let found_here : found ≡ budget +ℤ c *ℤ b.price = ground arith in
          let bounds =
            match_range_bounds always size r side next bs (v.0.1, v.1.1)
              (omega (int_laws, parts ends)) in
          let cost = bucket_cost side r c b v.0.0 ∙ ap (λ t. t *ℤ b.price) whole in
          let nothing = match_range_done size r next bs (omega (int_laws, parts ends)) in
          let no_cost : total_cost rest.events ≡ pos 0 = rw nothing total_cost-nil in
          (
            omega (int_laws, bounds.0, bounds.1, parts ends),
            omega (int_laws, joined, parts cost, parts no_cost, parts found_here),
          )
    ]
