-- ===== src/OrderBook/Levels/Index.antt =====
-- Which ids a side holds after the loop over a matching range.
use exchange_cpp.Base.{
  ℕ, ◌∷◌, [], List, Bool, true, false, not, ◌&&◌, none, ◌≡◌, refl, sym, subst, inl, inr, arith,
  Bool-cases, if◌then◌else◌, ◌∙◌, contains, contains-append,
}
use exchange_cpp.Base.Int.{ℤ, pos, ◌+ℤ◌, ◌-ℤ◌, ◌==ℤ◌, ==ℤ_of_eq}
use exchange_cpp.Common.{OrderAction}
use exchange_cpp.OrderBook.Bucket.{
  OrdersBucket, MatcherResult, match_orders, matched_bucket, find_by_id,
}
use exchange_cpp.OrderBook.Bucket.Fifo.{has_id, has_id-match_orders, contains-orders_to_remove}
use exchange_cpp.OrderBook.Levels.{find_bucket, match_range}
use exchange_cpp.OrderBook.Levels.Map.{AreValid, holds, IsSorted, AllAfter, find_bucket-AllAfter}
use exchange_cpp.OrderBook.Levels.Matching.{matched_bucket_empty, match_range-AllAfter}

-- An id stands at one price only.
abbrev pub IsUnique : List OrdersBucket → Type 0
IsUnique bs = (k : ℕ) (p q : ℤ) → holds k p bs ≡ true → holds k q bs ≡ true → (p ==ℤ q) ≡ true

-- What a later bucket holds stands at another price than the first.
holds_tail :
    (side : OrderAction) (k : ℕ) (q : ℤ) (b : OrdersBucket) (bs : List OrdersBucket)
    → AllAfter side b.price bs
    → holds k q bs ≡ true
    → ((q ==ℤ b.price) ≡ false) × (holds k q (b ∷ bs) ≡ true)
unfolding find_bucket
holds_tail side k q b bs h e = elim (Bool-cases (q ==ℤ b.price)) [
  | inl same ↦
      let nowhere = find_bucket-AllAfter side q b.price bs h same in absurd (false_ne nowhere)
  | inr other ↦ (other, ground arith)
]
  where
    false_ne : find_bucket q bs ≡ none → ⊥
    false_ne n = ground arith

IsUnique-tail :
    (side : OrderAction) (b : OrdersBucket) (bs : List OrdersBucket)
    → AllAfter side b.price bs
    → IsUnique (b ∷ bs)
    → IsUnique bs
IsUnique-tail side b bs h u k p q hp hq =
    u k p q (holds_tail side k p b bs h hp).1 (holds_tail side k q b bs h hq).1

has_id-nil : (k : ℕ) → has_id k [] ≡ false
unfolding find_by_id
has_id-nil k = refl

first_holds :
    (k : ℕ) (p : ℤ) (b : OrdersBucket) (bs : List OrdersBucket)
    → (p ==ℤ b.price) ≡ true
    → holds k p (b ∷ bs) ≡ has_id k b.orders
unfolding find_bucket
first_holds k p b bs e = ground arith

later_holds :
    (k : ℕ) (p : ℤ) (b : OrdersBucket) (bs : List OrdersBucket)
    → (p ==ℤ b.price) ≡ false
    → holds k p (b ∷ bs) ≡ holds k p bs
unfolding find_bucket
later_holds k p b bs e = ground arith

module _ (continues : ℤ → Bool) (size r : ℤ) where
  -- What is removed was held.
  pub contains-removed_ids :
      (side : OrderAction) (k : ℕ) (filled : ℤ) (bs : List OrdersBucket)
      → IsSorted side bs
      → contains k (match_range continues size r filled bs).removed_ids ≡ true
      → (q : ℤ) × (holds k q bs ≡ true)
  unfolding match_range
  contains-removed_ids side k filled [] h e = (pos 0, cc)
  contains-removed_ids side k filled (b ∷ bs) h e =
      let m = match_orders r (size -ℤ filled) b.orders in
      let rest = match_range continues size r (filled +ℤ m.volume) bs in
      elim (Bool-cases (continues b.price)) [
        | inl more ↦ elim (Bool-cases (contains k m.orders_to_remove)) [
          | inl here ↦ (
            b.price,
            first_holds k b.price b bs (==ℤ_of_eq b.price b.price refl)
                ∙ contains-orders_to_remove k r (size -ℤ filled) b.orders here,
          )
          | inr there ↦
              let (q, held) =
                contains-removed_ids side k (filled +ℤ m.volume) bs h.1
                  (ground (arith, contains-append k m.orders_to_remove rest.removed_ids)) in
              (q, (holds_tail side k q b bs h.0 held).1)
        ]
        | inr done ↦ (pos 0, ground arith)
      ]

  -- An id of the first bucket is not removed from a later one, and the other way round.
  not_removed_later :
      (side : OrderAction) (k : ℕ) (filled : ℤ) (b : OrdersBucket) (bs : List OrdersBucket)
      → AreValid side (b ∷ bs)
      → IsUnique (b ∷ bs)
      → has_id k b.orders ≡ true
      → contains k (match_range continues size r filled bs).removed_ids ≡ false
  not_removed_later side k filled b bs v u e =
      elim (Bool-cases (contains k (match_range continues size r filled bs).removed_ids)) [
        | inr absent ↦ absent
        | inl there ↦
            let (q, held) = contains-removed_ids side k filled bs v.1.1 there in
            let apart = holds_tail side k q b bs v.1.0 held in
            let first = first_holds k b.price b bs (==ℤ_of_eq b.price b.price refl) in
            let same = u k q b.price apart.1 (first ∙ e) in cc
      ]

  not_removed_here :
      (side : OrderAction) (k : ℕ) (p c : ℤ) (b : OrdersBucket) (bs : List OrdersBucket)
      → AreValid side (b ∷ bs)
      → IsUnique (b ∷ bs)
      → holds k p bs ≡ true
      → contains k (match_orders r c b.orders).orders_to_remove ≡ false
  not_removed_here side k p c b bs v u held =
      elim (Bool-cases (contains k (match_orders r c b.orders).orders_to_remove)) [
        | inr absent ↦ absent
        | inl there ↦
            let apart = holds_tail side k p b bs v.1.0 held in
            let first = first_holds k b.price b bs (==ℤ_of_eq b.price b.price refl) in
            let same =
              u k p b.price apart.1 (first ∙ contains-orders_to_remove k r c b.orders there) in
            cc
      ]

  -- What is held at a price after the first bucket was matched.
  holds_first :
      (side : OrderAction) (k : ℕ) (p c filled : ℤ) (b : OrdersBucket) (bs : List OrdersBucket)
      → AreValid side (b ∷ bs)
      → (p ==ℤ b.price) ≡ true
      → let m = match_orders r c b.orders in
        let b' = matched_bucket m b in
        let rest = (match_range continues size r filled bs).buckets in
        holds k p (if b'.total_volume ==ℤ pos 0 then rest else b' ∷ rest) ≡ has_id k m.orders
  holds_first side k p c filled b bs v hit =
      let m = match_orders r c b.orders in
      let rest = (match_range continues size r filled bs).buckets in
      let nowhere =
        find_bucket-AllAfter side p b.price rest
          (match_range-AllAfter continues size r side b.price filled bs v.1.0) hit in
      elim (Bool-cases ((matched_bucket m b).total_volume ==ℤ pos 0)) [
        | inl used ↦
            let nobody : has_id k m.orders ≡ false =
              subst (λ os. has_id k os ≡ false) (sym (matched_bucket_empty side r c b v.0.0 used))
                (has_id-nil k) in
            rw used (ground arith)
        | inr left ↦
            rw left (unfold matched_bucket in first_holds k p (matched_bucket m b) rest hit)
      ]

  holds_later :
      (k : ℕ) (p : ℤ) (b : OrdersBucket) (m : MatcherResult) (rest : List OrdersBucket)
      → (p ==ℤ b.price) ≡ false
      → let b' = matched_bucket m b in
        holds k p (if b'.total_volume ==ℤ pos 0 then rest else b' ∷ rest) ≡ holds k p rest
  holds_later k p b m rest miss = elim (Bool-cases ((matched_bucket m b).total_volume ==ℤ pos 0)) [
    | inl used ↦ rw used
    | inr left ↦ rw left (unfold matched_bucket in later_holds k p (matched_bucket m b) rest miss)
  ]

  -- The loop keeps every id where it is held, but for those that it reports for removal.
  pub holds-match_range :
      (side : OrderAction) (k : ℕ) (p filled : ℤ) (bs : List OrdersBucket)
      → AreValid side bs
      → IsUnique bs
      → holds k p (match_range continues size r filled bs).buckets
        ≡ (holds k p bs && not (contains k (match_range continues size r filled bs).removed_ids))
  unfolding match_range
  holds-match_range side k p filled [] v u = unfold find_bucket in refl
  holds-match_range side k p filled (b ∷ bs) v u =
      let c = size -ℤ filled in
      let m = match_orders r c b.orders in
      let next = filled +ℤ m.volume in
      let rest = match_range continues size r next bs in
      let ih =
        holds-match_range side k p next bs (v.0.1, v.1.1) (IsUnique-tail side b bs v.1.0 u) in
      elim (Bool-cases (continues b.price)) [
        | inl more ↦ rw more (elim (Bool-cases (p ==ℤ b.price)) [
          | inl hit ↦ ground (
            arith,
            holds_first side k p c next b bs v hit,
            first_holds k p b bs hit,
            has_id-match_orders k r c b.orders v.0.0.distinct,
            not_removed_later side k next b bs v u,
            contains-append k m.orders_to_remove rest.removed_ids,
          )
          | inr miss ↦ ground (
            arith,
            ih,
            holds_later k p b m rest.buckets miss,
            later_holds k p b bs miss,
            not_removed_here side k p c b bs v u,
            contains-append k m.orders_to_remove rest.removed_ids,
          )
        ])
        | inr done ↦ rw done (ground arith)
      ]
