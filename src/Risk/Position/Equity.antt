-- ===== src/Risk/Position/Equity.antt =====
-- What a margin trade is worth to its owner.
use exchange_cpp.Base.{true, false, ◌≡◌, refl, inl, inr, Bool-cases, ap, ◌∙◌}
use exchange_cpp.Base.Int.{
  ℤ, pos, negsuc, ◌+ℤ◌, ◌-ℤ◌, ◌*ℤ◌, ltb_ℤ, ◌==ℤ◌, ◌≤ℤ◌, ◌<ℤ◌, *ℤ_one, *ℤ_minus_one, *ℤ_comm, +ℤ-*ℤ,
  -ℤ-*ℤ, *ℤ--ℤ, *ℤ-zero, int_laws, parts, leb_of_ltb_ℤ, ltb_ℤ_of_lt, ltb_of_le_ℤ, eq_of_parts,
}
use exchange_cpp.Common.{
  OrderAction, ask, bid, PositionDirection, long, short, empty, CoreSymbolSpecification,
}
use exchange_cpp.Risk.Position.{
  LastPriceCacheRecord, SymbolPositionRecord, pending_release, close_current_position_futures,
  open_position_margin, update_position_for_margin_trade, estimate_profit,
}
use exchange_cpp.Base.Int.{int64_max}
use exchange_cpp.Risk.Position.Trades.{HasVolumeOf, IsPosition, sign, equity}

*ℤ_zero_left : (a : ℤ) → pos 0 *ℤ a ≡ pos 0
*ℤ_zero_left a = *ℤ_comm (pos 0) a ∙ *ℤ-zero a

one_long : (a : ℤ) → a *ℤ pos 1 ≡ a
one_long = *ℤ_one

one_short : (a : ℤ) → a *ℤ negsuc 0 ≡ pos 0 -ℤ a
one_short = *ℤ_minus_one

-- At any price, a margin trade of a positive size, on a position whose volume fits its direction,
-- is worth size * (that price - price of the trade) to a buyer and as much less to a seller,
-- whether it opens, reduces, closes or turns the position.
pub equity-update_position_for_margin_trade :
    (action : OrderAction) (size price p : ℤ) (r : SymbolPositionRecord)
    → pos 0 <ℤ size
    → IsPosition r
    → equity p (update_position_for_margin_trade action size price r).1
      ≡ equity p r +ℤ sign action (size *ℤ (p -ℤ price))
unfolding update_position_for_margin_trade close_current_position_futures open_position_margin
    pending_release
equity-update_position_for_margin_trade action size price p r h v = go r.direction action v
  where
    opens : ltb_ℤ (pos 0) size ≡ true
    opens = ltb_ℤ_of_lt (pos 0) size h

    same : r.open_volume ≤ℤ size → (size -ℤ r.open_volume) ≤ℤ pos 0 → size ≡ r.open_volume
    same k l = eq_of_parts size r.open_volume (omega (int_laws, k, l))

    go :
        (d : PositionDirection) (a : OrderAction)
        → HasVolumeOf d r
        → equity p (update_position_for_margin_trade a size price (record r { direction = d })).1
          ≡ equity p (record r { direction = d }) +ℤ sign a (size *ℤ (p -ℤ price))
    go empty ask v = rw opens (
        omega (
          int_laws,
          parts (+ℤ-*ℤ r.open_volume size p),
          parts (*ℤ_comm price size),
          parts (*ℤ--ℤ size p price),
          parts v.1,
          parts (ap (λ t. t *ℤ p) v.0 ∙ *ℤ_zero_left p),
        ))
    go empty bid v = rw opens (
        omega (
          int_laws,
          parts (+ℤ-*ℤ r.open_volume size p),
          parts (*ℤ_comm price size),
          parts (*ℤ--ℤ size p price),
          parts v.1,
          parts (ap (λ t. t *ℤ p) v.0 ∙ *ℤ_zero_left p),
        ))
    go long bid v = rw opens (
        omega (
          int_laws,
          parts (+ℤ-*ℤ r.open_volume size p),
          parts (*ℤ_comm price size),
          parts (*ℤ--ℤ size p price),
        ))
    go short ask v = rw opens (
        omega (
          int_laws,
          parts (+ℤ-*ℤ r.open_volume size p),
          parts (*ℤ_comm price size),
          parts (*ℤ--ℤ size p price),
        ))
    go long ask v = elim (Bool-cases (ltb_ℤ size r.open_volume)) [
      | inl small ↦
          rw small
            (omega (int_laws, parts (-ℤ-*ℤ r.open_volume size p), parts (*ℤ--ℤ size p price)))
      | inr big ↦ rw big (elim (Bool-cases (ltb_ℤ (pos 0) (size -ℤ r.open_volume))) [
        | inl more ↦ rw more (
            omega (
              int_laws,
              parts (one_long (r.open_volume *ℤ price -ℤ r.open_price_sum)),
              parts (+ℤ-*ℤ (pos 0) (size -ℤ r.open_volume) p),
              parts (*ℤ_zero_left p),
              parts (-ℤ-*ℤ size r.open_volume p),
              parts (*ℤ_comm price (size -ℤ r.open_volume)),
              parts (-ℤ-*ℤ size r.open_volume price),
              parts (*ℤ--ℤ size p price),
            ))
        | inr exact ↦ rw exact (
            omega (
              int_laws,
              parts (one_long (r.open_volume *ℤ price -ℤ r.open_price_sum)),
              parts (*ℤ--ℤ size p price),
              parts (
                  ap (λ t. t *ℤ p)
                    (same (leb_of_ltb_ℤ size r.open_volume big)
                      (leb_of_ltb_ℤ (pos 0) (size -ℤ r.open_volume) exact))),
              parts (
                  ap (λ t. t *ℤ price)
                    (same (leb_of_ltb_ℤ size r.open_volume big)
                      (leb_of_ltb_ℤ (pos 0) (size -ℤ r.open_volume) exact))),
            ))
      ])
    ]
    go short bid v = elim (Bool-cases (ltb_ℤ size r.open_volume)) [
      | inl small ↦
          rw small
            (omega (int_laws, parts (-ℤ-*ℤ r.open_volume size p), parts (*ℤ--ℤ size p price)))
      | inr big ↦ rw big (elim (Bool-cases (ltb_ℤ (pos 0) (size -ℤ r.open_volume))) [
        | inl more ↦ rw more (
            omega (
              int_laws,
              parts (one_short (r.open_volume *ℤ price -ℤ r.open_price_sum)),
              parts (+ℤ-*ℤ (pos 0) (size -ℤ r.open_volume) p),
              parts (*ℤ_zero_left p),
              parts (-ℤ-*ℤ size r.open_volume p),
              parts (*ℤ_comm price (size -ℤ r.open_volume)),
              parts (-ℤ-*ℤ size r.open_volume price),
              parts (*ℤ--ℤ size p price),
            ))
        | inr exact ↦ rw exact (
            omega (
              int_laws,
              parts (one_short (r.open_volume *ℤ price -ℤ r.open_price_sum)),
              parts (*ℤ--ℤ size p price),
              parts (
                  ap (λ t. t *ℤ p)
                    (same (leb_of_ltb_ℤ size r.open_volume big)
                      (leb_of_ltb_ℤ (pos 0) (size -ℤ r.open_volume) exact))),
              parts (
                  ap (λ t. t *ℤ price)
                    (same (leb_of_ltb_ℤ size r.open_volume big)
                      (leb_of_ltb_ℤ (pos 0) (size -ℤ r.open_volume) exact))),
            ))
      ])
    ]

-- The position after a trade of its whole volume at the best price of the other side: a long one is
-- sold at the best bid, a short one bought back at the best ask.
abbrev pub closed_at_market : LastPriceCacheRecord → SymbolPositionRecord → SymbolPositionRecord
closed_at_market last r = elim r.direction [
  | long ↦ (update_position_for_margin_trade ask r.open_volume last.bid_price r).1
  | short ↦ (update_position_for_margin_trade bid r.open_volume last.ask_price r).1
  | empty ↦ r
]

-- With a best bid other than 0 and a best ask other than INT64_MAX, the estimated profit of a
-- position whose volume fits its direction is the profit that a margin trade of its whole volume
-- against the other side realises, and that trade leaves no direction: a long position is sold at
-- the best bid, a short one bought back at the best ask.
pub estimate_profit-closed_at_market :
    (spec : CoreSymbolSpecification) (last : LastPriceCacheRecord) (r : SymbolPositionRecord)
    → IsPosition r
    → (last.bid_price ==ℤ pos 0) ≡ false
    → (last.ask_price ==ℤ int64_max) ≡ false
    → let closed = closed_at_market last r in
      (closed.direction ≡ empty) × (closed.profit ≡ estimate_profit spec last r)
unfolding estimate_profit update_position_for_margin_trade close_current_position_futures
    open_position_margin pending_release
estimate_profit-closed_at_market spec last r v h k = go r.direction v
  where
    nothing_left : ltb_ℤ (pos 0) (r.open_volume -ℤ r.open_volume) ≡ false
    nothing_left = ltb_of_le_ℤ (pos 0) (r.open_volume -ℤ r.open_volume) (omega int_laws)

    whole : ltb_ℤ r.open_volume r.open_volume ≡ false
    whole = ltb_of_le_ℤ r.open_volume r.open_volume (omega int_laws)

    go :
        (d : PositionDirection)
        → HasVolumeOf d r
        → let closed = closed_at_market last (record r { direction = d }) in
          (closed.direction ≡ empty)
          × (closed.profit ≡ estimate_profit spec last (record r { direction = d }))
    go empty v = (refl, refl)
    go long v =
        rw (whole, nothing_left, h)
          (
            refl,
            ap (λ x. r.profit +ℤ x)
                (one_long (r.open_volume *ℤ last.bid_price -ℤ r.open_price_sum)),
          )
    go short v =
        rw (whole, nothing_left, k)
          (
            refl,
            omega
                (int_laws, parts (one_short (r.open_volume *ℤ last.ask_price -ℤ r.open_price_sum))),
          )
