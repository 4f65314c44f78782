-- ===== src/Risk/Position/Trades.antt =====
-- What a margin trade does to a position.
use exchange_cpp.Base.{true, ◌≡◌, refl, inl, inr, Bool-cases}
use exchange_cpp.Base.Int.{
  ℤ, pos, ◌+ℤ◌, ◌-ℤ◌, ◌*ℤ◌, ltb_ℤ, ◌<ℤ◌, int_laws, parts, ltb_ℤ→lt, ltb_ℤ_of_lt, leb_of_ltb_ℤ,
}
use exchange_cpp.Common.{OrderAction, ask, bid, PositionDirection, long, short, empty}
use exchange_cpp.Risk.Position.{
  SymbolPositionRecord, pending_release, close_current_position_futures, open_position_margin,
  update_position_for_margin_trade,
}

-- A position without a direction is empty, and one with a direction has a volume.
abbrev pub HasVolumeOf : PositionDirection → SymbolPositionRecord → Type 0
HasVolumeOf empty r = (r.open_volume ≡ pos 0) × (r.open_price_sum ≡ pos 0)
HasVolumeOf long r = pos 0 <ℤ r.open_volume
HasVolumeOf short r = pos 0 <ℤ r.open_volume

abbrev pub IsPosition : SymbolPositionRecord → Type 0
IsPosition r = HasVolumeOf r.direction r

-- The side of a trade as a sign.
abbrev pub sign : OrderAction → ℤ → ℤ
sign bid x = x
sign ask x = pos 0 -ℤ x

-- The volume with the sign of its direction.
abbrev pub signed_volume : SymbolPositionRecord → ℤ
signed_volume r = elim r.direction [
  | long ↦ r.open_volume
  | short ↦ pos 0 -ℤ r.open_volume
  | empty ↦ pos 0
]

-- Profit and open position together, at a price of the symbol.
abbrev pub equity : ℤ → SymbolPositionRecord → ℤ
equity p r = elim r.direction [
  | long ↦ r.profit +ℤ (r.open_volume *ℤ p -ℤ r.open_price_sum)
  | short ↦ r.profit +ℤ (r.open_price_sum -ℤ r.open_volume *ℤ p)
  | empty ↦ r.profit
]

-- A margin trade of a positive size leaves a direction with a positive volume, or no direction and
-- no volume.
pub update_position_for_margin_trade-IsPosition :
    (action : OrderAction) (size price : ℤ) (r : SymbolPositionRecord)
    → pos 0 <ℤ size
    → IsPosition r
    → IsPosition (update_position_for_margin_trade action size price r).1
unfolding update_position_for_margin_trade close_current_position_futures open_position_margin
    pending_release
update_position_for_margin_trade-IsPosition action size price r h v = go r.direction action v
  where
    opens : ltb_ℤ (pos 0) size ≡ true
    opens = ltb_ℤ_of_lt (pos 0) size h

    go :
        (d : PositionDirection) (a : OrderAction)
        → HasVolumeOf d r
        → IsPosition (update_position_for_margin_trade a size price (record r { direction = d })).1
    go empty ask v = rw opens (omega (int_laws, h, parts v.0))
    go empty bid v = rw opens (omega (int_laws, h, parts v.0))
    go long bid v = rw opens (omega (int_laws, h, v))
    go short ask v = rw opens (omega (int_laws, h, v))
    go long ask v = elim (Bool-cases (ltb_ℤ size r.open_volume)) [
      | inl small ↦ rw small (omega (int_laws, ltb_ℤ→lt size r.open_volume small))
      | inr big ↦ rw big (elim (Bool-cases (ltb_ℤ (pos 0) (size -ℤ r.open_volume))) [
        | inl more ↦ rw more (omega (int_laws, ltb_ℤ→lt (pos 0) (size -ℤ r.open_volume) more))
        | inr exact ↦ rw exact (refl, refl)
      ])
    ]
    go short bid v = elim (Bool-cases (ltb_ℤ size r.open_volume)) [
      | inl small ↦ rw small (omega (int_laws, ltb_ℤ→lt size r.open_volume small))
      | inr big ↦ rw big (elim (Bool-cases (ltb_ℤ (pos 0) (size -ℤ r.open_volume))) [
        | inl more ↦ rw more (omega (int_laws, ltb_ℤ→lt (pos 0) (size -ℤ r.open_volume) more))
        | inr exact ↦ rw exact (refl, refl)
      ])
    ]

-- A margin trade of a positive size moves the signed volume of a position by its own.
pub update_position_for_margin_trade_volume :
    (action : OrderAction) (size price : ℤ) (r : SymbolPositionRecord)
    → pos 0 <ℤ size
    → IsPosition r
    → signed_volume (update_position_for_margin_trade action size price r).1
      ≡ signed_volume r +ℤ sign action size
unfolding update_position_for_margin_trade close_current_position_futures open_position_margin
    pending_release
update_position_for_margin_trade_volume action size price r h v = go r.direction action v
  where
    opens : ltb_ℤ (pos 0) size ≡ true
    opens = ltb_ℤ_of_lt (pos 0) size h

    go :
        (d : PositionDirection) (a : OrderAction)
        → HasVolumeOf d r
        → signed_volume
            (update_position_for_margin_trade a size price (record r { direction = d })).1
          ≡ signed_volume (record r { direction = d }) +ℤ sign a size
    go empty ask v = rw opens (omega (int_laws, h, parts v.0))
    go empty bid v = rw opens (omega (int_laws, h, parts v.0))
    go long bid v = rw opens (omega (int_laws, h, v))
    go short ask v = rw opens (omega (int_laws, h, v))
    go long ask v = elim (Bool-cases (ltb_ℤ size r.open_volume)) [
      | inl small ↦ rw small (omega (int_laws, ltb_ℤ→lt size r.open_volume small))
      | inr big ↦ rw big (elim (Bool-cases (ltb_ℤ (pos 0) (size -ℤ r.open_volume))) [
        | inl more ↦ rw more (omega (int_laws, ltb_ℤ→lt (pos 0) (size -ℤ r.open_volume) more))
        | inr exact ↦ rw exact (
            omega (
              int_laws,
              leb_of_ltb_ℤ size r.open_volume big,
              leb_of_ltb_ℤ (pos 0) (size -ℤ r.open_volume) exact,
            ))
      ])
    ]
    go short bid v = elim (Bool-cases (ltb_ℤ size r.open_volume)) [
      | inl small ↦ rw small (omega (int_laws, ltb_ℤ→lt size r.open_volume small))
      | inr big ↦ rw big (elim (Bool-cases (ltb_ℤ (pos 0) (size -ℤ r.open_volume))) [
        | inl more ↦ rw more (omega (int_laws, ltb_ℤ→lt (pos 0) (size -ℤ r.open_volume) more))
        | inr exact ↦ rw exact (
            omega (
              int_laws,
              leb_of_ltb_ℤ size r.open_volume big,
              leb_of_ltb_ℤ (pos 0) (size -ℤ r.open_volume) exact,
            ))
      ])
    ]
