-- ===== src/Risk/Arithmetic.antt =====
-- src/exchange/core/utils/CoreArithmeticUtils.cpp
use exchange_cpp.Base.Int.{ℤ, ◌+ℤ◌, ◌-ℤ◌, ◌*ℤ◌}
use exchange_cpp.Common.{CoreSymbolSpecification}

unfoldable pub calculate_amount_ask : ℤ → CoreSymbolSpecification → ℤ
calculate_amount_ask size spec = size *ℤ spec.base_scale_k

unfoldable pub calculate_amount_bid : ℤ → ℤ → CoreSymbolSpecification → ℤ
calculate_amount_bid size price spec = size *ℤ (price *ℤ spec.quote_scale_k)

unfoldable pub calculate_amount_bid_taker_fee : ℤ → ℤ → CoreSymbolSpecification → ℤ
calculate_amount_bid_taker_fee size price spec =
    size *ℤ (price *ℤ spec.quote_scale_k +ℤ spec.taker_fee)

unfoldable pub calculate_amount_bid_release_corr_maker : ℤ → ℤ → CoreSymbolSpecification → ℤ
calculate_amount_bid_release_corr_maker size price_diff spec =
    size *ℤ (price_diff *ℤ spec.quote_scale_k +ℤ (spec.taker_fee -ℤ spec.maker_fee))

unfoldable pub calculate_amount_bid_taker_fee_for_budget : ℤ → ℤ → CoreSymbolSpecification → ℤ
calculate_amount_bid_taker_fee_for_budget size budget_in_steps spec =
    budget_in_steps *ℤ spec.quote_scale_k +ℤ size *ℤ spec.taker_fee
