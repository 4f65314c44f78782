-- ===== src/OrderBook/PriceMap.antt =====
-- What the direct order book uses of LongAdaptiveRadixTreeMap.h: a map from prices to the pointers of
-- its buckets.
use exchange_cpp.Base.{ℕ, Option, none, some, List, ◌≡◌, if◌then◌else◌}
use exchange_cpp.Base.Int.{ℤ, ◌==ℤ◌}

pub record PriceMap (T : Type 0) : Type 0 where
  pub empty_map : T
  pub get : ℤ → T → Option ℕ
  pub put : ℤ → ℕ → T → T
  pub remove : ℤ → T → T
  pub get_lower_value : ℤ → T → Option ℕ
  pub get_higher_value : ℤ → T → Option ℕ
  -- the values of at most so many keys, from the lowest key, from the highest key
  pub for_each : ℕ → T → List ℕ
  pub for_each_desc : ℕ → T → List ℕ
  pub get-empty_map : (p : ℤ) → get p empty_map ≡ none
  pub get-put :
      (p q : ℤ) (b : ℕ) (t : T) → get p (put q b t) ≡ (if p ==ℤ q then some b else get p t)
  pub get-remove : (p q : ℤ) (t : T) → get p (remove q t) ≡ (if p ==ℤ q then none else get p t)
