-- ===== src/OrderBook/Direct/Swept.antt =====
-- OrderBookDirectImpl.cpp: the loop of `tryMatchInstantly` beside the loops of OrderBookNaiveImpl.cpp.
use exchange_cpp.Base.{
  append_assoc, append_nil, ℕ, Bool, true, false, Option, some, List, [], ◌∷◌, ◌++◌, ◌≡◌, refl, sym,
  ◌∙◌,
}
use exchange_cpp.Base.Dict.{Dict, erase}
use exchange_cpp.Base.Int.{ℤ, ◌-ℤ◌, int_laws}
use exchange_cpp.Common.{MatcherTradeEvent, OrderAction, opposite}
use exchange_cpp.OrderBook.Bucket.{OrdersBucket, calculated_volume}
use exchange_cpp.OrderBook.Bucket.Volume.{calculated_volume_nonneg}
use exchange_cpp.OrderBook.Levels.{RangeResult, match_range}
use exchange_cpp.OrderBook.Levels.Map.{IsPlaced-IsLive}
use exchange_cpp.OrderBook.Book.{erase_all}
use exchange_cpp.OrderBook.PriceMap.{PriceMap}
use exchange_cpp.OrderBook.Direct.{◌>>=◌, Side}
use exchange_cpp.OrderBook.Direct.Chain.{
  Cell, Level, head_pointer, orders_of, pointers_in, pointers, bucket_pointers, naive_buckets,
  AreDistinct, AreDistinct-right, Represents,
}
use exchange_cpp.OrderBook.Direct.Represents.{IsSound, level_at}
use exchange_cpp.OrderBook.Direct.OneOrder.{prepend}
use exchange_cpp.OrderBook.Direct.Matching.{Sweep, repeats, sweep}
use exchange_cpp.OrderBook.Direct.Sweeping.{next_tail}

-- A level without its first order is sound.
pub IsSound-next :
    (side : OrderAction) (b : ℕ) (price : ℤ) (c d : Cell) (ds : List Cell) (ls : List Level)
    → IsSound side (level_at b price c (d ∷ ds) ∷ ls)
    → IsSound side (level_at b price d ds ∷ ls)
unfolding calculated_volume
IsSound-next side b price c d ds ls s =
    let v = s.valid.0.0 in
    let live = IsPlaced-IsLive side price (d.order ∷ orders_of ds) v.placed.1 in
    record {
      orders = s.orders.1;
      buckets = s.buckets;
      valid = (
        (
          record {
            total = refl;
            placed = v.placed.1;
            distinct = v.distinct.1;
            nonempty = omega (int_laws, calculated_volume_nonneg (orders_of ds) live.1);
          },
          s.valid.0.1,
        ),
        s.valid.1,
      );
    }

pub IsSound-tail :
    (side : OrderAction) (l : Level) (ls : List Level) → IsSound side (l ∷ ls) → IsSound side ls
IsSound-tail side l ls s = record {
  orders = AreDistinct-right (pointers_in l.others) (pointers ls) s.orders.1;
  buckets = s.buckets.1;
  valid = (s.valid.0.1, s.valid.1.1);
}

-- A price that does not suit the limit ends the range.
pub match_range_stop :
    (continues : ℤ → Bool) (size r filled : ℤ) (b : OrdersBucket) (bs : List OrdersBucket)
    → continues b.price ≡ false
    → match_range continues size r filled (b ∷ bs)
      ≡ record { filled = filled; events = []; removed_ids = []; buckets = b ∷ bs }
unfolding match_range
match_range_stop continues size r filled b bs h = rw h refl

module _ {T : Type 0} (prices : PriceMap T) where
  -- A run of the loop that ends, and ends in the state that the result `r` of the naive loops
  -- describes.
  pub record Swept (out : Option (Sweep T)) (size : ℤ) (r : RangeResult)
      (events : List MatcherTradeEvent) (index : Dict (OrderAction × ℕ)) : Type 0 where
    pub final : Sweep T
    pub next : Option ℕ
    pub rest : List Level
    pub returns : out ≡ some final
    pub maker : final.maker_order ≡ head_pointer rest
    pub represented : Represents prices next final.side rest
    pub orders : AreDistinct (pointers rest)
    pub buckets : AreDistinct (bucket_pointers rest)
    pub levels : naive_buckets rest ≡ r.buckets
    pub trades : final.events ≡ events ++ r.events
    pub remaining : final.remaining_size ≡ size -ℤ r.filled
    pub erased : final.index ≡ erase_all r.removed_ids index

  pub Swept-prepend :
      (out : Option (Sweep T)) (size : ℤ) (e : MatcherTradeEvent) (k : ℕ) (r : RangeResult)
      (events : List MatcherTradeEvent) (index : Dict (OrderAction × ℕ))
      → Swept out size r (events ++ e ∷ []) (erase k index)
      → Swept out size (prepend e k r) events index
  unfolding erase_all
  Swept-prepend out size e k r events index s = record {
    final = s.final;
    next = s.next;
    rest = s.rest;
    returns = s.returns;
    maker = s.maker;
    represented = s.represented;
    orders = s.orders;
    buckets = s.buckets;
    levels = s.levels;
    trades = s.trades ∙ append_assoc events (e ∷ []) r.events;
    remaining = s.remaining;
    erased = s.erased;
  }

  -- The loop at its condition.
  abbrev pub resume : ℕ → OrderAction → ℤ → ℤ → Sweep T → Option (Sweep T)
  resume fuel action limit r w = repeats prices action limit (true, w) >>= λ more. elim more [
    | true ↦ w.maker_order >>= λ q. sweep prices fuel action limit r q w
    | false ↦ some w
  ]

  -- The variables where these levels are left.
  abbrev pub sweep_at :
      Side T → Dict (OrderAction × ℕ) → List MatcherTradeEvent → ℤ → ℕ → List Level → Sweep T
  sweep_at s index events left tail ls = record {
    side = s;
    index = index;
    events = events;
    remaining_size = left;
    maker_order = head_pointer ls;
    price_bucket_tail = next_tail tail ls;
  }

  -- The loop stops at once.
  pub Swept-idle :
      (action : OrderAction) (s : Side T) (index : Dict (OrderAction × ℕ))
      (events : List MatcherTradeEvent) (size filled : ℤ) (tail : ℕ) (next : Option ℕ)
      (ls : List Level)
      → Represents prices next s ls
      → IsSound (opposite action) ls
      → Swept
          (some (sweep_at s index events (size -ℤ filled) tail ls))
          size
          (record { filled = filled; events = []; removed_ids = []; buckets = naive_buckets ls })
          events
          index
  unfolding erase_all
  Swept-idle action s index events size filled tail next ls rep d = record {
    final = sweep_at s index events (size -ℤ filled) tail ls;
    next = next;
    rest = ls;
    returns = refl;
    maker = refl;
    represented = rep;
    orders = d.orders;
    buckets = d.buckets;
    levels = refl;
    trades = sym (append_nil events);
    remaining = refl;
    erased = refl;
  }
