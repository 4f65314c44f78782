-- ===== src/Tests/Direct.antt =====
-- A direct book of three asks and a bid, over a list of prices, beside the naive book of the same
-- orders.
use exchange_cpp.Base.{
  ℕ, Option, none, some, List, [], ◌∷◌, ◌≡◌, refl, arith, if◌then◌else◌, take, ◌++◌,
}
use exchange_cpp.Base.Dict.{lookup}
use exchange_cpp.Base.Int.{ℤ, pos, ◌==ℤ◌, ltb_ℤ, ◌+ℤ◌, ◌-ℤ◌}
use exchange_cpp.Common.{Order, OrderAction, ask, bid, OrderType, OrderCommand}
use exchange_cpp.OrderBook.Bucket.{find_by_id, calculated_volume}
use exchange_cpp.OrderBook.Levels.{should_continue, check_budget, orders_num}
use exchange_cpp.OrderBook.Levels.Map.{IsBucketValid}
use exchange_cpp.OrderBook.Book.{OrderBook, buckets_by_action, try_match_instantly}
use exchange_cpp.OrderBook.NewOrder.{new_order_match_ioc}
use exchange_cpp.OrderBook.PriceMap.{PriceMap}
use exchange_cpp.OrderBook.Direct.{DirectOrder, Side, DirectBook, write, side_of, insert_order}
use exchange_cpp.OrderBook.Direct.Chain.{Cell, Level, naive_buckets}
use exchange_cpp.OrderBook.Direct.Represents.{IsSound, level_at}
use exchange_cpp.OrderBook.Direct.Matching.{limit_price, try_match_direct}
use exchange_cpp.OrderBook.Direct.Queries.{check_budget_to_fill}
use exchange_cpp.OrderBook.Direct.Commands.{direct_ioc, order_of}
use exchange_cpp.OrderBook.Direct.Mirrors.{Mirrors, MirrorsSide}
use exchange_cpp.OrderBook.Direct.Swept.{Swept, resume, sweep_at}
use exchange_cpp.OrderBook.Direct.Loop.{resume-match_range}
use exchange_cpp.OrderBook.Direct.Chain.{Represents}
use exchange_cpp.OrderBook.Levels.{match_range}
use exchange_cpp.OrderBook.Direct.RemoveOrder.{Removes, remove_order-Removes}
use exchange_cpp.OrderBook.Direct.InsertOrder.{Inserts, insert_order-Inserts}
use exchange_cpp.OrderBook.Direct.Agreement.{try_match_direct-try_match_instantly}
use exchange_cpp.OrderBook.Direct.Takers.{
  budget_or_max, check_budget_to_fill-check_budget, direct_ioc-new_order_match_ioc,
}
use exchange_cpp.Tests.{order, spec, placed}

abbrev PriceList : Type 0
PriceList = List (ℤ × ℕ)

abbrev list_get : ℤ → PriceList → Option ℕ
list_get p [] = none
list_get p ((q, b) ∷ t) = if p ==ℤ q then some b else list_get p t

-- The list ascends.
abbrev list_put : ℤ → ℕ → PriceList → PriceList
list_put p b [] = (p, b) ∷ []
list_put p b ((q, c) ∷ t) =
    if p ==ℤ q
    then (p, b) ∷ t
    else if ltb_ℤ p q
    then (p, b) ∷ (q, c) ∷ t
    else (q, c) ∷ list_put p b t

abbrev list_remove : ℤ → PriceList → PriceList
list_remove p [] = []
list_remove p ((q, c) ∷ t) = if p ==ℤ q then list_remove p t else (q, c) ∷ list_remove p t

abbrev last_below : ℤ → Option ℕ → PriceList → Option ℕ
last_below p found [] = found
last_below p found ((q, c) ∷ t) =
    if ltb_ℤ q p then last_below p (some c) t else last_below p found t

abbrev first_above : ℤ → PriceList → Option ℕ
first_above p [] = none
first_above p ((q, c) ∷ t) = if ltb_ℤ p q then some c else first_above p t

abbrev values : PriceList → List ℕ
values [] = []
values ((q, c) ∷ t) = c ∷ values t

abbrev backwards : PriceList → List ℕ
backwards [] = []
backwards ((q, c) ∷ t) = backwards t ++ c ∷ []

list_get-list_put :
    (p q : ℤ) (b : ℕ) (t : PriceList)
    → list_get p (list_put q b t) ≡ (if p ==ℤ q then some b else list_get p t)
list_get-list_put p q b [] = refl
list_get-list_put p q b ((r, c) ∷ t) = ground (arith, list_get-list_put p q b t)

list_get-list_remove :
    (p q : ℤ) (t : PriceList)
    → list_get p (list_remove q t) ≡ (if p ==ℤ q then none else list_get p t)
list_get-list_remove p q [] = ground arith
list_get-list_remove p q ((r, c) ∷ t) = ground (arith, list_get-list_remove p q t)

abbrev price_list : PriceMap PriceList
price_list = record {
  empty_map = [];
  get = list_get;
  put = list_put;
  remove = list_remove;
  get_lower_value = λ p t. last_below p none t;
  get_higher_value = first_above;
  for_each = λ n t. take n (values t);
  for_each_desc = λ n t. take n (backwards t);
  get-empty_map = λ p. refl;
  get-put = list_get-list_put;
  get-remove = list_get-list_remove;
}

abbrev cell : ℕ → Order → Cell
cell p o = record { pointer = p; order = o }

abbrev asks : List Level
asks =
    level_at 1 (pos 100) (cell 1 (order 1 10 ask 100 5)) (cell 2 (order 2 11 ask 100 5) ∷ [])
    ∷ level_at 2 (pos 101) (cell 3 (order 4 12 ask 101 3)) []
    ∷ []

abbrev bids : List Level
bids = level_at 1 (pos 98) (cell 1 (order 3 12 bid 98 4)) [] ∷ []

abbrev object : Order → Option ℕ → Option ℕ → ℕ → Option DirectOrder
object o next prev bucket = some (record { order = o; next = next; prev = prev; bucket = bucket })

abbrev ask_side : Side PriceList
ask_side = record {
  price_buckets = (pos 100, 1) ∷ (pos 101, 2) ∷ [];
  best_order = some 1;
  orders = write 1 (object (order 1 10 ask 100 5) none (some 2) 1) (
      write 2 (object (order 2 11 ask 100 5) (some 1) (some 3) 1)
        (write 3 (object (order 4 12 ask 101 3) (some 2) none 2) (λ p. none)));
  buckets =
      write 1
        (some
          (record { price = pos 100; last_order = 2; total_volume = pos 10; num_orders = pos 2 }))
        (write 2
          (some
            (record { price = pos 101; last_order = 3; total_volume = pos 3; num_orders = pos 1 }))
          (λ p. none));
}

abbrev bid_side : Side PriceList
bid_side = record {
  price_buckets = (pos 98, 1) ∷ [];
  best_order = some 1;
  orders = write 1 (object (order 3 12 bid 98 4) none none 1) (λ p. none);
  buckets =
      write 1
        (some (record { price = pos 98; last_order = 1; total_volume = pos 4; num_orders = pos 1 }))
        (λ p. none);
}

abbrev direct_book : DirectBook PriceList
direct_book = record {
  symbol_spec = spec;
  asks = ask_side;
  bids = bid_side;
  order_id_index = (1, (ask, 1)) ∷ (2, (ask, 2)) ∷ (3, (bid, 1)) ∷ (4, (ask, 3)) ∷ [];
}

abbrev naive_book : OrderBook
naive_book = record {
  symbol_spec = spec;
  ask_buckets = naive_buckets asks;
  bid_buckets = naive_buckets bids;
  id_map =
      (1, (ask, pos 100)) ∷ (2, (ask, pos 100)) ∷ (3, (bid, pos 98)) ∷ (4, (ask, pos 101)) ∷ [];
}

asks-IsSound : IsSound ask asks
unfolding find_by_id calculated_volume ◌+ℤ◌ ◌-ℤ◌
asks-IsSound = record {
  orders = ((refl, (refl, tt)), ((refl, tt), (tt, tt)));
  buckets = ((refl, tt), (tt, tt));
  valid = ((level_100, (level_101, tt)), ((refl, tt), (tt, tt)));
}
  where
    level_100 : IsBucketValid ask (record {
      price = pos 100;
      total_volume = calculated_volume (order 1 10 ask 100 5 ∷ order 2 11 ask 100 5 ∷ []);
      orders = order 1 10 ask 100 5 ∷ order 2 11 ask 100 5 ∷ [];
    })
    level_100 = record {
      total = refl;
      placed =
          ((omega arith, omega arith, refl, refl), ((omega arith, omega arith, refl, refl), tt));
      distinct = (refl, (refl, tt));
      nonempty = omega arith;
    }

    level_101 : IsBucketValid ask (record {
      price = pos 101;
      total_volume = calculated_volume (order 4 12 ask 101 3 ∷ []);
      orders = order 4 12 ask 101 3 ∷ [];
    })
    level_101 = record {
      total = refl;
      placed = ((omega arith, omega arith, refl, refl), tt);
      distinct = (refl, tt);
      nonempty = omega arith;
    }

bids-IsSound : IsSound bid bids
unfolding find_by_id calculated_volume ◌+ℤ◌ ◌-ℤ◌
bids-IsSound = record {
  orders = (tt, tt);
  buckets = (tt, tt);
  valid = (
    (
      record {
        total = refl;
        placed = ((omega arith, omega arith, refl, refl), tt);
        distinct = (refl, tt);
        nonempty = omega arith;
      },
      tt,
    ),
    (tt, tt),
  );
}

asks-chain : Represents price_list none ask_side asks
unfolding calculated_volume ◌+ℤ◌ ◌-ℤ◌
asks-chain = ((refl, refl), refl, refl, (refl, refl, refl, tt))

direct_book-Mirrors : Mirrors price_list direct_book naive_book
unfolding calculated_volume ◌+ℤ◌ ◌-ℤ◌ lookup
direct_book-Mirrors = record { sides = sides; ids = λ k. ground arith; same_spec = refl }
  where
    sides :
        (a : OrderAction)
        → MirrorsSide price_list a (side_of a direct_book) (buckets_by_action a naive_book)
    sides ask = record {
      levels = asks;
      best = refl;
      chain = asks-chain;
      sound = asks-IsSound;
      buckets = refl;
    }
    sides bid = record {
      levels = bids;
      best = refl;
      chain = (refl, refl, refl, tt);
      sound = bids-IsSound;
      buckets = refl;
    }

-- A bid of 7 at 100, which takes all of the first ask and a part of the second.
abbrev ioc : OrderCommand
ioc = placed 9 13 bid OrderType.ioc 100 7

try_match_direct-try_match_instantly_example :
    (let n =
        try_match_instantly bid
          (should_continue bid (limit_price ioc (order_of ioc (pos 0))))
          (pos 7)
          (pos 100)
          (pos 0)
          naive_book
          ioc in
      (book' : DirectBook PriceList) × (try_match_direct price_list 3
          (order_of ioc (pos 0))
          direct_book
          ioc
        ≡ some (n.0, book', n.2))
      × Mirrors price_list book' n.1)
try_match_direct-try_match_instantly_example =
    try_match_direct-try_match_instantly price_list 3 (order_of ioc (pos 0)) direct_book naive_book
      ioc direct_book-Mirrors (omega arith) (unfold orders_num in omega arith)

direct_ioc-new_order_match_ioc_example :
    (book' : DirectBook PriceList) × (direct_ioc price_list 3 direct_book ioc
      ≡ some (book', (new_order_match_ioc naive_book ioc).1))
    × Mirrors price_list book' (new_order_match_ioc naive_book ioc).0
direct_ioc-new_order_match_ioc_example =
    direct_ioc-new_order_match_ioc price_list 3 direct_book naive_book ioc direct_book-Mirrors refl
      (omega arith) (unfold orders_num in omega arith)

check_budget_to_fill-check_budget_example :
    check_budget_to_fill 2 bid (pos 12) direct_book
    ≡ some (budget_or_max (check_budget (pos 12) (pos 0) (naive_buckets asks)))
check_budget_to_fill-check_budget_example =
    check_budget_to_fill-check_budget price_list 2 bid (pos 12) direct_book naive_book
      direct_book-Mirrors (omega arith)

resume-match_range_example :
    Swept price_list
      (resume price_list 3 bid
        (pos 100)
        (pos 100)
        (sweep_at price_list ask_side [] [] (pos 7 -ℤ pos 0) 0 asks))
      (pos 7)
      (match_range (should_continue bid (pos 100)) (pos 7) (pos 100) (pos 0) (naive_buckets asks))
      []
      []
resume-match_range_example =
    resume-match_range price_list bid (pos 100) (pos 7) (pos 100) 3 ask_side [] [] (pos 0) 0 none
      asks asks-chain asks-IsSound (omega arith)

-- The only order of the second price goes, and its bucket with it.
remove_order-Removes_example :
    Removes price_list ask ask_side 3 2 (pos 101) [] (
      level_at 1 (pos 100) (cell 1 (order 1 10 ask 100 5)) (cell 2 (order 2 11 ask 100 5) ∷ [])
      ∷ [])
remove_order-Removes_example =
    remove_order-Removes price_list ask ask_side
      (level_at 1 (pos 100) (cell 1 (order 1 10 ask 100 5)) (cell 2 (order 2 11 ask 100 5) ∷ [])
        ∷ [])
      2 (pos 101) [] (cell 3 (order 4 12 ask 101 3)) [] [] refl asks-chain asks-IsSound

-- A third order goes to the best price.
insert_order-Inserts_example :
    Inserts price_list ask (insert_order price_list 9 (order 9 14 ask 100 6) none 7 ask_side) (
      level_at 1
        (pos 100)
        (cell 1 (order 1 10 ask 100 5))
        (cell 2 (order 2 11 ask 100 5) ∷ cell 9 (order 9 14 ask 100 6) ∷ [])
      ∷ level_at 2 (pos 101) (cell 3 (order 4 12 ask 101 3)) []
      ∷ [])
insert_order-Inserts_example =
    insert_order-Inserts price_list ask ask_side [] 1 (pos 100) (cell 1 (order 1 10 ask 100 5))
      (cell 2 (order 2 11 ask 100 5) ∷ [])
      (level_at 2 (pos 101) (cell 3 (order 4 12 ask 101 3)) [] ∷ []) 9 (order 9 14 ask 100 6) none 7
      refl asks-chain asks-IsSound (refl, (refl, (refl, tt))) tt refl
