-- ===== src/OrderBook/Process/WellFormed.antt =====
-- ProcessCommand of IOrderBook.cpp on a well-formed book, and the books that commands lead to.
use exchange_cpp.Base.{ℕ, ◌≡◌, refl, inl, inr, Bool-cases, subst}
use exchange_cpp.Base.Dict.{lookup}
use exchange_cpp.OrderBook.Levels.{find_bucket}
use exchange_cpp.OrderBook.Levels.Map.{AreValid, holds}
use exchange_cpp.Base.Int.{ℤ, pos, ◌<ℤ◌}
use exchange_cpp.Common.{
  CoreSymbolSpecification, OrderAction, ask, bid, OrderCommand, OrderCommandType, CommandResultCode,
}
use exchange_cpp.OrderBook.Book.{new_order_book, buckets_by_action, OrderBook, ok}
use exchange_cpp.OrderBook.Book.Wf.{IsWellFormed, points}
use exchange_cpp.OrderBook.NewOrder.WellFormed.{new_order-IsWellFormed}
use exchange_cpp.OrderBook.Change.WellFormed.{
  KeepsWellFormed, cancel_order-KeepsWellFormed, reduce_order-KeepsWellFormed,
}
use exchange_cpp.OrderBook.Change.Move.{move_order-KeepsWellFormed}
use exchange_cpp.OrderBook.Process.{process_command, process_command_of_type, is_valid_for_matching}

process_command_of_type-KeepsWellFormed :
    (t : OrderCommandType) (book : OrderBook) (cmd : OrderCommand)
    → IsWellFormed book
    → (t ≡ OrderCommandType.place_order → pos 0 <ℤ cmd.size)
    → KeepsWellFormed (process_command_of_type t book cmd)
unfolding process_command_of_type
process_command_of_type-KeepsWellFormed OrderCommandType.move_order book cmd w p =
    move_order-KeepsWellFormed book cmd w
process_command_of_type-KeepsWellFormed OrderCommandType.cancel_order book cmd w p =
    cancel_order-KeepsWellFormed book cmd w
process_command_of_type-KeepsWellFormed OrderCommandType.reduce_order book cmd w p =
    reduce_order-KeepsWellFormed book cmd w
process_command_of_type-KeepsWellFormed OrderCommandType.place_order book cmd w p =
    elim (Bool-cases (is_valid_for_matching cmd.result_code)) [
      | inl valid ↦ rw valid (new_order-IsWellFormed book cmd w (p refl))
      | inr other ↦ rw other w
    ]
process_command_of_type-KeepsWellFormed OrderCommandType.order_book_request book cmd w p = w
process_command_of_type-KeepsWellFormed _ book cmd w p = w

-- A command of any type, with a positive size if it places an order, ends on a well-formed book
-- with a reply, never with the exception for a missing bucket or an order that no longer exists,
-- and leaves a well-formed book.
pub process_command-KeepsWellFormed :
    (book : OrderBook) (cmd : OrderCommand)
    → IsWellFormed book
    → (cmd.command ≡ OrderCommandType.place_order → pos 0 <ℤ cmd.size)
    → KeepsWellFormed (process_command book cmd)
unfolding process_command
process_command-KeepsWellFormed book cmd w p =
    process_command_of_type-KeepsWellFormed cmd.command book cmd w p

-- An empty book is well-formed.
new_order_book-IsWellFormed : (spec : CoreSymbolSpecification) → IsWellFormed (new_order_book spec)
unfolding new_order_book lookup find_bucket
new_order_book-IsWellFormed spec = record {
  sides = λ s. no_buckets s;
  index = λ k s p. no_orders k p s;
  uncrossed = tt;
}
  where
    no_buckets : (s : OrderAction) → AreValid s (buckets_by_action s (new_order_book spec))
    no_buckets ask = (tt, tt)
    no_buckets bid = (tt, tt)

    no_orders :
        (k : ℕ) (p : ℤ) (s : OrderAction)
        → points s p (lookup k (new_order_book spec).id_map)
          ≡ holds k p (buckets_by_action s (new_order_book spec))
    no_orders k p ask = refl
    no_orders k p bid = refl

-- The books that commands lead to, from the empty book of a symbol.
pub data IsReachable (spec : CoreSymbolSpecification) : OrderBook → Type 0 where
  start : IsReachable spec (new_order_book spec)
  step :
      (book book' : OrderBook) (cmd cmd' : OrderCommand) (code : CommandResultCode)
      → IsReachable spec book
      → (cmd.command ≡ OrderCommandType.place_order → pos 0 <ℤ cmd.size)
      → process_command book cmd ≡ ok (code, book', cmd')
      → IsReachable spec book'

-- Every book that commands lead to from an empty one, in any order and number, is well-formed, if
-- the orders placed have positive sizes.
pub IsReachable-IsWellFormed :
    (spec : CoreSymbolSpecification) (book : OrderBook) → IsReachable spec book → IsWellFormed book
IsReachable-IsWellFormed spec book start = new_order_book-IsWellFormed spec
IsReachable-IsWellFormed spec book (step before _ cmd cmd' code r p e) =
    subst KeepsWellFormed e
      (process_command-KeepsWellFormed before cmd (IsReachable-IsWellFormed spec before r) p)
