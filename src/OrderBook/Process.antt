-- ===== src/OrderBook/Process.antt =====
-- IOrderBook.cpp: the dispatch of a command to the book.
pub mod WellFormed
use exchange_cpp.Base.{ℕ, ◌-◌, ◌%◌, ltb, Bool, true, false, some, if◌then◌else◌}
use exchange_cpp.Base.Int.{ℤ, pos, negsuc}
use exchange_cpp.Common.{OrderCommand, CommandResultCode, OrderCommandType}
use exchange_cpp.OrderBook.Book.{Result, ok, OrderBook, Reply, l2_market_data_snapshot}
use exchange_cpp.OrderBook.NewOrder.{new_order}
use exchange_cpp.OrderBook.Change.{cancel_order, reduce_order, move_order}

-- The only code that lets a placed order through to the book.
unfoldable pub is_valid_for_matching : CommandResultCode → Bool
is_valid_for_matching CommandResultCode.valid_for_matching_engine = true
is_valid_for_matching code = false

-- `static_cast<int32_t>`, as the unsigned number of the same 32 bits.
abbrev pub low_word : ℤ → ℕ
low_word (pos n) = n % 4294967296
low_word (negsuc n) = 4294967295 - n % 4294967296

-- `ORDER_BOOK_REQUEST`: a negative depth asks for all levels (`INT_MAX`).
abbrev pub snapshot_depth : ℤ → ℕ
snapshot_depth size = if ltb (low_word size) 2147483648 then low_word size else 2147483647

-- `ProcessCommand`: the chain of tests over the type of the command.
unfoldable pub process_command_of_type : OrderCommandType → OrderBook → OrderCommand → Result Reply
process_command_of_type OrderCommandType.move_order book cmd = move_order book cmd
process_command_of_type OrderCommandType.cancel_order book cmd = cancel_order book cmd
process_command_of_type OrderCommandType.reduce_order book cmd = reduce_order book cmd
process_command_of_type OrderCommandType.place_order book cmd =
    if is_valid_for_matching cmd.result_code
    then (let r = new_order book cmd in ok (CommandResultCode.success, r.0, r.1))
    else ok (cmd.result_code, book, cmd)
process_command_of_type OrderCommandType.order_book_request book cmd = ok (
  CommandResultCode.success,
  book,
  record cmd { market_data = some (l2_market_data_snapshot (snapshot_depth cmd.size) book) },
)
process_command_of_type _ book cmd = ok (CommandResultCode.matching_unsupported_command, book, cmd)

unfoldable pub process_command : OrderBook → OrderCommand → Result Reply
unfolding process_command_of_type
process_command book cmd = process_command_of_type cmd.command book cmd
