-- ===== src/Lib.antt =====
-- Exchange core: the order book and the risk engine
--
-- A command (`OrderCommand`) goes through the risk engine, which holds the funds of a placed order, then to
-- the order book of its symbol, which matches it and chains events to it, and back through the risk engine,
-- which settles the accounts of taker and makers from these events. This library models the two ends of that
-- path for one book and one handler: the naive order book with all its commands, the direct order book over
-- its linked objects, and the part of the risk engine that moves funds of pairs of currencies, adjusts balances and keeps margin positions.
--
-- Common       include/exchange/core/common: the enumerations (Enums) with their codes (Codes), and the orders,
--              commands, events and specifications as records (Records).
-- OrderBook    src/exchange/core/orderbook. Events is OrderBookEventsHelper.cpp. Bucket is OrdersBucket.cpp: the
--              orders of a price, oldest first; Bucket/Volume and Bucket/Fifo hold the laws of its volume and ids.
--              Levels is the map of buckets of one side of OrderBookNaiveImpl.cpp and the loops over it
--              (TryMatchInstantly, CheckBudgetToFill, FillAsks, FillBids). Book is the state of the book and the
--              steps that commands share; Book/Wf says when a book is well-formed. NewOrder is NewOrder for each
--              type of order, Change is CancelOrder, ReduceOrder and MoveOrder, Process is
--              IOrderBook::ProcessCommand. PriceMap is what collections/art/LongAdaptiveRadixTreeMap.h offers to the
--              direct book. Direct and its modules are OrderBookDirectImpl.cpp: the linked objects with RemoveOrder
--              and insertOrder (Direct), tryMatchInstantly (Matching), NewOrder, CancelOrder, MoveOrder and ReduceOrder
--              (Commands), the reports (Queries). Chain and Represents say what levels a side represents, OneOrder and
--              Stepwise take the naive loops one order at a time, Sweeping, Swept, Refines and Loop follow the direct
--              loop, and Mirrors, Agreement and Takers relate the two books.
--              Segments and Flat take the levels as one chain; Unlinking, BucketLeft, ChainLeft and RemoveOrder
--              follow RemoveOrder, Linking and InsertOrder follow insertOrder.
-- Risk         Arithmetic is utils/CoreArithmeticUtils.cpp, Position is common/SymbolPositionRecord.cpp, Users is
--              common/UserProfile.cpp and processors/UserProfileService.cpp, Exchange and Engine are
--              processors/RiskEngine.cpp: Exchange holds and settles for pairs of currencies, Engine has the state,
--              AdjustBalance, CanPlaceMarginOrder and RemovePositionRecord, Margin is PlaceOrder, PlaceOrderRiskCheck and
--              a party's part of HandleMatcherEventMargin, PostProcess the rest of it and PostProcessCommand, with a rejected
--              order in Refund and a traded one in Traded. A taker's position is read
--              again for each event: where the code would go on with a record that an event before removed, the model
--              stops with the fault `removed_position`. A throw is a fault as well.
-- Tests        books, users and a position with numbers, at which the theorems are applied; the direct book stands
--              there over a list of prices.
-- Base         integers and lists over native numbers, association lists and their laws.
--
-- State and operations. A `std::map` of buckets is the list of its buckets in the map's order, each under its
-- own price; erasing the emptied buckets after the loop of TryMatchInstantly is to leave them out of the list.
-- A hash map is an association list (Dict); where the code walks it (CanPlaceMarginOrder, SuspendUser) it is
-- walked in the list's order. A bucket's `orderMap_` is a search in its list. `idMap_` holds pointers: the model
-- keeps for each id the side and price of the bucket that owns the order, and follows a pointer by finding the
-- order there; a pointer to an order that is gone is the fault `dangling_order`, the exception for a missing
-- bucket the fault `bucket_not_found`. A chain of events is a list. A user's profile is reached by its uid in
-- the map of users, so a taker who is also the maker of a trade is one profile.
--
-- The objects of the direct book are cells of a store: a pointer is a number, a released object is no cell, and
-- an operation that follows a null or dangling pointer gives `none`, as does one that runs out of fuel. An order
-- keeps its side, so each side has stores of its own and the index holds the side with the pointer. The pointers
-- of new objects, which the pool hands out, are arguments of the operations. The map of prices is a parameter with
-- the laws of its operations.
--
-- Bounds. Prices, sizes, amounts and times are the integers that the int64_t values stand for, without a bound:
-- signed overflow has no defined result in C++, so the model says what the code does where none happens. Ids
-- are naturals, which the code only compares and masks. The depth of a snapshot keeps its cast to 32 bits. The
-- loops of the naive book and of the risk engine recurse on their lists. The loops of the direct book follow
-- pointers and recurse on fuel: the number of orders on the other side is enough for the matching, the number of
-- its levels for the budget.
--
-- A book is well-formed if every bucket's volume is the sum of what its orders have left and is positive, every
-- order is live (0 <= filled < size) and stands in the bucket of its side and price, the ids in a bucket are
-- distinct, the index points to exactly the places where the book holds an id, the buckets are sorted by price
-- without repetition, and every ask is dearer than every bid.
--
-- Not modelled: the nodes of the radix tree, the router of symbols, the switch of PreProcessCommand, binary
-- commands and reports, which are left to later work; the pipeline of threads, journals and snapshots, serialisation, hashes and pools, which are input, output and
-- memory; in MatcherTradeEvent, the stale uid that an event of the pool carries into a reduce or a reject.
pub mod Base
pub mod Common
pub mod OrderBook
pub mod Risk
pub mod Tests
