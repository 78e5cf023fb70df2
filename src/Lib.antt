-- ===== src/Lib.antt =====
-- Verification of exg, an exchange for spot and perpetual contracts written in Rust.
--
-- The program keeps the money of its users in a ledger (crates/exg-ledger) that counts in a fixed
-- point decimal of 128 bits (crates/exg-common). Orders rest in an order book and are matched
-- against it (crates/exg-matching-engine), by commands whose events go to a log that is replayed
-- at the next start; the risk engine (crates/exg-risk-engine) has the formulas for margins and
-- funding; threads hand messages to each other through a ring buffer (crates/exg-ringbuffer), a
-- write-ahead log (crates/exg-wal) keeps payloads over a crash, the order service
-- (crates/exg-order-service) keeps the state of each order from the events, and the services
-- around these carry commands and results.
--
-- What models what:
-- - Decimal and its modules: crates/exg-common/src/decimal.rs. A Decimal128 is its raw integer.
--   The operators wrap at 128 bits, as the release profile has them; a debug build panics exactly
--   where the wrapped result is not the exact one (Decimal.Exact). Decimal.Wide has the 256-bit
--   product and quotient on pairs of 128-bit words, with each wrapping_add and shift written out;
--   the long division counts 128 rounds down, so it has no fuel.
-- - Common.Types, Common.Error: crates/exg-common/src/types.rs and error.rs. Ids and times are
--   natural numbers; an error carries the numbers that the source prints.
-- - Ledger.State: the structs of crates/exg-ledger/src/account.rs, journal.rs and operations.rs,
--   and the monad of the methods, which return a result and the ledger they leave, on an error
--   too. A hash map is an association list (Prelude.Assoc), in which a loop over all values has
--   the order of the list.
-- - Ledger.Funds, Ledger.Positions, Ledger.Settlement: the methods of
--   crates/exg-ledger/src/operations.rs, under the names of the source. An early return is a
--   combinator that is given the rest of the method: check, once, refuse, with_wallet.
-- - Ledger.Audit: the checks of crates/exg-ledger/src/invariant.rs.
-- - Ledger.Calls: the calls of a client as data, and a run of them.
-- - Ledger.Sums, Ledger.Rules: the sums of balances and of the journal modulo 2^128, and the
--   rules by which a property of the ledger passes through the combinators. Ledger.Conservation,
--   Ledger.Records and Ledger.Replay apply them to each method.
-- - Matching.Book, Matching.Matcher: crates/exg-matching-engine/src/orderbook.rs and matcher.rs.
--   The levels of a side are a list in the order of the keys of the source's BTreeMap, and the
--   side of the makers is an argument where the source has the same code twice. The loops run
--   over lists collected before them, so they have no fuel. Matching.Quantities and
--   Matching.Fills count what is filled, Matching.Prices and Matching.Limits follow the prices of
--   the orders, and Matching.Placement undoes an insertion.
-- - Decimal.Panic: the operators that abort; a computation that may abort is an Option, and
--   Ensures says what holds of its result.
-- - Ids.Snowflake: SnowflakeGen of crates/exg-common/src/ids.rs. The fuel of next_id counts the
--   rounds of its loop, and Ids.Clock gives the number that is enough for a clock; Ids.Threads
--   lets threads run between the steps of next_id, in the order of a schedule, and takes its
--   atomic operations in one order.
-- - Risk: crates/exg-risk-engine/src, one module for each file.
-- - Engine.Messages: the commands and events of crates/exg-protocol/src/command.rs and event.rs.
-- - Engine: crates/exg-matching-engine/src/engine.rs. The handlers are Engine.Entry and
--   Engine.Accept (handle_new_order), Engine.Cancel, Engine.Amend, Engine.Stops and
--   Engine.Expiry, under process_command in Engine.Commands. The generator of trade ids is a
--   parameter, which draws an id from a state. The binary heap of expiry times is the list in the
--   order in which it pops. The loop that swaps orders out of the list of conditional orders has
--   fuel for one round per order.
-- - Engine.Replay: apply_event of crates/exg-matching-engine/src/replay.rs, and the loop over the
--   log of crates/exg-server/src/lib.rs.
-- - Engine.Extraction, Engine.Conditions, Engine.Triggers, Engine.Sweeping, Engine.Refusals,
--   Engine.Cancels, Engine.Frames, Engine.Numbering, Engine.TradeIds, Engine.Handlers,
--   Engine.Runs, Engine.Funding, Engine.Replays and Engine.CancelReplays hold proofs;
--   Matching.View sees the book as a map from ids to orders.
-- - Clearing.Book: crates/exg-clearing/src/position.rs. A hash map is an association list, and
--   its iteration the order of the list; an error text is without the numbers that it prints.
-- - Clearing.PostTrade, Clearing.Tick, Clearing.Log: crates/exg-clearing/src/post_trade.rs, its
--   fills, its funding tick, and its live and replayed events; the decimal digits of a number in
--   a key are a parameter. Clearing.Batches: what the matching thread of
--   crates/exg-server/src/lib.rs does with it. Clearing.Projection, Clearing.Survival,
--   Clearing.Settled, Clearing.Live and Clearing.Lockstep hold proofs about them.
-- - Clearing.Monitor: crates/exg-clearing/src/risk_monitor.rs, with Clearing.Grouping,
--   Clearing.Verdicts, Clearing.Asking and Clearing.Scan for its proofs.
-- - Ring.Buffer: crates/exg-ringbuffer/src/buffer.rs. The two counters, modulo 2^64, and the
--   slots, each a length and the bytes after it. Ring.Fifo relates them to a queue of messages,
--   and Ring.Setup to the empty one. The mapping of memory is a parameter, which says whether one
--   of so many bytes is made; the steps of the two threads are taken one at a time.
-- - Wal.Record, Wal.Writer, Wal.Reader: crates/exg-wal/src/segment.rs, writer.rs and reader.rs.
--   The checksum is a parameter, and a file is named by its first sequence number. The bytes of
--   the current segment are those that were written, of which the first ones are on disk. The
--   fuel of a scan of a segment is its bytes and one more, as each record takes bytes.
--   Wal.Coding, Wal.Framing, Wal.Scanning, Wal.Opening, Wal.Durable, Wal.Appending, Wal.Cuts,
--   Wal.Reopening, Wal.Crash and Wal.Delivery hold proofs about them.
-- - Orders.Record, Orders.Service, Orders.Events, Orders.Snapshot:
--   crates/exg-order-service/src/order.rs and service.rs. Its hash maps are association lists,
--   whose values come in the order of the entries. Orders.Lookups, Orders.Distinct, Orders.Index,
--   Orders.Moving, Orders.Adding, Orders.Consistent, Orders.Applying, Orders.Closing,
--   Orders.Selection, Orders.Canceling, Orders.Reachable, Orders.Restoring, Orders.Everywhere,
--   Orders.Accounting, Orders.Accounts and Orders.Repeats hold proofs about them.
-- - Prelude: the library names in use, Boolean tests, lists, association lists and integers over
--   the native natural numbers.
--
-- Not modelled: snapshots of the engine, snapshot files and input and output errors of the log,
-- crates/exg-clearing/src/clearing.rs, core affinity, the spinning push and pop of the ring
-- buffer, text and floating point conversions of the decimals, derived serialization,
-- asynchronous services, storage and network input and output. The decimal digits of a number in
-- an idempotency key are a parameter.
pub mod Prelude
pub mod Decimal
pub mod Common
pub mod Ids
pub mod Risk
pub mod Ledger
pub mod Matching
pub mod Engine
pub mod Clearing
pub mod Ring
pub mod Wal
pub mod Orders
