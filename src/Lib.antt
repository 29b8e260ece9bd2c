-- ===== src/Lib.antt =====
-- atoman: asynchronous state, flags, shared maps and sets, channels, files, configurations,
-- logging, tracing of log files.
--
-- The program's parts, and the files that model them:
--   State     src/state/mod.rs, src/state/guard.rs: a lazily made value in an `ArcSwap`, a mutex
--             for its writers, and `StateGuard`, a copy-on-write transaction that publishes at its
--             drop. State holds the cell and the calls on a heap of wraps, State/Guard the guard,
--             State/Session runs of calls on one guard, State/Calls the calls in sequence, and
--             State/Threads a step relation for any number of threads over one wrap.
--   Flag      src/flag/: an atomic Boolean and a guard that takes it back. Flag/Calls is about runs
--             of calls.
--   Shared    src/shared/: items under a read-write lock (Shared/Item), and the sharded map and
--             set. Shared/Table is the entry list of one shard, Shared/Shards the vector of shards
--             and the traversals, Shared/Map and Shared/Set the calls.
--   Channel   src/channel/: `Sender` and `Receiver` over the three kinds of tokio channels.
--             Channel/Queue is the interface of those, Channel/Sends what one call does to it;
--             Channel/Delivery and Channel/Fifo follow messages through queued channels,
--             Channel/Stages and Channel/Single through oneshot channels; Channel/Making has the
--             constructors and `Sender::closed`.
--   File      src/file/: File/Opening opens and removes files and makes directories,
--             File/Opening/Opened is about what that leaves; File/Pattern is
--             `File::read_until_pattern` over the reader of File/Stream and the search of
--             File/Window, File/Lines reads lines over the same reader; File/Writing is the cursor,
--             the writing and the reading to the end; File/Entries and File/Dir are the kinds of
--             files and the readings of a directory, File/Metadata an entry with its metadata,
--             File/Finding the searches, File/Finding/Below and File/Finding/Whole what they find in
--             the directories below.
--   Trace     src/trace/mod.rs: `FilterEngine` and, in Trace/Watch, the task that watches one
--             source; Trace/Filters and Trace/Entries say what passes and what is sent.
--             Trace/Latest is `find_latest_file`. Trace/Supervisor is `MultiTrace`, a step relation
--             on its tasks, the channel and the owner's calls; its Flow and Filtered are about the
--             records that go through, its Turns joins it to Trace/Watch. Trace/Printing is `pretty_print`.
--   Logger    src/logger/mod.rs: Logger holds the levels and the statics, Logger/Layer the texts of
--             spans and events, Logger/Rotation `init`, Logger/Worker the worker over the clock and
--             the disk of Logger/Disk, Logger/Lines the tracing of a file. Logger/Bounds is about
--             the worker's buffer, Logger/Answers about its answers; Logger/Stages and
--             Logger/Delivery follow events through it, Logger/Growth is about what it adds to
--             files. Logger/Client is `on_event` and `flush`, Logger/Session a step relation of the
--             program's tasks and the worker over the channel between them, Logger/Session/Order,
--             Logger/Session/Drained and Logger/Durable what comes of any steps. Logger/Console
--             is the output in debugging mode.
--   Config    src/config/mod.rs: Config holds the calls over the file system and the formats of
--             Config/Files; Config/Saving is about what `write` does to files, Config/Reading about
--             what is read back, Config/Checking about `check`. Config/Global is what the macro of
--             crates/config/src/lib.rs generates.
--   LogArgs   crates/log/src/lib.rs: the parser of one argument of the attribute `log`.
--   Macros    crates/macros/src/lib.rs and crates/log/src/lib.rs: what `main`, `test` and `log`
--             make of a function; Macros/Parts and Macros/Expansion are about all
--             the attributes of one.
--   Errors    src/error.rs: the library's errors.
-- Prelude holds the shared names and lemmas, Tests the runs at concrete inputs. The parts meet
-- so: channels and the configuration return the errors of src/error.rs; the configuration keeps
-- its times, and the logger its path and level, in a State that they write through a guard
-- (State/Update); the static of the configuration macro is a State too; the logger's tasks and
-- its worker, and the tasks of a `MultiTrace` and its owner, are joined by a channel of tokio,
-- for which they share Channel/Queue with the channels of the library.
--
-- How the code is read. A cell for one value (`OnceCell`, `ArcSwap`, `Mutex`, `RwLock`, an
-- atomic) is its content, and what shares a cell through an `Arc` shares an address on a heap. A
-- call that waits for a lock answers `blocked`, one that stays pending answers `pending`. A hash
-- map or hash set is a list of entries with one entry for a key. Where other tasks may act
-- between two accesses of a call, the definition takes what each access finds: the n-th access of
-- a traversal of the shards, the filters after n lines. What the library does not define is an
-- interface with its documented behaviour as laws: equality and hashes of keys, the channels of
-- tokio, its buffered reader, the regex crate, the likeness search, the serde crates, syn, the
-- file system, the clocks. Machine integers: the call counter of a guard and the shard of a hash
-- wrap at 2^64; lengths and positions stay below 2^63, so their casts keep them.
--
-- Fuel. `read_until_pattern` takes one unit for a chunk and every chunk but the last has a byte,
-- so more fuel than there are bytes ahead is enough; `read_all` of Trace/Watch takes one for a
-- line, so more than there are lines is enough; `read_lines` of File/Lines takes one for a line,
-- which has a byte, so more than there are bytes ahead is enough; `deep_search` of File/Finding
-- takes one for a level of directories. All other loops are structural: the worker's runs over
-- the commands that come, a directory's over the entries that its reader gives.
--
-- Not modelled: the registration of the layer and `LogExt` in src/logger/mod.rs, which only pass
-- calls on to tracing; the constructor of `SourceConfig`,
-- which compiles the default pattern; the comparison, the conversions and the texts of `Config`,
-- which pass on to the data; the reading of tokens by syn; src/lib.rs and src/prelude.rs, which
-- re-export; memory orderings weaker than the interleaving of whole accesses.
mod Prelude
pub mod Flag
pub mod Channel
pub mod Config
pub mod Errors
pub mod File
pub mod LogArgs
pub mod Macros
pub mod Logger
pub mod Shared
pub mod State
pub mod Trace
mod Tests
