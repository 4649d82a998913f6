-- ===== src/Lib.antt =====
-- sq, a message broker in Go: its stored forms, its delivery engine and its replicated log's files.
--
-- The parts, and how they interact. Producers append messages to the queues of a topic; a consumer
-- group receives from a queue through the deliverer, which keeps, for each group and queue, a cursor
-- (the first offset that was never scanned) and one record per delivery that is not confirmed. All
-- state is records of an ordered key-value store, under the keys of internal/store/keys.go; each
-- call of the deliverer works under the lock of its queue and commits one batch of writes.
--
-- The files.
--   Common          library names, Boolean tests and lists over native numbers
--   Store           internal/store/keys.go: Store.Bytes (PutU64, GetU64), Store.Order (the store's
--                   order of keys and ranges), Store.Keys (every key builder and parser), with
--                   their round trips, injectivity and scan ranges below it
--   Message         internal/core/types.go (Message) and internal/core/encoding.go (EncodeMessage,
--                   DecodeMessage and their v1 frame); Message.Plain (the messages that JSON
--                   keeps as they are)
--   Meta            internal/core/meta/meta.go: Meta.Names (ValidateName, DLQTopicName),
--                   Meta.Registry (EnsureTopic, CreateTopic, EnsureGroup, UpdateTopicRetention,
--                   DeleteTopic, DeleteGroup, Reload), with what every call keeps in Meta.Upkeep and
--                   Meta.Consistency, and EffectiveRetention in Meta.Durations
--   Filter          internal/core/deliver/filter.go: the result of a filter and its interface, with
--                   ParseFilter and TagFilter in Filter.Tags;
--                   Filter.Logic and Filter.Sql (internal/core/deliver/sql92_eval.go, and the nodes
--                   of sql92_parse.go), Filter.Lexer (sql92_token.go), Filter.Parser and
--                   Filter.Build (sql92_parse.go); proofs in Filter.Laws, Filter.Monotone,
--                   Filter.Ending, Filter.Turns and Filter.Accepted, and in Filter.Printed for
--                   the tokens that print a tree
--   Deliver         internal/core/deliver/deliver.go and lease.go: Deliver.Table (the records of a
--                   queue), Deliver.Lease (renewals and the retry back-off), Deliver.State (the
--                   queue's state, moveToDLQ), Deliver.Receive (receiveOnce and
--                   receiveOnceLocked), Deliver.Confirm (Ack, AckBatch, ChangeInvisible,
--                   ForwardToDLQ, ResetCursor); the other files below it hold the proofs, from
--                   Deliver.Scan and Deliver.Redelivery to Deliver.Receiving, Deliver.Receipts,
--                   Deliver.Losses, Deliver.Acking and Deliver.Reach
--   Seglog          internal/cluster/seglog: Seglog.Frame (frame.go), Seglog.Scan (the loops of Open) and
--                   Seglog.Log (seglog.go: Open, Append, maybeRotate, Sync, Close, TruncateTo, with
--                   falloc_linux.go); what Open reads back is in Seglog.Replay, Seglog.Recovery and
--                   Seglog.Live, what Append writes in Seglog.Disk, and the two meet in
--                   Seglog.Sound, Seglog.Rotation, Seglog.Appending, Seglog.Opening,
--                   Seglog.Durability and Seglog.Acknowledged
--   Delay           Delay.Staging (AppendDelay, nextDelaySeqLocked and InvalidateCounters of
--                   internal/core/produce/produce.go), Delay.Scheduler (internal/core/delay/delay.go:
--                   Pass, moveOne, Recall), Delay.Reach (their interleavings); proofs in
--                   Delay.Recall, Delay.Moving and Delay.Passing
--   Produce         internal/core/produce/produce.go: Produce.Append (Append, AppendBatch,
--                   nextOffsetLocked, InvalidateCounters), with the choice of a queue in
--                   Produce.Choice and the order of the stored messages in Produce.Offsets
--   Txn             internal/core/txn/txn.go: Txn.Records (the records of the store), Txn.Manager
--                   (Stage, End, Pass, checkOne, dropLocked), Txn.Pairs, Txn.Paired and
--                   Txn.Outcomes (what their batches do), Txn.Reach (their interleavings);
--                   proofs in Txn.Good, Txn.Once, Txn.Kept, Txn.Checks and Txn.Passing
--   Retention       internal/core/retention/retention.go: Retention.Purge (purgeQueue, purgeKeyIdx and
--                   checkDisk); proofs about purgeQueue in Retention.Queues, about
--                   purgeKeyIdx in Retention.Index
--   Broker          the producer and the deliverer on one store, in any order of their calls
--
-- Conventions. Strings, bodies and keys are lists of bytes; numbers are natural numbers, and the
-- wrap-around of a machine word is written out where the code can reach it. Offsets in the deliverer
-- are assumed below 2 ^ 64 - 1, times and durations are not negative. The map of a message's
-- properties is the list of its entries. Logging is left out. A failing read of the store is left
-- out; a failing commit is not: a Context says whether a batch is refused, is ordered but not made
-- durable in time, or is committed, and what happens to the two writes of a dead letter. The second
-- phase of a receive scans at most scan_budget (1024) records, as in the code; no other loop needs
-- fuel but the scan of a segment of the raft log, which is given one step more than the segment has
-- bytes.
--
-- The raft log. A Log keeps the bytes of its files: the closed segments and the newest one, so that
-- active_seq is always the number of the newest file. The outcomes of the system calls of an Append
-- are its argument (AppendIo), a failed write with the number of bytes that it put down; those of
-- Open fail or succeed together (OpenIo), and an Open that fails returns no log. A file that is
-- preallocated ends in zeros. SegMaxBytes is an argument, as in the code, where it is a variable.
--
-- Delayed messages. An entry of the staging area stands under one number, its due time times 2 ^ 64
-- and its sequence number, which sorts as its key does; what reaches a queue is listed with that
-- number. moveOne and Recall are atomic, as they hold moveMu; the scan of a pass is not, so a move
-- may be of anything that is due, whenever it was read. The clock is assumed not to go back, and the
-- counter of sequence numbers not to reach its end. A pass moves at most max_move_per_pass (512)
-- entries.
--
-- Transactions. The half messages and their references stand under the keys of
-- internal/store/keys.go, byte for byte. End, checkOne and dropLocked are atomic, as they hold the
-- lock of their transaction, and no two transactions share a key. NewMessageID gives out no id
-- twice; the times of the checks are below 2 ^ 64; and an entry that is checked is as the scan found
-- it, or its transaction was decided since, as only one node checks at a time. Any reads and batches
-- may fail. A pass looks at max_check_per_pass (256) entries.
--
-- Retention. A purge scans at most max_purge_per_queue (10000) messages of a queue, and as many
-- expired entries of the key index. The iteration order of the map of buckets in purgeKeyIdx is an
-- argument, and so is the fate of every batch.
--
-- One store. All parts work on one store, in which a batch is visible once it is ordered, and each
-- call is atomic under its lock. A cluster does more: a call returns from ApplyAsync before the
-- proposal is applied, and a node that does not lead a group may read behind. Neither is in the
-- model. A batch that is ordered and never applied is a fate of the producer's batches (BatchFate),
-- and of no other.
--
-- SQL92 expressions. The lexer has as much fuel as the text has bytes, and the loops of the parser
-- as the tokens that are left, and one or two more. The depth of the parentheses, which the parser
-- counts up to max_ast_depth (16), is what its recursion goes down by.
--
-- Parameters. float64 and strconv.ParseFloat stand as the records Floats of Filter.Sql and Numbers
-- of Filter.Parser, strings.TrimSpace as the function trim of Filter.Tags. encoding/json of a
-- HalfRef stands as the record Json of Txn.Manager. The raft messages Entry and HardState,
-- proto.Marshal and proto.Unmarshal, and crc32.Update stand as the record Codec of Seglog.Scan, with
-- the laws UpdateLaws and CodecLaws. encoding/json stands as the record Json of Message.Encoding
-- with the laws JsonLaws of Message.RoundTrip, which speak of the messages of Message.Plain only, of
-- valid UTF-8 and with the properties in the order of their keys; the deliverer takes the decoder of
-- messages, the filter and the session check of a lease as functions. The stored messages are
-- assumed to be in the order of their offsets (IsStored), which Produce.Offsets states of what the
-- producer writes. The producer takes the number of queues that EnsureTopic answers, the queues that
-- the node leads, the FNV hash, the clock, new message ids and the encoder as the record Setting,
-- and keeps one topic; offsets do not reach 2 ^ 64.
--
-- Not modelled: the long polling around receiveOnce, the wake-up of long polls, the timer of the
-- transaction checks, the loop of retention over topics and queues with its timer; and, as I/O, glue
-- or wrappers of third-party code: the store over Pebble, raft, the gRPC front end, configuration,
-- metrics, the admin server and the console.
pub mod Broker
pub mod Common
pub mod Delay
pub mod Deliver
pub mod Filter
pub mod Message
pub mod Meta
pub mod Produce
pub mod Retention
pub mod Seglog
pub mod Store
pub mod Txn
