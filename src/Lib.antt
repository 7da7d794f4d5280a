-- ===== src/Lib.antt =====
-- cloudetcd: an etcd server whose data are a log of records, an index of revisions in memory and a
-- batching layer that commits transactions optimistically. This library models the core of it.
--
-- How the parts interact. A client's transaction (pkg/storage/memorystorage/memory.go) is evaluated
-- at a snapshot against the index (pkg/bptree/bptree.go) and the log (the interface of
-- pkg/persistence/log.go): that stages events and records which keys were read and written
-- (pkg/persistence/txn_meta.go). Append hands the events to the batching layer
-- (pkg/persistence/batch), which groups compatible transactions, validates them against the
-- writes committed before, stamps revisions on those that pass and answers each one. The
-- storage then applies the records of the log, in order, to the index and to the lease table
-- (pkg/lease/lease.go); a watcher (pkg/storage/memorystorage/watch.go) sends the events of the same
-- records. The logs keep decoded records in a cache (pkg/persistence/recordcache/recordcache.go).
--
-- Which file models what (definitions have the names of the functions, in lower case):
-- - Base: lists and association lists over native numbers, byte strings.
-- - Event: the fields of mvccpb.Event and mvccpb.KeyValue that the code uses, and LogRecord.
-- - TxnMeta: NewTxnMeta, AddRead, AddWrite and AddList of pkg/persistence/txn_meta.go.
-- - Batch: pkg/persistence/batch/batch.go. `prepare_loop` is the loop of `prepare`; the map
--   committedWrites, which all batches share, is passed in and out.
-- - Batching: pkg/persistence/batch/batching.go. `enqueue` is Add up to its wait, `flush_round` a
--   round of doBackgroundFlush, `close` the first part of Close; Batching/Runs has the relation
--   `Reach` of the states of all interleavings, with the history of what was committed.
-- - Index: pkg/bptree/bptree.go. A node is the list of its entries, each with the rest of its node.
-- - Cache: pkg/persistence/recordcache/recordcache.go.
-- - Outcome, Request: how calls end; the fields of the etcdserverpb messages.
-- - Storage: txn.put, txn.get and txn.delete of memory.go; Storage/Listing has txn.list,
--   Storage/Evaluate the compares, the operations and `evaluate`.
-- - Memory: applyUpTo and ReplayLog of memory.go; Memory/Compaction has Compact, Memory/Commit
--   has commit, tryTxn, Txn, Put, Delete and Get, and `World` is a log with a storage over it.
-- - Lease: OnLogEvent, the lease keys and keep-alives of pkg/lease/lease.go; Memory/Leases has its grants,
--   revokes, expiry and deletions, which go through the storage.
-- - Watch: Watch, OnLogEntry, collect and the sending loop of Run of watch.go.
-- - Codec: pkg/persistence/logcodec/logcodec.go, with the functions of protowire and proto as a
--   parameter; Codec/Protowire has their laws, Codec/Alias the parser DecodeAlias.
-- - FileLog: pkg/persistence/filesystemlog/filesystem_log.go over a directory that maps names to
--   contents; FileLog/Names has the file names, FileLog/Open listFiles, reconcileArchive and open,
--   FileLog/Commit commitBatch, rotateLocked, tick and Close, FileLog/Compact Compact and compactGroup.
-- - Tests: runs of these definitions at concrete inputs.
--
-- Bounds and fuel. Revisions, sizes and lease ids are natural numbers: a revision grows by one
-- with each commit, so a uint64 does not wrap; parse_uint has the bound of 64 bits that
-- strconv.ParseUint has. A time is a number of nanoseconds since
-- year 1, and a TTL the 64 bits of its int64; the product that makes it a Duration wraps in `expiry`
-- as it does in Go. `add_revision` has the length of the key as
-- fuel, since each call below is for a shorter key; `evict_loop` the number of elements, since each
-- round takes one out; `send_up_to` the number of revisions left, since each round takes one at
-- least; `drain` one more than the number of batches. The 64 attempts of Txn are the code's own.
-- The loops of the codec have the bytes left as fuel, since every round takes one at least.
--
-- Parameters. The log under the storage is a record `Log` of operations on a state of its own; the
-- flush function of the batching layer is a Boolean function, where false stands for the error on
-- which the code panics; the encoding and decoding of a lease record are the functions `encode_ttl`
-- and `decode_ttl`.
--
-- The codec has the laws of protowire and proto as named hypotheses: IsWire and IsProto of
-- Codec/Protowire, which Tests/Wires fills with a format of its own. How the calls of the operating
-- system end in a commit is the argument CommitIo: a write may stop after any number of bytes. Whether
-- the write handle of the active file is open is part of the state. The order in which slices.SortFunc
-- leaves files that compare equal is the argument `ties` of listFiles.
--
-- Not modelled: goroutines and locks other than as steps; contexts and logging; the memory mappings
-- of the files, their pins and read handles, which give the bytes of the directory; the stop and the
-- retries of the archiver and calls that fail while compacting; the archive itself and the choice of a log
-- (pkg/persistence/gcsarchive, logfactory, memorylog); the gRPC services (pkg/api); the waits
-- and delays of pkg/lease; the recorder, the traffic generator and the commands
-- (pkg/recording, pkg/workload, cmd), which are clients or input and output.
pub mod Base
pub mod Event
pub mod TxnMeta
pub mod Batch
pub mod Batching
pub mod Index
pub mod Cache
pub mod Outcome
pub mod Request
pub mod Storage
pub mod Lease
pub mod Memory
pub mod Watch
pub mod Codec
pub mod FileLog
mod Tests
