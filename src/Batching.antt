-- ===== src/Batching.antt =====
-- pkg/persistence/batch/batching.go: the open batch, the queue of batches to flush and the flusher.
-- A step is what one goroutine does while it holds batchLock, or one call of flushBatch; the
-- flush function is a parameter, and the failure of it (a panic) is a result of its own.
pub mod Runs
pub mod Drain
pub mod Compatible
pub mod Shutdown
use cloudetcd.Base.{
  ℕ, zero, suc, ◌+◌, ◌-◌, Bool, true, false, List, [], ◌∷◌, ◌++◌, Option, none, some, if◌then◌else◌,
  length,
}
use cloudetcd.Batch.{PendingTxn, TxnBatch, Committed, can_batch_with, add, prepare, PrepareResult}

pub record Batching : Type 0 where
  pub open_batch : Option TxnBatch
  pub stop : Bool
  pub flush_queue : List TxnBatch
  pub last_log_position : ℕ
  pub committed_writes : Committed

unfoldable pub new_batching : ℕ → Batching
new_batching last = record {
  open_batch = none;
  stop = false;
  flush_queue = [];
  last_log_position = last;
  committed_writes = [];
}

unfoldable pub new_txn_batch : TxnBatch
new_txn_batch = record { flushed = false; pending_batch = [] }

-- A fresh open batch that holds the transaction.
open_new : Batching → PendingTxn → Batching
unfolding new_txn_batch
open_new b txn = record b { open_batch = some (add new_txn_batch txn) }

-- What Add does under the lock, before it waits for the result.
unfoldable pub enqueue : Batching → PendingTxn → Batching
unfolding open_new
enqueue b txn = elim b.open_batch [
  | none ↦ open_new b txn
  | some open_batch ↦
      if can_batch_with open_batch txn.meta
      then record b { open_batch = some (add open_batch txn) }
      else open_new (record b { flush_queue = b.flush_queue ++ open_batch ∷ [] }) txn
]

-- The first part of Close.
unfoldable pub close : Batching → Batching
close b = record b { stop = true }

-- The batch that the flusher takes: the oldest of the queue, or else the open one.
take_from : List TxnBatch → Option TxnBatch → Batching → Option TxnBatch × Batching
take_from (batch ∷ queue) open_batch b = (some batch, record b { flush_queue = queue })
take_from [] (some batch) b = (some batch, record b { open_batch = none })
take_from [] none b = (none, b)

unfoldable pub take_batch : Batching → Option TxnBatch × Batching
unfolding take_from
take_batch b = take_from b.flush_queue b.open_batch b

pub record BatchResult : Type 0 where
  pub revision : ℕ
  pub success : Bool

-- The results sent to the accepted channels, the first with revision `revision`.
unfoldable pub deliver_accepted : ℕ → List ℕ → List (ℕ × BatchResult)
deliver_accepted revision [] = []
deliver_accepted revision (chan ∷ chans) =
    (chan, record { revision = revision; success = true }) ∷ deliver_accepted (suc revision) chans

unfoldable pub deliver_rejected : List ℕ → List (ℕ × BatchResult)
deliver_rejected [] = []
deliver_rejected (chan ∷ chans) =
    (chan, record { revision = 0; success = false }) ∷ deliver_rejected chans

-- The batch handed to the flush function, and the results in the order in which they are sent.
pub record Flushed : Type 0 where
  pub state : Batching
  pub committed : List PendingTxn
  pub results : List (ℕ × BatchResult)

-- How a round of doBackgroundFlush ends.
pub data Round : Type 0 where
  waits : Round
  returns : Round
  panics : Round
  flushes : TxnBatch → Flushed → Round

module _ (flush_func : ℕ → List PendingTxn → Bool) where
  -- The `if commit != nil` of flushBatch: the transactions committed, or none for the panic.
  pub write_commit : ℕ → Option (List PendingTxn) → Option (List PendingTxn)
  write_commit start none = some []
  write_commit start (some txns) = if flush_func start txns then some txns else none

  unfoldable pub flush_batch : Batching → TxnBatch → Option Flushed
  unfolding write_commit
  flush_batch b batch =
      let p = prepare batch b.last_log_position b.committed_writes in
      let start = b.last_log_position in
      elim (write_commit start p.commit) [
        | none ↦ none
        | some txns ↦ some (record {
          state = record b {
            last_log_position = start + length txns;
            committed_writes = p.committed;
          };
          committed = txns;
          results = deliver_accepted (suc start) p.accepted ++ deliver_rejected p.rejected;
        })
      ]

  after_flush : TxnBatch → Option Flushed → Round
  after_flush batch none = panics
  after_flush batch (some f) = flushes batch f

  flush_taken : Bool → Option TxnBatch × Batching → Round
  flush_taken stop (some batch, b) = after_flush batch (flush_batch b batch)
  flush_taken stop (none, b) = if stop then returns else waits

  -- One round of doBackgroundFlush.
  unfoldable pub flush_round : Batching → Round
  unfolding flush_taken after_flush
  flush_round b = flush_taken b.stop (take_batch b)
