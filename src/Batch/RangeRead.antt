-- ===== src/Batch/RangeRead.antt =====
-- A transaction with a range read behind a writer of its own batch, pkg/persistence/batch/batch.go
-- (prepare, validateTxn).
use cloudetcd.Base.{ℕ, suc, ◌≡◌, true, [], ◌∷◌, arith}
use cloudetcd.Batch.{PendingTxn, Committed, validate_txn, record_writes, stamp_txn, prepare_loop}
use cloudetcd.Batch.Loop.{prepare_loop_accept}

-- Whatever the first transaction of a batch writes, a second one with a range read is committed
-- behind it if its snapshot is the position before the batch: the write lies between the
-- snapshot of the range read and its commit, and is not looked at.
pub prepare_loop-range_read :
    (last : ℕ) (c : Committed) (writer reader : PendingTxn)
    → validate_txn writer.meta last c ≡ true
    → reader.meta.has_range_read ≡ true
    → reader.meta.snapshot_revision ≡ last
    → (prepare_loop last last c (writer ∷ reader ∷ [])).transactions
      ≡ stamp_txn (suc last) writer ∷ stamp_txn (suc (suc last)) reader ∷ []
unfolding prepare_loop
prepare_loop-range_read last c writer reader w r s =
    let c' = record_writes writer.meta.write_set (suc last) c in
    let valid : validate_txn reader.meta last c' ≡ true = unfold validate_txn in ground arith in
    rw (prepare_loop_accept last last c writer (reader ∷ []) w)
      (rw (prepare_loop_accept last (suc last) c' reader [] valid))
