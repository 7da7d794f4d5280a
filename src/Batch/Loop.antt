-- ===== src/Batch/Loop.antt =====
-- One round of the loop of `prepare`, pkg/persistence/batch/batch.go.
use cloudetcd.Base.{ℕ, suc, ◌≡◌, true, false, List, ◌∷◌}
use cloudetcd.Batch.{
  PendingTxn, Committed, validate_txn, record_writes, stamp_txn, Prepared, prepare_loop,
}

module _ (last revision : ℕ) (c : Committed) (txn : PendingTxn) (txns : List PendingTxn) where
  abbrev pub with_rejected : Prepared → Prepared
  with_rejected r = record r { rejected = txn.result_chan ∷ r.rejected }

  abbrev pub with_accepted : Prepared → Prepared
  with_accepted r = record r {
    transactions = stamp_txn (suc revision) txn ∷ r.transactions;
    accepted = txn.result_chan ∷ r.accepted;
  }

  pub prepare_loop_reject :
      validate_txn txn.meta last c ≡ false
      → prepare_loop last revision c (txn ∷ txns)
        ≡ with_rejected (prepare_loop last revision c txns)
  unfolding prepare_loop
  prepare_loop_reject e = rw (e, prepare_loop)

  pub prepare_loop_accept :
      validate_txn txn.meta last c ≡ true
      → prepare_loop last revision c (txn ∷ txns)
        ≡ with_accepted (
            prepare_loop last
              (suc revision)
              (record_writes txn.meta.write_set (suc revision) c)
              txns)
  unfolding prepare_loop
  prepare_loop_accept e = rw (e, prepare_loop)
