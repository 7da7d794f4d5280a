-- ===== src/Batching/Runs.antt =====
-- Every interleaving of Add, Close and the flusher of pkg/persistence/batch/batching.go.
use cloudetcd.Base.{
  ℕ, suc, ◌+◌, ◌≡◌, refl, ◌∙◌, Bool, List, [], ◌∷◌, ◌++◌, none, some, arith, length, Bool-cases,
  inl, inr, ◌||◌, is_empty, lookup, if◌then◌else◌,
}
use native.Mathlib.Nat.{add-zero}
use cloudetcd.Batch.{PendingTxn, TxnBatch, prepare, prepare_loop}
use cloudetcd.Batch.Serial.{History, extend, Tracks, prepare_loop-Tracks, last_write}
use cloudetcd.Batch.{written_at}
use cloudetcd.Batching.{
  Batching, new_batching, enqueue, close, take_batch, Flushed, Round, flush_batch, flush_round,
  write_commit, deliver_accepted, deliver_rejected,
}

-- The states that the goroutines can reach, with the history of what was committed. `first` is
-- the log position at the start.
pub data Reach (flush_func : ℕ → List PendingTxn → Bool) (first : ℕ)
    : Batching → History → Type 0 where
  started : Reach flush_func first (new_batching first) []
  added :
      {b : Batching} {h : History} (txn : PendingTxn)
      → Reach flush_func first b h
      → Reach flush_func first (enqueue b txn) h
  closed :
      {b : Batching} {h : History} → Reach flush_func first b h → Reach flush_func first (close b) h
  flushed :
      {b : Batching} {h : History} {batch : TxnBatch} {f : Flushed}
      → Reach flush_func first b h
      → flush_round flush_func b ≡ Round.flushes batch f
      → Reach flush_func first f.state (extend h b.last_log_position f.committed)

abbrev Follows : ℕ → Batching → History → Type 0
Follows first b h = Tracks first h b.last_log_position b.committed_writes

take_batch-Follows :
    (first : ℕ) (b : Batching) (h : History) → Follows first b h → Follows first (take_batch b).1 h
unfolding take_batch
take_batch-Follows first b h t = record {
  serial = t.serial;
  agrees = λ k. ground (arith, t.agrees k);
  at_top = ground arith;
}

enqueue-Follows :
    (first : ℕ) (b : Batching) (h : History) (txn : PendingTxn)
    → Follows first b h
    → Follows first (enqueue b txn) h
unfolding enqueue
enqueue-Follows first b h txn t = record {
  serial = t.serial;
  agrees = λ k. ground (arith, t.agrees k);
  at_top = ground arith;
}

-- What a flush leaves, in terms of what `prepare` returned.
pub flush_batch-some :
    (flush_func : ℕ → List PendingTxn → Bool) (b : Batching) (batch : TxnBatch) (f : Flushed)
    → flush_batch flush_func b batch ≡ some f
    → (write_commit flush_func b.last_log_position
          (prepare batch b.last_log_position b.committed_writes).commit
        ≡ some f.committed)
      × (f.state.last_log_position ≡ b.last_log_position + length f.committed)
      × (f.state.committed_writes
          ≡ (prepare batch b.last_log_position b.committed_writes).committed)
      × (f.results
          ≡ deliver_accepted
              (suc b.last_log_position)
              (prepare batch b.last_log_position b.committed_writes).accepted
            ++ deliver_rejected (prepare batch b.last_log_position b.committed_writes).rejected)
unfolding flush_batch
flush_batch-some flush_func b batch f e = ground arith

write_commit-some :
    (flush_func : ℕ → List PendingTxn → Bool) (start : ℕ) (ts txns : List PendingTxn)
    → write_commit flush_func start (if is_empty ts then none else some ts) ≡ some txns
    → ts ≡ txns
unfolding write_commit
write_commit-some flush_func start [] txns e = ground arith
write_commit-some flush_func start (t ∷ ts) txns e = ground arith

flush_batch-Follows :
    (flush_func : ℕ → List PendingTxn → Bool) (first : ℕ) (b : Batching) (batch : TxnBatch)
    (f : Flushed) (h : History)
    → flush_batch flush_func b batch ≡ some f
    → Follows first b h
    → Follows first f.state (extend h b.last_log_position f.committed)
unfolding prepare extend write_commit
flush_batch-Follows flush_func first b batch f h e t =
    let (written, position, map, _) = flush_batch-some flush_func b batch f e in
    elim (Bool-cases (batch.flushed || is_empty batch.pending_batch)) [
      | inl idle ↦
          let nothing : f.committed ≡ [] = ground arith in
          let here : f.state.last_log_position ≡ b.last_log_position =
            rw nothing at position ∙ add-zero _ in
          let kept : f.state.committed_writes ≡ b.committed_writes = ground arith in
          rw (nothing, here, kept) t
      | inr busy ↦
          let same =
            write_commit-some flush_func b.last_log_position
              (prepare_loop b.last_log_position b.last_log_position b.committed_writes
                batch.pending_batch).transactions
              f.committed (rw busy at written) in
          let stored : f.state.committed_writes
              ≡ (prepare_loop b.last_log_position b.last_log_position b.committed_writes
                  batch.pending_batch).committed =
            rw busy at map in
          rw (position, stored, ← same)
            (prepare_loop-Tracks first b.last_log_position batch.pending_batch h b.last_log_position
              b.committed_writes t)
    ]

flush_round-Follows :
    (flush_func : ℕ → List PendingTxn → Bool) (first : ℕ) (b : Batching) (batch : TxnBatch)
    (f : Flushed) (h : History)
    → flush_round flush_func b ≡ Round.flushes batch f
    → Follows first b h
    → Follows first f.state (extend h b.last_log_position f.committed)
unfolding flush_round
flush_round-Follows flush_func first b batch f h e t =
    let taken : flush_batch flush_func (take_batch b).1 batch ≡ some f = ground arith in
    let same : (take_batch b).1.last_log_position ≡ b.last_log_position =
      unfold take_batch in ground arith in
    rw same at (
      flush_batch-Follows flush_func first (take_batch b).1 batch f h taken
        (take_batch-Follows first b h t))

-- In every interleaving of Add, Close and the flusher the commits have contiguous revisions that
-- go up to the last log position, the map holds the last write of each key, and no committed
-- transaction without a range read missed a write to a key that it read or wrote.
pub Reach-Tracks :
    (flush_func : ℕ → List PendingTxn → Bool) (first : ℕ) {b : Batching} {h : History}
    → Reach flush_func first b h
    → Tracks first h b.last_log_position b.committed_writes
unfolding new_batching last_write written_at lookup close
Reach-Tracks flush_func first started = record { serial = tt; agrees = λ k. refl; at_top = refl }
Reach-Tracks flush_func first (added {b} {h} txn r) =
    enqueue-Follows first b h txn (Reach-Tracks flush_func first r)
Reach-Tracks flush_func first (closed r) = Reach-Tracks flush_func first r
Reach-Tracks flush_func first (flushed {b} {h} {batch} {f} r e) =
    flush_round-Follows flush_func first b batch f h e (Reach-Tracks flush_func first r)
