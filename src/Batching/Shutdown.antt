-- ===== src/Batching/Shutdown.antt =====
-- Close of pkg/persistence/batch/batching.go, from any state that Add and the flusher reach.
use cloudetcd.Base.{ℕ, suc, ◌+◌, Bool, false, List, [], ◌∷◌, ◌≡◌, Option, none, some, All, length}
use cloudetcd.Batch.{PendingTxn, TxnBatch}
use cloudetcd.Batch.Serial.{History}
use cloudetcd.Batching.{Batching, close}
use cloudetcd.Batching.Runs.{Reach}
use cloudetcd.Batching.Drain.{Succeeds, Drains, OpenFresh, open_count, close-drain}
use cloudetcd.Batching.Compatible.{IsReady, OpenIsReady, Reach-IsTidy}

fresh_queue :
    (queue : List TxnBatch) → All IsReady queue → All (λ batch. batch.flushed ≡ false) queue
fresh_queue [] h = tt
fresh_queue (batch ∷ queue) h = (h.0.0, fresh_queue queue h.1)

fresh_open : (o : Option TxnBatch) → OpenIsReady o → OpenFresh o
fresh_open none h = tt
fresh_open (some batch) h = h.0

-- If every flush succeeds, then in every reachable state in which Close sets the stop flag the
-- flusher returns after at most one round more than there are batches; nothing is left queued, and
-- each waiting transaction has been sent exactly one result.
pub Reach-close-drain :
    (flush_func : ℕ → List PendingTxn → Bool) (first : ℕ) {b : Batching} {h : History}
    → Reach flush_func first b h
    → Succeeds flush_func
    → Drains flush_func
        (suc (length b.flush_queue + open_count b.open_batch))
        b.flush_queue
        b.open_batch
        (close b)
Reach-close-drain flush_func first {b} r succeeds =
    let tidy = Reach-IsTidy flush_func first r in
    close-drain flush_func b succeeds (fresh_queue b.flush_queue tidy.queue)
      (fresh_open b.open_batch tidy.opened)
