-- ===== src/Batching/Compatible.antt =====
-- What Add of pkg/persistence/batch/batching.go puts into one batch.
use cloudetcd.Base.{
  ℕ, ◌≡◌, refl, Bool, false, List, [], ◌∷◌, Option, none, some, arith, All, All-append, Bool-cases,
  inl, inr,
}
use cloudetcd.Batch.{PendingTxn, TxnBatch, can_batch_with, add}
use cloudetcd.Batch.Mates.{AreMates, add-AreMates}
use cloudetcd.Batch.Serial.{History}
use cloudetcd.Batching.{
  Batching, new_batching, new_txn_batch, enqueue, close, take_batch, take_from, Flushed, Round,
  flush_batch, flush_round,
}
use cloudetcd.Batching.Runs.{Reach, started, added, closed, flushed}

-- A batch that waits: not flushed, and its members may stand in one batch.
abbrev pub IsReady : TxnBatch → Type 0
IsReady batch = (batch.flushed ≡ false) × AreMates batch.pending_batch

abbrev pub OpenIsReady : Option TxnBatch → Type 0
OpenIsReady none = Unit
OpenIsReady (some batch) = IsReady batch

pub record IsTidy (b : Batching) : Type 0 where
  pub queue : All IsReady b.flush_queue
  pub opened : OpenIsReady b.open_batch

open_lem :
    (b : Batching) {batch : TxnBatch}
    → b.open_batch ≡ some batch
    → OpenIsReady b.open_batch
    → IsReady batch
open_lem b e h = rw e at h

enqueue-IsTidy : (b : Batching) (txn : PendingTxn) → IsTidy b → IsTidy (enqueue b txn)
unfolding enqueue new_txn_batch add
enqueue-IsTidy b txn t = by_open b.open_batch refl
  where
    by_open : (o : Option TxnBatch) → b.open_batch ≡ o → IsTidy (enqueue b txn)
    by_open none e = rw (e, enqueue) (record { queue = t.queue; opened = (refl, (tt, tt)) })
    by_open (some batch) e =
        let ready : IsReady batch = open_lem b e t.opened in
        elim (Bool-cases (can_batch_with batch txn.meta)) [
          | inl fits ↦
              rw (e, enqueue)
                (rw fits (record {
                  queue = t.queue;
                  opened = (ready.0, add-AreMates batch txn ready.1 fits);
                }))
          | inr clash ↦
              rw (e, enqueue)
                (rw clash (record {
                  queue = All-append IsReady b.flush_queue (batch ∷ []) t.queue (ready, tt);
                  opened = (refl, (tt, tt));
                }))
        ]

take_from-IsTidy :
    (q : List TxnBatch) (o : Option TxnBatch) (b : Batching)
    → All IsReady q
    → OpenIsReady o
    → IsTidy b
    → IsTidy (take_from q o b).1
unfolding take_from
take_from-IsTidy [] none b hq ho t = t
take_from-IsTidy [] (some batch) b hq ho t = record { queue = t.queue; opened = tt }
take_from-IsTidy (batch ∷ queue) o b hq ho t = record { queue = hq.1; opened = t.opened }

flush_round-IsTidy :
    (flush_func : ℕ → List PendingTxn → Bool) (b : Batching) (batch : TxnBatch) (f : Flushed)
    → flush_round flush_func b ≡ Round.flushes batch f
    → IsTidy b
    → IsTidy f.state
unfolding flush_round flush_batch take_batch
flush_round-IsTidy flush_func b batch f e t =
    let tidy = take_from-IsTidy b.flush_queue b.open_batch b t.queue t.opened t in
    let taken = (take_from b.flush_queue b.open_batch b).1 in
    let same_queue : f.state.flush_queue ≡ taken.flush_queue = ground arith in
    let same_open : f.state.open_batch ≡ taken.open_batch = ground arith in
    record { queue = rw same_queue tidy.queue; opened = rw same_open tidy.opened }

-- In every reachable state no waiting batch has been flushed yet, and in each one every
-- transaction may be batched with every later one.
pub Reach-IsTidy :
    (flush_func : ℕ → List PendingTxn → Bool) (first : ℕ) {b : Batching} {h : History}
    → Reach flush_func first b h
    → IsTidy b
unfolding new_batching close
Reach-IsTidy flush_func first started = record { queue = tt; opened = tt }
Reach-IsTidy flush_func first (added {b} txn r) =
    enqueue-IsTidy b txn (Reach-IsTidy flush_func first r)
Reach-IsTidy flush_func first (closed {b} r) =
    let t = Reach-IsTidy flush_func first r in record { queue = t.queue; opened = t.opened }
Reach-IsTidy flush_func first (flushed {b} {h} {batch} {f} r e) =
    flush_round-IsTidy flush_func b batch f e (Reach-IsTidy flush_func first r)
