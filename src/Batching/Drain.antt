-- ===== src/Batching/Drain.antt =====
-- Close of pkg/persistence/batch/batching.go: the flusher goes on until nothing is queued.
use cloudetcd.Base.{
  ℕ, zero, suc, ◌+◌, ◌<◌, ◌≡◌, refl, ◌∙◌, Bool, true, false, List, [], ◌∷◌, ◌++◌, Option, none,
  some, arith, All, length,
}
use cloudetcd.Batch.{PendingTxn, TxnBatch, prepare}
use cloudetcd.Batch.Replies.{count, chans, prepare_loop-count}
use cloudetcd.Batching.{
  Batching, close, take_batch, BatchResult, Flushed, Round, write_commit, flush_batch, flush_round,
  deliver_accepted, deliver_rejected,
}

-- The channels that a list of results answers.
abbrev pub answered : List (ℕ × BatchResult) → List ℕ
answered [] = []
answered ((chan, result) ∷ results) = chan ∷ answered results

-- The loop of doBackgroundFlush once nothing is added any more, on fuel: the results that it
-- sends before it returns, or none if it panics, waits or is out of fuel.
unfoldable pub drain :
    (ℕ → List PendingTxn → Bool) → ℕ → Batching → Option (Batching × List (ℕ × BatchResult))
drain flush_func zero b = none
drain flush_func (suc n) b = elim (flush_round flush_func b) [
  | Round.waits ↦ none
  | Round.panics ↦ none
  | Round.returns ↦ some (b, [])
  | Round.flushes batch f ↦ elim (drain flush_func n f.state) [
    | none ↦ none
    | some (b', results) ↦ some (b', f.results ++ results)
  ]
]

count-append :
    (chan : ℕ) (first second : List ℕ)
    → count chan (first ++ second) ≡ count chan first + count chan second
count-append chan [] second = omega arith
count-append chan (c ∷ first) second =
    let rest = count-append chan first second in omega (arith, rest)

answered-append :
    (xs ys : List (ℕ × BatchResult)) → answered (xs ++ ys) ≡ answered xs ++ answered ys
answered-append [] ys = refl
answered-append (x ∷ xs) ys = rw (answered-append xs ys)

answered-accepted : (r : ℕ) (cs : List ℕ) → answered (deliver_accepted r cs) ≡ cs
unfolding deliver_accepted
answered-accepted r [] = refl
answered-accepted r (c ∷ cs) = rw (answered-accepted (suc r) cs)

answered-rejected : (cs : List ℕ) → answered (deliver_rejected cs) ≡ cs
unfolding deliver_rejected
answered-rejected [] = refl
answered-rejected (c ∷ cs) = rw (answered-rejected cs)

prepare-count :
    (batch : TxnBatch) (last : ℕ) (c : List (List ℕ × ℕ)) (a : ℕ)
    → batch.flushed ≡ false
    → count a (prepare batch last c).accepted + count a (prepare batch last c).rejected
      ≡ count a (chans batch.pending_batch)
unfolding prepare
prepare-count batch last c a fresh = by_list batch.pending_batch refl
  where
    by_list :
        (txns : List PendingTxn)
        → batch.pending_batch ≡ txns
        → count a (prepare batch last c).accepted + count a (prepare batch last c).rejected
          ≡ count a (chans batch.pending_batch)
    by_list [] e = rw (fresh, e) (omega arith)
    by_list (txn ∷ txns) e = rw (fresh, e) (prepare_loop-count last last c (txn ∷ txns) a)

module _ (flush_func : ℕ → List PendingTxn → Bool) where
  abbrev pub Succeeds : Type 0
  Succeeds = (start : ℕ) (txns : List PendingTxn) → flush_func start txns ≡ true

  write_commit_total :
      Succeeds
      → (start : ℕ) (c : Option (List PendingTxn))
      → (txns : List PendingTxn) × (write_commit flush_func start c ≡ some txns)
  unfolding write_commit
  write_commit_total s start none = ([], refl)
  write_commit_total s start (some txns) = (txns, rw (s start txns))

  -- A flush leaves the queue alone and answers each transaction of the batch once.
  flush_batch_total :
      Succeeds
      → (b : Batching) (batch : TxnBatch) → batch.flushed ≡ false
      → (f : Flushed) × (flush_batch flush_func b batch ≡ some f)
        × (f.state.flush_queue ≡ b.flush_queue)
        × (f.state.open_batch ≡ b.open_batch)
        × (f.state.stop ≡ b.stop)
        × ((a : ℕ) → count a (answered f.results) ≡ count a (chans batch.pending_batch))
  flush_batch_total s b batch fresh =
      let p = prepare batch b.last_log_position b.committed_writes in
      let (txns, written) = write_commit_total s b.last_log_position p.commit in
      let f : Flushed = record {
        state = record b {
          last_log_position = b.last_log_position + length txns;
          committed_writes = p.committed;
        };
        committed = txns;
        results =
            deliver_accepted (suc b.last_log_position) p.accepted ++ deliver_rejected p.rejected;
      } in
      (
        f,
        unfold flush_batch in rw (written, flush_batch),
        refl,
        refl,
        refl,
        λ a.
            rw (answered-append, answered-accepted, answered-rejected, count-append)
              (prepare-count batch b.last_log_position b.committed_writes a fresh),
      )

-- The channels of the transactions that wait in the queue and in the open batch.
abbrev pub waiting : List TxnBatch → Option TxnBatch → List ℕ
waiting [] none = []
waiting [] (some batch) = chans batch.pending_batch
waiting (batch ∷ queue) open_batch = chans batch.pending_batch ++ waiting queue open_batch

abbrev pub open_count : Option TxnBatch → ℕ
open_count none = 0
open_count (some batch) = 1

abbrev pub OpenFresh : Option TxnBatch → Type 0
OpenFresh none = Unit
OpenFresh (some batch) = batch.flushed ≡ false

module _ (flush_func : ℕ → List PendingTxn → Bool) where
  -- One round, then the rest of the loop.
  drain_round :
      (n : ℕ) (b b' : Batching) (batch : TxnBatch) (f : Flushed) (results : List (ℕ × BatchResult))
      → flush_round flush_func b ≡ Round.flushes batch f
      → drain flush_func n f.state ≡ some (b', results)
      → drain flush_func (suc n) b ≡ some (b', f.results ++ results)
  unfolding drain
  drain_round n b b' batch f results e d = rw (e, drain) (rw (d, drain))

  drain_returns :
      (n : ℕ) (b : Batching)
      → flush_round flush_func b ≡ Round.returns
      → drain flush_func (suc n) b ≡ some (b, [])
  unfolding drain
  drain_returns n b e = rw (e, drain)

  -- What `drain` promises of a state with that queue and that open batch.
  abbrev pub Drains : ℕ → List TxnBatch → Option TxnBatch → Batching → Type 0
  Drains n queue open_batch b =
      (b' : Batching) × (results : List (ℕ × BatchResult)) × (drain flush_func n b
        ≡ some (b', results))
      × (b'.flush_queue ≡ [])
      × (b'.open_batch ≡ none)
      × ((a : ℕ) → count a (answered results) ≡ count a (waiting queue open_batch))

  drain_rest :
      (n : ℕ) (queue : List TxnBatch) (open_batch : Option TxnBatch) (b : Batching)
      (batch : TxnBatch) (f : Flushed) (all : List ℕ)
      → flush_round flush_func b ≡ Round.flushes batch f
      → ((a : ℕ) → count a (answered f.results) ≡ count a (chans batch.pending_batch))
      → ((a : ℕ)
          → count a all ≡ count a (chans batch.pending_batch) + count a (waiting queue open_batch))
      → Drains n queue open_batch f.state
      → (b' : Batching) × (results : List (ℕ × BatchResult)) × (drain flush_func (suc n) b
          ≡ some (b', results))
        × (b'.flush_queue ≡ [])
        × (b'.open_batch ≡ none)
        × ((a : ℕ) → count a (answered results) ≡ count a all)
  drain_rest n queue open_batch b batch f all e answers split (b', results, d, q, o, c) = (
    b',
    f.results ++ results,
    drain_round n b b' batch f results e d,
    q,
    o,
    λ a. rw (answered-append, count-append) (omega (arith, answers a, split a, c a)),
  )

  drain_total :
      (n : ℕ) (queue : List TxnBatch) (open_batch : Option TxnBatch) (b : Batching)
      → Succeeds flush_func
      → b.flush_queue ≡ queue
      → b.open_batch ≡ open_batch
      → b.stop ≡ true
      → length queue + open_count open_batch < n
      → All (λ batch. batch.flushed ≡ false) queue
      → OpenFresh open_batch
      → Drains n queue open_batch b
  unfolding flush_round take_batch
  drain_total zero queue open_batch b s q o st room fresh open_fresh = absurd (omega arith)
  drain_total (suc n) [] none b s q o st room fresh open_fresh =
      (b, [], drain_returns n b (ground arith), q, o, λ a. refl)
  drain_total (suc n) [] (some batch) b s q o st room fresh open_fresh =
      let taken : Batching = record b { open_batch = none } in
      let (f, flushed, fq, fo, fs, answers) =
        flush_batch_total flush_func s taken batch open_fresh in
      drain_rest n [] none b batch f (chans batch.pending_batch) (ground arith) answers
        (λ a. omega arith)
        (drain_total n [] none f.state s (fq ∙ q) fo (fs ∙ st) (omega arith) tt tt)
  drain_total (suc n) (batch ∷ queue) open_batch b s q o st room fresh open_fresh =
      let taken : Batching = record b { flush_queue = queue } in
      let (f, flushed, fq, fo, fs, answers) = flush_batch_total flush_func s taken batch fresh.0 in
      drain_rest n queue open_batch b batch f (waiting (batch ∷ queue) open_batch) (ground arith)
        answers (λ a. count-append a (chans batch.pending_batch) (waiting queue open_batch))
        (drain_total n queue open_batch f.state s fq (fo ∙ o) (fs ∙ st) (omega arith) fresh.1
          open_fresh)

  -- Once Close has set the stop flag, and if every flush succeeds, the flusher returns after one
  -- round more than there are batches; nothing is left queued, and each waiting transaction has
  -- been sent exactly one result.
  pub close-drain :
      (b : Batching)
      → Succeeds flush_func
      → All (λ batch. batch.flushed ≡ false) b.flush_queue
      → OpenFresh b.open_batch
      → Drains
          (suc (length b.flush_queue + open_count b.open_batch))
          b.flush_queue
          b.open_batch
          (close b)
  unfolding close
  close-drain b s fresh open_fresh =
      drain_total _ b.flush_queue b.open_batch (close b) s refl refl refl (omega arith) fresh
        open_fresh
