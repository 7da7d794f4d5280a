-- ===== src/Memory/Commit/ReadOnly.antt =====
-- Transactions of pkg/storage/memorystorage/memory.go that only read.
use cloudetcd.Base.{ℕ, ◌≡◌, refl, Bytes, Option, some, [], Option-cases, inl, inr}
use cloudetcd.Outcome.{Error, Outcome, ok, err, fatal}
use cloudetcd.Request.{TxnRequest, TxnResponse}
use cloudetcd.Storage.{Txn}
use cloudetcd.Storage.Evaluate.{evaluate}
use cloudetcd.Storage.Evaluate.ReadOnly.{IsReadOnly, evaluate-log_events}
use cloudetcd.Memory.{Log, MemoryStorage, apply_up_to, env_of}
use cloudetcd.Memory.Commit.{
  World, apply, commit, commit_evaluated, evaluate_applied, try_txn, retry, attempts, txn,
}

-- An outcome of an attempt that was not rejected.
abbrev pub answered : Outcome TxnResponse → Outcome (Option TxnResponse)
answered (ok resp) = ok (some resp)
answered (err e) = err e
answered fatal = fatal

module _ {L : Type 0} (decode_ttl : Bytes → Option ℕ) (now : ℕ) (log : Log L) where
  -- An attempt that leaves the log alone and is not rejected.
  Answers : World L → World L × Outcome (Option TxnResponse) → Type 0
  Answers w r =
      (s : MemoryStorage) × (o : Outcome TxnResponse) × (r ≡ (record w { storage = s }, answered o))

  commit_evaluated-Answers :
      (w : World L) (s : MemoryStorage) (o : Outcome (TxnResponse × Txn))
      → ((resp : TxnResponse) (t : Txn) → o ≡ ok (resp, t) → t.log_events ≡ [])
      → Answers w (commit_evaluated decode_ttl now log (record w { storage = s }) o)
  unfolding Answers commit commit_evaluated
  commit_evaluated-Answers w s (ok (resp, t)) h =
      let nothing = h resp t refl in (s, ok resp, rw (nothing, commit) refl)
  commit_evaluated-Answers w s (err e) h = (s, err e, refl)
  commit_evaluated-Answers w s fatal h = (s, fatal, refl)

  evaluate_applied-Answers :
      (w : World L) (req : TxnRequest) (snapshot : ℕ) (s : MemoryStorage) (o : Outcome (Unit {0}))
      → IsReadOnly req
      → Answers w (evaluate_applied decode_ttl now log req snapshot (record w { storage = s }, o))
  unfolding Answers evaluate_applied
  evaluate_applied-Answers w req snapshot s (ok u) h =
      let env = env_of (log.get_log_entry w.log_state) s in
      commit_evaluated-Answers w s (evaluate env req snapshot)
        (λ resp t e. evaluate-log_events env req snapshot resp t h e)
  evaluate_applied-Answers w req snapshot s (err e) h = (s, err e, refl)
  evaluate_applied-Answers w req snapshot s fatal h = (s, fatal, refl)

  try_txn-Answers :
      (w : World L) (req : TxnRequest)
      → IsReadOnly req
      → Answers w (try_txn decode_ttl now log w req)
  unfolding try_txn apply
  try_txn-Answers w req h = elim (Option-cases (log.get_current_revision w.log_state)) [
    | inl absent ↦ rw (absent, try_txn) (unfold Answers in (w.storage, err Error.log_failed, refl))
    | inr (snapshot, is) ↦
        let applied =
          apply_up_to decode_ttl now (log.get_log_entry w.log_state) snapshot w.storage in
        rw (is, try_txn) (evaluate_applied-Answers w req snapshot applied.0 applied.1 h)
  ]

  -- A transaction that only reads is never rejected: Txn answers what its first attempt answers,
  -- a response or an error, and leaves the state that the attempt leaves, with the log as it was.
  pub txn-IsReadOnly :
      (w : World L) (req : TxnRequest)
      → IsReadOnly req
      → (o : Outcome TxnResponse) × ((try_txn decode_ttl now log w req).1 ≡ answered o)
        × (txn decode_ttl now log w req ≡ ((try_txn decode_ttl now log w req).0, o))
        × ((txn decode_ttl now log w req).0.log_state ≡ w.log_state)
  unfolding txn attempts retry Answers
  txn-IsReadOnly w req h =
      let (s, o, e) = try_txn-Answers w req h in rw (e, txn, attempts) (by_outcome s o)
    where
      first : MemoryStorage → Outcome TxnResponse → World L × Outcome (Option TxnResponse)
      first s o = (record w { storage = s }, answered o)

      by_outcome :
          (s : MemoryStorage) (o : Outcome TxnResponse)
          → (o' : Outcome TxnResponse) × ((first s o).1 ≡ answered o')
            × (retry decode_ttl now log (attempts decode_ttl now log 63 req) (first s o)
                ≡ ((first s o).0, o'))
            × ((retry decode_ttl now log
                  (attempts decode_ttl now log 63 req)
                  (first s o)).0.log_state
                ≡ w.log_state)
      by_outcome s (ok resp) = (ok resp, refl, refl, refl)
      by_outcome s (err x) = (err x, refl, refl, refl)
      by_outcome s fatal = (fatal, refl, refl, refl)
