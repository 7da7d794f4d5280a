-- ===== src/Memory/Commit/Current.antt =====
-- Txn of pkg/storage/memorystorage/memory.go keeps the index in step with the log.
use cloudetcd.Base.{
  ℕ, zero, suc, ◌-◌, ◌≤◌, ◌<◌, ◌≡◌, refl, ◌∙◌, Bytes, Option, none, some, arith, leb, is_empty,
  Bool-cases, Option-cases, inl, inr,
}
use cloudetcd.Event.{LogRecord}
use cloudetcd.TxnMeta.{TxnMeta}
use cloudetcd.Outcome.{Outcome, ok, err, fatal}
use cloudetcd.Request.{TxnRequest, TxnResponse}
use cloudetcd.Storage.{Fetch, found, missing, failed, Txn}
use cloudetcd.Storage.Evaluate.{evaluate}
use cloudetcd.Memory.{
  AppendResult, appended, rejected, append_failed, Log, MemoryStorage, apply_events, apply_one,
  after_record, go_on, apply_loop, apply_up_to, env_of,
}
use cloudetcd.Memory.History.{history}
use cloudetcd.Memory.Reflects.{Reflects, apply_up_to-Reflects}
use cloudetcd.Memory.Commit.{
  World, apply, finish, after_append, commit, commit_evaluated, evaluate_applied, try_txn, retry,
  attempts, txn,
}

-- The records up to `n` are there.
abbrev pub AreThere : (ℕ → Fetch) → ℕ → Type 0
AreThere fetch n = (r : ℕ) → 0 < r → r ≤ n → (log_entry : LogRecord) × (fetch r ≡ found log_entry)

-- The index is that of the records up to the applied one, and these are there.
pub record IsCurrent (fetch : ℕ → Fetch) (s : MemoryStorage) : Type 0 where
  pub reflects : Reflects fetch s
  pub there : AreThere fetch s.applied

-- What one position of the log has another has too.
abbrev pub Extends : (ℕ → Fetch) → (ℕ → Fetch) → Type 0
Extends fetch fetch' =
    (r : ℕ) (log_entry : LogRecord) → fetch r ≡ found log_entry → fetch' r ≡ found log_entry

history-Extends :
    (fetch fetch' : ℕ → Fetch) (key : Bytes) (n : ℕ)
    → Extends fetch fetch'
    → AreThere fetch n
    → history fetch key n ≡ history fetch' key n
unfolding history
history-Extends fetch fetch' key zero ext there = refl
history-Extends fetch fetch' key (suc n) ext there =
    let (log_entry, is) = there (suc n) (omega arith) (omega arith) in
    let ih =
      history-Extends fetch fetch' key n ext (λ r pos le. there r pos (omega (arith, pos, le))) in
    rw (is, ext (suc n) log_entry is, ih)

IsCurrent-Extends :
    (fetch fetch' : ℕ → Fetch) (s : MemoryStorage)
    → Extends fetch fetch'
    → IsCurrent fetch s
    → IsCurrent fetch' s
IsCurrent-Extends fetch fetch' s ext c = record {
  reflects = record {
    sorted = c.reflects.sorted;
    revisions =
        λ key. c.reflects.revisions key ∙ history-Extends fetch fetch' key s.applied ext c.there;
  };
  there = λ r pos le. let (log_entry, is) = c.there r pos le in (log_entry, ext r log_entry is);
}

AreThere-suc :
    (fetch : ℕ → Fetch) (n : ℕ) (log_entry : LogRecord)
    → fetch (suc n) ≡ found log_entry
    → AreThere fetch n
    → AreThere fetch (suc n)
AreThere-suc fetch n log_entry is there r pos le = elim (Bool-cases (leb r n)) [
  | inl below ↦ there r pos (ground arith)
  | inr above ↦ let same : suc n ≡ r = ground (arith, le) in (log_entry, rw same at is)
]

module _ (decode_ttl : Bytes → Option ℕ) (now : ℕ) where
  apply_one-AreThere :
      (fetch : ℕ → Fetch) (s : MemoryStorage)
      → AreThere fetch s.applied
      → AreThere fetch (apply_one decode_ttl now fetch s).0.applied
  unfolding apply_one after_record
  apply_one-AreThere fetch s there = by_fetch (fetch (suc s.applied)) refl
    where
      by_fetch :
          (f : Fetch)
          → fetch (suc s.applied) ≡ f
          → AreThere fetch (apply_one decode_ttl now fetch s).0.applied
      by_fetch failed is = rw (is, apply_one) there
      by_fetch missing is = rw (is, apply_one) there
      by_fetch (found log_entry) is =
          rw (is, apply_one)
            (by_outcome (apply_events decode_ttl now (suc s.applied) log_entry.events s))
        where
          by_outcome :
              (o : Outcome MemoryStorage)
              → AreThere fetch (after_record s (suc s.applied) o).0.applied
          by_outcome (ok s') = AreThere-suc fetch s.applied log_entry is there
          by_outcome (err e) = there
          by_outcome fatal = there

  apply_loop-AreThere :
      (n : ℕ) (fetch : ℕ → Fetch) (s : MemoryStorage)
      → AreThere fetch s.applied
      → AreThere fetch (apply_loop decode_ttl now n fetch s).0.applied
  unfolding apply_loop go_on
  apply_loop-AreThere zero fetch s there = there
  apply_loop-AreThere (suc n) fetch s there =
      by_step (apply_one decode_ttl now fetch s) (apply_one-AreThere fetch s there)
        (λ s'. apply_loop-AreThere n fetch s')
    where
      by_step :
          (step : MemoryStorage × Outcome (Unit {0}))
          → AreThere fetch step.0.applied
          → ((s' : MemoryStorage)
              → AreThere fetch s'.applied
              → AreThere fetch (apply_loop decode_ttl now n fetch s').0.applied)
          → AreThere fetch (go_on (apply_loop decode_ttl now n fetch) step).0.applied
      by_step (s', ok u) there' rest = rest s' there'
      by_step (s', err e) there' rest = there'
      by_step (s', fatal) there' rest = there'

  apply_up_to-IsCurrent :
      (fetch : ℕ → Fetch) (rev : ℕ) (s : MemoryStorage)
      → IsCurrent fetch s
      → IsCurrent fetch (apply_up_to decode_ttl now fetch rev s).0
  unfolding apply_up_to
  apply_up_to-IsCurrent fetch rev s c = record {
    reflects = (apply_up_to-Reflects decode_ttl now fetch rev s c.reflects).0;
    there = elim (Bool-cases (leb rev s.applied)) [
      | inl done ↦ rw (done, apply_up_to) c.there
      | inr behind ↦
          rw (behind, apply_up_to) (apply_loop-AreThere (rev - s.applied) fetch s c.there)
    ];
  }

-- Append takes no record away: what was at a position of the log stays there.
abbrev pub Keeps : {L : Type 0} → Log L → Type 0
Keeps {L} log =
    (l : L) (r : LogRecord) (meta : TxnMeta)
    → Extends (log.get_log_entry l) (log.get_log_entry (log.append l r meta).1)

module _ {L : Type 0} (decode_ttl : Bytes → Option ℕ) (now : ℕ) (log : Log L)
    (keeps : Keeps log) where
  abbrev Holds : World L → Type 0
  Holds w = IsCurrent (log.get_log_entry w.log_state) w.storage

  apply-Holds : (w : World L) (rev : ℕ) → Holds w → Holds (apply decode_ttl now log w rev).0
  unfolding apply
  apply-Holds w rev h =
      apply_up_to-IsCurrent decode_ttl now (log.get_log_entry w.log_state) rev w.storage h

  finish-Holds :
      (revision : ℕ) (resp : TxnResponse) (r : World L × Outcome (Unit {0}))
      → Holds r.0
      → Holds (finish decode_ttl now log revision resp r).0
  unfolding finish
  finish-Holds revision resp (w, ok u) h = h
  finish-Holds revision resp (w, err e) h = h
  finish-Holds revision resp (w, fatal) h = h

  after_append-Holds :
      (w : World L) (resp : TxnResponse) (a : AppendResult × L)
      → Holds (record w { log_state = a.1 })
      → Holds (after_append decode_ttl now log w resp a).0
  unfolding after_append
  after_append-Holds w resp (append_failed, l) h = h
  after_append-Holds w resp (rejected, l) h = h
  after_append-Holds w resp (appended revision, l) h =
      let w' : World L = record w { log_state = l } in
      finish-Holds revision resp (apply decode_ttl now log w' revision) (apply-Holds w' revision h)

  commit-Holds :
      (w : World L) (t : Txn) (resp : TxnResponse)
      → Holds w
      → Holds (commit decode_ttl now log w t resp).0
  unfolding commit
  commit-Holds w t resp h = elim (Bool-cases (is_empty t.log_events)) [
    | inl none_staged ↦ rw (none_staged, commit) h
    | inr staged ↦
        let r : LogRecord = record { events = t.log_events } in
        let after = log.append w.log_state r t.meta in
        rw (staged, commit)
          (after_append-Holds w resp after (
            IsCurrent-Extends (log.get_log_entry w.log_state) (log.get_log_entry after.1) w.storage
              (keeps w.log_state r t.meta) h))
  ]

  evaluate_applied-Holds :
      (req : TxnRequest) (snapshot : ℕ) (r : World L × Outcome (Unit {0}))
      → Holds r.0
      → Holds (evaluate_applied decode_ttl now log req snapshot r).0
  unfolding evaluate_applied commit_evaluated
  evaluate_applied-Holds req snapshot (w, ok u) h =
      by_outcome (evaluate (env_of (log.get_log_entry w.log_state) w.storage) req snapshot)
    where
      by_outcome :
          (o : Outcome (TxnResponse × Txn)) → Holds (commit_evaluated decode_ttl now log w o).0
      by_outcome (ok (resp, t)) = commit-Holds w t resp h
      by_outcome (err e) = h
      by_outcome fatal = h
  evaluate_applied-Holds req snapshot (w, err e) h = h
  evaluate_applied-Holds req snapshot (w, fatal) h = h

  try_txn-Holds :
      (w : World L) (req : TxnRequest) → Holds w → Holds (try_txn decode_ttl now log w req).0
  unfolding try_txn
  try_txn-Holds w req h = elim (Option-cases (log.get_current_revision w.log_state)) [
    | inl absent ↦ rw (absent, try_txn) h
    | inr (snapshot, is) ↦
        rw (is, try_txn)
          (evaluate_applied-Holds req snapshot (apply decode_ttl now log w snapshot)
            (apply-Holds w snapshot h))
  ]

  attempts-Holds :
      (n : ℕ) (req : TxnRequest) (w : World L)
      → Holds w
      → Holds (attempts decode_ttl now log n req w).0
  unfolding attempts retry
  attempts-Holds zero req w h = h
  attempts-Holds (suc n) req w h =
      by_attempt (try_txn decode_ttl now log w req) (try_txn-Holds w req h)
        (λ w'. attempts-Holds n req w')
    where
      by_attempt :
          (r : World L × Outcome (Option TxnResponse))
          → Holds r.0
          → ((w' : World L) → Holds w' → Holds (attempts decode_ttl now log n req w').0)
          → Holds (retry decode_ttl now log (attempts decode_ttl now log n req) r).0
      by_attempt (w', ok none) h' rest = rest w' h'
      by_attempt (w', ok (some resp)) h' rest = h'
      by_attempt (w', err e) h' rest = h'
      by_attempt (w', fatal) h' rest = h'

  -- Over a log whose Append takes no record away, and whatever other writers append meanwhile, Txn
  -- keeps the index that of the log: through all its attempts, its appends and its errors, each key
  -- has exactly the revisions of the records up to the applied one.
  pub txn-IsCurrent :
      (w : World L) (req : TxnRequest)
      → IsCurrent (log.get_log_entry w.log_state) w.storage
      → IsCurrent
          (log.get_log_entry (txn decode_ttl now log w req).0.log_state)
          (txn decode_ttl now log w req).0.storage
  unfolding txn
  txn-IsCurrent w req h = attempts-Holds 64 req w h
