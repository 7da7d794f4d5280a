-- ===== src/Memory.antt =====
-- pkg/storage/memorystorage/memory.go: the state of the storage, and how log records reach it. The
-- log is the interface persistence.Log, a record of operations on a state of its own; `decode_ttl`
-- and `now` are those of the lease table.
pub mod History
pub mod Reflects
pub mod Replay
pub mod Commit
pub mod Compaction
pub mod Leases
use cloudetcd.Base.{
  ℕ, zero, suc, ◌+◌, ◌-◌, Bytes, Bool, true, false, not, List, [], ◌∷◌, ◌++◌, Option, none, some,
  leb, ltb, nat_beq, if◌then◌else◌,
}
use cloudetcd.Event.{EventType, Event, LogRecord}
use cloudetcd.TxnMeta.{TxnMeta}
use cloudetcd.Index.{Index, empty_index, add}
use cloudetcd.Lease.{LeaseManager, new_lease_manager, on_log_event, has_lease}
use cloudetcd.Outcome.{Error, Outcome, ok, err, fatal, ◌>>=◌, ◌>>◌}
use cloudetcd.Storage.{Fetch, found, missing, failed, Env}

-- What Append returns: a revision, the rejection by the batching layer, or an error.
pub data AppendResult : Type 0 where
  appended : ℕ → AppendResult
  rejected : AppendResult
  append_failed : AppendResult

-- persistence.Log. The state that `append` leaves may hold records of other writers too.
pub record Log (L : Type 0) : Type 0 where
  pub get_log_entry : L → ℕ → Fetch
  pub get_current_revision : L → Option ℕ
  pub append : L → LogRecord → TxnMeta → AppendResult × L
  pub read : L → Option (List (ℕ × LogRecord))

-- A watcher, as far as Compact reads it.
pub record WatcherView : Type 0 where
  pub delivered : ℕ
  pub closed : Bool

pub record MemoryStorage : Type 0 where
  pub revisions : Index
  pub compacted : ℕ
  pub applied : ℕ
  pub lease_manager : LeaseManager
  pub watchers : List WatcherView

unfoldable pub new_memory_storage : MemoryStorage
new_memory_storage = record {
  revisions = empty_index;
  compacted = 0;
  applied = 0;
  lease_manager = new_lease_manager;
  watchers = [];
}

-- The end of a round of applyUpTo; what was applied stays applied when an error is returned.
pub after_record : MemoryStorage → ℕ → Outcome MemoryStorage → MemoryStorage × Outcome (Unit {0})
after_record s r (ok s') = (record s' { applied = r }, ok tt)
after_record s r (err e) = (s, err e)
after_record s r fatal = (s, fatal)

-- A step, then the rest unless the step failed.
pub go_on :
    (MemoryStorage → MemoryStorage × Outcome (Unit {0}))
    → MemoryStorage × Outcome (Unit {0})
    → MemoryStorage × Outcome (Unit {0})
go_on rest (s, ok _) = rest s
go_on rest (s, err e) = (s, err e)
go_on rest (s, fatal) = (s, fatal)

module _ (decode_ttl : Bytes → Option ℕ) (now : ℕ) where
  -- The switch on the event's type, then OnLogEvent.
  unfoldable pub apply_event : ℕ → Event → MemoryStorage → Outcome MemoryStorage
  apply_event r event s =
      let key = event.kv.key in
      let put_at = add s.revisions key r false in
      let delete_at = add s.revisions key r true in
      elim event.kind [
        | EventType.put ↦ do
          leases ← on_log_event decode_ttl now event s.lease_manager
          ok (record s { revisions = put_at; lease_manager = leases })
        | EventType.delete ↦ do
          leases ← on_log_event decode_ttl now event s.lease_manager
          ok (record s { revisions = delete_at; lease_manager = leases })
        | EventType.other _ ↦ fatal
      ]

  -- The loop over the events of one record.
  unfoldable pub apply_events : ℕ → List Event → MemoryStorage → Outcome MemoryStorage
  apply_events r [] s = ok s
  apply_events r (event ∷ events) s = do s' ← apply_event r event s; apply_events r events s'

  pub apply_one : (ℕ → Fetch) → MemoryStorage → MemoryStorage × Outcome (Unit {0})
  unfolding after_record
  apply_one fetch s = elim (fetch (suc s.applied)) [
    | failed ↦ (s, err Error.log_failed)
    | missing ↦ (s, err Error.entry_not_found)
    | found log_entry ↦
        after_record s (suc s.applied) (apply_events (suc s.applied) log_entry.events s)
  ]

  -- The loop of applyUpTo, for the rounds left.
  unfoldable pub apply_loop : ℕ → (ℕ → Fetch) → MemoryStorage → MemoryStorage × Outcome (Unit {0})
  unfolding apply_one go_on
  apply_loop zero fetch s = (s, ok tt)
  apply_loop (suc n) fetch s = go_on (apply_loop n fetch) (apply_one fetch s)

  unfoldable pub apply_up_to : (ℕ → Fetch) → ℕ → MemoryStorage → MemoryStorage × Outcome (Unit {0})
  apply_up_to fetch rev s =
      if leb rev s.applied then (s, ok tt) else apply_loop (rev - s.applied) fetch s

  -- The callback of ReplayLog over the records that Read gives.
  unfoldable pub replay_records : List (ℕ × LogRecord) → MemoryStorage → Outcome MemoryStorage
  replay_records [] s = ok s
  replay_records ((revision, log_entry) ∷ records) s = do
    s' ← apply_events revision log_entry.events s
    replay_records records s'

-- What a transaction reads of the storage.
unfoldable pub env_of : (ℕ → Fetch) → MemoryStorage → Env
env_of fetch s = record {
  index = s.revisions;
  compacted = s.compacted;
  has_lease = has_lease s.lease_manager;
  get_log_entry = fetch;
}
