-- ===== src/Batch.antt =====
-- pkg/persistence/batch/batch.go: a batch of transactions, their validation and their revisions.
-- A result channel is a number; `committed` is the map committedWrites that Batching owns.
mod Loop
pub mod Validate
pub mod Serial
pub mod Mates
pub mod Replies
pub mod RangeRead
use cloudetcd.Base.{
  ℕ, suc, Bytes, Bool, true, false, List, [], ◌∷◌, ◌++◌, Option, none, some, lookup, insert,
  bytes_eq, ◌||◌, ltb, nat_beq, is_empty, if◌then◌else◌,
}
use cloudetcd.Event.{KeyValue, EventType, Event, LogRecord}
use cloudetcd.TxnMeta.{TxnMeta, writes}

pub record PendingTxn : Type 0 where
  pub log_record : LogRecord
  pub meta : TxnMeta
  pub result_chan : ℕ

pub record TxnBatch : Type 0 where
  pub flushed : Bool
  pub pending_batch : List PendingTxn

abbrev pub Committed : Type 0
Committed = List (Bytes × ℕ)

-- `committedWrites[key]`, 0 where the key is missing.
unfoldable pub written_at : Committed → Bytes → ℕ
written_at committed key = elim (lookup key committed) [ none ↦ 0 | some r ↦ r ]

-- The loop over the keys that `existing` writes.
unfoldable pub no_write_conflict : List (Bytes × Bool) → TxnMeta → Bool
no_write_conflict [] other = true
no_write_conflict ((key, _) ∷ keys) other =
    let rest = no_write_conflict keys other in if writes other key then false else rest

-- The loop over the keys that the other transaction reads.
unfoldable pub no_read_conflict : TxnMeta → List (Bytes × ℕ) → Bool
no_read_conflict existing [] = true
no_read_conflict existing ((key, _) ∷ keys) =
    let rest = no_read_conflict existing keys in if writes existing key then false else rest

unfoldable pub can_batch_together : TxnMeta → TxnMeta → Bool
can_batch_together existing other =
    if no_write_conflict existing.write_set other
    then no_read_conflict existing other.read_set
    else false

-- The loop of CanBatchWith over the pending transactions.
unfoldable pub all_batch_with : List PendingTxn → TxnMeta → Bool
all_batch_with [] meta = true
all_batch_with (txn ∷ txns) meta =
    let rest = all_batch_with txns meta in if can_batch_together txn.meta meta then rest else false

unfoldable pub can_batch_with : TxnBatch → TxnMeta → Bool
can_batch_with b meta = all_batch_with b.pending_batch meta

unfoldable pub add : TxnBatch → PendingTxn → TxnBatch
add b txn = record b { pending_batch = b.pending_batch ++ txn ∷ [] }

unfoldable pub reads_valid : List (Bytes × ℕ) → Committed → Bool
reads_valid [] committed = true
reads_valid ((key, read_revision) ∷ reads) committed =
    let rest = reads_valid reads committed in
    if ltb read_revision (written_at committed key) then false else rest

unfoldable pub writes_valid : List (Bytes × Bool) → ℕ → Committed → Bool
writes_valid [] snapshot committed = true
writes_valid ((key, _) ∷ keys) snapshot committed =
    let rest = writes_valid keys snapshot committed in
    if ltb snapshot (written_at committed key) then false else rest

unfoldable pub validate_txn : TxnMeta → ℕ → Committed → Bool
validate_txn meta last committed =
    if meta.has_range_read
    then nat_beq meta.snapshot_revision last
    else if reads_valid meta.read_set committed
    then writes_valid meta.write_set meta.snapshot_revision committed
    else false

unfoldable pub restamp_kv : KeyValue → ℕ → KeyValue
restamp_kv kv revision = record kv {
  create_revision =
      if nat_beq kv.create_revision kv.mod_revision then revision else kv.create_revision;
  mod_revision = revision;
}

-- The switch on the event's type.
unfoldable pub restamp_as : EventType → Event → ℕ → Event
unfolding restamp_kv
restamp_as EventType.put event revision = record event { kv = restamp_kv event.kv revision }
restamp_as EventType.delete event revision = record event {
  kv = record event.kv { mod_revision = revision };
}
restamp_as (EventType.other _) event revision = event

unfoldable pub restamp : ℕ → List Event → List Event
unfolding restamp_kv restamp_as
restamp revision [] = []
restamp revision (event ∷ events) = restamp_as event.kind event revision ∷ restamp revision events

-- `committedWrites[key] = revision` for each key of the write set.
unfoldable pub record_writes : List (Bytes × Bool) → ℕ → Committed → Committed
record_writes [] revision committed = committed
record_writes ((key, _) ∷ keys) revision committed =
    record_writes keys revision (insert key revision committed)

-- What the loop of `prepare` has built: the committed transactions, restamped, and the channels.
pub record Prepared : Type 0 where
  pub transactions : List PendingTxn
  pub accepted : List ℕ
  pub rejected : List ℕ
  pub committed : Committed

unfoldable pub stamp_txn : ℕ → PendingTxn → PendingTxn
unfolding restamp
stamp_txn revision txn = record txn {
  log_record = record { events = restamp revision txn.log_record.events };
}

-- The loop of `prepare`, for the transactions that are left, after `revision`.
unfoldable pub prepare_loop : ℕ → ℕ → Committed → List PendingTxn → Prepared
prepare_loop last revision committed [] = record {
  transactions = [];
  accepted = [];
  rejected = [];
  committed = committed;
}
prepare_loop last revision committed (txn ∷ txns) = elim (validate_txn txn.meta last committed) [
  | false ↦
      let r = prepare_loop last revision committed txns in
      record r { rejected = txn.result_chan ∷ r.rejected }
  | true ↦
      let r =
        prepare_loop last (suc revision) (record_writes txn.meta.write_set (suc revision) committed)
          txns in
      record r {
        transactions = stamp_txn (suc revision) txn ∷ r.transactions;
        accepted = txn.result_chan ∷ r.accepted;
      }
]

pub record PrepareResult : Type 0 where
  pub batch : TxnBatch
  pub commit : Option (List PendingTxn)
  pub accepted : List ℕ
  pub rejected : List ℕ
  pub committed : Committed

unfoldable pub prepare : TxnBatch → ℕ → Committed → PrepareResult
prepare b last committed =
    if b.flushed || is_empty b.pending_batch
    then record { batch = b; commit = none; accepted = []; rejected = []; committed = committed }
    else (let r = prepare_loop last last committed b.pending_batch in
        record {
          batch = record b { flushed = true };
          commit = if is_empty r.transactions then none else some r.transactions;
          accepted = r.accepted;
          rejected = r.rejected;
          committed = r.committed;
        })
