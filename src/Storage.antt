-- ===== src/Storage.antt =====
-- pkg/storage/memorystorage/memory.go: the operations of a transaction at a snapshot. The index,
-- the compacted revision, the lease table and the log are read; only the transaction changes.
pub mod Listing
pub mod Evaluate
use cloudetcd.Base.{
  ℕ, suc, ◌+◌, Bytes, Bool, true, false, ◌&&◌, List, [], ◌∷◌, ◌++◌, Option, none, some, ltb, leb,
  nat_beq, bytes_equal, bytes_less, has_prefix, if◌then◌else◌, is_empty,
}
use cloudetcd.Event.{KeyValue, EventType, Event, LogRecord}
use cloudetcd.TxnMeta.{TxnMeta, add_write}
use cloudetcd.Index.{Index, get_latest, list_range}
use cloudetcd.Outcome.{Error, Outcome, ok, err, fatal, ◌>>=◌, ◌>>◌}
use cloudetcd.Request.{
  PutRequest, DeleteRangeRequest, RangeRequest, PutResponse, DeleteRangeResponse, RangeResponse,
}

-- What GetLogEntry of the log returns: a record, nil with no error, or an error.
pub data Fetch : Type 0 where
  found : LogRecord → Fetch
  missing : Fetch
  failed : Fetch

-- What a transaction reads of the storage.
pub record Env : Type 0 where
  pub index : Index
  pub compacted : ℕ
  pub has_lease : ℕ → Bool
  pub get_log_entry : ℕ → Fetch

pub record Txn : Type 0 where
  pub snapshot_timestamp : ℕ
  pub log_events : List Event
  pub meta : TxnMeta

-- storage.InternalPrefix: "\x00cloudetcd/".
abbrev pub internal_prefix : Bytes
internal_prefix = 0 ∷ b'c' ∷ b'l' ∷ b'o' ∷ b'u' ∷ b'd' ∷ b'e' ∷ b't' ∷ b'c' ∷ b'd' ∷ b'/' ∷ []

-- pkg/storage/keys.go.
unfoldable pub is_internal_key : Bytes → Bool
is_internal_key [] = false
is_internal_key (b ∷ key) = nat_beq b 0 && has_prefix (b ∷ key) internal_prefix

unfoldable pub find_event : List Event → Bytes → Option Event
find_event [] key = none
find_event (event ∷ events) key =
    if bytes_equal event.kv.key key then some event else find_event events key

-- The event of the key in a record that must be there, and must hold it.
unfoldable pub event_of : Fetch → Bytes → Outcome Event
event_of (found log_entry) key = elim (find_event log_entry.events key) [
  | none ↦ fatal
  | some event ↦ ok event
]
event_of missing key = fatal
event_of failed key = fatal

-- The previous event of a key, none if the index has no revision for it.
unfoldable pub prev_event : Env → Bytes → Option ℕ → Outcome (Option Event)
unfolding event_of
prev_event env key none = ok none
prev_event env key (some revision) = do
  event ← event_of (env.get_log_entry revision) key
  ok (some event)

-- The value that a put replaces: none behind a delete.
unfoldable pub live_kv : Option Event → Outcome (Option KeyValue)
live_kv none = ok none
live_kv (some event) = elim event.kind [
  | EventType.put ↦ ok (some event.kv)
  | EventType.delete ↦ ok none
  | EventType.other _ ↦ fatal
]

-- The KeyValue of a put at the snapshot, over the value that it replaces.
unfoldable pub put_kv : PutRequest → ℕ → Option KeyValue → KeyValue
put_kv req snapshot none = record {
  key = req.key;
  value = req.value;
  create_revision = suc snapshot;
  mod_revision = suc snapshot;
  version = 1;
  lease = req.lease;
}
put_kv req snapshot (some prev) = record {
  key = req.key;
  value = req.value;
  create_revision = prev.create_revision;
  mod_revision = suc snapshot;
  version = prev.version + 1;
  lease = req.lease;
}

-- Appends an event and notes the write of its key.
unfoldable pub stage : Txn → Event → Bytes → Txn
stage t event key = record t {
  log_events = t.log_events ++ event ∷ [];
  meta = add_write t.meta key;
}

-- txn.put.
unfoldable pub put : Env → Txn → PutRequest → Outcome (PutResponse × Txn)
put env t req =
    if (if nat_beq req.lease 0 then true else env.has_lease req.lease)
    then (do
      prev ← prev_event env req.key (get_latest env.index req.key t.snapshot_timestamp)
      prev_kv ← live_kv prev
      ok (
        record { header = none; prev_kv = if req.prev_kv then prev_kv else none },
        stage t
            (record {
              kind = EventType.put;
              kv = put_kv req t.snapshot_timestamp prev_kv;
              prev_kv = prev_kv;
            })
            req.key,
      ))
    else err Error.lease_not_found

unfoldable pub check_read_revision : ℕ → ℕ → ℕ → Outcome (Unit {0})
check_read_revision compacted requested current =
    if ltb requested compacted
    then err Error.compacted
    else if ltb current requested
    then err Error.future_rev
    else ok tt

-- The revision that a range request reads at.
unfoldable pub read_revision : Env → Txn → RangeRequest → Outcome ℕ
read_revision env t req =
    if ltb 0 req.revision
    then (do check_read_revision env.compacted req.revision t.snapshot_timestamp; ok req.revision)
    else ok t.snapshot_timestamp

unfoldable pub copy_without_value : KeyValue → KeyValue
copy_without_value kv = record kv { value = [] }

-- The end of txn.get, for the event of the key.
get_event : RangeRequest → RangeResponse → Event → Outcome RangeResponse
get_event req resp event = elim event.kind [
  | EventType.put ↦ ok (record resp {
    kvs = (if req.keys_only then copy_without_value event.kv else event.kv) ∷ [];
    count = 1;
    more = nat_beq req.limit 1;
  })
  | EventType.delete ↦ ok resp
  | EventType.other _ ↦ fatal
]

-- GetLogEntry in txn.get and txn.list, where an error is returned.
unfoldable pub fetch_or_err : Fetch → Outcome LogRecord
fetch_or_err (found log_entry) = ok log_entry
fetch_or_err missing = fatal
fetch_or_err failed = err Error.log_failed

get_at : Env → RangeRequest → Bytes → ℕ → Outcome RangeResponse
unfolding get_event
get_at env req key snapshot =
    let resp : RangeResponse = record {
      header = some snapshot;
      kvs = [];
      count = 0;
      more = false;
    } in
    elim (get_latest env.index key snapshot) [
      | none ↦ ok resp
      | some latest ↦ do
        log_entry ← fetch_or_err (env.get_log_entry latest)
        elim (find_event log_entry.events key) [
          | none ↦ fatal
          | some event ↦ get_event req resp event
        ]
    ]

get_key : Env → Txn → RangeRequest → Option Bytes → Outcome RangeResponse
unfolding get_at
get_key env t req none = err Error.key_required
get_key env t req (some key) = elim req.range_end [
  | some _ ↦ err Error.range_end_unsupported
  | none ↦ do
    snapshot ← read_revision env t req
    if req.count_only then err Error.count_only_unsupported else get_at env req key snapshot
]

-- txn.get.
unfoldable pub get : Env → Txn → RangeRequest → Outcome RangeResponse
unfolding get_key
get env t req = get_key env t req req.key

-- The end of txn.delete, for the previous event of the key.
delete_event : Txn → Bytes → Event → Outcome (DeleteRangeResponse × Txn)
delete_event t key old = elim old.kind [
  | EventType.put ↦ ok (
    record { header = none; deleted = 1 },
    stage t
        (record {
          kind = EventType.delete;
          kv = record {
            key = key;
            value = [];
            create_revision = 0;
            mod_revision = suc t.snapshot_timestamp;
            version = 0;
            lease = 0;
          };
          prev_kv = some old.kv;
        })
        key,
  )
  | _ ↦ fatal
]

-- txn.delete.
unfoldable pub delete : Env → Txn → DeleteRangeRequest → Outcome (DeleteRangeResponse × Txn)
unfolding delete_event
delete env t req = elim req.range_end [
  | some _ ↦ err Error.range_end_unsupported
  | none ↦ elim (get_latest env.index req.key t.snapshot_timestamp) [
    | none ↦ ok (record { header = some t.snapshot_timestamp; deleted = 0 }, t)
    | some latest ↦ do old ← event_of (env.get_log_entry latest) req.key; delete_event t req.key old
  ]
]
