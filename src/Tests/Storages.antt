-- ===== src/Tests/Storages.antt =====
-- Runs of pkg/storage/memorystorage over a short log.
use cloudetcd.Base.{
  ◌≢◌, ◌⊎◌, nat_eq, leb, ltb, ◌&&◌, arith, nat_beq, ℕ, ◌≤◌, ◌≡◌, refl, Bytes, true, false, List, [],
  ◌∷◌, Option, none, some, All, ◌⊎◌, if◌then◌else◌, insert, bytes_equal, lookup, bytes_less,
  has_prefix, bytes_eq,
}
use cloudetcd.Event.{KeyValue, EventType, Event, LogRecord}
use cloudetcd.TxnMeta.{new_txn_meta, add_read, add_write}
use cloudetcd.Index.{
  Index, empty_index, add, add_revision, get_latest, latest_at, revisions_of, lookup_node, newest,
  common_prefix_len,
}
use cloudetcd.Index.Trim.{deleted_in}
use cloudetcd.Outcome.{ok}
use cloudetcd.Request.{
  CompareTarget, CompareResult, TargetUnion, RequestOp, TxnRequest, TxnResponse, ResponseOp,
}
use cloudetcd.Storage.{
  Fetch, found, missing, Env, Txn, put, get, stage, put_kv, prev_event, live_kv, event_of,
  find_event, is_internal_key, fetch_or_err, copy_without_value, read_revision, check_read_revision,
}
use cloudetcd.Storage.Evaluate.{
  evaluate, compares, run_ops, run_op, holds, compared_field, observed, note_read, new_txn,
}
use cloudetcd.Storage.Evaluate.Faithful.{IsFaithful}
use cloudetcd.Storage.Evaluate.Sets.{evaluate-IsFaithful}
use cloudetcd.Lease.{
  new_lease_manager, has_lease, on_log_event, on_key_event, prev_lease, parse_lease_key,
}
use cloudetcd.Memory.{
  MemoryStorage, new_memory_storage, apply_up_to, apply_loop, apply_events, apply_event,
  replay_records, env_of,
}
use cloudetcd.Index.Sorted.{IsSorted}
use cloudetcd.Memory.Reflects.{Extends, apply_up_to-Extends, apply_up_to-applied}
use cloudetcd.Memory.Compaction.{
  compact_storage, compact_point, through_watchers, compact_storage-bounds, compact_storage-reads,
}
use cloudetcd.Lease.Alike.{Alike-refl}
use cloudetcd.Memory.Replay.{Restored, replay_records-apply_loop}
use cloudetcd.Watch.{
  WatchResponse, Watcher, RangeType, send_up_to, collect, select_events, should_send, filter_events,
  without_prev_kv, in_range, get_watch_event,
}
use cloudetcd.Watch.Laws.{all_events, sent, send_up_to-sent}

abbrev key_a : Bytes
key_a = 97 ∷ []

abbrev key_b : Bytes
key_b = 98 ∷ []

abbrev put_at : Bytes → ℕ → KeyValue
put_at key revision = record {
  key = key;
  value = 1 ∷ [];
  create_revision = revision;
  mod_revision = revision;
  version = 1;
  lease = 0;
}

abbrev record_at : Bytes → ℕ → LogRecord
record_at key revision = record {
  events = record { kind = EventType.put; kv = put_at key revision; prev_kv = none } ∷ [];
}

-- The dummy record at 1, "a" put at 2 and "b" put at 3.
abbrev short_log : ℕ → Fetch
short_log revision =
    if nat_beq revision 1
    then found (record { events = [] })
    else if nat_beq revision 2
    then found (record_at key_a 2)
    else if nat_beq revision 3
    then found (record_at key_b 3)
    else missing

abbrev no_ttl : Bytes → Option ℕ
no_ttl value = none

abbrev two_keys : Index
two_keys = add (add empty_index key_a 2 false) key_b 3 false

abbrev applied_all : MemoryStorage
applied_all = record {
  revisions = two_keys;
  compacted = 0;
  applied = 3;
  lease_manager = new_lease_manager;
  watchers = record { delivered = 2; closed = false } ∷ [];
}

start-IsSorted : IsSorted 0 new_memory_storage.revisions.root
unfolding new_memory_storage empty_index
start-IsSorted = tt

apply_up_to-Extends_example :
    Extends short_log new_memory_storage (apply_up_to no_ttl 0 short_log 3 new_memory_storage).0
    × (((apply_up_to no_ttl 0 short_log 3 new_memory_storage).1 ≢ ok tt)
        ⊎ (3 ≤ (apply_up_to no_ttl 0 short_log 3 new_memory_storage).0.applied))
apply_up_to-Extends_example =
    apply_up_to-Extends no_ttl 0 short_log 3 new_memory_storage start-IsSorted

apply_up_to-applied_example :
    (apply_up_to no_ttl 0 short_log 3 new_memory_storage).0.applied
    ≡ (if leb 3 new_memory_storage.applied then new_memory_storage.applied else 3)
unfolding new_memory_storage empty_index add add_revision common_prefix_len apply_up_to apply_loop
    apply_events apply_event on_log_event on_key_event prev_lease parse_lease_key has_prefix
    new_lease_manager
apply_up_to-applied_example = apply_up_to-applied no_ttl 0 short_log 3 new_memory_storage refl

compact_storage-bounds_example :
    (applied_all.compacted ≤ (compact_storage applied_all 3).0.compacted)
    × ((compact_storage applied_all 3).1 ≡ (compact_storage applied_all 3).0.compacted)
    × (((compact_storage applied_all 3).0 ≡ applied_all)
        ⊎ (((compact_storage applied_all 3).1 ≤ 3)
            × ((compact_storage applied_all 3).1 ≤ applied_all.applied)
            × All
                (λ w. (w.closed ≡ true) ⊎ ((compact_storage applied_all 3).1 ≤ w.delivered))
                applied_all.watchers))
compact_storage-bounds_example = compact_storage-bounds applied_all 3

-- The watcher that has delivered 2 holds the compaction back.
compact_storage_watched : (compact_storage applied_all 3).1 ≡ 2
unfolding compact_storage compact_point through_watchers
compact_storage_watched = refl

compact_storage-reads_example : get_latest (compact_storage applied_all 3).0.revisions key_a 3 ≡ (
    if ltb applied_all.compacted (compact_point applied_all 3)
      && (deleted_in applied_all.revisions key_a
          && leb (newest (revisions_of applied_all.revisions key_a)) (compact_point applied_all 3))
    then none
    else get_latest applied_all.revisions key_a 3)
unfolding compact_storage compact_point through_watchers
compact_storage-reads_example = compact_storage-reads applied_all 3 key_a 3 (omega arith)

abbrev short_records : List (ℕ × LogRecord)
short_records = (1, record { events = [] }) ∷ (2, record_at key_a 2) ∷ (3, record_at key_b 3) ∷ []

abbrev replayed : MemoryStorage
replayed = record {
  revisions = two_keys;
  compacted = 0;
  applied = 3;
  lease_manager = new_lease_manager;
  watchers = [];
}

start-Restored : Restored new_memory_storage new_memory_storage
start-Restored = record {
  revisions = refl;
  compacted = refl;
  watchers = refl;
  leases = record { same = λ j. Alike-refl (lookup j new_memory_storage.lease_manager.leases) };
}

-- Committed at 0 and replayed at 50.
replay_records-apply_loop_example :
    (u : MemoryStorage) × (replay_records no_ttl 50 short_records new_memory_storage ≡ ok u)
    × Restored replayed u
unfolding new_memory_storage empty_index add add_revision common_prefix_len apply_loop apply_events
    apply_event on_log_event on_key_event prev_lease parse_lease_key has_prefix new_lease_manager
replay_records-apply_loop_example =
    replay_records-apply_loop no_ttl 0 50 short_log short_records new_memory_storage replayed
      new_memory_storage start-Restored (refl, refl, (refl, refl, (refl, refl, tt))) refl

-- If "a" still has revision 2, put it, and read "b".
abbrev update_a : TxnRequest
update_a = record {
  compare =
      record {
        key = key_a;
        target = CompareTarget.mod_target;
        result = CompareResult.equal;
        target_union = TargetUnion.mod_revision 2;
      }
      ∷ [];
  success =
      RequestOp.request_put (record { key = key_a; value = 7 ∷ []; lease = 0; prev_kv = false })
      ∷ RequestOp.request_range (record {
        key = some key_b;
        range_end = none;
        revision = 0;
        limit = 0;
        count_only = false;
        keys_only = false;
      })
      ∷ [];
  failure = [];
}

abbrev short_env : Env
short_env = env_of short_log applied_all

abbrev updated : Txn
updated = record {
  snapshot_timestamp = 3;
  log_events =
      record {
        kind = EventType.put;
        kv = record {
          key = key_a;
          value = 7 ∷ [];
          create_revision = 2;
          mod_revision = 4;
          version = 2;
          lease = 0;
        };
        prev_kv = some (put_at key_a 2);
      }
      ∷ [];
  meta = record {
    snapshot_revision = 3;
    read_set = (key_a, 2) ∷ (key_b, 3) ∷ [];
    write_set = (key_a, true) ∷ [];
    has_range_read = false;
  };
}

abbrev updated_response : TxnResponse
updated_response = record {
  header = 3;
  succeeded = true;
  responses =
      ResponseOp.response_put (record { header = none; prev_kv = none })
      ∷ ResponseOp.response_range
          (record { header = some 3; kvs = put_at key_b 3 ∷ []; count = 1; more = false })
      ∷ [];
}

evaluate_update : evaluate short_env update_a 3 ≡ ok (updated_response, updated)
unfolding evaluate compares prev_event get_latest latest_at revisions_of lookup_node env_of add
    add_revision empty_index has_prefix new_txn find_event bytes_equal holds run_ops run_op insert
    lookup bytes_less common_prefix_len has_lease compared_field note_read observed
    check_read_revision copy_without_value event_of fetch_or_err get is_internal_key live_kv put
    put_kv read_revision stage add_read add_write new_txn_meta new_lease_manager
evaluate_update = refl

evaluate-IsFaithful_example : IsFaithful short_env 3 (key_b ∷ key_a ∷ []) false updated
evaluate-IsFaithful_example =
    evaluate-IsFaithful short_env update_a 3 updated_response updated evaluate_update

-- A watcher of every key from "a" on, at position 1.
abbrev watcher : Watcher
watcher = record {
  id = 5;
  req = record {
    key = key_a;
    range_end = 0 ∷ [];
    start_revision = 2;
    watch_id = 5;
    prev_kv = false;
    filters = [];
  };
  range_type = RangeType.range_type_range_no_end;
  watch_done_revision = 1;
  log_position = 3;
  closed = false;
}

abbrev watched : List Event
watched =
    record { kind = EventType.put; kv = put_at key_a 2; prev_kv = none }
    ∷ record { kind = EventType.put; kv = put_at key_b 3; prev_kv = none }
    ∷ []

watched_all : all_events watcher short_log 1 2 ≡ ok watched
unfolding all_events collect select_events should_send is_internal_key filter_events without_prev_kv
    in_range bytes_less bytes_equal has_prefix get_watch_event
watched_all = refl

send_up_to-sent_example :
    (responses : List WatchResponse) × (send_up_to 2 short_log 3 watcher
      ≡ ok (responses, record watcher { watch_done_revision = 3 }))
    × (sent responses ≡ watched)
send_up_to-sent_example = send_up_to-sent 2 short_log 2 watcher watched (omega arith) watched_all
