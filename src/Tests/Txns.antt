-- ===== src/Tests/Txns.antt =====
-- Transactions of pkg/storage/memorystorage/memory.go over a log that is a list.
use cloudetcd.Base.{
  arith, ℕ, zero, suc, ◌≡◌, refl, Bytes, false, List, [], ◌∷◌, ◌++◌, Option, none, some, length,
  has_prefix, insert, bytes_eq,
}
use cloudetcd.Event.{LogRecord}
use cloudetcd.Index.{
  empty_index, add, add_revision, get_latest, latest_at, revisions_of, lookup_node,
}
use cloudetcd.Outcome.{Outcome}
use cloudetcd.Request.{RequestOp, TxnRequest, TxnResponse}
use cloudetcd.Storage.{Fetch, found, missing, put, put_kv, stage, prev_event, live_kv}
use cloudetcd.Memory.{
  Log, appended, new_memory_storage, apply_up_to, apply_loop, apply_events, apply_event, env_of,
}
use cloudetcd.TxnMeta.{new_txn_meta, add_write}
use cloudetcd.Storage.Evaluate.{evaluate, compares, new_txn, run_ops, run_op}
use cloudetcd.Lease.{new_lease_manager, on_log_event, on_key_event, prev_lease, parse_lease_key}
use cloudetcd.Memory.History.{history}
use cloudetcd.Memory.Commit.{World, apply, attempts, commit, try_txn, txn}
use cloudetcd.Memory.Commit.Current.{IsCurrent, Keeps, txn-IsCurrent}
use cloudetcd.Memory.Commit.ReadOnly.{answered, txn-IsReadOnly}

-- The record at a place; places are counted from 0.
abbrev place : List LogRecord → ℕ → Fetch
place [] n = missing
place (r ∷ rs) zero = found r
place (r ∷ rs) (suc n) = place rs n

-- Revision 1 is the first record of the list.
abbrev at : List LogRecord → ℕ → Fetch
at rs zero = missing
at rs (suc n) = place rs n

abbrev from : ℕ → List LogRecord → List (ℕ × LogRecord)
from n [] = []
from n (r ∷ rs) = (n, r) ∷ from (suc n) rs

abbrev list_log : Log (List LogRecord)
list_log = record {
  get_log_entry = at;
  get_current_revision = λ rs. some (length rs);
  append = λ rs r meta. (appended (suc (length rs)), rs ++ r ∷ []);
  read = λ rs. some (from 1 rs);
}

place-append :
    (rs : List LogRecord) (r log_entry : LogRecord) (n : ℕ)
    → place rs n ≡ found log_entry
    → place (rs ++ r ∷ []) n ≡ found log_entry
place-append [] r log_entry n e = cc
place-append (x ∷ rs) r log_entry zero e = e
place-append (x ∷ rs) r log_entry (suc n) e = place-append rs r log_entry n e

list_log-Keeps : Keeps list_log
list_log-Keeps rs r meta zero log_entry e = cc
list_log-Keeps rs r meta (suc n) log_entry e = place-append rs r log_entry n e

abbrev no_ttl : Bytes → Option ℕ
no_ttl value = none

-- A storage that has applied nothing, over a log with the dummy record.
abbrev start : World (List LogRecord)
start = record { log_state = record { events = [] } ∷ []; storage = new_memory_storage }

start-IsCurrent : IsCurrent (at start.log_state) start.storage
unfolding new_memory_storage empty_index revisions_of lookup_node history
start-IsCurrent = record {
  reflects = record { sorted = tt; revisions = no_revision };
  there = λ r pos le. absurd (omega (arith, pos, le));
}
  where
    no_revision :
        (key : Bytes)
        → revisions_of new_memory_storage.revisions key
          ≡ history (at start.log_state) key new_memory_storage.applied
    no_revision [] = refl
    no_revision (b ∷ key) = refl

abbrev put_a : TxnRequest
put_a = record {
  compare = [];
  success =
      RequestOp.request_put (record { key = 97 ∷ []; value = 1 ∷ []; lease = 0; prev_kv = false })
      ∷ [];
  failure = [];
}

abbrev range_a : TxnRequest
range_a = record {
  compare = [];
  success =
      RequestOp.request_range (record {
        key = some (97 ∷ []);
        range_end = none;
        revision = 0;
        limit = 0;
        count_only = false;
        keys_only = false;
      })
      ∷ [];
  failure = [];
}

txn-IsCurrent_example :
    IsCurrent
      (at (txn no_ttl 0 list_log start put_a).0.log_state)
      (txn no_ttl 0 list_log start put_a).0.storage
txn-IsCurrent_example = txn-IsCurrent no_ttl 0 list_log list_log-Keeps start put_a start-IsCurrent

txn-IsReadOnly_example :
    (o : Outcome TxnResponse) × ((try_txn no_ttl 0 list_log start range_a).1 ≡ answered o)
    × (txn no_ttl 0 list_log start range_a ≡ ((try_txn no_ttl 0 list_log start range_a).0, o))
    × ((txn no_ttl 0 list_log start range_a).0.log_state ≡ start.log_state)
txn-IsReadOnly_example = txn-IsReadOnly no_ttl 0 list_log start range_a ((tt, tt), tt)

-- The put gets revision 2, and is applied.
put_a_applied : (txn no_ttl 0 list_log start put_a).0.storage.applied ≡ 2
unfolding txn attempts try_txn apply commit evaluate compares new_txn run_ops run_op put put_kv
    stage prev_event live_kv get_latest latest_at revisions_of lookup_node empty_index add
    add_revision new_memory_storage apply_up_to apply_loop apply_events apply_event env_of
    on_log_event on_key_event prev_lease parse_lease_key has_prefix new_lease_manager new_txn_meta
    add_write insert
put_a_applied = refl
