-- ===== src/Tests/Batches.antt =====
-- Runs of pkg/persistence/batch at concrete transactions.
use cloudetcd.Base.{
  ℕ, ◌≡◌, refl, Bytes, Bool, true, false, List, [], ◌∷◌, none, some, ◌+◌, ◌↔◌, lookup, insert,
  bytes_equal,
}
use cloudetcd.Event.{EventType, Event}
use cloudetcd.TxnMeta.{new_txn_meta, add_write, add_list, writes}
use cloudetcd.Batch.{
  PendingTxn, TxnBatch, written_at, stamp_txn, prepare_loop, prepare, can_batch_with,
  all_batch_with, can_batch_together, no_write_conflict, no_read_conflict, add, reads_valid,
  writes_valid, validate_txn, record_writes, restamp,
}
use cloudetcd.Batch.Serial.{extend, Tracks}
use cloudetcd.Batch.Mates.{
  AreMates, AllMarked, IsMarked, add_write-IsMarked, new_txn_meta-IsMarked, valid_chans,
  prepare_loop-mates,
}
use cloudetcd.Batch.Validate.{IsAdmissible, validate_txn-IsAdmissible}
use cloudetcd.Batch.Replies.{count, chans, prepare_loop-count, Stamped, prepare_loop-Stamped}
use cloudetcd.Batch.RangeRead.{prepare_loop-range_read}
use cloudetcd.Batching.{
  Batching, new_batching, new_txn_batch, enqueue, take_batch, Flushed, Round, flush_batch,
  flush_round, close, deliver_accepted, deliver_rejected,
}
use cloudetcd.Batching.Runs.{Reach, started, added, flushed, Reach-Tracks}
use cloudetcd.Batching.Drain.{Drains}
use cloudetcd.Batching.Shutdown.{Reach-close-drain}
use cloudetcd.Batching.Compatible.{IsTidy, Reach-IsTidy}

abbrev key_a : Bytes
key_a = 97 ∷ []

abbrev key_b : Bytes
key_b = 98 ∷ []

abbrev put_of : Bytes → Event
put_of key = record {
  kind = EventType.put;
  kv = record {
    key = key;
    value = 1 ∷ [];
    create_revision = 2;
    mod_revision = 2;
    version = 1;
    lease = 0;
  };
  prev_kv = none;
}

-- A transaction that read nothing and puts the key.
abbrev put_txn : Bytes → ℕ → PendingTxn
put_txn key chan = record {
  log_record = record { events = put_of key ∷ [] };
  meta = add_write (new_txn_meta 1) key;
  result_chan = chan;
}

-- A transaction that lists a range and puts the second key.
abbrev range_txn : PendingTxn
range_txn = record {
  log_record = record { events = put_of key_b ∷ [] };
  meta = add_write (add_list (new_txn_meta 1)) key_b;
  result_chan = 9;
}

abbrev always : ℕ → List PendingTxn → Bool
always start txns = true

abbrev pair : List PendingTxn
pair = put_txn key_a 7 ∷ put_txn key_b 8 ∷ []

abbrev pair_batch : TxnBatch
pair_batch = record { flushed = false; pending_batch = pair }

abbrev queued : Batching
queued = enqueue (enqueue (new_batching 1) (put_txn key_a 7)) (put_txn key_b 8)

abbrev pair_flush : Flushed
pair_flush = record {
  state = record {
    open_batch = none;
    stop = false;
    flush_queue = [];
    last_log_position = 3;
    committed_writes = (key_a, 2) ∷ (key_b, 3) ∷ [];
  };
  committed = stamp_txn 2 (put_txn key_a 7) ∷ stamp_txn 3 (put_txn key_b 8) ∷ [];
  results =
      (7, record { revision = 2; success = true })
      ∷ (8, record { revision = 3; success = true })
      ∷ [];
}

-- Both transactions are let into one batch and committed together.
flush_round_pair : flush_round always queued ≡ Round.flushes pair_batch pair_flush
unfolding flush_round take_batch enqueue new_batching can_batch_with all_batch_with add
    can_batch_together no_write_conflict add_write insert new_txn_meta writes lookup bytes_equal
    no_read_conflict flush_batch prepare prepare_loop reads_valid record_writes restamp stamp_txn
    validate_txn writes_valid written_at deliver_accepted deliver_rejected new_txn_batch
flush_round_pair = refl

pair-Reach : Reach always 1 pair_flush.state (extend [] 1 pair_flush.committed)
unfolding flush_round take_batch enqueue new_batching can_batch_with all_batch_with add
    can_batch_together no_write_conflict add_write insert new_txn_meta writes lookup bytes_equal
    no_read_conflict flush_batch prepare prepare_loop reads_valid record_writes restamp stamp_txn
    validate_txn writes_valid written_at deliver_accepted deliver_rejected new_txn_batch
pair-Reach = flushed (added (put_txn key_b 8) (added (put_txn key_a 7) started)) flush_round_pair

Reach-Tracks_example : Tracks 1 (extend [] 1 pair_flush.committed) 3 ((key_a, 2) ∷ (key_b, 3) ∷ [])
Reach-Tracks_example = Reach-Tracks always 1 pair-Reach

Reach-IsTidy_example : IsTidy pair_flush.state
Reach-IsTidy_example = Reach-IsTidy always 1 pair-Reach

pair-AllMarked : AllMarked pair
unfolding writes add_write new_txn_meta insert lookup
pair-AllMarked = (mark key_a 7, (mark key_b 8, tt))
  where
    mark : (key : Bytes) (chan : ℕ) → IsMarked (put_txn key chan).meta
    mark key chan = add_write-IsMarked (new_txn_meta 1) key (new_txn_meta-IsMarked 1)

pair-AreMates : AreMates pair
unfolding all_batch_with can_batch_together no_write_conflict no_read_conflict add_write insert
    new_txn_meta writes lookup bytes_equal
pair-AreMates = ((refl, tt), (tt, tt))

prepare_loop-mates_example :
    ((prepare_loop 1 1 [] pair).accepted ≡ valid_chans true 1 [] pair)
    × ((prepare_loop 1 1 [] pair).rejected ≡ valid_chans false 1 [] pair)
prepare_loop-mates_example = prepare_loop-mates 1 [] pair pair-AllMarked pair-AreMates

Reach-close-drain_example : Drains always 2 [] (some pair_batch) (close queued)
unfolding flush_round take_batch enqueue new_batching can_batch_with all_batch_with add
    can_batch_together no_write_conflict add_write insert new_txn_meta writes lookup bytes_equal
    no_read_conflict flush_batch prepare prepare_loop reads_valid record_writes restamp stamp_txn
    validate_txn writes_valid written_at deliver_accepted deliver_rejected new_txn_batch
Reach-close-drain_example =
    Reach-close-drain always 1 (added (put_txn key_b 8) (added (put_txn key_a 7) started))
      (λ start txns. refl)

-- The key was written at 2, after the snapshot 1.
validate_txn-IsAdmissible_example :
    (validate_txn (add_write (new_txn_meta 1) key_a) 2 ((key_a, 2) ∷ []) ≡ true)
    ↔ IsAdmissible (add_write (new_txn_meta 1) key_a) 2 (written_at ((key_a, 2) ∷ []))
validate_txn-IsAdmissible_example =
    validate_txn-IsAdmissible (add_write (new_txn_meta 1) key_a) 2 ((key_a, 2) ∷ [])

prepare_loop-count_example :
    count 7 (prepare_loop 1 1 [] pair).accepted + count 7 (prepare_loop 1 1 [] pair).rejected
    ≡ count 7 (chans pair)
prepare_loop-count_example = prepare_loop-count 1 1 [] pair 7

prepare_loop-Stamped_example : Stamped 1 pair (prepare_loop 1 1 [] pair).transactions
prepare_loop-Stamped_example = prepare_loop-Stamped 1 1 [] pair

-- The put commits at 2, and the list of the range, which saw revision 1, commits behind it at 3.
prepare_loop-range_read_example :
    (prepare_loop 1 1 [] (put_txn key_a 7 ∷ range_txn ∷ [])).transactions
    ≡ stamp_txn 2 (put_txn key_a 7) ∷ stamp_txn 3 range_txn ∷ []
unfolding validate_txn reads_valid writes_valid written_at add_write insert new_txn_meta lookup
    bytes_equal add_list
prepare_loop-range_read_example =
    prepare_loop-range_read 1 [] (put_txn key_a 7) range_txn refl refl refl
