-- ===== src/Storage/Evaluate.antt =====
-- `evaluate` of pkg/storage/memorystorage/memory.go: the compares, then the operations.
pub mod Faithful
pub mod Sets
pub mod ReadOnly
use cloudetcd.Base.{
  ℕ, Bytes, Bool, true, false, List, [], ◌∷◌, ◌++◌, Option, none, some, nat_beq, if◌then◌else◌, not,
}
use cloudetcd.Event.{KeyValue, EventType, Event}
use cloudetcd.TxnMeta.{TxnMeta, new_txn_meta, add_read, add_list}
use cloudetcd.Index.{get_latest}
use cloudetcd.Outcome.{Error, Outcome, ok, err, fatal, ◌>>=◌, ◌>>◌}
use cloudetcd.Request.{
  RangeRequest, CompareTarget, CompareResult, TargetUnion, Compare, RequestOp, TxnRequest,
  RangeResponse, ResponseOp, TxnResponse,
}
use cloudetcd.Storage.{Env, Txn, prev_event, put, get, delete}
use cloudetcd.Storage.Listing.{list}

-- The revision that is recorded for a read: 0 for a key with none.
unfoldable pub observed : Env → Bytes → ℕ → ℕ
observed env key snapshot = elim (get_latest env.index key snapshot) [ none ↦ 0 | some r ↦ r ]

-- The field of the previous value that is compared; 0 for a missing or deleted key.
unfoldable pub compared_field : (KeyValue → ℕ) → Option Event → ℕ
compared_field field none = 0
compared_field field (some event) = elim event.kind [ EventType.delete ↦ 0 | _ ↦ field event.kv ]

-- Only equality is supported.
equal_test : CompareResult → ℕ → ℕ → Outcome Bool
equal_test CompareResult.equal actual wanted = ok (nat_beq actual wanted)
equal_test CompareResult.other_result actual wanted = err Error.unsupported_result

-- The switch on the target: whether the condition holds.
unfoldable pub holds : Compare → Option Event → Outcome Bool
unfolding compared_field equal_test
holds cond prev = elim cond.target [
  | CompareTarget.mod_target ↦ elim cond.target_union [
    | TargetUnion.mod_revision wanted ↦
        equal_test cond.result (compared_field (λ kv. kv.mod_revision) prev) wanted
    | _ ↦ err Error.unsupported_target
  ]
  | CompareTarget.version_target ↦ elim cond.target_union [
    | TargetUnion.version wanted ↦
        equal_test cond.result (compared_field (λ kv. kv.version) prev) wanted
    | _ ↦ err Error.unsupported_target
  ]
  | CompareTarget.lease_target ↦ elim cond.target_union [
    | TargetUnion.lease wanted ↦
        equal_test cond.result (compared_field (λ kv. kv.lease) prev) wanted
    | _ ↦ err Error.unsupported_target
  ]
  | CompareTarget.other_target ↦ err Error.unsupported_target
]

-- Notes the read of a key with the revision that the index has at the snapshot.
unfoldable pub note_read : Env → Txn → Bytes → Txn
note_read env t key = record t {
  meta = add_read t.meta key (observed env key t.snapshot_timestamp);
}

-- The loop over the compares: whether any failed so far.
unfoldable pub compares : Env → Txn → Bool → List Compare → Outcome (Bool × Txn)
compares env t failed [] = ok (failed, t)
compares env t failed (cond ∷ conds) = do
  prev ← prev_event env cond.key (get_latest env.index cond.key t.snapshot_timestamp)
  passed ← holds cond prev
  compares env (note_read env t cond.key) (if passed then failed else true) conds

-- A range request: a point read is noted with its revision, a list as a range read.
range_key : RangeRequest → Bytes
range_key req = elim req.key [ none ↦ [] | some key ↦ key ]

run_range : Env → Txn → RangeRequest → Outcome (RangeResponse × Txn)
unfolding range_key
run_range env t req = elim req.range_end [
  | none ↦ do resp ← get env t req; ok (resp, note_read env t (range_key req))
  | some _ ↦ do resp ← list env t req; ok (resp, record t { meta = add_list t.meta })
]

unfoldable pub run_op : Env → Txn → RequestOp → Outcome (ResponseOp × Txn)
unfolding run_range
run_op env t (RequestOp.request_put req) = do
  (resp, t') ← put env t req
  ok (ResponseOp.response_put resp, t')
run_op env t (RequestOp.request_delete_range req) = do
  (resp, t') ← delete env t req
  ok (ResponseOp.response_delete_range resp, t')
run_op env t (RequestOp.request_range req) = do
  (resp, t') ← run_range env t req
  ok (ResponseOp.response_range resp, t')
run_op env t RequestOp.other_request = err Error.unsupported_operation

-- The loop over the operations.
unfoldable pub run_ops : Env → Txn → List RequestOp → Outcome (List ResponseOp × Txn)
run_ops env t [] = ok ([], t)
run_ops env t (op ∷ ops) = do
  (resp, t') ← run_op env t op
  (resps, t'') ← run_ops env t' ops
  ok (resp ∷ resps, t'')

unfoldable pub new_txn : ℕ → Txn
new_txn snapshot = record {
  snapshot_timestamp = snapshot;
  log_events = [];
  meta = new_txn_meta snapshot;
}

unfoldable pub evaluate : Env → TxnRequest → ℕ → Outcome (TxnResponse × Txn)
evaluate env req snapshot = do
  (failed, t) ← compares env (new_txn snapshot) false req.compare
  (responses, t') ← run_ops env t (if failed then req.failure else req.success)
  ok (record { header = snapshot; succeeded = not failed; responses = responses }, t')
