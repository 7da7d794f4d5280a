-- ===== src/Memory/Commit.antt =====
-- commit, tryTxn, Txn, Put, Get, Delete and List of pkg/storage/memorystorage/memory.go. The log's
-- state and the storage are passed along, also beside an error.
pub mod Current
pub mod ReadOnly
use cloudetcd.Base.{ℕ, zero, suc, Bytes, [], ◌∷◌, Option, none, some, is_empty, if◌then◌else◌, map}
use cloudetcd.Outcome.{Error, Outcome, ok, err, fatal}
use cloudetcd.Request.{
  PutRequest, DeleteRangeRequest, RangeRequest, RequestOp, TxnRequest, PutResponse,
  DeleteRangeResponse, RangeResponse, ResponseOp, TxnResponse,
}
use cloudetcd.Storage.{Txn}
use cloudetcd.Storage.Evaluate.{evaluate}
use cloudetcd.Memory.{
  AppendResult, appended, rejected, append_failed, Log, MemoryStorage, apply_up_to, env_of,
}

pub record World (L : Type 0) : Type 0 where
  pub log_state : L
  pub storage : MemoryStorage

-- The response's header for each of its responses.
unfoldable pub stamp_op : ℕ → ResponseOp → ResponseOp
stamp_op revision (ResponseOp.response_put r) =
    ResponseOp.response_put (record r { header = some revision })
stamp_op revision (ResponseOp.response_delete_range r) =
    ResponseOp.response_delete_range (record r { header = some revision })
stamp_op revision (ResponseOp.response_range r) =
    ResponseOp.response_range (record r { header = some revision })

unfoldable pub stamp_response : ℕ → TxnResponse → TxnResponse
stamp_response revision resp = record resp {
  header = revision;
  responses = map (stamp_op revision) resp.responses;
}

module _ {L : Type 0} (decode_ttl : Bytes → Option ℕ) (now : ℕ) (log : Log L) where
  -- applyUpTo over the log as it stands.
  unfoldable pub apply : World L → ℕ → World L × Outcome (Unit {0})
  apply w rev =
      let (s, o) = apply_up_to decode_ttl now (log.get_log_entry w.log_state) rev w.storage in
      (record w { storage = s }, o)

  -- commit, once the records up to the new revision have been applied.
  finish : ℕ → TxnResponse → World L × Outcome (Unit {0}) → World L × Outcome (Option TxnResponse)
  finish revision resp (w, ok _) = (w, ok (some (stamp_response revision resp)))
  finish revision resp (w, err e) = (w, err e)
  finish revision resp (w, fatal) = (w, fatal)

  after_append : World L → TxnResponse → AppendResult × L → World L × Outcome (Option TxnResponse)
  unfolding finish
  after_append w resp (append_failed, l) = (record w { log_state = l }, err Error.log_failed)
  after_append w resp (rejected, l) = (record w { log_state = l }, ok none)
  after_append w resp (appended revision, l) =
      finish revision resp (apply (record w { log_state = l }) revision)

  -- commit: the response, or none for a transaction that the batching layer rejected.
  unfoldable pub commit : World L → Txn → TxnResponse → World L × Outcome (Option TxnResponse)
  unfolding after_append
  commit w t resp =
      if is_empty t.log_events
      then (w, ok (some resp))
      else after_append w resp (log.append w.log_state (record { events = t.log_events }) t.meta)

  commit_evaluated : World L → Outcome (TxnResponse × Txn) → World L × Outcome (Option TxnResponse)
  commit_evaluated w (ok (resp, t)) = commit w t resp
  commit_evaluated w (err e) = (w, err e)
  commit_evaluated w fatal = (w, fatal)

  evaluate_applied :
      TxnRequest → ℕ → World L × Outcome (Unit {0}) → World L × Outcome (Option TxnResponse)
  unfolding commit_evaluated
  evaluate_applied req snapshot (w, ok _) =
      commit_evaluated w (evaluate (env_of (log.get_log_entry w.log_state) w.storage) req snapshot)
  evaluate_applied req snapshot (w, err e) = (w, err e)
  evaluate_applied req snapshot (w, fatal) = (w, fatal)

  unfoldable pub try_txn : World L → TxnRequest → World L × Outcome (Option TxnResponse)
  unfolding evaluate_applied apply
  try_txn w req = elim (log.get_current_revision w.log_state) [
    | none ↦ (w, err Error.log_failed)
    | some snapshot ↦ evaluate_applied req snapshot (apply w snapshot)
  ]

  -- The rest of the attempts behind one.
  retry :
      (World L → World L × Outcome TxnResponse)
      → World L × Outcome (Option TxnResponse)
      → World L × Outcome TxnResponse
  retry rest (w, ok none) = rest w
  retry rest (w, ok (some resp)) = (w, ok resp)
  retry rest (w, err e) = (w, err e)
  retry rest (w, fatal) = (w, fatal)

  -- The loop of Txn, for the attempts left.
  unfoldable pub attempts : ℕ → TxnRequest → World L → World L × Outcome TxnResponse
  unfolding retry
  attempts zero req w = (w, err Error.conflicted)
  attempts (suc n) req w = retry (attempts n req) (try_txn w req)

  abbrev pub max_txn_attempts : ℕ
  max_txn_attempts = 64

  unfoldable pub txn : World L → TxnRequest → World L × Outcome TxnResponse
  txn w req = attempts max_txn_attempts req w

  -- Responses[0] of a transaction with one operation.
  abbrev pub single : RequestOp → TxnRequest
  single op = record { compare = []; success = op ∷ []; failure = [] }

  put_response : World L × Outcome TxnResponse → World L × Outcome PutResponse
  put_response (w, err e) = (w, err e)
  put_response (w, fatal) = (w, fatal)
  put_response (w, ok resp) = elim resp.responses [
    | ResponseOp.response_put r ∷ _ ↦ (w, ok (record r { header = some resp.header }))
    | [] ↦ (w, fatal)
    | _ ∷ _ ↦ (w, err Error.unsupported_operation)
  ]

  unfoldable pub put : World L → PutRequest → World L × Outcome PutResponse
  unfolding put_response
  put w req = put_response (txn w (single (RequestOp.request_put req)))

  delete_response : World L × Outcome TxnResponse → World L × Outcome DeleteRangeResponse
  delete_response (w, err e) = (w, err e)
  delete_response (w, fatal) = (w, fatal)
  delete_response (w, ok resp) = elim resp.responses [
    | ResponseOp.response_delete_range r ∷ _ ↦ (w, ok (record r { header = some resp.header }))
    | [] ↦ (w, fatal)
    | _ ∷ _ ↦ (w, err Error.unsupported_operation)
  ]

  unfoldable pub delete : World L → DeleteRangeRequest → World L × Outcome DeleteRangeResponse
  unfolding delete_response
  delete w req = delete_response (txn w (single (RequestOp.request_delete_range req)))

  range_response : World L × Outcome TxnResponse → World L × Outcome RangeResponse
  range_response (w, err e) = (w, err e)
  range_response (w, fatal) = (w, fatal)
  range_response (w, ok resp) = elim resp.responses [
    | ResponseOp.response_range r ∷ _ ↦ (w, ok (record r { header = some resp.header }))
    | [] ↦ (w, fatal)
    | _ ∷ _ ↦ (w, err Error.unsupported_operation)
  ]

  -- Get, and List, which is written the same way.
  unfoldable pub get : World L → RangeRequest → World L × Outcome RangeResponse
  unfolding range_response
  get w req = range_response (txn w (single (RequestOp.request_range req)))
