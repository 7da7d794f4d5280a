-- ===== src/Storage/Evaluate/ReadOnly.antt =====
-- What `evaluate` of pkg/storage/memorystorage/memory.go stages for a transaction that only reads.
use cloudetcd.Base.{
  ℕ, ◌≡◌, refl, sym, ap, Bool, true, false, List, [], ◌∷◌, Option, none, some, All, if◌then◌else◌,
}
use cloudetcd.TxnMeta.{add_list}
use cloudetcd.Index.{get_latest}
use cloudetcd.Outcome.{ok, >>=-eq-ok}
use cloudetcd.Request.{
  RangeRequest, Compare, RequestOp, TxnRequest, RangeResponse, ResponseOp, TxnResponse,
}
use cloudetcd.Storage.{Env, Txn, prev_event, get}
use cloudetcd.Storage.Listing.{list}
use cloudetcd.Storage.Evaluate.{
  holds, note_read, compares, run_range, range_key, run_op, run_ops, new_txn, evaluate,
}

abbrev pub IsRange : RequestOp → Type 0
IsRange (RequestOp.request_range req) = Unit
IsRange (RequestOp.request_put req) = ⊥
IsRange (RequestOp.request_delete_range req) = ⊥
IsRange RequestOp.other_request = ⊥

-- Both branches only read.
abbrev pub IsReadOnly : TxnRequest → Type 0
IsReadOnly req = All IsRange req.success × All IsRange req.failure

module _ (env : Env) where
  compares-log_events :
      (t u : Txn) (failed failed' : Bool) (conds : List Compare)
      → compares env t failed conds ≡ ok (failed', u)
      → u.log_events ≡ t.log_events
  unfolding compares note_read
  compares-log_events t u failed failed' [] e = cc
  compares-log_events t u failed failed' (cond ∷ conds) e =
      let (prev, _, e₁) =
        >>=-eq-ok (prev_event env cond.key (get_latest env.index cond.key t.snapshot_timestamp)) _
          e in
      let (passed, _, e₂) = >>=-eq-ok (holds cond prev) _ e₁ in
      compares-log_events (note_read env t cond.key) u (if passed then failed else true) failed'
        conds e₂

  run_range-log_events :
      (t u : Txn) (req : RangeRequest) (resp : RangeResponse)
      → run_range env t req ≡ ok (resp, u)
      → u.log_events ≡ t.log_events
  unfolding run_range note_read
  run_range-log_events t u req resp e = by_end req.range_end refl
    where
      by_end : (o : Option (List ℕ)) → req.range_end ≡ o → u.log_events ≡ t.log_events
      by_end none is =
          let (r, _, e₁) = >>=-eq-ok (get env t req) _ (rw (is, run_range) at e) in
          let same : note_read env t (range_key req) ≡ u = cc in ap (λ v. v.log_events) (sym same)
      by_end (some range_end) is =
          let (r, _, e₁) = >>=-eq-ok (list env t req) _ (rw (is, run_range) at e) in
          let noted : Txn = record t { meta = add_list t.meta } in
          let same : noted ≡ u = cc in ap (λ v. v.log_events) (sym same)

  run_ops-log_events :
      (t u : Txn) (ops : List RequestOp) (resps : List ResponseOp)
      → All IsRange ops
      → run_ops env t ops ≡ ok (resps, u)
      → u.log_events ≡ t.log_events
  unfolding run_ops run_op
  run_ops-log_events t u [] resps h e = cc
  run_ops-log_events t u (RequestOp.request_range req ∷ ops) resps h e =
      let ((r, v), e₁, e₂) = >>=-eq-ok (run_op env t (RequestOp.request_range req)) _ e in
      let ((r', v'), e₃, e₄) = >>=-eq-ok (run_range env t req) _ e₁ in
      let ((rs, w), e₅, e₆) = >>=-eq-ok (run_ops env v ops) _ e₂ in
      let same : v' ≡ v = cc in
      let last : w ≡ u = cc in
      let head = run_range-log_events t v' req r' e₃ in
      let tail = run_ops-log_events v w ops rs h.1 e₅ in cc
  run_ops-log_events t u (RequestOp.request_put req ∷ ops) resps h e = absurd h.0
  run_ops-log_events t u (RequestOp.request_delete_range req ∷ ops) resps h e = absurd h.0
  run_ops-log_events t u (RequestOp.other_request ∷ ops) resps h e = absurd h.0

-- A transaction that only reads stages no event.
pub evaluate-log_events :
    (env : Env) (req : TxnRequest) (snapshot : ℕ) (resp : TxnResponse) (t : Txn)
    → IsReadOnly req
    → evaluate env req snapshot ≡ ok (resp, t)
    → t.log_events ≡ []
unfolding evaluate new_txn
evaluate-log_events env req snapshot resp t h e =
    let ((failed, u), e₁, e₂) = >>=-eq-ok (compares env (new_txn snapshot) false req.compare) _ e in
    let ops = if failed then req.failure else req.success in
    let ((rs, v), e₃, e₄) = >>=-eq-ok (run_ops env u ops) _ e₂ in
    let reads : All IsRange ops = branch failed in
    let same : v ≡ t = cc in
    let start = compares-log_events env (new_txn snapshot) u false failed req.compare e₁ in
    let staged = run_ops-log_events env u v ops rs reads e₃ in cc
  where
    branch : (failed : Bool) → All IsRange (if failed then req.failure else req.success)
    branch true = h.1
    branch false = h.0
