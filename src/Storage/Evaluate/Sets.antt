-- ===== src/Storage/Evaluate/Sets.antt =====
-- The read and write sets that `evaluate` of pkg/storage/memorystorage/memory.go collects.
use cloudetcd.Base.{
  ℕ, ◌≡◌, refl, ap, ◌∙◌, Bytes, Bool, true, false, List, [], ◌∷◌, Option, none, some, arith,
  bytes_equal, bytes_equal_sound, bytes_equal_refl, bytes_eq, lookup, not, ◌||◌, insert,
  lookup-insert, All, if◌then◌else◌, Bool-cases, inl, inr,
}
use cloudetcd.TxnMeta.{new_txn_meta, add_read, add_list, writes}
use cloudetcd.Index.{get_latest}
use cloudetcd.Batch.Mates.{new_txn_meta-IsMarked, add_read-IsMarked, add_list-IsMarked}
use cloudetcd.Outcome.{ok, >>=-eq-ok}
use cloudetcd.Request.{
  RangeRequest, Compare, RequestOp, TxnRequest, RangeResponse, ResponseOp, TxnResponse,
}
use cloudetcd.Storage.{Env, Txn, prev_event, put, get, delete}
use cloudetcd.Storage.Evaluate.Faithful.{IsFaithful, put-IsFaithful, delete-IsFaithful}
use cloudetcd.Storage.Listing.{list}
use cloudetcd.Storage.Evaluate.{
  observed, holds, note_read, compares, run_op, run_ops, new_txn, evaluate, run_range, range_key,
}

-- The keys of the compares, and those of the point reads among operations, put before others.
abbrev pub compared_keys : List Bytes → List Compare → List Bytes
compared_keys keys [] = keys
compared_keys keys (cond ∷ conds) = compared_keys (cond.key ∷ keys) conds

abbrev pub point_read : List Bytes → RequestOp → List Bytes
point_read keys (RequestOp.request_range req) = elim req.range_end [
  | none ↦ elim req.key [ none ↦ [] ∷ keys | some key ↦ key ∷ keys ]
  | some range_end ↦ keys
]
point_read keys (RequestOp.request_put req) = keys
point_read keys (RequestOp.request_delete_range req) = keys
point_read keys RequestOp.other_request = keys

abbrev pub point_reads : List Bytes → List RequestOp → List Bytes
point_reads keys [] = keys
point_reads keys (op ∷ ops) = point_reads (point_read keys op) ops

-- Whether an operation lists a range.
abbrev pub is_list : RequestOp → Bool
is_list (RequestOp.request_range req) = elim req.range_end [ none ↦ false | some range_end ↦ true ]
is_list (RequestOp.request_put req) = false
is_list (RequestOp.request_delete_range req) = false
is_list RequestOp.other_request = false

abbrev pub any_list : Bool → List RequestOp → Bool
any_list ranged [] = ranged
any_list ranged (op ∷ ops) = any_list (is_list op || ranged) ops

All-insert :
    (P : Bytes × ℕ → Type 0) (k : Bytes) (v : ℕ) (m : List (Bytes × ℕ))
    → All P m
    → P (k, v)
    → All P (insert k v m)
unfolding insert
All-insert P k v [] h p = (p, tt)
All-insert P k v ((j, w) ∷ m) h p = elim (Bool-cases (bytes_equal j k)) [
  | inl same ↦ rw (same, insert) (p, h.1)
  | inr other ↦ rw (other, insert) (h.0, All-insert P k v m h.1 p)
]

module _ (env : Env) (snapshot : ℕ) where
  noted-insert :
      (k : Bytes) (v : ℕ) (m : List (Bytes × ℕ)) (keys : List Bytes)
      → v ≡ observed env k snapshot
      → All (λ j. lookup j m ≡ some (observed env j snapshot)) keys
      → All (λ j. lookup j (insert k v m) ≡ some (observed env j snapshot)) keys
  noted-insert k v m [] is h = tt
  noted-insert k v m (j ∷ keys) is h = (
    lookup-insert k j v m ∙ elim (Bool-cases (bytes_equal k j)) [
      | inl same ↦
          let eq : k ≡ j = bytes_equal_sound k j same in
          rw same (ap some (is ∙ ap (λ i. observed env i snapshot) eq))
      | inr other ↦ rw other h.0
    ],
    noted-insert k v m keys is h.1,
  )

  note_read-IsFaithful :
      (keys : List Bytes) (ranged : Bool) (t : Txn) (k : Bytes)
      → IsFaithful env snapshot keys ranged t
      → IsFaithful env snapshot (k ∷ keys) ranged (note_read env t k)
  unfolding note_read add_read
  note_read-IsFaithful keys ranged t k f = record {
    at_snapshot = f.at_snapshot;
    meta_snapshot = f.meta_snapshot;
    reads =
        All-insert (λ e. e.1 ≡ observed env e.0 snapshot) k (observed env k t.snapshot_timestamp)
          t.meta.read_set f.reads (ap (observed env k) f.at_snapshot);
    noted =
        let at : observed env k t.snapshot_timestamp ≡ observed env k snapshot =
          ap (observed env k) f.at_snapshot in
        (
          lookup-insert k k (observed env k t.snapshot_timestamp) t.meta.read_set
              ∙ rw (bytes_equal_refl k) (ap some at),
          noted-insert k (observed env k t.snapshot_timestamp) t.meta.read_set keys at f.noted,
        );
    lists = f.lists;
    staged = unfold writes in f.staged;
    marked = add_read-IsMarked t.meta k (observed env k t.snapshot_timestamp) f.marked;
  }

  note_list-IsFaithful :
      (keys : List Bytes) (ranged : Bool) (t : Txn)
      → IsFaithful env snapshot keys ranged t
      → IsFaithful env snapshot keys true (record t { meta = add_list t.meta })
  unfolding add_list
  note_list-IsFaithful keys ranged t f = record {
    at_snapshot = f.at_snapshot;
    meta_snapshot = f.meta_snapshot;
    reads = f.reads;
    noted = f.noted;
    lists = refl;
    staged = unfold writes in f.staged;
    marked = add_list-IsMarked t.meta f.marked;
  }

  compares-IsFaithful :
      (keys : List Bytes) (ranged : Bool) (t t' : Txn) (failed failed' : Bool)
      (conds : List Compare)
      → compares env t failed conds ≡ ok (failed', t')
      → IsFaithful env snapshot keys ranged t
      → IsFaithful env snapshot (compared_keys keys conds) ranged t'
  unfolding compares
  compares-IsFaithful keys ranged t t' failed failed' [] e f =
      let same : t ≡ t' = ground arith in rw same at f
  compares-IsFaithful keys ranged t t' failed failed' (cond ∷ conds) e f =
      let (prev, _, e₁) =
        >>=-eq-ok (prev_event env cond.key (get_latest env.index cond.key t.snapshot_timestamp)) _
          e in
      let (passed, _, e₂) = >>=-eq-ok (holds cond prev) _ e₁ in
      compares-IsFaithful (cond.key ∷ keys) ranged (note_read env t cond.key) t'
        (if passed then failed else true) failed' conds e₂
        (note_read-IsFaithful keys ranged t cond.key f)

  run_range-IsFaithful :
      (keys : List Bytes) (ranged : Bool) (t t' : Txn) (req : RangeRequest) (resp : RangeResponse)
      → run_range env t req ≡ ok (resp, t')
      → IsFaithful env snapshot keys ranged t
      → IsFaithful env snapshot
          (point_read keys (RequestOp.request_range req))
          (is_list (RequestOp.request_range req) || ranged)
          t'
  unfolding run_range
  run_range-IsFaithful keys ranged t t' req resp e f = by_end req.range_end refl
    where
      by_key :
          (o : Option Bytes)
          → req.key ≡ o
          → req.range_end ≡ none
          → IsFaithful env snapshot (range_key req ∷ keys) ranged t'
          → IsFaithful env snapshot
              (point_read keys (RequestOp.request_range req))
              (is_list (RequestOp.request_range req) || ranged)
              t'
      by_key none no_key is g = rw (is, no_key) (rw (no_key, range_key) at g)
      by_key (some key) has_key is g = rw (is, has_key) (rw (has_key, range_key) at g)

      by_end :
          (o : Option Bytes)
          → req.range_end ≡ o
          → IsFaithful env snapshot
              (point_read keys (RequestOp.request_range req))
              (is_list (RequestOp.request_range req) || ranged)
              t'
      by_end none is =
          let (r, _, e₁) = >>=-eq-ok (get env t req) _ (rw (is, run_range) at e) in
          let same : note_read env t (range_key req) ≡ t' = cc in
          by_key req.key refl is (rw same at (note_read-IsFaithful keys ranged t (range_key req) f))
      by_end (some range_end) is =
          let (r, _, e₁) = >>=-eq-ok (list env t req) _ (rw (is, run_range) at e) in
          let noted : Txn = record t { meta = add_list t.meta } in
          let same : noted ≡ t' = cc in rw is (rw same at (note_list-IsFaithful keys ranged t f))

  run_op-IsFaithful :
      (keys : List Bytes) (ranged : Bool) (t t' : Txn) (op : RequestOp) (resp : ResponseOp)
      → run_op env t op ≡ ok (resp, t')
      → IsFaithful env snapshot keys ranged t
      → IsFaithful env snapshot (point_read keys op) (is_list op || ranged) t'
  unfolding run_op
  run_op-IsFaithful keys ranged t t' (RequestOp.request_put req) resp e f =
      let ((r, u), e₁, e₂) = >>=-eq-ok (put env t req) _ e in
      let same : u ≡ t' = cc in rw same at (put-IsFaithful env snapshot keys ranged t u req r e₁ f)
  run_op-IsFaithful keys ranged t t' (RequestOp.request_delete_range req) resp e f =
      let ((r, u), e₁, e₂) = >>=-eq-ok (delete env t req) _ e in
      let same : u ≡ t' = cc in
      rw same at (delete-IsFaithful env snapshot keys ranged t u req r e₁ f)
  run_op-IsFaithful keys ranged t t' (RequestOp.request_range req) resp e f =
      let ((r, u), e₁, e₂) = >>=-eq-ok (run_range env t req) _ e in
      let same : u ≡ t' = cc in rw same at (run_range-IsFaithful keys ranged t u req r e₁ f)
  run_op-IsFaithful keys ranged t t' RequestOp.other_request resp e f = absurd (ground arith)

  run_ops-IsFaithful :
      (keys : List Bytes) (ranged : Bool) (t t' : Txn) (ops : List RequestOp)
      (resps : List ResponseOp)
      → run_ops env t ops ≡ ok (resps, t')
      → IsFaithful env snapshot keys ranged t
      → IsFaithful env snapshot (point_reads keys ops) (any_list ranged ops) t'
  unfolding run_ops
  run_ops-IsFaithful keys ranged t t' [] resps e f = let same : t ≡ t' = cc in rw same at f
  run_ops-IsFaithful keys ranged t t' (op ∷ ops) resps e f =
      let ((r, u), e₁, e₂) = >>=-eq-ok (run_op env t op) _ e in
      let ((rs, v), e₃, e₄) = >>=-eq-ok (run_ops env u ops) _ e₂ in
      let same : v ≡ t' = cc in
      rw same at (
        run_ops-IsFaithful (point_read keys op) (is_list op || ranged) u v ops rs e₃
          (run_op-IsFaithful keys ranged t u op r e₁ f))

-- The operations that a transaction ran, by its response.
abbrev pub ran : TxnRequest → Bool → List RequestOp
ran req succeeded = if succeeded then req.success else req.failure

-- A transaction that evaluates without an error has recorded what it did: the snapshot; for the key
-- of every compare and of every point read among the operations that it ran, an entry of the read
-- set; in every entry the revision that the index has for its key at the snapshot, 0 for none; the
-- mark of a range read if and only if one of these operations was a list; and every key that a
-- staged event writes. Each staged event carries the revision after the snapshot.
pub evaluate-IsFaithful :
    (env : Env) (req : TxnRequest) (snapshot : ℕ) (resp : TxnResponse) (t : Txn)
    → evaluate env req snapshot ≡ ok (resp, t)
    → IsFaithful env snapshot
        (point_reads (compared_keys [] req.compare) (ran req resp.succeeded))
        (any_list false (ran req resp.succeeded))
        t
unfolding evaluate new_txn
evaluate-IsFaithful env req snapshot resp t e =
    let ((failed, u), e₁, e₂) = >>=-eq-ok (compares env (new_txn snapshot) false req.compare) _ e in
    let ((rs, v), e₃, e₄) =
      >>=-eq-ok (run_ops env u (if failed then req.failure else req.success)) _ e₂ in
    let start : IsFaithful env snapshot [] false (new_txn snapshot) = record {
      at_snapshot = refl;
      meta_snapshot = unfold new_txn_meta in refl;
      reads = unfold new_txn_meta in tt;
      noted = tt;
      lists = unfold new_txn_meta in refl;
      staged = tt;
      marked = new_txn_meta-IsMarked snapshot;
    } in
    let same : v ≡ t = cc in
    let succeeded : not failed ≡ resp.succeeded = cc in
    let branch : (if failed then req.failure else req.success) ≡ ran req resp.succeeded =
      by_branch failed ∙ ap (ran req) succeeded in
    let compared =
      compares-IsFaithful env snapshot [] false (new_txn snapshot) u false failed req.compare e₁
        start in
    rw same at (
      rw branch at (
        run_ops-IsFaithful env snapshot (compared_keys [] req.compare) false u v
          (if failed then req.failure else req.success) rs e₃ compared))
  where
    by_branch :
        (failed : Bool) → (if failed then req.failure else req.success) ≡ ran req (not failed)
    by_branch true = refl
    by_branch false = refl
