-- ===== src/Storage/Evaluate/Faithful.antt =====
-- The read and write sets of a transaction of pkg/storage/memorystorage/memory.go, and what put and
-- delete add to them.
use cloudetcd.Base.{
  ℕ, suc, ◌≡◌, refl, ap, ◌∙◌, Bytes, Bool, true, List, [], ◌∷◌, Option, none, some, arith, nat_beq,
  bytes_equal, bytes_equal_iff, bytes_eq, lookup, lookup-insert, All, All-append, if◌then◌else◌,
  Bool-cases, inl, inr,
}
use cloudetcd.Event.{KeyValue, EventType, Event}
use cloudetcd.TxnMeta.{TxnMeta, add_write, writes}
use cloudetcd.Index.{get_latest}
use cloudetcd.Batch.Mates.{IsMarked, add_write-IsMarked}
use cloudetcd.Outcome.{ok, ◌>>=◌, >>=-eq-ok}
use cloudetcd.Request.{PutRequest, DeleteRangeRequest, PutResponse, DeleteRangeResponse}
use cloudetcd.Storage.{
  Env, Txn, prev_event, live_kv, put_kv, stage, put, delete, event_of, delete_event,
}
use cloudetcd.Storage.Evaluate.{observed}

-- What the sets say is what the transaction saw and staged: the keys that it read so far are in the
-- read set, and a list that it ran is marked.
pub record IsFaithful (env : Env) (snapshot : ℕ) (keys : List Bytes) (ranged : Bool) (t : Txn)
    : Type 0 where
  pub at_snapshot : t.snapshot_timestamp ≡ snapshot
  pub meta_snapshot : t.meta.snapshot_revision ≡ snapshot
  pub reads : All (λ e. e.1 ≡ observed env e.0 snapshot) t.meta.read_set
  pub noted : All (λ k. lookup k t.meta.read_set ≡ some (observed env k snapshot)) keys
  pub lists : t.meta.has_range_read ≡ ranged
  pub staged :
      All (λ e. (writes t.meta e.kv.key ≡ true) × (e.kv.mod_revision ≡ suc snapshot)) t.log_events
  pub marked : IsMarked t.meta

writes-add_write :
    (m : TxnMeta) (k j : Bytes)
    → writes (add_write m k) j ≡ (if bytes_equal k j then true else writes m j)
unfolding writes add_write
writes-add_write m k j = ground (arith, lookup-insert {V = Bool} k j true m.write_set)

module _ (env : Env) (snapshot : ℕ) (keys : List Bytes) (ranged : Bool) where
  staged-add_write :
      (m : TxnMeta) (k : Bytes) (events : List Event)
      → All (λ e. (writes m e.kv.key ≡ true) × (e.kv.mod_revision ≡ suc snapshot)) events
      → All
          (λ e. (writes (add_write m k) e.kv.key ≡ true) × (e.kv.mod_revision ≡ suc snapshot))
          events
  staged-add_write m k [] h = tt
  staged-add_write m k (e ∷ events) h =
      ((ground (arith, writes-add_write m k e.kv.key), h.0.1), staged-add_write m k events h.1)

  stage-IsFaithful :
      (t : Txn) (e : Event) (k : Bytes)
      → e.kv.key ≡ k
      → e.kv.mod_revision ≡ suc snapshot
      → IsFaithful env snapshot keys ranged t
      → IsFaithful env snapshot keys ranged (stage t e k)
  unfolding stage
  stage-IsFaithful t e k key revision f = record {
    at_snapshot = f.at_snapshot;
    meta_snapshot = unfold add_write in f.meta_snapshot;
    reads = unfold add_write in f.reads;
    noted = unfold add_write in f.noted;
    lists = unfold add_write in f.lists;
    staged = All-append _ t.log_events (e ∷ []) (staged-add_write t.meta k t.log_events f.staged) (
      (ground (arith, writes-add_write t.meta k e.kv.key, bytes_equal_iff k e.kv.key), revision),
      tt,
    );
    marked = add_write-IsMarked t.meta k f.marked;
  }

  put_kv_fields :
      (req : PutRequest) (s : ℕ) (prev : Option KeyValue)
      → ((put_kv req s prev).key ≡ req.key) × ((put_kv req s prev).mod_revision ≡ suc s)
  unfolding put_kv
  put_kv_fields req s none = (refl, refl)
  put_kv_fields req s (some prev) = (refl, refl)

  pub put-IsFaithful :
      (t t' : Txn) (req : PutRequest) (resp : PutResponse)
      → put env t req ≡ ok (resp, t')
      → IsFaithful env snapshot keys ranged t
      → IsFaithful env snapshot keys ranged t'
  unfolding put
  put-IsFaithful t t' req resp e f =
      elim (Bool-cases (if nat_beq req.lease 0 then true else env.has_lease req.lease)) [
        | inr no_lease ↦ absurd (ground arith)
        | inl leased ↦
            let (prev, _, e₁) =
              >>=-eq-ok (prev_event env req.key (get_latest env.index req.key t.snapshot_timestamp))
                _ (rw leased at e) in
            let (prev_kv, _, e₂) = >>=-eq-ok (live_kv prev) _ e₁ in
            let event : Event = record {
              kind = EventType.put;
              kv = put_kv req t.snapshot_timestamp prev_kv;
              prev_kv = prev_kv;
            } in
            let same : stage t event req.key ≡ t' = cc in
            let fields = put_kv_fields req t.snapshot_timestamp prev_kv in
            rw same at
              (stage-IsFaithful t event req.key fields.0 (fields.1 ∙ ap suc f.at_snapshot) f)
      ]

  delete_event-IsFaithful :
      (t t' : Txn) (k : Bytes) (old : Event) (resp : DeleteRangeResponse)
      → delete_event t k old ≡ ok (resp, t')
      → IsFaithful env snapshot keys ranged t
      → IsFaithful env snapshot keys ranged t'
  unfolding delete_event
  delete_event-IsFaithful t t' k old resp e f = by_kind old.kind refl
    where
      event : Event
      event = record {
        kind = EventType.delete;
        kv = record {
          key = k;
          value = [];
          create_revision = 0;
          mod_revision = suc t.snapshot_timestamp;
          version = 0;
          lease = 0;
        };
        prev_kv = some old.kv;
      }

      by_kind : (kind : EventType) → old.kind ≡ kind → IsFaithful env snapshot keys ranged t'
      by_kind EventType.put is =
          let same : stage t event k ≡ t' = ground arith in
          rw same at (stage-IsFaithful t event k refl (ap suc f.at_snapshot) f)
      by_kind EventType.delete is = absurd (ground arith)
      by_kind (EventType.other n) is = absurd (ground arith)

  pub delete-IsFaithful :
      (t t' : Txn) (req : DeleteRangeRequest) (resp : DeleteRangeResponse)
      → delete env t req ≡ ok (resp, t')
      → IsFaithful env snapshot keys ranged t
      → IsFaithful env snapshot keys ranged t'
  unfolding delete
  delete-IsFaithful t t' req resp e f = by_end req.range_end refl
    where
      by_latest :
          (latest : Option ℕ)
          → get_latest env.index req.key t.snapshot_timestamp ≡ latest
          → req.range_end ≡ none
          → IsFaithful env snapshot keys ranged t'
      by_latest none absent no_end = let same : t ≡ t' = ground arith in rw same at f
      by_latest (some latest) present no_end =
          let e' : (event_of (env.get_log_entry latest) req.key >>= λ old.
          delete_event t req.key old)
              ≡ ok (resp, t') =
            rw (present, delete) at (rw (no_end, delete) at e) in
          let (old, _, e₁) = >>=-eq-ok (event_of (env.get_log_entry latest) req.key) _ e' in
          delete_event-IsFaithful t t' req.key old resp e₁ f

      by_end : (o : Option Bytes) → req.range_end ≡ o → IsFaithful env snapshot keys ranged t'
      by_end (some range_end) is = absurd (ground arith)
      by_end none is = by_latest (get_latest env.index req.key t.snapshot_timestamp) refl is
