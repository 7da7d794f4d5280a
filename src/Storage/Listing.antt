-- ===== src/Storage/Listing.antt =====
-- txn.list of pkg/storage/memorystorage/memory.go.
use cloudetcd.Base.{
  ℕ, ◌+◌, ◌≡◌, refl, Bytes, Bool, true, false, ◌&&◌, List, [], ◌∷◌, ◌++◌, Option, none, some, ltb,
  leb, bytes_equal, bytes_less, if◌then◌else◌, arith,
}
use cloudetcd.Event.{EventType, Event}
use cloudetcd.Index.{list_range, latest_at}
use cloudetcd.Outcome.{Error, Outcome, ok, err, fatal, ◌>>=◌, ◌>>◌}
use cloudetcd.Request.{RangeRequest, RangeResponse}
use cloudetcd.Storage.{
  Fetch, found, missing, failed, Env, Txn, is_internal_key, read_revision, copy_without_value,
}

-- The response that grows, and how the walk has ended so far.
pub record ListState : Type 0 where
  pub resp : RangeResponse
  pub status : Outcome (Unit {0})

-- One put event of a record, as the request wants it.
count_event : RangeRequest → Event → RangeResponse → RangeResponse
count_event req event resp = elim event.kind [
  | EventType.put ↦ if req.count_only then record resp { count = resp.count + 1 } else record resp {
    count = resp.count + 1;
    kvs = resp.kvs ++ (if req.keys_only then copy_without_value event.kv else event.kv) ∷ [];
  }
  | _ ↦ resp
]

-- The loop over the events of one record; false stops the walk at the limit.
unfoldable pub list_events : RangeRequest → List Event → RangeResponse → RangeResponse × Bool
unfolding count_event
list_events req [] resp = (resp, true)
list_events req (event ∷ events) resp =
    let resp' = count_event req event resp in
    let rest = list_events req events resp' in
    if ltb 0 req.limit && leb req.limit resp'.count
    then (record resp' { more = true }, false)
    else rest

-- The loop that keeps the last revision that is not after the snapshot.
unfoldable pub scan_latest : ℕ → Option ℕ → List ℕ → Option ℕ
scan_latest snapshot latest [] = latest
scan_latest snapshot latest (revision ∷ revisions) =
    scan_latest snapshot (if leb revision snapshot then some revision else latest) revisions

list_record : RangeRequest → Fetch → ListState → ListState × Bool
list_record req (found log_entry) s =
    let (resp, go_on) = list_events req log_entry.events s.resp in (record s { resp = resp }, go_on)
list_record req missing s = (record s { status = fatal }, false)
list_record req failed s = (record s { status = err Error.log_failed }, false)

-- Whether the request has a range end other than "\0".
unfoldable pub past_end : Option Bytes → Bytes → Bool
past_end none key = false
past_end (some range_end) key =
    if bytes_equal range_end (0 ∷ [])
    then false
    else (if bytes_less key range_end then false else true)

-- The callback of txn.list.
unfoldable pub list_callback :
    Env → RangeRequest → ℕ → Bytes → List ℕ → ListState → ListState × Bool
unfolding list_record
list_callback env req snapshot key revisions s =
    if past_end req.range_end key
    then (s, false)
    else if is_internal_key key
    then (s, true)
    else elim (scan_latest snapshot none revisions) [
      | none ↦ (s, true)
      | some latest ↦ list_record req (env.get_log_entry latest) s
    ]

start_key : Option Bytes → Bytes
start_key none = []
start_key (some key) = key

-- txn.list.
unfoldable pub list : Env → Txn → RangeRequest → Outcome RangeResponse
unfolding start_key
list env t req = elim req.range_end [
  | none ↦ err Error.range_end_required
  | some _ ↦ do
    snapshot ← read_revision env t req
    let resp : RangeResponse = record { header = some snapshot; kvs = []; count = 0; more = false }
    let s =
        list_range (list_callback env req snapshot) (start_key req.key) env.index
          (record { resp = resp; status = ok tt })
    s.status
    ok s.resp
]

-- The loop of txn.list finds the revision that GetLatestRevisionByKey finds.
pub scan_latest-latest_at :
    (snapshot : ℕ) (latest : Option ℕ) (rs : List ℕ)
    → scan_latest snapshot latest rs
      ≡ elim (latest_at snapshot rs) [ none ↦ latest | some r ↦ some r ]
unfolding scan_latest latest_at
scan_latest-latest_at snapshot latest [] = refl
scan_latest-latest_at snapshot latest (r ∷ rs) =
    ground (arith, scan_latest-latest_at snapshot (if leb r snapshot then some r else latest) rs)
