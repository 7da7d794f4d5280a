-- ===== src/Watch.antt =====
-- pkg/storage/memorystorage/watch.go: a watcher, the events that it sends and the loop that sends them.
-- The log is a function from positions to what GetLogEntry returns. The callback, which sends a
-- response, is the list of responses; a send that fails would end the loop.
pub mod Laws
use cloudetcd.Base.{
  ℕ, zero, suc, ◌+◌, ◌-◌, Bytes, Bool, true, false, not, ◌&&◌, ◌||◌, List, [], ◌∷◌, ◌++◌, Option,
  none, some, length, ltb, leb, nat_beq, is_empty, bytes_equal, bytes_less, if◌then◌else◌,
}
use cloudetcd.Event.{KeyValue, EventType, Event, LogRecord}
use cloudetcd.Outcome.{Error, Outcome, ok, err, fatal, ◌>>=◌, ◌>>◌}
use cloudetcd.Storage.{Fetch, found, missing, failed, is_internal_key}

pub data RangeType : Type 0 where
  range_type_key : RangeType
  range_type_range_no_end : RangeType
  range_type_range_normal : RangeType

-- `other_filter` is any number that the enumeration does not name.
pub data Filter : Type 0 where
  no_put : Filter
  no_delete : Filter
  other_filter : Filter

pub record WatchCreateRequest : Type 0 where
  pub key : Bytes
  pub range_end : Bytes
  pub start_revision : ℕ
  pub watch_id : ℕ
  pub prev_kv : Bool
  pub filters : List Filter

-- `watch_done_revision` and its mirror `delivered` are one number: they are set together.
pub record Watcher : Type 0 where
  pub id : ℕ
  pub req : WatchCreateRequest
  pub range_type : RangeType
  pub watch_done_revision : ℕ
  pub log_position : ℕ
  pub closed : Bool

range_type_of : Bytes → RangeType
range_type_of [] = RangeType.range_type_key
range_type_of (b ∷ range_end) =
    if bytes_equal (b ∷ range_end) (0 ∷ [])
    then RangeType.range_type_range_no_end
    else RangeType.range_type_range_normal

-- Watch, for the compacted revision and the current revision of the log.
unfoldable pub watch : ℕ → Option ℕ → WatchCreateRequest → Outcome Watcher
unfolding range_type_of
watch compacted current req =
    if ltb 0 req.start_revision && leb req.start_revision compacted
    then err Error.compacted
    else if nat_beq req.watch_id 0
    then err Error.bad_watch_id
    else elim current [
      | none ↦ err Error.log_failed
      | some log_position ↦ ok (record {
        id = req.watch_id;
        req = req;
        range_type = range_type_of req.range_end;
        watch_done_revision =
            if nat_beq req.start_revision 0 then log_position else req.start_revision - 1;
        log_position = log_position;
        closed = false;
      })
    ]

unfoldable pub close : Watcher → Watcher
close w = record w { closed = true }

-- What OnLogEntry of memory.go does to one watcher.
unfoldable pub on_log_entry : ℕ → Watcher → Watcher
on_log_entry log_position w = record w { log_position = log_position }

-- One round of the loop over the filters.
filter_event : Filter → Event → Bool → Outcome Bool
filter_event Filter.no_put event should_send = elim event.kind [
  | EventType.put ↦ ok false
  | _ ↦ ok should_send
]
filter_event Filter.no_delete event should_send = elim event.kind [
  | EventType.delete ↦ ok false
  | _ ↦ ok should_send
]
filter_event Filter.other_filter event should_send = fatal

unfoldable pub filter_events : List Filter → Event → Bool → Outcome Bool
unfolding filter_event
filter_events [] event should_send = ok should_send
filter_events (filter ∷ filters) event should_send = do
  next ← filter_event filter event should_send
  filter_events filters event next

-- The switch on the range type.
unfoldable pub in_range : Watcher → Bytes → Bool
in_range w key = elim w.range_type [
  | RangeType.range_type_key ↦ bytes_equal key w.req.key
  | RangeType.range_type_range_normal ↦
      not (bytes_less key w.req.key || not (bytes_less key w.req.range_end))
  | RangeType.range_type_range_no_end ↦ not (bytes_less key w.req.key)
]

-- Whether one event is sent.
unfoldable pub should_send : Watcher → Event → Outcome Bool
should_send w event =
    if is_internal_key event.kv.key
    then ok false
    else (do pass ← filter_events w.req.filters event true; ok (pass && in_range w event.kv.key))

-- The loop over the events of one revision.
unfoldable pub select_events : Watcher → List Event → Outcome (List Event)
select_events w [] = ok []
select_events w (event ∷ events) = do
  send ← should_send w event
  rest ← select_events w events
  ok (if send then event ∷ rest else rest)

unfoldable pub without_prev_kv : List Event → List Event
without_prev_kv [] = []
without_prev_kv (event ∷ events) = record event { prev_kv = none } ∷ without_prev_kv events

unfoldable pub get_watch_event : Fetch → Outcome (List Event)
get_watch_event (found log_entry) = ok log_entry.events
get_watch_event missing = err Error.entry_not_found
get_watch_event failed = err Error.log_failed

unfoldable pub collect : Watcher → Fetch → Outcome (List Event)
unfolding get_watch_event
collect w fetch = do
  events ← get_watch_event fetch
  send_events ← select_events w events
  ok (if w.req.prev_kv then send_events else without_prev_kv send_events)

abbrev pub max_revisions_per_response : ℕ
max_revisions_per_response = 256

abbrev pub max_events_per_response : ℕ
max_events_per_response = 512

-- The inner loop of Run: gathers events from `last` on, for the rounds left up to the bound.
unfoldable pub gather : ℕ → Watcher → (ℕ → Fetch) → ℕ → ℕ → List Event → Outcome (ℕ × List Event)
gather zero w fetch log_position last events = ok (last, events)
gather (suc rounds) w fetch log_position last events =
    let rest = (do
      evs ← collect w (fetch (suc last))
      gather rounds w fetch log_position (suc last) (events ++ evs)) in
    if ltb last log_position && ltb (length events) max_events_per_response
    then rest
    else ok (last, events)

-- One response: the revision in its header and its events.
pub record WatchResponse : Type 0 where
  pub revision : ℕ
  pub watch_id : ℕ
  pub events : List Event

-- The response of one round, if there is anything to send.
unfoldable pub response_of : Watcher → ℕ → List Event → List WatchResponse
response_of w last [] = []
response_of w last (event ∷ events) =
    record { revision = last; watch_id = w.id; events = event ∷ events } ∷ []

-- The middle loop of Run up to the log position, with fuel for the revisions left: the responses
-- sent and the watcher behind them. Each round goes on by at least one revision.
unfoldable pub send_up_to : ℕ → (ℕ → Fetch) → ℕ → Watcher → Outcome (List WatchResponse × Watcher)
send_up_to zero fetch log_position w = ok ([], w)
send_up_to (suc fuel) fetch log_position w =
    let more = (do
      (last, events) ←
          gather max_revisions_per_response w fetch log_position w.watch_done_revision []
      (responses, w') ← send_up_to fuel fetch log_position (record w { watch_done_revision = last })
      ok (response_of w last events ++ responses, w')) in
    if ltb w.watch_done_revision log_position then more else ok ([], w)
