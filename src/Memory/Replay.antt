-- ===== src/Memory/Replay.antt =====
-- ReplayLog of pkg/storage/memorystorage/memory.go: what a restart builds from the log.
use cloudetcd.Base.{
  ℕ, zero, suc, ◌≡◌, refl, ap, Bool, true, false, Bytes, List, [], ◌∷◌, Option, none, some, arith,
  nat_beq, if◌then◌else◌,
}
use cloudetcd.Index.{add}
use cloudetcd.Lease.{LeaseManager, on_log_event}
use cloudetcd.Lease.Alike.{HaveSame, on_log_event-HaveSame}
use cloudetcd.Event.{EventType, Event, LogRecord}
use cloudetcd.TxnMeta.{new_txn_meta}
use cloudetcd.Outcome.{Error, Outcome, ok, err, fatal, ◌>>=◌, >>=-eq-ok}
use cloudetcd.Storage.{Fetch, found}
use cloudetcd.Memory.{
  AppendResult, appended, rejected, append_failed, Log, MemoryStorage, apply_event, apply_events,
  apply_one, after_record, go_on, apply_loop, replay_records,
}

-- ReplayLog: on an empty log it appends the dummy record, which must get revision 1.
dummy : {L : Type 0} → MemoryStorage → AppendResult × L → L × Outcome MemoryStorage
dummy s (appended revision, l) =
    (l, if nat_beq revision 1 then ok (record s { applied = revision }) else err Error.log_failed)
dummy s (rejected, l) = (l, err Error.log_failed)
dummy s (append_failed, l) = (l, err Error.log_failed)

from_records :
    (Bytes → Option ℕ)
    → ℕ
    → ℕ
    → Option (List (ℕ × LogRecord))
    → MemoryStorage
    → Outcome MemoryStorage
from_records decode_ttl now current none s = err Error.log_failed
from_records decode_ttl now current (some records) s = do
  s' ← replay_records decode_ttl now records s
  ok (record s' { applied = current })

unfoldable pub replay_log :
    {L : Type 0} → (Bytes → Option ℕ) → ℕ → Log L → L → MemoryStorage → L × Outcome MemoryStorage
unfolding dummy from_records
replay_log decode_ttl now log l s = elim (log.get_current_revision l) [
  | none ↦ (l, err Error.log_failed)
  | some zero ↦ dummy s (log.append l (record { events = [] }) (new_txn_meta 0))
  | some (suc n) ↦ (l, from_records decode_ttl now (suc n) (log.read l) s)
]

-- The records `r + 1`, `r + 2`, … of the log, as Read gives them.
abbrev pub AreRecords : (ℕ → Fetch) → ℕ → List (ℕ × LogRecord) → Type 0
AreRecords fetch r [] = Unit
AreRecords fetch r ((revision, log_entry) ∷ records) =
    (revision ≡ suc r) × (fetch (suc r) ≡ found log_entry) × AreRecords fetch (suc r) records

abbrev pub count_records : List (ℕ × LogRecord) → ℕ
count_records [] = 0
count_records (entry ∷ records) = suc (count_records records)

-- The index, the compacted revision and the watchers of two storages are the same, and so are their
-- leases, but for the times at which they expire. The revision that is applied may differ: the replay
-- sets it only at the end.
pub record Restored (s u : MemoryStorage) : Type 0 where
  pub revisions : u.revisions ≡ s.revisions
  pub compacted : u.compacted ≡ s.compacted
  pub watchers : u.watchers ≡ s.watchers
  pub leases : HaveSame s.lease_manager u.lease_manager

module _ (decode_ttl : Bytes → Option ℕ) (now now' : ℕ) where
  apply_event-Restored :
      (r : ℕ) (event : Event) (s s' u : MemoryStorage)
      → Restored s u
      → apply_event decode_ttl now r event s ≡ ok s'
      → (u' : MemoryStorage) × (apply_event decode_ttl now' r event u ≡ ok u') × Restored s' u'
  unfolding apply_event
  apply_event-Restored r event s s' u h e = by_kind event.kind refl
    where
      Goal : Type 0
      Goal = (u' : MemoryStorage) × (apply_event decode_ttl now' r event u ≡ ok u') × Restored s' u'

      added :
          (tombstone : Bool) (m n : LeaseManager)
          → record s { revisions = add s.revisions event.kv.key r tombstone; lease_manager = m }
            ≡ s'
          → HaveSame m n
          → Restored s'
              (record u { revisions = add u.revisions event.kv.key r tombstone; lease_manager = n })
      added tombstone m n same leases =
          let restored : Restored
              (record s { revisions = add s.revisions event.kv.key r tombstone; lease_manager = m })
              (record u {
                revisions = add u.revisions event.kv.key r tombstone;
                lease_manager = n;
              }) =
            record {
              revisions = ap (λ i. add i event.kv.key r tombstone) h.revisions;
              compacted = h.compacted;
              watchers = h.watchers;
              leases = leases;
            } in
          rw same at restored

      by_kind : (kind : EventType) → event.kind ≡ kind → Goal
      by_kind EventType.put is =
          let (m, e₁, e₂) =
            >>=-eq-ok (on_log_event decode_ttl now event s.lease_manager) _
              (rw (is, apply_event) at e) in
          let (n, e₃, leases) =
            on_log_event-HaveSame decode_ttl now now' event s.lease_manager u.lease_manager m
              h.leases e₁ in
          (
            record u { revisions = add u.revisions event.kv.key r false; lease_manager = n },
            rw (is, apply_event) (rw e₃ refl),
            added false m n (ground arith) leases,
          )
      by_kind EventType.delete is =
          let (m, e₁, e₂) =
            >>=-eq-ok (on_log_event decode_ttl now event s.lease_manager) _
              (rw (is, apply_event) at e) in
          let (n, e₃, leases) =
            on_log_event-HaveSame decode_ttl now now' event s.lease_manager u.lease_manager m
              h.leases e₁ in
          (
            record u { revisions = add u.revisions event.kv.key r true; lease_manager = n },
            rw (is, apply_event) (rw e₃ refl),
            added true m n (ground arith) leases,
          )
      by_kind (EventType.other k) is = absurd (ground arith)

  apply_events-Restored :
      (r : ℕ) (events : List Event) (s s' u : MemoryStorage)
      → Restored s u
      → apply_events decode_ttl now r events s ≡ ok s'
      → (u' : MemoryStorage) × (apply_events decode_ttl now' r events u ≡ ok u') × Restored s' u'
  unfolding apply_events
  apply_events-Restored r [] s s' u h e =
      let same : s ≡ s' = ground arith in (u, refl, rw same at h)
  apply_events-Restored r (event ∷ events) s s' u h e =
      let (v, e₁, e₂) = >>=-eq-ok (apply_event decode_ttl now r event s) _ e in
      let (v', one, h') = apply_event-Restored r event s v u h e₁ in
      let (u', rest, h'') = apply_events-Restored r events v s' v' h' e₂ in (u', rw one rest, h'')

  -- A round that succeeds at a record that is there has applied its events.
  apply_one-found :
      (fetch : ℕ → Fetch) (s : MemoryStorage) (log_entry : LogRecord)
      → fetch (suc s.applied) ≡ found log_entry
      → (apply_one decode_ttl now fetch s).1 ≡ ok tt
      → (u : MemoryStorage) × (apply_events decode_ttl now (suc s.applied) log_entry.events s
          ≡ ok u)
        × (apply_one decode_ttl now fetch s ≡ (record u { applied = suc s.applied }, ok tt))
  unfolding apply_one after_record
  apply_one-found fetch s log_entry is e =
      by_outcome (apply_events decode_ttl now (suc s.applied) log_entry.events s) refl
    where
      by_outcome :
          (o : Outcome MemoryStorage)
          → apply_events decode_ttl now (suc s.applied) log_entry.events s ≡ o
          → (u : MemoryStorage) × (apply_events decode_ttl now (suc s.applied) log_entry.events s
              ≡ ok u)
            × (apply_one decode_ttl now fetch s ≡ (record u { applied = suc s.applied }, ok tt))
      by_outcome (ok u) done = (u, done, rw (is, apply_one) (rw (done, after_record)))
      by_outcome (err x) done = absurd (ground arith)
      by_outcome fatal done = absurd (ground arith)

  -- Records of the log that follow each other without a gap, as they do until the log is compacted,
  -- from the one behind the applied revision on: if applying them one by one, as they were
  -- committed, succeeds, then so does a replay of them at any other time, from a storage with the
  -- same index and leases. It builds the same index and a lease table with the same leases: the same
  -- ids, each with the same keys and TTL. Only the times at which these expire may differ.
  pub replay_records-apply_loop :
      (fetch : ℕ → Fetch) (records : List (ℕ × LogRecord)) (s s' u : MemoryStorage)
      → Restored s u
      → AreRecords fetch s.applied records
      → apply_loop decode_ttl now (count_records records) fetch s ≡ (s', ok tt)
      → (u' : MemoryStorage) × (replay_records decode_ttl now' records u ≡ ok u') × Restored s' u'
  unfolding replay_records apply_loop
  replay_records-apply_loop fetch [] s s' u h are e =
      let same : s ≡ s' = ground arith in (u, refl, rw same at h)
  replay_records-apply_loop fetch ((revision, log_entry) ∷ records) s s' u h (is, there, are) e =
      by_result (apply_one decode_ttl now fetch s).1 refl
        (λ t. replay_records-apply_loop fetch records t s')
    where
      Goal : Type 0
      Goal =
          (u' : MemoryStorage) × (replay_records decode_ttl now' ((revision, log_entry) ∷ records) u
            ≡ ok u')
          × Restored s' u'

      by_result :
          (o : Outcome (Unit {0}))
          → (apply_one decode_ttl now fetch s).1 ≡ o
          → ((t u : MemoryStorage)
              → Restored t u
              → AreRecords fetch t.applied records
              → apply_loop decode_ttl now (count_records records) fetch t ≡ (s', ok tt)
              → (u' : MemoryStorage) × (replay_records decode_ttl now' records u ≡ ok u')
                × Restored s' u')
          → Goal
      by_result (ok x) done rest =
          let (t, applied, one) = apply_one-found fetch s log_entry there done in
          let (v, replayed, h') =
            apply_events-Restored (suc s.applied) log_entry.events s t u h applied in
          let (u', later, h'') =
            rest (record t { applied = suc s.applied }) v
              (record {
                revisions = h'.revisions;
                compacted = h'.compacted;
                watchers = h'.watchers;
                leases = h'.leases;
              })
              are (rw one at e) in
          (u', rw is (rw replayed later), h'')
      by_result (err x) done rest = absurd (ground (arith, go_on))
      by_result fatal done rest = absurd (ground (arith, go_on))
