-- ===== src/FileLog/Live.antt =====
-- liveRecords of pkg/persistence/filesystemlog/filesystem_log.go: the records of a file that compaction
-- keeps.
use cloudetcd.Base.{
  ℕ, suc, ◌+◌, ◌-◌, ◌≤◌, ◌≡◌, refl, sym, ap, ◌∙◌, Bytes, Bool, true, false, List, [], ◌∷◌, ◌++◌, In,
  some, arith, length, length-append, take, take_all, ltb, lookup, bytes_eq, inl, inr, Bool-cases,
  if◌then◌else◌,
}
use mathlib.Core.List.{append_assoc}
use cloudetcd.Event.{Event, LogRecord}
use cloudetcd.Outcome.{Outcome, ok, ◌>>=◌}
use cloudetcd.Codec.Protowire.{Wire, Proto, IsProto, IsWritable, message}
use cloudetcd.Codec.{magic, frame}
use cloudetcd.Codec.Frames.{frames, spans_at}
use cloudetcd.Codec.RoundTrip.{span_bytes-frame}
use cloudetcd.Codec.Alias.Fields.{decode_alias-message}
use cloudetcd.FileLog.{Disk, LogFile, revision_at, read_file, load}
use cloudetcd.FileLog.Compact.{any_live, Live, live_loop, live_records}

module _ (w : Wire) where
  -- The messages of records, each with its revision.
  unfoldable pub messages_of : List (LogRecord × ℕ) → List (Bytes × ℕ)
  messages_of [] = []
  messages_of ((r, revision) ∷ records) =
      (message w revision r.events, revision) ∷ messages_of records

  abbrev pub AllWritable : List (LogRecord × ℕ) → Type 0
  AllWritable [] = Unit
  AllWritable ((r, revision) ∷ records) = IsWritable w revision r.events × AllWritable records

-- A record is live when one of the keys that it touches is live at its revision.
abbrev pub IsLive : (Bytes → ℕ → Bool) → ℕ → List Event → Type 0
IsLive live revision events = (e : Event) × In e events × (live e.kv.key revision ≡ true)

-- The second list has the live records of the first one and no others, in order.
pub data Selects (live : Bytes → ℕ → Bool)
    : List (LogRecord × ℕ) → List (LogRecord × ℕ) → Type 0 where
  selects_nothing : Selects live [] []
  keeps :
      {r : LogRecord} {revision : ℕ} {records kept : List (LogRecord × ℕ)}
      → IsLive live revision r.events
      → Selects live records kept
      → Selects live ((r, revision) ∷ records) ((r, revision) ∷ kept)
  drops :
      {r : LogRecord} {revision : ℕ} {records kept : List (LogRecord × ℕ)}
      → ¬ IsLive live revision r.events
      → Selects live records kept
      → Selects live ((r, revision) ∷ records) kept

any_live-IsLive :
    (live : Bytes → ℕ → Bool) (revision : ℕ) (events : List Event)
    → any_live live revision events ≡ true
    → IsLive live revision events
unfolding any_live
any_live-IsLive live revision [] h = absurd (ground arith)
any_live-IsLive live revision (e ∷ events) h = elim (Bool-cases (live e.kv.key revision)) [
  | inl lives ↦ (e, inl refl, lives)
  | inr dies ↦
      let (e', there, lives) = any_live-IsLive live revision events (rw dies at h) in
      (e', inr there, lives)
]

any_live-here :
    (live : Bytes → ℕ → Bool) (revision : ℕ) (events : List Event) (e : Event)
    → In e events
    → live e.kv.key revision ≡ true
    → any_live live revision events ≡ true
unfolding any_live
any_live-here live revision [] e there lives = absurd there
any_live-here live revision (x ∷ events) e (inl same) lives =
    let here : live x.kv.key revision ≡ true = rw (← same) lives in rw here refl
any_live-here live revision (x ∷ events) e (inr there) lives =
    let rest = any_live-here live revision events e there lives in ground arith

-- The records that are live at their revision.
unfoldable live_of : (Bytes → ℕ → Bool) → List (LogRecord × ℕ) → List (LogRecord × ℕ)
live_of live [] = []
live_of live ((r, revision) ∷ records) =
    let rest = live_of live records in
    if any_live live revision r.events then (r, revision) ∷ rest else rest

-- The records from place `i` on have the revisions that the file is indexed with.
unfoldable pub IsIndexed : LogFile → ℕ → List (LogRecord × ℕ) → Type 0
IsIndexed f i [] = Unit
IsIndexed f i ((r, revision) ∷ records) = (revision_at f i ≡ revision) × IsIndexed f (suc i) records

live_of-Selects :
    (live : Bytes → ℕ → Bool) (records : List (LogRecord × ℕ))
    → Selects live records (live_of live records)
unfolding live_of
live_of-Selects live [] = selects_nothing
live_of-Selects live ((r, revision) ∷ records) =
    let rest = live_of-Selects live records in
    elim (Bool-cases (any_live live revision r.events)) [
      | inl lives ↦ rw (lives, live_of) (keeps (any_live-IsLive live revision r.events lives) rest)
      | inr dies ↦ rw (dies, live_of) (drops (not_live dies) rest)
    ]
  where
    not_live : any_live live revision r.events ≡ false → ¬ IsLive live revision r.events
    not_live dies (e, there, lives) =
        let alive = any_live-here live revision r.events e there lives in absurd (ground arith)

length-live_of :
    (live : Bytes → ℕ → Bool) (records : List (LogRecord × ℕ))
    → length (live_of live records) ≤ length records
unfolding live_of
length-live_of live [] = omega arith
length-live_of live ((r, revision) ∷ records) = ground (arith, length-live_of live records)

module _ (p : Proto) (hp : IsProto p) (live : Bytes → ℕ → Bool) (f : LogFile) where
  -- What the loop gives for records.
  abbrev lived : List (LogRecord × ℕ) → Live
  lived records = record {
    kept = messages_of p.wire (live_of live records);
    dead = length records - length (live_of live records);
  }

  live_loop-live_of :
      (before : Bytes) (i : ℕ) (records : List (LogRecord × ℕ))
      → IsIndexed f i records
      → AllWritable p.wire records
      → live_loop p.wire live f
          (before ++ frames p.wire (messages_of p.wire records))
          i
          (spans_at p.wire (length before) (messages_of p.wire records))
        ≡ ok (lived records)
  unfolding live_loop frames spans_at messages_of live_of IsIndexed
  live_loop-live_of before i [] indexed h =
      ap ok (ap (λ n. record { kept = []; dead = n }) (omega arith))
  live_loop-live_of before i ((r, revision) ∷ records) indexed h =
      let m = message p.wire revision r.events in
      let rest = frames p.wire (messages_of p.wire records) in
      let here = span_bytes-frame p hp before rest m in
      let at : length before + length (frame p.wire m) ≡ length (before ++ frame p.wire m) =
        sym (length-append before (frame p.wire m)) in
      let decoded = decode_alias-message p.wire hp.wire revision r.events h.0 in
      let ih = live_loop-live_of (before ++ frame p.wire m) (suc i) records indexed.1 h.1 in
      let ih' = rw append_assoc at ih in
      rw (here, live_loop)
        (rw (decoded, indexed.0)
          (rw (at, ih')
            (elim (Bool-cases (any_live live revision r.events)) [
              | inl lives ↦
                  let dead : length records - length (live_of live records)
                      ≡ suc (length records) - suc (length (live_of live records)) =
                    omega arith in
                  rw lives (rw dead refl)
              | inr dies ↦
                  let dead : suc (length records - length (live_of live records))
                      ≡ suc (length records) - length (live_of live records) =
                    omega (arith, length-live_of live records) in
                  rw dies (rw dead refl)
            ])))

  live_records-live_of :
      (disk : Disk) (records : List (LogRecord × ℕ))
      → f.indexed ≡ true
      → f.spans ≡ spans_at p.wire (length magic) (messages_of p.wire records)
      → lookup f.name disk ≡ some (magic ++ frames p.wire (messages_of p.wire records))
      → f.size ≡ length (magic ++ frames p.wire (messages_of p.wire records))
      → IsIndexed f 0 records
      → AllWritable p.wire records
      → live_records p.wire live disk f ≡ ok (f, lived records)
  unfolding live_records load read_file
  live_records-live_of disk records loaded spans on_disk size indexed h =
      let content = magic ++ frames p.wire (messages_of p.wire records) in
      let whole : take f.size content ≡ content = take_all f.size content (omega (arith, size)) in
      let long : ltb (length content) f.size ≡ false = ground (arith, size) in
      let lives = live_loop-live_of magic 0 records indexed h in
      let loaded_file : load p.wire disk f ≡ ok f = rw (loaded, load) refl in
      let read : read_file disk f ≡ ok content = rw (on_disk, read_file) (rw long (ap ok whole)) in
      let looped : live_loop p.wire live f content 0 f.spans ≡ ok (lived records) =
        ap (live_loop p.wire live f content 0) spans ∙ lives in
      ap
        (λ (o : Outcome LogFile). o >>= λ f'.
          read_file disk f' >>= λ c. live_loop p.wire live f' c 0 f'.spans >>= λ l. ok (f', l))
        loaded_file
      ∙ ap
          (λ (o : Outcome Bytes). o >>= λ c. live_loop p.wire live f c 0 f.spans >>= λ l. ok (f, l))
          read
      ∙ ap (λ (o : Outcome Live). o >>= λ l. ok (f, l)) looped

  -- From a file that is indexed, with the spans and revisions of the records in it, liveRecords keeps
  -- the records of which some event touches a key that is live at the record's revision, in order and
  -- each with its message as it stands in the file, and counts all the others as dead.
  pub live_records-Selects :
      (disk : Disk) (records : List (LogRecord × ℕ))
      → f.indexed ≡ true
      → f.spans ≡ spans_at p.wire (length magic) (messages_of p.wire records)
      → lookup f.name disk ≡ some (magic ++ frames p.wire (messages_of p.wire records))
      → f.size ≡ length (magic ++ frames p.wire (messages_of p.wire records))
      → IsIndexed f 0 records
      → AllWritable p.wire records
      → (kept : List (LogRecord × ℕ)) × Selects live records kept
        × (live_records p.wire live disk f
            ≡ ok
                (f, record { kept = messages_of p.wire kept; dead = length records - length kept }))
  live_records-Selects disk records loaded spans on_disk size indexed h = (
    live_of live records,
    live_of-Selects live records,
    live_records-live_of disk records loaded spans on_disk size indexed h,
  )
