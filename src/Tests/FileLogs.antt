-- ===== src/Tests/FileLogs.antt =====
-- Runs of the log of pkg/persistence/filesystemlog.
use cloudetcd.Base.{
  Bool, inl, ◌⊎◌, ℕ, ◌+◌, ◌≤◌, ◌<◌, ◌^◌, ◌≡◌, ◌⊎◌, refl, true, false, List, [], ◌∷◌, ◌++◌, none,
  some, arith, Bytes, In, nat_beq, ◌-◌, length, take, lookup, All, bytes_eq, bytes_equal,
  bytes_equal_refl,
}
use cloudetcd.Event.{LogRecord}
use cloudetcd.Outcome.{Error, ok, err}
use cloudetcd.Lease.{hex, hex_digit}
use cloudetcd.Cache.{new, put, element}
use cloudetcd.Codec.{magic, Span, span_bytes, scan}
use cloudetcd.Codec.Protowire.{message, number_field, bytes_field, events_message}
use cloudetcd.Codec.Frames.{frames, spans_at}
use cloudetcd.Codec.RoundTrip.{messages_from, messages_from-AreMessages, AreWritable}
use cloudetcd.FileLog.Names.{FileInfo, filename}
use cloudetcd.FileLog.{
  Disk, LogFile, FilesystemLog, get_log_entry, find_file, revision_at, nth, position,
}
use cloudetcd.FileLog.Open.{
  done, failed, named_file, list_files, open_file, starts_behind, new_active_file,
}
use cloudetcd.FileLog.Commit.{CommitIo, commit_batch}
use cloudetcd.FileLog.Live.{messages_of, IsIndexed, Selects, live_records-Selects}
use cloudetcd.FileLog.Compact.{Measured, live_records, walk, revisions_kept, compacted_file}
use cloudetcd.FileLog.Compacted.{IsIncreasing, compacted_file-reads}
use cloudetcd.FileLog.Content.{content_of}
use cloudetcd.FileLog.Recovery.{IsRecovered}
use cloudetcd.FileLog.Durable.{commit_batch-IsRecovered}
use cloudetcd.FileLog.Faults.{open_file-short_header, list_files-narrow}
use cloudetcd.FileLog.Walk.{IsGroup, joined, flush_all, walk-groups}
use cloudetcd.FileLog.Chain.{IsChain, IsLog, dense_name, dense_name-differs}
use cloudetcd.FileLog.Rotation.{all_done}
use cloudetcd.FileLog.Invariant.{commit_batch-IsLog}
use cloudetcd.FileLog.Lookup.{get_log_entry-IsLog}
use cloudetcd.Tests.Wires.{unary, unary_wire, unary_proto, unary-IsWire, unary-IsProto}
use cloudetcd.Tests.Codecs.{
  put_a, delete_a, put_a-IsWritable, delete_a-IsWritable, two_records, two_records-AreWritable,
}

abbrev compacted : FileInfo
compacted = record { first = 1; last = 40; sparse = true }

abbrev wider : FileInfo
wider = record { first = 1; last = 80; sparse = true }

-- The narrower file comes out first, as their names stand in the directory.
abbrev by_name : Bytes → Bytes → Bool
by_name a b = false

list_files-narrow_example :
    list_files by_name ((filename compacted, 1 ∷ []) ∷ (filename wider, 2 ∷ []) ∷ [])
    ≡ (named_file compacted (filename compacted) ∷ [], (filename compacted, 1 ∷ []) ∷ [])
list_files-narrow_example =
    list_files-narrow by_name compacted wider (1 ∷ []) (2 ∷ []) refl refl refl (omega arith)
      (omega arith) (omega arith)

-- A log whose active file has one record.
abbrev one_record : List LogRecord
one_record = record { events = [] } ∷ []

abbrev active_file : LogFile
active_file = record {
  info = record { first = 1; last = 1; sparse = false };
  name = dense_name 1;
  count = 1;
  size = length (content_of unary_wire 1 one_record);
  opened = 0;
  archived = false;
  indexed = true;
  spans = spans_at unary_wire (length magic) (messages_from unary_wire 1 one_record);
  revisions = [];
}

abbrev small_log : FilesystemLog
small_log = record {
  disk = (dense_name 1, content_of unary_wire 1 one_record) ∷ [];
  rotate_bytes = 1000;
  active_open = true;
  rotate_after = 300;
  archive = none;
  maps = true;
  files = active_file ∷ [];
  last_revision = 1;
  listened = none;
  cache = new 0;
  archiver = [];
}

one_record-AreWritable : AreWritable unary_wire 1 one_record
unfolding message number_field bytes_field events_message unary
one_record-AreWritable = ((omega arith, omega arith, omega arith, tt, omega arith), tt)

small_log-disk : lookup (dense_name 1) small_log.disk ≡ some (content_of unary_wire 1 one_record)
unfolding lookup
small_log-disk = rw (bytes_equal_refl (dense_name 1)) refl

small_log-IsChain : IsChain 1 small_log.files
unfolding IsChain
small_log-IsChain = (refl, omega arith, tt)

small_log-fresh : (n : ℕ) → 1 < n → n < 2 ^ 64 → lookup (dense_name n) small_log.disk ≡ none
unfolding lookup
small_log-fresh n later fits = rw (dense_name-differs 1 n later fits) refl

abbrev small_log-IsLog : IsLog unary_proto small_log one_record
small_log-IsLog = record {
  held = record {
    closed = [];
    active = active_file;
    files = refl;
    is_open = refl;
    dense = refl;
    writable = one_record-AreWritable;
    on_disk = small_log-disk;
    count = refl;
    size = refl;
    spans = refl;
    position = refl;
  };
  chain = small_log-IsChain;
  last = refl;
  fresh = small_log-fresh;
}

abbrev short_write : CommitIo
short_write = record { write = failed 40; synced = true; closed = true; create = failed 0 }

commit_batch-IsRecovered_example :
    (n : ℕ) × (n ≤ 2)
    × (((commit_batch unary_proto short_write 0 1 two_records small_log).1 ≡ ok tt)
          ⊎ (short_write.write ≡ done)
        → n ≡ 2)
    × IsRecovered unary_wire
        (unary-IsProto.wire)
        true
        none
        (commit_batch unary_proto short_write 0 1 two_records small_log).0.disk
        (named_file (record { first = 1; last = 0; sparse = false }) (dense_name 1))
        (one_record ++ take n two_records)
commit_batch-IsRecovered_example =
    commit_batch-IsRecovered unary_proto unary-IsProto short_write 0 two_records one_record
      small_log (small_log-IsLog.held) true none (inl refl) two_records-AreWritable
      (unfold starts_behind in refl)

open_file-short_header_example :
    (open_file unary_wire true none (new_active_file (failed 3) 0 small_log).0.disk (
      named_file
        (record { first = 2; last = 0; sparse = false })
        (filename (record { first = 2; last = 1; sparse = false })))).1
    ≡ err Error.bad_header
open_file-short_header_example =
    open_file-short_header unary_wire 3 0 small_log true none (omega arith)
      (unfold lookup dense_name filename hex hex_digit bytes_equal in refl)

abbrev measured : ℕ → ℕ → Measured
measured first live = record {
  f = named_file (record { first = first; last = first + 9; sparse = true }) (dense_name first);
  live_bytes = live;
  dead = 2;
}

walk-groups_example :
    (groups : List (List Measured)) × (joined groups
      ≡ measured 1 60 ∷ measured 11 30 ∷ measured 21 50 ∷ [])
    × All (IsGroup 100) groups
    × ((s : List LogFile)
        → walk 100
            (λ g s. (s ++ g, ok tt))
            (measured 1 60 ∷ measured 11 30 ∷ measured 21 50 ∷ [])
            []
            0
            0
            s
          ≡ flush_all 100 (λ g s. (s ++ g, ok tt)) groups s)
walk-groups_example =
    walk-groups 100 (λ (g : List LogFile) (s : List LogFile). (s ++ g, ok tt))
      (measured 1 60 ∷ measured 11 30 ∷ measured 21 50 ∷ [])

commit_batch-IsLog_example :
    (s' : FilesystemLog) × (commit_batch unary_proto all_done 5 1 two_records small_log
      ≡ (s', ok tt))
    × (s'.last_revision ≡ 3)
    × (((length (content_of unary_wire 1 (one_record ++ two_records)) < 1000)
          × IsLog unary_proto s' (one_record ++ two_records))
        ⊎ ((1000 ≤ length (content_of unary_wire 1 (one_record ++ two_records)))
            × IsLog unary_proto s' []))
commit_batch-IsLog_example =
    commit_batch-IsLog unary_proto unary-IsProto 5 two_records one_record small_log small_log-IsLog
      two_records-AreWritable (omega arith) (omega arith)

get_log_entry-IsLog_example :
    ((i : ℕ) (r : LogRecord)
      → nth one_record i ≡ some r
      → element (1 + i) [] ≡ none
      → get_log_entry unary_proto small_log (1 + i)
        ≡ (record small_log { cache = put (new 0) (1 + i) r }, ok r))
    × ((revision : ℕ)
        → 1 < revision
        → element revision [] ≡ none
        → get_log_entry unary_proto small_log revision ≡ (small_log, err Error.not_found))
    × ((revision : ℕ)
        → 0 < revision
        → revision ≤ 1
        → (f : LogFile) × (find_file small_log.files revision ≡ some f)
          × In f small_log.files
          × (f.info.first ≤ revision)
          × (revision ≤ f.info.last))
unfolding new
get_log_entry-IsLog_example =
    get_log_entry-IsLog unary_proto unary-IsProto small_log one_record small_log-IsLog

abbrev kept : List (Bytes × ℕ)
kept = messages_from unary_wire 2 two_records

kept-IsIncreasing : IsIncreasing 0 (revisions_kept kept)
unfolding revisions_kept messages_from
kept-IsIncreasing = (omega arith, (omega arith, tt))

abbrev rewritten : LogFile × Bytes
rewritten = compacted_file unary_wire (λ key revision. true) (λ name. true) 7 compacted kept

compacted_file-reads_example :
    ((i : ℕ) (m : Bytes) (revision : ℕ)
      → nth kept i ≡ some (m, revision)
      → (position rewritten.0 revision ≡ ok i)
        × ((span : Span) × (nth rewritten.0.spans i ≡ some span)
            × (span_bytes span rewritten.1 ≡ m)))
    × ((revision : ℕ)
        → ¬ In revision (revisions_kept kept)
        → position rewritten.0 revision ≡ err Error.compacted)
    × (scan unary_wire rewritten.1
        ≡ ok (record {
          spans = rewritten.0.spans;
          revisions = rewritten.0.revisions;
          complete = rewritten.0.size;
        }))
compacted_file-reads_example =
    compacted_file-reads unary_proto unary-IsProto (λ key revision. true) (λ name. true) 7 compacted
      kept refl kept-IsIncreasing
      (messages_from-AreMessages unary_wire unary-IsWire 2 two_records two_records-AreWritable)

abbrev both : List (LogRecord × ℕ)
both = (record { events = put_a ∷ [] }, 2) ∷ (record { events = delete_a ∷ [] }, 3) ∷ []

abbrev closed_file : LogFile
closed_file = record {
  info = record { first = 2; last = 3; sparse = true };
  name = b'c' ∷ [];
  count = 2;
  size = length (magic ++ frames unary_wire (messages_of unary_wire both));
  opened = 0;
  archived = false;
  indexed = true;
  spans = spans_at unary_wire (length magic) (messages_of unary_wire both);
  revisions = 2 ∷ 3 ∷ [];
}

closed_file-IsIndexed : IsIndexed closed_file 0 both
unfolding IsIndexed revision_at nth
closed_file-IsIndexed = (refl, (refl, tt))

abbrev closed_disk : Disk
closed_disk = (b'c' ∷ [], magic ++ frames unary_wire (messages_of unary_wire both)) ∷ []

closed_file-disk :
    lookup closed_file.name closed_disk
    ≡ some (magic ++ frames unary_wire (messages_of unary_wire both))
unfolding lookup bytes_equal
closed_file-disk = refl

live_records-Selects_example :
    (kept : List (LogRecord × ℕ)) × Selects (λ key revision. nat_beq revision 3) both kept
    × (live_records unary_wire (λ key revision. nat_beq revision 3) closed_disk closed_file
        ≡ ok (closed_file, record { kept = messages_of unary_wire kept; dead = 2 - length kept }))
live_records-Selects_example =
    live_records-Selects unary_proto unary-IsProto (λ key revision. nat_beq revision 3) closed_file
      closed_disk both refl refl closed_file-disk refl closed_file-IsIndexed
      (put_a-IsWritable, (delete_a-IsWritable, tt))
