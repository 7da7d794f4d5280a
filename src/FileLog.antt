-- ===== src/FileLog.antt =====
-- pkg/persistence/filesystemlog/filesystem_log.go: a log kept as files of a directory. The directory is
-- a map from names to contents; a LogFile that another object points to is known by its name. The memory
-- mapping and the read handle of a file give the bytes that the directory has for it.
pub mod Names
pub mod Open
pub mod Commit
pub mod Compact
pub mod Content
pub mod Recovery
pub mod Durable
pub mod Faults
pub mod Walk
pub mod Compacted
pub mod Live
pub mod Chain
pub mod Rotation
pub mod Invariant
pub mod Lookup
use cloudetcd.Base.{
  ℕ, zero, suc, ◌+◌, ◌-◌, Bytes, Bool, true, false, not, ◌&&◌, ◌||◌, List, [], ◌∷◌, ◌++◌, Option,
  none, some, length, take, drop, ltb, leb, nat_beq, is_empty, bytes_equal, bytes_eq, lookup,
  if◌then◌else◌,
}
use cloudetcd.Event.{LogRecord}
use cloudetcd.Outcome.{Error, Outcome, ok, err, fatal, ◌>>=◌}
use cloudetcd.Cache.{Cache, get, put}
use cloudetcd.Codec.Protowire.{Wire, Proto}
use cloudetcd.Codec.{Span, span_bytes, offsets, decode_message}
use cloudetcd.FileLog.Names.{FileInfo}

abbrev pub Disk : Type 0
Disk = List (Bytes × Bytes)

-- The embedded fileInfo is the field `info`; a `revisions` that is nil is the empty list.
pub record LogFile : Type 0 where
  pub info : FileInfo
  pub name : Bytes
  pub count : ℕ
  pub size : ℕ
  pub opened : ℕ
  pub archived : Bool
  pub indexed : Bool
  pub spans : List Span
  pub revisions : List ℕ

pub record ArchiveOp : Type 0 where
  pub name : Bytes
  pub remove : Bool

-- `archive` holds the objects of Options.Archive; `archiver` is the queue of its worker; `listened` is
-- the revisions that the listener was called with, and none without a listener. `maps` says whether the
-- platform can map files, and `active_open` whether the write handle of the last file is open.
pub record FilesystemLog : Type 0 where
  pub disk : Disk
  pub rotate_bytes : ℕ
  pub rotate_after : ℕ
  pub archive : Option (List (Bytes × Bytes))
  pub maps : Bool
  pub files : List LogFile
  pub active_open : Bool
  pub last_revision : ℕ
  pub listened : Option (List ℕ)
  pub cache : Cache
  pub archiver : List ArchiveOp

-- `files[:len(files)-1]` and `files[len(files)-1]`.
unfoldable pub split_last : List LogFile → Option (List LogFile × LogFile)
split_last [] = none
split_last (f ∷ files) = elim (split_last files) [
  | none ↦ some ([], f)
  | some (closed, active) ↦ some (f ∷ closed, active)
]

-- A file that was changed through its pointer.
unfoldable pub set_file : LogFile → List LogFile → List LogFile
set_file f [] = []
set_file f (g ∷ files) = (if bytes_equal g.name f.name then f else g) ∷ set_file f files

-- sort.Search over a list in order: the place of the first element that is not below `revision`.
unfoldable pub search : ℕ → List ℕ → ℕ
search revision [] = 0
search revision (r ∷ rs) = let rest = suc (search revision rs) in if ltb r revision then rest else 0

unfoldable pub nth {ℓ} : {A : Type ℓ} → List A → ℕ → Option A
nth [] i = none
nth (x ∷ xs) zero = some x
nth (x ∷ xs) (suc i) = nth xs i

unfoldable pub position : LogFile → ℕ → Outcome ℕ
unfolding search nth
position f revision =
    if f.info.sparse
    then elim (nth f.revisions (search revision f.revisions)) [
      | none ↦ err Error.compacted
      | some r ↦
          if nat_beq r revision then ok (search revision f.revisions) else err Error.compacted
    ]
    else if ltb revision f.info.first || leb (length f.spans) (revision - f.info.first)
    then err Error.not_found
    else ok (revision - f.info.first)

unfoldable pub revision_at : LogFile → ℕ → ℕ
unfolding nth
revision_at f i = elim (nth f.revisions i) [ none ↦ f.info.first + i | some r ↦ r ]

-- The loop of findFile, from the last file down: the first one that starts at or below the revision.
unfoldable pub find_from : List LogFile → ℕ → Option LogFile
find_from [] revision = none
find_from (f ∷ files) revision = elim (find_from files revision) [
  | some g ↦ some g
  | none ↦ if leb f.info.first revision then some f else none
]

unfoldable pub find_file : List LogFile → ℕ → Option LogFile
find_file files revision = elim (find_from files revision) [
  | none ↦ none
  | some f ↦ if leb revision f.info.last then some f else none
]

-- The first `size` bytes of a file, mapped or read.
unfoldable pub read_file : Disk → LogFile → Outcome Bytes
read_file disk f = elim (lookup f.name disk) [
  | none ↦ err Error.io_failed
  | some content ↦
      if ltb (length content) f.size then err Error.io_failed else ok (take f.size content)
]

unfoldable pub read_at : Disk → LogFile → Span → Outcome Bytes
read_at disk f span = elim (lookup f.name disk) [
  | none ↦ err Error.io_failed
  | some content ↦
      if ltb (length content) (span.offset + span.length)
      then err Error.io_failed
      else ok (span_bytes span content)
]

-- loadLocked: a file is indexed when it is first read.
unfoldable pub load : Wire → Disk → LogFile → Outcome LogFile
load w disk f = if f.indexed then ok f else (do
  content ← read_file disk f
  (spans, revisions) ← offsets w content
  ok (record f {
    indexed = true;
    spans = spans;
    revisions = if f.info.sparse then revisions else f.revisions;
  }))

unfoldable pub is_active : List LogFile → LogFile → Bool
is_active files f = elim (split_last files) [
  | none ↦ false
  | some (closed, active) ↦ bytes_equal f.name active.name
]

unfoldable pub span_at : Disk → LogFile → ℕ → Outcome Bytes
unfolding nth
span_at disk f pos = elim (nth f.spans pos) [ none ↦ fatal | some span ↦ read_at disk f span ]

-- recordBytes from `position` on.
unfoldable pub bytes_at : Disk → LogFile → ℕ → Outcome Bytes
bytes_at disk f revision = position f revision >>= span_at disk f

-- recordBytes; the second result says whether the bytes are those of a mapping.
unfoldable pub record_bytes : Wire → FilesystemLog → ℕ → FilesystemLog × Outcome (Bytes × Bool)
record_bytes w s revision = elim (find_file s.files revision) [
  | none ↦ (s, err Error.not_found)
  | some f ↦
      if is_active s.files f
      then (s, bytes_at s.disk f revision >>= λ m. ok (m, false))
      else elim (load w s.disk f) [
        | ok f' ↦ (
          record s { files = set_file f' s.files },
          bytes_at s.disk f' revision >>= λ m. ok (m, s.maps),
        )
        | err e ↦ (s, err e)
        | fatal ↦ (s, fatal)
      ]
]

-- The end of GetLogEntry: only a record that was not read from a mapping is put in the cache.
unfoldable pub decode_entry :
    Proto → ℕ → FilesystemLog × Outcome (Bytes × Bool) → FilesystemLog × Outcome LogRecord
decode_entry p revision (s, err e) = (s, err e)
decode_entry p revision (s, fatal) = (s, fatal)
decode_entry p revision (s, ok (m, mapped)) = elim (decode_message p m) [
  | ok r ↦ (if mapped then s else record s { cache = put s.cache revision r }, ok r)
  | err e ↦ (s, err e)
  | fatal ↦ (s, fatal)
]

unfoldable pub cached_or_read :
    Proto → FilesystemLog → ℕ → Cache × Option LogRecord → FilesystemLog × Outcome LogRecord
cached_or_read p s revision (cache, some r) = (record s { cache = cache }, ok r)
cached_or_read p s revision (cache, none) =
    decode_entry p revision (record_bytes p.wire (record s { cache = cache }) revision)

unfoldable pub get_log_entry : Proto → FilesystemLog → ℕ → FilesystemLog × Outcome LogRecord
get_log_entry p s revision = cached_or_read p s revision (get s.cache revision)

module _ {S : Type 0} (p : Proto) (callback : S → ℕ → LogRecord → S × Bool) where
  -- The loop of Read over the records of a file; the second result is false when the callback stops it.
  unfoldable pub read_records : ℕ → Bytes → List Span → List ℕ → S → Outcome (S × Bool)
  read_records from content [] revisions c = ok (c, true)
  read_records from content (span ∷ spans) [] c = fatal
  read_records from content (span ∷ spans) (revision ∷ revisions) c =
      if ltb revision from then read_records from content spans revisions c else (do
        r ← decode_message p (span_bytes span content)
        let (c', more) = callback c revision r
        let rest = read_records from content spans revisions c'
        if more then rest else ok (c', false))

  unfoldable pub read_files : Disk → ℕ → List LogFile → S → Outcome S
  read_files disk from [] c = ok c
  read_files disk from (f ∷ files) c =
      if nat_beq f.count 0 || ltb f.info.last from then read_files disk from files c else (do
        content ← read_file disk f
        (spans, revisions) ← offsets p.wire content
        (c', more) ← read_records from content spans revisions c
        if more then read_files disk from files c' else ok c')

  unfoldable pub read_log : FilesystemLog → ℕ → S → Outcome S
  read_log s from c = read_files s.disk from s.files c
