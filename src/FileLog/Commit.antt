-- ===== src/FileLog/Commit.antt =====
-- Appending in pkg/persistence/filesystemlog/filesystem_log.go: commitBatch, rotateLocked, tick and what
-- the archiver notes.
use cloudetcd.Base.{
  ℕ, suc, ◌+◌, ◌-◌, Bytes, Bool, true, false, ◌&&◌, List, [], ◌∷◌, ◌++◌, none, some, length, take,
  ltb, leb, nat_beq, is_empty, bytes_equal, bytes_eq, lookup, insert, delete, if◌then◌else◌,
}
use cloudetcd.Event.{LogRecord}
use cloudetcd.Outcome.{Error, Outcome, ok, err, fatal}
use cloudetcd.Cache.{Cache, put}
use cloudetcd.Codec.Protowire.{Proto}
use cloudetcd.Codec.{Span, append_records}
use cloudetcd.FileLog.{LogFile, ArchiveOp, FilesystemLog, split_last}
use cloudetcd.FileLog.Open.{Io, done, failed, refused, new_active_file, has_archive}

-- How the calls of the operating system in one commit end.
pub record CommitIo : Type 0 where
  pub write : Io
  pub synced : Bool
  pub closed : Bool
  pub create : Io

-- `spans[i].Offset += base`.
unfoldable pub shift_spans : ℕ → List Span → List Span
shift_spans base [] = []
shift_spans base (span ∷ spans) =
    record { offset = base + span.offset; length = span.length } ∷ shift_spans base spans

unfoldable pub put_all : ℕ → List LogRecord → Cache → Cache
put_all revision [] cache = cache
put_all revision (r ∷ records) cache = put_all (suc revision) records (put cache revision r)

-- The end of rotateLocked: the file that was closed goes to the archiver.
unfoldable pub queue_closed_file :
    Bool → Bytes → FilesystemLog × Outcome (Unit {0}) → FilesystemLog × Outcome (Unit {0})
queue_closed_file archives name (s, err e) = (s, err e)
queue_closed_file archives name (s, fatal) = (s, fatal)
queue_closed_file archives name (s, ok _) = (
  if archives
      then record s { archiver = s.archiver ++ record { name = name; remove = false } ∷ [] }
      else s,
  ok tt,
)

-- rotateLocked. Close leaves no open handle, also when it returns an error, and it returns one for a
-- handle that is not open.
unfoldable pub rotate : CommitIo → ℕ → FilesystemLog → FilesystemLog × Outcome (Unit {0})
rotate io now s = elim (split_last s.files) [
  | none ↦ (s, fatal)
  | some (closed, old) ↦
      if nat_beq old.count 0
      then (s, ok tt)
      else (let s' = record s { active_open = false } in
          if s.active_open && io.closed
          then queue_closed_file (has_archive s) old.name (new_active_file io.create now s')
          else (s', err Error.io_failed))
]

-- The state that commitBatch publishes, before it rotates.
unfoldable pub publish :
    List LogFile → LogFile → Bytes → List Span → List LogRecord → FilesystemLog → FilesystemLog
unfolding shift_spans put_all
publish closed active buf spans records s =
    let last = s.last_revision + length records in
    record s {
      files =
          closed
          ++ record active {
            info = record { first = active.info.first; last = last; sparse = active.info.sparse };
            count = active.count + length records;
            size = active.size + length buf;
            spans = active.spans ++ shift_spans active.size spans;
          }
            ∷ [];
      cache = put_all (suc s.last_revision) records s.cache;
      last_revision = last;
      listened = elim s.listened [ none ↦ none | some calls ↦ some (calls ++ last ∷ []) ];
    }

-- commitBatch from its publishing on.
unfoldable pub commit_written :
    CommitIo
    → ℕ
    → List LogFile
    → LogFile
    → Bytes
    → List Span
    → List LogRecord
    → FilesystemLog
    → FilesystemLog × Outcome (Unit {0})
commit_written io now closed active buf spans records s =
    let s' = publish closed active buf spans records s in
    if leb s.rotate_bytes (active.size + length buf) then rotate io now s' else (s', ok tt)

-- commitBatch from its lock on: the write, which is refused without an open handle, the sync and the
-- rest.
unfoldable pub commit_encoded :
    CommitIo
    → ℕ
    → ℕ
    → Bytes
    → List Span
    → List LogRecord
    → FilesystemLog
    → FilesystemLog × Outcome (Unit {0})
commit_encoded io now last_log_position buf spans records s =
    if nat_beq last_log_position s.last_revision
    then elim (split_last s.files) [
      | none ↦ (s, fatal)
      | some (closed, active) ↦ elim (lookup active.name s.disk) [
        | none ↦ (s, err Error.io_failed)
        | some content ↦ elim (if s.active_open then io.write else refused) [
          | refused ↦ (s, err Error.io_failed)
          | failed n ↦ (
            record s { disk = insert active.name (content ++ take n buf) s.disk },
            err Error.io_failed,
          )
          | done ↦
              let s' = record s { disk = insert active.name (content ++ buf) s.disk } in
              if io.synced
              then commit_written io now closed active buf spans records s'
              else (s', err Error.io_failed)
        ]
      ]
    ]
    else (s, err Error.not_contiguous)

-- commitBatch, over the records of the transactions.
unfoldable pub commit_batch :
    Proto → CommitIo → ℕ → ℕ → List LogRecord → FilesystemLog → FilesystemLog × Outcome (Unit {0})
commit_batch p io now last_log_position records s =
    if is_empty records
    then (s, err Error.empty_batch)
    else elim (append_records p [] (suc last_log_position) records) [
      | err e ↦ (s, err e)
      | fatal ↦ (s, fatal)
      | ok (buf, spans) ↦ commit_encoded io now last_log_position buf spans records s
    ]

-- tick at a time; an error of the rotation is logged only.
unfoldable pub tick : CommitIo → ℕ → FilesystemLog → FilesystemLog
tick io now s = elim (split_last s.files) [
  | none ↦ s
  | some (closed, active) ↦
      if ltb 0 active.count && leb s.rotate_after (now - active.opened)
      then (rotate io now s).0
      else s
]

unfoldable pub set_archived : Bytes → List LogFile → List LogFile
set_archived name [] = []
set_archived name (f ∷ files) =
    (if bytes_equal f.name name then record f { archived = true } else f) ∷ set_archived name files

-- The attempt of archive that succeeds.
unfoldable pub archive_done : ArchiveOp → FilesystemLog → FilesystemLog
archive_done op s = elim s.archive [
  | none ↦ s
  | some objects ↦
      if op.remove
      then record s { archive = some (delete op.name objects) }
      else elim (lookup op.name s.disk) [
        | none ↦ s
        | some content ↦ record s {
          archive = some (insert op.name content objects);
          files = set_archived op.name s.files;
        }
      ]
]

-- The errors that Close joins: the first of two.
join_errors : Outcome (Unit {0}) → Outcome (Unit {0}) → Outcome (Unit {0})
join_errors (ok _) other = other
join_errors (err e) other = err e
join_errors fatal other = fatal

-- Close from the rotation on: everything committed goes to the archiver, and a temporary directory is
-- removed. `released` says whether the active file closes.
unfoldable pub close_log :
    CommitIo → Bool → Bool → ℕ → FilesystemLog → FilesystemLog × Outcome (Unit {0})
unfolding join_errors
close_log io released remove_on_close now s =
    let (s', rotated) = if has_archive s then rotate io now s else (s, ok tt) in
    (
      record s' { disk = if remove_on_close then [] else s'.disk; active_open = false },
      join_errors rotated (if s'.active_open && released then ok tt else err Error.io_failed),
    )
