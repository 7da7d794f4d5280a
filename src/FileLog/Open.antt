-- ===== src/FileLog/Open.antt =====
-- How pkg/persistence/filesystemlog/filesystem_log.go opens a directory: listFiles, reconcileArchive,
-- newActiveFile and open.
use cloudetcd.Base.{
  ℕ, suc, ◌+◌, ◌-◌, Bytes, Bool, true, false, not, ◌&&◌, ◌||◌, List, [], ◌∷◌, ◌++◌, Option, none,
  some, length, take, ltb, leb, nat_beq, is_empty, bytes_equal, bytes_eq, lookup, insert, delete,
  if◌then◌else◌,
}
use cloudetcd.Outcome.{Error, Outcome, ok, err, fatal, ◌>>=◌}
use cloudetcd.Codec.Protowire.{Wire}
use cloudetcd.Codec.{magic, Scanned, scan}
use cloudetcd.FileLog.Names.{FileInfo, filename, parse_filename}
use cloudetcd.FileLog.{Disk, LogFile, ArchiveOp, FilesystemLog, split_last}

-- A file of which only the name is known.
abbrev pub named_file : FileInfo → Bytes → LogFile
named_file info name = record {
  info = info;
  name = name;
  count = 0;
  size = 0;
  opened = 0;
  archived = false;
  indexed = false;
  spans = [];
  revisions = [];
}

-- The files with a name that parses; the others are ignored with a warning.
unfoldable pub log_files : Disk → List LogFile
log_files [] = []
log_files ((name, content) ∷ disk) = elim (parse_filename name) [
  | none ↦ log_files disk
  | some info ↦ named_file info name ∷ log_files disk
]

-- The order of listFiles: `a` sorts behind `b`.
unfoldable pub sorts_behind : FileInfo → FileInfo → Bool
sorts_behind a b = if nat_beq a.first b.first then not a.sparse && b.sparse else ltb b.first a.first

-- slices.SortFunc does not promise an order for files that compare equal: `ties` says for two names
-- whether the file of the first one comes out behind that of the second.
unfoldable pub goes_behind : (Bytes → Bytes → Bool) → LogFile → LogFile → Bool
goes_behind ties f g =
    sorts_behind f.info g.info || (not (sorts_behind g.info f.info) && ties f.name g.name)

unfoldable pub insert_file : (Bytes → Bytes → Bool) → LogFile → List LogFile → List LogFile
insert_file ties f [] = f ∷ []
insert_file ties f (g ∷ files) =
    let rest = insert_file ties f files in if goes_behind ties f g then g ∷ rest else f ∷ g ∷ files

-- slices.SortFunc.
unfoldable pub sort_files : (Bytes → Bytes → Bool) → List LogFile → List LogFile
sort_files ties [] = []
sort_files ties (f ∷ files) = insert_file ties f (sort_files ties files)

-- The test whether a file is superseded by the last one that was kept.
unfoldable pub covered_by : Option LogFile → LogFile → Bool
covered_by none f = false
covered_by (some g) f =
    g.info.sparse && (leb g.info.first f.info.first && leb f.info.first g.info.last)

-- The loop of listFiles that removes superseded files; `prev` is the last file kept.
unfoldable pub keep_files : Option LogFile → List LogFile → Disk → List LogFile × Disk
keep_files prev [] disk = ([], disk)
keep_files prev (f ∷ files) disk =
    let dropped = keep_files prev files (delete f.name disk) in
    let kept = keep_files (some f) files disk in
    if covered_by prev f then dropped else (f ∷ kept.0, kept.1)

unfoldable pub list_files : (Bytes → Bytes → Bool) → Disk → List LogFile × Disk
list_files ties disk = keep_files none (sort_files ties (log_files disk)) disk

unfoldable pub superseded : List LogFile → ℕ → Bool
superseded [] first = false
superseded (f ∷ files) first =
    (f.info.sparse && (leb f.info.first first && leb first f.info.last)) || superseded files first

-- `archived` set on the file of a name; none when there is no such file.
unfoldable pub mark_archived : Bytes → List LogFile → Option (List LogFile)
mark_archived name [] = none
mark_archived name (f ∷ files) =
    let rest = mark_archived name files in
    if bytes_equal f.name name
    then some (record f { archived = true } ∷ files)
    else elim rest [ none ↦ none | some files' ↦ some (f ∷ files') ]

-- The loop of reconcileArchive over the objects of the archive.
unfoldable pub reconcile_loop :
    List (Bytes × Bytes) → List LogFile → List ArchiveOp → Outcome (List LogFile × List ArchiveOp)
reconcile_loop [] files ops = ok (files, ops)
reconcile_loop ((name, content) ∷ objects) files ops = elim (mark_archived name files) [
  | some files' ↦ reconcile_loop objects files' ops
  | none ↦ elim (parse_filename name) [
    | none ↦ err Error.recovery_needed
    | some info ↦
        if superseded files info.first
        then reconcile_loop objects files (ops ++ record { name = name; remove = true } ∷ [])
        else err Error.recovery_needed
  ]
]

-- The downloads into an empty directory.
unfoldable pub restore : List (Bytes × Bytes) → Disk → Disk
restore [] disk = disk
restore ((name, content) ∷ objects) disk = restore objects (insert name content disk)

unfoldable pub reconcile_archive :
    (Bytes → Bytes → Bool)
    → List (Bytes × Bytes)
    → List LogFile
    → Disk
    → Disk × Outcome (List LogFile × List ArchiveOp)
reconcile_archive ties objects files disk =
    let (files', disk') =
      if is_empty files && not (is_empty objects)
      then list_files ties (restore objects disk)
      else (files, disk) in
    (disk', reconcile_loop objects files' [])

-- The revisions of a dense file are consecutive.
unfoldable pub are_consecutive : ℕ → List ℕ → Bool
are_consecutive first [] = true
are_consecutive first (r ∷ revisions) = nat_beq r first && are_consecutive (suc first) revisions

-- Those of a sparse file grow, from `least` on, and stay within the last one.
unfoldable pub are_within : ℕ → ℕ → List ℕ → Bool
are_within least last [] = true
are_within least last (r ∷ revisions) =
    (leb least r && leb r last) && are_within (suc r) last revisions

-- A file starts behind the one before it, the first at revision 1.
unfoldable pub starts_behind : Option LogFile → ℕ → Bool
starts_behind none first = nat_beq first 1
starts_behind (some prev) first = nat_beq first (suc prev.info.last)

-- What the loop body of open does with a file that was scanned.
unfoldable pub check_file : Bool → Option LogFile → LogFile → Scanned → Outcome LogFile
unfolding are_consecutive are_within starts_behind
check_file is_last prev f s =
    let last = if f.info.sparse then f.info.last else f.info.first + length s.spans - 1 in
    let in_order =
      if f.info.sparse
      then are_within f.info.first f.info.last s.revisions
      else are_consecutive f.info.first s.revisions in
    let active = is_last && not f.info.sparse in
    if in_order
    then if starts_behind prev f.info.first
      then ok (record f {
        info = record { first = f.info.first; last = last; sparse = f.info.sparse };
        count = length s.spans;
        size = s.complete;
        spans = if active then s.spans else f.spans;
        indexed = if active then true else f.indexed;
      })
      else err Error.recovery_needed
    else err Error.recovery_needed

-- The loop body of open: a record that was cut short at the end of the last file is cut off.
unfoldable pub open_file : Wire → Bool → Option LogFile → Disk → LogFile → Disk × Outcome LogFile
open_file w is_last prev disk f = elim (lookup f.name disk) [
  | none ↦ (disk, err Error.io_failed)
  | some content ↦ elim (scan w content) [
    | err e ↦ (disk, err e)
    | fatal ↦ (disk, fatal)
    | ok s ↦
        if ltb s.complete (length content)
        then if not is_last || f.info.sparse
          then (disk, err Error.recovery_needed)
          else (insert f.name (take s.complete content) disk, check_file is_last prev f s)
        else (disk, check_file is_last prev f s)
  ]
]

abbrev pub add_file : LogFile → Disk × Outcome (List LogFile) → Disk × Outcome (List LogFile)
add_file f (disk, opened) = (disk, opened >>= λ files. ok (f ∷ files))

unfoldable pub open_files :
    Wire → Option LogFile → Disk → List LogFile → Disk × Outcome (List LogFile)
open_files w prev disk [] = (disk, ok [])
open_files w prev disk (f ∷ files) =
    let (disk', opened) = open_file w (is_empty files) prev disk f in
    elim opened [
      | err e ↦ (disk', err e)
      | fatal ↦ (disk', fatal)
      | ok f' ↦ add_file f' (open_files w (some f') disk' files)
    ]

-- How creating or opening a file and writing it ends: all of it, some bytes of it, or no file at all.
pub data Io : Type 0 where
  done : Io
  failed : ℕ → Io
  refused : Io

unfoldable pub new_active_file : Io → ℕ → FilesystemLog → FilesystemLog × Outcome (Unit {0})
new_active_file io now s =
    let info : FileInfo = record {
      first = suc s.last_revision;
      last = s.last_revision;
      sparse = false;
    } in
    let name = filename info in
    elim (lookup name s.disk) [
      | some content ↦ (s, err Error.io_failed)
      | none ↦ elim io [
        | refused ↦ (s, err Error.io_failed)
        | failed n ↦ (record s { disk = insert name (take n magic) s.disk }, err Error.io_failed)
        | done ↦ (
          record s {
            disk = insert name magic s.disk;
            files =
                s.files
                ++ (record (named_file info name) {
                  size = length magic;
                  opened = now;
                  indexed = true;
                }
                    ∷ []);
            active_open = true;
          },
          ok tt,
        )
      ]
    ]

unfoldable pub queue_closed : List LogFile → List ArchiveOp → List ArchiveOp
queue_closed [] ops = ops
queue_closed (f ∷ files) ops =
    queue_closed files
      (if f.archived then ops else ops ++ record { name = f.name; remove = false } ∷ [])

abbrev pub has_archive : FilesystemLog → Bool
has_archive s = elim s.archive [ none ↦ false | some objects ↦ true ]

-- open behind the loop.
unfoldable pub resume : Io → ℕ → FilesystemLog → FilesystemLog × Outcome (Unit {0})
resume io now s = elim (split_last s.files) [
  | none ↦ new_active_file io now s
  | some (closed, last) ↦
      let queued = if has_archive s then queue_closed closed s.archiver else s.archiver in
      let also =
        if not last.archived && has_archive s
        then queued ++ record { name = last.name; remove = false } ∷ []
        else queued in
      let s' = record s { last_revision = last.info.last; archiver = queued } in
      if last.archived || last.info.sparse
      then new_active_file io now (record s' { archiver = also })
      else elim io [
        | refused ↦ (s', err Error.io_failed)
        | _ ↦ (
          record s' { files = closed ++ record last { opened = now } ∷ []; active_open = true },
          ok tt,
        )
      ]
]

-- open behind listFiles, over the files that the archive was reconciled with.
unfoldable pub open_listed :
    Wire
    → Io
    → ℕ
    → FilesystemLog
    → Outcome (List LogFile × List ArchiveOp)
    → FilesystemLog × Outcome (Unit {0})
open_listed w io now s (err e) = (s, err e)
open_listed w io now s fatal = (s, fatal)
open_listed w io now s (ok (files, ops)) =
    let (disk', opened) = open_files w none s.disk files in
    let s' = record s { disk = disk'; archiver = s.archiver ++ ops } in
    elim opened [
      | err e ↦ (s', err e)
      | fatal ↦ (s', fatal)
      | ok files' ↦ resume io now (record s' { files = files' })
    ]

unfoldable pub open_log :
    (Bytes → Bytes → Bool) → Wire → Io → ℕ → FilesystemLog → FilesystemLog × Outcome (Unit {0})
open_log ties w io now s =
    let (files, disk) = list_files ties s.disk in
    let listed : Disk × Outcome (List LogFile × List ArchiveOp) = elim s.archive [
      | none ↦ (disk, ok (files, []))
      | some objects ↦ reconcile_archive ties objects files disk
    ] in
    open_listed w io now (record s { disk = listed.0 }) listed.1
