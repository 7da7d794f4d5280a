-- ===== src/FileLog/Compact.antt =====
-- Compact, compactGroup and liveRecords of pkg/persistence/filesystemlog/filesystem_log.go. `live` is the
-- function that the index passes in.
use cloudetcd.Base.{
  ℕ, suc, ◌+◌, ◌-◌, ◌*◌, Bytes, Bool, true, false, not, ◌&&◌, ◌||◌, List, [], ◌∷◌, ◌++◌, none, some,
  length, drop, ltb, leb, nat_beq, is_empty, bytes_equal, bytes_eq, insert, delete, if◌then◌else◌,
}
use cloudetcd.Event.{Event}
use cloudetcd.Outcome.{Outcome, ok, err, fatal, ◌>>=◌}
use cloudetcd.Codec.Protowire.{Wire}
use cloudetcd.Codec.{Span, span_bytes, magic, frame}
use cloudetcd.Codec.Alias.{decode_alias}
use cloudetcd.FileLog.Names.{FileInfo, filename}
use cloudetcd.FileLog.{
  Disk, LogFile, ArchiveOp, FilesystemLog, split_last, set_file, revision_at, read_file, load,
}
use cloudetcd.FileLog.Open.{has_archive}

-- The loop of liveRecords over the events of a record.
unfoldable pub any_live : (Bytes → ℕ → Bool) → ℕ → List Event → Bool
any_live live revision [] = false
any_live live revision (e ∷ events) = live e.kv.key revision || any_live live revision events

-- The live records, as messages with their revisions, and the number of dead ones.
pub record Live : Type 0 where
  pub kept : List (Bytes × ℕ)
  pub dead : ℕ

-- The loop of liveRecords from record `i` on.
unfoldable pub live_loop :
    Wire → (Bytes → ℕ → Bool) → LogFile → Bytes → ℕ → List Span → Outcome Live
live_loop w live f content i [] = ok (record { kept = []; dead = 0 })
live_loop w live f content i (span ∷ spans) = do
  let m = span_bytes span content
  let revision = revision_at f i
  r ← decode_alias w m
  rest ← live_loop w live f content (suc i) spans
  ok (
      if any_live live revision r.events
      then record rest { kept = (m, revision) ∷ rest.kept }
      else record rest { dead = suc rest.dead })

-- liveRecords; the first result is the file, which is indexed now.
unfoldable pub live_records : Wire → (Bytes → ℕ → Bool) → Disk → LogFile → Outcome (LogFile × Live)
live_records w live disk f = do
  f' ← load w disk f
  content ← read_file disk f'
  l ← live_loop w live f' content 0 f'.spans
  ok (f', l)

-- A file with the bytes of its live records, each with four for its prefix.
pub record Measured : Type 0 where
  pub f : LogFile
  pub live_bytes : ℕ
  pub dead : ℕ

unfoldable pub bytes_of : List (Bytes × ℕ) → ℕ
bytes_of [] = 0
bytes_of ((m, revision) ∷ kept) = length m + 4 + bytes_of kept

unfoldable pub measure_files :
    Wire → (Bytes → ℕ → Bool) → Disk → List LogFile → Outcome (List Measured)
measure_files w live disk [] = ok []
measure_files w live disk (f ∷ files) = do
  (f', l) ← live_records w live disk f
  measured ← measure_files w live disk files
  ok (record { f = f'; live_bytes = bytes_of l.kept; dead = l.dead } ∷ measured)

-- The closed files that end at or below `through`.
unfoldable pub eligible : ℕ → List LogFile → List LogFile
eligible through [] = []
eligible through (f ∷ files) =
    let rest = eligible through files in if leb f.info.last through then f ∷ rest else rest

-- Whether flush leaves the group as it is.
unfoldable pub stays : List LogFile → ℕ → Bool
stays [] dead = true
stays (f ∷ []) dead = nat_beq dead 0 || ltb (dead * 10) f.count
stays (f ∷ g ∷ group) dead = false

-- `if err := …; err != nil { return err }` on a state.
infixl 5 ◌&>◌
abbrev pub ◌&>◌ :
    {S : Type 0} → S × Outcome (Unit {0}) → (S → S × Outcome (Unit {0})) → S × Outcome (Unit {0})
(s, ok _) &> next = next s
(s, err e) &> next = (s, err e)
(s, fatal) &> next = (s, fatal)

module _ {S : Type 0} (rotate_bytes : ℕ) (compact : List LogFile → S → S × Outcome (Unit {0})) where
  unfoldable pub flush : List LogFile → ℕ → S → S × Outcome (Unit {0})
  flush group dead s = if stays group dead then (s, ok tt) else compact group s

  -- The loop of Compact over the measured files, with its three variables, and the flush behind it.
  unfoldable pub walk : List Measured → List LogFile → ℕ → ℕ → S → S × Outcome (Unit {0})
  walk [] group group_bytes group_dead s = flush group group_dead s
  walk (m ∷ files) group group_bytes group_dead s =
      if ltb 0 group_bytes && ltb rotate_bytes (group_bytes + m.live_bytes)
      then (flush group group_dead s &> λ s'. walk files (m.f ∷ []) m.live_bytes m.dead s')
      else walk files (group ++ m.f ∷ []) (group_bytes + m.live_bytes) (group_dead + m.dead) s

-- What compactGroup writes for live records behind `size` bytes.
unfoldable pub write_live : Wire → ℕ → List (Bytes × ℕ) → Bytes × List Span
write_live w size [] = ([], [])
write_live w size ((m, revision) ∷ kept) =
    let n = length (frame w m) in
    let (content, spans) = write_live w (size + n) kept in
    (frame w m ++ content, record { offset = size + n - length m; length = length m } ∷ spans)

unfoldable pub revisions_kept : List (Bytes × ℕ) → List ℕ
revisions_kept [] = []
revisions_kept ((m, revision) ∷ kept) = revision ∷ revisions_kept kept

-- The live records of the files of a group, in order.
unfoldable pub group_records :
    Wire → (Bytes → ℕ → Bool) → Disk → List LogFile → Outcome (List (Bytes × ℕ))
group_records w live disk [] = ok []
group_records w live disk (f ∷ group) = do
  (f', l) ← live_records w live disk f
  rest ← group_records w live disk group
  ok (l.kept ++ rest)

-- `slices.Replace` of the run of files that starts with the one of a name.
unfoldable pub replace_run : Bytes → ℕ → LogFile → List LogFile → List LogFile
replace_run name n f [] = []
replace_run name n f (g ∷ files) =
    let rest = g ∷ replace_run name n f files in
    if bytes_equal g.name name then f ∷ drop n (g ∷ files) else rest

-- The removal of the replaced files; `removed` says which of the calls of os.Remove succeed.
unfoldable pub remove_files : (Bytes → Bool) → Bytes → List LogFile → Disk → Disk
remove_files removed name [] disk = disk
remove_files removed name (f ∷ group) disk =
    remove_files removed name group
      (if not (bytes_equal f.name name) && removed f.name then delete f.name disk else disk)

unfoldable pub archive_removals : Bytes → List LogFile → List ArchiveOp
archive_removals name [] = []
archive_removals name (f ∷ group) =
    let rest = archive_removals name group in
    if bytes_equal f.name name then rest else record { name = f.name; remove = true } ∷ rest

module _ (w : Wire) (live : Bytes → ℕ → Bool) (removed : Bytes → Bool) (now : ℕ) where
  -- The file that replaces a group, and its content.
  unfoldable pub compacted_file : FileInfo → List (Bytes × ℕ) → LogFile × Bytes
  compacted_file info kept =
      let (content, spans) = write_live w (length magic) kept in
      (
        record {
          info = info;
          name = filename info;
          count = length spans;
          size = length (magic ++ content);
          opened = now;
          archived = false;
          indexed = true;
          spans = spans;
          revisions = revisions_kept kept;
        },
        magic ++ content,
      )

  -- compactGroup from the rename on.
  unfoldable pub replace_group :
      LogFile → List LogFile → LogFile → Bytes → FilesystemLog → FilesystemLog
  replace_group first group f content s = record s {
    disk = remove_files removed f.name group (insert f.name content s.disk);
    files = replace_run first.name (length group) f s.files;
    archiver =
        if has_archive s
        then s.archiver
          ++ (record { name = f.name; remove = false } ∷ archive_removals f.name group)
        else s.archiver;
  }

  unfoldable pub compact_group : List LogFile → FilesystemLog → FilesystemLog × Outcome (Unit {0})
  compact_group [] s = (s, fatal)
  compact_group (first ∷ others) s = elim (split_last (first ∷ others)) [
    | none ↦ (s, fatal)
    | some (before, last) ↦ elim (group_records w live s.disk (first ∷ others)) [
      | err e ↦ (s, err e)
      | fatal ↦ (s, fatal)
      | ok kept ↦
          let info : FileInfo = record {
            first = first.info.first;
            last = last.info.last;
            sparse = true;
          } in
          let (f, content) = compacted_file info kept in
          (replace_group first (first ∷ others) f content s, ok tt)
    ]
  ]

  -- `set_file` for each of the files: they are indexed by now.
  unfoldable pub set_measured : List Measured → List LogFile → List LogFile
  set_measured [] files = files
  set_measured (m ∷ measured) files = set_measured measured (set_file m.f files)

  unfoldable pub compact : ℕ → FilesystemLog → FilesystemLog × Outcome (Unit {0})
  compact through s = elim (split_last s.files) [
    | none ↦ (s, fatal)
    | some (closed, active) ↦
        if is_empty (eligible through closed)
        then (s, ok tt)
        else elim (measure_files w live s.disk (eligible through closed)) [
          | err e ↦ (s, err e)
          | fatal ↦ (s, fatal)
          | ok measured ↦
              walk s.rotate_bytes compact_group measured [] 0 0
                (record s { files = set_measured measured s.files })
        ]
  ]
