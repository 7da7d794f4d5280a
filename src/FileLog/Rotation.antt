-- ===== src/FileLog/Rotation.antt =====
-- rotateLocked of pkg/persistence/filesystemlog/filesystem_log.go preserves the invariant.
use cloudetcd.Base.{
  ℕ, suc, ◌^◌, ◌<◌, ◌≡◌, refl, sym, ap, ◌∙◌, Bytes, true, false, List, [], ◌∷◌, ◌++◌, none, some,
  arith, length, nat_beq, inl, inr, Bool-cases, lookup, insert, lookup-insert, bytes_eq,
  bytes_equal, bytes_equal_refl,
}
use cloudetcd.Event.{LogRecord}
use cloudetcd.Outcome.{ok}
use cloudetcd.Codec.Protowire.{Proto}
use cloudetcd.Codec.{magic}
use cloudetcd.Codec.Frames.{frames, spans_at}
use cloudetcd.Codec.RoundTrip.{messages_from}
use cloudetcd.FileLog.Names.{FileInfo, filename}
use cloudetcd.FileLog.{ArchiveOp, FilesystemLog, split_last}
use cloudetcd.FileLog.Open.{done, named_file, new_active_file, has_archive}
use cloudetcd.FileLog.Commit.{CommitIo, queue_closed_file, rotate}
use cloudetcd.FileLog.Durable.{split_last-append}
use cloudetcd.FileLog.Chain.{
  chain_end, IsChain-append, chain_end-append, dense_name, dense_name-differs, IsLog,
}

-- Every call of the operating system succeeds.
abbrev pub all_done : CommitIo
all_done = record { write = done; synced = true; closed = true; create = done }

module _ (p : Proto) where
  -- The state behind a rotation, with any queue of the archiver.
  abbrev started : ℕ → List ArchiveOp → FilesystemLog → FilesystemLog
  started now ops s =
      let info : FileInfo = record {
        first = suc s.last_revision;
        last = s.last_revision;
        sparse = false;
      } in
      record s {
        disk = insert (filename info) magic s.disk;
        files =
            s.files
            ++ (record (named_file info (filename info)) {
              size = length magic;
              opened = now;
              indexed = true;
            }
                ∷ []);
        active_open = true;
        archiver = ops;
      }

  filename-dense_name :
      (n last : ℕ) → filename (record { first = n; last = last; sparse = false }) ≡ dense_name n
  unfolding filename dense_name
  filename-dense_name n last = refl

  started-IsLog :
      (now : ℕ) (ops : List ArchiveOp) (records : List LogRecord) (s : FilesystemLog)
      → IsLog p s records
      → 0 < length records
      → suc s.last_revision < 2 ^ 64
      → IsLog p (started now ops s) []
  started-IsLog now ops records s l some_records fits = record {
    held = record {
      closed = s.files;
      active = record (named_file info name) { size = length magic; opened = now; indexed = true };
      files = refl;
      is_open = refl;
      dense = refl;
      writable = tt;
      on_disk =
          lookup-insert name name magic s.disk
          ∙ rw (bytes_equal_refl name) (unfold frames messages_from in refl);
      count = refl;
      size = unfold frames messages_from in refl;
      spans = unfold spans_at messages_from in refl;
      position = omega arith;
    };
    chain =
        IsChain-append 1 s.files
          (record (named_file info name) { size = length magic; opened = now; indexed = true })
          l.chain starts (omega (arith, starts));
    last = refl;
    fresh = λ n later bound.
        lookup-insert name (dense_name n) magic s.disk
        ∙ rw (differs n later bound)
            (l.fresh n (omega (arith, later, l.held.position, some_records)) bound);
  }
    where
      info : FileInfo
      info = record { first = suc s.last_revision; last = s.last_revision; sparse = false }

      name : Bytes
      name = filename info

      differs :
          (n : ℕ) → suc s.last_revision < n → n < 2 ^ 64 → bytes_equal name (dense_name n) ≡ false
      differs n later bound =
          rw (filename-dense_name (suc s.last_revision) s.last_revision)
            (dense_name-differs (suc s.last_revision) n later bound)

      starts : suc s.last_revision ≡ chain_end 1 s.files
      starts =
          ap suc (sym l.last)
          ∙ sym (ap (chain_end 1) l.held.files ∙ chain_end-append 1 l.held.closed l.held.active)

  new_active_file-done :
      (now : ℕ) (s : FilesystemLog)
      → lookup (dense_name (suc s.last_revision)) s.disk ≡ none
      → new_active_file done now (record s { active_open = false })
        ≡ (started now s.archiver s, ok tt)
  unfolding new_active_file dense_name filename
  new_active_file-done now s missing = rw (missing, new_active_file) refl

  -- A rotation starts a new, empty file.
  pub rotate-IsLog :
      (now : ℕ) (records : List LogRecord) (s : FilesystemLog)
      → IsLog p s records
      → 0 < length records
      → suc s.last_revision < 2 ^ 64
      → (s' : FilesystemLog) × (rotate all_done now s ≡ (s', ok tt))
        × (s'.last_revision ≡ s.last_revision)
        × IsLog p s' []
  unfolding rotate queue_closed_file
  rotate-IsLog now records s l some_records fits =
      let missing =
        l.fresh (suc s.last_revision) (omega (arith, l.held.position, some_records)) fits in
      let created = new_active_file-done now s missing in
      let split : split_last s.files ≡ some (l.held.closed, l.held.active) =
        ap split_last l.held.files ∙ split_last-append l.held.closed l.held.active in
      let counted : nat_beq l.held.active.count 0 ≡ false =
        ground (arith, l.held.count, some_records) in
      let queued = s.archiver ++ record { name = l.held.active.name; remove = false } ∷ [] in
      elim (Bool-cases (has_archive s)) [
        | inl archives ↦ (
          started now queued s,
          rw (split, rotate)
              (rw counted (
                rw (l.held.is_open)
                  (rw archives (ap (queue_closed_file true l.held.active.name) created)))),
          refl,
          started-IsLog now queued records s l some_records fits,
        )
        | inr nothing ↦ (
          started now s.archiver s,
          rw (split, rotate)
              (rw counted (
                rw (l.held.is_open)
                  (rw nothing (ap (queue_closed_file false l.held.active.name) created)))),
          refl,
          started-IsLog now s.archiver records s l some_records fits,
        )
      ]
