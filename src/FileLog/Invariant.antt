-- ===== src/FileLog/Invariant.antt =====
-- commitBatch and rotateLocked of pkg/persistence/filesystemlog/filesystem_log.go preserve the invariant.
use cloudetcd.Base.{
  ℕ, suc, ◌+◌, ◌^◌, ◌≤◌, ◌<◌, ◌≡◌, refl, ap, ◌∙◌, Bytes, true, List, [], ◌∷◌, ◌++◌, some, arith,
  length, length-append, leb, nat_beq, ◌⊎◌, inl, inr, Bool-cases, lookup, insert, lookup-insert,
  bytes_eq, bytes_equal_refl, if◌then◌else◌,
}
use cloudetcd.Event.{LogRecord}
use cloudetcd.Outcome.{ok}
use cloudetcd.Codec.Protowire.{Proto, IsProto}
use cloudetcd.Codec.{magic}
use cloudetcd.Codec.Frames.{frames, spans_at}
use cloudetcd.Codec.RoundTrip.{messages_from, AreWritable, append_records-messages}
use cloudetcd.FileLog.{FilesystemLog, split_last}
use cloudetcd.FileLog.Open.{done, refused}
use cloudetcd.FileLog.Commit.{
  rotate, publish, shift_spans, commit_written, commit_encoded, commit_batch,
}
use cloudetcd.FileLog.Content.{
  content_of, content_of-append, messages_from-append, AreWritable-append,
}
use cloudetcd.FileLog.Durable.{split_last-append}
use cloudetcd.FileLog.Chain.{
  IsChain-append, IsChain-closed, dense_name, lookup-insert-none, spans_at-append,
  shift_spans-spans_at, IsLog,
}
use cloudetcd.FileLog.Rotation.{all_done, rotate-IsLog}

module _ (p : Proto) where
  -- The state that a commit publishes.
  module _ (batch records : List LogRecord) (s : FilesystemLog) (l : IsLog p s records)
      (h : AreWritable p.wire (suc s.last_revision) batch) where
    abbrev buf : Bytes
    buf = frames p.wire (messages_from p.wire (suc s.last_revision) batch)

    abbrev published : FilesystemLog
    published =
        publish l.held.closed l.held.active buf
          (spans_at p.wire 0 (messages_from p.wire (suc s.last_revision) batch)) batch
          (record s {
            disk =
                insert l.held.active.name
                  (content_of p.wire l.held.active.info.first records ++ buf) s.disk;
          })

    joined_content :
        content_of p.wire l.held.active.info.first records ++ buf
        ≡ content_of p.wire l.held.active.info.first (records ++ batch)
    joined_content =
        rw (l.held.position) (content_of-append p.wire l.held.active.info.first records batch)

    published_last : published.last_revision ≡ s.last_revision + length batch
    unfolding publish
    published_last = refl

    published_size :
        l.held.active.size + length buf
        ≡ length (content_of p.wire l.held.active.info.first (records ++ batch))
    published_size = omega (
      arith,
      l.held.size,
      length-append (content_of p.wire l.held.active.info.first records) buf,
      ap length joined_content,
    )

    published-IsLog : IsLog p published (records ++ batch)
    unfolding publish
    published-IsLog = record {
      held = record {
        closed = l.held.closed;
        active = record l.held.active {
          info = record {
            first = l.held.active.info.first;
            last = s.last_revision + length batch;
            sparse = l.held.active.info.sparse;
          };
          count = l.held.active.count + length batch;
          size = l.held.active.size + length buf;
          spans =
              l.held.active.spans
              ++ shift_spans l.held.active.size
                  (spans_at p.wire 0 (messages_from p.wire (suc s.last_revision) batch));
        };
        files = refl;
        is_open = l.held.is_open;
        dense = l.held.dense;
        writable =
            AreWritable-append p.wire l.held.active.info.first records batch l.held.writable
              (rw (l.held.position) at h);
        on_disk = written ∙ ap some joined_content;
        count = omega (arith, l.held.count, length-append records batch);
        size = published_size;
        spans = joined_spans;
        position = omega (arith, l.held.position, length-append records batch);
      };
      chain =
          let (before, starts) =
            IsChain-closed 1 l.held.closed l.held.active (rw (l.held.files) at l.chain) in
          IsChain-append 1 l.held.closed
            (record l.held.active {
              info = record l.held.active.info { last = s.last_revision + length batch };
              count = l.held.active.count + length batch;
              size = l.held.active.size + length buf;
              spans =
                  l.held.active.spans
                  ++ shift_spans l.held.active.size
                      (spans_at p.wire 0 (messages_from p.wire (suc s.last_revision) batch));
            })
            before starts (omega (arith, starts, l.held.position));
      last = refl;
      fresh = λ n later fits.
          lookup-insert-none l.held.active.name (dense_name n)
            (content_of p.wire l.held.active.info.first records)
            (content_of p.wire l.held.active.info.first records ++ buf) s.disk l.held.on_disk
            (l.fresh n later fits);
    }
      where
        written :
            lookup l.held.active.name (
              insert l.held.active.name
                (content_of p.wire l.held.active.info.first records ++ buf)
                s.disk)
            ≡ some (content_of p.wire l.held.active.info.first records ++ buf)
        written =
            lookup-insert l.held.active.name l.held.active.name
              (content_of p.wire l.held.active.info.first records ++ buf) s.disk
            ∙ rw (bytes_equal_refl l.held.active.name) refl

        joined_spans :
            l.held.active.spans
              ++ shift_spans l.held.active.size
                  (spans_at p.wire 0 (messages_from p.wire (suc s.last_revision) batch))
            ≡ spans_at p.wire
                (length magic)
                (messages_from p.wire l.held.active.info.first (records ++ batch))
        joined_spans =
            let first = l.held.active.info.first in
            let ms = messages_from p.wire first records in
            let behind : l.held.active.size + 0 ≡ length magic + length (frames p.wire ms) =
              omega (arith, l.held.size, length-append magic (frames p.wire ms)) in
            rw
              (
                l.held.spans,
                messages_from-append p.wire first records batch,
                spans_at-append p.wire (length magic) ms
                    (messages_from p.wire (first + length records) batch),
                ← l.held.position,
              )
              (ap (◌++◌ (spans_at p.wire (length magic) ms)) (
                shift_spans-spans_at p.wire l.held.active.size 0
                  (messages_from p.wire (suc s.last_revision) batch)
                ∙ ap (λ pos. spans_at p.wire pos (messages_from p.wire (suc s.last_revision) batch))
                    behind))

module _ (p : Proto) (hp : IsProto p) where
  -- The commit, as far as the test whether to rotate.
  commit_batch-published :
      (now : ℕ) (batch records : List LogRecord) (s : FilesystemLog) (l : IsLog p s records)
      (h : AreWritable p.wire (suc s.last_revision) batch)
      → 0 < length batch
      → commit_batch p all_done now s.last_revision batch s ≡ (
          if leb s.rotate_bytes (l.held.active.size + length (buf p batch records s l h))
          then rotate all_done now (published p batch records s l h)
          else (published p batch records s l h, ok tt))
  unfolding commit_batch commit_encoded commit_written
  commit_batch-published now [] records s l h some_batch = absurd (omega arith)
  commit_batch-published now (b ∷ bs) records s l h some_batch =
      let same : nat_beq s.last_revision s.last_revision ≡ true = ground arith in
      let split : split_last s.files ≡ some (l.held.closed, l.held.active) =
        ap split_last l.held.files ∙ split_last-append l.held.closed l.held.active in
      let handle : (if s.active_open then done else refused) ≡ done = rw (l.held.is_open) refl in
      rw (append_records-messages p hp [] (suc s.last_revision) (b ∷ bs) h, commit_batch)
        (rw (same, commit_encoded) (rw split (rw (l.held.on_disk) (rw handle refl))))

  -- In an open log a commit of records that can be written ends without an error if the calls of the
  -- operating system do. The log then ends at the last revision of the batch and is open still: while its
  -- active file stays below RotateBytes this has the old records and the batch, and once it reaches
  -- RotateBytes a new file is the active one and has no records.
  pub commit_batch-IsLog :
      (now : ℕ) (batch records : List LogRecord) (s : FilesystemLog) (l : IsLog p s records)
      → AreWritable p.wire (suc s.last_revision) batch
      → 0 < length batch
      → suc (s.last_revision + length batch) < 2 ^ 64
      → (s' : FilesystemLog) × (commit_batch p all_done now s.last_revision batch s ≡ (s', ok tt))
        × (s'.last_revision ≡ s.last_revision + length batch)
        × (((length (content_of p.wire l.held.active.info.first (records ++ batch))
                < s.rotate_bytes)
              × IsLog p s' (records ++ batch))
            ⊎ ((s.rotate_bytes
                  ≤ length (content_of p.wire l.held.active.info.first (records ++ batch)))
                × IsLog p s' []))
  commit_batch-IsLog now batch records s l h some_batch fits =
      let step = commit_batch-published now batch records s l h some_batch in
      let s1 = published p batch records s l h in
      let l1 = published-IsLog p batch records s l h in
      let size : l.held.active.size + length (buf p batch records s l h)
          ≡ length (content_of p.wire l.held.active.info.first (records ++ batch)) =
        published_size p batch records s l h in
      let end : s1.last_revision ≡ s.last_revision + length batch =
        published_last p batch records s l h in
      elim (Bool-cases
        (leb s.rotate_bytes (l.held.active.size + length (buf p batch records s l h)))) [
          | inl full ↦
              let (s2, rotated, last, l2) =
                rotate-IsLog p now (records ++ batch) s1 l1
                  (omega (arith, length-append records batch, some_batch))
                  (omega (arith, end, fits)) in
              (s2, step ∙ rw full rotated, last ∙ end, inr (ground (arith, full, size), l2))
          | inr room ↦ (s1, step ∙ rw room refl, end, inl (ground (arith, room, size), l1))
        ]
