-- ===== src/FileLog/Durable.antt =====
-- commitBatch and open of pkg/persistence/filesystemlog/filesystem_log.go together: what a commit leaves
-- on the disk, however its calls end, and what open makes of it.
use cloudetcd.Base.{
  ℕ, suc, ◌+◌, ◌≤◌, ◌≡◌, ◌⊎◌, refl, sym, ap, ◌∙◌, Bytes, Bool, true, false, List, [], ◌∷◌, ◌++◌,
  Option, none, some, arith, length, take, take_all, nat_beq, inl, inr, Bool-cases, Option-cases,
  lookup, insert, lookup-insert, bytes_eq, bytes_equal, bytes_equal_refl, bytes_equal_sound,
}
use mathlib.Core.List.{append-nil}
use cloudetcd.Event.{LogRecord}
use cloudetcd.Outcome.{Outcome, ok, err, fatal}
use cloudetcd.Codec.Protowire.{Proto, IsProto}
use cloudetcd.Codec.{magic, Span}
use cloudetcd.Codec.Frames.{frames, spans_at}
use cloudetcd.Codec.RoundTrip.{messages_from, AreWritable, append_records-messages}
use cloudetcd.FileLog.Names.{filename}
use cloudetcd.FileLog.{LogFile, FilesystemLog, split_last}
use cloudetcd.FileLog.Open.{
  Io, done, failed, refused, named_file, new_active_file, starts_behind, has_archive,
}
use cloudetcd.FileLog.Commit.{
  CommitIo, queue_closed_file, rotate, publish, commit_written, commit_encoded, commit_batch,
}
use cloudetcd.FileLog.Content.{content_of}
use cloudetcd.FileLog.Recovery.{IsRecovered, open_file-cut}

pub split_last-append :
    (closed : List LogFile) (active : LogFile)
    → split_last (closed ++ active ∷ []) ≡ some (closed, active)
unfolding split_last
split_last-append [] active = refl
split_last-append (f ∷ closed) active = rw (split_last-append closed active) refl

-- The active file of a log holds these records, on the disk and in the index, and can be written.
pub record IsActive (p : Proto) (s : FilesystemLog) (records : List LogRecord) : Type 0 where
  pub closed : List LogFile
  pub active : LogFile
  pub files : s.files ≡ closed ++ active ∷ []
  pub is_open : s.active_open ≡ true
  pub dense : active.info.sparse ≡ false
  pub writable : AreWritable p.wire active.info.first records
  pub on_disk : lookup active.name s.disk ≡ some (content_of p.wire active.info.first records)
  pub count : active.count ≡ length records
  pub size : active.size ≡ length (content_of p.wire active.info.first records)
  pub spans :
      active.spans ≡ spans_at p.wire (length magic) (messages_from p.wire active.info.first records)
  pub position : suc s.last_revision ≡ active.info.first + length records

-- A new file changes no other one.
new_active_file-fresh :
    (io : Io) (now : ℕ) (s : FilesystemLog) (name content : Bytes)
    → lookup name s.disk ≡ some content
    → lookup
        (filename (record { first = suc s.last_revision; last = s.last_revision; sparse = false }))
        s.disk
      ≡ none
    → lookup name (new_active_file io now s).0.disk ≡ some content
unfolding new_active_file
new_active_file-fresh io now s name content h e = by_io io
  where
    created : Bytes
    created =
        filename (record { first = suc s.last_revision; last = s.last_revision; sparse = false })

    other : bytes_equal created name ≡ false
    other = elim (Bool-cases (bytes_equal created name)) [
      | inr differs ↦ differs
      | inl same ↦ absurd (let p = bytes_equal_sound created name same in cc)
    ]

    kept : (c : Bytes) → lookup name (insert created c s.disk) ≡ some content
    kept c = lookup-insert created name c s.disk ∙ rw other h

    by_io : (io : Io) → lookup name (new_active_file io now s).0.disk ≡ some content
    by_io done = rw (e, new_active_file) (kept magic)
    by_io (failed n) = rw (e, new_active_file) (kept (take n magic))
    by_io refused = rw (e, new_active_file) h

pub new_active_file-lookup :
    (io : Io) (now : ℕ) (s : FilesystemLog) (name content : Bytes)
    → lookup name s.disk ≡ some content
    → lookup name (new_active_file io now s).0.disk ≡ some content
unfolding new_active_file
new_active_file-lookup io now s name content h =
    let created =
      filename (record { first = suc s.last_revision; last = s.last_revision; sparse = false }) in
    elim (Option-cases (lookup created s.disk)) [
      | inr (old, e) ↦ rw (e, new_active_file) h
      | inl e ↦ new_active_file-fresh io now s name content h e
    ]

queue_closed_file-disk :
    (archives : Bool) (name : Bytes) (r : FilesystemLog × Outcome (Unit {0}))
    → (queue_closed_file archives name r).0.disk ≡ r.0.disk
unfolding queue_closed_file
queue_closed_file-disk archives name (s, err e) = refl
queue_closed_file-disk archives name (s, fatal) = refl
queue_closed_file-disk true name (s, ok _) = refl
queue_closed_file-disk false name (s, ok _) = refl

pub rotate-lookup :
    (io : CommitIo) (now : ℕ) (s : FilesystemLog) (name content : Bytes)
    → lookup name s.disk ≡ some content
    → lookup name (rotate io now s).0.disk ≡ some content
unfolding rotate
rotate-lookup io now s name content h = elim (Option-cases (split_last s.files)) [
  | inl e ↦ rw (e, rotate) h
  | inr (x, e) ↦
      let kept =
        queue_closed_file-disk (has_archive s) x.1.name
          (new_active_file io.create now (record s { active_open = false })) in
      let added =
        new_active_file-lookup io.create now (record s { active_open = false }) name content h in
      rw (e, rotate) (ground (arith, kept, added))
]

module _ (p : Proto) (hp : IsProto p) where
  commit_written-lookup :
      (io : CommitIo) (now : ℕ) (closed : List LogFile) (active : LogFile) (buf : Bytes)
      (spans : List Span) (records : List LogRecord) (s : FilesystemLog) (name content : Bytes)
      → lookup name s.disk ≡ some content
      → lookup name (commit_written io now closed active buf spans records s).0.disk ≡ some content
  unfolding commit_written
  commit_written-lookup io now closed active buf spans records s name content h =
      let s' = publish closed active buf spans records s in
      let h' : lookup name s'.disk ≡ some content = unfold publish in h in
      let rotated = rotate-lookup io now s' name content h' in ground (arith, h', rotated)

  commit_encoded-lookup :
      (io : CommitIo) (now : ℕ) (batch : List LogRecord) (buf content : Bytes) (spans : List Span)
      (closed : List LogFile) (active : LogFile) (s : FilesystemLog)
      → s.files ≡ closed ++ active ∷ []
      → s.active_open ≡ true
      → lookup active.name s.disk ≡ some content
      → (k : ℕ) × (lookup active.name
            (commit_encoded io now s.last_revision buf spans batch s).0.disk
          ≡ some (content ++ take k buf))
        × (((commit_encoded io now s.last_revision buf spans batch s).1 ≡ ok tt) ⊎ (io.write ≡ done)
            → length buf ≤ k)
  unfolding commit_encoded
  commit_encoded-lookup io now batch buf content spans closed active s files is_open on_disk =
      by_write io.write refl
    where
      Result : FilesystemLog × Outcome (Unit {0}) → Type 0
      Result r =
          (k : ℕ) × (lookup active.name r.0.disk ≡ some (content ++ take k buf))
          × ((r.1 ≡ ok tt) ⊎ (io.write ≡ done) → length buf ≤ k)

      same : nat_beq s.last_revision s.last_revision ≡ true
      same = ground arith

      split : split_last s.files ≡ some (closed, active)
      split = ap split_last files ∙ split_last-append closed active

      written : (c : Bytes) → lookup active.name (insert active.name c s.disk) ≡ some c
      written c =
          lookup-insert active.name active.name c s.disk ∙ rw (bytes_equal_refl active.name) refl

      whole : some (content ++ buf) ≡ some (content ++ take (length buf) buf)
      whole = ap (λ b. some (content ++ b)) (sym (take_all (length buf) buf (omega arith)))

      by_write :
          (write : Io)
          → io.write ≡ write
          → Result (commit_encoded io now s.last_revision buf spans batch s)
      by_write refused e =
          rw (same, commit_encoded)
            (rw split (
              rw on_disk (
                rw is_open (
                  rw e (
                    0,
                    on_disk ∙ ap some (sym (append-nil content)),
                    λ r. elim r [ inl p ↦ absurd (ground arith) | inr p ↦ absurd (ground arith) ],
                  )))))
      by_write (failed n) e =
          rw (same, commit_encoded)
            (rw split (
              rw on_disk (
                rw is_open (
                  rw e (
                    n,
                    written (content ++ take n buf),
                    λ r. elim r [ inl p ↦ absurd (ground arith) | inr p ↦ absurd (ground arith) ],
                  )))))
      by_write done e =
          let s' = record s { disk = insert active.name (content ++ buf) s.disk } in
          rw (same, commit_encoded)
            (rw split (
              rw (on_disk, is_open)
                (rw e (elim (Bool-cases io.synced) [
                  | inr unsynced ↦
                      rw unsynced (length buf, written (content ++ buf) ∙ whole, λ r. omega arith)
                  | inl synced ↦ rw synced (
                    length buf,
                    commit_written-lookup (record io { synced = true }) now closed active buf spans
                          batch s' active.name (content ++ buf) (written (content ++ buf))
                        ∙ whole,
                    λ r. omega arith,
                  )
                ]))))

  -- Some first bytes of the batch are behind the records of the active file, and all of them where the
  -- commit returned no error.
  commit_batch-lookup :
      (io : CommitIo) (now : ℕ) (batch records : List LogRecord) (s : FilesystemLog)
      (a : IsActive p s records)
      → AreWritable p.wire (suc s.last_revision) batch
      → (k : ℕ) × (lookup a.active.name (commit_batch p io now s.last_revision batch s).0.disk
          ≡ some (
              content_of p.wire a.active.info.first records
              ++ take k (frames p.wire (messages_from p.wire (suc s.last_revision) batch))))
        × (((commit_batch p io now s.last_revision batch s).1 ≡ ok tt) ⊎ (io.write ≡ done)
            → length (frames p.wire (messages_from p.wire (suc s.last_revision) batch)) ≤ k)
  unfolding commit_batch commit_encoded frames messages_from
  commit_batch-lookup io now [] records s a h = (
    0,
    a.on_disk ∙ ap some (sym (append-nil (content_of p.wire a.active.info.first records))),
    λ r. omega arith,
  )
  commit_batch-lookup io now (b ∷ bs) records s a h =
      let batch = b ∷ bs in
      let ms = messages_from p.wire (suc s.last_revision) batch in
      rw (append_records-messages p hp [] (suc s.last_revision) batch h, commit_batch)
        (commit_encoded-lookup io now batch (frames p.wire ms)
          (content_of p.wire a.active.info.first records) (spans_at p.wire 0 ms) a.closed a.active s
          a.files a.is_open a.on_disk)

  -- For records that can be written and an active file that has an open write handle and starts right
  -- behind the one before it: what
  -- a commit leaves of its active file when it ends in any way, in an error of a write after any number
  -- of bytes or of a sync, without an error or with one while rotating, open recovers. If the file is
  -- the last one, or if its write was whole and a rotation put another file behind it, it is opened
  -- with all the records that it had and some first records of the batch, all of the batch if the
  -- write was whole or the commit returned no error; a record that was cut short is cut off, and as
  -- the last file it is indexed with the spans of these records. The file that a rotation adds is
  -- not part of this.
  pub commit_batch-IsRecovered :
      (io : CommitIo) (now : ℕ) (batch records : List LogRecord) (s : FilesystemLog)
      (a : IsActive p s records) (is_last : Bool) (prev : Option LogFile)
      → (is_last ≡ true) ⊎ (io.write ≡ done)
      → AreWritable p.wire (suc s.last_revision) batch
      → starts_behind prev a.active.info.first ≡ true
      → (n : ℕ) × (n ≤ length batch)
        × (((commit_batch p io now s.last_revision batch s).1 ≡ ok tt) ⊎ (io.write ≡ done)
            → n ≡ length batch)
        × IsRecovered p.wire hp.wire is_last prev
            (commit_batch p io now s.last_revision batch s).0.disk
            (named_file
              (record { first = a.active.info.first; last = 0; sparse = false })
              a.active.name)
            (records ++ take n batch)
  commit_batch-IsRecovered io now batch records s a is_last prev whole h starts =
      let (k, on_disk, all) = commit_batch-lookup io now batch records s a h in
      let f =
        named_file (record { first = a.active.info.first; last = 0; sparse = false })
          a.active.name in
      let s' = (commit_batch p io now s.last_revision batch s).0 in
      let last_or_whole : (is_last ≡ true)
          ⊎ (length
                (frames p.wire (messages_from p.wire (a.active.info.first + length records) batch))
              ≤ k) =
        elim whole [
          | inl last ↦ inl last
          | inr written ↦ inr (rw a.position at (all (inr written)))
        ] in
      let (n, few, complete, recovered) =
        open_file-cut p.wire hp.wire is_last prev s'.disk f records batch k last_or_whole refl
          starts a.writable (rw a.position at h) (rw a.position at on_disk) in
      (n, few, λ r. complete (rw a.position at (all r)), recovered)
