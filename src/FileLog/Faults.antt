-- ===== src/FileLog/Faults.antt =====
-- Two states of the directory that pkg/persistence/filesystemlog/filesystem_log.go does not recover: a new
-- file whose header was cut short, and a replaced compacted file that was not removed.
use cloudetcd.Base.{
  ℕ, suc, ◌^◌, ◌≤◌, ◌<◌, ◌≡◌, refl, sym, ap, ◌∙◌, Bytes, Bool, true, false, [], ◌∷◌, Option, none,
  some, arith, length, length-take, take, nat_beq, Bool-cases, if◌then◌else◌, inl, inr, lookup,
  insert, delete, lookup-insert, has_prefix, bytes_eq, bytes_equal, bytes_equal_refl,
  bytes_equal_sound,
}
use cloudetcd.Outcome.{Error, err}
use cloudetcd.Codec.Protowire.{Wire}
use cloudetcd.Codec.{magic, scan}
use cloudetcd.FileLog.Names.{FileInfo, filename, parse_filename, named, parse_filename-filename}
use cloudetcd.FileLog.{LogFile, FilesystemLog}
use cloudetcd.FileLog.Open.{
  failed, named_file, log_files, sorts_behind, goes_behind, insert_file, sort_files, covered_by,
  keep_files, list_files, open_file, new_active_file,
}

has_prefix-short : (s prefix : Bytes) → length s < length prefix → has_prefix s prefix ≡ false
unfolding has_prefix
has_prefix-short s [] h = absurd (omega arith)
has_prefix-short [] (y ∷ ys) h = refl
has_prefix-short (x ∷ s) (y ∷ ys) h = ground (arith, has_prefix-short s ys (omega arith))

-- A file that newActiveFile leaves when the write of its header stops early, as a crash in a rotation or
-- in a new directory can leave it, is refused by open for its header, also where it is the last file.
pub open_file-short_header :
    (w : Wire) (n now : ℕ) (s : FilesystemLog) (is_last : Bool) (prev : Option LogFile)
    → n < length magic
    → lookup
        (filename (record { first = suc s.last_revision; last = s.last_revision; sparse = false }))
        s.disk
      ≡ none
    → (open_file w is_last prev (new_active_file (failed n) now s).0.disk (
        named_file
          (record { first = suc s.last_revision; last = 0; sparse = false })
          (filename
            (record { first = suc s.last_revision; last = s.last_revision; sparse = false })))).1
      ≡ err Error.bad_header
unfolding open_file new_active_file scan
open_file-short_header w n now s is_last prev short fresh =
    let name =
      filename (record { first = suc s.last_revision; last = s.last_revision; sparse = false }) in
    let there : lookup name (insert name (take n magic) s.disk) ≡ some (take n magic) =
      lookup-insert name name (take n magic) s.disk ∙ rw (bytes_equal_refl name) refl in
    let size = length-take n magic (omega (arith, short)) in
    let refused = has_prefix-short (take n magic) magic (omega (arith, size, short)) in
    rw (fresh, new_active_file) (rw (there, open_file) (rw (refused, scan) refl))

abbrev last_in : Option FileInfo → ℕ
last_in none = 0
last_in (some fi) = fi.last

-- Files that cover different revisions have different names.
filename-differs :
    (a b : FileInfo)
    → a.sparse ≡ true
    → b.sparse ≡ true
    → a.first ≤ a.last
    → b.first ≤ b.last
    → a.last < b.last
    → b.last < 2 ^ 64
    → bytes_equal (filename a) (filename b) ≡ false
filename-differs a b sa sb oa ob less fits =
    elim (Bool-cases (bytes_equal (filename a) (filename b))) [
      | inr differs ↦ differs
      | inl same ↦ absurd (
          let pa = parse_filename-filename a oa (omega (arith, less, fits)) in
          let pb = parse_filename-filename b ob fits in
          let e = bytes_equal_sound (filename a) (filename b) same in
          let both : some (named a) ≡ some (named b) = sym pa ∙ ap parse_filename e ∙ pb in
          let lasts : a.last ≡ b.last = rw (sa, sb) at (ap last_in both) in
          omega (arith, lasts, less))
    ]

log_files-both :
    (a b : FileInfo) (content_a content_b : Bytes)
    → parse_filename (filename a) ≡ some a
    → parse_filename (filename b) ≡ some b
    → log_files ((filename a, content_a) ∷ (filename b, content_b) ∷ [])
      ≡ named_file a (filename a) ∷ named_file b (filename b) ∷ []
unfolding log_files
log_files-both a b content_a content_b pa pb = rw (pa, log_files) (rw (pb, log_files) refl)

-- Of two compacted files, alone in the directory, with the same first revision, the second one
-- reaching further, listFiles keeps the one that its sort puts first and removes the other one. Where
-- that is the first file, the second one is removed from the directory, with all the revisions behind
-- the last one of the file that is kept. The sort may put either first.
pub list_files-narrow :
    (ties : Bytes → Bytes → Bool) (a b : FileInfo) (content_a content_b : Bytes)
    → a.sparse ≡ true
    → b.sparse ≡ true
    → a.first ≡ b.first
    → a.first ≤ a.last
    → a.last < b.last
    → b.last < 2 ^ 64
    → list_files ties ((filename a, content_a) ∷ (filename b, content_b) ∷ []) ≡ (
        if ties (filename a) (filename b)
        then (named_file b (filename b) ∷ [], (filename b, content_b) ∷ [])
        else (named_file a (filename a) ∷ [], (filename a, content_a) ∷ []))
unfolding list_files log_files sort_files insert_file keep_files covered_by sorts_behind goes_behind
    delete
list_files-narrow ties a b content_a content_b sa sb same oa less fits =
    let ob : b.first ≤ b.last = omega (arith, same, oa, less) in
    let pa : parse_filename (filename a) ≡ some a =
      parse_filename-filename a oa (omega (arith, less, fits)) ∙ ap some (rw sa refl) in
    let pb : parse_filename (filename b) ≡ some b =
      parse_filename-filename b ob fits ∙ ap some (rw sb refl) in
    let differ = filename-differs a b sa sb oa ob less fits in
    let files = log_files-both a b content_a content_b pa pb in
    let tie : nat_beq a.first b.first ≡ true = ground (arith, same) in
    let same' : nat_beq b.first a.first ≡ true = ground (arith, same) in
    let differ' : bytes_equal (filename b) (filename a) ≡ false =
      elim (Bool-cases (bytes_equal (filename b) (filename a))) [
        | inr apart ↦ apart
        | inl e ↦ absurd (
            let eq = bytes_equal_sound (filename b) (filename a) e in
            let self : bytes_equal (filename a) (filename b) ≡ true =
              rw eq (bytes_equal_refl (filename a)) in
            cc)
      ] in
    let behind : (x : Bool)
        → ties (filename a) (filename b) ≡ x
        → goes_behind ties (named_file a (filename a)) (named_file b (filename b)) ≡ x =
      λ x h. ground (arith, tie, same', sa, sb, h) in
    elim (Bool-cases (ties (filename a) (filename b))) [
      | inr narrow_first ↦
          let sorted : sort_files ties (named_file a (filename a) ∷ named_file b (filename b) ∷ [])
              ≡ named_file a (filename a) ∷ named_file b (filename b) ∷ [] =
            rw (behind false narrow_first) refl in
          let covered : covered_by (some (named_file a (filename a))) (named_file b (filename b))
              ≡ true =
            ground (arith, sa, same, oa) in
          let gone : delete (filename b) ((filename a, content_a) ∷ (filename b, content_b) ∷ [])
              ≡ (filename a, content_a) ∷ [] =
            rw (differ, delete) (rw (bytes_equal_refl (filename b)) refl) in
          rw narrow_first (rw (list_files, files) (rw sorted (rw covered (rw gone refl))))
      | inl wide_first ↦
          let sorted : sort_files ties (named_file a (filename a) ∷ named_file b (filename b) ∷ [])
              ≡ named_file b (filename b) ∷ named_file a (filename a) ∷ [] =
            rw (behind true wide_first) refl in
          let covered : covered_by (some (named_file b (filename b))) (named_file a (filename a))
              ≡ true =
            ground (arith, sb, same, ob) in
          let gone : delete (filename a) ((filename a, content_a) ∷ (filename b, content_b) ∷ [])
              ≡ (filename b, content_b) ∷ [] =
            rw (bytes_equal_refl (filename a), delete) (rw differ' refl) in
          rw wide_first (rw (list_files, files) (rw sorted (rw covered (rw gone refl))))
    ]
