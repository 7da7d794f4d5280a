-- ===== src/FileLog/Recovery.antt =====
-- Recovery in pkg/persistence/filesystemlog/filesystem_log.go: a file whose last write was cut short at
-- any byte holds some of the records of that write, in order, and open finds these.
use cloudetcd.Base.{
  ℕ, ◌+◌, ◌-◌, ◌≤◌, ◌≡◌, refl, sym, ap, ◌∙◌, Bytes, true, false, List, [], ◌∷◌, ◌++◌, Option, some,
  arith, length, length-append, take, take-append, take_all, Bool, ◌⊎◌, if◌then◌else◌, ltb, inl,
  inr, Bool-cases, not_ltb→le, lookup, insert, lookup-insert, bytes_eq, bytes_equal_refl,
}
use mathlib.Core.List.{append_assoc, append-nil}
use cloudetcd.Event.{LogRecord}
use cloudetcd.Outcome.{ok}
use cloudetcd.Codec.Protowire.{Wire, IsWire}
use cloudetcd.Codec.{magic, revisions_from}
use cloudetcd.Codec.Frames.{frames, spans_at, IsTorn}
use cloudetcd.Codec.RoundTrip.{messages_from, messages_from-AreMessages, AreWritable}
use cloudetcd.FileLog.{Disk, LogFile}
use cloudetcd.FileLog.Open.{open_file, check_file, starts_behind}
use cloudetcd.FileLog.Content.{
  AreWritable-append, AreWritable-take, are_consecutive-revisions, content_of, content_of-append,
  frames-take, length-messages_from, length-spans_at, messages_from-take, scan-content_of,
}

module _ (w : Wire) (hw : IsWire w) where
  -- What open makes of a dense file, the last one or not: it has these records and nothing else. Only
  -- the last one is indexed at once.
  pub record IsRecovered (is_last : Bool) (prev : Option LogFile) (disk : Disk) (f : LogFile)
      (records : List LogRecord) : Type 0 where
    pub disk_after : Disk
    pub file : LogFile
    pub opened : open_file w is_last prev disk f ≡ (disk_after, ok file)
    pub on_disk : lookup f.name disk_after ≡ some (content_of w f.info.first records)
    pub count : file.count ≡ length records
    pub size : file.size ≡ length (content_of w f.info.first records)
    pub spans : file.spans ≡ (
        if is_last
        then spans_at w (length magic) (messages_from w f.info.first records)
        else f.spans)
    pub last : file.info.last ≡ f.info.first + length records - 1

  -- The file that check_file gives for a dense one.
  abbrev opened_as : Bool → LogFile → List LogRecord → LogFile
  opened_as is_last f records = record f {
    info = record {
      first = f.info.first;
      last = f.info.first + length records - 1;
      sparse = false;
    };
    count = length records;
    size = length (content_of w f.info.first records);
    spans =
        if is_last
        then spans_at w (length magic) (messages_from w f.info.first records)
        else f.spans;
    indexed = if is_last then true else f.indexed;
  }

  check_file-dense :
      (is_last : Bool) (prev : Option LogFile) (f : LogFile) (records : List LogRecord)
      → f.info.sparse ≡ false
      → starts_behind prev f.info.first ≡ true
      → check_file is_last prev f (record {
        spans = spans_at w (length magic) (messages_from w f.info.first records);
        revisions = revisions_from f.info.first (length records);
        complete = length (content_of w f.info.first records);
      })
        ≡ ok (opened_as is_last f records)
  unfolding check_file
  check_file-dense is_last prev f records dense starts =
      let count : length (spans_at w (length magic) (messages_from w f.info.first records))
          ≡ length records =
        length-spans_at w (length magic) (messages_from w f.info.first records)
        ∙ length-messages_from w f.info.first records in
      elim (Bool-cases is_last) [
        | inl last ↦
            rw (dense, starts, count, are_consecutive-revisions w f.info.first (length records))
              (rw last refl)
        | inr closed ↦
            rw (dense, starts, count, are_consecutive-revisions w f.info.first (length records))
              (rw closed refl)
      ]

  open_file-IsTorn :
      (is_last : Bool) (prev : Option LogFile) (disk : Disk) (f : LogFile)
      (records : List LogRecord) (tail : Bytes)
      → (is_last ≡ true) ⊎ (length tail ≡ 0)
      → f.info.sparse ≡ false
      → starts_behind prev f.info.first ≡ true
      → AreWritable w f.info.first records
      → IsTorn w tail
      → lookup f.name disk ≡ some (content_of w f.info.first records ++ tail)
      → IsRecovered is_last prev disk f records
  unfolding open_file
  open_file-IsTorn is_last prev disk f records tail last_or_whole dense starts h torn on_disk =
      let content = content_of w f.info.first records in
      let scanned = scan-content_of w hw f.info.first records tail h torn in
      let checked = check_file-dense is_last prev f records dense starts in
      let cut = take-append content tail in
      let size = length-append content tail in
      elim (Bool-cases (ltb (length content) (length (content ++ tail)))) [
        | inl more ↦
            let last : is_last ≡ true = is_the_last (length content) more size last_or_whole in
            record {
              disk_after = insert f.name content disk;
              file = opened_as is_last f records;
              opened =
                  rw (on_disk, open_file)
                    (rw scanned (rw more (rw (checked, cut) (rw dense (rw last refl)))));
              on_disk =
                  lookup-insert f.name f.name content disk ∙ rw (bytes_equal_refl f.name) refl;
              count = refl;
              size = refl;
              spans = refl;
              last = refl;
            }
        | inr nothing ↦ record {
          disk_after = disk;
          file = opened_as is_last f records;
          opened = rw (on_disk, open_file) (rw scanned (rw nothing (rw checked refl)));
          on_disk =
              on_disk
              ∙ ap some (
                  ap (◌++◌ content) (
                    no_tail tail (
                      omega (
                        arith,
                        size,
                        not_ltb→le (length content) (length (content ++ tail)) nothing,
                      )))
                  ∙ append-nil content);
          count = refl;
          size = refl;
          spans = refl;
          last = refl;
        }
      ]
    where
      no_tail : (t : Bytes) → length t ≤ 0 → t ≡ []
      no_tail [] e = refl
      no_tail (x ∷ t) e = absurd (omega arith)

      is_the_last :
          (n : ℕ)
          → ltb n (length (content_of w f.info.first records ++ tail)) ≡ true
          → length (content_of w f.info.first records ++ tail) ≡ n + length tail
          → (is_last ≡ true) ⊎ (length tail ≡ 0)
          → is_last ≡ true
      is_the_last n more size (inl last) = last
      is_the_last n more size (inr whole) = absurd (ground arith)

  no_tail_behind : (x tail : Bytes) → x ≡ x ++ tail → length tail ≡ 0
  no_tail_behind x tail e = omega (arith, ap length e, length-append x tail)

  -- The same for a file whose last write stopped at any byte.
  pub open_file-cut :
      (is_last : Bool) (prev : Option LogFile) (disk : Disk) (f : LogFile)
      (records batch : List LogRecord) (k : ℕ)
      → (is_last ≡ true)
        ⊎ (length (frames w (messages_from w (f.info.first + length records) batch)) ≤ k)
      → f.info.sparse ≡ false
      → starts_behind prev f.info.first ≡ true
      → AreWritable w f.info.first records
      → AreWritable w (f.info.first + length records) batch
      → lookup f.name disk
        ≡ some (
            content_of w f.info.first records
            ++ take k (frames w (messages_from w (f.info.first + length records) batch)))
      → (n : ℕ) × (n ≤ length batch)
        × (length (frames w (messages_from w (f.info.first + length records) batch)) ≤ k
            → n ≡ length batch)
        × IsRecovered is_last prev disk f (records ++ take n batch)
  open_file-cut is_last prev disk f records batch k last_or_whole dense starts h hb on_disk =
      let first = f.info.first in
      let from = first + length records in
      let ms = messages_from w from batch in
      let (n, tail, is, torn, few, all) =
        frames-take w hw k ms (messages_from-AreMessages w hw from batch hb) in
      let count = length-messages_from w from batch in
      let joined : content_of w first records ++ take k (frames w ms)
          ≡ content_of w first (records ++ take n batch) ++ tail =
        ap (◌++◌ (content_of w first records)) is
        ∙ sym (append_assoc (content_of w first records) (frames w (take n ms)) tail)
        ∙ ap (λ c. c ++ tail)
            (ap (λ fs. content_of w first records ++ frames w fs)
                (messages_from-take w n from batch)
              ∙ content_of-append w first records (take n batch)) in
      let no_tail : (is_last ≡ true) ⊎ (length tail ≡ 0) = elim last_or_whole [
        | inl last ↦ inl last
        | inr big ↦
            let kept : take n ms ≡ ms = take_all n ms (omega (arith, all big)) in
            let whole : take k (frames w ms) ≡ frames w ms = take_all k (frames w ms) big in
            inr (
              no_tail_behind (frames w ms) tail
                (sym whole ∙ is ∙ ap (λ fs. frames w fs ++ tail) kept))
      ] in
      (
        n,
        omega (arith, few, count),
        λ big. all big ∙ count,
        open_file-IsTorn is_last prev disk f (records ++ take n batch) tail no_tail dense starts
            (AreWritable-append w first records (take n batch) h
              (AreWritable-take w n from batch hb))
            torn (on_disk ∙ ap some joined),
      )
