-- ===== src/FileLog/Lookup.antt =====
-- GetLogEntry of pkg/persistence/filesystemlog/filesystem_log.go in an open log.
use cloudetcd.Base.{
  In, ℕ, zero, suc, ◌+◌, ◌-◌, ◌≤◌, ◌<◌, ◌≡◌, refl, ap, ◌∙◌, Bytes, true, false, ◌||◌, List, [], ◌∷◌,
  ◌++◌, none, some, arith, length, length-append, ltb, leb, bytes_eq, bytes_equal_refl,
}
use mathlib.Core.List.{append-nil}
use cloudetcd.Event.{LogRecord}
use cloudetcd.Outcome.{Error, ok, err, ◌>>=◌}
use cloudetcd.Cache.{element, get, put}
use cloudetcd.Codec.Protowire.{Wire, Proto, IsWire, IsProto}
use cloudetcd.Codec.{magic, Span, span_bytes, frame, decode_message}
use cloudetcd.Codec.Frames.{frames, spans_at, length-frame}
use cloudetcd.Codec.RoundTrip.{messages_from, AreAt, spans_at-AreAt}
use cloudetcd.FileLog.{
  LogFile, FilesystemLog, split_last, nth, position, find_from, find_file, read_at, is_active,
  bytes_at, record_bytes, decode_entry, cached_or_read, get_log_entry, span_at,
}
use cloudetcd.FileLog.Content.{content_of, length-spans_at, length-messages_from}
use cloudetcd.FileLog.Durable.{split_last-append}
use cloudetcd.FileLog.Chain.{IsLog, chain_end, chain_end-append, find_from-IsChain}

find_from-last :
    (closed : List LogFile) (active : LogFile) (revision : ℕ)
    → active.info.first ≤ revision
    → find_from (closed ++ active ∷ []) revision ≡ some active
unfolding find_from
find_from-last [] active revision h = ground (arith, h)
find_from-last (f ∷ closed) active revision h = rw (find_from-last closed active revision h) refl

AreAt-nth :
    (p : Proto) (file : Bytes) (spans : List Span) (records : List LogRecord) (i : ℕ)
    (r : LogRecord)
    → AreAt p file spans records
    → nth records i ≡ some r
    → (span : Span) × (nth spans i ≡ some span) × (decode_message p (span_bytes span file) ≡ ok r)
unfolding nth
AreAt-nth p file [] [] i r at h = cc
AreAt-nth p file [] (x ∷ records) i r at h = absurd at
AreAt-nth p file (s ∷ spans) [] i r at h = cc
AreAt-nth p file (s ∷ spans) (x ∷ records) zero r at h =
    (s, refl, let e : x ≡ r = cc in at.0 ∙ ap ok e)
AreAt-nth p file (s ∷ spans) (x ∷ records) (suc i) r at h =
    AreAt-nth p file spans records i r at.1 h

nth-length : {A : Type 0} (xs : List A) (i : ℕ) (x : A) → nth xs i ≡ some x → i < length xs
unfolding nth
nth-length [] i x h = cc
nth-length (y ∷ xs) zero x h = omega arith
nth-length (y ∷ xs) (suc i) x h = omega (arith, nth-length xs i x h)

-- A span ends within its file.
spans_at-bound :
    (w : Wire) (hw : IsWire w) (pos : ℕ) (ms : List (Bytes × ℕ)) (i : ℕ) (span : Span)
    → nth (spans_at w pos ms) i ≡ some span
    → span.offset + span.length ≤ pos + length (frames w ms)
unfolding nth spans_at frames
spans_at-bound w hw pos [] i span h = cc
spans_at-bound w hw pos ((m, r) ∷ ms) zero span h =
    let a = length (w.append_varint (length m)) in
    let e : record { offset = pos + a; length = length m } ≡ span = cc in
    let ends : pos + a + length m ≡ span.offset + span.length =
      ap (λ (s : Span). s.offset + s.length) e in
    omega (arith, ends, length-append (frame w m) (frames w ms), length-frame w hw m)
spans_at-bound w hw pos ((m, r) ∷ ms) (suc i) span h =
    let ih = spans_at-bound w hw (pos + length (frame w m)) ms i span h in
    omega (arith, ih, length-append (frame w m) (frames w ms))

module _ (p : Proto) (hp : IsProto p) (s : FilesystemLog) (records : List LogRecord)
    (l : IsLog p s records) where
  held_file :
      (i : ℕ)
      → i < length records
      → find_file s.files (l.held.active.info.first + i) ≡ some l.held.active
  unfolding find_file
  held_file i h =
      let found : find_from s.files (l.held.active.info.first + i) ≡ some l.held.active =
        ap (λ fs. find_from fs (l.held.active.info.first + i)) l.held.files
        ∙ find_from-last l.held.closed l.held.active (l.held.active.info.first + i) (omega arith) in
      let covered : leb (l.held.active.info.first + i) l.held.active.info.last ≡ true =
        ground (arith, l.held.position, l.last, h) in
      rw (found, find_file) (rw covered refl)

  -- No file is found behind the last revision.
  no_file : (revision : ℕ) → s.last_revision < revision → find_file s.files revision ≡ none
  unfolding find_file
  no_file revision h =
      let found : find_from s.files revision ≡ some l.held.active =
        ap (λ fs. find_from fs revision) l.held.files
        ∙ find_from-last l.held.closed l.held.active revision (omega (arith, l.held.position, h)) in
      let behind : leb revision l.held.active.info.last ≡ false = ground (arith, l.last, h) in
      rw (found, find_file) (rw behind refl)

  active-is_active : is_active s.files l.held.active ≡ true
  unfolding is_active
  active-is_active =
      let split : split_last s.files ≡ some (l.held.closed, l.held.active) =
        ap split_last l.held.files ∙ split_last-append l.held.closed l.held.active in
      rw (split, is_active) (bytes_equal_refl l.held.active.name)

  active_spans : length l.held.active.spans ≡ length records
  active_spans =
      ap length l.held.spans
      ∙ length-spans_at p.wire (length magic)
          (messages_from p.wire l.held.active.info.first records)
      ∙ length-messages_from p.wire l.held.active.info.first records

  position-held :
      (i : ℕ) → i < length records → position l.held.active (l.held.active.info.first + i) ≡ ok i
  unfolding position
  position-held i h =
      let at : l.held.active.info.first + i - l.held.active.info.first ≡ i = omega arith in
      let inside : (ltb (l.held.active.info.first + i) l.held.active.info.first
            || leb (length l.held.active.spans)
                (l.held.active.info.first + i - l.held.active.info.first))
          ≡ false =
        ground (arith, at, active_spans, h) in
      rw (l.held.dense, position) (rw inside (ap ok at))

  read_at-held :
      (i : ℕ) (span : Span)
      → nth l.held.active.spans i ≡ some span
      → read_at s.disk l.held.active span
        ≡ ok (span_bytes span (content_of p.wire l.held.active.info.first records))
  unfolding read_at
  read_at-held i span there =
      let ms = messages_from p.wire l.held.active.info.first records in
      let content = content_of p.wire l.held.active.info.first records in
      let bound =
        spans_at-bound p.wire hp.wire (length magic) ms i span (rw (l.held.spans) at there) in
      let long : ltb (length content) (span.offset + span.length) ≡ false =
        ground (arith, bound, length-append magic (frames p.wire ms)) in
      rw (l.held.on_disk, read_at) (rw long refl)

  span_at-held :
      (i : ℕ) (span : Span)
      → nth l.held.active.spans i ≡ some span
      → span_at s.disk l.held.active i
        ≡ ok (span_bytes span (content_of p.wire l.held.active.info.first records))
  unfolding span_at
  span_at-held i span there = rw (there, span_at) (read_at-held i span there)

  -- The record of a place, through its span.
  bytes_at-held :
      (i : ℕ) (r : LogRecord)
      → nth records i ≡ some r
      → (m : Bytes) × (bytes_at s.disk l.held.active (l.held.active.info.first + i) ≡ ok m)
        × (decode_message p m ≡ ok r)
  unfolding bytes_at
  bytes_at-held i r h =
      let first = l.held.active.info.first in
      let ms = messages_from p.wire first records in
      let content = content_of p.wire first records in
      let are : AreAt p content l.held.active.spans records =
        rw (l.held.spans)
          (rw append-nil at (spans_at-AreAt p hp magic first records [] l.held.writable)) in
      let (span, there, decoded) = AreAt-nth p content l.held.active.spans records i r are h in
      (
        span_bytes span content,
        ap (λ o. o >>= span_at s.disk l.held.active) (position-held i (nth-length records i r h))
            ∙ span_at-held i span there,
        decoded,
      )

  get-missing :
      (revision : ℕ) → element revision s.cache.ll ≡ none → get s.cache revision ≡ (s.cache, none)
  unfolding get
  get-missing revision missing = rw (missing, get) refl

  record_bytes-held :
      (i : ℕ) (m : Bytes)
      → i < length records
      → bytes_at s.disk l.held.active (l.held.active.info.first + i) ≡ ok m
      → record_bytes p.wire s (l.held.active.info.first + i) ≡ (s, ok (m, false))
  unfolding record_bytes
  record_bytes-held i m few bytes =
      rw (held_file i few, record_bytes) (rw active-is_active (rw bytes refl))

  record_bytes-behind :
      (revision : ℕ)
      → s.last_revision < revision
      → record_bytes p.wire s revision ≡ (s, err Error.not_found)
  unfolding record_bytes
  record_bytes-behind revision behind = rw (no_file revision behind, record_bytes) refl

  -- Every revision up to the last one has a file.
  covering_file :
      (revision : ℕ)
      → 0 < revision
      → revision ≤ s.last_revision
      → (f : LogFile) × (find_file s.files revision ≡ some f)
        × In f s.files
        × (f.info.first ≤ revision)
        × (revision ≤ f.info.last)
  unfolding find_file
  covering_file revision pos upto =
      let end : chain_end 1 s.files ≡ suc s.last_revision =
        ap (chain_end 1) l.held.files
        ∙ chain_end-append 1 l.held.closed l.held.active
        ∙ ap suc l.last in
      let (f, found, within, low, high) =
        find_from-IsChain 1 revision s.files l.chain (omega (arith, pos))
          (omega (arith, end, upto)) in
      let covered : leb revision f.info.last ≡ true = ground (arith, high) in
      (f, rw (found, find_file) (rw covered refl), within, low, high)

  -- In an open log GetLogEntry returns for every revision of the active file that is not in the cache
  -- the record that was committed at this revision, and puts it in the cache; for a revision behind the
  -- last one it returns an error and changes nothing; and findFile finds for every revision from 1 to the
  -- last one a file of the log whose revisions include it.
  pub get_log_entry-IsLog :
      ((i : ℕ) (r : LogRecord)
        → nth records i ≡ some r
        → element (l.held.active.info.first + i) s.cache.ll ≡ none
        → get_log_entry p s (l.held.active.info.first + i)
          ≡ (record s { cache = put s.cache (l.held.active.info.first + i) r }, ok r))
      × ((revision : ℕ)
          → s.last_revision < revision
          → element revision s.cache.ll ≡ none
          → get_log_entry p s revision ≡ (s, err Error.not_found))
      × ((revision : ℕ)
          → 0 < revision
          → revision ≤ s.last_revision
          → (f : LogFile) × (find_file s.files revision ≡ some f)
            × In f s.files
            × (f.info.first ≤ revision)
            × (revision ≤ f.info.last))
  unfolding get_log_entry cached_or_read decode_entry
  get_log_entry-IsLog = (
    λ i r h missing.
        let (m, bytes, decoded) = bytes_at-held i r h in
        let read = record_bytes-held i m (nth-length records i r h) bytes in
        ap (cached_or_read p s (l.held.active.info.first + i))
          (get-missing (l.held.active.info.first + i) missing)
        ∙ ap (decode_entry p (l.held.active.info.first + i)) read
        ∙ rw (decoded, decode_entry) refl,
    λ revision behind missing.
        ap (cached_or_read p s revision) (get-missing revision missing)
        ∙ ap (decode_entry p revision) (record_bytes-behind revision behind),
    covering_file,
  )
