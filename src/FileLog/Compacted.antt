-- ===== src/FileLog/Compacted.antt =====
-- The file that compactGroup of pkg/persistence/filesystemlog/filesystem_log.go writes, read again.
use cloudetcd.Base.{
  ℕ, zero, suc, ◌+◌, ◌-◌, ◌≤◌, ◌≡◌, refl, ap, ◌∙◌, Bytes, Bool, true, List, [], ◌∷◌, ◌++◌, some,
  arith, length, length-append, In, inl, inr, nat_beq, has_prefix-append, drop-append, Option-cases,
  Bool-cases,
}
use mathlib.Core.List.{append_assoc, append-nil}
use cloudetcd.Outcome.{Error, ok, err}
use cloudetcd.Codec.Protowire.{Wire, Proto, IsWire, IsProto}
use cloudetcd.Codec.{magic, Span, span_bytes, frame, scan}
use cloudetcd.Codec.Frames.{
  frames, spans_at, AreMessages, revisions_of_messages, scan_loop-frames, length-frame,
}
use cloudetcd.Codec.RoundTrip.{span_bytes-frame}
use cloudetcd.FileLog.Names.{FileInfo}
use cloudetcd.FileLog.{LogFile, search, nth, position}
use cloudetcd.FileLog.Compact.{write_live, revisions_kept, compacted_file}
use cloudetcd.FileLog.Content.{nothing-IsTorn}

-- The revisions grow, from `least` on.
abbrev pub IsIncreasing : ℕ → List ℕ → Type 0
IsIncreasing least [] = Unit
IsIncreasing least (r ∷ rs) = (least ≤ r) × IsIncreasing (suc r) rs

nth-IsIncreasing :
    (least : ℕ) (rs : List ℕ) (i r : ℕ) → IsIncreasing least rs → nth rs i ≡ some r → least ≤ r
unfolding nth
nth-IsIncreasing least [] i r grow h = cc
nth-IsIncreasing least (x ∷ rs) zero r grow h = let e : x ≡ r = cc in omega (arith, grow.0, e)
nth-IsIncreasing least (x ∷ rs) (suc i) r grow h =
    omega (arith, grow.0, nth-IsIncreasing (suc x) rs i r grow.1 h)

-- The search finds the place of a revision that is there.
search-nth :
    (least : ℕ) (rs : List ℕ) (i r : ℕ)
    → IsIncreasing least rs
    → nth rs i ≡ some r
    → search r rs ≡ i
unfolding search nth
search-nth least [] i r grow h = cc
search-nth least (x ∷ rs) zero r grow h = let e : x ≡ r = cc in ground (arith, e)
search-nth least (x ∷ rs) (suc i) r grow h =
    let later = nth-IsIncreasing (suc x) rs i r grow.1 h in
    let ih = search-nth (suc x) rs i r grow.1 h in ground (arith, later, ih)

nth-In : (rs : List ℕ) (i r : ℕ) → nth rs i ≡ some r → In r rs
unfolding nth
nth-In [] i r h = cc
nth-In (x ∷ rs) zero r h = inl (cc)
nth-In (x ∷ rs) (suc i) r h = inr (nth-In rs i r h)

nth-revisions_kept :
    (kept : List (Bytes × ℕ)) (i : ℕ) (m : Bytes) (r : ℕ)
    → nth kept i ≡ some (m, r)
    → nth (revisions_kept kept) i ≡ some r
unfolding nth revisions_kept
nth-revisions_kept [] i m r h = cc
nth-revisions_kept ((m', r') ∷ kept) zero m r h = cc
nth-revisions_kept ((m', r') ∷ kept) (suc i) m r h = nth-revisions_kept kept i m r h

revisions_kept-messages :
    (kept : List (Bytes × ℕ)) → revisions_kept kept ≡ revisions_of_messages kept
unfolding revisions_kept
revisions_kept-messages [] = refl
revisions_kept-messages ((m, r) ∷ kept) = ap (◌∷◌ r) (revisions_kept-messages kept)

-- A revision that is not in a sparse file.
position-missing :
    (f : LogFile) (revision : ℕ)
    → f.info.sparse ≡ true
    → ¬ In revision f.revisions
    → position f revision ≡ err Error.compacted
unfolding position
position-missing f revision sparse missing =
    elim (Option-cases (nth f.revisions (search revision f.revisions))) [
      | inl nothing ↦ rw (sparse, position) (rw nothing refl)
      | inr (r, there) ↦ elim (Bool-cases (nat_beq r revision)) [
        | inr other ↦ rw (sparse, position) (rw there (rw other refl))
        | inl same ↦ absurd (
            let e : r ≡ revision = ground (arith, same) in
            missing (rw e at (nth-In f.revisions (search revision f.revisions) r there)))
      ]
    ]

-- A revision that is in it.
position-nth :
    (f : LogFile) (least i revision : ℕ)
    → f.info.sparse ≡ true
    → IsIncreasing least f.revisions
    → nth f.revisions i ≡ some revision
    → position f revision ≡ ok i
unfolding position
position-nth f least i revision sparse grow there =
    let at = search-nth least f.revisions i revision grow there in
    let same : nat_beq revision revision ≡ true = ground arith in
    rw (sparse, position) (rw at (rw there (rw same (ap ok at))))

module _ (w : Wire) (hw : IsWire w) where
  write_live-frames :
      (size : ℕ) (kept : List (Bytes × ℕ))
      → write_live w size kept ≡ (frames w kept, spans_at w size kept)
  unfolding write_live frames spans_at
  write_live-frames size [] = refl
  write_live-frames size ((m, r) ∷ kept) =
      let at : size + length (frame w m) - length m ≡ size + length (w.append_varint (length m)) =
        omega (arith, length-frame w hw m) in
      rw (write_live-frames (size + length (frame w m)) kept, at) refl

module _ (p : Proto) (hp : IsProto p) where
  scan-frames :
      (kept : List (Bytes × ℕ))
      → AreMessages p.wire kept
      → scan p.wire (magic ++ frames p.wire kept)
        ≡ ok (record {
          spans = spans_at p.wire (length magic) kept;
          revisions = revisions_kept kept;
          complete = length (magic ++ frames p.wire kept);
        })
  unfolding scan
  scan-frames kept are =
      let body = frames p.wire kept in
      let whole : body ++ [] ≡ body = append-nil body in
      let scanned =
        scan_loop-frames p.wire hp.wire (length (magic ++ body)) (length magic) kept [] are
          (nothing-IsTorn p.wire hp.wire)
          (omega (arith, ap length whole, length-append magic body)) in
      rw (has_prefix-append magic body) (
        rw (drop-append magic body)
          (rw whole at scanned ∙ rw (revisions_kept-messages kept, length-append magic body) refl))

  -- Each span of a file of frames locates its message.
  span_bytes-nth :
      (before : Bytes) (kept : List (Bytes × ℕ)) (i : ℕ) (m : Bytes) (r : ℕ)
      → nth kept i ≡ some (m, r)
      → (span : Span) × (nth (spans_at p.wire (length before) kept) i ≡ some span)
        × (span_bytes span (before ++ frames p.wire kept) ≡ m)
  unfolding nth spans_at frames
  span_bytes-nth before [] i m r h = cc
  span_bytes-nth before ((m', r') ∷ kept) zero m r h =
      let e : m' ≡ m = cc in
      (
        record {
          offset = length before + length (p.wire.append_varint (length m'));
          length = length m';
        },
        refl,
        span_bytes-frame p hp before (frames p.wire kept) m' ∙ e,
      )
  span_bytes-nth before ((m', r') ∷ kept) (suc i) m r h =
      let (span, there, is) = span_bytes-nth (before ++ frame p.wire m') kept i m r h in
      let at : length before + length (frame p.wire m') ≡ length (before ++ frame p.wire m') =
        omega (arith, length-append before (frame p.wire m')) in
      (span, rw at there, rw append_assoc at is)

  module _ (live : Bytes → ℕ → Bool) (removed : Bytes → Bool) (now : ℕ) (info : FileInfo)
      (kept : List (Bytes × ℕ)) (sparse : info.sparse ≡ true) where
    -- The file as the codec sees it.
    abbrev written : LogFile
    written = (compacted_file p.wire live removed now info kept).0

    abbrev written_content : Bytes
    written_content = (compacted_file p.wire live removed now info kept).1

    written-frames :
        (written_content ≡ magic ++ frames p.wire kept)
        × (written.spans ≡ spans_at p.wire (length magic) kept)
        × (written.revisions ≡ revisions_kept kept)
        × (written.size ≡ length written_content)
        × (written.info ≡ info)
    unfolding compacted_file
    written-frames =
        let is = write_live-frames p.wire hp.wire (length magic) kept in
        (
          ap (λ (r : Bytes × List Span). magic ++ r.0) is,
          ap (λ (r : Bytes × List Span). r.1) is,
          refl,
          refl,
          refl,
        )

    -- Of the file that compactGroup writes for live records at growing revisions: position and the span that
    -- it finds give for each of these revisions the message that was written; for every other revision
    -- position returns ErrCompacted; and Scan, as a restart runs it, finds in the whole file the same
    -- spans and revisions as the file is indexed with.
    pub compacted_file-reads :
        IsIncreasing 0 (revisions_kept kept)
        → AreMessages p.wire kept
        → ((i : ℕ) (m : Bytes) (revision : ℕ)
            → nth kept i ≡ some (m, revision)
            → (position written revision ≡ ok i)
              × ((span : Span) × (nth written.spans i ≡ some span)
                  × (span_bytes span written_content ≡ m)))
          × ((revision : ℕ)
              → ¬ In revision (revisions_kept kept)
              → position written revision ≡ err Error.compacted)
          × (scan p.wire written_content
              ≡ ok (record {
                spans = written.spans;
                revisions = written.revisions;
                complete = written.size;
              }))
    compacted_file-reads grow are =
        let (content, spans, revisions, size, named) = written-frames in
        let is_sparse : written.info.sparse ≡ true =
          ap (λ (fi : FileInfo). fi.sparse) named ∙ sparse in
        (
          λ i m revision h. (
            position-nth written 0 i revision is_sparse (rw revisions grow)
                (rw revisions (nth-revisions_kept kept i m revision h)),
            rw (spans, content) (span_bytes-nth magic kept i m revision h),
          ),
          λ revision missing. position-missing written revision is_sparse (rw revisions missing),
          rw (size, spans, revisions, content) (scan-frames kept are),
        )
