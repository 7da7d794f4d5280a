-- ===== src/Codec/RoundTrip.antt =====
-- What Encode of pkg/persistence/logcodec/logcodec.go writes, Scan and Decode read back.
use cloudetcd.Base.{
  ℕ, zero, suc, ◌+◌, ◌-◌, ◌≤◌, ◌<◌, ◌≡◌, refl, sym, ap, ◌∙◌, Bytes, true, false, List, [], ◌∷◌,
  ◌++◌, arith, length, length-append, take-append, drop-append, has_prefix-append, nat_beq,
  is_empty,
}
use mathlib.Core.List.{append_assoc, append-nil}
use cloudetcd.Event.{Event, LogRecord}
use cloudetcd.Outcome.{ok}
use cloudetcd.Codec.Protowire.{
  Wire, Proto, IsWire, IsProto, IsWord, IsWritable, consumed, varint_type, bytes_type, number_field,
  bytes_field, message, events_message,
}
use cloudetcd.Codec.{
  magic, Span, span_bytes, revisions_from, record_of, frame, append_loop, append_records_at,
  append_records, encode, header_revision, message_revision, revision_of, scan, decode_message,
}
use cloudetcd.Codec.Frames.{
  frames, spans_at, AreMessages, IsTorn, revisions_of_messages, scan_loop-frames, length_pos,
}

module _ (w : Wire) where
  -- The messages of records at consecutive revisions.
  unfoldable pub messages_from : ℕ → List LogRecord → List (Bytes × ℕ)
  messages_from first [] = []
  messages_from first (r ∷ records) =
      (message w first r.events, first) ∷ messages_from (suc first) records

  abbrev pub AreWritable : ℕ → List LogRecord → Type 0
  AreWritable first [] = Unit
  AreWritable first (r ∷ records) = IsWritable w first r.events × AreWritable (suc first) records

module _ (w : Wire) where
  pub messages_from-revisions :
      (first : ℕ) (records : List LogRecord)
      → revisions_of_messages (messages_from w first records)
        ≡ revisions_from first (length records)
  unfolding messages_from revisions_from
  messages_from-revisions first [] = refl
  messages_from-revisions first (r ∷ records) =
      ap (◌∷◌ first) (messages_from-revisions (suc first) records)

module _ (p : Proto) where
  -- Each span locates the record of its place.
  abbrev pub AreAt : Bytes → List Span → List LogRecord → Type 0
  AreAt file [] [] = Unit
  AreAt file [] (r ∷ records) = ⊥
  AreAt file (s ∷ spans) [] = ⊥
  AreAt file (s ∷ spans) (r ∷ records) =
      (decode_message p (span_bytes s file) ≡ ok r) × AreAt file spans records

module _ (w : Wire) (hw : IsWire w) where
  header_revision-number_field :
      (f r : ℕ) → 0 < r → IsWord r → header_revision w (suc f) (number_field w 3 r) ≡ ok r
  unfolding header_revision number_field
  header_revision-number_field f zero h fits = absurd (omega arith)
  header_revision-number_field f (suc r) h fits =
      let tag = w.append_tag 3 varint_type in
      let value = w.append_varint (suc r) in
      let something : is_empty (tag ++ value) ≡ false =
        length_pos (tag ++ value)
          (omega (arith, length-append tag value, hw.tag_pos 3 varint_type)) in
      let whole : w.consume_varint value ≡ consumed (suc r) (length value) =
        rw append-nil at (hw.varint (suc r) [] fits) in
      rw (something, header_revision)
        (rw (hw.tag 3 varint_type value (omega arith) (omega arith) (omega arith))
          (rw (drop-append tag value) (rw whole)))

  length-number_field : (r : ℕ) → 0 < r → 0 < length (number_field w 3 r)
  unfolding number_field
  length-number_field zero h = absurd (omega arith)
  length-number_field (suc r) h = omega (
    arith,
    length-append (w.append_tag 3 varint_type) (w.append_varint (suc r)),
    hw.tag_pos 3 varint_type,
  )

  message_revision-message :
      (f r : ℕ) (rest : Bytes)
      → 0 < r
      → IsWord r
      → IsWord (length (number_field w 3 r))
      → message_revision w (suc f) (bytes_field w 1 (number_field w 3 r) ++ rest) ≡ ok r
  unfolding message_revision bytes_field
  message_revision-message f r rest pos fits short =
      let h = number_field w 3 r in
      let tag = w.append_tag 1 bytes_type in
      let size = w.append_varint (length h) in
      let split : (tag ++ (size ++ h)) ++ rest ≡ tag ++ (size ++ (h ++ rest)) =
        append_assoc tag (size ++ h) rest ∙ ap (◌++◌ tag) (append_assoc size h rest) in
      let behind = size ++ (h ++ rest) in
      let something : is_empty (tag ++ behind) ≡ false =
        length_pos (tag ++ behind)
          (omega (arith, length-append tag behind, hw.tag_pos 1 bytes_type)) in
      let some_header = length-number_field r pos in
      let fuel : length h ≡ suc (length h - 1) = omega arith in
      let inner : header_revision w (length h) h ≡ ok r =
        rw fuel (header_revision-number_field (length h - 1) r pos fits) in
      rw split (
        rw (something, message_revision)
          (rw (hw.tag 1 bytes_type behind (omega arith) (omega arith) (omega arith))
            (rw (drop-append tag behind) (rw (hw.bytes h rest short) (rw inner)))))

  -- Revision reads the revision of every record that was written.
  pub revision_of-message :
      (r : ℕ) (events : List Event)
      → IsWritable w r events
      → revision_of w (message w r events) ≡ ok r
  unfolding revision_of message
  revision_of-message r events ok_record =
      let header = bytes_field w 1 (number_field w 3 r) in
      let m = header ++ events_message w events in
      let some_bytes : 0 < length m =
        unfold bytes_field in
        omega (
          arith,
          length-append header (events_message w events),
          length-append (w.append_tag 1 bytes_type)
              (w.append_varint (length (number_field w 3 r)) ++ number_field w 3 r),
          hw.tag_pos 1 bytes_type,
        ) in
      let fuel : length m ≡ suc (length m - 1) = omega arith in
      rw fuel (
        message_revision-message (length m - 1) r (events_message w events) ok_record.0 ok_record.1
          ok_record.2)

  pub messages_from-AreMessages :
      (first : ℕ) (records : List LogRecord)
      → AreWritable w first records
      → AreMessages w (messages_from w first records)
  unfolding messages_from
  messages_from-AreMessages first [] h = tt
  messages_from-AreMessages first (r ∷ records) h = (
    (h.0.4, revision_of-message first r.events h.0),
    messages_from-AreMessages (suc first) records h.1,
  )

module _ (p : Proto) (hp : IsProto p) where
  -- AppendRecords appends the frames of the messages, and gives the span of each.
  pub append_loop-messages :
      (buf : Bytes) (first : ℕ) (records : List LogRecord)
      → AreWritable p.wire first records
      → append_loop p buf (revisions_from first (length records)) records
        ≡ ok (
          buf ++ frames p.wire (messages_from p.wire first records),
          spans_at p.wire (length buf) (messages_from p.wire first records),
        )
  unfolding append_loop messages_from frames spans_at revisions_from
  append_loop-messages buf first [] h = rw append-nil
  append_loop-messages buf first (r ∷ records) h =
      let m = message p.wire first r.events in
      let ih = append_loop-messages (buf ++ frame p.wire m) (suc first) records h.1 in
      let marshalled = hp.marshal first r.events h.0 in
      let at_frame : length (buf ++ frame p.wire m) ≡ length buf + length (frame p.wire m) =
        length-append buf (frame p.wire m) in
      let at_message : length (buf ++ p.wire.append_varint (length m))
          ≡ length buf + length (p.wire.append_varint (length m)) =
        length-append buf (p.wire.append_varint (length m)) in
      rw (marshalled, append_loop)
        (rw ih (
          rw (
            at_message,
            at_frame,
            append_assoc buf (frame p.wire m)
                (frames p.wire (messages_from p.wire (suc first) records)),
          )))

  length-revisions_from : (first n : ℕ) → length (revisions_from first n) ≡ n
  unfolding revisions_from
  length-revisions_from first zero = refl
  length-revisions_from first (suc n) = ap suc (length-revisions_from (suc first) n)

  pub append_records-messages :
      (buf : Bytes) (first : ℕ) (records : List LogRecord)
      → AreWritable p.wire first records
      → append_records p buf first records
        ≡ ok (
          buf ++ frames p.wire (messages_from p.wire first records),
          spans_at p.wire (length buf) (messages_from p.wire first records),
        )
  unfolding append_records append_records_at
  append_records-messages buf first records h =
      let same : nat_beq (length (revisions_from first (length records))) (length records) ≡ true =
        ground (arith, length-revisions_from first (length records)) in
      rw same (append_loop-messages buf first records h)

  -- The message of a span, wherever its frame stands in a file.
  pub span_bytes-frame :
      (before rest m : Bytes)
      → span_bytes
          (record {
            offset = length before + length (p.wire.append_varint (length m));
            length = length m;
          })
          (before ++ (frame p.wire m ++ rest))
        ≡ m
  unfolding span_bytes frame
  span_bytes-frame before rest m =
      let a = p.wire.append_varint (length m) in
      let split : before ++ ((a ++ m) ++ rest) ≡ (before ++ a) ++ (m ++ rest) =
        ap (◌++◌ before) (append_assoc a m rest) ∙ sym (append_assoc before a (m ++ rest)) in
      let at : length before + length a ≡ length (before ++ a) = sym (length-append before a) in
      rw (split, at) (rw (drop-append (before ++ a) (m ++ rest)) (take-append m rest))

  pub spans_at-AreAt :
      (before : Bytes) (first : ℕ) (records : List LogRecord) (tail : Bytes)
      → AreWritable p.wire first records
      → AreAt p
          (before ++ (frames p.wire (messages_from p.wire first records) ++ tail))
          (spans_at p.wire (length before) (messages_from p.wire first records))
          records
  unfolding messages_from frames spans_at
  spans_at-AreAt before first [] tail h = tt
  spans_at-AreAt before first (r ∷ records) tail h =
      let m = message p.wire first r.events in
      let later = frames p.wire (messages_from p.wire (suc first) records) in
      let split : before ++ ((frame p.wire m ++ later) ++ tail)
          ≡ (before ++ frame p.wire m) ++ (later ++ tail) =
        ap (◌++◌ before) (append_assoc (frame p.wire m) later tail)
        ∙ sym (append_assoc before (frame p.wire m) (later ++ tail)) in
      let here = span_bytes-frame before (later ++ tail) m in
      let at : length before + length (frame p.wire m) ≡ length (before ++ frame p.wire m) =
        sym (length-append before (frame p.wire m)) in
      let behind : AreAt p (before ++ ((frame p.wire m ++ later) ++ tail))
          (spans_at p.wire (length before + length (frame p.wire m))
            (messages_from p.wire (suc first) records))
          records =
        rw split (rw at (spans_at-AreAt (before ++ frame p.wire m) (suc first) records tail h.1)) in
      (
        rw (append_assoc (frame p.wire m) later tail)
            (rw here (unfold decode_message record_of in rw (hp.unmarshal first r.events h.0))),
        behind,
      )

  -- Encode writes the header and the records, and Scan finds in that file, also where a record whose
  -- write was cut short follows it, exactly these records: their consecutive revisions, a span for
  -- each that locates the record, and as the length of the valid content that of the file written.
  pub scan-encode :
      (first : ℕ) (records : List LogRecord) (tail : Bytes)
      → AreWritable p.wire first records
      → IsTorn p.wire tail
      → (file : Bytes) × (spans : List Span) × (encode p first records ≡ ok file)
        × (scan p.wire (file ++ tail)
            ≡ ok (record {
              spans = spans;
              revisions = revisions_from first (length records);
              complete = length file;
            }))
        × AreAt p (file ++ tail) spans records
  unfolding encode scan
  scan-encode first records tail h torn =
      let ms = messages_from p.wire first records in
      let body = frames p.wire ms in
      let hw = hp.wire in
      let joined : (magic ++ body) ++ tail ≡ magic ++ (body ++ tail) =
        append_assoc magic body tail in
      let room : length (body ++ tail) ≤ length (magic ++ (body ++ tail)) =
        omega (arith, length-append magic (body ++ tail)) in
      let scanned =
        scan_loop-frames p.wire hw (length (magic ++ (body ++ tail))) (length magic) ms tail
          (messages_from-AreMessages p.wire hw first records h) torn room in
      (
        magic ++ body,
        spans_at p.wire (length magic) ms,
        rw (append_records-messages magic first records h),
        rw joined (
            rw (has_prefix-append magic (body ++ tail)) (
              rw (drop-append magic (body ++ tail)) (
                scanned
                ∙ rw (messages_from-revisions p.wire first records, length-append magic body)))),
        rw joined (spans_at-AreAt magic first records tail h),
      )
