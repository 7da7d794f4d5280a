-- ===== src/Codec.antt =====
-- pkg/persistence/logcodec/logcodec.go: a log file is a header and one length-delimited message for
-- each record. The functions of protowire and proto are the parameters `w` and `p`; a message is a list of
-- bytes, and data[pos:] is the list that is left.
pub mod Protowire
pub mod Frames
pub mod RoundTrip
pub mod Whole
pub mod Alias
use cloudetcd.Base.{
  ℕ, zero, suc, ◌+◌, ◌-◌, Bytes, Bool, true, false, ◌&&◌, ◌||◌, List, [], ◌∷◌, ◌++◌, Option, none,
  some, length, take, drop, ltb, leb, nat_beq, is_empty, has_prefix, if◌then◌else◌,
}
use cloudetcd.Event.{KeyValue, EventType, Event, LogRecord}
use cloudetcd.Outcome.{Error, Outcome, ok, err, fatal, ◌>>=◌, ◌>>◌}
use cloudetcd.Codec.Protowire.{
  Wire, Proto, Consumed, consumed, unexpected_eof, malformed, varint_type, bytes_type,
}

-- "cloudetcd-log\x00\x01".
abbrev pub magic : Bytes
magic =
    b'c' ∷ b'l' ∷ b'o' ∷ b'u' ∷ b'd' ∷ b'e' ∷ b't' ∷ b'c' ∷ b'd' ∷ b'-' ∷ b'l' ∷ b'o' ∷ b'g' ∷ 0 ∷ 1
    ∷ []

-- Where the message of a record lies in its file.
pub record Span : Type 0 where
  pub offset : ℕ
  pub length : ℕ

unfoldable pub span_bytes : Span → Bytes → Bytes
span_bytes s file = take s.length (drop s.offset file)

-- A value that a Consume function read, or the error for its code.
abbrev pub read : {A B : Type 0} → Consumed A → (A → ℕ → Outcome B) → Outcome B
read (consumed a n) next = next a n
read unexpected_eof next = err Error.bad_record
read malformed next = err Error.bad_record

-- The revisions first, first + 1, … of AppendRecords.
unfoldable pub revisions_from : ℕ → ℕ → List ℕ
revisions_from first zero = []
revisions_from first (suc n) = first ∷ revisions_from (suc first) n

unfoldable pub record_of : Option (List Event) → Outcome LogRecord
record_of none = err Error.bad_record
record_of (some events) = ok (record { events = events })

module _ (w : Wire) where
  -- WriteRecord, and the loop body of AppendRecordsAt: the prefix and the message.
  unfoldable pub frame : Bytes → Bytes
  frame m = w.append_varint (length m) ++ m

  -- The inner loop of Revision, over the fields of the header; fuel for the bytes left.
  unfoldable pub header_revision : ℕ → Bytes → Outcome ℕ
  header_revision zero h = err Error.bad_record
  header_revision (suc f) h =
      if is_empty h
      then err Error.bad_record
      else read (w.consume_tag h) (λ t n.
        if nat_beq t.0 3 && nat_beq t.1 varint_type
        then read (w.consume_varint (drop n h)) (λ v k. ok v)
        else read (w.consume_field_value t.0 t.1 (drop n h))
            (λ u k. header_revision f (drop k (drop n h))))

  -- The outer loop of Revision, over the fields of the message.
  unfoldable pub message_revision : ℕ → Bytes → Outcome ℕ
  message_revision zero m = err Error.bad_record
  message_revision (suc f) m =
      if is_empty m
      then err Error.bad_record
      else read (w.consume_tag m) (λ t n.
        if nat_beq t.0 1 && nat_beq t.1 bytes_type
        then read (w.consume_bytes (drop n m)) (λ h k. header_revision (length h) h)
        else read (w.consume_field_value t.0 t.1 (drop n m))
            (λ u k. message_revision f (drop k (drop n m))))

  unfoldable pub revision_of : Bytes → Outcome ℕ
  revision_of m = message_revision (length m) m

-- What Scan returns: the spans and revisions of the complete records, and the bytes that they take.
pub record Scanned : Type 0 where
  pub spans : List Span
  pub revisions : List ℕ
  pub complete : ℕ

module _ (w : Wire) where
  -- The loop of Scan at `pos`, over the bytes left; fuel for their number.
  unfoldable pub scan_loop : ℕ → ℕ → Bytes → Outcome Scanned
  scan_loop zero pos rest =
      if is_empty rest then ok (record { spans = []; revisions = []; complete = pos }) else fatal
  scan_loop (suc f) pos rest =
      if is_empty rest
      then ok (record { spans = []; revisions = []; complete = pos })
      else elim (w.consume_varint rest) [
        | unexpected_eof ↦ ok (record { spans = []; revisions = []; complete = pos })
        | malformed ↦ err Error.bad_record
        | consumed n k ↦
            if ltb (length rest - k) n
            then ok (record { spans = []; revisions = []; complete = pos })
            else (do
              revision ← revision_of w (take n (drop k rest))
              s ← scan_loop f (pos + k + n) (drop n (drop k rest))
              ok (record {
                spans = record { offset = pos + k; length = n } ∷ s.spans;
                revisions = revision ∷ s.revisions;
                complete = s.complete;
              }))
      ]

  unfoldable pub scan : Bytes → Outcome Scanned
  scan file =
      if has_prefix file magic
      then scan_loop (length file) (length magic) (drop (length magic) file)
      else err Error.bad_header

  unfoldable pub offsets : Bytes → Outcome (List Span × List ℕ)
  offsets file = do
    s ← scan file
    if nat_beq s.complete (length file) then ok (s.spans, s.revisions) else err Error.truncated

module _ (p : Proto) where
  -- The loop of AppendRecordsAt.
  unfoldable pub append_loop : Bytes → List ℕ → List LogRecord → Outcome (Bytes × List Span)
  append_loop buf [] records = ok (buf, [])
  append_loop buf (revision ∷ revisions) [] = ok (buf, [])
  append_loop buf (revision ∷ revisions) (r ∷ records) = elim (p.marshal revision r.events) [
    | none ↦ err Error.bad_record
    | some m ↦ do
      (buf', spans) ← append_loop (buf ++ frame p.wire m) revisions records
      ok (
        buf',
        record { offset = length (buf ++ p.wire.append_varint (length m)); length = length m }
            ∷ spans,
      )
  ]

  unfoldable pub append_records_at : Bytes → List ℕ → List LogRecord → Outcome (Bytes × List Span)
  append_records_at buf revisions records =
      if nat_beq (length revisions) (length records)
      then append_loop buf revisions records
      else err Error.mismatched

  unfoldable pub append_records : Bytes → ℕ → List LogRecord → Outcome (Bytes × List Span)
  append_records buf first records =
      append_records_at buf (revisions_from first (length records)) records

  unfoldable pub encode : ℕ → List LogRecord → Outcome Bytes
  encode first records = do (buf, _) ← append_records magic first records; ok buf

  -- EncodedRecord.Decode.
  unfoldable pub decode_message : Bytes → Outcome LogRecord
  decode_message m = record_of (p.unmarshal m)

  -- The loop of DecodeRecord; `i` counts down to the record asked for.
  unfoldable pub decode_record_loop : ℕ → Bytes → ℕ → Outcome LogRecord
  decode_record_loop zero rest i = err Error.not_in_batch
  decode_record_loop (suc f) rest i =
      if is_empty rest
      then err Error.not_in_batch
      else read (p.wire.consume_bytes rest) (λ m k. elim i [
        | zero ↦ decode_message m
        | suc i' ↦ decode_record_loop f (drop k rest) i'
      ])

  unfoldable pub decode_record : Bytes → ℕ → Outcome LogRecord
  decode_record file i =
      if has_prefix file magic
      then decode_record_loop (length file) (drop (length magic) file) i
      else err Error.bad_header

  unfoldable pub decode_loop : ℕ → Bytes → Outcome (List LogRecord)
  decode_loop zero rest = if is_empty rest then ok [] else fatal
  decode_loop (suc f) rest =
      if is_empty rest
      then ok []
      else read (p.wire.consume_bytes rest)
          (λ m k. do r ← decode_message m; records ← decode_loop f (drop k rest); ok (r ∷ records))

  unfoldable pub decode : Bytes → Outcome (List LogRecord)
  decode file =
      if has_prefix file magic
      then decode_loop (length file) (drop (length magic) file)
      else err Error.bad_header
