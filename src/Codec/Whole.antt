-- ===== src/Codec/Whole.antt =====
-- Decode, DecodeRecord and Offsets of pkg/persistence/logcodec/logcodec.go over what Encode writes.
use cloudetcd.Base.{
  ℕ, zero, suc, ◌≤◌, ◌<◌, ◌≡◌, ◌≢◌, refl, Bytes, false, List, [], ◌∷◌, ◌++◌, arith, Option, none,
  some, length, length-append, drop, drop-append, has_prefix-append, nat_beq, is_empty,
}
use cloudetcd.Event.{LogRecord}
use cloudetcd.Outcome.{Error, Outcome, ok, err}
use cloudetcd.Codec.Protowire.{Proto, IsProto, IsWord, consumed, message}
use cloudetcd.Codec.{
  magic, record_of, frame, encode, offsets, decode_message, decode_record_loop, decode_record,
  decode_loop, decode,
}
use cloudetcd.Codec.Frames.{frames, IsTorn, length_pos, length-frame, frame-append}
use cloudetcd.Codec.RoundTrip.{messages_from, AreWritable, append_records-messages, scan-encode}

-- The record of a place.
abbrev pub record_at : List LogRecord → ℕ → Option LogRecord
record_at [] i = none
record_at (r ∷ records) zero = some r
record_at (r ∷ records) (suc i) = record_at records i

abbrev pub found_or_missing : Option LogRecord → Outcome LogRecord
found_or_missing none = err Error.not_in_batch
found_or_missing (some r) = ok r

module _ (p : Proto) (hp : IsProto p) where
  -- One record at the front of the bytes left.
  consume_bytes-frame :
      (m rest : Bytes)
      → IsWord (length m)
      → (is_empty (frame p.wire m ++ rest) ≡ false)
        × (p.wire.consume_bytes (frame p.wire m ++ rest) ≡ consumed m (length (frame p.wire m)))
        × (drop (length (frame p.wire m)) (frame p.wire m ++ rest) ≡ rest)
  consume_bytes-frame m rest fits =
      let hw = hp.wire in
      let size = length-frame p.wire hw m in
      (
        length_pos (frame p.wire m ++ rest)
            (omega (arith, length-append (frame p.wire m) rest, hw.varint_pos (length m))),
        rw (frame-append p.wire hw m rest, size) (hw.bytes m rest fits),
        drop-append (frame p.wire m) rest,
      )

  decode_message-message :
      (first : ℕ) (r : LogRecord) (records : List LogRecord)
      → AreWritable p.wire first (r ∷ records)
      → decode_message p (message p.wire first r.events) ≡ ok r
  unfolding decode_message record_of
  decode_message-message first r records h = rw (hp.unmarshal first r.events h.0)

  no_room : (m rest : Bytes) → length (frame p.wire m ++ rest) ≤ 0 → ⊥
  no_room m rest h = omega (
    arith,
    length-append (frame p.wire m) rest,
    length-frame p.wire hp.wire m,
    hp.wire.varint_pos (length m),
  )

  room_behind : (f : ℕ) (m rest : Bytes) → length (frame p.wire m ++ rest) ≤ suc f → length rest ≤ f
  room_behind f m rest h = omega (
    arith,
    length-append (frame p.wire m) rest,
    length-frame p.wire hp.wire m,
    hp.wire.varint_pos (length m),
  )

  decode_loop-frames :
      (f first : ℕ) (records : List LogRecord)
      → AreWritable p.wire first records
      → length (frames p.wire (messages_from p.wire first records)) ≤ f
      → decode_loop p f (frames p.wire (messages_from p.wire first records)) ≡ ok records
  unfolding decode_loop messages_from frames
  decode_loop-frames zero first [] h room = refl
  decode_loop-frames (suc f) first [] h room = refl
  decode_loop-frames zero first (r ∷ records) h room = absurd (no_room _ _ room)
  decode_loop-frames (suc f) first (r ∷ records) h room =
      let m = message p.wire first r.events in
      let rest = frames p.wire (messages_from p.wire (suc first) records) in
      let (some_bytes, consume, behind) = consume_bytes-frame m rest h.0.4 in
      let ih = decode_loop-frames f (suc first) records h.1 (room_behind f m rest room) in
      rw (some_bytes, decode_loop)
        (rw consume (rw (decode_message-message first r records h) (rw behind (rw ih))))

  decode_record_loop-frames :
      (f first : ℕ) (records : List LogRecord) (i : ℕ)
      → AreWritable p.wire first records
      → length (frames p.wire (messages_from p.wire first records)) ≤ f
      → decode_record_loop p f (frames p.wire (messages_from p.wire first records)) i
        ≡ found_or_missing (record_at records i)
  unfolding decode_record_loop messages_from frames
  decode_record_loop-frames zero first [] i h room = refl
  decode_record_loop-frames (suc f) first [] i h room = refl
  decode_record_loop-frames zero first (r ∷ records) i h room = absurd (no_room _ _ room)
  decode_record_loop-frames (suc f) first (r ∷ records) zero h room =
      let m = message p.wire first r.events in
      let rest = frames p.wire (messages_from p.wire (suc first) records) in
      let (some_bytes, consume, behind) = consume_bytes-frame m rest h.0.4 in
      rw (some_bytes, decode_record_loop) (rw consume (decode_message-message first r records h))
  decode_record_loop-frames (suc f) first (r ∷ records) (suc i) h room =
      let m = message p.wire first r.events in
      let rest = frames p.wire (messages_from p.wire (suc first) records) in
      let (some_bytes, consume, behind) = consume_bytes-frame m rest h.0.4 in
      let ih = decode_record_loop-frames f (suc first) records i h.1 (room_behind f m rest room) in
      rw (some_bytes, decode_record_loop) (rw consume (rw behind ih))

  -- Encode always gives a file, and Decode reads from it all the records, DecodeRecord the record of
  -- each place, and an error behind the last.
  pub decode-encode :
      (first : ℕ) (records : List LogRecord)
      → AreWritable p.wire first records
      → (file : Bytes) × (encode p first records ≡ ok file)
        × (decode p file ≡ ok records)
        × ((i : ℕ) → decode_record p file i ≡ found_or_missing (record_at records i))
  unfolding encode decode decode_record
  decode-encode first records h =
      let body = frames p.wire (messages_from p.wire first records) in
      let room : length body ≤ length (magic ++ body) = omega (arith, length-append magic body) in
      (
        magic ++ body,
        rw (append_records-messages p hp magic first records h),
        rw (has_prefix-append magic body) (
            rw (drop-append magic body)
              (decode_loop-frames (length (magic ++ body)) first records h room)),
        λ i. rw (has_prefix-append magic body) (
            rw (drop-append magic body)
              (decode_record_loop-frames (length (magic ++ body)) first records i h room)),
      )

  -- Offsets refuses a file that ends in a record that was cut short.
  pub offsets-IsTorn :
      (first : ℕ) (records : List LogRecord) (tail file : Bytes)
      → AreWritable p.wire first records
      → IsTorn p.wire tail
      → tail ≢ []
      → encode p first records ≡ ok file
      → offsets p.wire (file ++ tail) ≡ err Error.truncated
  unfolding offsets
  offsets-IsTorn first records tail file h torn some_tail e =
      let (file', spans, e', scanned, _) = scan-encode p hp first records tail h torn in
      let same : file' ≡ file = cc in
      let cut : nat_beq (length file) (length (file ++ tail)) ≡ false =
        ground (arith, length-append file tail, tail_pos tail some_tail) in
      let scanned' = rw same at scanned in rw scanned' (rw cut)
    where
      tail_pos : (t : Bytes) → t ≢ [] → 0 < length t
      tail_pos [] ne = absurd (ne refl)
      tail_pos (x ∷ t) ne = omega arith
