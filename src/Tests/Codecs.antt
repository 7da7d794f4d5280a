-- ===== src/Tests/Codecs.antt =====
-- Runs of the record format of pkg/persistence/logcodec, over the wire format of Tests/Wires.
use cloudetcd.Base.{ℕ, ◌≡◌, refl, Bytes, List, [], ◌∷◌, ◌++◌, arith, none, some, length}
use cloudetcd.Event.{EventType, Event, LogRecord}
use cloudetcd.Outcome.{ok}
use cloudetcd.Codec.Protowire.{
  IsWritable, message, number_field, bytes_field, data_field, kv_message, event_message,
  events_message, prev_field,
}
use cloudetcd.Codec.{Span, frame, encode, scan, decode, decode_record, revisions_from}
use cloudetcd.Codec.Frames.{IsTorn}
use cloudetcd.Codec.RoundTrip.{AreWritable, AreAt, scan-encode}
use cloudetcd.Codec.Whole.{found_or_missing, record_at, decode-encode}
use cloudetcd.Codec.Alias.{decode_alias}
use cloudetcd.Codec.Alias.Fields.{decode_alias-message}
use cloudetcd.Tests.Wires.{unary, unary_wire, unary_proto, unary-IsWire, unary-IsProto}

abbrev pub put_a : Event
put_a = record {
  kind = EventType.put;
  kv = record {
    key = b'a' ∷ [];
    value = b'v' ∷ [];
    create_revision = 2;
    mod_revision = 2;
    version = 1;
    lease = 0;
  };
  prev_kv = none;
}

abbrev pub delete_a : Event
delete_a = record {
  kind = EventType.delete;
  kv = record {
    key = b'a' ∷ [];
    value = [];
    create_revision = 0;
    mod_revision = 3;
    version = 0;
    lease = 0;
  };
  prev_kv = some put_a.kv;
}

abbrev pub two_records : List LogRecord
two_records = record { events = put_a ∷ [] } ∷ record { events = delete_a ∷ [] } ∷ []

pub put_a-IsWritable : IsWritable unary_wire 2 (put_a ∷ [])
unfolding message number_field bytes_field data_field kv_message event_message events_message
    prev_field unary
put_a-IsWritable = (
  omega arith,
  omega arith,
  omega arith,
  (
    (
      tt,
      (omega arith, omega arith, omega arith, omega arith, omega arith, omega arith, omega arith),
      tt,
      omega arith,
    ),
    tt,
  ),
  omega arith,
)

pub delete_a-IsWritable : IsWritable unary_wire 3 (delete_a ∷ [])
unfolding message number_field bytes_field data_field kv_message event_message events_message
    prev_field unary
delete_a-IsWritable = (
  omega arith,
  omega arith,
  omega arith,
  (
    (
      tt,
      (omega arith, omega arith, omega arith, omega arith, omega arith, omega arith, omega arith),
      (omega arith, omega arith, omega arith, omega arith, omega arith, omega arith, omega arith),
      omega arith,
    ),
    tt,
  ),
  omega arith,
)

pub two_records-AreWritable : AreWritable unary_wire 2 two_records
two_records-AreWritable = (put_a-IsWritable, (delete_a-IsWritable, tt))

-- A record of two bytes of which one was written.
pub one_byte-IsTorn : IsTorn unary_wire (1 ∷ 1 ∷ 0 ∷ 7 ∷ [])
unfolding frame unary
one_byte-IsTorn = record {
  message = 7 ∷ 8 ∷ [];
  missing = 8 ∷ [];
  fits = omega arith;
  cut = refl;
  short = λ p. cc;
}

abbrev torn_tail : Bytes
torn_tail = 1 ∷ 1 ∷ 0 ∷ 7 ∷ []

scan-encode_example :
    (file : Bytes) × (spans : List Span) × (encode unary_proto 2 two_records ≡ ok file)
    × (scan unary_wire (file ++ torn_tail)
        ≡ ok (record { spans = spans; revisions = revisions_from 2 2; complete = length file }))
    × AreAt unary_proto (file ++ torn_tail) spans two_records
scan-encode_example =
    scan-encode unary_proto unary-IsProto 2 two_records torn_tail two_records-AreWritable
      one_byte-IsTorn

decode-encode_example :
    (file : Bytes) × (encode unary_proto 2 two_records ≡ ok file)
    × (decode unary_proto file ≡ ok two_records)
    × ((i : ℕ) → decode_record unary_proto file i ≡ found_or_missing (record_at two_records i))
decode-encode_example =
    decode-encode unary_proto unary-IsProto 2 two_records two_records-AreWritable

decode_alias-message_example :
    decode_alias unary_wire (message unary_wire 3 (delete_a ∷ []))
    ≡ ok (record { events = delete_a ∷ [] })
decode_alias-message_example =
    decode_alias-message unary_wire unary-IsWire 3 (delete_a ∷ []) delete_a-IsWritable
