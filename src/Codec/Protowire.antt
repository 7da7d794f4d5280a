-- ===== src/Codec/Protowire.antt =====
-- What pkg/persistence/logcodec uses of google.golang.org/protobuf: protowire, the functions on the
-- parts of a message, and Marshal and Unmarshal of etcdserverpb.WatchResponse. The laws are the
-- documented encoding of protocol buffers, for numbers of 64 bits.
use cloudetcd.Base.{
  ℕ, zero, suc, ◌+◌, ◌^◌, ◌<◌, ◌≡◌, ◌≢◌, Bytes, List, [], ◌∷◌, ◌++◌, Option, none, some, length,
  All,
}
use cloudetcd.Event.{KeyValue, EventType, Event}

-- What a Consume function returns: a value and the number of bytes that it took, or an error code.
pub data Consumed (A : Type 0) : Type 0 where
  consumed : A → ℕ → Consumed A
  unexpected_eof : Consumed A
  malformed : Consumed A

-- A tag is a field number with a wire type.
abbrev pub varint_type : ℕ
varint_type = 0

abbrev pub bytes_type : ℕ
bytes_type = 2

pub record Wire : Type 0 where
  pub append_varint : ℕ → Bytes
  pub append_tag : ℕ → ℕ → Bytes
  pub consume_varint : Bytes → Consumed ℕ
  pub consume_tag : Bytes → Consumed (ℕ × ℕ)
  pub consume_bytes : Bytes → Consumed Bytes
  pub consume_field_value : ℕ → ℕ → Bytes → Consumed (Unit {0})

-- With Marshal and Unmarshal of a WatchResponse.
pub record Proto : Type 0 where
  pub wire : Wire
  pub marshal : ℕ → List Event → Option Bytes
  pub unmarshal : Bytes → Option (List Event)

abbrev pub IsWord : ℕ → Type 0
IsWord n = n < 2 ^ 64

-- The laws of the functions on parts: each reads back what was appended, whatever follows it.
pub record IsWire (w : Wire) : Type 0 where
  pub varint :
      (n : ℕ) (rest : Bytes)
      → IsWord n
      → w.consume_varint (w.append_varint n ++ rest) ≡ consumed n (length (w.append_varint n))
  pub varint_pos : (n : ℕ) → 0 < length (w.append_varint n)
  pub varint_torn :
      (n : ℕ) (start rest : Bytes)
      → start ++ rest ≡ w.append_varint n
      → rest ≢ []
      → w.consume_varint start ≡ unexpected_eof
  pub tag :
      (number type : ℕ) (rest : Bytes)
      → 0 < number
      → number < 2 ^ 29
      → type < 8
      → w.consume_tag (w.append_tag number type ++ rest)
        ≡ consumed (number, type) (length (w.append_tag number type))
  pub tag_pos : (number type : ℕ) → 0 < length (w.append_tag number type)
  pub bytes :
      (m rest : Bytes)
      → IsWord (length m)
      → w.consume_bytes (w.append_varint (length m) ++ (m ++ rest))
        ≡ consumed m (length (w.append_varint (length m)) + length m)
  pub field_value :
      (number : ℕ) (m rest : Bytes)
      → 0 < number
      → number < 2 ^ 29
      → IsWord (length m)
      → w.consume_field_value number bytes_type (w.append_varint (length m) ++ (m ++ rest))
        ≡ consumed tt (length (w.append_varint (length m)) + length m)

-- The documented encoding of the messages: the fields in the order of their numbers, a number or a
-- byte string left out where it is zero or empty.
module _ (w : Wire) where
  unfoldable pub bytes_field : ℕ → Bytes → Bytes
  bytes_field number m = w.append_tag number bytes_type ++ (w.append_varint (length m) ++ m)

  unfoldable pub data_field : ℕ → Bytes → Bytes
  data_field number [] = []
  data_field number (b ∷ m) = bytes_field number (b ∷ m)

  unfoldable pub number_field : ℕ → ℕ → Bytes
  number_field number zero = []
  number_field number (suc n) = w.append_tag number varint_type ++ w.append_varint (suc n)

  unfoldable pub kv_message : KeyValue → Bytes
  kv_message kv =
      data_field 1 kv.key
      ++ (number_field 2 kv.create_revision
          ++ (number_field 3 kv.mod_revision
              ++ (number_field 4 kv.version ++ (data_field 5 kv.value ++ number_field 6 kv.lease))))

  unfoldable pub prev_field : Option KeyValue → Bytes
  prev_field none = []
  prev_field (some kv) = bytes_field 3 (kv_message kv)

abbrev pub type_number : EventType → ℕ
type_number EventType.put = 0
type_number EventType.delete = 1
type_number (EventType.other n) = n

module _ (w : Wire) where
  unfoldable pub event_message : Event → Bytes
  event_message e =
      number_field w 1 (type_number e.kind)
      ++ (bytes_field w 2 (kv_message w e.kv) ++ prev_field w e.prev_kv)

  unfoldable pub events_message : List Event → Bytes
  events_message [] = []
  events_message (e ∷ events) = bytes_field w 11 (event_message e) ++ events_message events

  unfoldable pub message : ℕ → List Event → Bytes
  message revision events = bytes_field w 1 (number_field w 3 revision) ++ events_message events

-- Numbers and lengths that fit: what a message of less than 2^64 bytes holds.
abbrev pub IsKeyValue : Wire → KeyValue → Type 0
IsKeyValue w kv =
    IsWord (length kv.key)
    × IsWord (length kv.value)
    × IsWord kv.create_revision
    × IsWord kv.mod_revision
    × IsWord kv.version
    × IsWord kv.lease
    × IsWord (length (kv_message w kv))

-- `other` stands for the positive int32 numbers that are not named.
abbrev pub IsNamed : EventType → Type 0
IsNamed EventType.put = Unit
IsNamed EventType.delete = Unit
IsNamed (EventType.other n) = (1 < n) × (n < 2 ^ 31)

abbrev pub IsPrev : Wire → Option KeyValue → Type 0
IsPrev w none = Unit
IsPrev w (some kv) = IsKeyValue w kv

abbrev pub IsEvent : Wire → Event → Type 0
IsEvent w e =
    IsNamed e.kind × IsKeyValue w e.kv × IsPrev w e.prev_kv × IsWord (length (event_message w e))

-- A record that can be written at a revision.
abbrev pub IsWritable : Wire → ℕ → List Event → Type 0
IsWritable w revision events =
    (0 < revision)
    × IsWord revision
    × IsWord (length (number_field w 3 revision))
    × All (IsEvent w) events
    × IsWord (length (message w revision events))

-- Marshal gives that encoding, and Unmarshal reads it back.
pub record IsProto (p : Proto) : Type 0 where
  pub wire : IsWire p.wire
  pub marshal :
      (revision : ℕ) (events : List Event)
      → IsWritable p.wire revision events
      → p.marshal revision events ≡ some (message p.wire revision events)
  pub unmarshal :
      (revision : ℕ) (events : List Event)
      → IsWritable p.wire revision events
      → p.unmarshal (message p.wire revision events) ≡ some events
