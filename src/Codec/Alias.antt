-- ===== src/Codec/Alias.antt =====
-- DecodeAlias of pkg/persistence/logcodec/logcodec.go: the parsers of a message, of an event and of
-- a KeyValue. Each is a loop over the fields; its switch gives the new value and the bytes taken.
pub mod Loop
pub mod Fields
use cloudetcd.Base.{
  ℕ, zero, suc, ◌%◌, ◌^◌, Bytes, Bool, true, false, ◌&&◌, ◌||◌, List, [], ◌∷◌, ◌++◌, Option, none,
  some, length, drop, leb, nat_beq, is_empty, if◌then◌else◌,
}
use cloudetcd.Event.{KeyValue, EventType, Event, LogRecord}
use cloudetcd.Outcome.{Error, Outcome, ok, err, fatal, ◌>>=◌, ◌>>◌}
use cloudetcd.Codec.{read}
use cloudetcd.Codec.Protowire.{Wire, varint_type, bytes_type}

module _ (w : Wire) {S : Type 0} (field : ℕ → ℕ → Bytes → S → Outcome (S × ℕ)) where
  -- `for len(m) > 0`: a tag, then the switch; fuel for the bytes left.
  unfoldable pub fields : ℕ → Bytes → S → Outcome S
  fields zero m s = if is_empty m then ok s else fatal
  fields (suc f) m s =
      if is_empty m
      then ok s
      else read (w.consume_tag m)
          (λ t n. do (s', k) ← field t.0 t.1 (drop n m) s; fields f (drop k (drop n m)) s')

set_number : ℕ → ℕ → KeyValue → KeyValue
set_number number v kv =
    if nat_beq number 2
    then record kv { create_revision = v }
    else if nat_beq number 3
    then record kv { mod_revision = v }
    else if nat_beq number 4
    then record kv { version = v }
    else if nat_beq number 6
    then record kv { lease = v }
    else kv

abbrev pub empty_kv : KeyValue
empty_kv = record {
  key = [];
  value = [];
  create_revision = 0;
  mod_revision = 0;
  version = 0;
  lease = 0;
}

-- Event_EventType is an int32: `other` has its pattern of 32 bits.
abbrev pub type_of : ℕ → EventType
type_of zero = EventType.put
type_of (suc zero) = EventType.delete
type_of (suc (suc n)) = EventType.other (suc (suc n))

-- A message without a kv leaves it nil; here it is the one without fields.
abbrev pub empty_event : Event
empty_event = record { kind = EventType.put; kv = empty_kv; prev_kv = none }

module _ (w : Wire) where
  -- The default case: the field is skipped.
  skip : {S : Type 0} → ℕ → ℕ → Bytes → S → Outcome (S × ℕ)
  skip number type m s = read (w.consume_field_value number type m) (λ u k. ok (s, k))

  unfoldable pub kv_field : ℕ → ℕ → Bytes → KeyValue → Outcome (KeyValue × ℕ)
  unfolding skip set_number
  kv_field number type m kv =
      if (nat_beq number 1 || nat_beq number 5) && nat_beq type bytes_type
      then read (w.consume_bytes m) (λ v k.
        ok (if nat_beq number 1 then record kv { key = v } else record kv { value = v }, k))
      else if nat_beq type varint_type && (leb 2 number && leb number 6)
      then read (w.consume_varint m) (λ v k. ok (set_number number v kv, k))
      else skip number type m kv

  unfoldable pub decode_kv_alias : Bytes → Outcome KeyValue
  decode_kv_alias m = fields w kv_field (length m) m empty_kv

  unfoldable pub event_field : ℕ → ℕ → Bytes → Event → Outcome (Event × ℕ)
  unfolding skip
  event_field number type m ev =
      if nat_beq number 1 && nat_beq type varint_type
      then read (w.consume_varint m) (λ v k. ok (record ev { kind = type_of (v % 2 ^ 32) }, k))
      else if (nat_beq number 2 || nat_beq number 3) && nat_beq type bytes_type
      then read (w.consume_bytes m) (λ v k. do
        kv ← decode_kv_alias v
        ok (if nat_beq number 2 then record ev { kv = kv } else record ev { prev_kv = some kv }, k))
      else skip number type m ev

  unfoldable pub decode_event_alias : Bytes → Outcome Event
  decode_event_alias m = fields w event_field (length m) m empty_event

  unfoldable pub record_field : ℕ → ℕ → Bytes → List Event → Outcome (List Event × ℕ)
  unfolding skip
  record_field number type m events =
      if nat_beq number 11 && nat_beq type bytes_type
      then read (w.consume_bytes m) (λ v k. do ev ← decode_event_alias v; ok (events ++ ev ∷ [], k))
      else skip number type m events

  unfoldable pub decode_alias : Bytes → Outcome LogRecord
  decode_alias m = do
    events ← fields w record_field (length m) m []
    ok (record { events = events })
