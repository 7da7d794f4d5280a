-- ===== src/Codec/Alias/Fields.antt =====
-- DecodeAlias of pkg/persistence/logcodec/logcodec.go reads the documented encoding of each message.
use cloudetcd.Base.{
  ℕ, zero, suc, ◌<◌, ◌^◌, ◌%◌, ◌≡◌, refl, Bytes, List, [], ◌∷◌, ◌++◌, Option, none, some, arith,
  length, length-append, All,
}
use mathlib.Core.List.{append_assoc, append-nil}
use cloudetcd.Event.{KeyValue, EventType, Event}
use cloudetcd.Outcome.{ok}
use cloudetcd.Codec.Protowire.{
  Wire, IsWire, IsWord, consumed, varint_type, bytes_type, bytes_field, data_field, number_field,
  kv_message, prev_field, type_number, event_message, events_message, message, IsKeyValue, IsNamed,
  IsPrev, IsEvent, IsWritable,
}
use cloudetcd.Codec.Alias.{
  kv_field, empty_kv, decode_kv_alias, type_of, event_field, empty_event, decode_event_alias,
  record_field, decode_alias,
}
use cloudetcd.Codec.Alias.Loop.{Reads, Reads-nil, Reads-append, Reads-field, fields-Reads}

module _ (w : Wire) (hw : IsWire w) where
  abbrev ReadsKv : Bytes → KeyValue → KeyValue → Type 0
  ReadsKv = Reads w (kv_field w)

  -- The value of a field of bytes, and what follows it.
  consume_bytes-append :
      (m rest : Bytes)
      → IsWord (length m)
      → w.consume_bytes ((w.append_varint (length m) ++ m) ++ rest)
        ≡ consumed m (length (w.append_varint (length m) ++ m))
  consume_bytes-append m rest fits =
      rw
        (
          append_assoc (w.append_varint (length m)) m rest,
          length-append (w.append_varint (length m)) m,
        )
        (hw.bytes m rest fits)

  Reads-key :
      (key : Bytes) (kv : KeyValue)
      → IsWord (length key)
      → ReadsKv (data_field w 1 key) (record kv { key = [] }) (record kv { key = key })
  unfolding data_field bytes_field kv_field
  Reads-key [] kv fits = Reads-nil w (kv_field w) (record kv { key = [] })
  Reads-key (b ∷ key) kv fits =
      Reads-field w (kv_field w) 1 bytes_type (w.append_varint (length (b ∷ key)) ++ (b ∷ key))
        (record kv { key = [] }) (record kv { key = b ∷ key }) hw (omega arith) (omega arith)
        (omega arith) (λ rest. rw (consume_bytes-append (b ∷ key) rest fits))

  Reads-value :
      (value : Bytes) (kv : KeyValue)
      → IsWord (length value)
      → ReadsKv (data_field w 5 value) (record kv { value = [] }) (record kv { value = value })
  unfolding data_field bytes_field kv_field
  Reads-value [] kv fits = Reads-nil w (kv_field w) (record kv { value = [] })
  Reads-value (b ∷ value) kv fits =
      Reads-field w (kv_field w) 5 bytes_type (w.append_varint (length (b ∷ value)) ++ (b ∷ value))
        (record kv { value = [] }) (record kv { value = b ∷ value }) hw (omega arith) (omega arith)
        (omega arith) (λ rest. rw (consume_bytes-append (b ∷ value) rest fits))

  -- A number is left out where it is zero, as it stands in the state then.
  Reads-number :
      (number n : ℕ) (at : ℕ → KeyValue)
      → IsWord n
      → 0 < number
      → number < 2 ^ 29
      → ((v k : ℕ) (m : Bytes)
          → w.consume_varint m ≡ consumed v k
          → kv_field w number varint_type m (at 0) ≡ ok (at v, k))
      → ReadsKv (number_field w number n) (at 0) (at n)
  unfolding number_field
  Reads-number number zero at fits pos small switch = Reads-nil w (kv_field w) (at 0)
  Reads-number number (suc n) at fits pos small switch =
      Reads-field w (kv_field w) number varint_type (w.append_varint (suc n)) (at 0) (at (suc n)) hw
        pos small (omega arith)
        (λ rest.
          switch (suc n) (length (w.append_varint (suc n))) (w.append_varint (suc n) ++ rest)
            (hw.varint (suc n) rest fits))

  Reads-kv : (kv : KeyValue) → IsKeyValue w kv → ReadsKv (kv_message w kv) empty_kv kv
  unfolding kv_message kv_field
  Reads-kv kv h =
      let s1 : KeyValue = record empty_kv { key = kv.key } in
      let s2 : KeyValue = record s1 { create_revision = kv.create_revision } in
      let s3 : KeyValue = record s2 { mod_revision = kv.mod_revision } in
      let s4 : KeyValue = record s3 { version = kv.version } in
      let s5 : KeyValue = record s4 { value = kv.value } in
      let f1 = data_field w 1 kv.key in
      let f2 = number_field w 2 kv.create_revision in
      let f3 = number_field w 3 kv.mod_revision in
      let f4 = number_field w 4 kv.version in
      let f5 = data_field w 5 kv.value in
      let f6 = number_field w 6 kv.lease in
      let r2 : ReadsKv f2 s1 s2 =
        Reads-number 2 kv.create_revision (λ n. record s1 { create_revision = n }) h.2 (omega arith)
          (omega arith) (λ v k m e. rw e) in
      let r3 : ReadsKv f3 s2 s3 =
        Reads-number 3 kv.mod_revision (λ n. record s2 { mod_revision = n }) h.3 (omega arith)
          (omega arith) (λ v k m e. rw e) in
      let r4 : ReadsKv f4 s3 s4 =
        Reads-number 4 kv.version (λ n. record s3 { version = n }) h.4 (omega arith) (omega arith)
          (λ v k m e. rw e) in
      let r6 : ReadsKv f6 s5 kv =
        Reads-number 6 kv.lease (λ n. record s5 { lease = n }) h.5 (omega arith) (omega arith)
          (λ v k m e. rw e) in
      let join = Reads-append w (kv_field w) in
      join f1 (f2 ++ (f3 ++ (f4 ++ (f5 ++ f6)))) empty_kv s1 kv (Reads-key kv.key empty_kv h.0) (
        join f2 (f3 ++ (f4 ++ (f5 ++ f6))) s1 s2 kv r2 (
          join f3 (f4 ++ (f5 ++ f6)) s2 s3 kv r3 (
            join f4 (f5 ++ f6) s3 s4 kv r4 (join f5 f6 s4 s5 kv (Reads-value kv.value s4 h.1) r6))))

  decode_kv_alias-message :
      (kv : KeyValue) → IsKeyValue w kv → decode_kv_alias w (kv_message w kv) ≡ ok kv
  unfolding decode_kv_alias
  decode_kv_alias-message kv h =
      fields-Reads w (kv_field w) (kv_message w kv) empty_kv kv (Reads-kv kv h)

  type_of-type_number : (kind : EventType) → IsNamed kind → type_of (type_number kind) ≡ kind
  type_of-type_number EventType.put h = refl
  type_of-type_number EventType.delete h = refl
  type_of-type_number (EventType.other zero) h = absurd (omega arith)
  type_of-type_number (EventType.other (suc zero)) h = absurd (omega arith)
  type_of-type_number (EventType.other (suc (suc n))) h = refl

  type_number-bound : (kind : EventType) → IsNamed kind → type_number kind < 2 ^ 31
  type_number-bound EventType.put h = omega arith
  type_number-bound EventType.delete h = omega arith
  type_number-bound (EventType.other n) h = h.1

  abbrev ReadsEvent : Bytes → Event → Event → Type 0
  ReadsEvent = Reads w (event_field w)

  Reads-type :
      (n : ℕ) (ev : Event)
      → n < 2 ^ 31
      → ReadsEvent
          (number_field w 1 n)
          (record ev { kind = EventType.put })
          (record ev { kind = type_of n })
  unfolding number_field event_field
  Reads-type zero ev fits = Reads-nil w (event_field w) (record ev { kind = EventType.put })
  Reads-type (suc n) ev fits =
      Reads-field w (event_field w) 1 varint_type (w.append_varint (suc n))
        (record ev { kind = EventType.put }) (record ev { kind = type_of (suc n) }) hw (omega arith)
        (omega arith) (omega arith)
        (λ rest.
          let same : suc n % 2 ^ 32 ≡ suc n = omega (arith, fits) in
          let word : IsWord (suc n) = omega (arith, fits) in
          rw (hw.varint (suc n) rest word) (rw same))

  Reads-event_kv :
      (kv : KeyValue) (ev : Event)
      → IsKeyValue w kv
      → ReadsEvent (bytes_field w 2 (kv_message w kv)) ev (record ev { kv = kv })
  unfolding bytes_field event_field
  Reads-event_kv kv ev h =
      let m = kv_message w kv in
      Reads-field w (event_field w) 2 bytes_type (w.append_varint (length m) ++ m) ev
        (record ev { kv = kv }) hw (omega arith) (omega arith) (omega arith)
        (λ rest. rw (consume_bytes-append m rest h.6) (rw (decode_kv_alias-message kv h)))

  Reads-prev :
      (prev : Option KeyValue) (ev : Event)
      → IsPrev w prev
      → ReadsEvent (prev_field w prev) (record ev { prev_kv = none }) (record ev { prev_kv = prev })
  unfolding prev_field bytes_field event_field
  Reads-prev none ev h = Reads-nil w (event_field w) (record ev { prev_kv = none })
  Reads-prev (some kv) ev h =
      let m = kv_message w kv in
      Reads-field w (event_field w) 3 bytes_type (w.append_varint (length m) ++ m)
        (record ev { prev_kv = none }) (record ev { prev_kv = some kv }) hw (omega arith)
        (omega arith) (omega arith)
        (λ rest. rw (consume_bytes-append m rest h.6) (rw (decode_kv_alias-message kv h)))

  decode_event_alias-message :
      (e : Event) → IsEvent w e → decode_event_alias w (event_message w e) ≡ ok e
  unfolding decode_event_alias event_message
  decode_event_alias-message e h =
      let s1 : Event = record empty_event { kind = e.kind } in
      let s2 : Event = record s1 { kv = e.kv } in
      let f1 = number_field w 1 (type_number e.kind) in
      let f2 = bytes_field w 2 (kv_message w e.kv) in
      let f3 = prev_field w e.prev_kv in
      let typed : ReadsEvent f1 empty_event s1 =
        rw (type_of-type_number e.kind h.0) at
          (Reads-type (type_number e.kind) empty_event (type_number-bound e.kind h.0)) in
      let join = Reads-append w (event_field w) in
      fields-Reads w (event_field w) (f1 ++ (f2 ++ f3)) empty_event e (
        join f1 (f2 ++ f3) empty_event s1 e typed
          (join f2 f3 s1 s2 e (Reads-event_kv e.kv s1 h.1) (Reads-prev e.prev_kv s2 h.2)))

  abbrev ReadsRecord : Bytes → List Event → List Event → Type 0
  ReadsRecord = Reads w (record_field w)

  Reads-events :
      (events seen : List Event)
      → All (IsEvent w) events
      → ReadsRecord (events_message w events) seen (seen ++ events)
  unfolding events_message bytes_field record_field
  Reads-events [] seen h = rw append-nil (Reads-nil w (record_field w) seen)
  Reads-events (e ∷ events) seen h =
      let m = event_message w e in
      let value = w.append_varint (length m) ++ m in
      let first : ReadsRecord (w.append_tag 11 bytes_type ++ value) seen (seen ++ e ∷ []) =
        Reads-field w (record_field w) 11 bytes_type value seen (seen ++ e ∷ []) hw (omega arith)
          (omega arith) (omega arith)
          (λ rest.
            rw (consume_bytes-append m rest h.0.3) (rw (decode_event_alias-message e h.0))) in
      let later : ReadsRecord (events_message w events) (seen ++ e ∷ []) (seen ++ (e ∷ events)) =
        rw append_assoc at (Reads-events events (seen ++ e ∷ []) h.1) in
      Reads-append w (record_field w) (w.append_tag 11 bytes_type ++ value)
        (events_message w events) seen (seen ++ e ∷ []) (seen ++ (e ∷ events)) first later

  Reads-header :
      (h : Bytes) (events : List Event)
      → IsWord (length h)
      → ReadsRecord (bytes_field w 1 h) events events
  unfolding bytes_field record_field
  Reads-header h events fits =
      let size = w.append_varint (length h) in
      Reads-field w (record_field w) 1 bytes_type (size ++ h) events events hw (omega arith)
        (omega arith) (omega arith)
        (λ rest.
          rw (append_assoc size h rest, length-append size h)
            (rw (hw.field_value 1 h rest (omega arith) (omega arith) fits)))

  -- DecodeAlias, which parses the fields itself, reads back from the documented encoding of a record
  -- exactly its events: each type, each KeyValue with all its fields, and each previous value.
  pub decode_alias-message :
      (revision : ℕ) (events : List Event)
      → IsWritable w revision events
      → decode_alias w (message w revision events) ≡ ok (record { events = events })
  unfolding decode_alias message
  decode_alias-message revision events h =
      let header = bytes_field w 1 (number_field w 3 revision) in
      let read_all = fields-Reads w (record_field w) (header ++ events_message w events) [] events (
        Reads-append w (record_field w) header (events_message w events) [] [] events
          (Reads-header (number_field w 3 revision) [] h.2) (Reads-events events [] h.3)) in
      rw read_all
