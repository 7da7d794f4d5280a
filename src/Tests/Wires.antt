-- ===== src/Tests/Wires.antt =====
-- A wire format that meets the laws of protowire and proto: a number is written as so many ones and
-- a zero. It is there to run the codec of pkg/persistence/logcodec on.
use cloudetcd.Base.{
  ℕ, zero, suc, ◌+◌, ◌<◌, ◌≡◌, ◌≢◌, refl, Bytes, false, List, [], ◌∷◌, ◌++◌, arith, Option, none,
  some, length, length-append, take, drop, take-append, drop-append, ltb, if◌then◌else◌,
}
use mathlib.Core.List.{append_assoc}
use cloudetcd.Event.{Event, LogRecord}
use cloudetcd.Outcome.{Outcome, ok, err, fatal}
use cloudetcd.Codec.Protowire.{
  Consumed, consumed, unexpected_eof, malformed, Wire, Proto, IsWire, IsProto, message,
}
use cloudetcd.Codec.Alias.{decode_alias}
use cloudetcd.Codec.Alias.Fields.{decode_alias-message}

unfoldable pub unary : ℕ → Bytes
unary zero = 0 ∷ []
unary (suc n) = 1 ∷ unary n

abbrev pub one_more : Consumed ℕ → Consumed ℕ
one_more (consumed n k) = consumed (suc n) (suc k)
one_more unexpected_eof = unexpected_eof
one_more malformed = malformed

unfoldable pub consume_unary : Bytes → Consumed ℕ
consume_unary [] = unexpected_eof
consume_unary (zero ∷ m) = consumed 0 1
consume_unary (suc zero ∷ m) = one_more (consume_unary m)
consume_unary (suc (suc b) ∷ m) = malformed

abbrev pub tag_type : ℕ → ℕ → Consumed ℕ → Consumed (ℕ × ℕ)
tag_type number k (consumed type j) = consumed (number, type) (k + j)
tag_type number k unexpected_eof = unexpected_eof
tag_type number k malformed = malformed

abbrev pub tag_number : Bytes → Consumed ℕ → Consumed (ℕ × ℕ)
tag_number m (consumed number k) = tag_type number k (consume_unary (drop k m))
tag_number m unexpected_eof = unexpected_eof
tag_number m malformed = malformed

abbrev pub some_bytes : Bytes → Consumed ℕ → Consumed Bytes
some_bytes m (consumed n k) =
    if ltb (length (drop k m)) n then unexpected_eof else consumed (take n (drop k m)) (k + n)
some_bytes m unexpected_eof = unexpected_eof
some_bytes m malformed = malformed

abbrev pub skipped : {A : Type 0} → Consumed A → Consumed (Unit {0})
skipped (consumed a k) = consumed tt k
skipped unexpected_eof = unexpected_eof
skipped malformed = malformed

abbrev pub unary_wire : Wire
unary_wire = record {
  append_varint = unary;
  append_tag = λ number type. unary number ++ unary type;
  consume_varint = consume_unary;
  consume_tag = λ m. tag_number m (consume_unary m);
  consume_bytes = λ m. some_bytes m (consume_unary m);
  consume_field_value = λ number type m. skipped (some_bytes m (consume_unary m));
}

abbrev events_of : Outcome LogRecord → Option (List Event)
events_of (ok r) = some r.events
events_of (err e) = none
events_of fatal = none

abbrev pub unary_proto : Proto
unary_proto = record {
  wire = unary_wire;
  marshal = λ revision events. some (message unary_wire revision events);
  unmarshal = λ m. events_of (decode_alias unary_wire m);
}

consume_unary-unary :
    (n : ℕ) (rest : Bytes) → consume_unary (unary n ++ rest) ≡ consumed n (length (unary n))
unfolding consume_unary unary
consume_unary-unary zero rest = refl
consume_unary-unary (suc n) rest = rw (consume_unary-unary n rest)

unary_pos : (n : ℕ) → 0 < length (unary n)
unfolding unary
unary_pos zero = omega arith
unary_pos (suc n) = omega arith

unary_torn :
    (n : ℕ) (start rest : Bytes)
    → start ++ rest ≡ unary n
    → rest ≢ []
    → consume_unary start ≡ unexpected_eof
unfolding consume_unary unary
unary_torn n [] rest e ne = refl
unary_torn zero (b ∷ start) rest e ne = absurd (ne (nothing start (cc)))
  where
    nothing : (start : Bytes) → start ++ rest ≡ [] → rest ≡ []
    nothing [] e = e
    nothing (x ∷ start) e = cc
unary_torn (suc n) (b ∷ start) rest e ne =
    let head : b ≡ 1 = cc in
    let tails : start ++ rest ≡ unary n = cc in rw head (rw (unary_torn n start rest tails ne))

some_bytes-append :
    (m rest : Bytes)
    → some_bytes (unary (length m) ++ (m ++ rest)) (consume_unary (unary (length m) ++ (m ++ rest)))
      ≡ consumed m (length (unary (length m)) + length m)
some_bytes-append m rest =
    let enough : ltb (length (m ++ rest)) (length m) ≡ false =
      ground (arith, length-append m rest) in
    rw (consume_unary-unary (length m) (m ++ rest))
      (rw (drop-append (unary (length m)) (m ++ rest)) (rw enough (rw (take-append m rest))))

pub unary-IsWire : IsWire unary_wire
unary-IsWire = record {
  varint = λ n rest h. consume_unary-unary n rest;
  varint_pos = unary_pos;
  varint_torn = unary_torn;
  tag = λ number type rest pos small kind. tag_lem number type rest;
  tag_pos =
      λ number type. omega (arith, length-append (unary number) (unary type), unary_pos number);
  bytes = λ m rest h. some_bytes-append m rest;
  field_value = λ number m rest pos small h. rw (some_bytes-append m rest);
}
  where
    tag_lem :
        (number type : ℕ) (rest : Bytes)
        → tag_number
            ((unary number ++ unary type) ++ rest)
            (consume_unary ((unary number ++ unary type) ++ rest))
          ≡ consumed (number, type) (length (unary number ++ unary type))
    tag_lem number type rest =
        rw
          (append_assoc (unary number) (unary type) rest, length-append (unary number) (unary type))
          (rw (consume_unary-unary number (unary type ++ rest)) (
            rw (drop-append (unary number) (unary type ++ rest))
              (rw (consume_unary-unary type rest))))

pub unary-IsProto : IsProto unary_proto
unary-IsProto = record {
  wire = unary-IsWire;
  marshal = λ revision events h. refl;
  unmarshal =
      λ revision events h. rw (decode_alias-message unary_wire unary-IsWire revision events h);
}
