-- ===== src/Codec/Alias/Loop.antt =====
-- The loop over the fields of a message, field by field.
use cloudetcd.Base.{
  ℕ, zero, suc, ◌≤◌, ◌<◌, ◌^◌, ◌≡◌, refl, ap, ◌∙◌, Bytes, false, [], ◌++◌, arith, length,
  length-append, drop-append, is_empty,
}
use mathlib.Core.List.{append_assoc, append-nil}
use cloudetcd.Outcome.{Outcome, ok}
use cloudetcd.Codec.Protowire.{Wire, IsWire}
use cloudetcd.Codec.Frames.{length_pos}
use cloudetcd.Codec.Alias.{fields}

module _ (w : Wire) {S : Type 0} (field : ℕ → ℕ → Bytes → S → Outcome (S × ℕ)) where
  -- Over the bytes `a` the loop goes from `s` to `s'`, whatever follows them, with fuel left for that.
  pub Reads : Bytes → S → S → Type 0
  Reads a s s' =
      (rest : Bytes) (f : ℕ)
      → length (a ++ rest) ≤ f
      → (g : ℕ) × (length rest ≤ g) × (fields w field f (a ++ rest) s ≡ fields w field g rest s')

  pub Reads-nil : (s : S) → Reads [] s s
  unfolding Reads
  Reads-nil s rest f h = (f, h, refl)

  pub Reads-append : (a b : Bytes) (s t u : S) → Reads a s t → Reads b t u → Reads (a ++ b) s u
  unfolding Reads
  Reads-append a b s t u first second rest f h =
      let split = append_assoc a b rest in
      let (g, room, same) = first (b ++ rest) f (omega (arith, ap length split)) in
      let (k, room', same') = second rest g room in (k, room', rw split (same ∙ same'))

  -- One field: its tag, and a value that the switch takes as a whole.
  pub Reads-field :
      (number type : ℕ) (value : Bytes) (s s' : S)
      → IsWire w
      → 0 < number
      → number < 2 ^ 29
      → type < 8
      → ((rest : Bytes) → field number type (value ++ rest) s ≡ ok (s', length value))
      → Reads (w.append_tag number type ++ value) s s'
  unfolding Reads
  Reads-field number type value s s' hw pos small kind switch rest zero h =
      let tag = w.append_tag number type in
      absurd (
        omega (
          arith,
          length-append (tag ++ value) rest,
          length-append tag value,
          hw.tag_pos number type,
        ))
  Reads-field number type value s s' hw pos small kind switch rest (suc f) h =
      let tag = w.append_tag number type in
      let split : (tag ++ value) ++ rest ≡ tag ++ (value ++ rest) = append_assoc tag value rest in
      let size = length-append tag (value ++ rest) in
      let size' = length-append value rest in
      let progress = hw.tag_pos number type in
      let something : is_empty (tag ++ (value ++ rest)) ≡ false =
        length_pos (tag ++ (value ++ rest)) (omega arith) in
      (
        f,
        omega (arith, ap length split),
        rw split (
            unfold fields in
            rw (something, fields)
              (rw (hw.tag number type (value ++ rest) pos small kind) (
                rw (drop-append tag (value ++ rest))
                  (rw (switch rest) (rw (drop-append value rest)))))),
      )

  fields-end : (f : ℕ) (s : S) → fields w field f [] s ≡ ok s
  unfolding fields
  fields-end zero s = refl
  fields-end (suc f) s = refl

  -- A message that is read as a whole.
  pub fields-Reads : (a : Bytes) (s s' : S) → Reads a s s' → fields w field (length a) a s ≡ ok s'
  unfolding Reads
  fields-Reads a s s' reads =
      let whole : a ++ [] ≡ a = append-nil a in
      let (g, room, same) = reads [] (length a) (omega (arith, ap length whole)) in
      rw whole at same ∙ fields-end g s'
