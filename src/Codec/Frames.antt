-- ===== src/Codec/Frames.antt =====
-- Scan of pkg/persistence/logcodec/logcodec.go over whole records and a record that was cut short.
use cloudetcd.Base.{
  ℕ, zero, suc, ◌+◌, ◌-◌, ◌≤◌, ◌<◌, ◌≡◌, ◌≢◌, refl, sym, ap, ◌∙◌, Bytes, true, false, List, [], ◌∷◌,
  ◌++◌, arith, length, length-append, take-append, drop-append, ltb, is_empty, All, ◌⊎◌, inl, inr,
  Bool-cases,
}
use mathlib.Core.List.{append_assoc}
use cloudetcd.Outcome.{ok, ◌>>=◌}
use cloudetcd.Codec.Protowire.{Wire, IsWire, IsWord}
use cloudetcd.Codec.{Span, frame, revision_of, scan_loop}

-- Two ways to cut one list: the first piece ends within the other's first, or at or behind its end.
append_cases :
    (t rest a m : Bytes)
    → t ++ rest ≡ a ++ m
    → ((a' : Bytes) × (a ≡ t ++ a') × (a' ≢ [])) ⊎ ((p : Bytes) × (t ≡ a ++ p) × (p ++ rest ≡ m))
append_cases [] rest [] m e = inr ([], refl, e)
append_cases [] rest (x ∷ a) m e = inl (x ∷ a, refl, λ p. cc)
append_cases (y ∷ t) rest [] m e = inr (y ∷ t, refl, e)
append_cases (y ∷ t) rest (x ∷ a) m e =
    let head : y ≡ x = cc in
    let tails : t ++ rest ≡ a ++ m = cc in
    elim (append_cases t rest a m tails) [
      | inl (a', is, ne) ↦ inl (a', cc, ne)
      | inr (p, is, joined) ↦ inr (p, cc, joined)
    ]

nonempty_pos : (rest : Bytes) → rest ≢ [] → 0 < length rest
nonempty_pos [] ne = absurd (ne refl)
nonempty_pos (x ∷ rest) ne = omega arith

empty_length : (rest : Bytes) → length rest ≤ 0 → is_empty rest ≡ true
empty_length [] h = refl
empty_length (x ∷ rest) h = absurd (omega arith)

pub length_pos : (rest : Bytes) → 0 < length rest → is_empty rest ≡ false
length_pos [] h = absurd (omega arith)
length_pos (x ∷ rest) h = refl

module _ (w : Wire) where
  -- The messages of a file in order, each with its revision.
  unfoldable pub frames : List (Bytes × ℕ) → Bytes
  frames [] = []
  frames ((m, r) ∷ ms) = frame w m ++ frames ms

  unfoldable pub spans_at : ℕ → List (Bytes × ℕ) → List Span
  spans_at pos [] = []
  spans_at pos ((m, r) ∷ ms) =
      record { offset = pos + length (w.append_varint (length m)); length = length m }
      ∷ spans_at (pos + length (frame w m)) ms

  abbrev pub AreMessages : List (Bytes × ℕ) → Type 0
  AreMessages = All (λ e. IsWord (length e.0) × (revision_of w e.0 ≡ ok e.1))

  -- The beginning of a record whose write was cut short; it may be empty.
  pub record IsTorn (tail : Bytes) : Type 0 where
    pub message : Bytes
    pub missing : Bytes
    pub fits : IsWord (length message)
    pub cut : tail ++ missing ≡ frame w message
    pub short : missing ≢ []

abbrev pub revisions_of_messages : List (Bytes × ℕ) → List ℕ
revisions_of_messages [] = []
revisions_of_messages ((m, r) ∷ ms) = r ∷ revisions_of_messages ms

module _ (w : Wire) (hw : IsWire w) where
  scan_loop-IsTorn :
      (f pos : ℕ) (tail : Bytes)
      → IsTorn w tail
      → length tail ≤ f
      → scan_loop w f pos tail ≡ ok (record { spans = []; revisions = []; complete = pos })
  unfolding scan_loop frame
  scan_loop-IsTorn zero pos tail t h = rw (empty_length tail h, scan_loop)
  scan_loop-IsTorn (suc f) pos tail t h = elim (Bool-cases (is_empty tail)) [
    | inl nothing ↦ rw (nothing, scan_loop)
    | inr something ↦
        elim (append_cases tail t.missing (w.append_varint (length t.message)) t.message t.cut) [
          | inl (a', is, ne) ↦
              rw (something, scan_loop) (rw (hw.varint_torn (length t.message) tail a' (sym is) ne))
          | inr (p, is, joined) ↦
              let a = w.append_varint (length t.message) in
              let read = rw (← is) at (hw.varint (length t.message) p t.fits) in
              let more = nonempty_pos t.missing t.short in
              let sizes : length p + length t.missing ≡ length t.message =
                sym (length-append p t.missing) ∙ ap length joined in
              let size : length tail ≡ length a + length p = ap length is ∙ length-append a p in
              let few : ltb (length tail - length a) (length t.message) ≡ true =
                ground (arith, more, sizes, size) in
              rw (something, scan_loop) (rw read (rw few))
        ]
  ]

  -- One round of the loop at a whole record.
  scan_loop-frame :
      (f pos : ℕ) (m rest : Bytes) (r : ℕ)
      → IsWord (length m)
      → revision_of w m ≡ ok r
      → scan_loop w (suc f) pos (w.append_varint (length m) ++ (m ++ rest)) ≡ (
          scan_loop w f (pos + length (w.append_varint (length m)) + length m) rest >>= λ s.
          ok (record {
            spans =
                record { offset = pos + length (w.append_varint (length m)); length = length m }
                ∷ s.spans;
            revisions = r ∷ s.revisions;
            complete = s.complete;
          }))
  unfolding scan_loop
  scan_loop-frame f pos m rest r fits is =
      let a = w.append_varint (length m) in
      let pos_a = hw.varint_pos (length m) in
      let whole = length-append a (m ++ rest) in
      let some_bytes : is_empty (a ++ (m ++ rest)) ≡ false =
        length_pos (a ++ (m ++ rest)) (omega arith) in
      let enough : ltb (length (a ++ (m ++ rest)) - length a) (length m) ≡ false =
        ground (arith, whole, length-append m rest) in
      rw (some_bytes, scan_loop)
        (rw (hw.varint (length m) (m ++ rest) fits)
          (rw enough (rw (drop-append a (m ++ rest), take-append m rest, drop-append m rest, is))))

  pub frame-append :
      (m rest : Bytes) → frame w m ++ rest ≡ w.append_varint (length m) ++ (m ++ rest)
  unfolding frame
  frame-append m rest = append_assoc (w.append_varint (length m)) m rest

  pub length-frame :
      (m : Bytes) → length (frame w m) ≡ length (w.append_varint (length m)) + length m
  unfolding frame
  length-frame m = length-append (w.append_varint (length m)) m

  pub scan_loop-frames :
      (f pos : ℕ) (ms : List (Bytes × ℕ)) (tail : Bytes)
      → AreMessages w ms
      → IsTorn w tail
      → length (frames w ms ++ tail) ≤ f
      → scan_loop w f pos (frames w ms ++ tail)
        ≡ ok (record {
          spans = spans_at w pos ms;
          revisions = revisions_of_messages ms;
          complete = pos + length (frames w ms);
        })
  unfolding frames spans_at
  scan_loop-frames f pos [] tail are torn h =
      let same : pos + length (frames w []) ≡ pos = omega arith in
      rw same (scan_loop-IsTorn f pos tail torn h)
  scan_loop-frames zero pos ((m, r) ∷ ms) tail are torn h = absurd (
      omega (
        arith,
        length-append (frame w m ++ frames w ms) tail,
        length-append (frame w m) (frames w ms),
        length-frame m,
        hw.varint_pos (length m),
      ))
  scan_loop-frames (suc f) pos ((m, r) ∷ ms) tail are torn h =
      let a = w.append_varint (length m) in
      let split : (frame w m ++ frames w ms) ++ tail ≡ a ++ (m ++ (frames w ms ++ tail)) =
        append_assoc (frame w m) (frames w ms) tail ∙ frame-append m (frames w ms ++ tail) in
      let size = ap length split in
      let sizes = length-append a (m ++ (frames w ms ++ tail)) in
      let sizes' = length-append m (frames w ms ++ tail) in
      let progress = hw.varint_pos (length m) in
      let room : length (frames w ms ++ tail) ≤ f = omega arith in
      let ih = scan_loop-frames f (pos + length a + length m) ms tail are.1 torn room in
      let next : pos + length (frame w m) ≡ pos + length a + length m =
        omega (arith, length-frame m) in
      let total : pos + length a + length m + length (frames w ms)
          ≡ pos + length (frame w m ++ frames w ms) =
        omega (arith, length-append (frame w m) (frames w ms), length-frame m) in
      rw split
        (scan_loop-frame f pos m (frames w ms ++ tail) r are.0.0 are.0.1 ∙ rw ih (rw (total, next)))
