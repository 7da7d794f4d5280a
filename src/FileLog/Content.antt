-- ===== src/FileLog/Content.antt =====
-- The content of a dense file of pkg/persistence/filesystemlog/filesystem_log.go, whole or cut short at any byte.
use cloudetcd.Base.{
  ℕ, zero, suc, ◌+◌, ◌-◌, ◌^◌, ◌≤◌, ◌<◌, ◌≡◌, refl, sym, ap, ◌∙◌, Bytes, true, List, [], ◌∷◌, ◌++◌,
  arith, length, length-append, take, drop, take-nil, take-append_within, take-append_behind,
  take-drop, length-drop, leb, inl, inr, Bool-cases, not_leb→lt, leb→le, has_prefix-append,
  drop-append, bytes_eq,
}
use mathlib.Core.List.{append_assoc}
use cloudetcd.Event.{LogRecord}
use cloudetcd.Outcome.{ok}
use cloudetcd.Codec.Protowire.{Wire, IsWire, message}
use cloudetcd.Codec.{magic, scan, frame, revisions_from}
use cloudetcd.Codec.Frames.{frames, spans_at, AreMessages, IsTorn, scan_loop-frames}
use cloudetcd.Codec.RoundTrip.{
  messages_from, messages_from-AreMessages, messages_from-revisions, AreWritable,
}
use cloudetcd.FileLog.Open.{are_consecutive}

module _ (w : Wire) where
  -- The content of a dense file of records.
  abbrev pub content_of : ℕ → List LogRecord → Bytes
  content_of first records = magic ++ frames w (messages_from w first records)

  pub frames-append : (xs ys : List (Bytes × ℕ)) → frames w (xs ++ ys) ≡ frames w xs ++ frames w ys
  unfolding frames
  frames-append [] ys = refl
  frames-append ((m, r) ∷ xs) ys =
      ap (◌++◌ (frame w m)) (frames-append xs ys)
      ∙ sym (append_assoc (frame w m) (frames w xs) (frames w ys))

  pub messages_from-append :
      (first : ℕ) (rs bs : List LogRecord)
      → messages_from w first (rs ++ bs)
        ≡ messages_from w first rs ++ messages_from w (first + length rs) bs
  unfolding messages_from
  messages_from-append first [] bs = let same : first + 0 ≡ first = omega arith in rw same refl
  messages_from-append first (r ∷ rs) bs =
      let next : first + suc (length rs) ≡ suc first + length rs = omega arith in
      rw next (ap (◌∷◌ (message w first r.events, first)) (messages_from-append (suc first) rs bs))

  pub messages_from-take :
      (n first : ℕ) (bs : List LogRecord)
      → take n (messages_from w first bs) ≡ messages_from w first (take n bs)
  unfolding messages_from
  messages_from-take zero first bs = refl
  messages_from-take (suc n) first [] = refl
  messages_from-take (suc n) first (b ∷ bs) =
      ap (◌∷◌ (message w first b.events, first)) (messages_from-take n (suc first) bs)

  pub length-messages_from :
      (first : ℕ) (bs : List LogRecord) → length (messages_from w first bs) ≡ length bs
  unfolding messages_from
  length-messages_from first [] = refl
  length-messages_from first (b ∷ bs) = ap suc (length-messages_from (suc first) bs)

  pub length-spans_at : (pos : ℕ) (ms : List (Bytes × ℕ)) → length (spans_at w pos ms) ≡ length ms
  unfolding spans_at
  length-spans_at pos [] = refl
  length-spans_at pos ((m, r) ∷ ms) = ap suc (length-spans_at (pos + length (frame w m)) ms)

  pub AreWritable-append :
      (first : ℕ) (rs bs : List LogRecord)
      → AreWritable w first rs
      → AreWritable w (first + length rs) bs
      → AreWritable w first (rs ++ bs)
  AreWritable-append first [] bs h hb = let same : first + 0 ≡ first = omega arith in rw same at hb
  AreWritable-append first (r ∷ rs) bs h hb =
      let next : first + suc (length rs) ≡ suc first + length rs = omega arith in
      (h.0, AreWritable-append (suc first) rs bs h.1 (rw next at hb))

  pub AreWritable-take :
      (n first : ℕ) (bs : List LogRecord) → AreWritable w first bs → AreWritable w first (take n bs)
  AreWritable-take zero first bs h = tt
  AreWritable-take (suc n) first [] h = tt
  AreWritable-take (suc n) first (b ∷ bs) h = (h.0, AreWritable-take n (suc first) bs h.1)

  pub are_consecutive-revisions :
      (first n : ℕ) → are_consecutive first (revisions_from first n) ≡ true
  unfolding are_consecutive revisions_from
  are_consecutive-revisions first zero = refl
  are_consecutive-revisions first (suc n) = ground (arith, are_consecutive-revisions (suc first) n)

  pub content_of-append :
      (first : ℕ) (rs bs : List LogRecord)
      → content_of first rs ++ frames w (messages_from w (first + length rs) bs)
        ≡ content_of first (rs ++ bs)
  content_of-append first rs bs =
      append_assoc magic (frames w (messages_from w first rs))
        (frames w (messages_from w (first + length rs) bs))
      ∙ ap (◌++◌ magic) (
          sym (frames-append (messages_from w first rs) (messages_from w (first + length rs) bs))
          ∙ ap (λ ms. frames w ms) (sym (messages_from-append first rs bs)))

module _ (w : Wire) (hw : IsWire w) where
  pub nothing-IsTorn : IsTorn w []
  unfolding frame
  nothing-IsTorn = record {
    message = [];
    missing = frame w [];
    fits = omega arith;
    cut = refl;
    short = λ p.
        absurd (omega (arith, hw.varint_pos 0, ap length p, length-append (w.append_varint 0) []));
  }

  -- A cut within the first frame.
  cut_frame-IsTorn :
      (k : ℕ) (m : Bytes)
      → length m < 2 ^ 64
      → k < length (frame w m)
      → IsTorn w (take k (frame w m))
  cut_frame-IsTorn k m fits h = record {
    message = m;
    missing = drop k (frame w m);
    fits = fits;
    cut = take-drop k (frame w m);
    short = λ p. absurd (omega (arith, h, ap length p, length-drop k (frame w m)));
  }

  -- The first bytes of some frames are whole frames, and a record that was cut short.
  pub frames-take :
      (k : ℕ) (ms : List (Bytes × ℕ))
      → AreMessages w ms
      → (n : ℕ) × (tail : Bytes) × (take k (frames w ms) ≡ frames w (take n ms) ++ tail)
        × IsTorn w tail
        × (n ≤ length ms)
        × (length (frames w ms) ≤ k → n ≡ length ms)
  unfolding frames
  frames-take k [] are = (0, [], take-nil k, nothing-IsTorn, omega arith, λ h. refl)
  frames-take k ((m, r) ∷ ms) are = elim (Bool-cases (leb (length (frame w m)) k)) [
    | inl whole ↦
        let (n, tail, is, torn, few, all) = frames-take (k - length (frame w m)) ms are.1 in
        (
          suc n,
          tail,
          take-append_behind k (frame w m) (frames w ms) (leb→le (length (frame w m)) k whole)
              ∙ ap (◌++◌ (frame w m)) is
              ∙ sym (append_assoc (frame w m) (frames w (take n ms)) tail),
          torn,
          omega (arith, few),
          λ h. ap suc (all (omega (arith, h, length-append (frame w m) (frames w ms)))),
        )
    | inr cut ↦
        let short = not_leb→lt (length (frame w m)) k cut in
        (
          0,
          take k (frame w m),
          take-append_within k (frame w m) (frames w ms) (omega (arith, short)),
          cut_frame-IsTorn k m are.0.0 short,
          omega arith,
          λ h. absurd (omega (arith, h, short, length-append (frame w m) (frames w ms))),
        )
  ]

  -- Scan over a file of records and one that was cut short.
  pub scan-content_of :
      (first : ℕ) (records : List LogRecord) (tail : Bytes)
      → AreWritable w first records
      → IsTorn w tail
      → scan w (content_of w first records ++ tail)
        ≡ ok (record {
          spans = spans_at w (length magic) (messages_from w first records);
          revisions = revisions_from first (length records);
          complete = length (content_of w first records);
        })
  unfolding scan
  scan-content_of first records tail h torn =
      let ms = messages_from w first records in
      let body = frames w ms in
      let room : length (body ++ tail) ≤ length (magic ++ (body ++ tail)) =
        omega (arith, length-append magic (body ++ tail)) in
      let scanned =
        scan_loop-frames w hw (length (magic ++ (body ++ tail))) (length magic) ms tail
          (messages_from-AreMessages w hw first records h) torn room in
      rw (append_assoc magic body tail) (
        rw (has_prefix-append magic (body ++ tail)) (
          rw (drop-append magic (body ++ tail))
            (scanned ∙ rw (messages_from-revisions w first records, length-append magic body))))
