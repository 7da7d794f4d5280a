-- ===== src/FileLog/Chain.antt =====
-- The invariant of a log of pkg/persistence/filesystemlog/filesystem_log.go that is open, which
-- commitBatch and rotateLocked preserve.
use cloudetcd.Base.{
  ℕ, suc, ◌+◌, ◌^◌, ◌≤◌, ◌<◌, ◌≡◌, refl, sym, ap, ◌∙◌, Bytes, true, false, List, [], ◌∷◌, ◌++◌,
  Option, none, some, arith, length, length-append, In, leb, inl, inr, Bool-cases, lookup, insert,
  lookup-insert, bytes_eq, bytes_equal, bytes_equal_sound,
}
use cloudetcd.Event.{LogRecord}
use cloudetcd.Codec.Protowire.{Wire, Proto}
use cloudetcd.Codec.{frame}
use cloudetcd.Codec.Frames.{frames, spans_at}
use cloudetcd.FileLog.Names.{FileInfo, filename, parse_filename, parse_filename-filename}
use cloudetcd.FileLog.{Disk, LogFile, FilesystemLog, find_from}
use cloudetcd.FileLog.Commit.{shift_spans}
use cloudetcd.FileLog.Durable.{IsActive}

-- Each file starts right behind the one before it.
unfoldable pub IsChain : ℕ → List LogFile → Type 0
IsChain first [] = Unit
IsChain first (f ∷ files) =
    (f.info.first ≡ first) × (first ≤ suc f.info.last) × IsChain (suc f.info.last) files

-- The first revision behind the files.
unfoldable pub chain_end : ℕ → List LogFile → ℕ
chain_end first [] = first
chain_end first (f ∷ files) = chain_end (suc f.info.last) files

find_from-below :
    (first revision : ℕ) (files : List LogFile)
    → IsChain first files
    → revision < first
    → find_from files revision ≡ none
unfolding find_from IsChain
find_from-below first revision [] chain h = refl
find_from-below first revision (f ∷ files) chain h =
    let ih = find_from-below (suc f.info.last) revision files chain.2 (omega (arith, chain.1, h)) in
    let behind : leb f.info.first revision ≡ false = ground (arith, chain.0, h) in
    rw ih (rw behind refl)

pub find_from-IsChain :
    (first revision : ℕ) (files : List LogFile)
    → IsChain first files
    → first ≤ revision
    → revision < chain_end first files
    → (f : LogFile) × (find_from files revision ≡ some f)
      × In f files
      × (f.info.first ≤ revision)
      × (revision ≤ f.info.last)
unfolding find_from IsChain chain_end
find_from-IsChain first revision [] chain h below = absurd (omega (arith, h, below))
find_from-IsChain first revision (f ∷ files) chain h below =
    elim (Bool-cases (leb revision f.info.last)) [
      | inl here ↦
          let held : revision ≤ f.info.last = ground (arith, here) in
          let none_behind =
            find_from-below (suc f.info.last) revision files chain.2 (omega (arith, held)) in
          let starts : leb f.info.first revision ≡ true = ground (arith, chain.0, h) in
          (f, rw none_behind (rw starts refl), inl refl, omega (arith, chain.0, h), held)
      | inr behind ↦
          let later : suc f.info.last ≤ revision = ground (arith, behind) in
          let (g, is, within, low, high) =
            find_from-IsChain (suc f.info.last) revision files chain.2 later below in
          (g, rw is refl, inr within, low, high)
    ]

pub IsChain-append :
    (first : ℕ) (closed : List LogFile) (f : LogFile)
    → IsChain first closed
    → f.info.first ≡ chain_end first closed
    → chain_end first closed ≤ suc f.info.last
    → IsChain first (closed ++ f ∷ [])
unfolding IsChain chain_end
IsChain-append first [] f chain starts fits = (starts, fits, tt)
IsChain-append first (g ∷ closed) f chain starts fits =
    (chain.0, chain.1, IsChain-append (suc g.info.last) closed f chain.2 starts fits)

pub IsChain-closed :
    (first : ℕ) (closed : List LogFile) (f : LogFile)
    → IsChain first (closed ++ f ∷ [])
    → IsChain first closed × (f.info.first ≡ chain_end first closed)
unfolding IsChain chain_end
IsChain-closed first [] f chain = (tt, chain.0)
IsChain-closed first (g ∷ closed) f chain =
    let (before, starts) = IsChain-closed (suc g.info.last) closed f chain.2 in
    ((chain.0, chain.1, before), starts)

pub chain_end-append :
    (first : ℕ) (closed : List LogFile) (f : LogFile)
    → chain_end first (closed ++ f ∷ []) ≡ suc f.info.last
unfolding chain_end
chain_end-append first [] f = refl
chain_end-append first (g ∷ closed) f = chain_end-append (suc g.info.last) closed f

-- The name of the dense file that starts at a revision.
unfoldable pub dense_name : ℕ → Bytes
dense_name n = filename (record { first = n; last = n; sparse = false })

abbrev first_in : Option FileInfo → ℕ
first_in none = 0
first_in (some fi) = fi.first

pub dense_name-differs :
    (n m : ℕ) → n < m → m < 2 ^ 64 → bytes_equal (dense_name n) (dense_name m) ≡ false
unfolding dense_name
dense_name-differs n m less fits = elim (Bool-cases (bytes_equal (dense_name n) (dense_name m))) [
  | inr differs ↦ differs
  | inl same ↦ absurd (
      let pn =
        parse_filename-filename (record { first = n; last = n; sparse = false }) (omega arith)
          (omega (arith, less, fits)) in
      let pm =
        parse_filename-filename (record { first = m; last = m; sparse = false }) (omega arith)
          fits in
      let e = bytes_equal_sound (dense_name n) (dense_name m) same in
      let firsts : n ≡ m = ap first_in (sym pn ∙ ap parse_filename e ∙ pm) in
      omega (arith, firsts, less))
]

-- Writing to a file that is there makes no other name.
pub lookup-insert-none :
    (name j c c' : Bytes) (disk : Disk)
    → lookup name disk ≡ some c
    → lookup j disk ≡ none
    → lookup j (insert name c' disk) ≡ none
lookup-insert-none name j c c' disk there missing =
    lookup-insert name j c' disk ∙ rw differs missing
  where
    differs : bytes_equal name j ≡ false
    differs = elim (Bool-cases (bytes_equal name j)) [
      | inr apart ↦ apart
      | inl same ↦ absurd (let e = bytes_equal_sound name j same in cc)
    ]

pub spans_at-append :
    (w : Wire) (pos : ℕ) (xs ys : List (Bytes × ℕ))
    → spans_at w pos (xs ++ ys) ≡ spans_at w pos xs ++ spans_at w (pos + length (frames w xs)) ys
unfolding spans_at frames
spans_at-append w pos [] ys = let same : pos + 0 ≡ pos = omega arith in rw same refl
spans_at-append w pos ((m, r) ∷ xs) ys =
    let ih = spans_at-append w (pos + length (frame w m)) xs ys in
    let same : pos + length (frame w m ++ frames w xs)
        ≡ pos + length (frame w m) + length (frames w xs) =
      omega (arith, length-append (frame w m) (frames w xs)) in
    rw (ih, same) refl

pub shift_spans-spans_at :
    (w : Wire) (base pos : ℕ) (ms : List (Bytes × ℕ))
    → shift_spans base (spans_at w pos ms) ≡ spans_at w (base + pos) ms
unfolding shift_spans spans_at
shift_spans-spans_at w base pos [] = refl
shift_spans-spans_at w base pos ((m, r) ∷ ms) =
    let a = length (w.append_varint (length m)) in
    let here : base + (pos + a) ≡ base + pos + a = omega arith in
    let next : base + (pos + length (frame w m)) ≡ base + pos + length (frame w m) = omega arith in
    rw (shift_spans-spans_at w base (pos + length (frame w m)) ms, here, next) refl

-- A log that is open: its files follow each other from revision 1 to the last one, the last file is
-- the active one and holds these records, and no file has a name that a rotation will need.
pub record IsLog (p : Proto) (s : FilesystemLog) (records : List LogRecord) : Type 0 where
  pub held : IsActive p s records
  pub chain : IsChain 1 s.files
  pub last : held.active.info.last ≡ s.last_revision
  pub fresh :
      (n : ℕ) → held.active.info.first < n → n < 2 ^ 64 → lookup (dense_name n) s.disk ≡ none
