-- ===== src/Batch/Validate.antt =====
-- What validateTxn and CanBatchTogether of pkg/persistence/batch/batch.go decide.
use cloudetcd.Base.{
  ℕ, ◌≤◌, ◌≡◌, refl, Bytes, Bool, true, false, List, [], ◌∷◌, none, some, ◌↔◌, ◌⊎◌, inl, inr, arith,
  lookup, insert, lookup-insert, bytes_eq, All, if◌then◌else◌, Bool-cases,
}
use cloudetcd.TxnMeta.{TxnMeta, writes}
use cloudetcd.Batch.{Committed, written_at, reads_valid, writes_valid, validate_txn, record_writes}

-- No write of a read key is recorded after the revision that was read.
abbrev pub ReadsFresh : TxnMeta → (Bytes → ℕ) → Type 0
ReadsFresh t at = All (λ e. at e.0 ≤ e.1) t.read_set

-- No write of a written key is recorded after the snapshot.
abbrev pub WritesFresh : TxnMeta → (Bytes → ℕ) → Type 0
WritesFresh t at = All (λ e. at e.0 ≤ t.snapshot_revision) t.write_set

reads_valid_iff :
    (reads : List (Bytes × ℕ)) (c : Committed)
    → (reads_valid reads c ≡ true) ↔ All (λ e. written_at c e.0 ≤ e.1) reads
unfolding reads_valid
reads_valid_iff [] c = (λ h. tt, λ h. refl)
reads_valid_iff ((k, v) ∷ reads) c =
    let ih = reads_valid_iff reads c in
    (λ h. (ground arith, ih.0 (ground arith)), λ h. ground (arith, ih.1 h.1))

writes_valid_iff :
    (keys : List (Bytes × Bool)) (snapshot : ℕ) (c : Committed)
    → (writes_valid keys snapshot c ≡ true) ↔ All (λ e. written_at c e.0 ≤ snapshot) keys
unfolding writes_valid
writes_valid_iff [] snapshot c = (λ h. tt, λ h. refl)
writes_valid_iff ((k, v) ∷ keys) snapshot c =
    let ih = writes_valid_iff keys snapshot c in
    (λ h. (ground arith, ih.0 (ground arith)), λ h. ground (arith, ih.1 h.1))

-- The two branches of validateTxn.
pub validate_txn_iff :
    (t : TxnMeta) (last : ℕ) (c : Committed)
    → (t.has_range_read ≡ false
        → (validate_txn t last c ≡ true)
          ↔ (ReadsFresh t (written_at c) × WritesFresh t (written_at c)))
      × (t.has_range_read ≡ true → (validate_txn t last c ≡ true) ↔ (t.snapshot_revision ≡ last))
unfolding validate_txn
validate_txn_iff t last c =
    let r = reads_valid_iff t.read_set c in
    let w = writes_valid_iff t.write_set t.snapshot_revision c in
    (
      λ e. (λ h. (r.0 (ground arith), w.0 (ground arith)), λ h. ground (arith, r.1 h.0, w.1 h.1)),
      λ e. (λ h. ground arith, λ h. ground arith),
    )

-- What validateTxn asks of a transaction: of one with a range read, that its snapshot is the last
-- log position; of any other, that its keys are fresh.
abbrev pub IsAdmissible : TxnMeta → ℕ → (Bytes → ℕ) → Type 0
IsAdmissible t last at =
    ((t.has_range_read ≡ true) × (t.snapshot_revision ≡ last))
    ⊎ ((t.has_range_read ≡ false) × ReadsFresh t at × WritesFresh t at)

-- A transaction is accepted exactly if it has a range read and its snapshot is the last log
-- position, or if it has none, no key that it read was written after the revision it saw, and no
-- key that it writes was written after its snapshot.
pub validate_txn-IsAdmissible :
    (t : TxnMeta) (last : ℕ) (c : Committed)
    → (validate_txn t last c ≡ true) ↔ IsAdmissible t last (written_at c)
validate_txn-IsAdmissible t last c =
    let (single, range) = validate_txn_iff t last c in
    (
      λ h. elim (Bool-cases t.has_range_read) [
        | inl is ↦ inl (is, (range is).0 h)
        | inr not ↦ let (reads, writes) = (single not).0 h in inr (not, reads, writes)
      ],
      λ h. elim h [
        | inl (is, at_last) ↦ (range is).1 at_last
        | inr (not, reads, writes) ↦ (single not).1 (reads, writes)
      ],
    )

abbrev pub is_key {ℓ} : {V : Type ℓ} → Bytes → List (Bytes × V) → Bool
is_key k m = elim (lookup k m) [ none ↦ false | some _ ↦ true ]

pub written_at-record_writes :
    (keys : List (Bytes × Bool)) (r : ℕ) (c : Committed) (k : Bytes)
    → written_at (record_writes keys r c) k ≡ (if is_key k keys then r else written_at c k)
unfolding written_at record_writes lookup
written_at-record_writes [] r c k = refl
written_at-record_writes ((j, b) ∷ keys) r c k =
    ground (arith, written_at-record_writes keys r (insert j r c) k, lookup-insert {V = ℕ} j k r c)
