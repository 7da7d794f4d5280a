-- ===== src/Batch/Serial.antt =====
-- Serializability of the committed log, pkg/persistence/batch/batch.go (prepare): the commits form
-- a history, newest first, and each commit is checked against the writes that stand before it.
use cloudetcd.Base.{
  ◌⊎◌, ℕ, suc, ◌+◌, ◌≡◌, refl, Bytes, true, List, [], ◌∷◌, inl, inr, arith, length, if◌then◌else◌,
  Bool-cases,
}
use mathlib.Core.Path.{fun_ext}
use native.Mathlib.Nat.{add-zero, add-suc, suc-add}
use cloudetcd.TxnMeta.{TxnMeta}
use cloudetcd.Batch.{
  PendingTxn, Committed, written_at, validate_txn, record_writes, stamp_txn, prepare_loop,
}
use cloudetcd.Batch.Loop.{prepare_loop_reject, prepare_loop_accept}
use cloudetcd.Batch.Validate.{
  ReadsFresh, WritesFresh, validate_txn_iff, is_key, written_at-record_writes,
}

-- The committed transactions with their revisions, newest first.
abbrev pub History : Type 0
History = List (ℕ × TxnMeta)

-- The revision of the newest commit that writes the key; 0 if there is none.
unfoldable pub last_write : History → Bytes → ℕ
last_write [] k = 0
last_write ((r, t) ∷ h) k = if is_key k t.write_set then r else last_write h k

-- The revision of the newest commit.
abbrev pub top : ℕ → History → ℕ
top first [] = first
top first ((r, t) ∷ h) = r

-- Revisions are contiguous, and no commit without a range read missed a write: nothing that it
-- read was written after the revision that it saw, nothing that it wrote after its snapshot.
abbrev pub IsSerial : ℕ → History → Type 0
IsSerial first [] = Unit
IsSerial first ((r, t) ∷ h) =
    (r ≡ suc (top first h))
    × ((t.has_range_read ≡ true) ⊎ (ReadsFresh t (last_write h) × WritesFresh t (last_write h)))
    × IsSerial first h

-- The history with the transactions of one batch, which come after `revision`.
unfoldable pub extend : History → ℕ → List PendingTxn → History
extend h revision [] = h
extend h revision (txn ∷ txns) = extend ((suc revision, txn.meta) ∷ h) (suc revision) txns

-- The map holds the revision of the last write of each key.
pub record Tracks (first : ℕ) (h : History) (revision : ℕ) (c : Committed) : Type 0 where
  pub serial : IsSerial first h
  pub agrees : (k : Bytes) → written_at c k ≡ last_write h k
  pub at_top : top first h ≡ revision

module _ (first : ℕ) where
  Tracks-commit :
      (txn : PendingTxn) (last : ℕ) {h : History} {revision : ℕ} {c : Committed}
      → validate_txn txn.meta last c ≡ true
      → Tracks first h revision c
      → Tracks first
          ((suc revision, txn.meta) ∷ h)
          (suc revision)
          (record_writes txn.meta.write_set (suc revision) c)
  unfolding last_write
  Tracks-commit txn last {h} {revision} {c} valid t =
      let same : written_at c ≡ last_write h = fun_ext t.agrees in
      record {
        serial = (
          omega (arith, t.at_top),
          elim (Bool-cases txn.meta.has_range_read) [
            | inl range ↦ inl range
            | inr single ↦ inr (rw (← same) (((validate_txn_iff txn.meta last c).0 single).0 valid))
          ],
          t.serial,
        );
        agrees = λ k.
            ground
              (arith, written_at-record_writes txn.meta.write_set (suc revision) c k, t.agrees k);
        at_top = refl;
      }

  -- The loop of `prepare` keeps a serial history, and its map stays the map of last writes.
  pub prepare_loop-Tracks :
      (last : ℕ) (txns : List PendingTxn) (h : History) (revision : ℕ) (c : Committed)
      → Tracks first h revision c
      → Tracks first
          (extend h revision (prepare_loop last revision c txns).transactions)
          (revision + length (prepare_loop last revision c txns).transactions)
          (prepare_loop last revision c txns).committed
  unfolding prepare_loop extend stamp_txn
  prepare_loop-Tracks last [] h revision c t = rw add-zero t
  prepare_loop-Tracks last (txn ∷ txns) h revision c t =
      elim (Bool-cases (validate_txn txn.meta last c)) [
        | inr bad ↦
            rw (prepare_loop_reject last revision c txn txns bad)
              (prepare_loop-Tracks last txns h revision c t)
        | inl good ↦
            rw (prepare_loop_accept last revision c txn txns good, add-suc, ← suc-add)
              (prepare_loop-Tracks last txns _ _ _ (Tracks-commit txn last good t))
      ]
