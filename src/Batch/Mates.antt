-- ===== src/Batch/Mates.antt =====
-- CanBatchTogether of pkg/persistence/batch/batch.go: what it makes of the transactions of one
-- batch.
use cloudetcd.Base.{
  ℕ, suc, ◌≡◌, refl, Bytes, Bool, true, false, List, [], ◌∷◌, ◌++◌, arith, lookup, bytes_equal_iff,
  bytes_eq, All, if◌then◌else◌, Bool-cases, inl, inr, All-append, bytes_equal_refl, lookup-insert,
}
use cloudetcd.TxnMeta.{TxnMeta, writes, new_txn_meta, add_read, add_write, add_list}
use cloudetcd.Batch.{
  PendingTxn, TxnBatch, Committed, written_at, no_write_conflict, no_read_conflict,
  can_batch_together, all_batch_with, can_batch_with, add, reads_valid, writes_valid, validate_txn,
  record_writes, prepare_loop,
}
use cloudetcd.Batch.Loop.{prepare_loop_reject, prepare_loop_accept}
use cloudetcd.Batch.Validate.{is_key, written_at-record_writes}

-- A write set is a map that holds `true` for each of its keys.
abbrev pub IsMarked : TxnMeta → Type 0
IsMarked t = (k : Bytes) → writes t k ≡ is_key k t.write_set

-- The key is none that `t` writes.
abbrev pub Unwritten : TxnMeta → Bytes → Type 0
Unwritten t k = is_key k t.write_set ≡ false

-- `u` reads and writes no key that `t` writes.
abbrev pub Apart : TxnMeta → TxnMeta → Type 0
Apart t u = All (λ e. Unwritten t e.0) u.read_set × All (λ e. Unwritten t e.0) u.write_set

no_write_conflict_sound :
    (keys : List (Bytes × Bool)) (u : TxnMeta) (k : Bytes)
    → no_write_conflict keys u ≡ true
    → writes u k ≡ true
    → is_key k keys ≡ false
unfolding no_write_conflict lookup
no_write_conflict_sound [] u k h w = refl
no_write_conflict_sound ((j, b) ∷ keys) u k h w =
    ground (arith, no_write_conflict_sound keys u k, bytes_equal_iff j k)

no_read_conflict_sound :
    (t : TxnMeta) (keys : List (Bytes × ℕ))
    → IsMarked t
    → no_read_conflict t keys ≡ true
    → All (λ e. Unwritten t e.0) keys
unfolding no_read_conflict
no_read_conflict_sound t [] s h = tt
no_read_conflict_sound t ((k, v) ∷ keys) s h =
    (ground (arith, s k), no_read_conflict_sound t keys s (ground arith))

-- Every entry of a map is found.
each_key :
    (P : Bytes → Type 0) (keys : List (Bytes × Bool))
    → ((k : Bytes) → is_key k keys ≡ true → P k)
    → All (λ e. P e.0) keys
unfolding lookup
each_key P [] h = tt
each_key P ((j, b) ∷ keys) h =
    (h j (ground (arith, bytes_equal_refl j)), each_key P keys (λ k e. h k (ground arith)))

can_batch_together-Apart :
    (t u : TxnMeta) → IsMarked t → IsMarked u → can_batch_together t u ≡ true → Apart t u
unfolding can_batch_together
can_batch_together-Apart t u st su h = (
  no_read_conflict_sound t u.read_set st (ground arith),
  each_key (Unwritten t) u.write_set
      λ k e. no_write_conflict_sound t.write_set u k (ground arith) (ground (arith, su k)),
)

-- Two maps agree on the keys that `t` reads and writes.
abbrev SameFor : Committed → Committed → TxnMeta → Type 0
SameFor c d t =
    All (λ e. written_at c e.0 ≡ written_at d e.0) t.read_set
    × All (λ e. written_at c e.0 ≡ written_at d e.0) t.write_set

reads_valid-cong :
    (c d : Committed) (reads : List (Bytes × ℕ))
    → All (λ e. written_at c e.0 ≡ written_at d e.0) reads
    → reads_valid reads c ≡ reads_valid reads d
unfolding reads_valid
reads_valid-cong c d [] h = refl
reads_valid-cong c d ((k, v) ∷ reads) h = rw (h.0, reads_valid-cong c d reads h.1)

writes_valid-cong :
    (c d : Committed) (snapshot : ℕ) (keys : List (Bytes × Bool))
    → All (λ e. written_at c e.0 ≡ written_at d e.0) keys
    → writes_valid keys snapshot c ≡ writes_valid keys snapshot d
unfolding writes_valid
writes_valid-cong c d snapshot [] h = refl
writes_valid-cong c d snapshot ((k, v) ∷ keys) h = rw (h.0, writes_valid-cong c d snapshot keys h.1)

validate_txn-cong :
    (c d : Committed) (last : ℕ) (t : TxnMeta)
    → SameFor c d t
    → validate_txn t last c ≡ validate_txn t last d
unfolding validate_txn
validate_txn-cong c d last t h =
    rw (
      reads_valid-cong c d t.read_set h.0,
      writes_valid-cong c d t.snapshot_revision t.write_set h.1,
    )

same_after :
    {V : Type 0} (t : TxnMeta) (r : ℕ) (c d : Committed) (keys : List (Bytes × V))
    → All (λ e. Unwritten t e.0) keys
    → All (λ e. written_at c e.0 ≡ written_at d e.0) keys
    → All (λ e. written_at (record_writes t.write_set r c) e.0 ≡ written_at d e.0) keys
same_after t r c d [] u h = tt
same_after t r c d ((k, v) ∷ keys) u h =
    (ground (arith, written_at-record_writes t.write_set r c k), same_after t r c d keys u.1 h.1)

-- Each transaction may be batched with every later one, as `add` behind `can_batch_with` has it.
abbrev pub AreMates : List PendingTxn → Type 0
AreMates [] = Unit
AreMates (txn ∷ txns) = All (λ u. can_batch_together txn.meta u.meta ≡ true) txns × AreMates txns

abbrev pub AllMarked : List PendingTxn → Type 0
AllMarked = All (λ u. IsMarked u.meta)

SameFor-All :
    (txn : PendingTxn) (r : ℕ) (c d : Committed) (txns : List PendingTxn)
    → IsMarked txn.meta
    → AllMarked txns
    → All (λ u. can_batch_together txn.meta u.meta ≡ true) txns
    → All (λ u. SameFor c d u.meta) txns
    → All (λ u. SameFor (record_writes txn.meta.write_set r c) d u.meta) txns
SameFor-All txn r c d [] m ms b h = tt
SameFor-All txn r c d (u ∷ us) m ms b h =
    let apart = can_batch_together-Apart txn.meta u.meta m ms.0 b.0 in
    (
      (
        same_after txn.meta r c d u.meta.read_set apart.0 h.0.0,
        same_after txn.meta r c d u.meta.write_set apart.1 h.0.1,
      ),
      SameFor-All txn r c d us m ms.1 b.1 h.1,
    )

-- The channels of the transactions that are valid against the map `c`, and of the others.
unfoldable pub valid_chans : Bool → ℕ → Committed → List PendingTxn → List ℕ
valid_chans want last c [] = []
valid_chans want last c (txn ∷ txns) =
    let rest = valid_chans want last c txns in
    if validate_txn txn.meta last c
    then (if want then txn.result_chan ∷ rest else rest)
    else (if want then rest else txn.result_chan ∷ rest)

loop_of_mates :
    (last revision : ℕ) (c d : Committed) (txns : List PendingTxn)
    → AllMarked txns
    → AreMates txns
    → All (λ u. SameFor c d u.meta) txns
    → ((prepare_loop last revision c txns).accepted ≡ valid_chans true last d txns)
      × ((prepare_loop last revision c txns).rejected ≡ valid_chans false last d txns)
unfolding valid_chans prepare_loop
loop_of_mates last revision c d [] m b h = (refl, refl)
loop_of_mates last revision c d (txn ∷ txns) m b h =
    elim (Bool-cases (validate_txn txn.meta last c)) [
      | inr bad ↦
          let ih = loop_of_mates last revision c d txns m.1 b.1 h.1 in
          rw (prepare_loop_reject last revision c txn txns bad)
            (ground (arith, validate_txn-cong c d last txn.meta h.0))
      | inl good ↦
          let r = suc revision in
          let ih =
            loop_of_mates last r (record_writes txn.meta.write_set r c) d txns m.1 b.1
              (SameFor-All txn r c d txns m.0 m.1 b.0 h.1) in
          rw (prepare_loop_accept last revision c txn txns good)
            (ground (arith, validate_txn-cong c d last txn.meta h.0))
    ]

-- In a batch whose members were let in by CanBatchWith no member makes another fail: the loop of
-- `prepare` accepts exactly those that are valid against the writes before the batch, in order,
-- and rejects the others.
pub prepare_loop-mates :
    (last : ℕ) (c : Committed) (txns : List PendingTxn)
    → AllMarked txns
    → AreMates txns
    → ((prepare_loop last last c txns).accepted ≡ valid_chans true last c txns)
      × ((prepare_loop last last c txns).rejected ≡ valid_chans false last c txns)
prepare_loop-mates last c txns m b = loop_of_mates last last c c txns m b (all_same txns)
  where
    same :
        {V : Type 0} (keys : List (Bytes × V)) → All (λ e. written_at c e.0 ≡ written_at c e.0) keys
    same [] = tt
    same (e ∷ keys) = (refl, same keys)

    all_same : (us : List PendingTxn) → All (λ u. SameFor c c u.meta) us
    all_same [] = tt
    all_same (u ∷ us) = ((same u.meta.read_set, same u.meta.write_set), all_same us)

all_batch_with-All :
    (txns : List PendingTxn) (t : TxnMeta)
    → all_batch_with txns t ≡ true
    → All (λ u. can_batch_together u.meta t ≡ true) txns
unfolding all_batch_with
all_batch_with-All [] t h = tt
all_batch_with-All (u ∷ us) t h = (ground arith, all_batch_with-All us t (ground arith))

AreMates-snoc :
    (txns : List PendingTxn) (txn : PendingTxn)
    → AreMates txns
    → All (λ u. can_batch_together u.meta txn.meta ≡ true) txns
    → AreMates (txns ++ txn ∷ [])
AreMates-snoc [] txn m h = (tt, tt)
AreMates-snoc (u ∷ us) txn m h =
    (All-append _ us (txn ∷ []) m.0 (h.0, tt), AreMates-snoc us txn m.1 h.1)

-- `add` behind a successful `can_batch_with` keeps the members of the batch mates.
pub add-AreMates :
    (b : TxnBatch) (txn : PendingTxn)
    → AreMates b.pending_batch
    → can_batch_with b txn.meta ≡ true
    → AreMates (add b txn).pending_batch
unfolding add can_batch_with
add-AreMates b txn m h =
    AreMates-snoc b.pending_batch txn m (all_batch_with-All b.pending_batch txn.meta h)

-- Every way to build a TxnMeta marks the keys of its write set.
pub new_txn_meta-IsMarked : (snapshot : ℕ) → IsMarked (new_txn_meta snapshot)
unfolding new_txn_meta writes lookup
new_txn_meta-IsMarked snapshot k = refl

pub add_read-IsMarked : (t : TxnMeta) (k : Bytes) (r : ℕ) → IsMarked t → IsMarked (add_read t k r)
unfolding add_read writes
add_read-IsMarked t k r h = h

pub add_list-IsMarked : (t : TxnMeta) → IsMarked t → IsMarked (add_list t)
unfolding add_list writes
add_list-IsMarked t h = h

pub add_write-IsMarked : (t : TxnMeta) (k : Bytes) → IsMarked t → IsMarked (add_write t k)
unfolding add_write writes
add_write-IsMarked t k h j = ground (arith, lookup-insert {V = Bool} k j true t.write_set, h j)
