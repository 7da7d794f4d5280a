-- ===== src/Memory/Compaction.antt =====
-- Compact of pkg/storage/memorystorage/memory.go.
use cloudetcd.Base.{
  ℕ, ◌≤◌, ◌≡◌, refl, Bytes, Bool, true, false, ◌&&◌, List, [], ◌∷◌, none, some, arith, ltb, leb,
  nat_beq, if◌then◌else◌, All, ◌⊎◌, inl, inr, Bool-cases,
}
use cloudetcd.Index.{Index, compact, get_latest, newest, revisions_of}
use cloudetcd.Index.Trim.{deleted_in, get_latest-compact}
use cloudetcd.Memory.{WatcherView, MemoryStorage}

-- The loop over the watchers: the revision is lowered to what each open one has delivered.
unfoldable pub through_watchers : List WatcherView → ℕ → ℕ
through_watchers [] through = through
through_watchers (w ∷ watchers) through =
    through_watchers watchers
      (if w.closed then through else if ltb w.delivered through then w.delivered else through)

unfoldable pub compact_point : MemoryStorage → ℕ → ℕ
unfolding through_watchers
compact_point s revision =
    through_watchers s.watchers (if ltb s.applied revision then s.applied else revision)

-- What Compact does under the lock, with the revision that it returns.
unfoldable pub compact_storage : MemoryStorage → ℕ → MemoryStorage × ℕ
compact_storage s revision =
    let through = compact_point s revision in
    if leb through s.compacted
    then (s, s.compacted)
    else (record s { revisions = (compact s.revisions through).0; compacted = through }, through)

-- The test that the log's compaction calls in the background.
unfoldable pub live : Index → ℕ → Bytes → ℕ → Bool
live index through key rev = elim (get_latest index key through) [
  | none ↦ false
  | some latest ↦ nat_beq latest rev
]

through_watchers-le :
    (ws : List WatcherView) (through : ℕ)
    → (through_watchers ws through ≤ through)
      × All (λ w. (w.closed ≡ true) ⊎ (through_watchers ws through ≤ w.delivered)) ws
unfolding through_watchers
through_watchers-le [] through = (omega arith, tt)
through_watchers-le (w ∷ ws) through =
    let next =
      if w.closed then through else if ltb w.delivered through then w.delivered else through in
    let (le, all) = through_watchers-le ws next in
    (
      ground arith,
      (
        elim (Bool-cases w.closed) [ inl closed ↦ inl closed | inr is_open ↦ inr (ground arith) ],
        all,
      ),
    )

-- Compact never lowers the compacted revision. If it raises it, then at most to the revision asked
-- for, to the applied revision and to what each open watcher has delivered.
pub compact_storage-bounds :
    (s : MemoryStorage) (revision : ℕ)
    → (s.compacted ≤ (compact_storage s revision).0.compacted)
      × ((compact_storage s revision).1 ≡ (compact_storage s revision).0.compacted)
      × (((compact_storage s revision).0 ≡ s)
          ⊎ (((compact_storage s revision).1 ≤ revision)
              × ((compact_storage s revision).1 ≤ s.applied)
              × All
                  (λ w. (w.closed ≡ true) ⊎ ((compact_storage s revision).1 ≤ w.delivered))
                  s.watchers))
unfolding compact_storage compact_point
compact_storage-bounds s revision =
    let start = if ltb s.applied revision then s.applied else revision in
    let (le, all) = through_watchers-le s.watchers start in
    elim (Bool-cases (leb (compact_point s revision) s.compacted)) [
      | inl low ↦ rw (low, compact_storage) (omega arith, refl, inl refl)
      | inr high ↦
          rw (high, compact_storage) (ground arith, refl, inr (ground arith, ground arith, all))
    ]

-- After Compact a read of a key at or after the compacted revision finds what it found before,
-- except that it finds nothing for a key whose newest revision is a delete at or before the point
-- of the compaction, when the index was compacted. When that point is not after the old compacted
-- revision, the read is the same for every key.
pub compact_storage-reads :
    (s : MemoryStorage) (revision : ℕ) (key : Bytes) (at : ℕ)
    → (compact_storage s revision).0.compacted ≤ at
    → get_latest (compact_storage s revision).0.revisions key at ≡ (
        if ltb s.compacted (compact_point s revision)
          && (deleted_in s.revisions key
              && leb (newest (revisions_of s.revisions key)) (compact_point s revision))
        then none
        else get_latest s.revisions key at)
unfolding compact_storage
compact_storage-reads s revision key at h =
    elim (Bool-cases (leb (compact_point s revision) s.compacted)) [
      | inl low ↦
          let not_after : ltb s.compacted (compact_point s revision) ≡ false = ground arith in
          rw (low, compact_storage) (rw not_after refl)
      | inr high ↦
          let after : ltb s.compacted (compact_point s revision) ≡ true = ground arith in
          let le : compact_point s revision ≤ at = rw (high, compact_storage) at h in
          rw (high, compact_storage)
            (rw after (get_latest-compact s.revisions (compact_point s revision) key at le))
    ]
