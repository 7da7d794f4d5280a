-- ===== src/Index/Map.antt =====
-- AddRevision and GetLatestRevisionByKey of pkg/bptree/bptree.go: the index is a map.
use cloudetcd.Base.{
  ℕ, ◌+◌, ◌≡◌, refl, Bytes, Bool, List, [], ◌∷◌, ◌++◌, some, arith, length, is_empty, bytes_equal,
  leb, if◌then◌else◌,
}
use cloudetcd.Index.{Index, add, add_revision, lookup_node, revisions_of, latest_at, get_latest}
use cloudetcd.Index.Sorted.{IsSorted}
use cloudetcd.Index.Add.{add_revision-Added}

-- AddRevision appends the revision to those of its key, changes no other key, keeps the tree
-- well-formed, and counts the key if it had no revision.
pub revisions_of-add :
    (t : Index) (key : Bytes) (r : ℕ) (tombstone : Bool)
    → IsSorted 0 t.root
    → ((j : Bytes)
        → revisions_of (add t key r tombstone) j
          ≡ (if bytes_equal key j then revisions_of t j ++ r ∷ [] else revisions_of t j))
      × IsSorted 0 (add t key r tombstone).root
      × ((add t key r tombstone).keys
          ≡ (if is_empty (revisions_of t key) then t.keys + 1 else t.keys))
unfolding add revisions_of bytes_equal
revisions_of-add t [] r tombstone s = (by_key, s, refl)
  where
    by_key :
        (j : Bytes)
        → revisions_of (add t [] r tombstone) j
          ≡ (if bytes_equal [] j then revisions_of t j ++ r ∷ [] else revisions_of t j)
    by_key [] = refl
    by_key (y ∷ j) = refl
revisions_of-add t (b ∷ key) r tombstone s =
    let (more, sorted, is_new) =
      add_revision-Added (length (b ∷ key)) t.root 0 b key r tombstone s (omega arith)
        (omega arith) in
    (by_key more, sorted, rw is_new)
  where
    by_key :
        ((c : ℕ) (j : Bytes)
          → lookup_node (add_revision (length (b ∷ key)) t.root (b ∷ key) r tombstone).0 (c ∷ j) ≡ (
              if bytes_equal (b ∷ key) (c ∷ j)
              then lookup_node t.root (c ∷ j) ++ r ∷ []
              else lookup_node t.root (c ∷ j)))
        → (j : Bytes)
        → revisions_of (add t (b ∷ key) r tombstone) j
          ≡ (if bytes_equal (b ∷ key) j then revisions_of t j ++ r ∷ [] else revisions_of t j)
    by_key more [] = refl
    by_key more (c ∷ j) = more c j

latest_at-snoc :
    (at r : ℕ) (rs : List ℕ)
    → latest_at at (rs ++ r ∷ []) ≡ (if leb r at then some r else latest_at at rs)
unfolding latest_at
latest_at-snoc at r [] = refl
latest_at-snoc at r (s ∷ rs) = ground (arith, latest_at-snoc at r rs)

-- After AddRevision a read of the key at or after the revision finds the revision; an earlier
-- read, and a read of any other key, finds what it found before.
pub get_latest-add :
    (t : Index) (key : Bytes) (r : ℕ) (tombstone : Bool) (j : Bytes) (at : ℕ)
    → IsSorted 0 t.root
    → get_latest (add t key r tombstone) j at ≡ (
        if bytes_equal key j
        then (if leb r at then some r else get_latest t j at)
        else get_latest t j at)
unfolding get_latest
get_latest-add t key r tombstone j at s =
    ground
      (arith, (revisions_of-add t key r tombstone s).0 j, latest_at-snoc at r (revisions_of t j))
