-- ===== src/Index/Trim.antt =====
-- Compact of pkg/bptree/bptree.go: what a read at or after the compaction point still finds.
use cloudetcd.Base.{
  ℕ, zero, suc, ◌+◌, ◌-◌, ◌≤◌, ◌≡◌, refl, ◌∙◌, Bytes, Bool, false, ◌&&◌, List, [], ◌∷◌, Option,
  none, some, arith, length, drop, ltb, leb, nat_beq, is_empty, has_prefix, if◌then◌else◌, ◌<◌,
  Bool-cases, inl, inr,
}
use cloudetcd.Index.{
  Node, Index, end, entry, first, lookup_node, revisions_of, latest_at, get_latest, newest,
  search_after, compact_revisions, compact_entry, compact_node, compact,
}

-- Whether the newest revision of a key is a delete.
unfoldable pub deleted_node : Node → Bytes → Bool
deleted_node end key = false
deleted_node (entry p rs tb c rest) key =
    let beyond = deleted_node rest key in
    let below = deleted_node c (drop (length p) key) in
    if ltb (first p) (first key)
    then beyond
    else if ltb (first key) (first p)
    then false
    else if has_prefix key p
    then (if nat_beq (length key) (length p) then tb else below)
    else false

unfoldable pub deleted_in : Index → Bytes → Bool
deleted_in t [] = t.empty_tombstone
deleted_in t (b ∷ key) = deleted_node t.root (b ∷ key)

kept_entry : List ℕ → Bool → ℕ → List ℕ
kept_entry rs tb through = (compact_entry rs tb through).0.kept

lookup-compact_node :
    (through : ℕ) (n : Node) (key : Bytes)
    → lookup_node (compact_node through n).0 key
      ≡ kept_entry (lookup_node n key) (deleted_node n key) through
unfolding lookup_node compact_node deleted_node kept_entry compact_entry
lookup-compact_node through end key = refl
lookup-compact_node through (entry p rs tb c rest) key = ground (
  arith,
  lookup-compact_node through c (drop (length p) key),
  lookup-compact_node through rest key,
)

latest_at-found :
    (through at : ℕ) (rs : List ℕ)
    → through ≤ at
    → 0 < search_after through rs
    → (r : ℕ) × (latest_at at rs ≡ some r)
unfolding latest_at search_after
latest_at-found through at [] h pos = absurd (omega arith)
latest_at-found through at (r ∷ rs) h pos = by_later (latest_at at rs) refl
  where
    by_later : (o : Option ℕ) → latest_at at rs ≡ o → (x : ℕ) × (latest_at at (r ∷ rs) ≡ some x)
    by_later none e = (r, ground arith)
    by_later (some x) e = (x, ground arith)

pred_suc : (i : ℕ) → suc i - 1 ≡ i
pred_suc i = omega arith

latest_at-drop :
    (through at : ℕ) (rs : List ℕ)
    → through ≤ at
    → latest_at at (drop (search_after through rs - 1) rs) ≡ latest_at at rs
unfolding search_after
latest_at-drop through at [] h = refl
latest_at-drop through at (r ∷ rs) h = elim (Bool-cases (ltb through r)) [
  | inl after ↦ rw (after, search_after)
  | inr before ↦ by_index (latest_at-drop through at rs h) (search_after through rs) refl before
]
  where
    by_index :
        latest_at at (drop (search_after through rs - 1) rs) ≡ latest_at at rs
        → (i : ℕ) → search_after through rs ≡ i
        → ltb through r ≡ false
        → latest_at at (drop (search_after through (r ∷ rs) - 1) (r ∷ rs)) ≡ latest_at at (r ∷ rs)
    by_index same zero e b = rw (b, search_after) (rw e)
    by_index same (suc i) e b =
        let (x, found) = latest_at-found through at rs h (omega arith) in
        let ih : latest_at at (drop i rs) ≡ latest_at at rs = rw (pred_suc i) at (rw e at same) in
        rw (b, search_after) (rw e (rw (pred_suc (suc i)) (ih ∙ unfold latest_at in ground arith)))

latest_at-kept :
    (through at : ℕ) (rs : List ℕ) (tb : Bool)
    → through ≤ at
    → latest_at at (kept_entry rs tb through)
      ≡ (if tb && leb (newest rs) through then none else latest_at at rs)
unfolding kept_entry compact_entry compact_revisions latest_at
latest_at-kept through at [] tb h = ground arith
latest_at-kept through at (r ∷ rs) tb h = ground (arith, latest_at-drop through at (r ∷ rs) h)

-- A read at or after the compaction point finds what it found before compaction, unless the
-- newest revision of the key is a delete at or below the point: then it finds nothing.
pub get_latest-compact :
    (t : Index) (through : ℕ) (key : Bytes) (at : ℕ)
    → through ≤ at
    → get_latest (compact t through).0 key at ≡ (
        if deleted_in t key && leb (newest (revisions_of t key)) through
        then none
        else get_latest t key at)
unfolding get_latest compact revisions_of deleted_in compact_entry kept_entry
get_latest-compact t through [] at h =
    latest_at-kept through at t.empty_revisions t.empty_tombstone h
get_latest-compact t through (b ∷ key) at h =
    rw (lookup-compact_node through t.root (b ∷ key))
      (latest_at-kept through at (lookup_node t.root (b ∷ key)) (deleted_node t.root (b ∷ key)) h)

-- How many keys have a revision in a node.
unfoldable pub key_count : Node → ℕ
key_count end = 0
key_count (entry p rs tb c rest) = (if is_empty rs then 0 else 1) + key_count c + key_count rest

-- How many revisions a node holds.
unfoldable pub revision_count : Node → ℕ
revision_count end = 0
revision_count (entry p rs tb c rest) = length rs + revision_count c + revision_count rest

search_after-le : (through : ℕ) (rs : List ℕ) → search_after through rs ≤ length rs
unfolding search_after
search_after-le through [] = omega arith
search_after-le through (r ∷ rs) = ground (arith, search_after-le through rs)

length-drop : (i : ℕ) (rs : List ℕ) → i ≤ length rs → length (drop i rs) + i ≡ length rs
length-drop zero rs h = omega arith
length-drop (suc i) [] h = omega arith
length-drop (suc i) (r ∷ rs) h = omega (arith, length-drop i rs)

is_empty-pos : (l : List ℕ) → 0 < length l → is_empty l ≡ false
is_empty-pos [] h = absurd (omega arith)
is_empty-pos (x ∷ l) h = refl

compact_entry-counts :
    (through : ℕ) (rs : List ℕ) (tb : Bool)
    → (length (compact_entry rs tb through).0.kept + (compact_entry rs tb through).0.dropped
        ≡ length rs)
      × ((if (compact_entry rs tb through).0.gone then 1 else 0)
            + (if is_empty (compact_entry rs tb through).0.kept then 0 else 1)
          ≡ (if is_empty rs then 0 else 1))
unfolding compact_entry compact_revisions
compact_entry-counts through [] tb = (omega arith, omega arith)
compact_entry-counts through (r ∷ rs) tb =
    let i = search_after through (r ∷ rs) - 1 in
    let le = search_after-le through (r ∷ rs) in
    let left = length-drop i (r ∷ rs) (omega (arith, le)) in
    let some_left = is_empty-pos (drop i (r ∷ rs)) (omega (arith, left, le)) in
    (ground (arith, left), ground (arith, some_left))

-- Compact returns the number of keys that the node lost and the number of revisions that it lost.
pub compact_node-counts :
    (through : ℕ) (n : Node)
    → (key_count (compact_node through n).0 + (compact_node through n).1 ≡ key_count n)
      × (revision_count (compact_node through n).0 + (compact_node through n).2 ≡ revision_count n)
unfolding key_count revision_count compact_node
compact_node-counts through end = (omega arith, omega arith)
compact_node-counts through (entry p rs tb c rest) =
    let e = compact_entry-counts through rs tb in
    let child = compact_node-counts through c in
    let behind = compact_node-counts through rest in
    (omega (arith, e.1, child.0, behind.0), omega (arith, e.0, child.1, behind.1))
