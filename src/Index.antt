-- ===== src/Index.antt =====
-- pkg/bptree/bptree.go: the radix tree that maps each key to the revisions at which it was
-- written. A node is the list of its entries; a nil child is the node with no entries, which
-- every method treats alike, and a nil slice of revisions is the empty one. `find` is the walk
-- past the entries whose first byte is smaller: sort.Search returns the smallest index at which
-- the test holds.
pub mod Edge
pub mod Sorted
pub mod Branches
pub mod Add
pub mod Trim
pub mod Map
use cloudetcd.Base.{
  ℕ, zero, suc, ◌+◌, ◌-◌, Bytes, Bool, true, false, ◌&&◌, List, [], ◌∷◌, ◌++◌, Option, none, some,
  length, take, drop, ltb, leb, nat_beq, is_empty, has_prefix, bytes_less, bytes_equal,
  if◌then◌else◌,
}

-- One entry of a node, and the entries behind it.
pub data Node : Type 0 where
  end : Node
  entry :
      (prefix : Bytes) (revisions : List ℕ) (tombstone : Bool) (child : Node) (rest : Node) → Node

-- `prefix[0]`; a prefix in a tree is never empty.
abbrev pub first : Bytes → ℕ
first [] = 0
first (b ∷ p) = b

unfoldable pub common_prefix_len : Bytes → Bytes → ℕ
common_prefix_len [] b = 0
common_prefix_len (x ∷ a) [] = 0
common_prefix_len (x ∷ a) (y ∷ b) = if nat_beq x y then suc (common_prefix_len a b) else 0

-- addRevision. Each call on a child has a shorter key, so the length of the key is fuel enough.
unfoldable pub add_revision : ℕ → Node → Bytes → ℕ → Bool → Node × Bool
add_revision zero n key revision t = (n, false)
add_revision (suc f) end key revision t = (entry key (revision ∷ []) t end end, true)
add_revision (suc f) (entry p rs tb c rest) key revision t =
    let common = common_prefix_len p key in
    let split_child = entry (drop common p) rs tb c end in
    let beyond : Node × Bool =
      (let (n, is_new) = add_revision (suc f) rest key revision t in (entry p rs tb c n, is_new)) in
    let below : Node × Bool =
      (let (n, is_new) = add_revision f c (drop common key) revision t in
        (entry p rs tb n rest, is_new)) in
    let beside : Node × Bool =
      (let (n, is_new) = add_revision f split_child (drop common key) revision t in
        (entry (take common p) [] false n rest, is_new)) in
    if ltb (first p) (first key)
    then beyond
    else if ltb (first key) (first p)
    then (entry key (revision ∷ []) t end (entry p rs tb c rest), true)
    else if nat_beq common (length p)
    then (if nat_beq common (length key)
        then (entry p (rs ++ revision ∷ []) t c rest, is_empty rs)
        else below)
    else if nat_beq common (length key)
    then (entry (take common p) (revision ∷ []) t split_child rest, true)
    else beside

-- The revisions of the key below this node, or none at all.
unfoldable pub lookup_node : Node → Bytes → List ℕ
lookup_node end key = []
lookup_node (entry p rs tb c rest) key =
    let beyond = lookup_node rest key in
    let below = lookup_node c (drop (length p) key) in
    if ltb (first p) (first key)
    then beyond
    else if ltb (first key) (first p)
    then []
    else if has_prefix key p
    then (if nat_beq (length key) (length p) then rs else below)
    else []

-- The index: the root, the entry of the empty key and the number of keys.
pub record Index : Type 0 where
  pub root : Node
  pub empty_revisions : List ℕ
  pub empty_tombstone : Bool
  pub keys : ℕ

unfoldable pub empty_index : Index
empty_index = record { root = end; empty_revisions = []; empty_tombstone = false; keys = 0 }

-- AddRevision.
unfoldable pub add : Index → Bytes → ℕ → Bool → Index
add t [] revision tombstone = record t {
  empty_revisions = t.empty_revisions ++ revision ∷ [];
  empty_tombstone = tombstone;
  keys = if is_empty t.empty_revisions then t.keys + 1 else t.keys;
}
add t (b ∷ key) revision tombstone =
    let (root, is_new) = add_revision (length (b ∷ key)) t.root (b ∷ key) revision tombstone in
    record t { root = root; keys = if is_new then t.keys + 1 else t.keys }

unfoldable pub revisions_of : Index → Bytes → List ℕ
revisions_of t [] = t.empty_revisions
revisions_of t (b ∷ key) = lookup_node t.root (b ∷ key)

-- The scan back from the newest revision.
unfoldable pub latest_at : ℕ → List ℕ → Option ℕ
latest_at at [] = none
latest_at at (r ∷ rs) = elim (latest_at at rs) [
  | some later ↦ some later
  | none ↦ if leb r at then some r else none
]

-- GetLatestRevisionByKey.
unfoldable pub get_latest : Index → Bytes → ℕ → Option ℕ
get_latest t key at = latest_at at (revisions_of t key)

-- `revisions[len(revisions)-1]`.
unfoldable pub newest : List ℕ → ℕ
newest [] = 0
newest (r ∷ []) = r
newest (r ∷ s ∷ rs) = newest (s ∷ rs)

-- The smallest index of a revision after `through`.
unfoldable pub search_after : ℕ → List ℕ → ℕ
search_after through [] = 0
search_after through (r ∷ rs) = if ltb through r then 0 else suc (search_after through rs)

-- What compactRevisions returns.
pub record Trimmed : Type 0 where
  pub kept : List ℕ
  pub dropped : ℕ
  pub gone : Bool

-- compactRevisions; `i - 1` stops at 0, as the guard `i > 0` has it.
unfoldable pub compact_revisions : List ℕ → Bool → ℕ → Trimmed
compact_revisions revisions tombstone through =
    let i = search_after through revisions - 1 in
    if tombstone && leb (newest revisions) through
    then record { kept = []; dropped = length revisions; gone = true }
    else if nat_beq i 0
    then record { kept = revisions; dropped = 0; gone = false }
    else record { kept = drop i revisions; dropped = i; gone = false }

-- The method `compact` of an entry: its revisions, its flag, what it dropped and whether it went.
unfoldable pub compact_entry : List ℕ → Bool → ℕ → Trimmed × Bool
compact_entry [] tombstone through = (record { kept = []; dropped = 0; gone = false }, tombstone)
compact_entry (r ∷ rs) tombstone through =
    let e = compact_revisions (r ∷ rs) tombstone through in (e, if e.gone then false else tombstone)

-- The method `compact` of a node: the keys removed and the revisions dropped behind it.
unfoldable pub compact_node : ℕ → Node → Node × ℕ × ℕ
compact_node through end = (end, 0, 0)
compact_node through (entry p rs tb c rest) =
    let (e, tombstone) = compact_entry rs tb through in
    let (child, k, d) = compact_node through c in
    let (behind, ks, ds) = compact_node through rest in
    (entry p e.kept tombstone child behind, (if e.gone then 1 else 0) + k + ks, e.dropped + d + ds)

-- Compact, with the numbers of keys removed and revisions dropped.
unfoldable pub compact : Index → ℕ → Index × ℕ × ℕ
compact t through =
    let (e, tombstone) = compact_entry t.empty_revisions t.empty_tombstone through in
    let (root, k, d) = compact_node through t.root in
    let removed = (if e.gone then 1 else 0) + k in
    (
      record {
        root = root;
        empty_revisions = e.kept;
        empty_tombstone = tombstone;
        keys = t.keys - removed;
      },
      removed,
      e.dropped + d,
    )

-- What a callback does with a state `S`; false stops the walk.
abbrev pub Callback : Type 0 → Type 0
Callback S = Bytes → List ℕ → S → S × Bool

module _ {S : Type 0} where
  -- `next` after a step, unless the step stopped the walk.
  abbrev pub and_then : S × Bool → (S → S × Bool) → S × Bool
  and_then (s, true) next = next s
  and_then (s, false) next = (s, false)

  -- The callback for the key that ends at an entry, if one does.
  abbrev pub emit : Callback S → Bytes → List ℕ → S → S × Bool
  emit callback key [] s = (s, true)
  emit callback key (r ∷ rs) s = callback key (r ∷ rs) s

  -- list: `path` leads to the node, and `start` is empty once everything qualifies.
  unfoldable pub list_node : Callback S → Bytes → Bytes → Node → S → S × Bool
  list_node callback path start end s = (s, true)
  list_node callback path start (entry p rs tb c rest) s =
      let m = if ltb (length p) (length start) then length p else length start in
      let key = path ++ p in
      let skip = list_node callback path start rest s in
      let partly =
        and_then (list_node callback key (drop (length p) start) c s)
          (list_node callback path [] rest) in
      let whole =
        and_then (emit callback key rs s)
          λ s₁. and_then (list_node callback key [] c s₁) (list_node callback path [] rest) in
      if is_empty start
      then whole
      else if ltb (first p) (first start)
      then skip
      else if bytes_less (take m p) (take m start)
      then skip
      else if bytes_equal (take m p) (take m start) && ltb (length p) (length start)
      then partly
      else whole

  -- ListRevisionsByKeyRange.
  unfoldable pub list_range : Callback S → Bytes → Index → S → S
  list_range callback [] t s =
      (and_then (emit callback [] t.empty_revisions s) (list_node callback [] [] t.root)).0
  list_range callback (b ∷ start) t s = (list_node callback [] (b ∷ start) t.root s).0
